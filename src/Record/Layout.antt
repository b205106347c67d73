-- ===== src/Record/Layout.antt =====
-- The files that `run` of bootstrap-sandbox/src/record.rs writes before it downloads the blocks.
use openmina_poc.Base.{
  ℕ, List, [], ◌∷◌, true, Option, none, some, Exec, done, panic, stuck, ◌>>=◌, bytes_eq,
  bytes_eq_refl, false, ◌≡◌, ◌≢◌, refl, sym, ap, ◌∙◌,
}
use openmina_poc.Files.{Files, FilePath, create, create_self, create_ne, decimal}
use openmina_poc.Ledger.{Mask, SnarkedLedger, unwrap, sync_new}
use openmina_poc.Ledger.Bin.{Bin, store_bin}
use openmina_poc.Mina.{Mina}
use openmina_poc.Bootstrap.{
  Staging, blocks_name, file_at, ledger_at, best_tip_name, staged_name, load_ledger,
}
use openmina_poc.Record.{Node, record_ledger, ancestry_name, epoch_ledger_name, current_ledger_name}
use openmina_poc.Record.Beside.{blocks-apart}

pub >>=-done :
    {A B : Type 0} (r : Exec A) (f : A → Exec B) (b : B)
    → (r >>= f) ≡ done b
    → (a : A) × (r ≡ done a) × (f a ≡ done b)
>>=-done (done a) f b e = (a, refl, e)
>>=-done panic f b e = absurd cc
>>=-done stuck f b e = absurd cc

pub done-injective : {A : Type 0} (a b : A) → done a ≡ done b → a ≡ b
done-injective {A} a b e = ap value e
  where
    value : Exec A → A
    value (done c) = c
    value panic = a
    value stuck = a

pub >>=-cong :
    {A B : Type 0} (e : Exec A) (f g : A → Exec B) → ((a : A) → f a ≡ g a) → (e >>= f) ≡ (e >>= g)
>>=-cong (done a) f g same = same a
>>=-cong panic f g same = refl
>>=-cong stuck f g same = refl

pub >>=-at :
    {A B : Type 0} (r : Exec A) (f : A → Exec B) (a : A) (b : B)
    → r ≡ done a
    → (r >>= f) ≡ done b
    → f a ≡ done b
>>=-at r f a b p e = sym (ap (λ (s : Exec _). s >>= f) p) ∙ e

pub unwrap-done : {A : Type 0} (o : Option A) (a : A) → unwrap o ≡ done a → o ≡ some a
unwrap-done none a e = absurd cc
unwrap-done (some b) a e = cc

-- The files under "blocks" are as they were.
abbrev pub Aside : Files → Files → Type 0
Aside files files' = (xs : FilePath) → files' (blocks_name ∷ xs) ≡ files (blocks_name ∷ xs)

create-Aside :
    (height : ℕ) (ys : FilePath) (bytes : List ℕ) (files files' : Files)
    → Aside files files'
    → Aside files (create (decimal height ∷ ys) bytes files')
create-Aside height ys bytes files files' aside xs =
    create_ne (decimal height ∷ ys) (blocks_name ∷ xs) bytes files'
      (λ e. blocks-apart height xs ys (sym e))
    ∙ aside xs

file-ledger-apart :
    (height : ℕ) (name value : List ℕ) → file_at height name ≢ ledger_at height value
unfolding file_at ledger_at
file-ledger-apart height name value e = absurd cc

abbrev name_of : FilePath → List ℕ
name_of [] = []
name_of (x ∷ []) = []
name_of (x ∷ y ∷ ys) = y

file-apart :
    (height : ℕ) (name other : List ℕ) → name ≢ other → file_at height name ≢ file_at height other
unfolding file_at
file-apart height name other ne e = ne (ap name_of e)

names-apart : (xs ys : List ℕ) → bytes_eq xs ys ≡ false → xs ≢ ys
names-apart xs ys e same =
    let yes : bytes_eq xs ys ≡ true =
      ap (λ (z : List ℕ). bytes_eq xs z) (sym same) ∙ bytes_eq_refl xs in
    absurd cc

-- The files that a recording writes before it downloads the blocks.
abbrev pub Layout : ℕ → List ℕ → List ℕ → List ℕ → List ℕ → List ℕ → List ℕ → List ℕ → Files → Files
Layout height value1 value2 tip ancestry epoch current aux files =
    create (file_at height staged_name) aux (
      create (file_at height current_ledger_name) current (
        create (ledger_at height value2) current (
          create (file_at height epoch_ledger_name) epoch (
            create (ledger_at height value1) epoch (
              create (file_at height ancestry_name) ancestry
                (create (file_at height best_tip_name) tip files))))))

module _ (height : ℕ) (value1 value2 tip ancestry epoch current aux : List ℕ) (files : Files) where
  abbrev pub laid : Files
  laid = Layout height value1 value2 tip ancestry epoch current aux files

  pub tip-laid : laid (file_at height best_tip_name) ≡ some tip
  unfolding bytes_eq
  tip-laid =
      let path = file_at height best_tip_name in
      let apart : (name : List ℕ)
          → bytes_eq name best_tip_name ≡ false
          → file_at height name ≢ path =
        λ name e. file-apart height name best_tip_name (names-apart name best_tip_name e) in
      let beside : (value : List ℕ) → ledger_at height value ≢ path =
        λ value e. file-ledger-apart height best_tip_name value (sym e) in
      create_ne _ path aux _ (apart staged_name refl)
      ∙ create_ne _ path current _ (apart current_ledger_name refl)
      ∙ create_ne _ path current _ (beside value2)
      ∙ create_ne _ path epoch _ (apart epoch_ledger_name refl)
      ∙ create_ne _ path epoch _ (beside value1)
      ∙ create_ne _ path ancestry _ (apart ancestry_name refl)
      ∙ create_self path tip files

  pub ledger-laid : laid (ledger_at height value2) ≡ some current
  ledger-laid =
      let path = ledger_at height value2 in
      create_ne _ path aux _ (file-ledger-apart height staged_name value2)
      ∙ create_ne _ path current _ (file-ledger-apart height current_ledger_name value2)
      ∙ create_self path current _

  pub aux-laid : laid (file_at height staged_name) ≡ some aux
  aux-laid = create_self (file_at height staged_name) aux _

  pub laid-Aside : Aside files laid
  unfolding file_at ledger_at
  laid-Aside = create-Aside height _ aux files _ (
      create-Aside height _ current files _ (
        create-Aside height _ current files _ (
          create-Aside height _ epoch files _ (
            create-Aside height _ epoch files _ (
              create-Aside height _ ancestry files _
                (create-Aside height _ tip files files (λ xs. refl)))))))

module _ (mina : Mina) {T D H A V W : Type 0} (staging : Staging mina T H) (m : Mask T D H A V)
    (bin : Bin T H A) (node : Node mina staging W V) where
  pub record_ledger-files :
      (w w' : W) (files files' : Files) (height : ℕ) (name : List ℕ) (root : H)
      (synced : SnarkedLedger T H)
      → record_ledger mina staging m bin node w files height name root ≡ done (synced, w', files')
      → (value : List ℕ) × (staging.ledger_hash_value root ≡ some value)
        × (files'
            ≡ create
                (file_at height name)
                (store_bin m bin synced)
                (create (ledger_at height value) (store_bin m bin synced) files))
  unfolding record_ledger
  record_ledger-files w w' files files' height name root synced e =
      let (ledger, loaded, e1) =
        >>=-done (load_ledger mina staging m bin (files (file_at height name))) _ _ e in
      let (value, named, e2) = >>=-done (unwrap (staging.ledger_hash_value root)) _ _ e1 in
      let ((synced', w''), copied, e3) = >>=-done (sync_new m node.ask ledger w root) _ _ e2 in
      let same = done-injective _ _ e3 in
      (
        value,
        unwrap-done _ _ named,
        sym (ap (λ (r : SnarkedLedger T H × W × Files). r.2) same)
            ∙ ap
                (λ (r : SnarkedLedger T H × W × Files).
                  create (file_at height name) (store_bin m bin r.0)
                    (create (ledger_at height value) (store_bin m bin r.0) files))
                same,
      )
