-- ===== src/Check/Verdicts.antt =====
-- The verdict of `test_inner` in `test` of bootstrap-sandbox/src/check.rs.
use openmina_poc.Base.{
  ℕ, ◌≡◌, ◌≢◌, ◌↔◌, refl, sym, ap, ◌∙◌, List, [], ◌∷◌, ◌++◌, Bool, true, false, Option, none, some,
  ==_iff, if◌then◌else◌, inl, inr, bytes_eq, bytes_eq→≡, bytes_eq_refl, Bool-cases, All,
}
use openmina_poc.Check.{
  TestError, Checked, passed, ◌>>=◌, ◌>>◌, ok_or, ensure, string_value, first, is_height, Ledger,
  Ledgers, Block, SyncEvent, BestTip, find_kind, ledger_at, bootstrap_kind, root_name,
  applied_status, test_inner,
}
use mathlib.Core.Option.{some-injective}

module _ {B : Type 0} where
  pub ok_or->>= :
      {A : Type 0} (e : TestError) (o : Option A) (f : A → Checked B) (b : B)
      → (ok_or e o >>= f) ≡ passed b
      → (a : A) × (o ≡ some a) × (f a ≡ passed b)
  ok_or->>= e none f b h = absurd cc
  ok_or->>= e (some a) f b h = (a, refl, h)

  pub string_value->>= :
      (o : Option (List ℕ)) (f : List ℕ → Checked B) (b : B)
      → (string_value o >>= f) ≡ passed b
      → (a : List ℕ) × (o ≡ some a) × (f a ≡ passed b)
  string_value->>= none f b h = absurd cc
  string_value->>= (some a) f b h = (a, refl, h)

  pub ensure->> :
      (e : TestError) (t : Bool) (rest : Checked B) (b : B)
      → (ensure e t >> rest) ≡ passed b
      → (t ≡ true) × (rest ≡ passed b)
  ensure->> e true rest b h = (refl, h)
  ensure->> e false rest b h = absurd cc

pub ensure-passed : (e : TestError) (t : Bool) → ensure e t ≡ passed tt → t ≡ true
ensure-passed e true h = refl
ensure-passed e false h = absurd cc

pub first-some :
    {A : Type 0} (xs : List A) (x : A) → first xs ≡ some x → (ys : List A) × (xs ≡ x ∷ ys)
first-some [] x h = absurd cc
first-some (y ∷ ys) x h = (ys, ap (λ z. z ∷ ys) (some-injective y x h))

is_height-some : (o : Option ℕ) (n : ℕ) → is_height o n ≡ true → o ≡ some n
is_height-some none n h = absurd cc
is_height-some (some m) n h = ap some ((==_iff m n).0 h)

-- The entry under a name stands in the list behind entries of other names alone.
abbrev pub FirstAt : List ℕ → List (List ℕ × Ledgers) → Ledgers → Type 0
FirstAt name entries l =
    (before after : List (List ℕ × Ledgers)) × (entries ≡ before ++ (name, l) ∷ after)
    × All (λ e. e.0 ≢ name) before

-- The run passes: its first event of the kind "Bootstrap" is synced, has the root ledger with both
-- its parts, of which the snarked one has the hash that the best tip's root proves, and its head
-- block has the best tip's height and hash and is applied.
pub record Passes (events : List SyncEvent) (tip : BestTip) : Type 0 where
  pub earlier : List SyncEvent
  pub bootstrap : SyncEvent
  pub later : List SyncEvent
  pub is_split : events ≡ earlier ++ bootstrap ∷ later
  pub is_first : All (λ e. e.kind ≢ bootstrap_kind) earlier
  pub is_bootstrap : bootstrap.kind ≡ bootstrap_kind
  pub time : ℕ
  pub is_synced : bootstrap.synced ≡ some time
  pub root : Ledgers
  pub has_root : FirstAt root_name bootstrap.ledgers root
  pub snarked : Ledger
  pub has_snarked : root.snarked ≡ some snarked
  pub staged : Ledger
  pub has_staged : root.staged ≡ some staged
  pub is_proved : tip.snarked_ledger_hash ≡ some snarked.hash
  pub head : Block
  pub blocks : List Block
  pub has_head : bootstrap.blocks ≡ head ∷ blocks
  pub has_height : head.height ≡ some tip.blockchain_length
  pub is_applied : head.status ≡ applied_status
  pub has_hash : head.hash ≡ tip.state_hash

bytes_eq-false : (xs ys : List ℕ) → bytes_eq xs ys ≡ false → xs ≢ ys
bytes_eq-false xs ys f e =
    let t : bytes_eq xs ys ≡ true = ap (bytes_eq xs) (sym e) ∙ bytes_eq_refl xs in absurd cc

bytes_ne : (xs ys : List ℕ) → xs ≢ ys → bytes_eq xs ys ≡ false
bytes_ne xs ys ne = elim (Bool-cases (bytes_eq xs ys)) [
  | inl t ↦ absurd (ne (bytes_eq→≡ xs ys t))
  | inr f ↦ f
]

ledger_at-FirstAt :
    (name : List ℕ) (entries : List (List ℕ × Ledgers)) (l : Ledgers)
    → ledger_at name entries ≡ some l
    → FirstAt name entries l
unfolding ledger_at
ledger_at-FirstAt name [] l h = absurd cc
ledger_at-FirstAt name ((n, k) ∷ entries) l h =
    let pick : Bool → Option Ledgers = λ b. if b then some k else ledger_at name entries in
    elim (Bool-cases (bytes_eq n name)) [
      | inl t ↦
          let same : k ≡ l = some-injective k l (sym (ap pick t) ∙ h) in
          ([], entries, rw (bytes_eq→≡ n name t, same) refl, tt)
      | inr f ↦
          let (before, after, split, others) =
            ledger_at-FirstAt name entries l (sym (ap pick f) ∙ h) in
          ((n, k) ∷ before, after, ap (◌∷◌ (n, k)) split, (bytes_eq-false n name f, others))
    ]

FirstAt-ledger_at :
    (name : List ℕ) (before after : List (List ℕ × Ledgers)) (l : Ledgers)
    → All (λ e. e.0 ≢ name) before
    → ledger_at name (before ++ (name, l) ∷ after) ≡ some l
unfolding ledger_at
FirstAt-ledger_at name [] after l a = rw (bytes_eq_refl name) refl
FirstAt-ledger_at name ((n, k) ∷ before) after l (ne, a) =
    rw (bytes_ne n name ne) (FirstAt-ledger_at name before after l a)

abbrev Found : List SyncEvent → SyncEvent → Type 0
Found events e =
    (earlier later : List SyncEvent) × (events ≡ earlier ++ e ∷ later)
    × All (λ e'. e'.kind ≢ bootstrap_kind) earlier
    × (e.kind ≡ bootstrap_kind)

find_kind-Found :
    (events : List SyncEvent) (e : SyncEvent)
    → find_kind bootstrap_kind events ≡ some e
    → Found events e
unfolding find_kind
find_kind-Found [] e h = absurd cc
find_kind-Found (x ∷ events) e h =
    let pick : Bool → Option SyncEvent =
      λ b. if b then some x else find_kind bootstrap_kind events in
    elim (Bool-cases (bytes_eq x.kind bootstrap_kind)) [
      | inl t ↦
          let x_is : x ≡ e = some-injective x e (sym (ap pick t) ∙ h) in
          (
            [],
            events,
            ap (λ z. z ∷ events) x_is,
            tt,
            ap (λ z. z.kind) (sym x_is) ∙ bytes_eq→≡ x.kind bootstrap_kind t,
          )
      | inr f ↦
          let (earlier, later, split, none_before, kind) =
            find_kind-Found events e (sym (ap pick f) ∙ h) in
          (
            x ∷ earlier,
            later,
            ap (◌∷◌ x) split,
            (bytes_eq-false x.kind bootstrap_kind f, none_before),
            kind,
          )
    ]

Found-find_kind :
    (earlier later : List SyncEvent) (e : SyncEvent)
    → All (λ e'. e'.kind ≢ bootstrap_kind) earlier
    → e.kind ≡ bootstrap_kind
    → find_kind bootstrap_kind (earlier ++ e ∷ later) ≡ some e
unfolding find_kind
Found-find_kind [] later e a k = rw (k, bytes_eq_refl bootstrap_kind) refl
Found-find_kind (x ∷ earlier) later e (n, a) k =
    rw (bytes_ne x.kind bootstrap_kind n) (Found-find_kind earlier later e a k)

-- `test_inner` passes exactly where the run passes.
pub test_inner-Passes :
    (events : List SyncEvent) (tip : BestTip)
    → (test_inner events tip ≡ passed tt) ↔ Passes events tip
unfolding test_inner
test_inner-Passes events tip = (passes, complete)
  where
    passes : test_inner events tip ≡ passed tt → Passes events tip
    passes h₀ =
        let (bootstrap, found, h₁) = ok_or->>= _ (find_kind bootstrap_kind events) _ tt h₀ in
        let (time, is_synced, h₂) = ok_or->>= _ bootstrap.synced _ tt h₁ in
        let (root, has_root, h₃) = ok_or->>= _ (ledger_at root_name bootstrap.ledgers) _ tt h₂ in
        let (snarked, has_snarked, h₄) = ok_or->>= _ root.snarked _ tt h₃ in
        let (staged, has_staged, h₅) = ok_or->>= _ root.staged _ tt h₄ in
        let (expected, is_string, h₆) = string_value->>= tip.snarked_ledger_hash _ tt h₅ in
        let (same_ledger, h₇) = ensure->> _ (bytes_eq expected snarked.hash) _ tt h₆ in
        let (head, is_head, h₈) = ok_or->>= _ (first bootstrap.blocks) _ tt h₇ in
        let (same_height, h₉) = ensure->> _ (is_height head.height tip.blockchain_length) _ tt h₈ in
        let (same_status, h₁₀) = ensure->> _ (bytes_eq head.status applied_status) _ tt h₉ in
        let same_hash = ensure-passed _ (bytes_eq head.hash tip.state_hash) h₁₀ in
        let (earlier, later, is_split, is_first, is_bootstrap) =
          find_kind-Found events bootstrap found in
        let (blocks, has_head) = first-some bootstrap.blocks head is_head in
        record {
          earlier = earlier;
          bootstrap = bootstrap;
          later = later;
          is_split = is_split;
          is_first = is_first;
          is_bootstrap = is_bootstrap;
          time = time;
          is_synced = is_synced;
          root = root;
          has_root = ledger_at-FirstAt root_name bootstrap.ledgers root has_root;
          snarked = snarked;
          has_snarked = has_snarked;
          staged = staged;
          has_staged = has_staged;
          is_proved = is_string ∙ ap some (bytes_eq→≡ expected snarked.hash same_ledger);
          head = head;
          blocks = blocks;
          has_head = has_head;
          has_height = is_height-some head.height tip.blockchain_length same_height;
          is_applied = bytes_eq→≡ head.status applied_status same_status;
          has_hash = bytes_eq→≡ head.hash tip.state_hash same_hash;
        }

    complete : Passes events tip → test_inner events tip ≡ passed tt
    complete p = simp (
      p.is_split,
      Found-find_kind p.earlier p.later p.bootstrap p.is_first p.is_bootstrap,
      p.is_synced,
      p.has_root.2,
      FirstAt-ledger_at root_name p.has_root.0 p.has_root.1 p.root p.has_root.3,
      p.has_snarked,
      p.has_staged,
      p.is_proved,
      bytes_eq_refl p.snarked.hash,
      p.has_head,
      p.has_height,
      (==_iff tip.blockchain_length tip.blockchain_length).1 refl,
      p.is_applied,
      bytes_eq_refl applied_status,
      p.has_hash,
      bytes_eq_refl tip.state_hash,
    )
