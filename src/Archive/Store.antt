-- ===== src/Archive/Store.antt =====
-- The loop of `store` of bootstrap-sandbox/src/archive_block.rs.
use openmina_poc.Base.{
  ℕ, zero, suc, ◌+◌, ◌<◌, ◌≤◌, ◌≡◌, refl, sym, ap, ◌∙◌, arith, List, Option, none, some, done,
  ◌>>=◌, Result, ok, err, ◌==◌, Bool-cases, Option-cases, inl, inr, ◌⊎◌,
}
use openmina_poc.Files.{Files, FilePath, create, create_self, path_eq, path_eq→≡}
use openmina_poc.Ledger.{unwrap}
use openmina_poc.Ledger.Sync.{Finishes, >>=-Finishes, Finishes-mono}
use openmina_poc.Archive.{
  Block, Explorer, Storing, json_path, on_text, or_build, get_block, on_block, store_one, on_turn,
  store,
}

-- How many of the heights below a number have no file.
abbrev absent_at : Option (List ℕ) → ℕ
absent_at none = 1
absent_at (some bytes) = 0

abbrev pub absent : ℕ → Files → ℕ
absent zero files = 0
absent (suc n) files = absent_at (files (json_path n)) + absent n files

absent_at-le : (o : Option (List ℕ)) → absent_at o ≤ 1
absent_at-le none = omega arith
absent_at-le (some bytes) = omega arith

pub absent-le : (n : ℕ) (files : Files) → absent n files ≤ n
absent-le zero files = omega arith
absent-le (suc n) files = omega (arith, absent-le n files, absent_at-le (files (json_path n)))

create_old :
    (path other : FilePath) (text bytes : List ℕ) (files : Files)
    → files path ≡ none
    → files other ≡ some bytes
    → create path text files other ≡ some bytes
unfolding create
create_old path other text bytes files missing there = elim (Bool-cases (path_eq path other)) [
  | inl same ↦
      let clash : files other ≡ none = ap files (sym (path_eq→≡ path other same)) ∙ missing in
      absurd cc
  | inr apart ↦ rw apart there
]

-- A file more leaves no more heights without one.
absent_at-create_le :
    (path other : FilePath) (text : List ℕ) (files : Files)
    → files path ≡ none
    → absent_at (create path text files other) ≤ absent_at (files other)
absent_at-create_le path other text files missing = elim (Option-cases (files other)) [
  | inl free ↦ rw free (absent_at-le (create path text files other))
  | inr (bytes, there) ↦
      rw (there, create_old path other text bytes files missing there) (omega arith)
]

absent-create_le :
    (n : ℕ) (path : FilePath) (text : List ℕ) (files : Files)
    → files path ≡ none
    → absent n (create path text files) ≤ absent n files
absent-create_le zero path text files missing = omega arith
absent-create_le (suc n) path text files missing = omega (
  arith,
  absent_at-create_le path (json_path n) text files missing,
  absent-create_le n path text files missing,
)

-- A new file of a height leaves one less.
pub absent-create_lt :
    (n height : ℕ) (text : List ℕ) (files : Files)
    → height < n
    → files (json_path height) ≡ none
    → absent n (create (json_path height) text files) < absent n files
absent-create_lt zero height text files below missing = absurd (omega arith)
absent-create_lt (suc n) height text files below missing = elim (Bool-cases (height == n)) [
  | inl last ↦
      let same : height ≡ n = ground arith in
      let before : absent_at (files (json_path n)) ≡ 1 =
        ap (λ (k : ℕ). absent_at (files (json_path k))) (sym same) ∙ ap absent_at missing in
      let after : absent_at (create (json_path height) text files (json_path n)) ≡ 0 =
        ap (λ (k : ℕ). absent_at (create (json_path height) text files (json_path k))) (sym same)
        ∙ ap absent_at (create_self (json_path height) text files) in
      omega (arith, before, after, absent-create_le n (json_path height) text files missing)
  | inr earlier ↦
      let below' : height < n = ground arith in
      omega (
        arith,
        absent_at-create_le (json_path height) (json_path n) text files missing,
        absent-create_lt n height text files below' missing,
      )
]

module _ {H K C W : Type 0} (explorer : Explorer H K C W) where
  -- A file was there before, or is that of the block which it parses as.
  abbrev pub Stored : Files → Files → Type 0
  Stored files files' =
      ((path : FilePath) (bytes : List ℕ) → files path ≡ some bytes → files' path ≡ some bytes)
      × ((path : FilePath) (bytes : List ℕ)
          → files' path ≡ some bytes
          → (files path ≡ some bytes)
            ⊎ ((block : Block H K) × (explorer.parse bytes ≡ some block)
                × (path ≡ json_path block.block_height)))

  Stored-refl : (files : Files) → Stored files files
  Stored-refl files = (λ path bytes e. e, λ path bytes e. inl e)

  Stored-trans : (a b c : Files) → Stored a b → Stored b c → Stored a c
  Stored-trans a b c f g = (
    λ path bytes e. g.0 path bytes (f.0 path bytes e),
    λ path bytes e. elim (g.1 path bytes e) [ inl old ↦ f.1 path bytes old | inr new ↦ inr new ],
  )

  create-Stored :
      (files : Files) (text : List ℕ) (block : Block H K)
      → files (json_path block.block_height) ≡ none
      → explorer.parse text ≡ some block
      → Stored files (create (json_path block.block_height) text files)
  unfolding create
  create-Stored files text block missing parsed =
      let path = json_path block.block_height in
      (
        λ other bytes e. create_old path other text bytes files missing e,
        λ other bytes e. elim (Bool-cases (path_eq path other)) [
          | inl same ↦
              let written : some text ≡ some bytes = rw same at e in
              let contents : text ≡ bytes = cc in
              inr
                (block, ap explorer.parse (sym contents) ∙ parsed, sym (path_eq→≡ path other same))
          | inr apart ↦ inl (rw apart at e)
        ],
      )

  get_block-Finishes :
      (tries : ℕ) (client : Option C) (w : W) (current : H)
      → Finishes (λ (got : Option C × W × List ℕ). Unit) (get_block explorer tries client w current)
  unfolding get_block
  get_block-Finishes zero client w current = tt
  get_block-Finishes (suc tries) client w current =
      go (explorer.get_text (or_build explorer client) w current)
        (λ w'. get_block-Finishes tries none w' current)
    where
      go :
          (r : W × Result (List ℕ) (Unit {0}))
          → ((w' : W)
              → Finishes
                  (λ (got : Option C × W × List ℕ). Unit)
                  (get_block explorer tries none w' current))
          → Finishes
              (λ (got : Option C × W × List ℕ). Unit)
              (on_text explorer
                (or_build explorer client)
                r
                (λ w'. get_block explorer tries none w' current))
      go (w', ok text) h = tt
      go (w', err e) h = h w'

  -- The bound of a block's height, a `u32`.
  abbrev pub Bounded : ℕ → Type 0
  Bounded n =
      (text : List ℕ) (block : Block H K)
      → explorer.parse text ≡ some block
      → block.block_height < n

  abbrev Turned : ℕ → Storing explorer → Storing explorer × Option H → Type 0
  Turned n s (s', none) = Stored s.files s'.files
  Turned n s (s', some current) = Stored s.files s'.files × (absent n s'.files < absent n s.files)

  on_block-Turned :
      (n : ℕ) (s : Storing explorer) (got : Option C × W × List ℕ) (block : Block H K)
      → Bounded n
      → explorer.parse got.2 ≡ some block
      → Turned n s (on_block explorer got s.files block)
  on_block-Turned n s got block bounded parsed =
      let path = json_path block.block_height in
      elim (Option-cases (s.files path)) [
        | inr (bytes, there) ↦ rw there (Stored-refl s.files)
        | inl missing ↦
            let stored = create-Stored s.files got.2 block missing parsed in
            let less =
              absent-create_lt n block.block_height got.2 s.files (bounded got.2 block parsed)
                missing in
            elim (Bool-cases (block.block_height == 1)) [
              | inl genesis ↦ rw (missing, genesis) stored
              | inr later ↦ rw (missing, later) (stored, less)
            ]
      ]

  parsed-Finishes :
      (n : ℕ) (s : Storing explorer) (got : Option C × W × List ℕ) (o : Option (Block H K))
      → Bounded n
      → explorer.parse got.2 ≡ o
      → Finishes (Turned n s) (unwrap o >>= λ block. done (on_block explorer got s.files block))
  parsed-Finishes n s got none bounded e = tt
  parsed-Finishes n s got (some block) bounded e = on_block-Turned n s got block bounded e

  store_one-Finishes :
      (n : ℕ) (s : Storing explorer) (current : H)
      → Bounded n
      → Finishes (Turned n s) (store_one explorer s current)
  unfolding store_one
  store_one-Finishes n s current bounded =
      >>=-Finishes (λ (got : Option C × W × List ℕ). Unit) (Turned n s)
        (get_block explorer 8 s.client s.network current) _
        (get_block-Finishes 8 s.client s.network current)
        (λ got u. parsed-Finishes n s got (explorer.parse got.2) bounded refl)

  -- Whatever the explorer answers, where a block's height is below a bound, the archiving ends with a
  -- turn of the loop for each height below it that has no file, and one more, and unless it aborts,
  -- every file from before is as it was, and every other one is named by the height of the block that
  -- it parses as.
  pub store-Stored :
      (n fuel : ℕ) (s : Storing explorer) (current : H)
      → Bounded n
      → absent n s.files < fuel
      → Finishes
          (λ (s' : Storing explorer). Stored s.files s'.files)
          (store explorer fuel s current)
  unfolding store
  store-Stored n zero s current bounded lt = absurd (omega arith)
  store-Stored n (suc fuel) s current bounded lt =
      >>=-Finishes (Turned n s) (λ (s' : Storing explorer). Stored s.files s'.files)
        (store_one explorer s current) _ (store_one-Finishes n s current bounded)
        (λ turn turned. go turn turned (λ s1 next less. store-Stored n fuel s1 next bounded less))
    where
      go :
          (turn : Storing explorer × Option H)
          → Turned n s turn
          → ((s1 : Storing explorer) (next : H)
              → absent n s1.files < fuel
              → Finishes
                  (λ (s' : Storing explorer). Stored s1.files s'.files)
                  (store explorer fuel s1 next))
          → Finishes
              (λ (s' : Storing explorer). Stored s.files s'.files)
              (on_turn explorer turn (store explorer fuel))
      go (s1, none) turned rest = turned
      go (s1, some next) (stored, less) rest =
          Finishes-mono (λ (s' : Storing explorer). Stored s1.files s'.files)
            (λ (s' : Storing explorer). Stored s.files s'.files) (store explorer fuel s1 next)
            (λ s' later. Stored-trans s.files s1.files s'.files stored later)
            (rest s1 next (omega arith))
