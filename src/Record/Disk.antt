-- ===== src/Record/Disk.antt =====
-- The block files and the table that a recording keeps (bootstrap-sandbox/src/record.rs): what they
-- mean, and that writing a block, a proof or an entry keeps it.
use openmina_poc.Base.{
  ℕ, List, [], ◌∷◌, some, All, ◌≡◌, ◌≢◌, refl, sym, ap, subst, ◌∙◌, Bool-cases, inl, inr,
}
use openmina_poc.Base.Map.{Map, get, insert, get-insert_self, get-insert_ne}
use openmina_poc.Files.{
  Files, FilePath, create, path_eq, path_eq→≡, create_ne, bytes_key, bytes_eq_iff,
}
use openmina_poc.Mina.{Mina, Lawful}
use openmina_poc.Bootstrap.{block_path, table_path}
use openmina_poc.Record.{proof_path, proof_name}

abbrev pub Present : Files → FilePath → Type 0
Present files path = (bytes : List ℕ) × (files path ≡ some bytes)

pub create-Present :
    (path other : FilePath) (bytes : List ℕ) (files : Files)
    → Present files other
    → Present (create path bytes files) other
unfolding create
create-Present path other bytes files p = elim (Bool-cases (path_eq path other)) [
  | inl same ↦ (bytes, rw same)
  | inr apart ↦ rw apart p
]

abbrev pub Entered : Map (List ℕ) ℕ → List ℕ → Type 0
Entered table s = (height : ℕ) × (get s table ≡ some height)

abbrev third : FilePath → List ℕ
third (a ∷ b ∷ c ∷ d) = c
third (a ∷ b ∷ []) = []
third (a ∷ []) = []
third [] = []

module _ (mina : Mina) (laws : Lawful mina) where
  proof_name-apart : (s : List ℕ) (h : mina.Hash) → proof_name s ≢ mina.to_string h
  unfolding proof_name
  proof_name-apart s h e =
      let plain : All (λ c. c ≢ b'_') (proof_name s) =
        subst (All (λ c. c ≢ b'_')) (sym e) (laws.to_string-plain h) in
      plain.1.1.1.1.1.0 refl

  pub proof_path-apart :
      (height height' : ℕ) (s : List ℕ) (h : mina.Hash)
      → proof_path height s ≢ block_path height' (mina.to_string h)
  unfolding proof_path block_path
  proof_path-apart height height' s h e = proof_name-apart s h (ap third e)

module _ (mina : Mina) (laws : Lawful mina) (block_at : mina.Hash → mina.Block) where
  -- The file of a block, under whatever height, reads as the block with the hash in its name.
  abbrev pub Truthful : Files → Type 0
  Truthful files =
      (height : ℕ) (h : mina.Hash) (bytes : List ℕ)
      → files (block_path height (mina.to_string h)) ≡ some bytes
      → mina.read_block bytes ≡ some (block_at h)

  -- The block of an entry of the table has its file.
  abbrev pub Listed : Map (List ℕ) ℕ → Files → Type 0
  Listed table files =
      (h : mina.Hash) (height : ℕ)
      → get (mina.to_string h) table ≡ some height
      → Present files (block_path height (mina.to_string h))

  block_path-injective : (a b : ℕ) (s t : List ℕ) → block_path a s ≡ block_path b t → s ≡ t
  unfolding block_path
  block_path-injective a b s t e = ap third e

  pub create-block-Truthful :
      (height : ℕ) (h : mina.Hash) (files : Files)
      → Truthful files
      → Truthful
          (create (block_path height (mina.to_string h)) (mina.write_block (block_at h)) files)
  unfolding create
  create-block-Truthful height h files truthful height' h' bytes e =
      let path = block_path height (mina.to_string h) in
      let path' = block_path height' (mina.to_string h') in
      elim (Bool-cases (path_eq path path')) [
        | inl same ↦
            let names =
              block_path-injective height height' (mina.to_string h) (mina.to_string h')
                (path_eq→≡ path path' same) in
            let hashes = laws.to_string_injective h h' names in
            let written : some (mina.write_block (block_at h)) ≡ some bytes = rw same at e in
            let contents : mina.write_block (block_at h) ≡ bytes = cc in
            rw (sym contents, laws.read-write_block (block_at h), hashes)
        | inr apart ↦ truthful height' h' bytes (rw apart at e)
      ]

  pub create-proof-Truthful :
      (height : ℕ) (s bytes : List ℕ) (files : Files)
      → Truthful files
      → Truthful (create (proof_path height s) bytes files)
  create-proof-Truthful height s bytes files truthful height' h' bytes' e =
      truthful height' h' bytes' (
        sym (
          create_ne (proof_path height s) (block_path height' (mina.to_string h')) bytes files
            (proof_path-apart mina laws height height' s h'))
        ∙ e)

  table_path-apart : (height : ℕ) (s : List ℕ) → table_path ≢ block_path height s
  unfolding table_path block_path
  table_path-apart height s e = absurd cc

  pub create-table-Truthful :
      (bytes : List ℕ) (files : Files) → Truthful files → Truthful (create table_path bytes files)
  create-table-Truthful bytes files truthful height h bytes' e = truthful height h bytes' (
      sym (
        create_ne table_path (block_path height (mina.to_string h)) bytes files
          (table_path-apart height (mina.to_string h)))
      ∙ e)

  pub create-Listed :
      (path : FilePath) (bytes : List ℕ) (table : Map (List ℕ) ℕ) (files : Files)
      → Listed table files
      → Listed table (create path bytes files)
  create-Listed path bytes table files listed h height e =
      create-Present path (block_path height (mina.to_string h)) bytes files (listed h height e)

  pub insert-Listed :
      (h : mina.Hash) (height : ℕ) (table : Map (List ℕ) ℕ) (files : Files)
      → Listed table files
      → Present files (block_path height (mina.to_string h))
      → Listed (insert (mina.to_string h) height table) files
  insert-Listed h height table files listed present k height' e =
      elim (Bool-cases (bytes_key.beq (mina.to_string h) (mina.to_string k))) [
        | inl same ↦
            let names = (bytes_eq_iff (mina.to_string h) (mina.to_string k)).0 same in
            let found : some height ≡ some height' =
              sym (get-insert_self (mina.to_string h) height table)
              ∙ ap (λ (s : List ℕ). get s (insert (mina.to_string h) height table)) names
              ∙ e in
            let heights : height ≡ height' = cc in
            subst (λ (s : List ℕ). Present files (block_path height' s)) names
              (subst (λ (n : ℕ). Present files (block_path n (mina.to_string h))) heights present)
        | inr apart ↦
            listed k height'
              (sym (get-insert_ne (mina.to_string h) (mina.to_string k) height table apart) ∙ e)
      ]

pub insert-Entered :
    (s t : List ℕ) (height : ℕ) (table : Map (List ℕ) ℕ)
    → Entered table t
    → Entered (insert s height table) t
insert-Entered s t height table (n, e) = elim (Bool-cases (bytes_key.beq s t)) [
  | inl same ↦ (
    height,
    ap (λ (r : List ℕ). get r (insert s height table)) (sym ((bytes_eq_iff s t).0 same))
        ∙ get-insert_self s height table,
  )
  | inr apart ↦ (n, get-insert_ne s t height table apart ∙ e)
]
