-- ===== src/Record/Download.antt =====
-- `download_blocks` of bootstrap-sandbox/src/record.rs with a peer that has the blocks.
use openmina_poc.Base.{
  ℕ, zero, suc, List, [], ◌∷◌, Option, none, some, Exec, done, ◌>>=◌, ok, err, ◌≡◌, refl, ap, ◌∙◌,
  Result, ◌<◌, ◌^◌, ◌+◌, ◌-◌, ◌%◌, arith, sym, subst, Bool-cases, inl, inr,
}
use mathlib.Core.Option.{some-injective}
use openmina_poc.Base.Map.{Map, get, insert, get-insert_self, get-insert_ne}
use openmina_poc.Files.{Files, FilePath, create, create_self, bytes_key, bytes_eq_iff}
use openmina_poc.Client.{ClientError}
use openmina_poc.Mina.{Mina, Lawful, Peer}
use openmina_poc.Bootstrap.{block_path, table_path}
use openmina_poc.Record.{
  proof_path, height_before, turns, Downloads, keep_proof, fetch, download_one, download_loop,
  download_blocks, read_table, write_table, on_back, push_back,
}
use openmina_poc.Record.Disk.{
  Present, Entered, Truthful, Listed, create-Present, create-block-Truthful, create-proof-Truthful,
  create-table-Truthful, create-Listed, insert-Listed, insert-Entered,
}

module _ (mina : Mina) (block_at : mina.Hash → mina.Block) where
  -- The hash of the block before a block.
  abbrev pub previous : mina.Block → mina.Hash
  previous block = mina.previous_state_hash (mina.protocol_state block)

  -- The `n` blocks before a block, the oldest first, and then the blocks given.
  abbrev pub ancestors : ℕ → mina.Block → List mina.Block → List mina.Block
  ancestors zero block blocks = blocks
  ancestors (suc n) block blocks =
      let before = block_at (previous block) in ancestors n before (before ∷ blocks)

  -- The number of a block in its chain.
  abbrev pub height_at : mina.Block → ℕ
  height_at block = mina.blockchain_length (mina.protocol_state block)

  -- The peer answers a request for each of the `n` blocks before a block with that block first, and
  -- the chain numbers each block one above the block before it, in 32 bits.
  abbrev pub Answers : {W : Type 0} → Peer mina W → ℕ → mina.Block → Type 0
  Answers peer zero block = Unit
  Answers {W} peer (suc n) block =
      ((w : W)
        → (w' : W) × (more : List mina.Block) × (peer.transition_chain w (previous block ∷ [])
            ≡ (w', ok (some (block_at (previous block) ∷ more)))))
      × (suc (height_at (block_at (previous block))) ≡ height_at block)
      × (height_at block < 2 ^ 32)
      × Answers peer n (block_at (previous block))

  -- The table has an entry for each of the `n` blocks before a block.
  abbrev pub Tabled : ℕ → mina.Block → Map (List ℕ) ℕ → Type 0
  Tabled zero block table = Unit
  Tabled (suc n) block table =
      Entered table (mina.to_string (previous block)) × Tabled n (block_at (previous block)) table

  -- The height of each entry of the table is the number of the block with the entry's hash.
  abbrev pub Heights : Map (List ℕ) ℕ → Type 0
  Heights table =
      (h : mina.Hash) (height : ℕ)
      → get (mina.to_string h) table ≡ some height
      → height ≡ height_at (block_at h)

  insert-Heights :
      (laws : Lawful mina) (h : mina.Hash) (table : Map (List ℕ) ℕ)
      → Heights table
      → Heights (insert (mina.to_string h) (height_at (block_at h)) table)
  insert-Heights laws h table heights k height e =
      elim (Bool-cases (bytes_key.beq (mina.to_string h) (mina.to_string k))) [
        | inl same ↦
            let names = (bytes_eq_iff (mina.to_string h) (mina.to_string k)).0 same in
            let found : some (height_at (block_at h)) ≡ some height =
              sym (get-insert_self (mina.to_string h) (height_at (block_at h)) table)
              ∙ ap
                  (λ (s : List ℕ). get s (insert (mina.to_string h) (height_at (block_at h)) table))
                  names
              ∙ e in
            sym (some-injective _ _ found)
            ∙ ap (λ (x : mina.Hash). height_at (block_at x)) (laws.to_string_injective h k names)
        | inr apart ↦
            heights k height
              (sym (get-insert_ne (mina.to_string h) (mina.to_string k) _ table apart) ∙ e)
      ]

  -- The number that a turn counts down to is that of the block before.
  height_before-previous :
      (block : mina.Block)
      → suc (height_at (block_at (previous block))) ≡ height_at block
      → height_at block < 2 ^ 32
      → height_before (height_at block) ≡ height_at (block_at (previous block))
  unfolding height_before
  height_before-previous block numbered small =
      let k = height_at (block_at (previous block)) in
      ap (λ (n : ℕ). (n + (2 ^ 32 - 1)) % 2 ^ 32) (sym numbered) ∙ omega (arith, numbered, small)

  module _ (laws : Lawful mina) {W : Type 0} (peer : Peer mina W) where
    abbrev pub Kept : Downloads mina W → Type 0
    Kept d =
        Truthful mina laws block_at d.files
        × Listed mina laws block_at d.table d.files
        × Heights d.table

    abbrev Grown : Files → Files → Type 0
    Grown files files' = (path : FilePath) → Present files path → Present files' path

    -- What a fetched block leaves of the files.
    abbrev Fetched : Files → ℕ → mina.Hash → Exec (mina.Block × W × Files) → Type 0
    Fetched files height hash r =
        (w' : W) × (files' : Files) × (r ≡ done (block_at hash, w', files'))
        × Truthful mina laws block_at files'
        × Present files' (block_path height (mina.to_string hash))
        × Grown files files'

    keep_proof-Fetched :
        (height : ℕ) (hash : mina.Hash) (files : Files)
        (answer : W × Result (Option mina.Proof) ClientError)
        → Truthful mina laws block_at files
        → Present files (block_path height (mina.to_string hash))
        → (let kept = keep_proof mina peer (proof_path height (mina.to_string hash)) files answer in
            Truthful mina laws block_at kept.1
            × Present kept.1 (block_path height (mina.to_string hash))
            × Grown files kept.1)
    keep_proof-Fetched height hash files (w, ok proof) truthful present =
        let path = proof_path height (mina.to_string hash) in
        let bytes = mina.write_proof proof in
        (
          create-proof-Truthful mina laws block_at height (mina.to_string hash) bytes files
              truthful,
          create-Present path (block_path height (mina.to_string hash)) bytes files present,
          λ other p. create-Present path other bytes files p,
        )
    keep_proof-Fetched height hash files (w, err e) truthful present =
        (truthful, present, λ other p. p)

    fetch-Fetched :
        (w : W) (files : Files) (height : ℕ) (hash : mina.Hash) (found : Option (List ℕ))
        → files (block_path height (mina.to_string hash)) ≡ found
        → Truthful mina laws block_at files
        → ((v : W)
            → (v' : W) × (more : List mina.Block) × (peer.transition_chain v (hash ∷ [])
                ≡ (v', ok (some (block_at hash ∷ more)))))
        → Fetched files height hash (fetch mina peer w files height hash found)
    fetch-Fetched w files height hash (some bytes) e truthful answers =
        (w, files, rw (truthful height hash bytes e), truthful, (bytes, e), λ other p. p)
    fetch-Fetched w files height hash none e truthful answers =
        let (w', more, answered) = answers w in
        let path = block_path height (mina.to_string hash) in
        let bytes = mina.write_block (block_at hash) in
        let (kept, present, grown) =
          keep_proof-Fetched height hash (create path bytes files)
            (peer.transition_chain_proof w' hash)
            (create-block-Truthful mina laws block_at height hash files truthful)
            (bytes, create_self path bytes files) in
        (
          (keep_proof mina peer (proof_path height (mina.to_string hash)) (create path bytes files)
              (peer.transition_chain_proof w' hash)).0,
          (keep_proof mina peer (proof_path height (mina.to_string hash)) (create path bytes files)
              (peer.transition_chain_proof w' hash)).1,
          rw answered,
          kept,
          present,
          λ other p. grown other (create-Present path other bytes files p),
        )

    -- A turn of the loop, and what it leaves.
    abbrev Turned : mina.Block → Downloads mina W → Downloads mina W → Type 0
    Turned last d d' =
        (d'.blocks ≡ block_at (previous last) ∷ d.blocks)
        × Kept d'
        × Entered d'.table (mina.to_string (previous last))
        × ((s : List ℕ) → Entered d.table s → Entered d'.table s)

    download_one-Turned :
        (last : mina.Block) (d : Downloads mina W)
        → Kept d
        → ((v : W)
            → (v' : W) × (more : List mina.Block) × (peer.transition_chain v (previous last ∷ [])
                ≡ (v', ok (some (block_at (previous last) ∷ more)))))
        → suc (height_at (block_at (previous last))) ≡ height_at last
        → height_at last < 2 ^ 32
        → (d' : Downloads mina W) × (download_one mina peer last d ≡ done d') × Turned last d d'
    unfolding download_one
    download_one-Turned last d kept answers follows small =
        let hash = previous last in
        let height = height_before (mina.blockchain_length (mina.protocol_state last)) in
        let name = mina.to_string hash in
        let (w', files', fetched, truthful, present, grown) =
          fetch-Fetched d.client d.files height hash (d.files (block_path height name)) refl kept.0
            answers in
        (
          push_back mina peer d.blocks (insert name height d.table) (block_at hash, w', files'),
          rw fetched,
          (
            refl,
            (
              truthful,
              insert-Listed mina laws block_at hash height d.table files'
                  (λ k n e. grown (block_path n (mina.to_string k)) (kept.1 k n e)) present,
              subst (λ (n : ℕ). Heights (insert name n d.table))
                  (sym (height_before-previous last follows small))
                  (insert-Heights laws hash d.table kept.2),
            ),
            (height, get-insert_self name height d.table),
            λ s p. insert-Entered name s height d.table p,
          ),
        )

    abbrev Looped : ℕ → mina.Block → List mina.Block → Downloads mina W → Downloads mina W → Type 0
    Looped n last rest d d' =
        (d'.blocks ≡ ancestors n last (last ∷ rest))
        × Kept d'
        × Tabled n last d'.table
        × ((s : List ℕ) → Entered d.table s → Entered d'.table s)

    download_loop-Looped :
        (n : ℕ) (last : mina.Block) (rest : List mina.Block) (d : Downloads mina W)
        → d.blocks ≡ last ∷ rest
        → Kept d
        → Answers peer n last
        → (d' : Downloads mina W) × (download_loop mina peer n d ≡ done d')
          × Looped n last rest d d'
    unfolding download_loop
    download_loop-Looped zero last rest d e kept answers = (d, refl, (e, kept, tt, λ s p. p))
    download_loop-Looped (suc n) last rest d e kept answers =
        let (d1, turned, (blocks, kept1, entered, grown)) =
          download_one-Turned last d kept answers.0 answers.1 answers.2 in
        let before = block_at (previous last) in
        let (d2, looped, (blocks2, kept2, tabled, grown2)) =
          download_loop-Looped n before (last ∷ rest) d1 (blocks ∙ ap (◌∷◌ before) e) kept1
            answers.3 in
        (
          d2,
          ap
                (λ (blocks : List mina.Block).
                  on_back mina peer blocks (λ b. download_one mina peer b d) >>= λ d'.
                  download_loop mina peer n d')
                e
              ∙ ap (λ (r : Exec (Downloads mina W)). r >>= λ d'. download_loop mina peer n d')
                  turned
              ∙ looped,
          (
            blocks2,
            kept2,
            (grown2 (mina.to_string (previous last)) entered, tabled),
            λ s p. grown2 s (grown s p),
          ),
        )

    -- What the files keep: a table that is read, or none, whose blocks have files and are filed under
    -- their numbers, and block files that are what their names say.
    abbrev pub Recorded : Files → Map (List ℕ) ℕ → Type 0
    Recorded files table =
        (read_table mina peer (files table_path) ≡ done table)
        × Truthful mina laws block_at files
        × Listed mina laws block_at table files
        × Heights table

    write_table-Recorded :
        (d : Downloads mina W) → Kept d → Recorded (write_table mina peer d).files d.table
    write_table-Recorded d kept =
        let bytes = mina.write_table d.table in
        (
          rw (create_self table_path bytes d.files, laws.read-write_table d.table),
          create-table-Truthful mina laws block_at bytes d.files kept.0,
          create-Listed mina laws block_at table_path bytes d.table d.files kept.1,
          kept.2,
        )

    -- Where the files are as a recording keeps them, and the peer has the blocks, of which each has
    -- the number after that of the block before it, in 32 bits, the download ends: the deque has the
    -- blocks between the snarked one and the head, each before the block that names it as its
    -- previous one, the files are kept so (each block file is the block that its name says, each
    -- entry of the table has the number of its block, and the block's file is there under it), and
    -- the table has an entry for each block and is written to its file.
    pub download_blocks-Recorded :
        (w : W) (files : Files) (table : Map (List ℕ) ℕ) (head : mina.Block)
        (head_height snarked_height : ℕ)
        → Recorded files table
        → Answers peer (turns snarked_height head_height) head
        → (d : Downloads mina W) × (download_blocks mina peer w files
              (head ∷ [])
              head_height
              snarked_height
            ≡ done d)
          × (d.blocks ≡ ancestors (turns snarked_height head_height) head (head ∷ []))
          × Recorded d.files d.table
          × Tabled (turns snarked_height head_height) head d.table
          × (d.files table_path ≡ some (mina.write_table d.table))
    unfolding download_blocks
    download_blocks-Recorded w files table head head_height snarked_height recorded answers =
        let start : Downloads mina W = record {
          client = w;
          files = files;
          table = table;
          blocks = head ∷ [];
        } in
        let (d, looped, (blocks, kept, tabled, grown)) =
          download_loop-Looped (turns snarked_height head_height) head [] start refl
            (recorded.1, recorded.2, recorded.3) answers in
        (
          write_table mina peer d,
          rw (recorded.0, looped),
          blocks,
          write_table-Recorded d kept,
          tabled,
          create_self table_path (mina.write_table d.table) d.files,
        )
