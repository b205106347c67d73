-- ===== src/Record/Beside.antt =====
-- The files of a recording beside its blocks (bootstrap-sandbox/src/record.rs): the download of
-- blocks does not touch them.
use openmina_poc.Base.{
  ℕ, zero, suc, ◌+◌, ◌%◌, ◌/◌, ◌≤◌, ◌==◌, arith, List, [], ◌∷◌, Option, none, some, All, done,
  ◌>>=◌, ok, err, Result, ◌≡◌, ◌≢◌, refl, sym, ap, subst, ◌∙◌, Bool-cases, inl, inr,
}
use openmina_poc.Base.Map.{Map}
use openmina_poc.Files.{Files, FilePath, create, create_ne, decimal, digits, bytes_key}
use openmina_poc.Client.{ClientError}
use openmina_poc.Ledger.{unwrap}
use openmina_poc.Ledger.Sync.{Finishes, >>=-Finishes}
use openmina_poc.Mina.{Mina, Peer}
use openmina_poc.Bootstrap.{block_path, table_path, blocks_name}
use openmina_poc.Record.{
  proof_path, height_before, turns, Downloads, keep_proof, fetch, download_one, download_loop,
  download_blocks, read_table, on_chain, on_back,
}

digits-small :
    (fuel n : ℕ) (ds : List ℕ) → All (λ d. d ≤ 57) ds → All (λ d. d ≤ 57) (digits fuel n ds)
unfolding digits
digits-small zero n ds small = small
digits-small (suc fuel) n ds small = elim (Bool-cases (n / 10 == 0)) [
  | inl last ↦ rw last (omega arith, small)
  | inr more ↦ rw more (digits-small fuel (n / 10) ((b'0' + n % 10) ∷ ds) (omega arith, small))
]

abbrev first_of : FilePath → List ℕ
first_of [] = []
first_of (x ∷ xs) = x

pub blocks-apart : (height : ℕ) (xs ys : FilePath) → (blocks_name ∷ xs) ≢ (decimal height ∷ ys)
unfolding decimal
blocks-apart height xs ys e =
    let small : All (λ d. d ≤ 57) blocks_name =
      subst (All (λ d. d ≤ 57)) (sym (ap first_of e)) (digits-small 10 height [] tt) in
    absurd (omega (arith, small.0))

-- Every file under a height is as it was.
abbrev pub Beside : Files → Files → Type 0
Beside files files' =
    (height : ℕ) (rest : FilePath) → files' (decimal height ∷ rest) ≡ files (decimal height ∷ rest)

create-Beside :
    (xs : FilePath) (bytes : List ℕ) (files files' : Files)
    → Beside files files'
    → Beside files (create (blocks_name ∷ xs) bytes files')
create-Beside xs bytes files files' beside height rest =
    create_ne (blocks_name ∷ xs) (decimal height ∷ rest) bytes files' (blocks-apart height xs rest)
    ∙ beside height rest

module _ (mina : Mina) {W : Type 0} (peer : Peer mina W) where
  keep_proof-Beside :
      (height : ℕ) (s : List ℕ) (files files' : Files)
      (answer : W × Result (Option mina.Proof) ClientError)
      → Beside files files'
      → Beside files (keep_proof mina peer (proof_path height s) files' answer).1
  unfolding proof_path
  keep_proof-Beside height s files files' (w, ok proof) beside =
      create-Beside _ (mina.write_proof proof) files files' beside
  keep_proof-Beside height s files files' (w, err e) beside = beside

  abbrev Fetched : Files → mina.Block × W × Files → Type 0
  Fetched files r = Beside files r.2

  on_chain-Beside :
      (height : ℕ) (hash : mina.Hash) (files : Files)
      (answer : W × Result (Option (List mina.Block)) ClientError)
      → Finishes (Fetched files) (on_chain mina peer height hash files answer)
  unfolding block_path
  on_chain-Beside height hash files (w, err e) = tt
  on_chain-Beside height hash files (w, ok none) = tt
  on_chain-Beside height hash files (w, ok (some [])) = tt
  on_chain-Beside height hash files (w, ok (some (new ∷ more))) =
      let path = block_path height (mina.to_string hash) in
      keep_proof-Beside height (mina.to_string hash) files
        (create path (mina.write_block new) files) (peer.transition_chain_proof w hash)
        (create-Beside _ (mina.write_block new) files files (λ h rest. refl))

  read-Finishes :
      (w : W) (files : Files) (block : Option mina.Block)
      → Finishes (Fetched files) (unwrap block >>= λ new. done (new, w, files))
  read-Finishes w files none = tt
  read-Finishes w files (some block) = λ height rest. refl

  fetch-Beside :
      (w : W) (files : Files) (height : ℕ) (hash : mina.Hash) (found : Option (List ℕ))
      → Finishes (Fetched files) (fetch mina peer w files height hash found)
  fetch-Beside w files height hash none =
      on_chain-Beside height hash files (peer.transition_chain w (hash ∷ []))
  fetch-Beside w files height hash (some bytes) = read-Finishes w files (mina.read_block bytes)

  abbrev pub DownloadsBeside : Files → Downloads mina W → Type 0
  DownloadsBeside files d = Beside files d.files

  download_one-Beside :
      (files : Files) (last : mina.Block) (d : Downloads mina W)
      → Beside files d.files
      → Finishes (DownloadsBeside files) (download_one mina peer last d)
  unfolding download_one
  download_one-Beside files last d beside =
      let hash = mina.previous_state_hash (mina.protocol_state last) in
      let height = height_before (mina.blockchain_length (mina.protocol_state last)) in
      >>=-Finishes (Fetched d.files) (DownloadsBeside files)
        (fetch mina peer d.client d.files height hash
          (d.files (block_path height (mina.to_string hash))))
        _
        (fetch-Beside d.client d.files height hash
          (d.files (block_path height (mina.to_string hash))))
        (λ r kept h rest. kept h rest ∙ beside h rest)

  on_back-Beside :
      (files : Files) (blocks : List mina.Block) (d : Downloads mina W)
      → Beside files d.files
      → Finishes
          (DownloadsBeside files)
          (on_back mina peer blocks (λ last. download_one mina peer last d))
  on_back-Beside files [] d beside = tt
  on_back-Beside files (last ∷ blocks) d beside = download_one-Beside files last d beside

  pub download_loop-Beside :
      (files : Files) (n : ℕ) (d : Downloads mina W)
      → Beside files d.files
      → Finishes (DownloadsBeside files) (download_loop mina peer n d)
  unfolding download_loop
  download_loop-Beside files zero d beside = beside
  download_loop-Beside files (suc n) d beside =
      >>=-Finishes (DownloadsBeside files) (DownloadsBeside files)
        (on_back mina peer d.blocks (λ last. download_one mina peer last d)) _
        (on_back-Beside files d.blocks d beside) (λ d' kept. download_loop-Beside files n d' kept)

  -- Whatever the peer answers, the download ends, and unless it aborts the files beside the blocks
  -- are as they were.
  pub download_blocks-Beside :
      (w : W) (files : Files) (table : Map (List ℕ) ℕ) (blocks : List mina.Block)
      (head_height snarked_height : ℕ)
      → read_table mina peer (files table_path) ≡ done table
      → Finishes
          (DownloadsBeside files)
          (download_blocks mina peer w files blocks head_height snarked_height)
  unfolding download_blocks table_path
  download_blocks-Beside w files table blocks head_height snarked_height read =
      let start : Downloads mina W = record {
        client = w;
        files = files;
        table = table;
        blocks = blocks;
      } in
      rw read (
        >>=-Finishes (DownloadsBeside files) (DownloadsBeside files)
          (download_loop mina peer (turns snarked_height head_height) start) _
          (download_loop-Beside files (turns snarked_height head_height) start (λ h rest. refl))
          (λ d kept. create-Beside _ (mina.write_table d.table) files d.files kept))
