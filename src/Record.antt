-- ===== src/Record.antt =====
-- The recording of a node's blocks and ledgers, bootstrap-sandbox/src/record.rs: `download_blocks`
-- and `run`. The client's calls are arguments over a state `W`; a file that is written is there.
pub mod Disk
pub mod Download
pub mod Beside
pub mod Collect
pub mod Reapply
pub mod Again
pub mod Layout
pub mod Ends
pub mod Example
mod Tests
use openmina_poc.Base.{
  ℕ, zero, suc, ◌+◌, ◌-◌, ◌%◌, ◌^◌, List, [], ◌∷◌, Bool, true, false, Option, none, some, Exec,
  done, panic, ◌>>=◌, Result, ok, err,
}
use openmina_poc.Base.Map.{Map, insert}
use openmina_poc.Files.{Files, FilePath, create, decimal, bytes_key}
use openmina_poc.Client.{ClientError}
use openmina_poc.Ledger.{Mask, SnarkedLedger, unwrap, Ask, sync_new}
use openmina_poc.Ledger.Bin.{Bin, store_bin}
use openmina_poc.Mina.{Mina, Peer, BestTip}
use openmina_poc.Bootstrap.{
  Staging, StagedAux, Storage, blocks_name, best_tip_name, staged_name, table_path, block_path,
  file_at, ledger_at, load_ledger, new_storage, apply_blocks,
}

-- `format!("proof_{hash}")`
unfoldable pub proof_name : List ℕ → List ℕ
proof_name hash = b'p' ∷ b'r' ∷ b'o' ∷ b'o' ∷ b'f' ∷ b'_' ∷ hash

unfoldable pub proof_path : ℕ → List ℕ → FilePath
proof_path height hash = blocks_name ∷ decimal height ∷ proof_name hash ∷ []

-- The height before one, in 32 bits.
unfoldable pub height_before : ℕ → ℕ
height_before height = (height + (2 ^ 32 - 1)) % 2 ^ 32

-- The number of turns of `((snarked_height + 1)..head_height).rev()`.
unfoldable pub turns : ℕ → ℕ → ℕ
turns snarked_height head_height = head_height - (snarked_height + 1) % 2 ^ 32

-- What the loop of `download_blocks` changes: the client, the files, the table, and the blocks of
-- the deque, from its back to its front.
pub record Downloads (mina : Mina) (W : Type 0) : Type 0 where
  pub client : W
  pub files : Files
  pub table : Map (List ℕ) ℕ
  pub blocks : List mina.Block

module _ (mina : Mina) {W : Type 0} (peer : Peer mina W) where
  -- The proof of a block is written where the peer answers, with a proof or with none.
  abbrev pub keep_proof : FilePath → Files → W × Result (Option mina.Proof) ClientError → W × Files
  keep_proof path files (w, ok proof) = (w, create path (mina.write_proof proof) files)
  keep_proof path files (w, err e) = (w, files)

  -- The answer of the peer to a request for the chain of one block.
  abbrev pub on_chain :
      ℕ
      → mina.Hash
      → Files
      → W × Result (Option (List mina.Block)) ClientError
      → Exec (mina.Block × W × Files)
  on_chain height hash files (w, err e) = panic
  on_chain height hash files (w, ok none) = panic
  on_chain height hash files (w, ok (some [])) = panic
  on_chain height hash files (w, ok (some (new ∷ more))) =
      let stored = create (block_path height (mina.to_string hash)) (mina.write_block new) files in
      let kept =
        keep_proof (proof_path height (mina.to_string hash)) stored
          (peer.transition_chain_proof w hash) in
      done (new, kept.0, kept.1)

  -- A block from its file, or from the peer.
  abbrev pub fetch : W → Files → ℕ → mina.Hash → Option (List ℕ) → Exec (mina.Block × W × Files)
  fetch w files height hash none = on_chain height hash files (peer.transition_chain w (hash ∷ []))
  fetch w files height hash (some bytes) =
      unwrap (mina.read_block bytes) >>= λ new. done (new, w, files)

  abbrev pub push_back :
      List mina.Block → Map (List ℕ) ℕ → mina.Block × W × Files → Downloads mina W
  push_back blocks table (new, w, files) = record {
    client = w;
    files = files;
    table = table;
    blocks = new ∷ blocks;
  }

  -- A turn of the loop, whose last block is `last`.
  unfoldable pub download_one : mina.Block → Downloads mina W → Exec (Downloads mina W)
  download_one last d =
      let state = mina.protocol_state last in
      let this_hash = mina.previous_state_hash state in
      let this_height = height_before (mina.blockchain_length state) in
      let table = insert (mina.to_string this_hash) this_height d.table in
      fetch d.client d.files this_height this_hash
        (d.files (block_path this_height (mina.to_string this_hash)))
      >>= λ new. done (push_back d.blocks table new)

  abbrev pub on_back :
      List mina.Block → (mina.Block → Exec (Downloads mina W)) → Exec (Downloads mina W)
  on_back [] turn = panic
  on_back (last ∷ blocks) turn = turn last

  unfoldable pub download_loop : ℕ → Downloads mina W → Exec (Downloads mina W)
  download_loop zero d = done d
  download_loop (suc n) d =
      on_back d.blocks (λ last. download_one last d) >>= λ d'. download_loop n d'

  abbrev pub read_table : Option (List ℕ) → Exec (Map (List ℕ) ℕ)
  read_table none = done []
  read_table (some bytes) = unwrap (mina.read_table bytes)

  -- The table is written when the loop has ended.
  abbrev pub write_table : Downloads mina W → Downloads mina W
  write_table d = record d { files = create table_path (mina.write_table d.table) d.files }

  unfoldable pub download_blocks : W → Files → List mina.Block → ℕ → ℕ → Exec (Downloads mina W)
  download_blocks w files blocks head_height snarked_height =
      read_table (files table_path) >>= λ table.
      download_loop (turns snarked_height head_height)
        (record { client = w; files = files; table = table; blocks = blocks })
      >>= λ d. done (write_table d)

-- "ancestry", "epoch_ledger.bin", "current_ledger.bin"
abbrev pub ancestry_name : List ℕ
ancestry_name = b'a' ∷ b'n' ∷ b'c' ∷ b'e' ∷ b's' ∷ b't' ∷ b'r' ∷ b'y' ∷ []

abbrev pub epoch_ledger_name : List ℕ
epoch_ledger_name =
    b'e' ∷ b'p' ∷ b'o' ∷ b'c' ∷ b'h' ∷ b'_' ∷ b'l' ∷ b'e' ∷ b'd' ∷ b'g' ∷ b'e' ∷ b'r' ∷ b'.' ∷ b'b'
    ∷ b'i' ∷ b'n' ∷ []

abbrev pub current_ledger_name : List ℕ
current_ledger_name =
    b'c' ∷ b'u' ∷ b'r' ∷ b'r' ∷ b'e' ∷ b'n' ∷ b't' ∷ b'_' ∷ b'l' ∷ b'e' ∷ b'd' ∷ b'g' ∷ b'e' ∷ b'r'
    ∷ b'.' ∷ b'b' ∷ b'i' ∷ b'n' ∷ []

-- The other answers of the peer, and the encoding of an ancestry.
pub record Node (mina : Mina) {T H : Type 0} (staging : Staging mina T H) (W V : Type 0)
    : Type 1 where
  pub Ancestry : Type 0
  pub peer : Peer mina W
  pub best_tip : W → W × Result (Option (BestTip mina.Block)) ClientError
  pub ancestry : W → mina.State → W × Result (Option Ancestry) ClientError
  pub write_ancestry : Option Ancestry → List ℕ
  pub ask : Ask W H V
  pub staged_aux : W → mina.Hash → W × Result (Option (StagedAux mina staging)) ClientError

-- `unwrap()` of an answer, and `unwrap().unwrap()`.
abbrev pub unwrap_ok : {W R : Type 0} → W × Result R ClientError → Exec (W × R)
unwrap_ok (w, ok r) = done (w, r)
unwrap_ok (w, err e) = panic

abbrev pub unwrap_some : {W R : Type 0} → W × Result (Option R) ClientError → Exec (W × R)
unwrap_some (w, ok (some r)) = done (w, r)
unwrap_some (w, ok none) = panic
unwrap_some (w, err e) = panic

module _ (mina : Mina) {T D H A V W : Type 0} (staging : Staging mina T H) (m : Mask T D H A V)
    (bin : Bin T H A) (node : Node mina staging W V) where
  -- What is left of a recording: the client, the files, and where the blocks are applied what comes
  -- of it.
  pub record Recording : Type 0 where
    pub client : W
    pub files : Files
    pub storage : Option (Storage mina staging)

  -- A ledger from its file, brought up to a root, and stored under the root and again.
  unfoldable pub record_ledger : W → Files → ℕ → List ℕ → H → Exec (SnarkedLedger T H × W × Files)
  record_ledger w files height name root = do
    ledger ← load_ledger mina staging m bin (files (file_at height name))
    value ← unwrap (staging.ledger_hash_value root)
    (synced, w') ← sync_new m node.ask ledger w root
    let stored = create (ledger_at height value) (store_bin m bin synced) files
    done (synced, w', create (file_at height name) (store_bin m bin synced) stored)

  abbrev pub bootstrap_storage :
      Bool
      → T
      → Option (StagedAux mina staging)
      → staging.StagedHash
      → List mina.Block
      → mina.State
      → Exec (Option (Storage mina staging))
  bootstrap_storage false tree info expected_hash blocks prev = done none
  bootstrap_storage true tree info expected_hash blocks prev = do
    storage ← new_storage mina staging tree info expected_hash
    applied ← apply_blocks mina staging storage blocks prev
    done (some applied)

  -- The recording of a node each of whose calls returns, with an answer or an error; a call that
  -- waits for ever keeps the recording waiting, and is no `Node`.
  unfoldable pub run : W → Files → Bool → Exec Recording
  run w0 files0 bootstrap = do
    (w1, best_tip) ← unwrap_some (node.best_tip w0)
    let state = mina.protocol_state best_tip.head
    let height = mina.blockchain_length state
    let files1 = create (file_at height best_tip_name) (mina.write_best_tip (some best_tip)) files0
    (w2, ancestry) ← unwrap_some (node.ancestry w1 state)
    let files2 = create (file_at height ancestry_name) (node.write_ancestry (some ancestry)) files1
    let snarked_state = mina.protocol_state best_tip.root
    (epoch_ledger, w3, files3) ←
        record_ledger w2 files2 height epoch_ledger_name
          (staging.next_epoch_ledger_hash snarked_state)
    (snarked_ledger, w4, files4) ←
        record_ledger w3 files3 height current_ledger_name
          (staging.snarked_ledger_hash snarked_state)
    (w5, info) ← unwrap_ok (node.staged_aux w4 (mina.state_hash snarked_state))
    let files5 = create (file_at height staged_name) (staging.write_aux info) files4
    d ←
        download_blocks mina node.peer w5 files5 (best_tip.head ∷ []) height
          (mina.blockchain_length snarked_state)
    storage ←
        bootstrap_storage bootstrap snarked_ledger.inner info
          (staging.staged_ledger_hash snarked_state) d.blocks snarked_state
    done (record { client = d.client; files = d.files; storage = storage })
