-- ===== src/Bootstrap.antt =====
-- The application of recorded blocks, bootstrap-sandbox/src/bootstrap.rs: `Storage`, and `again`,
-- which collects the blocks from the files. The staged ledger is mina_tree's, and an argument.
use openmina_poc.Base.{
  ℕ, zero, suc, List, [], ◌∷◌, Bool, false, Option, none, some, Exec, done, panic, stuck, ◌>>=◌,
  if◌then◌else◌, bytes_eq,
}
use openmina_poc.Base.Map.{Key, Map, get, insert}
use openmina_poc.Files.{Files, FilePath, decimal, bytes_key}
use openmina_poc.Ledger.{Mask, SnarkedLedger, unwrap, empty_ledger}
use openmina_poc.Ledger.Bin.{Bin, load_bin}
use openmina_poc.Mina.{Mina}

-- The answer to a query for the staged ledger's parts: a scan state `X`, the hash `H` of a ledger,
-- pending coinbases `Y`, and protocol states `S`.
pub record Aux (X H Y S : Type 0) : Type 0 where
  pub scan_state : X
  pub expected_ledger_hash : H
  pub pending_coinbase : Y
  pub states : List S

-- mina_tree's staged ledger over trees `T` with hashes `H`, and what the messages give it: `apply`
-- takes the slot, the receiver and the diff from the block, and the view and the hashes from the
-- state before it.
pub record Staging (mina : Mina) (T H : Type 0) : Type 1 where
  pub Staged : Type 0
  pub StagedHash : Type 0
  pub ScanState : Type 0
  pub Pending : Type 0
  pub Field : Type 0
  pub field_key : Key Field
  pub to_fp : mina.Hash → Option Field
  pub staged_ledger_hash : mina.State → StagedHash
  pub snarked_ledger_hash : mina.State → H
  pub next_epoch_ledger_hash : mina.State → H
  pub ledger_hash_value : H → Option (List ℕ)
  pub of_scan_state : ScanState → T → H → Pending → (Field → Option mina.State) → Option Staged
  pub hash : Staged → StagedHash
  pub staged_hash_eq : StagedHash → StagedHash → Bool
  pub to_json : StagedHash → List ℕ
  pub apply : Staged → mina.Block → mina.State → Bool → Option (Staged × StagedHash)
  pub write_aux : Option (Aux ScanState H Pending mina.State) → List ℕ
  pub read_aux : List ℕ → Option (Option (Aux ScanState H Pending mina.State))

-- "blocks", "table.json", "best_tip", "staged_ledger_aux", "ledgers"
abbrev pub blocks_name : List ℕ
blocks_name = b'b' ∷ b'l' ∷ b'o' ∷ b'c' ∷ b'k' ∷ b's' ∷ []

abbrev pub table_name : List ℕ
table_name = b't' ∷ b'a' ∷ b'b' ∷ b'l' ∷ b'e' ∷ b'.' ∷ b'j' ∷ b's' ∷ b'o' ∷ b'n' ∷ []

abbrev pub best_tip_name : List ℕ
best_tip_name = b'b' ∷ b'e' ∷ b's' ∷ b't' ∷ b'_' ∷ b't' ∷ b'i' ∷ b'p' ∷ []

abbrev pub staged_name : List ℕ
staged_name =
    b's' ∷ b't' ∷ b'a' ∷ b'g' ∷ b'e' ∷ b'd' ∷ b'_' ∷ b'l' ∷ b'e' ∷ b'd' ∷ b'g' ∷ b'e' ∷ b'r' ∷ b'_'
    ∷ b'a' ∷ b'u' ∷ b'x' ∷ []

abbrev pub ledgers_name : List ℕ
ledgers_name = b'l' ∷ b'e' ∷ b'd' ∷ b'g' ∷ b'e' ∷ b'r' ∷ b's' ∷ []

unfoldable pub table_path : FilePath
table_path = blocks_name ∷ table_name ∷ []

-- The file of a block: by its height, then by its hash.
unfoldable pub block_path : ℕ → List ℕ → FilePath
block_path height hash = blocks_name ∷ decimal height ∷ hash ∷ []

-- A file that a recording at a height keeps apart from the blocks.
unfoldable pub file_at : ℕ → List ℕ → FilePath
file_at height name = decimal height ∷ name ∷ []

unfoldable pub ledger_at : ℕ → List ℕ → FilePath
ledger_at height name = decimal height ∷ ledgers_name ∷ name ∷ []

module _ (mina : Mina) {T H : Type 0} (staging : Staging mina T H) where
  abbrev pub StagedAux : Type 0
  StagedAux = Aux staging.ScanState H staging.Pending mina.State

  pub record Storage : Type 0 where
    pub staged_ledger : staging.Staged

  -- The protocol states by their hashes; `to_fp().unwrap()`.
  unfoldable pub collect_states :
      List mina.State → Map staging.Field mina.State → Exec (Map staging.Field mina.State)
  collect_states [] states = done states
  collect_states (state ∷ rest) states = unwrap (staging.to_fp (mina.state_hash state)) >>= λ key.
      collect_states rest (insert ⦃key = staging.field_key⦄ key state states)

  -- `Storage::new`.
  unfoldable pub new_storage : T → Option StagedAux → staging.StagedHash → Exec Storage
  new_storage tree info expected_hash = unwrap info >>= λ aux.
      collect_states aux.states [] >>= λ states.
      unwrap (
        staging.of_scan_state aux.scan_state tree aux.expected_ledger_hash aux.pending_coinbase
          (λ key. get ⦃key = staging.field_key⦄ key states))
      >>= λ staged_ledger.
          if staging.staged_hash_eq expected_hash (staging.hash staged_ledger)
          then done (record { staged_ledger = staged_ledger })
          else panic

  -- The result of `StagedLedger::apply`, and the assertion on its hash.
  abbrev pub after_apply : mina.State → Option (staging.Staged × staging.StagedHash) → Exec Storage
  after_apply state none = panic
  after_apply state (some (staged_ledger, hash)) =
      if bytes_eq (staging.to_json hash) (staging.to_json (staging.staged_ledger_hash state))
      then done (record { staged_ledger = staged_ledger })
      else panic

  unfoldable pub apply_block : Storage → mina.Block → mina.State → Exec Storage
  apply_block storage block prev =
      let state = mina.protocol_state block in
      if mina.hash_eq (mina.previous_state_hash state) (mina.state_hash prev)
      then after_apply state (staging.apply storage.staged_ledger block prev false)
      else panic

  -- The loop that pops the blocks, the last one first, and applies each to the state before it.
  unfoldable pub apply_blocks : Storage → List mina.Block → mina.State → Exec Storage
  apply_blocks storage [] prev = done storage
  apply_blocks storage (block ∷ blocks) prev = apply_block storage block prev >>= λ storage'.
      apply_blocks storage' blocks (mina.protocol_state block)

  -- `File::open(path).unwrap()`, read by a codec and unwrapped.
  abbrev pub open_read : {A : Type 0} → (List ℕ → Option A) → Option (List ℕ) → Exec A
  open_read read none = panic
  open_read read (some bytes) = unwrap (read bytes)

  -- The loop of `again`: from a hash back to the block before the one whose hash is `stop`, over the
  -- blocks that it has, the last one first. A step of fuel for each block.
  unfoldable pub collect_blocks :
      ℕ → Files → Map (List ℕ) ℕ → mina.Hash → mina.Hash → List mina.Block → Exec (List mina.Block)
  collect_blocks zero files table stop last blocks = stuck
  collect_blocks (suc fuel) files table stop last blocks =
      if mina.hash_eq last stop
      then done blocks
      else (unwrap (get (mina.to_string last) table) >>= λ height.
          open_read mina.read_block (files (block_path height (mina.to_string last))) >>= λ new.
          collect_blocks fuel files table stop (mina.previous_state_hash (mina.protocol_state new))
            (new ∷ blocks))

  module _ {D A W : Type 0} (m : Mask T D H A W) (bin : Bin T H A) where
    -- `File::open`, with `load_bin` unwrapped, or the empty ledger.
    abbrev pub load_ledger : Option (List ℕ) → Exec (SnarkedLedger T H)
    load_ledger none = done (empty_ledger m)
    load_ledger (some bytes) = load_bin m bin bytes >>= λ loaded. unwrap loaded

    unfoldable pub again : ℕ → Files → ℕ → Exec Storage
    again fuel files height = do
      response ← open_read mina.read_best_tip (files (file_at height best_tip_name))
      best_tip ← unwrap response
      let last_state = mina.protocol_state best_tip.root
      name ← unwrap (staging.ledger_hash_value (staging.snarked_ledger_hash last_state))
      snarked_ledger ← load_ledger (files (ledger_at height name))
      info ← open_read staging.read_aux (files (file_at height staged_name))
      storage ← new_storage snarked_ledger.inner info (staging.staged_ledger_hash last_state)
      table ← open_read mina.read_table (files table_path)
      blocks ←
          collect_blocks fuel files table (mina.state_hash last_state)
            (mina.previous_state_hash (mina.protocol_state best_tip.head)) (best_tip.head ∷ [])
      apply_blocks storage blocks last_state
