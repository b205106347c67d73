-- ===== src/Archive.antt =====
-- The archive of bootstrap-sandbox/src/archive_block.rs: `store`, which walks an explorer's blocks
-- into files, and the view that a block of the archive gives of its protocol state. reqwest, serde and
-- mina_tree's numbers and fields are arguments; the files lie beside each other.
pub mod Store
pub mod Genesis
pub mod Accounts
pub mod Ends
mod Tests
use openmina_poc.Base.{
  ℕ, zero, suc, ◌+◌, List, [], ◌∷◌, ◌++◌, Bool, true, false, Option, none, some, Exec, done, panic,
  stuck, ◌>>=◌, Result, ok, err, ◌==◌, if◌then◌else◌,
}
use openmina_poc.Files.{Files, FilePath, create, decimal}
use openmina_poc.Ledger.{unwrap}

-- `EpochLedger` and the rest of a block, over hashes `H` and public keys `K`.
pub record EpochLedger (H : Type 0) : Type 0 where
  pub hash : H
  pub total_currency : ℕ

pub record EpochData (H : Type 0) : Type 0 where
  pub ledger : EpochLedger H
  pub seed : H
  pub start_checkpoint : H
  pub lock_checkpoint : H
  pub epoch_length : ℕ

pub record ConsensusState (H K : Type 0) : Type 0 where
  pub coinbase_receiver : K
  pub blockchain_length : ℕ
  pub min_window_density : ℕ
  pub total_currency : ℕ
  pub slot_since_genesis : ℕ
  pub staking_epoch_data : EpochData H
  pub next_epoch_data : EpochData H

pub record ProtocolState (H K : Type 0) : Type 0 where
  pub previous_state_hash : H
  pub consensus_state : ConsensusState H K
  pub snarked_ledger_hash : H

pub record Block (H K : Type 0) : Type 0 where
  pub block_height : ℕ
  pub canonical : Bool
  pub command_transaction_count : ℕ
  pub creator : K
  pub protocol_state : ProtocolState H K
  pub protocol_state_proof : List ℕ
  pub state_hash : H

-- mina_tree's `EpochData` and `ProtocolStateView`, over field elements `F`.
pub record UntypedEpochData (F : Type 0) : Type 0 where
  pub ledger_hash : F
  pub ledger_total_currency : ℕ
  pub seed : F
  pub start_checkpoint : F
  pub lock_checkpoint : F
  pub epoch_length : ℕ

pub record ProtocolStateView (F : Type 0) : Type 0 where
  pub snarked_ledger_hash : F
  pub blockchain_length : ℕ
  pub min_window_density : ℕ
  pub total_currency : ℕ
  pub global_slot_since_genesis : ℕ
  pub staking_epoch_data : UntypedEpochData F
  pub next_epoch_data : UntypedEpochData F

module _ {H F : Type 0} (to_field : H → F) where
  unfoldable pub untyped_epoch_data : EpochData H → UntypedEpochData F
  untyped_epoch_data value = record {
    ledger_hash = to_field value.ledger.hash;
    ledger_total_currency = value.ledger.total_currency;
    seed = to_field value.seed;
    start_checkpoint = to_field value.start_checkpoint;
    lock_checkpoint = to_field value.start_checkpoint;
    epoch_length = value.epoch_length;
  }

  unfoldable pub protocol_state_view : {K : Type 0} → ProtocolState H K → ProtocolStateView F
  protocol_state_view state = record {
    snarked_ledger_hash = to_field state.snarked_ledger_hash;
    blockchain_length = state.consensus_state.blockchain_length;
    min_window_density = state.consensus_state.min_window_density;
    total_currency = state.consensus_state.total_currency;
    global_slot_since_genesis = state.consensus_state.slot_since_genesis;
    staking_epoch_data = untyped_epoch_data state.consensus_state.staking_epoch_data;
    next_epoch_data = untyped_epoch_data state.consensus_state.next_epoch_data;
  }

-- reqwest's client `C`, the network `W`, and serde's reading of a block.
pub record Explorer (H K C W : Type 0) : Type 0 where
  pub build : C
  pub get_text : C → W → H → W × Result (List ℕ) (Unit {0})
  pub parse : List ℕ → Option (Block H K)

-- `{height}.json`
unfoldable pub json_path : ℕ → FilePath
json_path height = (decimal height ++ (b'.' ∷ b'j' ∷ b's' ∷ b'o' ∷ b'n' ∷ [])) ∷ []

abbrev pub exists : Option (List ℕ) → Bool
exists none = false
exists (some bytes) = true

module _ {H K C W : Type 0} (explorer : Explorer H K C W) where
  abbrev pub or_build : Option C → C
  or_build none = explorer.build
  or_build (some client) = client

  -- What an attempt comes to: an error drops the client, and the last one aborts.
  abbrev pub on_text :
      C
      → W × Result (List ℕ) (Unit {0})
      → (W → Exec (Option C × W × List ℕ))
      → Exec (Option C × W × List ℕ)
  on_text client (w, ok text) again = done (some client, w, text)
  on_text client (w, err e) again = again w

  -- The loop over what is left of the eight tries.
  unfoldable pub get_block : ℕ → Option C → W → H → Exec (Option C × W × List ℕ)
  get_block zero client w current = panic
  get_block (suc tries) client w current =
      on_text (or_build client) (explorer.get_text (or_build client) w current)
        (λ w'. get_block tries none w' current)

  -- The client, the network and the files.
  pub record Storing : Type 0 where
    pub client : Option C
    pub network : W
    pub files : Files

  -- A turn of the loop of `store`: the hash to go on with, or none where it breaks.
  abbrev pub on_block : Option C × W × List ℕ → Files → Block H K → Storing × Option H
  on_block (client, w, text) files block =
      let path = json_path block.block_height in
      if exists (files path)
      then (record { client = client; network = w; files = files }, none)
      else (
        record { client = client; network = w; files = create path text files },
        (if block.block_height == 1 then none else some block.protocol_state.previous_state_hash),
      )

  unfoldable pub store_one : Storing → H → Exec (Storing × Option H)
  store_one s current = get_block 8 s.client s.network current >>= λ got.
      unwrap (explorer.parse got.2) >>= λ block. done (on_block got s.files block)

  abbrev pub on_turn : Storing × Option H → (Storing → H → Exec Storing) → Exec Storing
  on_turn (s, none) rest = done s
  on_turn (s, some current) rest = rest s current

  -- The loop of `store`, a step of fuel for each turn.
  unfoldable pub store : ℕ → Storing → H → Exec Storing
  store zero s current = stuck
  store (suc fuel) s current = store_one s current >>= λ turn. on_turn turn (store fuel)
