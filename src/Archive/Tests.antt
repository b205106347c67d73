-- ===== src/Archive/Tests.antt =====
-- The theorem on the archive (bootstrap-sandbox/src/archive_block.rs) at a concrete explorer, whose
-- blocks are numbers and have their remainder modulo four for a height.
use openmina_poc.Base.{ℕ, ◌-◌, ◌%◌, ◌≡◌, arith, List, [], ◌∷◌, true, Option, none, some, ok, ap}
use openmina_poc.Ledger.Sync.{Finishes}
use openmina_poc.Archive.{EpochData, Block, Explorer, Storing, store}
use openmina_poc.Base.Map.{Map}
use openmina_poc.Archive.Genesis.{
  Values, untimed, pk_name, ledger_name, accounts_name, genesis_accounts,
}
use openmina_poc.Archive.Accounts.{IsGenesis}
use openmina_poc.Archive.Ends.{genesis_accounts-IsGenesis}
use openmina_poc.Archive.Store.{Stored, Bounded, absent-le, store-Stored}

abbrev epoch : EpochData ℕ
epoch = record {
  ledger = record { hash = 0; total_currency = 0 };
  seed = 0;
  start_checkpoint = 0;
  lock_checkpoint = 0;
  epoch_length = 0;
}

abbrev block : ℕ → Block ℕ ℕ
block h = record {
  block_height = h % 4;
  canonical = true;
  command_transaction_count = 0;
  creator = 0;
  protocol_state = record {
    previous_state_hash = h - 1;
    consensus_state = record {
      coinbase_receiver = 0;
      blockchain_length = h;
      min_window_density = 0;
      total_currency = 0;
      slot_since_genesis = 0;
      staking_epoch_data = epoch;
      next_epoch_data = epoch;
    };
    snarked_ledger_hash = 0;
  };
  protocol_state_proof = [];
  state_hash = h;
}

abbrev parse : List ℕ → Option (Block ℕ ℕ)
parse [] = none
parse (h ∷ rest) = some (block h)

abbrev explorer : Explorer ℕ ℕ (Unit {0}) (Unit {0})
explorer = record { build = tt; get_text = λ client w h. (w, ok (h ∷ [])); parse = parse }

abbrev or_block : Block ℕ ℕ → Option (Block ℕ ℕ) → ℕ
or_block b none = b.block_height
or_block b (some c) = c.block_height

bounded : Bounded explorer 4
bounded [] b e = absurd cc
bounded (h ∷ rest) b e = let same : h % 4 ≡ b.block_height = ap (or_block b) e in omega arith

abbrev start : Storing explorer
start = record { client = none; network = tt; files = λ path. none }

store-Stored_example :
    Finishes
      (λ (s : Storing explorer). Stored explorer start.files s.files)
      (store explorer 5 start 3)
store-Stored_example =
    store-Stored explorer 4 5 start 3 bounded (omega (arith, absent-le 4 start.files))

-- A genesis file of one account, which has a key alone.
data Sample : Type 0 where
  top inner array account address : Sample

abbrev members : Sample → Option (Map (List ℕ) Sample)
members top = some ((ledger_name, inner) ∷ [])
members inner = some ((accounts_name, array) ∷ [])
members array = none
members account = some ((pk_name, address) ∷ [])
members address = none

abbrev elements : Sample → Option (List Sample)
elements top = none
elements inner = none
elements array = some (account ∷ [])
elements account = none
elements address = none

abbrev values : Values Sample ℕ
values = record {
  as_object = members;
  as_array = elements;
  as_str = λ j. some (5 ∷ []);
  read_timed = λ j. none;
  from_address = λ s. some 7;
  of_mina_string = λ s. some 0;
  empty = record { public_key = 0; balance = 0; delegate = none; timing = untimed };
}

genesis_accounts-IsGenesis_example :
    Finishes (IsGenesis values (1 ∷ []) top) (genesis_accounts values (1 ∷ []) top)
genesis_accounts-IsGenesis_example = genesis_accounts-IsGenesis values (1 ∷ []) top
