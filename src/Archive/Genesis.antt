-- ===== src/Archive/Genesis.antt =====
-- The genesis of the archive, `run` of bootstrap-sandbox/src/archive_block.rs: the accounts of a JSON
-- file, and the block that is applied to them. serde's values and mina_tree are arguments.
use openmina_poc.Base.{
  ℕ, List, [], ◌∷◌, ◌++◌, Bool, false, Option, none, some, Exec, done, panic, ◌>>=◌, ◌==◌, ◌||◌,
  if◌then◌else◌,
}
use openmina_poc.Base.Map.{Map, get, remove}
use openmina_poc.Files.{Files, bytes_key}
use openmina_poc.Ledger.{unwrap}
use openmina_poc.Check.{parse_u32}
use openmina_poc.Bootstrap.{blocks_name, block_path}
use openmina_poc.Archive.{Block, ProtocolStateView, protocol_state_view, json_path}

-- The strings of a timing, as serde reads them.
pub record Timed : Type 0 where
  pub initial_minimum_balance : List ℕ
  pub cliff_time : List ℕ × List ℕ
  pub cliff_amount : List ℕ
  pub vesting_period : List ℕ × List ℕ
  pub vesting_increment : List ℕ

pub data Timing : Type 0 where
  untimed : Timing
  timed : ℕ → ℕ → ℕ → ℕ → ℕ → Timing

-- What `run` sets of an account over keys `K`; the rest is that of an empty one.
pub record Account (K : Type 0) : Type 0 where
  pub public_key : K
  pub balance : ℕ
  pub delegate : Option K
  pub timing : Timing

-- serde's values `J`, and mina_tree's keys `K`, balances and empty account.
pub record Values (J K : Type 0) : Type 0 where
  pub as_object : J → Option (Map (List ℕ) J)
  pub as_array : J → Option (List J)
  pub as_str : J → Option (List ℕ)
  pub read_timed : J → Option Timed
  pub from_address : List ℕ → Option K
  pub of_mina_string : List ℕ → Option ℕ
  pub empty : Account K

-- "pk", "balance", "delegate", "timing", "sk"
abbrev pub pk_name : List ℕ
pk_name = b'p' ∷ b'k' ∷ []

abbrev pub balance_name : List ℕ
balance_name = b'b' ∷ b'a' ∷ b'l' ∷ b'a' ∷ b'n' ∷ b'c' ∷ b'e' ∷ []

abbrev pub delegate_name : List ℕ
delegate_name = b'd' ∷ b'e' ∷ b'l' ∷ b'e' ∷ b'g' ∷ b'a' ∷ b't' ∷ b'e' ∷ []

abbrev pub timing_name : List ℕ
timing_name = b't' ∷ b'i' ∷ b'm' ∷ b'i' ∷ b'n' ∷ b'g' ∷ []

abbrev pub sk_name : List ℕ
sk_name = b's' ∷ b'k' ∷ []

abbrev pub ledger_name : List ℕ
ledger_name = b'l' ∷ b'e' ∷ b'd' ∷ b'g' ∷ b'e' ∷ b'r' ∷ []

abbrev pub accounts_name : List ℕ
accounts_name = b'a' ∷ b'c' ∷ b'c' ∷ b'o' ∷ b'u' ∷ b'n' ∷ b't' ∷ b's' ∷ []

unfoldable pub contains : ℕ → List ℕ → Bool
contains c [] = false
contains c (d ∷ s) = c == d || contains c s

-- A number without a point gets nine decimals.
unfoldable pub with_point : List ℕ → List ℕ
with_point s =
    if contains b'.' s
    then s
    else s ++ (b'.' ∷ b'0' ∷ b'0' ∷ b'0' ∷ b'0' ∷ b'0' ∷ b'0' ∷ b'0' ∷ b'0' ∷ b'0' ∷ [])

module _ {J K : Type 0} (values : Values J K) where
  abbrev pub amount : List ℕ → Exec ℕ
  amount s = unwrap (values.of_mina_string (with_point s))

  -- The balance of the object, or that of an empty account.
  abbrev pub balance_of : Option J → Exec ℕ
  balance_of none = done values.empty.balance
  balance_of (some j) = unwrap (values.as_str j) >>= λ s. amount s

  abbrev pub and_str : Option J → Option (List ℕ)
  and_str none = none
  and_str (some j) = values.as_str j

  -- An account without a delegate's string delegates to itself.
  abbrev pub delegate_of : K → Option (List ℕ) → Exec K
  delegate_of public_key none = done public_key
  delegate_of public_key (some address) = unwrap (values.from_address address)

  abbrev pub timing_of : Option J → Exec Timing
  timing_of none = done values.empty.timing
  timing_of (some j) = do
    t ← unwrap (values.read_timed j)
    initial ← amount t.initial_minimum_balance
    cliff_time ← unwrap (parse_u32 t.cliff_time.1)
    cliff_amount ← amount t.cliff_amount
    vesting_period ← unwrap (parse_u32 t.vesting_period.1)
    vesting_increment ← amount t.vesting_increment
    done (timed initial cliff_time cliff_amount vesting_period vesting_increment)

  -- `assert!(account_value.is_empty())`
  abbrev pub assert_empty : Account K → Map (List ℕ) J → Exec (Account K)
  assert_empty account [] = done account
  assert_empty account (entry ∷ rest) = panic

  -- What is left of an object when the known members are removed.
  abbrev pub unknown_members : Map (List ℕ) J → Map (List ℕ) J
  unknown_members object =
      remove sk_name
        (remove timing_name (remove delegate_name (remove balance_name (remove pk_name object))))

  -- The closure over the accounts.
  unfoldable pub account_of : J → Exec (Account K)
  account_of j = do
    object ← unwrap (values.as_object j)
    pk ← unwrap (get pk_name object)
    address ← unwrap (values.as_str pk)
    public_key ← unwrap (values.from_address address)
    balance ← balance_of (get balance_name (remove pk_name object))
    delegate ←
        delegate_of public_key
          (and_str (get delegate_name (remove balance_name (remove pk_name object))))
    timing ←
        timing_of
          (get timing_name (remove delegate_name (remove balance_name (remove pk_name object))))
    assert_empty
        (record {
          public_key = public_key;
          balance = balance;
          delegate = some delegate;
          timing = timing;
        })
        (unknown_members object)

  unfoldable pub accounts_of : List J → Exec (List (Account K))
  accounts_of [] = done []
  accounts_of (j ∷ js) = do
    account ← account_of j
    accounts ← accounts_of js
    done (account ∷ accounts)

  abbrev pub and_then : {A B : Type 0} → Option A → (A → Option B) → Option B
  and_then none f = none
  and_then (some a) f = f a

  -- The chain of `?` to the array of accounts.
  unfoldable pub account_values : J → Option (List J)
  account_values ledger = and_then (values.as_object ledger) (λ top.
      and_then (get ledger_name top) (λ inner.
        and_then (values.as_object inner)
          (λ members. and_then (get accounts_name members) (λ array. values.as_array array))))

  -- "B62qiy32p8kAKnny8ZFwoMhYpBppM1DWVCqAPBYNcXnsAHhnfAAuXgg" is the address of the first account.
  abbrev pub with_first : List ℕ → List (Account K) → Exec (List (Account K))
  with_first first accounts = unwrap (values.from_address first) >>= λ public_key. done (
      record {
        public_key = public_key;
        balance = 1000;
        delegate = some public_key;
        timing = values.empty.timing;
      }
      ∷ accounts)

  -- The closure `accounts`, unwrapped.
  unfoldable pub genesis_accounts : List ℕ → J → Exec (List (Account K))
  genesis_accounts first ledger = do
    array ← unwrap (account_values ledger)
    accounts ← accounts_of array
    with_first first accounts

-- mina_tree's trees `T`, staged ledgers `L` with hashes `G` and diffs `D`, the p2p blocks `B`, and the
-- reading of the files; `create_diff` is without transactions and for the slot 1, and `apply` takes
-- the diff from its block and the hashes from the block before.
pub record Ground (J K H F T L G D B : Type 0) : Type 0 where
  pub read_json : List ℕ → Option J
  pub read_archive : List ℕ → Option (Block H K)
  pub read_block : List ℕ → Option B
  pub to_string : H → List ℕ
  pub to_field : H → F
  pub create : T
  pub get_or_create_account : T → Account K → Option T
  pub create_staged : T → Option L
  pub create_diff : L → K → ProtocolStateView F → Option D
  pub diff_of : B → D
  pub diff_eq : D → D → Bool
  pub apply : L → B → ProtocolStateView F → B → K → Option (L × G)

-- "ledger.json" and "blocks"
abbrev pub ledger_json : List ℕ
ledger_json = ledger_name ++ (b'.' ∷ b'j' ∷ b's' ∷ b'o' ∷ b'n' ∷ [])

module _ {J K H F T L G D B : Type 0} (values : Values J K) (g : Ground J K H F T L G D B) where
  unfoldable pub create_all : T → List (Account K) → Exec T
  create_all t [] = done t
  create_all t (account ∷ accounts) =
      unwrap (g.get_or_create_account t account) >>= λ t'. create_all t' accounts

  -- The archive's block at a height, and the p2p block beside it.
  unfoldable pub read_blocks : Files → ℕ → Exec (Block H K × B)
  read_blocks files height = do
    bytes ← unwrap (files (blocks_name ∷ json_path height))
    block ← unwrap (g.read_archive bytes)
    bytes_p2p ← unwrap (files (block_path height (g.to_string block.state_hash)))
    block_p2p ← unwrap (g.read_block bytes_p2p)
    done (block, block_p2p)

  -- `run`: the hash after the second block. The first argument is the address of the first account.
  unfoldable pub run : List ℕ → Files → Exec G
  run first files = do
    bytes ← unwrap (files (ledger_json ∷ []))
    value ← unwrap (g.read_json bytes)
    accounts ← genesis_accounts values first value
    tree ← create_all g.create accounts
    staged ← unwrap (g.create_staged tree)
    (block, block_p2p) ← read_blocks files 1
    (block_2, block_2_p2p) ← read_blocks files 2
    let receiver = block_2.protocol_state.consensus_state.coinbase_receiver
    let view = protocol_state_view g.to_field block.protocol_state
    diff ← unwrap (g.create_diff staged receiver view)
    same ← (if g.diff_eq diff (g.diff_of block_2_p2p) then done (tt {0}) else panic)
    (applied, hash) ← unwrap (g.apply staged block_2_p2p view block_p2p receiver)
    done hash
