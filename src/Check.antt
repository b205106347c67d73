-- ===== src/Check.antt =====
-- The tests of a node, bootstrap-sandbox/src/check.rs: what a run's statistics must show. Strings
-- are byte strings; what reqwest and serde give is the argument: a list of fetches, parsed.
pub mod Verdicts
pub mod Waiting
pub mod Graphql
mod Tests
use openmina_poc.Base.{
  ℕ, suc, ◌+◌, ◌*◌, ◌-◌, ◌^◌, ◌%◌, List, [], ◌∷◌, Bool, true, false, ◌&&◌, not, Option, none, some,
  leb, ltb, ◌==◌, if◌then◌else◌, bytes_eq,
}

pub data TestError : Type 0 where
  bootstrap_not_started : TestError
  bootstrap_not_done : TestError
  root_ledger_is_absent : TestError
  snarked_ledger_hash_mismatch : List ℕ → List ℕ → TestError
  head_block_is_wrong : ℕ → ℕ → TestError
  head_block_is_not_applied : TestError
  head_block_hash_mismatch : List ℕ → List ℕ → TestError

unfoldable pub fatal : TestError → Bool
fatal bootstrap_not_started = false
fatal bootstrap_not_done = false
fatal root_ledger_is_absent = false
fatal (snarked_ledger_hash_mismatch expected actual) = true
fatal (head_block_is_wrong expected actual) = true
fatal head_block_is_not_applied = true
fatal (head_block_hash_mismatch expected actual) = true

pub record Ledger : Type 0 where
  pub hash : List ℕ
  pub fetch_parts_start : Option ℕ
  pub fetch_parts_end : Option ℕ
  pub reconstruct_start : Option ℕ
  pub reconstruct_end : Option ℕ

pub record Ledgers : Type 0 where
  pub snarked : Option Ledger
  pub staged : Option Ledger

pub record Block : Type 0 where
  pub global_slot : Option ℕ
  pub height : Option ℕ
  pub hash : List ℕ
  pub pred_hash : List ℕ
  pub status : List ℕ
  pub fetch_start : Option ℕ
  pub fetch_end : Option ℕ
  pub apply_start : Option ℕ
  pub apply_end : Option ℕ

pub record SyncEvent : Type 0 where
  pub kind : List ℕ
  pub best_tip_received : Option ℕ
  pub synced : Option ℕ
  pub ledgers : List (List ℕ × Ledgers)
  pub blocks : List Block

-- What the tests read of the best tip: the target ledger of the proof's root block, as a JSON
-- string, where serde writes it as one; the length of the chain; the hash of the protocol state.
pub record BestTip : Type 0 where
  pub snarked_ledger_hash : Option (List ℕ)
  pub blockchain_length : ℕ
  pub state_hash : List ℕ

-- A `Result` of the tests, or an abort.
pub data Checked (A : Type 0) : Type 0 where
  passed : A → Checked A
  failed : TestError → Checked A
  aborted : Checked A

infixl 5 ◌>>=◌
abbrev pub ◌>>=◌ : {A B : Type 0} → Checked A → (A → Checked B) → Checked B
passed a >>= f = f a
failed e >>= f = failed e
aborted >>= f = aborted

infixl 5 ◌>>◌
abbrev pub ◌>>◌ : {B : Type 0} → Checked Unit → Checked B → Checked B
passed tt >> rest = rest
failed e >> rest = failed e
aborted >> rest = aborted

-- `ok_or(e)?`
abbrev pub ok_or : {A : Type 0} → TestError → Option A → Checked A
ok_or e none = failed e
ok_or e (some a) = passed a

-- `if !test { return Err(e) }`
abbrev pub ensure : TestError → Bool → Checked Unit
ensure e true = passed tt
ensure e false = failed e

-- `serde_json::to_value`, with the panic on what is no string.
abbrev pub string_value : Option (List ℕ) → Checked (List ℕ)
string_value none = aborted
string_value (some s) = passed s

abbrev pub bootstrap_kind : List ℕ
bootstrap_kind = b'B' ∷ b'o' ∷ b'o' ∷ b't' ∷ b's' ∷ b't' ∷ b'r' ∷ b'a' ∷ b'p' ∷ []

abbrev pub root_name : List ℕ
root_name = b'r' ∷ b'o' ∷ b'o' ∷ b't' ∷ []

abbrev pub applied_status : List ℕ
applied_status = b'A' ∷ b'p' ∷ b'p' ∷ b'l' ∷ b'i' ∷ b'e' ∷ b'd' ∷ []

abbrev pub synced_status : List ℕ
synced_status = b'S' ∷ b'Y' ∷ b'N' ∷ b'C' ∷ b'E' ∷ b'D' ∷ []

unfoldable pub find_kind : List ℕ → List SyncEvent → Option SyncEvent
find_kind kind [] = none
find_kind kind (e ∷ events) = if bytes_eq e.kind kind then some e else find_kind kind events

unfoldable pub ledger_at : List ℕ → List (List ℕ × Ledgers) → Option Ledgers
ledger_at name [] = none
ledger_at name ((n, l) ∷ ledgers) = if bytes_eq n name then some l else ledger_at name ledgers

abbrev pub first {ℓ} : {A : Type ℓ} → List A → Option A
first [] = none
first (x ∷ xs) = some x

-- `height == Some(expected)`, and `height.unwrap_or_default()`.
abbrev pub is_height : Option ℕ → ℕ → Bool
is_height none expected = false
is_height (some height) expected = height == expected

abbrev pub unwrap_or_default : Option ℕ → ℕ
unwrap_or_default none = 0
unwrap_or_default (some n) = n

-- `test_inner` of `test`.
unfoldable pub test_inner : List SyncEvent → BestTip → Checked Unit
test_inner events tip = do
  bootstrap ← ok_or bootstrap_not_started (find_kind bootstrap_kind events)
  synced ← ok_or bootstrap_not_done bootstrap.synced
  root ← ok_or root_ledger_is_absent (ledger_at root_name bootstrap.ledgers)
  root_snarked ← ok_or root_ledger_is_absent root.snarked
  root_staged ← ok_or root_ledger_is_absent root.staged
  expected ← string_value tip.snarked_ledger_hash
  ensure (snarked_ledger_hash_mismatch expected root_snarked.hash)
      (bytes_eq expected root_snarked.hash)
  head ← ok_or (head_block_is_wrong tip.blockchain_length 0) (first bootstrap.blocks)
  ensure (head_block_is_wrong tip.blockchain_length (unwrap_or_default head.height))
      (is_height head.height tip.blockchain_length)
  ensure head_block_is_not_applied (bytes_eq head.status applied_status)
  ensure (head_block_hash_mismatch tip.state_hash head.hash) (bytes_eq head.hash tip.state_hash)

-- How a test ends: it returns, the process exits with status 1, it aborts, or, over a list of
-- fetches that has ended, it goes on.
pub data Ending : Type 0 where
  returned : Ending
  exited : TestError → Ending
  panicked : Ending
  waiting : Ending

abbrev pub after_test : Checked Unit → Ending → Ending
after_test (passed a) rest = returned
after_test (failed e) rest = if not (fatal e) then rest else exited e
after_test aborted rest = panicked

-- The loop of `test`, over what it fetches.
unfoldable pub test : List (List SyncEvent) → BestTip → Ending
test [] tip = waiting
test (events ∷ fetches) tip = after_test (test_inner events tip) (test fetches tip)

-- A JSON value at `blockHeight`: an integer of 64 bits, as its pattern, a string, or another.
pub data HeightValue : Type 0 where
  integer : ℕ → HeightValue
  text : List ℕ → HeightValue
  other_value : HeightValue

pub record Chain : Type 0 where
  pub state_hash : List ℕ
  pub block_height : HeightValue
  pub snarked_ledger_hash : List ℕ

pub record Response : Type 0 where
  pub sync_status : List ℕ
  pub best_chain : List Chain

-- The digits of `str::parse::<u32>`, over the value of those before.
unfoldable pub parse_digits : ℕ → List ℕ → Option ℕ
parse_digits n [] = if ltb n (2 ^ 32) then some n else none
parse_digits n (d ∷ ds) =
    let rest = parse_digits (10 * n + (d - b'0')) ds in
    if leb b'0' d && leb d b'9' then rest else none

-- `str::parse::<u32>`: digits, at least one, after a sign that may stand.
unfoldable pub parse_u32 : List ℕ → Option ℕ
parse_u32 [] = none
parse_u32 (d ∷ []) = parse_digits 0 (d ∷ [])
parse_u32 (d ∷ e ∷ ds) = if d == b'+' then parse_digits 0 (e ∷ ds) else parse_digits 0 (d ∷ e ∷ ds)

unfoldable pub height_of : HeightValue → ℕ
height_of (integer n) = n % 2 ^ 32
height_of (text s) = unwrap_or_default (parse_u32 s)
height_of other_value = 0

-- `test_inner` of `test_graphql`.
unfoldable pub test_response : Response → BestTip → Checked Unit
test_response value tip = do
  ensure bootstrap_not_done (bytes_eq value.sync_status synced_status)
  head ← ok_or bootstrap_not_done (first value.best_chain)
  ensure bootstrap_not_done (leb tip.blockchain_length (height_of head.block_height))
  ensure (head_block_is_wrong tip.blockchain_length (height_of head.block_height))
      (leb (height_of head.block_height) tip.blockchain_length)
  expected ← string_value tip.snarked_ledger_hash
  ensure (snarked_ledger_hash_mismatch expected head.snarked_ledger_hash)
      (bytes_eq expected head.snarked_ledger_hash)
  ensure (head_block_hash_mismatch tip.state_hash head.state_hash)
      (bytes_eq head.state_hash tip.state_hash)

-- What `fetch` of `test_graphql` comes to: an abort, where the node gives no JSON object with a
-- member "data"; data that is no response; a response.
pub data GraphqlFetch : Type 0 where
  fetch_aborts : GraphqlFetch
  no_response : GraphqlFetch
  fetched : Response → GraphqlFetch

abbrev pub after_fetch : GraphqlFetch → BestTip → Ending → Ending
after_fetch fetch_aborts tip rest = panicked
after_fetch no_response tip rest = rest
after_fetch (fetched value) tip rest = after_test (test_response value tip) rest

-- The loop of `test_graphql`, over what its turns fetch: the statistics, read where it is verbose, or
-- `none` where they cannot be, and then the response.
unfoldable pub test_graphql :
    Bool → List (Option (List SyncEvent) × GraphqlFetch) → BestTip → Ending
test_graphql verbose [] tip = waiting
test_graphql true ((none, got) ∷ turns) tip = panicked
test_graphql true ((some events, got) ∷ turns) tip =
    after_fetch got tip (test_graphql true turns tip)
test_graphql false ((events, got) ∷ turns) tip = after_fetch got tip (test_graphql false turns tip)
