-- ===== src/Check/Tests.antt =====
-- The theorems on the tests of a node at concrete inputs.
use openmina_poc.Base.{ℕ, ◌≡◌, ◌↔◌, List, [], ◌∷◌, none, some, Option, true}
use openmina_poc.Check.{
  passed, BestTip, SyncEvent, Ledger, Block, Chain, Response, text, synced_status, bootstrap_kind,
  root_name, applied_status, test_inner, GraphqlFetch, fetched, no_response, test, test_graphql,
}
use openmina_poc.Check.Verdicts.{Passes, test_inner-Passes}
use openmina_poc.Check.Waiting.{Ends, verdicts, GraphqlEnds, test-Ends, test_graphql-Ends}

abbrev tip : BestTip
tip = record {
  snarked_ledger_hash = some (b'j' ∷ []);
  blockchain_length = 7;
  state_hash = b's' ∷ [];
}

abbrev ledger : Ledger
ledger = record {
  hash = b'j' ∷ [];
  fetch_parts_start = none;
  fetch_parts_end = none;
  reconstruct_start = none;
  reconstruct_end = none;
}

abbrev block : Block
block = record {
  global_slot = none;
  height = some 7;
  hash = b's' ∷ [];
  pred_hash = [];
  status = applied_status;
  fetch_start = none;
  fetch_end = none;
  apply_start = none;
  apply_end = none;
}

abbrev bootstrap : SyncEvent
bootstrap = record {
  kind = bootstrap_kind;
  best_tip_received = none;
  synced = some 1;
  ledgers = (root_name, record { snarked = some ledger; staged = some ledger }) ∷ [];
  blocks = block ∷ [];
}

abbrev chain : List ℕ → Chain
chain height = record {
  state_hash = b's' ∷ [];
  block_height = text height;
  snarked_ledger_hash = b'j' ∷ [];
}

abbrev response : List ℕ → Response
response height = record { sync_status = synced_status; best_chain = chain height ∷ [] }

test_inner-Passes_example :
    (test_inner (bootstrap ∷ []) tip ≡ passed tt) ↔ Passes (bootstrap ∷ []) tip
test_inner-Passes_example = test_inner-Passes (bootstrap ∷ []) tip

test-Ends_example :
    Ends (verdicts tip ([] ∷ (bootstrap ∷ []) ∷ [])) (test ([] ∷ (bootstrap ∷ []) ∷ []) tip)
test-Ends_example = test-Ends ([] ∷ (bootstrap ∷ []) ∷ []) tip

abbrev turns : List (Option (List SyncEvent) × GraphqlFetch)
turns = (some [], no_response) ∷ (some [], fetched (response (b'7' ∷ []))) ∷ []

test_graphql-Ends_example : GraphqlEnds true turns tip (test_graphql true turns tip)
test_graphql-Ends_example = test_graphql-Ends true turns tip
