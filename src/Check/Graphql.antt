-- ===== src/Check/Graphql.antt =====
-- The verdict of `test_inner` in `test_graphql` of bootstrap-sandbox/src/check.rs.
use openmina_poc.Base.{
  ℕ, ◌≡◌, ◌↔◌, ◌<◌, refl, ap, ◌∙◌, List, ◌∷◌, true, false, some, leb, leb→le, le→leb, lt→leb_false,
  bytes_eq, bytes_eq→≡, bytes_eq_refl, arith,
}
use openmina_poc.Check.{
  TestError, bootstrap_not_done, head_block_is_wrong, passed, failed, first, fatal, BestTip,
  synced_status, Chain, Response, height_of, test_response,
}
use openmina_poc.Check.Verdicts.{ok_or->>=, string_value->>=, ensure->>, ensure-passed, first-some}

-- The node is done: it is synced, and the head of its best chain has the height, the snarked ledger
-- and the hash of the best tip.
pub record Done (value : Response) (tip : BestTip) : Type 0 where
  pub is_synced : value.sync_status ≡ synced_status
  pub head : Chain
  pub rest : List Chain
  pub has_head : value.best_chain ≡ head ∷ rest
  pub has_height : height_of head.block_height ≡ tip.blockchain_length
  pub is_proved : tip.snarked_ledger_hash ≡ some head.snarked_ledger_hash
  pub has_hash : head.state_hash ≡ tip.state_hash

antisym : (a b : ℕ) → leb a b ≡ true → leb b a ≡ true → b ≡ a
antisym a b p q = omega (arith, leb→le a b p, leb→le b a q)

-- `test_inner` passes exactly where the node is done.
test_response-Done :
    (value : Response) (tip : BestTip) → (test_response value tip ≡ passed tt) ↔ Done value tip
unfolding test_response
test_response-Done value tip = (passes, complete)
  where
    passes : test_response value tip ≡ passed tt → Done value tip
    passes h₀ =
        let (synced, h₁) = ensure->> _ (bytes_eq value.sync_status synced_status) _ tt h₀ in
        let (head, is_head, h₂) = ok_or->>= _ (first value.best_chain) _ tt h₁ in
        let height = height_of head.block_height in
        let (not_below, h₃) = ensure->> _ (leb tip.blockchain_length height) _ tt h₂ in
        let (not_above, h₄) = ensure->> _ (leb height tip.blockchain_length) _ tt h₃ in
        let (expected, is_string, h₅) = string_value->>= tip.snarked_ledger_hash _ tt h₄ in
        let (same_ledger, h₆) = ensure->> _ (bytes_eq expected head.snarked_ledger_hash) _ tt h₅ in
        let same_hash = ensure-passed _ (bytes_eq head.state_hash tip.state_hash) h₆ in
        let (rest, has_head) = first-some value.best_chain head is_head in
        record {
          is_synced = bytes_eq→≡ value.sync_status synced_status synced;
          head = head;
          rest = rest;
          has_head = has_head;
          has_height = antisym tip.blockchain_length height not_below not_above;
          is_proved =
              is_string ∙ ap some (bytes_eq→≡ expected head.snarked_ledger_hash same_ledger);
          has_hash = bytes_eq→≡ head.state_hash tip.state_hash same_hash;
        }

    complete : Done value tip → test_response value tip ≡ passed tt
    complete d =
        let below = le→leb tip.blockchain_length tip.blockchain_length (omega arith) in
        simp (
          d.is_synced,
          bytes_eq_refl synced_status,
          d.has_head,
          d.has_height,
          below,
          d.is_proved,
          bytes_eq_refl d.head.snarked_ledger_hash,
          d.has_hash,
          bytes_eq_refl tip.state_hash,
        )

-- A synced node whose head's height is below the best tip's is waited over.
test_response_below :
    (value : Response) (tip : BestTip) (head : Chain) (rest : List Chain)
    → value.sync_status ≡ synced_status
    → value.best_chain ≡ head ∷ rest
    → height_of head.block_height < tip.blockchain_length
    → (test_response value tip ≡ failed bootstrap_not_done) × (fatal bootstrap_not_done ≡ false)
unfolding test_response fatal
test_response_below value tip head rest s h below = (
  simp (
    s,
    h,
    bytes_eq_refl synced_status,
    lt→leb_false tip.blockchain_length (height_of head.block_height) below,
  ),
  refl,
)

-- A synced node whose head's height is above the best tip's has the error of a wrong head block,
-- with both heights, and this error is fatal.
test_response_above :
    (value : Response) (tip : BestTip) (head : Chain) (rest : List Chain)
    → value.sync_status ≡ synced_status
    → value.best_chain ≡ head ∷ rest
    → tip.blockchain_length < height_of head.block_height
    → (e : TestError) × (test_response value tip ≡ failed e)
      × (e ≡ head_block_is_wrong tip.blockchain_length (height_of head.block_height))
      × (fatal e ≡ true)
unfolding test_response fatal
test_response_above value tip head rest s h above = (
  head_block_is_wrong tip.blockchain_length (height_of head.block_height),
  simp (
    s,
    h,
    bytes_eq_refl synced_status,
    le→leb tip.blockchain_length (height_of head.block_height) (omega (arith, above)),
    lt→leb_false (height_of head.block_height) tip.blockchain_length above,
  ),
  refl,
  refl,
)
