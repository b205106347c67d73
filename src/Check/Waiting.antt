-- ===== src/Check/Waiting.antt =====
-- The loops of `test` and `test_graphql` of bootstrap-sandbox/src/check.rs.
use openmina_poc.Base.{
  ◌≡◌, ◌≢◌, ◌⊎◌, inl, inr, refl, Bool, List, [], ◌∷◌, ◌++◌, true, false, Option, none, some, All,
  Bool-cases,
}
use openmina_poc.Check.{
  TestError, fatal, Checked, passed, failed, aborted, SyncEvent, BestTip, GraphqlFetch,
  fetch_aborts, no_response, fetched, after_fetch, test_inner, test_response, Ending, returned,
  exited, panicked, waiting, after_test, test, test_graphql,
}

-- A fetch of which the test waits for the next one.
abbrev pub Waits : Checked Unit → Type 0
Waits verdict = (e : TestError) × (verdict ≡ failed e) × (fatal e ≡ false)

-- How the loop ended, over its verdicts.
pub data Ends : List (Checked Unit) → Ending → Type 0 where
  at_end : (earlier : List (Checked Unit)) → All Waits earlier → Ends earlier waiting
  at_pass :
      (earlier later : List (Checked Unit))
      → All Waits earlier
      → Ends (earlier ++ passed tt ∷ later) returned
  at_error :
      (earlier later : List (Checked Unit)) (e : TestError)
      → All Waits earlier
      → fatal e ≡ true
      → Ends (earlier ++ failed e ∷ later) (exited e)
  at_abort :
      (earlier later : List (Checked Unit))
      → All Waits earlier
      → Ends (earlier ++ aborted ∷ later) panicked

Ends-Waits :
    (verdict : Checked Unit) (verdicts : List (Checked Unit)) (ending : Ending)
    → Waits verdict
    → Ends verdicts ending
    → Ends (verdict ∷ verdicts) ending
Ends-Waits v _ _ w (at_end earlier ws) = at_end (v ∷ earlier) (w, ws)
Ends-Waits v _ _ w (at_pass earlier later ws) = at_pass (v ∷ earlier) later (w, ws)
Ends-Waits v _ _ w (at_error earlier later e ws f) = at_error (v ∷ earlier) later e (w, ws) f
Ends-Waits v _ _ w (at_abort earlier later ws) = at_abort (v ∷ earlier) later (w, ws)

after_test-Ends :
    (verdict : Checked Unit) (verdicts : List (Checked Unit)) (ending : Ending)
    → Ends verdicts ending
    → Ends (verdict ∷ verdicts) (after_test verdict ending)
after_test-Ends (passed tt) verdicts ending h = at_pass [] verdicts tt
after_test-Ends aborted verdicts ending h = at_abort [] verdicts tt
after_test-Ends (failed e) verdicts ending h = elim (Bool-cases (fatal e)) [
  | inl t ↦ rw t (at_error [] verdicts e tt t)
  | inr f ↦ rw f (Ends-Waits (failed e) verdicts ending (e, refl, f) h)
]

pub verdicts : BestTip → List (List SyncEvent) → List (Checked Unit)
verdicts tip [] = []
verdicts tip (events ∷ fetches) = test_inner events tip ∷ verdicts tip fetches

-- The verdict of a turn of the GraphQL test: an abort where the statistics are asked for and cannot
-- be read, or where the fetch aborts; none where the fetch gives no response.
abbrev pub IsVerdict :
    Bool → Option (List SyncEvent) × GraphqlFetch → BestTip → Option (Checked Unit) → Type 0
IsVerdict verbose (events, fetch_aborts) tip verdict = verdict ≡ some aborted
IsVerdict verbose (events, no_response) tip verdict =
    ((verbose ≡ true) × (events ≡ none) × (verdict ≡ some aborted))
    ⊎ ((verbose ≡ true → events ≢ none) × (verdict ≡ none))
IsVerdict verbose (events, fetched value) tip verdict =
    ((verbose ≡ true) × (events ≡ none) × (verdict ≡ some aborted))
    ⊎ ((verbose ≡ true → events ≢ none) × (verdict ≡ some (test_response value tip)))

-- The verdicts of the turns, in their order, without the turns that have none.
pub data AreVerdicts (verbose : Bool) (tip : BestTip)
    : List (Option (List SyncEvent) × GraphqlFetch) → List (Checked Unit) → Type 0 where
  no_turns : AreVerdicts verbose tip [] []
  with_verdict :
      (turn : Option (List SyncEvent) × GraphqlFetch)
      (turns : List (Option (List SyncEvent) × GraphqlFetch)) (verdict : Checked Unit)
      (verdicts : List (Checked Unit))
      → IsVerdict verbose turn tip (some verdict)
      → AreVerdicts verbose tip turns verdicts
      → AreVerdicts verbose tip (turn ∷ turns) (verdict ∷ verdicts)
  without_verdict :
      (turn : Option (List SyncEvent) × GraphqlFetch)
      (turns : List (Option (List SyncEvent) × GraphqlFetch)) (verdicts : List (Checked Unit))
      → IsVerdict verbose turn tip none
      → AreVerdicts verbose tip turns verdicts
      → AreVerdicts verbose tip (turn ∷ turns) verdicts

-- Over any fetches, `test` waits exactly over the errors that are not fatal: it returns at the
-- first verdict that is no such error if that passes, exits there with that error if it is fatal,
-- panics there if it aborts, and waits on if there is none.
pub test-Ends :
    (fetches : List (List SyncEvent)) (tip : BestTip)
    → Ends (verdicts tip fetches) (test fetches tip)
unfolding test verdicts
test-Ends [] tip = at_end [] tt
test-Ends (events ∷ fetches) tip =
    after_test-Ends (test_inner events tip) _ _ (test-Ends fetches tip)

-- What the GraphQL test ends with over some turns.
abbrev pub GraphqlEnds :
    Bool → List (Option (List SyncEvent) × GraphqlFetch) → BestTip → Ending → Type 0
GraphqlEnds verbose turns tip ending =
    (verdicts : List (Checked Unit)) × AreVerdicts verbose tip turns verdicts × Ends verdicts ending

abort-GraphqlEnds :
    (verbose : Bool) (turn : Option (List SyncEvent) × GraphqlFetch)
    (turns : List (Option (List SyncEvent) × GraphqlFetch)) (tip : BestTip) (ending : Ending)
    → IsVerdict verbose turn tip (some aborted)
    → GraphqlEnds verbose turns tip ending
    → GraphqlEnds verbose (turn ∷ turns) tip panicked
abort-GraphqlEnds verbose turn turns tip ending is (verdicts, are, ends) =
    (aborted ∷ verdicts, with_verdict turn turns aborted verdicts is are, at_abort [] verdicts tt)

after_fetch-GraphqlEnds :
    (verbose : Bool) (events : Option (List SyncEvent)) (got : GraphqlFetch)
    (turns : List (Option (List SyncEvent) × GraphqlFetch)) (tip : BestTip) (ending : Ending)
    → (verbose ≡ true → events ≢ none)
    → GraphqlEnds verbose turns tip ending
    → GraphqlEnds verbose ((events, got) ∷ turns) tip (after_fetch got tip ending)
after_fetch-GraphqlEnds verbose events fetch_aborts turns tip ending read rest =
    abort-GraphqlEnds verbose (events, fetch_aborts) turns tip ending refl rest
after_fetch-GraphqlEnds verbose events no_response turns tip ending read (verdicts, are, ends) =
    (verdicts, without_verdict (events, no_response) turns verdicts (inr (read, refl)) are, ends)
after_fetch-GraphqlEnds verbose events (fetched value) turns tip ending read (verdicts, are, ends) =
    (
      test_response value tip ∷ verdicts,
      with_verdict (events, fetched value) turns (test_response value tip) verdicts
          (inr (read, refl)) are,
      after_test-Ends (test_response value tip) verdicts ending ends,
    )

unread-IsVerdict :
    (got : GraphqlFetch) (tip : BestTip) → IsVerdict true (none, got) tip (some aborted)
unread-IsVerdict fetch_aborts tip = refl
unread-IsVerdict no_response tip = inl (refl, refl, refl)
unread-IsVerdict (fetched value) tip = inl (refl, refl, refl)

-- Over any turns, `test_graphql` ends as `test` does, over the verdicts of its turns: a turn aborts
-- where the test is verbose and the statistics cannot be read, or where the fetch aborts; data that
-- is no response is waited over without a verdict; a response has its own verdict.
pub test_graphql-Ends :
    (verbose : Bool) (turns : List (Option (List SyncEvent) × GraphqlFetch)) (tip : BestTip)
    → GraphqlEnds verbose turns tip (test_graphql verbose turns tip)
unfolding test_graphql
test_graphql-Ends verbose [] tip = ([], no_turns, at_end [] tt)
test_graphql-Ends true ((none, got) ∷ turns) tip =
    abort-GraphqlEnds true (none, got) turns tip _ (unread-IsVerdict got tip)
      (test_graphql-Ends true turns tip)
test_graphql-Ends true ((some events, got) ∷ turns) tip =
    after_fetch-GraphqlEnds true (some events) got turns tip _ (λ t e. absurd cc)
      (test_graphql-Ends true turns tip)
test_graphql-Ends false ((events, got) ∷ turns) tip =
    after_fetch-GraphqlEnds false events got turns tip _ (λ t. absurd cc)
      (test_graphql-Ends false turns tip)
