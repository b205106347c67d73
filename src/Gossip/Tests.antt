-- ===== src/Gossip/Tests.antt =====
-- The theorems on gossip (gossipsub-sandbox/src/main.rs) at concrete inputs: two messages, of which
-- one is recorded, and a publishing that keeps them.
use openmina_poc.Base.{ℕ, ◌≡◌, refl, List, [], ◌∷◌, ◌++◌, Option, some, done, arith}
use openmina_poc.Rpc.Bytes.{frame}
use openmina_poc.Gossip.{message, other_event, GossipEvent, record_all, replay}
use openmina_poc.Gossip.Replay.{publish_all, diffs, replay-record_all}

abbrev keep : List (List ℕ) → List ℕ → Option (List (List ℕ))
keep published bytes = some (published ++ bytes ∷ [])

abbrev events : List GossipEvent
events = message (frame (1 ∷ 5 ∷ [])) ∷ other_event ∷ message (frame (0 ∷ 6 ∷ [])) ∷ []

replay-record_all_example :
    (file : List ℕ) × (record_all [] events ≡ done file)
    × (replay keep file [] ≡ publish_all keep (diffs events) [])
replay-record_all_example =
    replay-record_all keep events []
      ((1, 5 ∷ [], refl, omega arith), (tt, ((0, 6 ∷ [], refl, omega arith), tt)))
