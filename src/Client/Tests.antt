-- ===== src/Client/Tests.antt =====
-- The theorems on the client at concrete inputs.
use openmina_poc.Base.{ℕ, ◌≡◌, refl, List, [], ◌∷◌, ◌++◌, none, some, done, ok}
use openmina_poc.Base.Map.{nat_key}
use openmina_poc.Rpc.Wire.{received_response, handshake_done, menu_listed}
use openmina_poc.Rpc.Event.{StreamId, connection_established, stream}
use openmina_poc.Client.{Client, behaviour, other_event, Method, opens, queries, rpc}
use openmina_poc.Client.Sends.{AnsweredEnds, rpc-sends_once}
use openmina_poc.Client.Answers.{other, menu, rpc-answers, rpc-answers_unsent}

-- A query is a number, and its response is the bytes of the payload.
abbrev echo : Method ℕ (List ℕ)
echo = record {
  encode = λ id n. some (n ∷ []);
  decode = λ bytes. some (ok bytes);
  no_best_tip = λ id. some [];
  to_string_lossy = λ tag. tag;
}

abbrev idle : Client ℕ
idle = record { calls = []; peer = none; stream_id = none; id = 1 }

abbrev out : StreamId
out = StreamId.outgoing 0

rpc-answers_example :
    rpc echo
      ((other_event ∷ [])
        ++ (behaviour 3 connection_established
            ∷ ([]
                ++ (behaviour 3 (stream out handshake_done)
                    ∷ ((behaviour 3 (stream out (menu_listed [])) ∷ [])
                        ++ behaviour 3 (stream out (received_response 1 (8 ∷ []))) ∷ [])))))
      idle
      5
    ≡ done (
      record {
        calls = opens 3 0 ∷ queries 3 out 1 (5 ∷ []) ∷ [];
        peer = some 3;
        stream_id = some out;
        id = 2;
      },
      ok (8 ∷ []),
    )
rpc-answers_example =
    rpc-answers echo idle 5 3 3 3 out out (5 ∷ []) (8 ∷ []) (8 ∷ []) (other_event ∷ []) []
      (behaviour 3 (stream out (menu_listed [])) ∷ []) [] refl refl refl refl (other, tt) tt
      (menu 3 out [], tt)

rpc-sends_once_example : AnsweredEnds echo idle (
    rpc echo
      (behaviour 3 connection_established ∷ behaviour 3 (stream out handshake_done) ∷ [])
      idle
      5)
rpc-sends_once_example =
    rpc-sends_once echo
      (behaviour 3 connection_established ∷ behaviour 3 (stream out handshake_done) ∷ []) idle 5

rpc-answers_unsent_example :
    rpc echo
      ((other_event ∷ []) ++ behaviour 9 (stream out (received_response 0 (8 ∷ []))) ∷ [])
      idle
      5
    ≡ done (idle, ok (8 ∷ []))
rpc-answers_unsent_example =
    rpc-answers_unsent echo idle 5 9 out 0 (8 ∷ []) (8 ∷ []) (other_event ∷ []) [] refl refl refl
      (other, tt)
