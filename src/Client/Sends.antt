-- ===== src/Client/Sends.antt =====
-- The queries that a call of `rpc` in bootstrap-sandbox/src/client.rs sends.
use openmina_poc.Base.{
  bytes_eq, ℕ, ◌≡◌, refl, ap, ◌∙◌, List, [], ◌∷◌, ◌++◌, ◌&&◌, Option, none, some, done, panic,
  stuck, Result, ok, err, ◌==◌, Bool-cases, ◌⊎◌, inl, inr, append-nil,
}
use openmina_poc.Base.Map.{Key}
use openmina_poc.Rpc.Wire.{Received, received_query, received_response, menu_listed, handshake_done}
use openmina_poc.Rpc.Event.{StreamId, connection_established, connection_closed, stream}
use openmina_poc.Client.{
  Client, ClientError, BehaviourCall, opens, queries, responds, SwarmEvent, behaviour, other_event,
  Method, Flow, goes_on, returns, panics, Answered, next_id, get_best_tip, send_query, send_on,
  encoded, after_send, on_event, on_received, answered, decoded, after_event, after_start, rpc_loop,
  rpc, or_stream, is_peer,
}

-- The identifiers of the queries that were sent, in order.
pub query_ids : {P : Type 0} → List (BehaviourCall P) → List ℕ
query_ids [] = []
query_ids (opens peer id ∷ calls) = query_ids calls
query_ids (queries peer stream_id id bytes ∷ calls) = id ∷ query_ids calls
query_ids (responds peer stream_id id bytes ∷ calls) = query_ids calls

query_ids-append :
    {P : Type 0} (xs ys : List (BehaviourCall P))
    → query_ids (xs ++ ys) ≡ query_ids xs ++ query_ids ys
unfolding query_ids
query_ids-append [] ys = refl
query_ids-append (opens peer id ∷ xs) ys = query_ids-append xs ys
query_ids-append (queries peer stream_id id bytes ∷ xs) ys = ap (◌∷◌ id) (query_ids-append xs ys)
query_ids-append (responds peer stream_id id bytes ∷ xs) ys = query_ids-append xs ys

module _ {P Q R : Type 0} ⦃peer_key : Key P⦄ (m : Method Q R) (c₀ : Client P) where
  -- Since `c₀`, no query was sent, and the identifier is the same.
  abbrev pub Unsent : Client P → Type 0
  Unsent c = (query_ids c.calls ≡ query_ids c₀.calls) × (c.id ≡ c₀.id)

  -- Since `c₀`, one query was sent, under its identifier, which then counted up.
  abbrev pub SentOnce : Client P → Type 0
  SentOnce c = (query_ids c.calls ≡ query_ids c₀.calls ++ c₀.id ∷ []) × (c.id ≡ next_id c₀.id)

  abbrev Stage : Client P → Option Q → Type 0
  Stage c none = SentOnce c
  Stage c (some query) = Unsent c

  abbrev pub Ends : Client P → Type 0
  Ends c = Unsent c ⊎ SentOnce c

  abbrev Flows : Flow P Q R → Type 0
  Flows (goes_on c query) = Stage c query
  Flows (returns c r) = Ends c
  Flows panics = Unit

  Stage-Ends : (c : Client P) (query : Option Q) → Stage c query → Ends c
  Stage-Ends c none s = inr s
  Stage-Ends c (some query) s = inl s

  -- A call that is no query leaves the stage as it is.
  Stage-keep :
      (c c' : Client P) (query : Option Q)
      → query_ids c'.calls ≡ query_ids c.calls
      → c'.id ≡ c.id
      → Stage c query
      → Stage c' query
  Stage-keep c c' none e i s = (e ∙ s.0, i ∙ s.1)
  Stage-keep c c' (some query) e i s = (e ∙ s.0, i ∙ s.1)

  encoded-Flows :
      (c : Client P) (peer : P) (stream_id : StreamId) (bytes : Option (List ℕ))
      → Unsent c
      → Flows (after_send m c (encoded m c peer stream_id bytes))
  unfolding query_ids
  encoded-Flows c peer stream_id none s = inl s
  encoded-Flows c peer stream_id (some bytes) s = (
    query_ids-append c.calls (queries peer stream_id c.id bytes ∷ [])
        ∙ ap (λ t. t ++ c.id ∷ []) s.0
        ∙ ap (λ i. query_ids c₀.calls ++ i ∷ []) s.1,
    ap next_id s.1,
  )

  send_on-Flows :
      (c : Client P) (peer : Option P) (stream_id : Option StreamId) (query : Option Q)
      → Stage c query
      → Flows (after_send m c (send_on m c peer stream_id query))
  send_on-Flows c (some peer) (some stream_id) (some query) s =
      encoded-Flows c peer stream_id (m.encode c.id query) s
  send_on-Flows c (some peer) (some stream_id) none s = s
  send_on-Flows c (some peer) none query s = s
  send_on-Flows c none stream_id query s = s

  answered-Flows :
      (c : Client P) (query : Option Q) (peer : P) (stream_id : StreamId) (id : ℕ)
      (bytes : Option (List ℕ))
      → Stage c query
      → Flows (answered m c query peer stream_id id bytes)
  unfolding query_ids
  answered-Flows c query peer stream_id id none s = tt
  answered-Flows c query peer stream_id id (some bytes) s =
      Stage-keep c (record c { calls = c.calls ++ responds peer stream_id id bytes ∷ [] }) query
        (query_ids-append c.calls (responds peer stream_id id bytes ∷ []) ∙ append-nil _) refl s

  decoded-Flows :
      (c : Client P) (query : Option Q) (response : Option (Result R ℕ))
      → Stage c query
      → Flows (decoded m c response)
  decoded-Flows c query none s = Stage-Ends c query s
  decoded-Flows c query (some (err e)) s = Stage-Ends c query s
  decoded-Flows c query (some (ok response)) s = Stage-Ends c query s

  on_received-Flows :
      (c : Client P) (query : Option Q) (peer : P) (stream_id : StreamId) (received : Received)
      → Stage c query
      → Flows (on_received m c query peer stream_id received)
  unfolding send_query
  on_received-Flows c query peer stream_id handshake_done s =
      let c' : Client P = record c { stream_id = or_stream c.stream_id stream_id } in
      send_on-Flows c' c'.peer c'.stream_id query (Stage-keep c c' query refl refl s)
  on_received-Flows c query peer stream_id (menu_listed menu) s = s
  on_received-Flows c query peer stream_id (received_query header bytes) s =
      elim (Bool-cases
        (bytes_eq (m.to_string_lossy header.tag) get_best_tip && header.version == 2)) [
          | inl t ↦ rw t (answered-Flows c query peer stream_id header.id _ s)
          | inr f ↦ rw f s
        ]
  on_received-Flows c query peer stream_id (received_response id bytes) s =
      elim (Bool-cases (next_id id == c.id)) [
        | inl t ↦ rw t (decoded-Flows c query (m.decode bytes) s)
        | inr f ↦ rw f s
      ]

  on_event-Flows :
      (c : Client P) (query : Option Q) (event : SwarmEvent P)
      → Stage c query
      → Flows (on_event m c query event)
  unfolding on_event query_ids
  on_event-Flows c query (behaviour peer connection_established) s =
      Stage-keep c (record c { peer = some peer; calls = c.calls ++ opens peer 0 ∷ [] }) query
        (query_ids-append c.calls (opens peer 0 ∷ []) ∙ append-nil _) refl s
  on_event-Flows c query (behaviour peer connection_closed) s =
      elim (Bool-cases (is_peer m c.peer peer)) [
        | inl t ↦ rw t (Stage-keep c (record c { peer = none }) query refl refl s)
        | inr f ↦ rw f s
      ]
  on_event-Flows c query (behaviour peer (stream stream_id received)) s =
      on_received-Flows c query peer stream_id received s
  on_event-Flows c query other_event s = s

  -- What a call comes to satisfies `Ends`, where it returns.
  abbrev pub AnsweredEnds : Answered P R → Type 0
  AnsweredEnds (done (c, r)) = Ends c
  AnsweredEnds panic = Unit
  AnsweredEnds stuck = Unit

  after_event-Ends :
      (flow : Flow P Q R) (rest : Client P → Option Q → Answered P R)
      → ((c : Client P) (query : Option Q) → Stage c query → AnsweredEnds (rest c query))
      → Flows flow
      → AnsweredEnds (after_event m flow rest)
  after_event-Ends (goes_on c query) rest k s = k c query s
  after_event-Ends (returns c r) rest k s = s
  after_event-Ends panics rest k s = tt

  rpc_loop-Ends :
      (events : List (SwarmEvent P)) (c : Client P) (query : Option Q)
      → Stage c query
      → AnsweredEnds (rpc_loop m events c query)
  unfolding rpc_loop
  rpc_loop-Ends [] c query s = Stage-Ends c query s
  rpc_loop-Ends (event ∷ events) c query s =
      after_event-Ends (on_event m c query event) (rpc_loop m events) (rpc_loop-Ends events)
        (on_event-Flows c query event s)

  after_start-Ends :
      (c : Client P) (sent : Result (Client P × Option Q) ClientError)
      (events : List (SwarmEvent P))
      → Flows (after_send m c sent)
      → AnsweredEnds (after_start m c sent events)
  after_start-Ends c (ok (c', query)) events s = rpc_loop-Ends events c' query s
  after_start-Ends c (err e) events s = s

-- Over any events, whatever a call of `rpc` returns, it has sent no query and the identifier is as
-- it was, or it has sent exactly one query, under the identifier the client had, and the identifier
-- has counted up by one.
pub rpc-sends_once :
    {P Q R : Type 0} ⦃peer_key : Key P⦄ (m : Method Q R) (events : List (SwarmEvent P))
    (c : Client P) (query : Q)
    → AnsweredEnds m c (rpc m events c query)
unfolding rpc send_query
rpc-sends_once m events c query =
    after_start-Ends m c c (send_query m c (some query)) events
      (send_on-Flows m c c c.peer c.stream_id (some query) (refl, refl))
