-- ===== src/Client/Answers.antt =====
-- The answer that a call of `rpc` in bootstrap-sandbox/src/client.rs returns.
use openmina_poc.Base.{
  bytes_eq, ℕ, ◌≡◌, refl, ap, ◌∙◌, List, [], ◌∷◌, ◌++◌, false, ◌&&◌, Option, none, some, done, ok,
  ◌==◌, All, ==_iff,
}
use openmina_poc.Base.Map.{Key}
use openmina_poc.Rpc.Wire.{
  QueryHeader, Menu, received_query, received_response, menu_listed, handshake_done,
}
use openmina_poc.Rpc.Event.{StreamId, connection_established, stream}
use openmina_poc.Client.{
  Client, opens, queries, SwarmEvent, behaviour, other_event, Method, goes_on, next_id,
  get_best_tip, send_query, send_on, on_event, after_start, rpc_loop, rpc,
}

module _ {P Q R : Type 0} ⦃peer_key : Key P⦄ (m : Method Q R) where
  -- An event that a client passes over while its identifier is `id`: what is no event of the
  -- behaviour, a menu, a query that is not for the best tip, a response to another query.
  pub data IsNoise (id : ℕ) : SwarmEvent P → Type 0 where
    other : IsNoise id other_event
    menu :
        (peer : P) (stream_id : StreamId) (listed : Menu)
        → IsNoise id (behaviour peer (stream stream_id (menu_listed listed)))
    asked :
        (peer : P) (stream_id : StreamId) (header : QueryHeader) (bytes : List ℕ)
        → (bytes_eq (m.to_string_lossy header.tag) get_best_tip && header.version == 2) ≡ false
        → IsNoise id (behaviour peer (stream stream_id (received_query header bytes)))
    stale :
        (peer : P) (stream_id : StreamId) (old : ℕ) (bytes : List ℕ)
        → (next_id old == id) ≡ false
        → IsNoise id (behaviour peer (stream stream_id (received_response old bytes)))

  on_event-IsNoise :
      (c : Client P) (query : Option Q) (event : SwarmEvent P)
      → IsNoise c.id event
      → on_event m c query event ≡ goes_on c query
  unfolding on_event
  on_event-IsNoise c query _ other = refl
  on_event-IsNoise c query _ (menu peer stream_id listed) = refl
  on_event-IsNoise c query _ (asked peer stream_id header bytes e) = rw e refl
  on_event-IsNoise c query _ (stale peer stream_id old bytes e) = rw e refl

  rpc_loop-IsNoise :
      (noise events : List (SwarmEvent P)) (c : Client P) (query : Option Q)
      → All (IsNoise c.id) noise
      → rpc_loop m (noise ++ events) c query ≡ rpc_loop m events c query
  unfolding rpc_loop
  rpc_loop-IsNoise [] events c query n = refl
  rpc_loop-IsNoise (event ∷ noise) events c query (n, ns) =
      rw (on_event-IsNoise c query event n) (rpc_loop-IsNoise noise events c query ns)

  rpc-no_peer :
      (events : List (SwarmEvent P)) (c : Client P) (query : Q)
      → c.peer ≡ none
      → rpc m events c query ≡ rpc_loop m events c (some query)
  unfolding rpc send_query
  rpc-no_peer events c query p =
      ap (λ o. after_start m c (send_on m c o c.stream_id (some query)) events) p

  -- The client after a connection to `peer`, and after the query.
  abbrev pub connected : Client P → P → Client P
  connected c peer = record c { peer = some peer; calls = c.calls ++ opens peer 0 ∷ [] }

  abbrev pub asking : Client P → P → StreamId → List ℕ → Client P
  asking c peer stream_id bytes = record {
    calls = (c.calls ++ opens peer 0 ∷ []) ++ queries peer stream_id c.id bytes ∷ [];
    peer = some peer;
    stream_id = some stream_id;
    id = next_id c.id;
  }

  rpc_loop-response :
      (events : List (SwarmEvent P)) (c : Client P) (id : ℕ) (query : Option Q) (peer : P)
      (stream_id : StreamId) (payload : List ℕ) (response : R)
      → c.id ≡ next_id id
      → m.decode payload ≡ some (ok response)
      → rpc_loop m
          (behaviour peer (stream stream_id (received_response id payload)) ∷ events)
          c
          query
        ≡ done (c, ok response)
  unfolding rpc_loop on_event
  rpc_loop-response events c id query peer stream_id payload response i d =
      rw (i, (==_iff (next_id id) (next_id id)).1 refl, d) refl

  rpc_loop-handshake :
      (events : List (SwarmEvent P)) (c : Client P) (query : Q) (peer from : P)
      (stream_id : StreamId) (bytes : List ℕ)
      → c.stream_id ≡ none
      → m.encode c.id query ≡ some bytes
      → rpc_loop m
          (behaviour from (stream stream_id handshake_done) ∷ events)
          (connected c peer)
          (some query)
        ≡ rpc_loop m events (asking c peer stream_id bytes) none
  unfolding rpc_loop on_event send_query
  rpc_loop-handshake events c query peer from stream_id bytes n e = rw (n, e) refl

-- For a client with no peer and no stream whose query encodes to `bytes`: over events in which a
-- peer connects, a stream finishes its handshake, and a response under the client's identifier
-- decodes to a value, with any noise in between and anything after, a call of `rpc` opens a stream
-- to the peer, sends the encoded query once, on that stream, and returns that value.
pub rpc-answers :
    {P Q R : Type 0} ⦃peer_key : Key P⦄ (m : Method Q R) (c : Client P) (query : Q)
    (peer from₁ from₂ : P) (s₁ s₂ : StreamId) (bytes payload : List ℕ) (response : R)
    (noise₁ noise₂ noise₃ events : List (SwarmEvent P))
    → c.peer ≡ none
    → c.stream_id ≡ none
    → m.encode c.id query ≡ some bytes
    → m.decode payload ≡ some (ok response)
    → All (IsNoise m c.id) noise₁
    → All (IsNoise m c.id) noise₂
    → All (IsNoise m (next_id c.id)) noise₃
    → rpc m
        (noise₁
          ++ (behaviour peer connection_established
              ∷ (noise₂
                  ++ (behaviour from₁ (stream s₁ handshake_done)
                      ∷ (noise₃
                          ++ behaviour from₂ (stream s₂ (received_response c.id payload))
                            ∷ events)))))
        c
        query
      ≡ done (asking m c peer s₁ bytes, ok response)
unfolding rpc_loop on_event
rpc-answers {P = P} m c query peer from₁ from₂ s₁ s₂ bytes payload response noise₁ noise₂ noise₃
      events p s e d n₁ n₂ n₃ =
    let t₃ : List (SwarmEvent P) =
      behaviour from₂ (stream s₂ (received_response c.id payload)) ∷ events in
    let t₂ : List (SwarmEvent P) = behaviour from₁ (stream s₁ handshake_done) ∷ (noise₃ ++ t₃) in
    let t₁ : List (SwarmEvent P) = behaviour peer connection_established ∷ (noise₂ ++ t₂) in
    rpc-no_peer m (noise₁ ++ t₁) c query p
    ∙ rpc_loop-IsNoise m noise₁ t₁ c (some query) n₁
    ∙ rpc_loop-IsNoise m noise₂ t₂ (connected m c peer) (some query) n₂
    ∙ rpc_loop-handshake m (noise₃ ++ t₃) c query peer from₁ s₁ bytes s e
    ∙ rpc_loop-IsNoise m noise₃ t₃ (asking m c peer s₁ bytes) none n₃
    ∙ rpc_loop-response m events (asking m c peer s₁ bytes) c.id none from₂ s₂ payload response refl
        d

-- A response is taken by its identifier alone: for a client with no peer, a response under the
-- identifier before its own, from any peer, that decodes to a value is returned as the answer to a
-- query that was never sent.
pub rpc-answers_unsent :
    {P Q R : Type 0} ⦃peer_key : Key P⦄ (m : Method Q R) (c : Client P) (query : Q) (from : P)
    (stream_id : StreamId) (id : ℕ) (payload : List ℕ) (response : R)
    (noise events : List (SwarmEvent P))
    → c.peer ≡ none
    → c.id ≡ next_id id
    → m.decode payload ≡ some (ok response)
    → All (IsNoise m c.id) noise
    → rpc m
        (noise ++ behaviour from (stream stream_id (received_response id payload)) ∷ events)
        c
        query
      ≡ done (c, ok response)
rpc-answers_unsent m c query from stream_id id payload response noise events p i d n =
    rpc-no_peer m _ c query p
    ∙ rpc_loop-IsNoise m noise _ c (some query) n
    ∙ rpc_loop-response m events c id (some query) from stream_id payload response i d
