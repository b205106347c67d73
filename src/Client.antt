-- ===== src/Client.antt =====
-- `Client` of bootstrap-sandbox/src/client.rs: one RPC at a time over the events of a swarm. The
-- swarm is libp2p's: what it gives is a list of events, whose end is the end of the swarm, and what
-- the client calls of the behaviour is recorded in order. Identifiers are 64-bit patterns.
pub mod Sends
pub mod Answers
mod Tests
use openmina_poc.Base.{
  bytes_eq, ℕ, ◌+◌, ◌%◌, List, [], ◌∷◌, ◌++◌, Bool, true, false, ◌&&◌, Option, none, some, Exec,
  done, panic, ◌>>=◌, Result, ok, err, ◌==◌, if◌then◌else◌,
}
use openmina_poc.Base.Map.{Key}
use openmina_poc.Rpc.Bytes.{u64_mod}
use openmina_poc.Rpc.Wire.{
  QueryHeader, Received, received_query, received_response, menu_listed, handshake_done,
}
use openmina_poc.Rpc.Event.{StreamId, Event, connection_established, connection_closed, stream}

-- `rpc_kernel::Error` is mina-p2p-messages'; it is numbered.
pub data ClientError : Type 0 where
  binprot_error : ClientError
  internal_error : ℕ → ClientError
  libp2p : ClientError

-- What the client calls of the behaviour: `open`, `query` with the identifier and the encoded
-- message, and `respond` to a query for the best tip.
pub data BehaviourCall (P : Type 0) : Type 0 where
  opens : P → ℕ → BehaviourCall P
  queries : P → StreamId → ℕ → List ℕ → BehaviourCall P
  responds : P → StreamId → ℕ → List ℕ → BehaviourCall P

pub data SwarmEvent (P : Type 0) : Type 0 where
  behaviour : P → Event → SwarmEvent P
  other_event : SwarmEvent P

pub record Client (P : Type 0) : Type 0 where
  pub calls : List (BehaviourCall P)
  pub peer : Option P
  pub stream_id : Option StreamId
  pub id : ℕ

-- The encodings of an RPC method `M`, with its query and response types: `binprot_write` of a query
-- under an identifier, `binprot_read` of a response payload, of which the inner result is the peer's
-- answer, and the response to a query for the best tip. `none` is a failure of the codec.
pub record Method (Q R : Type 0) : Type 0 where
  pub encode : ℕ → Q → Option (List ℕ)
  pub decode : List ℕ → Option (Result R ℕ)
  pub no_best_tip : ℕ → Option (List ℕ)
  pub to_string_lossy : List ℕ → List ℕ

unfoldable pub new_client : {P : Type 0} → Client P
new_client = record { calls = []; peer = none; stream_id = none; id = 1 }

-- "get_best_tip"
abbrev pub get_best_tip : List ℕ
get_best_tip =
    b'g' ∷ b'e' ∷ b't' ∷ b'_' ∷ b'b' ∷ b'e' ∷ b's' ∷ b't' ∷ b'_' ∷ b't' ∷ b'i' ∷ b'p' ∷ []

-- `self.id += 1`, which wraps in a release build.
abbrev pub next_id : ℕ → ℕ
next_id id = (id + 1) % u64_mod

-- What an event makes of a call: it goes on, with the query that is not sent yet, or returns.
pub data Flow (P Q R : Type 0) : Type 0 where
  goes_on : Client P → Option Q → Flow P Q R
  returns : Client P → Result R ClientError → Flow P Q R
  panics : Flow P Q R

-- What a call comes to.
abbrev pub Answered : Type 0 → Type 0 → Type 0
Answered P R = Exec (Client P × Result R ClientError)

abbrev pub or_stream : Option StreamId → StreamId → Option StreamId
or_stream none stream_id = some stream_id
or_stream (some current) stream_id = some current

module _ {P Q R : Type 0} ⦃peer_key : Key P⦄ (m : Method Q R) where
  -- The client, and the query that it has not sent yet.
  abbrev pub encoded :
      Client P → P → StreamId → Option (List ℕ) → Result (Client P × Option Q) ClientError
  encoded c peer stream_id none = err binprot_error
  encoded c peer stream_id (some bytes) = ok (
    record c { calls = c.calls ++ queries peer stream_id c.id bytes ∷ []; id = next_id c.id },
    none,
  )

  -- `if let (Some(peer_id), Some(stream_id)) = ...`, with the `query.take()` in it.
  abbrev pub send_on :
      Client P → Option P → Option StreamId → Option Q → Result (Client P × Option Q) ClientError
  send_on c (some peer) (some stream_id) (some query) =
      encoded c peer stream_id (m.encode c.id query)
  send_on c (some peer) (some stream_id) none = ok (c, none)
  send_on c (some peer) none query = ok (c, query)
  send_on c none stream_id query = ok (c, query)

  unfoldable pub send_query : Client P → Option Q → Result (Client P × Option Q) ClientError
  send_query c query = send_on c c.peer c.stream_id query

  abbrev pub after_send : Client P → Result (Client P × Option Q) ClientError → Flow P Q R
  after_send c (ok (c', query)) = goes_on c' query
  after_send c (err e) = returns c (err e)

  abbrev pub is_peer : Option P → P → Bool
  is_peer none peer = false
  is_peer (some current) peer = peer_key.beq current peer

  -- `respond(...).unwrap()`.
  abbrev pub answered : Client P → Option Q → P → StreamId → ℕ → Option (List ℕ) → Flow P Q R
  answered c query peer stream_id id none = panics
  answered c query peer stream_id id (some bytes) =
      goes_on (record c { calls = c.calls ++ responds peer stream_id id bytes ∷ [] }) query

  abbrev pub decoded : Client P → Option (Result R ℕ) → Flow P Q R
  decoded c none = returns c (err binprot_error)
  decoded c (some (err e)) = returns c (err (internal_error e))
  decoded c (some (ok response)) = returns c (ok response)

  -- The `match` on what the stream received.
  abbrev pub on_received : Client P → Option Q → P → StreamId → Received → Flow P Q R
  on_received c query peer stream_id handshake_done =
      let c' = record c { stream_id = or_stream c.stream_id stream_id } in
      after_send c' (send_query c' query)
  on_received c query peer stream_id (menu_listed menu) = goes_on c query
  on_received c query peer stream_id (received_query header bytes) =
      if bytes_eq (m.to_string_lossy header.tag) get_best_tip && header.version == 2
      then answered c query peer stream_id header.id (m.no_best_tip header.id)
      else goes_on c query
  on_received c query peer stream_id (received_response id bytes) =
      if next_id id == c.id then decoded c (m.decode bytes) else goes_on c query

  unfoldable pub on_event : Client P → Option Q → SwarmEvent P → Flow P Q R
  unfolding send_query
  on_event c query (behaviour peer connection_established) =
      goes_on (record c { peer = some peer; calls = c.calls ++ opens peer 0 ∷ [] }) query
  on_event c query (behaviour peer connection_closed) =
      goes_on (if is_peer c.peer peer then record c { peer = none } else c) query
  on_event c query (behaviour peer (stream stream_id received)) =
      on_received c query peer stream_id received
  on_event c query other_event = goes_on c query

  abbrev pub after_event : Flow P Q R → (Client P → Option Q → Answered P R) → Answered P R
  after_event (goes_on c query) rest = rest c query
  after_event (returns c r) rest = done (c, r)
  after_event panics rest = panic

  -- The loop of `rpc`; a swarm that has stopped is an error.
  unfoldable pub rpc_loop : List (SwarmEvent P) → Client P → Option Q → Answered P R
  rpc_loop [] c query = done (c, err libp2p)
  rpc_loop (event ∷ events) c query = after_event (on_event c query event) (rpc_loop events)

  abbrev pub after_start :
      Client P → Result (Client P × Option Q) ClientError → List (SwarmEvent P) → Answered P R
  after_start c (err e) events = done (c, err e)
  after_start c (ok (c', query)) events = rpc_loop events c' query

  unfoldable pub rpc : List (SwarmEvent P) → Client P → Q → Answered P R
  unfolding send_query
  rpc events c query = after_start c (send_query c (some query)) events
