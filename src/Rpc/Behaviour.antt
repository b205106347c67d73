-- ===== src/Rpc/Behaviour.antt =====
-- `Behaviour` of libp2p-rpc-behaviour/src/behaviour.rs: which connection serves a peer, the commands
-- that wait for one, and the events for the swarm. Peers and connections are libp2p's; here they are
-- keys. A waker is a number; a function that wakes it returns it beside the new state.
pub mod Commands
pub mod Order
pub mod Wakes
use openmina_poc.Base.{
  ℕ, List, [], ◌∷◌, ◌++◌, map, Bool, true, false, Option, none, some, Poll, pending, ready, Result,
  ok, err, if◌then◌else◌,
}
use openmina_poc.Base.Map.{Key, Map, get, insert, remove}
use openmina_poc.Rpc.Bytes.{frame}
use openmina_poc.Rpc.Wire.{Menu}
use openmina_poc.Rpc.Event.{
  StreamId, Event, connection_established, connection_closed, Command, send, open_stream,
}
use openmina_poc.Rpc.Handler.{Handler, new_handler}

-- `ToSwarm`, as far as the behaviour makes it.
pub data ToSwarm (P C : Type 0) : Type 0 where
  notify_handler : P → C → Command → ToSwarm P C
  generate_event : P → Event → ToSwarm P C

pub record Behaviour (P C : Type 0) : Type 0 where
  pub menu : Menu
  pub peers : Map P C
  pub queue : List (ToSwarm P C)
  pub pending_commands : Map P (List Command)
  pub waker : Option ℕ

-- `FromSwarm`, as far as the behaviour reads it.
pub data FromSwarm (P C : Type 0) : Type 0 where
  established closed : P → C → FromSwarm P C
  another : FromSwarm P C

-- `BTreeSet::insert` of a method, given the order of names and versions.
module _ ⦃method : Key (List ℕ × ℕ)⦄ where
  abbrev pub register_method : Menu → List ℕ × ℕ → Menu
  register_method [] entry = entry ∷ []
  register_method (other ∷ menu) entry =
      if method.beq other entry
      then other ∷ menu
      else if method.before entry other
      then entry ∷ other ∷ menu
      else other ∷ register_method menu entry

abbrev pub or_empty : Option (List Command) → List Command
or_empty none = []
or_empty (some commands) = commands

-- `if self.peers.get(&peer_id) == Some(&connection_id)`.
abbrev pub is_serving : {C : Type 0} ⦃connection_key : Key C⦄ → C → Option C → Bool
is_serving connection none = false
is_serving ⦃connection_key⦄ connection (some serving) = connection_key.beq serving connection

module _ {P C : Type 0} where
  unfoldable pub build : Menu → Behaviour P C
  build menu = record { menu = menu; peers = []; queue = []; pending_commands = []; waker = none }

  abbrev pub notify_all : P → C → List Command → List (ToSwarm P C)
  notify_all peer connection = map (λ command. notify_handler peer connection command)

module _ {P C : Type 0} ⦃peer_key : Key P⦄ ⦃connection_key : Key C⦄ where
  -- `self.pending.entry(peer_id).or_default().push_back(command)` where there is no connection.
  abbrev pub dispatch_on : Behaviour P C → P → Command → Option C → Behaviour P C × Option ℕ
  dispatch_on b peer command (some connection) =
      (record b { queue = b.queue ++ notify_handler peer connection command ∷ [] }, b.waker)
  dispatch_on b peer command none = (
    record b {
      pending_commands =
          insert peer (or_empty (get peer b.pending_commands) ++ command ∷ []) b.pending_commands;
    },
    none,
  )

  unfoldable pub dispatch_command : Behaviour P C → P → Command → Behaviour P C × Option ℕ
  dispatch_command b peer command = dispatch_on b peer command (get peer b.peers)

  unfoldable pub open_to : Behaviour P C → P → ℕ → Behaviour P C × Option ℕ
  unfolding dispatch_command
  open_to b peer outgoing_stream_id = dispatch_command b peer (open_stream outgoing_stream_id)

  -- `respond` and `query`, behind the encoding of the message: a message that cannot be encoded is
  -- an error, and nothing is sent.
  unfoldable pub send_message :
      Behaviour P C
      → P
      → StreamId
      → Option (List ℕ)
      → Behaviour P C × Option ℕ × Result (Unit {0}) (Unit {0})
  unfolding dispatch_command
  send_message b peer stream_id none = (b, none, err tt)
  send_message b peer stream_id (some message) =
      let (b', woken) = dispatch_command b peer (send stream_id (frame message)) in
      (b', woken, ok tt)

  unfoldable pub handle_established_connection :
      {S : Type 0} → Behaviour P C → C → P → Behaviour P C × Handler S
  handle_established_connection b connection peer =
      (record b { peers = insert peer connection b.peers }, new_handler b.menu)

  unfoldable pub on_swarm_event : Behaviour P C → FromSwarm P C → Behaviour P C × Option ℕ
  on_swarm_event b (established peer connection) = (
    record b {
      peers = insert peer connection b.peers;
      queue =
          b.queue
          ++ generate_event peer connection_established
            ∷ notify_all peer connection (or_empty (get peer b.pending_commands));
      pending_commands = remove peer b.pending_commands;
    },
    b.waker,
  )
  on_swarm_event b (closed peer connection) = (
    record b {
      peers = if is_serving connection (get peer b.peers) then remove peer b.peers else b.peers;
      queue = b.queue ++ generate_event peer connection_closed ∷ [];
    },
    b.waker,
  )
  on_swarm_event b another = (b, none)

  unfoldable pub on_connection_handler_event :
      Behaviour P C → P → C → Event → Behaviour P C × Option ℕ
  on_connection_handler_event b peer connection event = (
    record b {
      peers = insert peer connection b.peers;
      queue = b.queue ++ generate_event peer event ∷ [];
    },
    b.waker,
  )

module _ {P C : Type 0} where
  abbrev pub pop_event : Behaviour P C → ℕ → List (ToSwarm P C) → Behaviour P C × Poll (ToSwarm P C)
  pop_event b waker [] = (record b { waker = some waker }, pending)
  pop_event b waker (event ∷ queue) = (record b { queue = queue }, ready event)

  unfoldable pub poll_behaviour : Behaviour P C → ℕ → Behaviour P C × Poll (ToSwarm P C)
  poll_behaviour b waker = pop_event b waker b.queue
