-- ===== src/Rpc/SwarmTests.antt =====
-- The theorems on the streams, handlers and behaviours of libp2p-rpc-behaviour at concrete inputs.
use openmina_poc.Rpc.Behaviour.{poll_behaviour}
use openmina_poc.Rpc.Behaviour.Wakes.{Woken, run-Woken}
use openmina_poc.Base.{
  ◌⊎◌, replicate, length, drop, ℕ, ◌≡◌, refl, List, [], ◌∷◌, ◌++◌, true, false, none, some, done,
  ready, pending, ok, err, inl, inr, arith,
}
use openmina_poc.Base.Map.{get, insert, remove, nat_key}
use mathlib.Core.List.{Perm}
use openmina_poc.Rpc.Wire.{ErrorKind, AsyncIo}
use openmina_poc.Rpc.Buffer.{try_cut, poll_fill}
use openmina_poc.Rpc.State.{outstanding, handshake_msg, Inner, poll, poll_loop, poll_recv}
use openmina_poc.Rpc.Event.{StreamId, stream_id_key, connection_established, send, open_stream}
use openmina_poc.Rpc.Stream.{
  Stream, requested, negotiated_with, negotiated, new_outgoing, new_incoming, add_bytes,
}
use openmina_poc.Rpc.Handler.{
  on_behaviour_event, Handler, new_handler, Call, behaviour_event, connection_event, polled_by,
  fully_negotiated_inbound, add_stream,
}
use openmina_poc.Rpc.Handler as H
use openmina_poc.Rpc.Handler.Streams.{Ensures, IsValid, run-IsValid, add_stream-inbound}
use openmina_poc.Rpc.Handler.Send.{Sending, on_behaviour_event-send, on_behaviour_event-send_new}
use openmina_poc.Rpc.Handler.Implicit.{two_streams, run-two_streams}
use openmina_poc.Rpc.Behaviour.{Behaviour, established, dispatch_command, on_swarm_event}
use openmina_poc.Rpc.Behaviour.Commands as B
use openmina_poc.Rpc.Behaviour.Commands.{
  Op, dispatches, swarms, reports, polls, commands_to, held, waiting, run-held,
}
use openmina_poc.Rpc.Behaviour.Order.{run-in_order, stranded, run-stranded}
use openmina_poc.Rpc.Example.{Script, script_io, script_codec}

-- A stream that the peer has ended.
abbrev ended_io : AsyncIo (Unit {0})
ended_io = record { poll_read = λ s n. (s, ready (ok [])); poll_write = λ s bs. (s, pending) }

abbrev idle : Inner
idle = record {
  menu = [];
  command_queue = [];
  buffer = record { offset = 0; buf = 0 ∷ [] };
  ask_menu = false;
}

poll_eof :
    poll ended_io script_codec 1 idle tt ≡ done (idle, tt, ready (err ErrorKind.unexpected_eof))
unfolding poll poll_loop poll_recv try_cut poll_fill
poll_eof = refl

-- An outgoing stream is opened, a peer opens one, and the handler is polled.
abbrev calls : List (Call Script)
calls =
    behaviour_event (open_stream 1)
    ∷ connection_event (fully_negotiated_inbound (0 ∷ [], []))
    ∷ polled_by 0
    ∷ []

abbrev no_io : Script
no_io = ([], [])

run-IsValid_example : Ensures IsValid (H.run script_io script_codec 50 (new_handler []) calls)
unfolding new_handler
run-IsValid_example = run-IsValid script_io script_codec 50 calls (new_handler []) (omega arith) tt

add_stream-inbound_example :
    (get (StreamId.incoming 0) (new_handler {S = Script} []).streams ≡ none)
    × (get (StreamId.incoming 0) (add_stream script_codec (new_handler []) true no_io).0.streams
        ≡ some (negotiated (new_incoming script_codec []) ([], [])))
    × (outstanding (new_incoming {S = Script} script_codec []).inner_state.command_queue
        ≡ handshake_msg)
    × (get (StreamId.outgoing 3) (add_stream script_codec (new_handler []) true no_io).0.streams
        ≡ get (StreamId.outgoing 3) (new_handler {S = Script} []).streams)
    × ((add_stream script_codec (new_handler []) true no_io).0.last_incoming_id ≡ 1)
    × IsValid (add_stream script_codec (new_handler []) true no_io).0
unfolding new_handler
add_stream-inbound_example =
    add_stream-inbound script_io script_codec 1 (new_handler []) no_io (StreamId.outgoing 3) tt
      (omega arith) refl

run-two_streams_example :
    (h : Handler Script) × (H.run script_io script_codec 9
        (new_handler [])
        (two_streams script_io script_codec 9 4 6 (7 ∷ []) ([], []) (1 ∷ [], []) 0)
      ≡ done h)
    × (get (StreamId.outgoing 4) h.streams
        ≡ some (record (add_bytes (new_outgoing script_codec false) (7 ∷ [])) {
          opening_state = some (negotiated_with (1 ∷ [], []));
        }))
    × (get (StreamId.outgoing 6) h.streams
        ≡ some (record (new_outgoing script_codec true) { opening_state = some requested }))
    × (h.last_outgoing_id ≡ 6 ∷ [])
run-two_streams_example =
    run-two_streams script_io script_codec 9 [] 4 6 (7 ∷ []) ([], []) (1 ∷ [], []) 0 (omega arith)

-- A command waits for a connection, which comes, and the swarm polls.
abbrev ops : List (Op ℕ ℕ)
ops =
    dispatches 1 (open_stream 0)
    ∷ swarms (established 1 10)
    ∷ dispatches 1 (send (StreamId.outgoing 0) [])
    ∷ polls 0
    ∷ polls 0
    ∷ []

abbrev fresh : Behaviour ℕ ℕ
fresh = record { menu = []; peers = []; queue = []; pending_commands = []; waker = none }

run-held_example :
    Perm
      (commands_to 1 (B.run fresh ops).1 ++ held 1 (B.run fresh ops).0)
      (held 1 fresh ++ open_stream 0 ∷ send (StreamId.outgoing 0) [] ∷ [])
run-held_example = run-held 1 fresh ops

run-in_order_example :
    commands_to 1 (B.run fresh ops).1 ++ held 1 (B.run fresh ops).0
    ≡ held 1 fresh ++ open_stream 0 ∷ send (StreamId.outgoing 0) [] ∷ []
unfolding B.step dispatch_command on_swarm_event get insert remove
run-in_order_example = run-in_order 1 fresh ops (λ e. inl refl, (λ e. inr refl, tt))

abbrev connected : Behaviour ℕ ℕ
connected = record {
  menu = [];
  peers = (1, 10) ∷ [];
  queue = [];
  pending_commands = [];
  waker = none;
}

run-stranded_example :
    let b' =
      (B.run connected
        (stranded 1 10 9 (open_stream 0) connection_established (open_stream 2))).0 in
    (get 1 b'.peers ≡ some 9)
    × (waiting 1 b' ≡ open_stream 0 ∷ [])
    × (commands_to 1 b'.queue ≡ commands_to 1 connected.queue ++ open_stream 2 ∷ [])
unfolding get
run-stranded_example =
    run-stranded 1 connected 10 9 (open_stream 0) (open_stream 2) connection_established refl refl

-- A poll of it has found nothing and left the waker 3.
abbrev polled : Behaviour ℕ ℕ
polled = record { menu = []; peers = []; queue = []; pending_commands = []; waker = some 3 }

abbrev wake_ops : List (Op ℕ ℕ)
wake_ops = dispatches 1 (open_stream 0) ∷ swarms (established 1 10) ∷ []

run-Woken_example :
    let queue = (B.run polled wake_ops).0.queue in
    ((queue ≡ []) ⊎ Woken 3 polled wake_ops)
    × ((B.run (B.run polled wake_ops).0 (replicate (length queue) (polls 4))).1 ≡ queue)
unfolding poll_behaviour
run-Woken_example = run-Woken fresh polled 3 4 wake_ops refl (tt, (tt, tt))

-- A handler with one outgoing stream, which has its handshake to send.
abbrev opened : Stream Script
opened = record {
  opening_state = some requested;
  inner_state = record {
    menu = [];
    command_queue = (3, handshake_msg) ∷ [];
    buffer = record { offset = 0; buf = 0 ∷ [] };
    ask_menu = false;
  };
}

abbrev one_stream : Handler Script
one_stream = record {
  menu = [];
  streams = (StreamId.outgoing 4, opened) ∷ [];
  last_outgoing_id = 4 ∷ [];
  last_incoming_id = 0;
  failed = [];
  waker = some 2;
}

on_behaviour_event-send_example :
    let (h', woken) =
      on_behaviour_event script_codec one_stream (send (StreamId.outgoing 4) (7 ∷ [])) in
    Sending h' (StreamId.outgoing 4) opened (drop 3 handshake_msg ++ 7 ∷ [])
    × (get (StreamId.incoming 4) h'.streams ≡ none)
    × (h'.last_outgoing_id ≡ 4 ∷ [])
    × (woken ≡ some 2)
unfolding get
on_behaviour_event-send_example =
    on_behaviour_event-send script_codec one_stream (StreamId.outgoing 4) (StreamId.incoming 4)
      opened (7 ∷ []) refl refl

on_behaviour_event-send_new_example :
    let (h', woken) =
      on_behaviour_event script_codec one_stream (send (StreamId.outgoing 6) (7 ∷ [])) in
    Sending h' (StreamId.outgoing 6) (new_outgoing script_codec false) (handshake_msg ++ 7 ∷ [])
    × (get (StreamId.outgoing 4) h'.streams ≡ some opened)
    × (woken ≡ some 2)
unfolding get
on_behaviour_event-send_new_example =
    on_behaviour_event-send_new script_codec one_stream 6 (StreamId.outgoing 4) (7 ∷ []) refl refl
