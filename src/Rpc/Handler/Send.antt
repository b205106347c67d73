-- ===== src/Rpc/Handler/Send.antt =====
-- `Command::Send` in `on_behaviour_event` of libp2p-rpc-behaviour/src/handler.rs.
use openmina_poc.Base.{ℕ, ◌≡◌, refl, List, ◌++◌, false, none, some}
use openmina_poc.Base.Map.{get, get-insert_self, get-insert_ne}
use openmina_poc.Rpc.Wire.{Codec}
use openmina_poc.Rpc.Event.{StreamId, stream_id_key, stream_id_beq, send}
use openmina_poc.Rpc.State.{outstanding, handshake_msg, new}
use openmina_poc.Rpc.State.Recv.{outstanding-add}
use openmina_poc.Rpc.Stream.{Stream, add_bytes, new_outgoing}
use openmina_poc.Rpc.Handler.{Handler, on_behaviour_event}

-- The stream at `id` has this opening state and these bytes still to send.
abbrev pub Sending : {S : Type 0} → Handler S → StreamId → Stream S → List ℕ → Type 0
Sending {S} h id stream bytes =
    (stream' : Stream S) × (get id h.streams ≡ some stream')
    × (stream'.opening_state ≡ stream.opening_state)
    × (outstanding stream'.inner_state.command_queue ≡ bytes)

module _ {S : Type 0} (c : Codec) (h : Handler S) where
  -- For a stream that is there, and any stream of another identifier: a message sent to the first
  -- goes behind all that it has still to send, its opening state and the other stream are as they
  -- were, no substream is asked for, and the handler is woken.
  pub on_behaviour_event-send :
      (stream_id other : StreamId) (stream : Stream S) (bytes : List ℕ)
      → get stream_id h.streams ≡ some stream
      → stream_id_beq stream_id other ≡ false
      → let (h', woken) = on_behaviour_event c h (send stream_id bytes) in
        Sending h' stream_id stream (outstanding stream.inner_state.command_queue ++ bytes)
        × (get other h'.streams ≡ get other h.streams)
        × (h'.last_outgoing_id ≡ h.last_outgoing_id)
        × (woken ≡ h.waker)
  unfolding on_behaviour_event add_bytes
  on_behaviour_event-send stream_id other stream bytes e ne = rw e (
    (
      add_bytes stream bytes,
      get-insert_self stream_id (add_bytes stream bytes) h.streams,
      refl,
      outstanding-add stream.inner_state bytes,
    ),
    get-insert_ne stream_id other (add_bytes stream bytes) h.streams ne,
    refl,
    refl,
  )

  -- For an outgoing stream that is not there, and any stream of another identifier: a message sent
  -- to the first opens it, without the question for the menu, to send the handshake and then the
  -- message; the other stream is as it was, and the handler is woken.
  pub on_behaviour_event-send_new :
      (id : ℕ) (other : StreamId) (bytes : List ℕ)
      → get (StreamId.outgoing id) h.streams ≡ none
      → stream_id_beq (StreamId.outgoing id) other ≡ false
      → let (h', woken) = on_behaviour_event c h (send (StreamId.outgoing id) bytes) in
        Sending h' (StreamId.outgoing id) (new_outgoing c false) (handshake_msg ++ bytes)
        × (get other h'.streams ≡ get other h.streams)
        × (woken ≡ h.waker)
  unfolding on_behaviour_event add_bytes new_outgoing new
  on_behaviour_event-send_new id other bytes e ne =
      let fresh : Stream S = add_bytes (new_outgoing c false) bytes in
      rw e (
        (
          fresh,
          get-insert_self (StreamId.outgoing id) fresh h.streams,
          refl,
          outstanding-add (new_outgoing {S = S} c false).inner_state bytes,
        ),
        get-insert_ne (StreamId.outgoing id) other fresh h.streams ne,
        refl,
      )
