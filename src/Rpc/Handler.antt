-- ===== src/Rpc/Handler.antt =====
-- `Handler` of libp2p-rpc-behaviour/src/handler.rs: the streams of one connection. A waker is a
-- number; a function that wakes it returns it beside the new state.
pub mod Streams
pub mod Implicit
pub mod Send
use openmina_poc.Base.{
  ℕ, ◌+◌, ◌%◌, List, [], ◌∷◌, ◌++◌, Bool, true, false, Option, none, some, Exec, done, ◌>>=◌, Poll,
  pending, ready, Result, ok, err,
}
use openmina_poc.Base.Map.{Map, get, insert, remove}
use openmina_poc.Rpc.Wire.{ErrorKind, AsyncIo, Menu, Codec}
use openmina_poc.Rpc.Event.{
  StreamId, stream_id_key, Event, StreamEvent, request, event, Command, send, open_stream,
}
use openmina_poc.Rpc.Stream.{Stream, new_outgoing, new_incoming, negotiated, add_bytes, poll_stream}

abbrev pub u32_mod : ℕ
u32_mod = 0x1_0000_0000

pub record Handler (S : Type 0) : Type 0 where
  pub menu : Menu
  pub streams : Map StreamId (Stream S)
  pub last_outgoing_id : List ℕ
  pub last_incoming_id : ℕ
  pub failed : List StreamId
  pub waker : Option ℕ

-- `ConnectionHandlerEvent`, as far as the handler makes it.
pub data HandlerEvent : Type 0 where
  outbound_substream_request : HandlerEvent
  custom : Event → HandlerEvent

-- `ConnectionEvent`, as far as the handler reads it.
pub data ConnectionEvent (S : Type 0) : Type 0 where
  fully_negotiated_inbound fully_negotiated_outbound : S → ConnectionEvent S
  another_event : ConnectionEvent S

-- The streams polled, the streams that failed, and what made the walk stop.
abbrev pub Walked : Type 0 → Type 0
Walked S = Map StreamId (Stream S) × List StreamId × Option StreamEvent

module _ {S : Type 0} where
  unfoldable pub new_handler : Menu → Handler S
  new_handler menu = record {
    menu = menu;
    streams = [];
    last_outgoing_id = [];
    last_incoming_id = 0;
    failed = [];
    waker = none;
  }

  -- `if let Some(stream) = self.streams.get_mut(...)`, once an identifier has been popped.
  abbrev pub give_io : Handler S → ℕ → S → Option (Stream S) → Handler S × Option ℕ
  give_io h id s none = (h, none)
  give_io h id s (some stream) = (
    record h { streams = insert (StreamId.outgoing id) (negotiated stream s) h.streams },
    h.waker,
  )

  abbrev pub add_outgoing : Handler S → S → List ℕ → Handler S × Option ℕ
  add_outgoing h s [] = (h, none)
  add_outgoing h s (id ∷ ids) =
      give_io (record h { last_outgoing_id = ids }) id s (get (StreamId.outgoing id) h.streams)

  unfoldable pub add_stream : Codec → Handler S → Bool → S → Handler S × Option ℕ
  add_stream c h true s = (
    record h {
      last_incoming_id = (h.last_incoming_id + 1) % u32_mod;
      streams =
          insert (StreamId.incoming h.last_incoming_id) (negotiated (new_incoming c h.menu) s)
            h.streams;
    },
    h.waker,
  )
  add_stream c h false s = add_outgoing h s h.last_outgoing_id

  unfoldable pub on_connection_event : Codec → Handler S → ConnectionEvent S → Handler S × Option ℕ
  on_connection_event c h (fully_negotiated_inbound s) = add_stream c h true s
  on_connection_event c h (fully_negotiated_outbound s) = add_stream c h false s
  on_connection_event c h another_event = (h, none)

  -- `Command::Send`: to a stream that is there, or to an outgoing one that is opened by it.
  abbrev pub send_to : Codec → Handler S → StreamId → List ℕ → Option (Stream S) → Handler S
  send_to c h stream_id bytes (some stream) = record h {
    streams = insert stream_id (add_bytes stream bytes) h.streams;
  }
  send_to c h (StreamId.outgoing id) bytes none = record h {
    last_outgoing_id = h.last_outgoing_id ++ id ∷ [];
    streams = insert (StreamId.outgoing id) (add_bytes (new_outgoing c false) bytes) h.streams;
  }
  send_to c h (StreamId.incoming id) bytes none = h

  unfoldable pub on_behaviour_event : Codec → Handler S → Command → Handler S × Option ℕ
  on_behaviour_event c h (open_stream id) = (
    record h { streams = insert (StreamId.outgoing id) (new_outgoing c true) h.streams },
    h.waker,
  )
  on_behaviour_event c h (send stream_id bytes) =
      (send_to c h stream_id bytes (get stream_id h.streams), h.waker)

  pub drop_failed : List StreamId → Map StreamId (Stream S) → Map StreamId (Stream S)
  drop_failed [] streams = streams
  drop_failed (id ∷ ids) streams = drop_failed ids (remove id streams)

  abbrev pub keep_stream : StreamId × Stream S → Walked S → Walked S
  keep_stream entry (streams, failed, stopped) = (entry ∷ streams, failed, stopped)

  abbrev pub fail_stream : StreamId × Stream S → Walked S → Walked S
  fail_stream (id, stream) (streams, failed, stopped) =
      ((id, stream) ∷ streams, id ∷ failed, stopped)

  abbrev pub after_stream :
      StreamId
      → Map StreamId (Stream S)
      → Stream S × Poll (Result StreamEvent ErrorKind)
      → Exec (Walked S)
      → Exec (Walked S)
  after_stream id rest (stream, pending) walked = walked >>= λ w. done (keep_stream (id, stream) w)
  after_stream id rest (stream, ready (ok e)) walked = done ((id, stream) ∷ rest, [], some e)
  after_stream id rest (stream, ready (err e)) walked =
      walked >>= λ w. done (fail_stream (id, stream) w)

  -- The loop of `poll` over the streams, in the order of their identifiers.
  unfoldable pub poll_streams : AsyncIo S → Codec → ℕ → Map StreamId (Stream S) → Exec (Walked S)
  poll_streams io c fuel [] = done ([], [], none)
  poll_streams io c fuel ((id, stream) ∷ rest) =
      let walked = poll_streams io c fuel rest in
      poll_stream io c fuel stream id >>= λ polled. after_stream id rest polled walked

  abbrev pub finish_poll : Handler S → ℕ → Walked S → Handler S × Poll HandlerEvent
  finish_poll h waker (streams, failed, some (request id)) = (
    record h {
      streams = streams;
      failed = failed;
      last_outgoing_id = h.last_outgoing_id ++ id ∷ [];
    },
    ready outbound_substream_request,
  )
  finish_poll h waker (streams, failed, some (event e)) =
      (record h { streams = streams; failed = failed }, ready (custom e))
  finish_poll h waker (streams, failed, none) =
      (record h { streams = streams; failed = failed; waker = some waker }, pending)

  unfoldable pub poll_handler :
      AsyncIo S → Codec → ℕ → Handler S → ℕ → Exec (Handler S × Poll HandlerEvent)
  unfolding drop_failed
  poll_handler io c fuel h waker =
      poll_streams io c fuel (drop_failed h.failed h.streams) >>= λ walked.
      done (finish_poll h waker walked)

-- What the swarm does with a handler, one call after another.
pub data Call (S : Type 0) : Type 0 where
  behaviour_event : Command → Call S
  connection_event : ConnectionEvent S → Call S
  polled_by : ℕ → Call S

module _ {S : Type 0} where
  unfoldable pub step : AsyncIo S → Codec → ℕ → Handler S → Call S → Exec (Handler S)
  unfolding on_behaviour_event on_connection_event poll_handler
  step io c fuel h (behaviour_event command) = done (on_behaviour_event c h command).0
  step io c fuel h (connection_event e) = done (on_connection_event c h e).0
  step io c fuel h (polled_by waker) = poll_handler io c fuel h waker >>= λ polled. done polled.0

  unfoldable pub run : AsyncIo S → Codec → ℕ → Handler S → List (Call S) → Exec (Handler S)
  unfolding step
  run io c fuel h [] = done h
  run io c fuel h (call ∷ calls) = step io c fuel h call >>= λ h'. run io c fuel h' calls
