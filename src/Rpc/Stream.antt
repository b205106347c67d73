-- ===== src/Rpc/Stream.antt =====
-- `Stream` of libp2p-rpc-behaviour/src/stream.rs: a stream of a connection, from its request to its
-- messages.
use openmina_poc.Base.{
  ℕ, List, [], Bool, false, Option, none, some, Exec, done, ◌>>=◌, Poll, pending, ready, Result, ok,
  err,
}
use openmina_poc.Rpc.Wire.{ErrorKind, AsyncIo, Menu, Codec, Received}
use openmina_poc.Rpc.Event.{StreamId, StreamEvent, request, event, Event}
use openmina_poc.Rpc.State.{Inner, new, add, poll}

pub data OpeningState (S : Type 0) : Type 0 where
  requested : OpeningState S
  negotiated_with : S → OpeningState S

pub record Stream (S : Type 0) : Type 0 where
  pub opening_state : Option (OpeningState S)
  pub inner_state : Inner

module _ {S : Type 0} where
  -- The menu of an outgoing stream is empty.
  unfoldable pub new_outgoing : Codec → Bool → Stream S
  new_outgoing c ask_menu = record { opening_state = none; inner_state = new c [] ask_menu }

  unfoldable pub new_incoming : Codec → Menu → Stream S
  new_incoming c menu = record { opening_state = none; inner_state = new c menu false }

  unfoldable pub negotiated : Stream S → S → Stream S
  negotiated stream s = record stream { opening_state = some (negotiated_with s) }

  unfoldable pub add_bytes : Stream S → List ℕ → Stream S
  add_bytes stream bytes = record stream { inner_state = add stream.inner_state bytes }

  -- The end of the stream makes an outgoing stream ask for another one.
  abbrev pub after_error :
      StreamId → Stream S → ErrorKind → Stream S × Poll (Result StreamEvent ErrorKind)
  after_error (StreamId.outgoing id) stream ErrorKind.unexpected_eof =
      (record stream { opening_state = some requested }, ready (ok (request id)))
  after_error (StreamId.incoming id) stream ErrorKind.unexpected_eof =
      (stream, ready (err ErrorKind.unexpected_eof))
  after_error stream_id stream ErrorKind.other = (stream, ready (err ErrorKind.other))
  after_error stream_id stream (ErrorKind.io_kind k) = (stream, ready (err (ErrorKind.io_kind k)))

  abbrev pub after_poll :
      StreamId
      → Inner × S × Poll (Result Received ErrorKind)
      → Stream S × Poll (Result StreamEvent ErrorKind)
  after_poll stream_id (i, s, pending) =
      (record { opening_state = some (negotiated_with s); inner_state = i }, pending)
  after_poll stream_id (i, s, ready (err e)) =
      after_error stream_id (record { opening_state = some (negotiated_with s); inner_state = i }) e
  after_poll stream_id (i, s, ready (ok received)) = (
    record { opening_state = some (negotiated_with s); inner_state = i },
    ready (ok (event (Event.stream stream_id received))),
  )

  -- `poll_stream` on the opening state.
  abbrev pub poll_opening :
      AsyncIo S
      → Codec
      → ℕ
      → Stream S
      → StreamId
      → Option (OpeningState S)
      → Exec (Stream S × Poll (Result StreamEvent ErrorKind))
  poll_opening io c fuel stream (StreamId.outgoing id) none =
      done (record stream { opening_state = some requested }, ready (ok (request id)))
  poll_opening io c fuel stream (StreamId.incoming id) none = done (stream, pending)
  poll_opening io c fuel stream stream_id (some requested) = done (stream, pending)
  poll_opening io c fuel stream stream_id (some (negotiated_with s)) =
      poll io c fuel stream.inner_state s >>= λ polled. done (after_poll stream_id polled)

  unfoldable pub poll_stream :
      AsyncIo S
      → Codec
      → ℕ
      → Stream S
      → StreamId
      → Exec (Stream S × Poll (Result StreamEvent ErrorKind))
  poll_stream io c fuel stream stream_id =
      poll_opening io c fuel stream stream_id stream.opening_state
