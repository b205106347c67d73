-- ===== src/Rpc/State.antt =====
-- `Inner` of libp2p-rpc-behaviour/src/state.rs: one RPC stream, with its receive buffer and the
-- messages still to be sent. The stream is passed in as a value of the type of `AsyncIo`, and
-- comes back changed.
pub mod Send
pub mod Moves
pub mod Recv
pub mod Serve
pub mod Rounds
pub mod Exchange
use openmina_poc.Base.{
  bytes_eq, ℕ, zero, suc, ◌+◌, ◌-◌, List, [], ◌∷◌, ◌++◌, map, Bool, true, false, ◌&&◌, ◌||◌, not,
  Option, none, some, Exec, done, panic, stuck, ◌>>=◌, Poll, pending, ready, Result, ok, err,
  length, drop, ltb, ◌==◌, if◌then◌else◌,
}
use openmina_poc.Rpc.Bytes.{frame, from_le_bytes}
use openmina_poc.Rpc.Wire.{
  ErrorKind, AsyncIo, QueryHeader, MessageHeader, Menu, Codec, Received, received_query,
  received_response, menu_listed, handshake_done,
}
use openmina_poc.Rpc.Buffer.{Buffer, empty, poll_fill, try_cut}

-- A message to send, behind the number of its bytes that have been sent.
abbrev pub Queue : Type 0
Queue = List (ℕ × List ℕ)

pub record Inner : Type 0 where
  pub menu : Menu
  pub command_queue : Queue
  pub buffer : Buffer
  pub ask_menu : Bool

-- b"\x07\x00\x00\x00\x00\x00\x00\x00\x02\xfdRPC\x00\x01"
abbrev pub handshake_msg : List ℕ
handshake_msg = 7 ∷ 0 ∷ 0 ∷ 0 ∷ 0 ∷ 0 ∷ 0 ∷ 0 ∷ 2 ∷ 0xfd ∷ b'R' ∷ b'P' ∷ b'C' ∷ 0 ∷ 1 ∷ []

-- b"\x01\x00\x00\x00\x00\x00\x00\x00\x00"
abbrev pub heartbeat_msg : List ℕ
heartbeat_msg = 1 ∷ 0 ∷ 0 ∷ 0 ∷ 0 ∷ 0 ∷ 0 ∷ 0 ∷ 0 ∷ []

unfoldable pub new : Codec → Menu → Bool → Inner
new c menu ask_menu = record {
  menu = menu;
  command_queue =
      if ask_menu
      then (0, handshake_msg) ∷ (0, frame c.menu_query) ∷ []
      else (0, handshake_msg) ∷ [];
  buffer = empty;
  ask_menu = ask_menu;
}

unfoldable pub add : Inner → List ℕ → Inner
add i bytes = record i { command_queue = i.command_queue ++ (0, bytes) ∷ [] }

-- i64::from_le_bytes(*b"RPC\x00\x00\x00\x00\x00")
abbrev pub h_id : ℕ
h_id = 0x43_5052

-- The menu of a `ResponsePayload`: none where the peer answered with an error.
abbrev pub read_menu : Codec → Option (Option Menu) → Result Received ErrorKind
read_menu c none = err ErrorKind.other
read_menu c (some none) = ok (menu_listed [])
read_menu c (some (some menu)) =
    ok (menu_listed (map (λ entry. (c.to_string_lossy entry.0, entry.1)) menu))

-- The `match header` of `poll_recv`: a value is returned to the caller, or the loop goes on.
unfoldable pub handle :
    Codec → Inner → MessageHeader → List ℕ → Inner × Option (Result Received ErrorKind)
handle c i MessageHeader.heartbeat bytes = (add i heartbeat_msg, none)
handle c i (MessageHeader.response id) bytes =
    if id == h_id
    then (i, some (ok handshake_done))
    else if id == 0 && i.ask_menu
    then (i, some (read_menu c (c.read_menu bytes)))
    else (i, some (ok (received_response id bytes)))
handle c i (MessageHeader.query header) bytes =
    if bytes_eq header.tag c.menu_name && header.version == c.menu_version
    then (add i (frame (c.menu_response header.id i.menu)), none)
    else (i, some (ok (received_query header bytes)))

abbrev pub Polled : Type 0 → Type 0
Polled S = Exec (Inner × S × Poll (Result Received ErrorKind))

abbrev pub Sent : Type 0 → Type 0
Sent S = Exec (Queue × S × Poll (Result (Unit {0}) ErrorKind))

abbrev is_empty : Queue → Bool
is_empty [] = true
is_empty (entry ∷ queue) = false

-- The bytes that are still to be sent.
abbrev pub outstanding : Queue → List ℕ
outstanding [] = []
outstanding ((offset, buf) ∷ queue) = drop offset buf ++ outstanding queue

module _ {S : Type 0} where
  -- Behind `handle`: `rest` is the loop's next round.
  abbrev after_handle :
      Inner × Option (Result Received ErrorKind) → S → (Inner → S → Polled S) → Polled S
  after_handle (i, none) s rest = rest i s
  after_handle (i, some r) s rest = done (i, s, ready r)

  -- Behind `poll_fill`: a read of nothing is the end of the stream.
  abbrev after_fill :
      Inner → Buffer × S × Poll (Result ℕ ErrorKind) → (Inner → S → Polled S) → Polled S
  after_fill i (b, s, pending) rest = done (record i { buffer = b }, s, pending)
  after_fill i (b, s, ready (err e)) rest = done (record i { buffer = b }, s, ready (err e))
  after_fill i (b, s, ready (ok n)) rest =
      let again = rest (record i { buffer = b }) s in
      if n == 0
      then done (record i { buffer = b }, s, ready (err ErrorKind.unexpected_eof))
      else again

  -- Behind `try_cut`.
  abbrev after_cut :
      Codec
      → Inner
      → Buffer × Option (Result (MessageHeader × List ℕ) ErrorKind)
      → S
      → (Buffer → S → Exec (Buffer × S × Poll (Result ℕ ErrorKind)))
      → (Inner → S → Polled S)
      → Polled S
  after_cut c i (b, none) s fill rest = fill b s >>= λ filled. after_fill i filled rest
  after_cut c i (b, some (err e)) s fill rest = done (record i { buffer = b }, s, ready (err e))
  after_cut c i (b, some (ok (header, bytes))) s fill rest =
      after_handle (handle c (record i { buffer = b }) header bytes) s rest

  -- `poll_recv`, its loop and its call of itself as one recursion: each round cuts a message or
  -- fills the buffer. Fuel bounds the rounds.
  unfoldable pub poll_recv : AsyncIo S → Codec → ℕ → Inner → S → Polled S
  poll_recv io c zero i s = stuck
  poll_recv io c (suc fuel) i s = try_cut c i.buffer >>= λ cut.
      after_cut c i cut s (poll_fill io (suc fuel)) (poll_recv io c fuel)

  -- `poll_send` behind its write of a part of the front message.
  abbrev after_write :
      ℕ → List ℕ → Queue → S × Poll (Result ℕ ErrorKind) → (Queue → S → Sent S) → Sent S
  after_write offset buf queue (s, pending) rest = done ((offset, buf) ∷ queue, s, pending)
  after_write offset buf queue (s, ready (err e)) rest =
      done ((offset, buf) ∷ queue, s, ready (err e))
  after_write offset buf queue (s, ready (ok written)) rest =
      rest (if ltb (offset + written) (length buf) then (offset + written, buf) ∷ queue else queue)
        s

  -- `poll_send` on the queue. A front message with nothing left to send is never popped, so the
  -- loop turns for ever: `stuck`.
  unfoldable pub poll_send : AsyncIo S → ℕ → Queue → S → Sent S
  poll_send io zero queue s = stuck
  poll_send io (suc fuel) [] s = done ([], s, ready (ok tt))
  poll_send io (suc fuel) ((offset, buf) ∷ queue) s =
      let spin = poll_send io fuel ((offset, buf) ∷ queue) s in
      if ltb offset (length buf)
      then after_write offset buf queue (io.poll_write s (drop offset buf)) (poll_send io fuel)
      else spin

  -- The sending half of a round of `poll`: whether sending has to wait, or an error to return.
  abbrev pub send_half :
      Inner → Queue × S × Poll (Result (Unit {0}) ErrorKind) → Inner × S × Result Bool ErrorKind
  send_half i (queue, s, pending) = (record i { command_queue = queue }, s, ok true)
  send_half i (queue, s, ready (ok _)) = (record i { command_queue = queue }, s, ok false)
  send_half i (queue, s, ready (err e)) = (record i { command_queue = queue }, s, err e)

  -- The end of a round: where nothing can go on, `poll` waits.
  abbrev end_round : Bool → Inner → S → (Inner → S → Polled S) → Polled S
  end_round send_pending i s rest =
      let again = rest i s in
      if send_pending || is_empty i.command_queue then done (i, s, pending) else again

  -- The receiving half, in the first round and where it has not had to wait yet.
  abbrev recv_half :
      Bool → Inner × S × Poll (Result Received ErrorKind) → (Inner → S → Polled S) → Polled S
  recv_half send_pending (i, s, ready r) rest = done (i, s, ready r)
  recv_half send_pending (i, s, pending) rest =
      let go_on = end_round send_pending i s rest in
      if is_empty i.command_queue then done (i, s, pending) else go_on

  abbrev send_stage : AsyncIo S → ℕ → Bool → Inner → S → Exec (Inner × S × Result Bool ErrorKind)
  send_stage io fuel send_pending i s =
      if not send_pending && not (is_empty i.command_queue)
      then (poll_send io (fuel + suc (length (outstanding i.command_queue))) i.command_queue s
          >>= λ polled. done (send_half i polled))
      else done (i, s, ok send_pending)

  abbrev recv_stage :
      AsyncIo S
      → Codec
      → ℕ
      → Bool
      → Inner × S × Result Bool ErrorKind
      → (Bool → Bool → Inner → S → Polled S)
      → Polled S
  recv_stage io c fuel recv_pending (i, s, err e) rest = done (i, s, ready (err e))
  recv_stage io c fuel true (i, s, ok send_pending) rest =
      end_round send_pending i s (rest send_pending true)
  recv_stage io c fuel false (i, s, ok send_pending) rest =
      poll_recv io c fuel i s >>= λ polled. recv_half send_pending polled (rest send_pending true)

  -- The loop of `poll`, over its two flags.
  unfoldable pub poll_loop : AsyncIo S → Codec → ℕ → ℕ → Bool → Bool → Inner → S → Polled S
  poll_loop io c fuel zero send_pending recv_pending i s = stuck
  poll_loop io c fuel (suc rounds) send_pending recv_pending i s =
      send_stage io fuel send_pending i s >>= λ sent.
      recv_stage io c fuel recv_pending sent (poll_loop io c fuel rounds)

  -- Two rounds are enough, whatever the stream does.
  unfoldable pub poll : AsyncIo S → Codec → ℕ → Inner → S → Polled S
  unfolding poll_loop
  poll io c fuel i s = poll_loop io c fuel 2 false false i s
