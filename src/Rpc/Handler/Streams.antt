-- ===== src/Rpc/Handler/Streams.antt =====
-- The incoming streams of libp2p-rpc-behaviour/src/handler.rs and their numbers.
use openmina_poc.Base.{
  ℕ, suc, ◌+◌, ◌%◌, ◌≤◌, ◌<◌, ◌≡◌, refl, subst, List, [], ◌∷◌, false, true, some, none, Option,
  done, panic, stuck, Exec, ◌>>=◌, Poll, pending, ready, Result, ok, err, arith, length, All, inl,
  inr, Option-cases,
}
use openmina_poc.Base.Map.{
  Map, get, remove, All-get, All-insert, All-remove, get-insert_self, get-insert_ne,
}
use openmina_poc.Rpc.Wire.{ErrorKind, AsyncIo, Codec, Received}
use openmina_poc.Rpc.Event.{
  StreamId, stream_id_key, StreamEvent, request, event, send, open_stream, stream_id_beq,
}
use openmina_poc.Rpc.State.{Inner, poll}
use openmina_poc.Rpc.Stream.{
  Stream, OpeningState, requested, negotiated_with, new_incoming, negotiated, add_bytes,
  poll_stream, after_poll, poll_opening,
}
use openmina_poc.Rpc.State.{handshake_msg, outstanding, new}
use openmina_poc.Rpc.Handler.{
  Handler, Call, behaviour_event, connection_event, polled_by, Walked, fully_negotiated_inbound,
  fully_negotiated_outbound, another_event, run, step, add_stream, drop_failed, poll_streams,
  u32_mod, poll_handler, send_to, add_outgoing, give_io, after_stream, finish_poll,
}

-- A fact about the value that a run comes to, if it comes to one.
abbrev pub Ensures {ℓ κ} : {A : Type ℓ} → (A → Type κ) → Exec A → Type κ
Ensures P (done a) = P a
Ensures P panic = Unit
Ensures P stuck = Unit

Ensures-true {ℓ} : {A : Type ℓ} (r : Exec A) → Ensures (λ _. Unit {0}) r
Ensures-true (done a) = tt
Ensures-true panic = tt
Ensures-true stuck = tt

Ensures-bind {ℓ κ} :
    {A B : Type ℓ} (P : A → Type κ) (Q : B → Type κ) (r : Exec A) (f : A → Exec B)
    → Ensures P r
    → ((a : A) → P a → Ensures Q (f a))
    → Ensures Q (r >>= f)
Ensures-bind P Q (done a) f h k = k a h
Ensures-bind P Q panic f h k = tt
Ensures-bind P Q stuck f h k = tt

abbrev HasIo : {S : Type 0} → Option (OpeningState S) → Type 0
HasIo none = ⊥
HasIo (some requested) = ⊥
HasIo (some (negotiated_with s)) = Unit

-- An incoming stream is numbered below the counter, and has its substream.
abbrev pub IsNumbered : {S : Type 0} → ℕ → StreamId × Stream S → Type 0
IsNumbered n (StreamId.incoming k, stream) = (k < n) × HasIo stream.opening_state
IsNumbered n (StreamId.outgoing k, stream) = Unit

abbrev pub IsValid : {S : Type 0} → Handler S → Type 0
IsValid h = All (IsNumbered h.last_incoming_id) h.streams

module _ {S : Type 0} (io : AsyncIo S) (c : Codec) (fuel : ℕ) where
  IsNumbered-later :
      (n : ℕ) (entry : StreamId × Stream S) → IsNumbered n entry → IsNumbered (suc n) entry
  IsNumbered-later n (StreamId.incoming k, stream) h = (omega arith, h.1)
  IsNumbered-later n (StreamId.outgoing k, stream) h = tt

  All-later :
      (n : ℕ) (m : Map StreamId (Stream S)) → All (IsNumbered n) m → All (IsNumbered (suc n)) m
  All-later n [] h = tt
  All-later n (entry ∷ m) h = (IsNumbered-later n entry h.0, All-later n m h.1)

  drop_failed-All :
      (n : ℕ) (failed : List StreamId) (m : Map StreamId (Stream S))
      → All (IsNumbered n) m
      → All (IsNumbered n) (drop_failed failed m)
  unfolding drop_failed
  drop_failed-All n [] m h = h
  drop_failed-All n (id ∷ ids) m h =
      drop_failed-All n ids (remove id m) (All-remove (IsNumbered n) id m h)

  after_poll-IsNumbered :
      (n : ℕ) (id : StreamId) (stream : Stream S)
      (polled : Inner × S × Poll (Result Received ErrorKind))
      → IsNumbered n (id, stream)
      → IsNumbered n (id, (after_poll id polled).0)
  after_poll-IsNumbered n (StreamId.outgoing k) stream polled h = tt
  after_poll-IsNumbered n (StreamId.incoming k) stream (i, s, pending) h = (h.0, tt)
  after_poll-IsNumbered n (StreamId.incoming k) stream (i, s, ready (ok r)) h = (h.0, tt)
  after_poll-IsNumbered n (StreamId.incoming k) stream (i, s, ready (err ErrorKind.other)) h =
      (h.0, tt)
  after_poll-IsNumbered n (StreamId.incoming k) stream (i, s, ready (err (ErrorKind.io_kind j))) h =
      (h.0, tt)
  after_poll-IsNumbered n (StreamId.incoming k) stream (i, s, ready (err ErrorKind.unexpected_eof))
        h =
      (h.0, tt)

  poll_opening-IsNumbered :
      (n : ℕ) (id : StreamId) (stream : Stream S) (opening : Option (OpeningState S))
      → stream.opening_state ≡ opening
      → IsNumbered n (id, stream)
      → Ensures (λ polled. IsNumbered n (id, polled.0)) (poll_opening io c fuel stream id opening)
  poll_opening-IsNumbered n (StreamId.outgoing k) stream none e h = tt
  poll_opening-IsNumbered n (StreamId.incoming k) stream none e h = h
  poll_opening-IsNumbered n id stream (some requested) e h = h
  poll_opening-IsNumbered n id stream (some (negotiated_with s)) e h =
      Ensures-bind (λ _. Unit {0}) (λ polled. IsNumbered n (id, polled.0))
        (poll io c fuel stream.inner_state s) (λ polled. done (after_poll id polled))
        (Ensures-true (poll io c fuel stream.inner_state s))
        (λ polled _. after_poll-IsNumbered n id stream polled h)

  abbrev WalkKeeps : ℕ → Walked S → Type 0
  WalkKeeps n (streams, failed, stopped) = All (IsNumbered n) streams

  after_stream-All :
      (n : ℕ) (id : StreamId) (rest : Map StreamId (Stream S))
      (polled : Stream S × Poll (Result StreamEvent ErrorKind)) (walked : Exec (Walked S))
      → IsNumbered n (id, polled.0)
      → All (IsNumbered n) rest
      → Ensures (WalkKeeps n) walked
      → Ensures (WalkKeeps n) (after_stream id rest polled walked)
  after_stream-All n id rest (stream, pending) walked p r w =
      Ensures-bind (WalkKeeps n) (WalkKeeps n) walked _ w (λ done_walk k. (p, k))
  after_stream-All n id rest (stream, ready (ok e)) walked p r w = (p, r)
  after_stream-All n id rest (stream, ready (err e)) walked p r w =
      Ensures-bind (WalkKeeps n) (WalkKeeps n) walked _ w (λ done_walk k. (p, k))

  poll_streams-All :
      (n : ℕ) (m : Map StreamId (Stream S))
      → All (IsNumbered n) m
      → Ensures (WalkKeeps n) (poll_streams io c fuel m)
  unfolding poll_streams poll_stream
  poll_streams-All n [] h = tt
  poll_streams-All n ((id, stream) ∷ rest) h =
      Ensures-bind (λ polled. IsNumbered n (id, polled.0)) (WalkKeeps n)
        (poll_stream io c fuel stream id) _
        (poll_opening-IsNumbered n id stream stream.opening_state refl h.0)
        (λ polled p.
          after_stream-All n id rest polled (poll_streams io c fuel rest) p h.1
            (poll_streams-All n rest h.1))

  finish_poll-IsValid :
      (h : Handler S) (waker : ℕ) (walked : Walked S)
      → WalkKeeps h.last_incoming_id walked
      → IsValid (finish_poll h waker walked).0
  finish_poll-IsValid h waker (streams, failed, none) k = k
  finish_poll-IsValid h waker (streams, failed, some (request id)) k = k
  finish_poll-IsValid h waker (streams, failed, some (event e)) k = k

  send_to-IsValid :
      (h : Handler S) (id : StreamId) (bytes : List ℕ) (found : Option (Stream S))
      → get id h.streams ≡ found
      → IsValid h
      → IsValid (send_to c h id bytes found)
  unfolding add_bytes
  send_to-IsValid h id bytes (some stream) e v =
      All-insert (IsNumbered h.last_incoming_id) id (add_bytes stream bytes) h.streams v
        (keeps id (All-get (IsNumbered h.last_incoming_id) id stream h.streams v e))
    where
      keeps :
          (i : StreamId)
          → IsNumbered h.last_incoming_id (i, stream)
          → IsNumbered h.last_incoming_id (i, add_bytes stream bytes)
      keeps (StreamId.incoming k) n = n
      keeps (StreamId.outgoing k) n = tt
  send_to-IsValid h (StreamId.outgoing k) bytes none e v =
      All-insert (IsNumbered h.last_incoming_id) (StreamId.outgoing k) _ h.streams v tt
  send_to-IsValid h (StreamId.incoming k) bytes none e v = v

  add_outgoing-IsValid :
      (h : Handler S) (s : S) (ids : List ℕ) → IsValid h → IsValid (add_outgoing h s ids).0
  add_outgoing-IsValid h s [] v = v
  add_outgoing-IsValid h s (id ∷ ids) v = go (get (StreamId.outgoing id) h.streams)
    where
      go :
          (found : Option (Stream S))
          → IsValid (give_io (record h { last_outgoing_id = ids }) id s found).0
      go none = v
      go (some stream) =
          All-insert (IsNumbered h.last_incoming_id) (StreamId.outgoing id) _ h.streams v tt

  add_incoming-IsValid :
      (h : Handler S) (s : S)
      → h.last_incoming_id + 1 < u32_mod
      → IsValid h
      → IsValid (add_stream c h true s).0
  unfolding add_stream negotiated
  add_incoming-IsValid h s small v =
      subst (λ n. All (IsNumbered n) (add_stream c h true s).0.streams)
        (counted h.last_incoming_id small)
        (All-insert (IsNumbered (suc h.last_incoming_id)) (StreamId.incoming h.last_incoming_id) _
          h.streams (All-later h.last_incoming_id h.streams v) (omega arith, tt))
    where
      counted : (n : ℕ) → n + 1 < u32_mod → suc n ≡ (n + 1) % u32_mod
      counted n small = omega arith

  send_to-counter :
      (h : Handler S) (id : StreamId) (bytes : List ℕ) (found : Option (Stream S))
      → (send_to c h id bytes found).last_incoming_id ≡ h.last_incoming_id
  send_to-counter h id bytes (some stream) = refl
  send_to-counter h (StreamId.outgoing k) bytes none = refl
  send_to-counter h (StreamId.incoming k) bytes none = refl

  give_io-counter :
      (h : Handler S) (id : ℕ) (s : S) (found : Option (Stream S))
      → (give_io h id s found).0.last_incoming_id ≡ h.last_incoming_id
  give_io-counter h id s none = refl
  give_io-counter h id s (some stream) = refl

  add_outgoing-counter :
      (h : Handler S) (s : S) (ids : List ℕ)
      → (add_outgoing h s ids).0.last_incoming_id ≡ h.last_incoming_id
  add_outgoing-counter h s [] = refl
  add_outgoing-counter h s (id ∷ ids) =
      give_io-counter (record h { last_outgoing_id = ids }) id s
        (get (StreamId.outgoing id) h.streams)

  finish_poll-counter :
      (h : Handler S) (waker : ℕ) (walked : Walked S)
      → (finish_poll h waker walked).0.last_incoming_id ≡ h.last_incoming_id
  finish_poll-counter h waker (streams, failed, none) = refl
  finish_poll-counter h waker (streams, failed, some (request id)) = refl
  finish_poll-counter h waker (streams, failed, some (event e)) = refl

  abbrev Keeps : Handler S → Handler S → Type 0
  Keeps h h' = IsValid h' × (h'.last_incoming_id ≤ h.last_incoming_id + 1)

  step-Keeps :
      (h : Handler S) (call : Call S)
      → h.last_incoming_id + 1 < u32_mod
      → IsValid h
      → Ensures (Keeps h) (step io c fuel h call)
  unfolding step add_stream
  step-Keeps h (behaviour_event (open_stream id)) small v = (
    All-insert (IsNumbered h.last_incoming_id) (StreamId.outgoing id) _ h.streams v tt,
    omega arith,
  )
  step-Keeps h (behaviour_event (send id bytes)) small v = (
    send_to-IsValid h id bytes (get id h.streams) refl v,
    omega (arith, send_to-counter h id bytes (get id h.streams)),
  )
  step-Keeps h (connection_event (fully_negotiated_inbound s)) small v =
      (add_incoming-IsValid h s small v, omega arith)
  step-Keeps h (connection_event (fully_negotiated_outbound s)) small v = (
    add_outgoing-IsValid h s h.last_outgoing_id v,
    omega (arith, add_outgoing-counter h s h.last_outgoing_id),
  )
  step-Keeps h (connection_event another_event) small v = (v, omega arith)
  step-Keeps h (polled_by waker) small v =
      Ensures-bind (λ polled. Keeps h polled.0) (Keeps h) (poll_handler io c fuel h waker) _
        (Ensures-bind (WalkKeeps h.last_incoming_id) (λ polled. Keeps h polled.0)
          (poll_streams io c fuel (drop_failed h.failed h.streams)) _
          (poll_streams-All h.last_incoming_id (drop_failed h.failed h.streams)
            (drop_failed-All h.last_incoming_id h.failed h.streams v))
          (λ walked k. (
            finish_poll-IsValid h waker walked k,
            omega (arith, finish_poll-counter h waker walked),
          )))
        (λ polled p. p)

  -- From a valid handler, a history of calls that comes to an end, and is too short for the 32-bit
  -- counter to come round, leaves every incoming stream numbered below the counter, and with a
  -- substream.
  pub run-IsValid :
      (calls : List (Call S)) (h : Handler S)
      → h.last_incoming_id + length calls < u32_mod
      → IsValid h
      → Ensures IsValid (run io c fuel h calls)
  unfolding run
  run-IsValid [] h small v = v
  run-IsValid (call ∷ calls) h small v =
      Ensures-bind (Keeps h) IsValid (step io c fuel h call) _ (step-Keeps h call (omega arith) v)
        (λ h' k. run-IsValid calls h' (omega arith) k.0)

  -- Where the counter of a valid handler does not wrap, a new incoming stream takes the place of no
  -- other, and no later one takes its place: its number was not in use, it starts with the substream
  -- and with the handshake alone to send, any stream of another identifier is as before, the counter
  -- is one higher, and the handler is valid.
  pub add_stream-inbound :
      (h : Handler S) (s : S) (id : StreamId)
      → IsValid h
      → suc h.last_incoming_id < u32_mod
      → stream_id_beq (StreamId.incoming h.last_incoming_id) id ≡ false
      → (get (StreamId.incoming h.last_incoming_id) h.streams ≡ none)
        × (get (StreamId.incoming h.last_incoming_id) (add_stream c h true s).0.streams
            ≡ some (negotiated (new_incoming c h.menu) s))
        × (outstanding (new_incoming {S = S} c h.menu).inner_state.command_queue ≡ handshake_msg)
        × (get id (add_stream c h true s).0.streams ≡ get id h.streams)
        × ((add_stream c h true s).0.last_incoming_id ≡ suc h.last_incoming_id)
        × IsValid (add_stream c h true s).0
  unfolding add_stream new_incoming new
  add_stream-inbound h s id v small other = (
    elim (Option-cases (get (StreamId.incoming h.last_incoming_id) h.streams)) [
      | inl none_there ↦ none_there
      | inr (stream, e) ↦ absurd (
          omega (
            arith,
            All-get (IsNumbered h.last_incoming_id) (StreamId.incoming h.last_incoming_id) stream
                h.streams v e,
          ))
    ],
    get-insert_self (StreamId.incoming h.last_incoming_id) (negotiated (new_incoming c h.menu) s)
        h.streams,
    refl,
    get-insert_ne (StreamId.incoming h.last_incoming_id) id (negotiated (new_incoming c h.menu) s)
        h.streams other,
    omega (arith, small),
    add_incoming-IsValid h s (omega (arith, small)) v,
  )
