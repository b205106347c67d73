-- ===== src/Rpc/State/Recv.antt =====
-- `poll_recv` of libp2p-rpc-behaviour/src/state.rs on any stream, and the invariant of `Inner`.
use openmina_poc.Base.{
  bytes_eq, ℕ, zero, suc, ◌+◌, ◌*◌, ◌≤◌, ◌<◌, ◌≡◌, refl, sym, ap, ◌∙◌, subst, List, [], ◌∷◌, ◌++◌,
  ◌&&◌, done, panic, ok, err, Result, Poll, pending, ready, arith, length, drop, All, Exec, Option,
  none, some, ◌>>=◌, length-append, append_assoc, append-nil, All-append, All-take, take-take_le,
  inl, inr, Bool-cases, ◌==◌, All-append_right,
}
use openmina_poc.Rpc.Bytes.{u64_mod, IsByte, frame, length-frame}
use openmina_poc.Rpc.Wire.{ErrorKind, AsyncIo, IoLaws, MessageHeader, Codec, Received}
use openmina_poc.Rpc.Buffer.{Buffer, try_cut, poll_fill}
use openmina_poc.Rpc.Buffer.Cut.{contents, length-contents, announced, empty-IsValid}
use openmina_poc.Rpc.Buffer.Cut as Buffer_valid
use openmina_poc.Rpc.Buffer.Frames.{Cuts, waits, wraps, cuts, garbled, try_cut-Cuts}
use openmina_poc.Rpc.Buffer.Fill.{Fills, fills, Fits, poll_fill-Fills}
use openmina_poc.Rpc.State.{
  Inner, Queue, Polled, add, handle, poll_recv, after_cut, after_fill, after_handle, outstanding,
  heartbeat_msg, h_id,
}
use openmina_poc.Rpc.Reached.{at_start}
use openmina_poc.Rpc.State.Send.{IsSendable}
use openmina_poc.Rpc.State.Serve.{Message, IsReadable, reply_to}
use openmina_poc.Rpc.State.Moves.{Moves, Moves-join, Moves-refl, still-Moves, or_nothing}

-- What holds of a stream between calls: a valid buffer of bytes, and no finished message in the
-- queue.
pub record IsValid (i : Inner) : Type 0 where
  pub buffer : Buffer_valid.IsValid i.buffer
  pub bytes : All IsByte (contents i.buffer)
  pub queue : All IsSendable i.command_queue

outstanding-append : (xs ys : Queue) → outstanding (xs ++ ys) ≡ outstanding xs ++ outstanding ys
outstanding-append [] ys = refl
outstanding-append ((offset, buf) ∷ xs) ys =
    ap (λ t. drop offset buf ++ t) (outstanding-append xs ys)
    ∙ sym (append_assoc (drop offset buf) (outstanding xs) (outstanding ys))

-- `add` puts a message behind all that is still to be sent.
pub outstanding-add :
    (i : Inner) (bytes : List ℕ)
    → outstanding (add i bytes).command_queue ≡ outstanding i.command_queue ++ bytes
unfolding add
outstanding-add i bytes =
    outstanding-append i.command_queue ((0, bytes) ∷ [])
    ∙ ap (λ t. outstanding i.command_queue ++ t) (append-nil bytes)

pub add-IsValid :
    {i : Inner} (bytes : List ℕ) → IsValid i → 0 < length bytes → IsValid (add i bytes)
unfolding add
add-IsValid {i} bytes v h = record {
  buffer = v.buffer;
  bytes = v.bytes;
  queue = All-append IsSendable i.command_queue ((0, bytes) ∷ []) v.queue (h, tt);
}

-- What `handle` may do: return a message that has no reply, or queue the reply.
data Handles (c : Codec) (i : Inner) (header : MessageHeader)
    : Inner × Option (Result Received ErrorKind) → Type 0 where
  left :
      (r : Result Received ErrorKind)
      → reply_to c i.menu header ≡ none
      → Handles c i header (i, some r)
  replied :
      (reply : List ℕ)
      → 0 < length reply
      → reply_to c i.menu header ≡ some reply
      → Handles c i header (add i reply, none)

handle-Handles :
    (c : Codec) (i : Inner) (header : MessageHeader) (bytes : List ℕ)
    → Handles c i header (handle c i header bytes)
unfolding handle
handle-Handles c i MessageHeader.heartbeat bytes = replied heartbeat_msg (omega arith) refl
handle-Handles c i (MessageHeader.response id) bytes = elim (Bool-cases (id == h_id)) [
  | inl e ↦ rw e (left _ refl)
  | inr e ↦ elim (Bool-cases (id == 0 && i.ask_menu)) [
    | inl f ↦ rw (e, f) (left _ refl)
    | inr f ↦ rw (e, f) (left _ refl)
  ]
]
handle-Handles c i (MessageHeader.query header) bytes =
    elim (Bool-cases (bytes_eq header.tag c.menu_name && header.version == c.menu_version)) [
      | inl e ↦ rw e (
          replied (frame (c.menu_response header.id i.menu))
            (omega (arith, length-frame (c.menu_response header.id i.menu))) (rw e refl))
      | inr e ↦ rw e (left _ (rw e refl))
    ]

module _ {S : Type 0} (io : AsyncIo S) (laws : IoLaws io) (c : Codec) where
  open laws use {budget, sent}

  -- The stream stays valid and nothing is sent: it has moved on, and perhaps found a message whose
  -- header does not read behind what it cut off. The one other outcome is a panic, where behind the
  -- frames that were cut off a length within eight of 2 ^ 64 is announced.
  pub data Recvs (i : Inner) (s : S) : Polled S → Type 0 where
    recvs :
        (i' : Inner) (s' : S) (polled : Poll (Result Received ErrorKind))
        → IsValid i'
        → Fits io laws i'.buffer s'
        → Moves io laws c i s i' s'
        → sent s' ≡ sent s
        → Recvs i s (done (i', s', polled))
    refuses :
        (i₁ i' : Inner) (s' : S) (text rest : List ℕ)
        → Moves io laws c i s i₁ s'
        → contents i₁.buffer ≡ frame text ++ rest
        → c.read_header text ≡ none
        → i'.command_queue ≡ i₁.command_queue
        → IsValid i'
        → Fits io laws i'.buffer s'
        → sent s' ≡ sent s
        → Recvs i s (done (i', s', ready (err ErrorKind.other)))
    overflows :
        (i₁ : Inner) (s₁ : S)
        → Moves io laws c i s i₁ s₁
        → 8 ≤ length (contents i₁.buffer)
        → u64_mod ≤ announced i₁.buffer + 8
        → Recvs i s panic

  Recvs-join :
      (i i₁ : Inner) (s s₁ : S) (r : Polled S)
      → Moves io laws c i s i₁ s₁
      → sent s₁ ≡ sent s
      → Recvs i₁ s₁ r
      → Recvs i s r
  Recvs-join i i₁ s s₁ _ p q (recvs i' s' polled v k p' q') =
      recvs i' s' polled v k (Moves-join io laws c i i₁ i' s s₁ s' p p') (q' ∙ q)
  Recvs-join i i₁ s s₁ _ p q (refuses i₂ i' s' text rest p' e u n v k q') =
      refuses i₂ i' s' text rest (Moves-join io laws c i i₁ i₂ s s₁ s' p p') e u n v k (q' ∙ q)
  Recvs-join i i₁ s s₁ _ p q (overflows i₂ s₂ p' l h) =
      overflows i₂ s₂ (Moves-join io laws c i i₁ i₂ s s₁ s₂ p p') l h

  -- A round of the loop lowers this.
  abbrev measure : Inner → S → ℕ
  measure i s = 2 * budget s + length (contents i.buffer)

  -- What the loop does in its next round.
  abbrev Next : ℕ → ℕ → Type 0
  Next fuel bound =
      (i : Inner) (s : S)
      → IsValid i
      → Fits io laws i.buffer s
      → measure i s < bound
      → Recvs i s (poll_recv io c fuel i s)

  fill-Recvs :
      (fuel : ℕ) (i : Inner) (s : S) (r : Exec (Buffer × S × Poll (Result ℕ ErrorKind)))
      → IsValid i
      → Fits io laws i.buffer s
      → Fills io laws i.buffer s r
      → Next fuel (measure i s)
      → Recvs i s (r >>= λ filled. after_fill i filled (poll_recv io c fuel))
  fill-Recvs fuel i s _ v k (fills bs b' s' p e w bytes l n q g) next = go p n
    where
      filled : Inner
      filled = record i { buffer = b' }

      ok_filled : IsValid filled
      ok_filled = record {
        buffer = w;
        bytes = subst (All IsByte) (sym e) (All-append IsByte (contents i.buffer) bs v.bytes bytes);
        queue = v.queue;
      }

      size : length (contents b') ≡ length (contents i.buffer) + length bs
      size = ap length e ∙ length-append (contents i.buffer) bs

      ok_fits : Fits io laws b' s'
      ok_fits = omega (arith, size, length-contents w, length-contents v.buffer)

      moved : Moves io laws c i s filled s'
      moved =
          still-Moves io laws c i filled s s' bs g e (ap (λ t. t ++ outstanding i.command_queue) q)
            refl (omega arith)

      stop : (polled : Poll (Result Received ErrorKind)) → Recvs i s (done (filled, s', polled))
      stop polled = recvs filled s' polled ok_filled ok_fits moved q

      go :
          (p : Poll (Result ℕ ErrorKind))
          → ((n : ℕ) → p ≡ ready (ok n) → n ≤ length bs)
          → Recvs i s (after_fill i (b', s', p) (poll_recv io c fuel))
      go pending n = stop pending
      go (ready (err x)) n = stop (ready (err x))
      go (ready (ok k)) n = elim (Bool-cases (k == 0)) [
        | inl none_read ↦ rw none_read (stop (ready (err ErrorKind.unexpected_eof)))
        | inr some_read ↦ rw some_read (
            Recvs-join i filled s s' _ moved q
              (next filled s' ok_filled ok_fits (ground (arith, size, n k refl))))
      ]

  -- A message is cut off, and its reply, if it has one, is queued.
  cut-Moves :
      (i : Inner) (s : S) (m : Message) (b' : Buffer) (queue' : Queue)
      → IsReadable c m
      → contents i.buffer ≡ frame m.text ++ contents b'
      → outstanding queue' ≡ outstanding i.command_queue ++ or_nothing (reply_to c i.menu m.header)
      → Moves io laws c i s (record i { buffer = b'; command_queue = queue' }) s
  cut-Moves i s m b' queue' readable e q = record {
    ms = m ∷ [];
    given = [];
    readable = (readable, tt);
    reached = at_start;
    received =
        append-nil (contents i.buffer)
        ∙ e
        ∙ ap (λ t. t ++ contents b') (sym (append-nil (frame m.text)));
    queued =
        ap (λ t. sent s ++ t) q
        ∙ sym (append_assoc (sent s) (outstanding i.command_queue) _)
        ∙ ap (λ t. (sent s ++ outstanding i.command_queue) ++ t)
            (sym (append-nil (or_nothing (reply_to c i.menu m.header))));
    menu = refl;
    less = omega arith;
  }

  handle-Recvs :
      (fuel bound : ℕ) (i : Inner) (s : S) (m : Message) (b' : Buffer)
      (r : Inner × Option (Result Received ErrorKind))
      → IsReadable c m
      → contents i.buffer ≡ frame m.text ++ contents b'
      → IsValid (record i { buffer = b' })
      → Fits io laws b' s
      → measure (record i { buffer = b' }) s < bound
      → Handles c (record i { buffer = b' }) m.header r
      → Next fuel bound
      → Recvs i s (after_handle r s (poll_recv io c fuel))
  handle-Recvs fuel bound i s m b' _ readable e v k l (left r no_reply) next =
      recvs (record i { buffer = b' }) s (ready r) v k
        (cut-Moves i s m b' i.command_queue readable e (
          sym (append-nil (outstanding i.command_queue))
          ∙ ap (λ o. outstanding i.command_queue ++ or_nothing o) (sym no_reply)))
        refl
  handle-Recvs fuel bound i s m b' _ readable e v k l (replied reply some_bytes is_reply) next =
      let cut : Inner = record i { buffer = b' } in
      Recvs-join i (add cut reply) s s _
        (unfold add in
          cut-Moves i s m b' (add cut reply).command_queue readable e (
            outstanding-add cut reply
            ∙ ap (λ o. outstanding i.command_queue ++ or_nothing o) (sym is_reply)))
        refl
        (next (add cut reply) s (add-IsValid reply v some_bytes) (unfold add in k)
          (unfold add in l))

  cut-Recvs :
      (fuel : ℕ) (i : Inner) (s : S)
      (r : Exec (Buffer × Option (Result (MessageHeader × List ℕ) ErrorKind)))
      → IsValid i
      → Fits io laws i.buffer s
      → budget s ≤ fuel
      → Cuts c i.buffer r
      → Next fuel (measure i s)
      → Recvs i s (r >>= λ cut. after_cut c i cut s (poll_fill io (suc fuel)) (poll_recv io c fuel))
  cut-Recvs fuel i s _ v k m (waits no_frame) next =
      fill-Recvs fuel i s _ v k
        (poll_fill-Fills io laws (suc fuel) i.buffer s v.buffer k (omega arith)) next
  cut-Recvs fuel i s _ v k m (wraps long wrapped) next =
      overflows i s (Moves-refl io laws c i s) long wrapped
  cut-Recvs fuel i s _ v k m (garbled front rest e unreadable) next =
      let size : length (contents i.buffer) ≡ 8 + length front + length rest =
        ap length e ∙ length-append (frame front) rest ∙ omega (arith, length-frame front) in
      let b' : Buffer = record i.buffer { offset = length rest } in
      refuses i (record i { buffer = b' }) s front rest (Moves-refl io laws c i s) e unreadable refl
        (record {
          buffer = omega (arith, length-contents v.buffer);
          bytes =
              subst (All IsByte)
                (take-take_le (length rest) i.buffer.offset i.buffer.buf
                  (omega (arith, length-contents v.buffer)))
                (All-take IsByte (length rest) (contents i.buffer) v.bytes);
          queue = v.queue;
        })
        (omega (arith, length-contents v.buffer)) refl
  cut-Recvs fuel i s _ v k m (cuts front rest header bytes b' e readable e' w) next =
      let size : length (contents i.buffer) ≡ 8 + length front + length rest =
        ap length e ∙ length-append (frame front) rest ∙ omega (arith, length-frame front) in
      let less : length (contents b') < length (contents i.buffer) = omega (arith, ap length e') in
      let cut : Inner = record i { buffer = b' } in
      handle-Recvs fuel (measure i s) i s
        (record { text = front; header = header; payload = bytes }) b' _ readable
        (e ∙ ap (λ t. frame front ++ t) (sym e'))
        (record {
          buffer = w;
          bytes =
              subst (All IsByte) (sym e')
                (All-append_right IsByte (frame front) rest (subst (All IsByte) e v.bytes));
          queue = v.queue;
        })
        (omega (arith, length-contents w, length-contents v.buffer)) (omega arith)
        (handle-Handles c cut header bytes) next

  -- For a valid stream whose buffer fits what may come, on a connection that keeps the laws, with
  -- fuel for every byte that is received or may come: `poll_recv` ends, the stream stays valid and
  -- nothing is sent. Of the bytes that were received and those that the connection's reads gave, the
  -- frames of readable messages have been cut off the front, the rest is kept, and the replies to
  -- these messages, to each in their order, have been queued behind what was queued. Two outcomes end
  -- it otherwise: an error, where the next frame's header does not read, and a panic, where the next
  -- eight bytes announce a length within eight of 2 ^ 64.
  pub poll_recv-Recvs :
      (fuel : ℕ) (i : Inner) (s : S)
      → IsValid i
      → Fits io laws i.buffer s
      → 2 * budget s + length (contents i.buffer) < fuel
      → Recvs i s (poll_recv io c fuel i s)
  unfolding poll_recv
  poll_recv-Recvs zero i s v k m = absurd (omega arith)
  poll_recv-Recvs (suc fuel) i s v k m =
      cut-Recvs fuel i s (try_cut c i.buffer) v k (omega arith)
        (try_cut-Cuts c i.buffer v.buffer v.bytes)
        (λ i₁ s₁ v₁ k₁ m₁. poll_recv-Recvs fuel i₁ s₁ v₁ k₁ (omega arith))
