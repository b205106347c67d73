-- ===== src/Rpc/State/Send.antt =====
-- `poll_send` of libp2p-rpc-behaviour/src/state.rs, on the bytes of the queue.
use openmina_poc.Base.{
  ℕ, zero, suc, ◌+◌, ◌≤◌, ◌<◌, ◌≡◌, refl, sym, ap, ◌∙◌, List, [], ◌∷◌, ◌++◌, done, stuck, ok, ◌⊎◌,
  ==_iff, ◌==◌, err, Result, Poll, pending, ready, arith, length, take, drop, All, length-append,
  length-drop, append_assoc, take-append-drop, drop-drop, drop_all, inl, inr, Bool-cases, ltb,
  lt→ltb, if◌then◌else◌,
}
use openmina_poc.Rpc.Wire.{ErrorKind, AsyncIo, IoLaws}
use openmina_poc.Rpc.Reached.{Reached, at_start, by_write, Reached-join}
use openmina_poc.Rpc.State.{Queue, Sent, outstanding, poll_send, after_write}

-- Something of the message is left to send.
abbrev pub IsSendable : ℕ × List ℕ → Type 0
IsSendable entry = entry.0 < length entry.1

-- The queue after a write of `n` bytes of the front message.
abbrev written : ℕ → ℕ → List ℕ → Queue → Queue
written offset n buf queue =
    if ltb (offset + n) (length buf) then (offset + n, buf) ∷ queue else queue

outstanding-written :
    (offset n : ℕ) (buf : List ℕ) (queue : Queue)
    → outstanding (written offset n buf queue) ≡ drop (offset + n) buf ++ outstanding queue
outstanding-written offset n buf queue = elim (Bool-cases (ltb (offset + n) (length buf))) [
  | inl more ↦ rw more
  | inr whole ↦ rw (whole, drop_all (offset + n) buf (ground arith))
]

written-IsSendable :
    (offset n : ℕ) (buf : List ℕ) (queue : Queue)
    → All IsSendable queue
    → All IsSendable (written offset n buf queue)
written-IsSendable offset n buf queue h = elim (Bool-cases (ltb (offset + n) (length buf))) [
  | inl more ↦ rw more (ground arith, h)
  | inr whole ↦ rw whole h
]

module _ {S : Type 0} (io : AsyncIo S) (laws : IoLaws io) where
  open laws use {budget, sent, write_keeps, write_waits, write_fails, write_takes}

  -- Of the writes of a send, one comes that takes nothing of a message: those before it are as the
  -- connection answers them, one after another.
  pub data Stalls : Queue → S → Type 0 where
    takes_none :
        (offset : ℕ) (buf : List ℕ) (queue : Queue) (s s' : S)
        → offset < length buf
        → io.poll_write s (drop offset buf) ≡ (s', ready (ok 0))
        → Stalls ((offset, buf) ∷ queue) s
    takes_some :
        (offset n : ℕ) (buf : List ℕ) (queue : Queue) (s s' : S)
        → io.poll_write s (drop offset buf) ≡ (s', ready (ok n))
        → Stalls (written offset n buf queue) s'
        → Stalls ((offset, buf) ∷ queue) s

  -- What has been sent, and behind it what is still to be sent, make up the same bytes before and
  -- after; a send that is through leaves an empty queue. A send that does not end has an excuse.
  pub data Sends (Excuse : Type 0) (queue : Queue) (s : S) : Sent S → Type 0 where
    sends :
        (queue' : Queue) (s' : S) (polled : Poll (Result (Unit {0}) ErrorKind))
        → sent s' ++ outstanding queue' ≡ sent s ++ outstanding queue
        → All IsSendable queue'
        → budget s' ≤ budget s
        → (polled ≡ ready (ok tt) → queue' ≡ [])
        → Reached io s s' []
        → Sends Excuse queue s (done (queue', s', polled))
    sends_on : Excuse → Sends Excuse queue s stuck

  Sends-join :
      (E E₁ : Type 0) (queue queue₁ : Queue) (s s₁ : S) (r : Sent S)
      → sent s₁ ++ outstanding queue₁ ≡ sent s ++ outstanding queue
      → budget s₁ ≤ budget s
      → Reached io s s₁ []
      → (E₁ → E)
      → Sends E₁ queue₁ s₁ r
      → Sends E queue s r
  Sends-join E E₁ queue queue₁ s s₁ _ e l g excuse (sends queue' s' p e' v l' n g') =
      sends queue' s' p (e' ∙ e) v (omega arith) n (Reached-join io s s₁ s' [] [] g g')
  Sends-join E E₁ queue queue₁ s s₁ _ e l g excuse (sends_on x) = sends_on (excuse x)

  module _ (offset : ℕ) (buf : List ℕ) (queue : Queue) (s s' : S) where
    -- A write of `n` bytes moves them from the queue to what has been sent.
    write_moves :
        (n : ℕ)
        → io.poll_write s (drop offset buf) ≡ (s', ready (ok n))
        → sent s' ++ outstanding (written offset n buf queue)
          ≡ sent s ++ outstanding ((offset, buf) ∷ queue)
    write_moves n e =
        let d : List ℕ = drop offset buf in
        ap (λ t. t ++ outstanding (written offset n buf queue)) (write_takes s d s' n e).1
        ∙ ap (λ t. (sent s ++ take n d) ++ t) (outstanding-written offset n buf queue)
        ∙ append_assoc (sent s) (take n d) (drop (offset + n) buf ++ outstanding queue)
        ∙ ap (λ t. sent s ++ t)
            (sym (append_assoc (take n d) (drop (offset + n) buf) (outstanding queue))
              ∙ ap (λ t. (take n d ++ t) ++ outstanding queue) (sym (drop-drop offset n buf))
              ∙ ap (λ t. t ++ outstanding queue) (take-append-drop n d))

    write_shrinks :
        (n : ℕ)
        → io.poll_write s (drop offset buf) ≡ (s', ready (ok n))
        → offset < length buf
        → 0 < n
        → length (outstanding (written offset n buf queue))
          < length (outstanding ((offset, buf) ∷ queue))
    write_shrinks n e h some_taken = omega (
      arith,
      write_takes s (drop offset buf) s' n e,
      some_taken,
      ap length (outstanding-written offset n buf queue),
      length-append (drop (offset + n) buf) (outstanding queue),
      length-append (drop offset buf) (outstanding queue),
      length-drop offset buf,
      length-drop (offset + n) buf,
    )

  -- A write of some bytes is as the rest of the send, whose excuse is its own.
  write-Sends :
      (fuel offset n : ℕ) (buf : List ℕ) (queue : Queue) (s s' : S) (r : Sent S)
      → offset < length buf
      → io.poll_write s (drop offset buf) ≡ (s', ready (ok n))
      → Sends
          (Stalls (written offset n buf queue) s'
            ⊎ (fuel ≤ length (outstanding (written offset n buf queue))))
          (written offset n buf queue)
          s'
          r
      → Sends
          (Stalls ((offset, buf) ∷ queue) s
            ⊎ (suc fuel ≤ length (outstanding ((offset, buf) ∷ queue))))
          ((offset, buf) ∷ queue)
          s
          r
  write-Sends fuel offset n buf queue s s' r left e rest =
      Sends-join _ _ ((offset, buf) ∷ queue) (written offset n buf queue) s s' r
        (write_moves offset buf queue s s' n e) (write_keeps _ _ s' _ e)
        (by_write s s' [] (drop offset buf) (ready (ok n)) at_start e)
        (elim (Bool-cases (n == 0)) [
          | inl none_taken ↦ λ excuse.
              let zero_taken : n ≡ 0 = (==_iff n 0).0 none_taken in
              inl (
                takes_none offset buf queue s s' left
                  (e ∙ ap (λ (k : ℕ). (s', ready (ok k))) zero_taken))
          | inr some_taken ↦ elim [
            | inl stalled ↦ inl (takes_some offset n buf queue s s' e stalled)
            | inr short ↦
                let less =
                  write_shrinks offset buf queue s s' n e left (ground (arith, some_taken)) in
                inr (omega (arith, short, less))
          ]
        ])
        rest

  poll_send-ends :
      (fuel : ℕ) (queue : Queue) (s : S)
      → All IsSendable queue
      → Sends
          (Stalls queue s ⊎ (fuel ≤ length (outstanding queue)))
          queue
          s
          (poll_send io fuel queue s)
  unfolding poll_send
  poll_send-ends zero queue s v = sends_on (inr (omega arith))
  poll_send-ends (suc fuel) [] s v =
      sends [] s (ready (ok tt)) refl tt (omega arith) (λ _. refl) at_start
  poll_send-ends (suc fuel) ((offset, buf) ∷ queue) s v = rw (lt→ltb offset (length buf) v.0) (
      go (io.poll_write s (drop offset buf)) refl (λ n s'.
        poll_send-ends fuel (written offset n buf queue) s'
          (written-IsSendable offset n buf queue v.1)))
    where
      go :
          (r : S × Poll (Result ℕ ErrorKind))
          → io.poll_write s (drop offset buf) ≡ r
          → ((n : ℕ) (s' : S)
              → Sends
                  (Stalls (written offset n buf queue) s'
                    ⊎ (fuel ≤ length (outstanding (written offset n buf queue))))
                  (written offset n buf queue)
                  s'
                  (poll_send io fuel (written offset n buf queue) s'))
          → Sends
              (Stalls ((offset, buf) ∷ queue) s
                ⊎ (suc fuel ≤ length (outstanding ((offset, buf) ∷ queue))))
              ((offset, buf) ∷ queue)
              s
              (after_write offset buf queue r (poll_send io fuel))
      go (s', pending) e rest =
          sends _ s' pending
            (ap (λ t. t ++ outstanding ((offset, buf) ∷ queue)) (write_waits _ _ s' e)) v
            (write_keeps _ _ s' _ e) (λ q. cc)
            (by_write s s' [] (drop offset buf) pending at_start e)
      go (s', ready (err x)) e rest =
          sends _ s' (ready (err x))
            (ap (λ t. t ++ outstanding ((offset, buf) ∷ queue)) (write_fails _ _ s' x e)) v
            (write_keeps _ _ s' _ e) (λ q. cc)
            (by_write s s' [] (drop offset buf) (ready (err x)) at_start e)
      go (s', ready (ok n)) e rest = write-Sends fuel offset n buf queue s s' _ v.0 e (rest n s')

  -- For a queue with no finished message, on a connection that keeps the laws, with fuel for every
  -- byte that is left to send: `poll_send` ends, the bytes sent followed by the bytes still queued are
  -- the same before and after, and where it is through the queue is empty; it fails to end only where
  -- one of its writes takes nothing of a message.
  pub poll_send-Sends :
      (fuel : ℕ) (queue : Queue) (s : S)
      → All IsSendable queue
      → length (outstanding queue) < fuel
      → Sends (Stalls queue s) queue s (poll_send io fuel queue s)
  poll_send-Sends fuel queue s v h =
      Sends-join (Stalls queue s) _ queue queue s s _ refl (omega arith) at_start
        (elim [ inl stalled ↦ stalled | inr short ↦ absurd (omega (arith, short, h)) ])
        (poll_send-ends fuel queue s v)
