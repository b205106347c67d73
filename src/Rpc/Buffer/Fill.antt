-- ===== src/Rpc/Buffer/Fill.antt =====
-- `poll_fill` of libp2p-rpc-behaviour/src/state.rs, told by the bytes that were read.
use openmina_poc.Base.{
  ℕ, zero, suc, ◌+◌, ◌-◌, ◌*◌, ◌^◌, ◌≤◌, ◌<◌, ◌≡◌, ◌≢◌, refl, sym, ap, ◌∙◌, List, [], ◌++◌, Exec,
  done, ok, err, Result, Poll, pending, ready, arith, length, take, drop, All, All-append,
  length-append, length-take, length-drop, append_assoc, append-nil, take-append_eq, take-append_le,
  inl, inr, Bool-cases, ltb,
}
use openmina_poc.Rpc.Bytes.{IsByte}
use openmina_poc.Rpc.Wire.{ErrorKind, AsyncIo, IoLaws}
use openmina_poc.Rpc.Reached.{Reached, at_start, by_read, by_waiting, by_failing, Reached-join}
use openmina_poc.Rpc.Buffer.{Buffer, poll_fill, write_at, resize}
use openmina_poc.Rpc.Buffer.Power.{resize_grow, length-resize}
use openmina_poc.Rpc.Buffer.Cut.{contents, IsValid}

length-write_at :
    (i : ℕ) (bs xs : List ℕ) → i + length bs ≤ length xs → length (write_at i bs xs) ≡ length xs
length-write_at i bs xs h =
    length-append (take i xs ++ bs) (drop (i + length bs) xs)
    ∙ omega (arith, length-append (take i xs) bs, length-take i xs, length-drop (i + length bs) xs)

take-write_at :
    (i : ℕ) (bs xs : List ℕ)
    → i ≤ length xs
    → take (i + length bs) (write_at i bs xs) ≡ take i xs ++ bs
take-write_at i bs xs h =
    take-append_eq (i + length bs) (take i xs ++ bs) (drop (i + length bs) xs)
      (length-append (take i xs) bs ∙ omega (arith, length-take i xs))

module _ {S : Type 0} (io : AsyncIo S) (laws : IoLaws io) where
  open laws use {budget, sent, read_keeps, read_fits}

  -- The received bytes grow by `bs`, which the stream gave; a count returned is at most theirs.
  -- Nothing is sent.
  pub data Fills (b : Buffer) (s : S) : Exec (Buffer × S × Poll (Result ℕ ErrorKind)) → Type 0 where
    fills :
        (bs : List ℕ) (b' : Buffer) (s' : S) (polled : Poll (Result ℕ ErrorKind))
        → contents b' ≡ contents b ++ bs
        → IsValid b'
        → All IsByte bs
        → length bs + budget s' ≤ budget s
        → ((n : ℕ) → polled ≡ ready (ok n) → n ≤ length bs)
        → sent s' ≡ sent s
        → Reached io s s' bs
        → Fills b s (done (b', s', polled))

  -- The buffer can hold twice what it has and what may still come.
  abbrev pub Fits : Buffer → S → Type 0
  Fits b s = 2 * (b.offset + budget s) ≤ 2 ^ 63

  -- One read after another.
  Fills-join :
      (b : Buffer) (s : S) (b₁ : Buffer) (s₁ : S) (bs : List ℕ)
      (r : Exec (Buffer × S × Poll (Result ℕ ErrorKind)))
      → contents b₁ ≡ contents b ++ bs
      → All IsByte bs
      → length bs + budget s₁ ≤ budget s
      → sent s₁ ≡ sent s
      → Reached io s s₁ bs
      → Fills b₁ s₁ r
      → Fills b s r
  Fills-join b s b₁ s₁ bs _ e bytes l q g (fills more b' s' p e' v bytes' l' n q' g') =
      fills (bs ++ more) b' s' p (e' ∙ ap (λ t. t ++ more) e ∙ append_assoc (contents b) bs more) v
        (All-append IsByte bs more bytes bytes') (omega (arith, length-append bs more))
        (λ k q. omega (arith, length-append bs more, n k q)) (q' ∙ q)
        (Reached-join io s s₁ s' bs more g g')

  written : Buffer → List ℕ → Buffer
  written b bs = record { offset = b.offset + length bs; buf = write_at b.offset bs b.buf }

  grown : Buffer → List ℕ → Buffer
  grown b bs =
      let buf' = write_at b.offset bs b.buf in
      record { offset = b.offset + length bs; buf = resize (2 * length buf') buf' }

  module _ (b : Buffer) (s : S) (bs : List ℕ) (v : IsValid b) (k : Fits b s) where
    written-IsValid : b.offset + length bs < length b.buf → IsValid (written b bs)
    unfolding written
    written-IsValid h = omega (arith, length-write_at b.offset bs b.buf (omega arith))

    contents-written :
        b.offset + length bs ≤ length b.buf → contents (written b bs) ≡ contents b ++ bs
    unfolding written
    contents-written h = take-write_at b.offset bs b.buf (omega arith)

    grown-IsValid :
        b.offset + length bs ≡ length b.buf → length bs ≤ budget s → IsValid (grown b bs)
    unfolding grown
    grown-IsValid h l =
        let buf' : List ℕ = write_at b.offset bs b.buf in
        let size : length buf' ≡ length b.buf = length-write_at b.offset bs b.buf (omega arith) in
        omega (arith, length-resize (2 * length buf') buf' (omega arith))

    contents-grown : b.offset + length bs ≡ length b.buf → contents (grown b bs) ≡ contents b ++ bs
    unfolding grown
    contents-grown h =
        let buf' : List ℕ = write_at b.offset bs b.buf in
        let size : length buf' ≡ length b.buf = length-write_at b.offset bs b.buf (omega arith) in
        ap (take (b.offset + length bs)) (resize_grow (2 * length buf') buf' (omega arith))
        ∙ take-append_le (b.offset + length bs) buf' _ (omega arith)
        ∙ take-write_at b.offset bs b.buf (omega arith)

  poll_fill_step :
      (fuel : ℕ) (b : Buffer) (s s' : S) (bs : List ℕ)
      → IsValid b
      → Fits b s
      → io.poll_read s (length b.buf - b.offset) ≡ (s', ready (ok bs))
      → (b.offset + length bs ≡ length b.buf
          → Fills (grown b bs) s' (poll_fill io fuel (grown b bs) s'))
      → Fills b s (poll_fill io (suc fuel) b s)
  unfolding poll_fill written grown
  poll_fill_step fuel b s s' bs v k e rest =
      let (room, less, bytes) = read_fits s (length b.buf - b.offset) s' bs e in
      let size : length (write_at b.offset bs b.buf) ≡ length b.buf =
        length-write_at b.offset bs b.buf (omega arith) in
      let quiet : sent s' ≡ sent s = (read_keeps s _ s' _ e).1 in
      elim (Bool-cases (ltb (b.offset + length bs) (length (write_at b.offset bs b.buf)))) [
        | inl t ↦
            rw (e, t)
              (fills bs (written b bs) s' (ready (ok (length bs)))
                (contents-written b s bs v k (omega arith))
                (written-IsValid b s bs v k (ground arith)) bytes less (λ n q. ground arith) quiet
                (by_read s s' [] bs (length b.buf - b.offset) at_start e))
        | inr f ↦
            let full : b.offset + length bs ≡ length b.buf = ground arith in
            rw (e, f)
              (Fills-join b s (grown b bs) s' bs _ (contents-grown b s bs v k full) bytes less quiet
                (by_read s s' [] bs (length b.buf - b.offset) at_start e) (rest full))
      ]

  poll_fill_stop :
      (fuel : ℕ) (b : Buffer) (s s' : S) (polled : Poll (Result ℕ ErrorKind))
      → IsValid b
      → (budget s' ≤ budget s) × (sent s' ≡ sent s)
      → ((n : ℕ) → polled ≢ ready (ok n))
      → Reached io s s' []
      → Fills b s (done (b, s', polled))
  poll_fill_stop fuel b s s' polled v l n g =
      fills [] b s' polled (sym (append-nil (contents b))) v tt (omega arith)
        (λ k q. absurd (n k q)) l.1 g

  -- For a valid buffer that can hold twice what it has and what may still come, on a stream that
  -- keeps the laws, and with fuel for the bytes that may come: `poll_fill` ends, appends exactly the
  -- bytes that were read, keeps the buffer valid, sends nothing, and returns no more than it read.
  pub poll_fill-Fills :
      (fuel : ℕ) (b : Buffer) (s : S)
      → IsValid b
      → Fits b s
      → budget s < fuel
      → Fills b s (poll_fill io fuel b s)
  unfolding poll_fill grown
  poll_fill-Fills zero b s v k h = absurd (omega arith)
  poll_fill-Fills (suc fuel) b s v k h =
      go (io.poll_read s (length b.buf - b.offset)) refl (λ s' bs e full.
        poll_fill-Fills fuel (grown b bs) s' (grown-IsValid b s bs v k full (ground arith))
          (ground arith) (ground arith))
    where
      go :
          (r : S × Poll (Result (List ℕ) ErrorKind))
          → io.poll_read s (length b.buf - b.offset) ≡ r
          → ((s' : S) (bs : List ℕ)
              → length bs + budget s' ≤ budget s
              → b.offset + length bs ≡ length b.buf
              → Fills (grown b bs) s' (poll_fill io fuel (grown b bs) s'))
          → Fills b s (poll_fill io (suc fuel) b s)
      go (s', pending) e rest = rw e (
          poll_fill_stop fuel b s s' pending v (read_keeps _ _ s' pending e) (λ n q. cc)
            (by_waiting s s' [] (length b.buf - b.offset) at_start e))
      go (s', ready (err x)) e rest = rw e (
          poll_fill_stop fuel b s s' (ready (err x)) v (read_keeps _ _ s' _ e) (λ n q. cc)
            (by_failing s s' [] (length b.buf - b.offset) x at_start e))
      go (s', ready (ok bs)) e rest =
          poll_fill_step fuel b s s' bs v k e (rest s' bs (read_fits _ _ s' bs e).1)
