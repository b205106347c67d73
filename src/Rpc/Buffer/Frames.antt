-- ===== src/Rpc/Buffer/Frames.antt =====
-- `try_cut` of libp2p-rpc-behaviour/src/state.rs, told by the frames that were received.
use openmina_poc.Base.{
  subst, ℕ, ◌+◌, ◌%◌, ◌^◌, ◌≤◌, ◌<◌, ◌≡◌, ◌≢◌, refl, sym, ap, ◌∙◌, List, ◌++◌, Option, none, some,
  Exec, done, panic, ok, err, Result, arith, length, take, drop, All, All-take, length-append,
  length-take, length-drop, append_assoc, take-append-drop, drop-drop, take-append_eq,
  drop-append_eq, inl, inr, Bool-cases, leb, leb→le, leb-false,
}
use openmina_poc.Rpc.Bytes.{
  u64_mod, IsByte, from_le_bytes, to_le_bytes, frame, length-to_le_bytes, from_le_bytes-to_le_bytes,
  from_le_bytes-lt, to_le_bytes-from_le_bytes,
}
use openmina_poc.Rpc.Wire.{ErrorKind, MessageHeader, Codec}
use openmina_poc.Rpc.Buffer.{Buffer, try_cut, cut_message}
use openmina_poc.Rpc.Buffer.Cut.{
  contents, IsValid, length-contents, rest_of, rest_of-IsValid, contents-rest_of, announced,
  try_cut_complete, try_cut_incomplete, try_cut_wraps,
}

-- A received text that begins with a frame announces the frame's length.
frame-announced :
    (b : Buffer) (m rest : List ℕ)
    → IsValid b
    → contents b ≡ frame m ++ rest
    → (announced b ≡ length m)
      × (8 + length m ≤ b.offset)
      × (take (length m) (drop 8 (contents b)) ≡ m)
      × (drop (8 + length m) (contents b) ≡ rest)
unfolding frame
frame-announced b m rest v e =
    let head : List ℕ = to_le_bytes 8 (length m % u64_mod) in
    let eight : length head ≡ 8 = length-to_le_bytes 8 (length m % u64_mod) in
    let grouped : contents b ≡ head ++ (m ++ rest) = e ∙ append_assoc head m rest in
    let size : length (contents b) ≡ 8 + length m + length rest =
      ap length e ∙ length-append (head ++ m) rest ∙ omega (arith, length-append head m) in
    let fits : 8 + length m ≤ b.offset = omega (arith, length-contents v) in
    (
      ap (λ t. from_le_bytes (take 8 t)) grouped
          ∙ ap from_le_bytes (take-append_eq 8 head (m ++ rest) eight)
          ∙ from_le_bytes-to_le_bytes 8 (length m % u64_mod) (omega arith)
          ∙ omega arith,
      fits,
      ap (λ t. take (length m) (drop 8 t)) grouped
          ∙ ap (take (length m)) (drop-append_eq 8 head (m ++ rest) eight)
          ∙ take-append_eq (length m) m rest refl,
      ap (drop (8 + length m)) e
          ∙ drop-append_eq (8 + length m) (head ++ m) rest (length-append head m ∙ omega arith),
    )

-- The bytes of a complete message, put back together.
frame-split :
    (t : List ℕ) (n : ℕ)
    → All IsByte t
    → from_le_bytes (take 8 t) ≡ n
    → 8 + n ≤ length t
    → n < u64_mod
    → t ≡ frame (take n (drop 8 t)) ++ drop (8 + n) t
unfolding frame
frame-split t n bytes e h l =
    let m : List ℕ = take n (drop 8 t) in
    let size : length m ≡ n = length-take n (drop 8 t) ∙ omega (arith, length-drop 8 t) in
    let eight : length (take 8 t) ≡ 8 = length-take 8 t ∙ omega arith in
    let written : to_le_bytes 8 (length m % u64_mod) ≡ take 8 t =
      ap (to_le_bytes 8) (wrap-announced (length m) n (from_le_bytes (take 8 t)) size e l)
      ∙ ap (λ k. to_le_bytes k (from_le_bytes (take 8 t))) (sym eight)
      ∙ to_le_bytes-from_le_bytes (take 8 t) (All-take IsByte 8 t bytes) in
    sym (
      ap (λ h. h ++ m ++ drop (8 + n) t) written
      ∙ append_assoc (take 8 t) m (drop (8 + n) t)
      ∙ ap (λ r. take 8 t ++ (m ++ r)) (sym (drop-drop 8 n t))
      ∙ ap (◌++◌ (take 8 t)) (take-append-drop n (drop 8 t))
      ∙ take-append-drop 8 t)
  where
    wrap-announced : (k n a : ℕ) → k ≡ n → a ≡ n → n < u64_mod → k % u64_mod ≡ a
    wrap-announced k n a p q r = omega arith

-- The four outcomes of `try_cut`. It waits where no frame is complete, panics where the announced
-- length wraps, cuts a frame with a readable header off, and reports an unreadable one.
pub data Cuts (c : Codec) (b : Buffer)
    : Exec (Buffer × Option (Result (MessageHeader × List ℕ) ErrorKind)) → Type 0 where
  waits : ((m rest : List ℕ) → contents b ≢ frame m ++ rest) → Cuts c b (done (b, none))
  wraps : 8 ≤ length (contents b) → u64_mod ≤ announced b + 8 → Cuts c b panic
  cuts :
      (m rest : List ℕ) (header : MessageHeader) (bytes : List ℕ) (b' : Buffer)
      → contents b ≡ frame m ++ rest
      → c.read_header m ≡ some (header, bytes)
      → contents b' ≡ rest
      → IsValid b'
      → Cuts c b (done (b', some (ok (header, bytes))))
  garbled :
      (m rest : List ℕ)
      → contents b ≡ frame m ++ rest
      → c.read_header m ≡ none
      → Cuts c b (done (record b { offset = length rest }, some (err ErrorKind.other)))

announced-lt :
    (b : Buffer) → IsValid b → All IsByte (contents b) → 8 ≤ b.offset → announced b < u64_mod
announced-lt b v bytes h =
    let t : List ℕ = contents b in
    let eight : length (take 8 t) ≡ 8 = length-take 8 t ∙ omega (arith, length-contents v) in
    subst (λ k. announced b < 256 ^ k) eight
      (from_le_bytes-lt (take 8 t) (All-take IsByte 8 t bytes))

-- A complete message is cut off or reported, as its header reads.
cut_message-Cuts :
    (c : Codec) (b : Buffer) (m : List ℕ) (n : ℕ) (read : Option (MessageHeader × List ℕ))
    → IsValid b
    → contents b ≡ frame m ++ drop (8 + n) (contents b)
    → 8 + n ≤ b.offset
    → c.read_header m ≡ read
    → Cuts c b (done (cut_message b (8 + n) read))
cut_message-Cuts c b m n none v e h r =
    subst (λ k. Cuts c b (done (record b { offset = k }, some (err ErrorKind.other))))
      (length-drop (8 + n) (contents b) ∙ omega (arith, length-contents v))
      (garbled m (drop (8 + n) (contents b)) e r)
cut_message-Cuts c b m n (some (header, bytes)) v e h r =
    cuts m (drop (8 + n) (contents b)) header bytes (rest_of b (8 + n)) e r
      (contents-rest_of (8 + n) v h) (rest_of-IsValid (8 + n) v h)

-- In a valid buffer, whatever bytes have been received, `try_cut` has one of four outcomes: with no
-- complete frame it changes nothing; it panics only where the announced length is within eight of
-- 2 ^ 64; it cuts exactly the first frame off, with the header that its message reads as; or it
-- reports a message whose header does not read, and counts its bytes off without removing them.
pub try_cut-Cuts :
    (c : Codec) (b : Buffer) → IsValid b → All IsByte (contents b) → Cuts c b (try_cut c b)
try_cut-Cuts c b v bytes = elim (Bool-cases (leb 8 b.offset)) [
  | inr short ↦ rw (try_cut_incomplete c b v (inl (leb-false 8 b.offset short))) (
      waits (λ m rest e.
        absurd (omega (arith, frame-announced b m rest v e, leb-false 8 b.offset short))))
  | inl long ↦ elim (Bool-cases (leb u64_mod (announced b + 8))) [
    | inl wrapped ↦
        rw
          (try_cut_wraps c b v (leb→le 8 b.offset long) (leb→le _ _ wrapped)
            (announced-lt b v bytes (leb→le 8 b.offset long)))
          (wraps (omega (arith, length-contents v, leb→le 8 b.offset long)) (leb→le _ _ wrapped))
    | inr plain ↦ elim (Bool-cases (leb (8 + announced b) b.offset)) [
      | inr late ↦
          rw
            (try_cut_incomplete c b v
              (inr (leb-false _ _ plain, leb-false (8 + announced b) b.offset late)))
            (waits (λ m rest e. absurd (
              omega
                (arith, frame-announced b m rest v e, leb-false (8 + announced b) b.offset late))))
      | inl whole ↦ rw (try_cut_complete c b (announced b) v (leb→le _ _ whole) refl) (
          cut_message-Cuts c b (take (announced b) (drop 8 (contents b))) (announced b) _ v
            (frame-split (contents b) (announced b) bytes refl
              (omega (arith, length-contents v, leb→le (8 + announced b) b.offset whole))
              (announced-lt b v bytes (leb→le 8 b.offset long)))
            (leb→le _ _ whole) refl)
    ]
  ]
]

-- In a valid buffer, a frame at the front whose message has a readable header is cut off: `try_cut`
-- returns the header and what follows it, and exactly the bytes behind the frame are left, in a
-- valid buffer.
pub try_cut-frame :
    (c : Codec) (b : Buffer) (m rest bytes : List ℕ) (header : MessageHeader)
    → IsValid b
    → contents b ≡ frame m ++ rest
    → c.read_header m ≡ some (header, bytes)
    → (b' : Buffer) × (try_cut c b ≡ done (b', some (ok (header, bytes))))
      × (contents b' ≡ rest)
      × IsValid b'
try_cut-frame c b m rest bytes header v e r =
    let (size, fits, payload, behind) = frame-announced b m rest v e in
    (
      rest_of b (8 + length m),
      try_cut_complete c b (length m) v fits size
          ∙ ap (λ t. done (cut_message b (8 + length m) (c.read_header t))) payload
          ∙ ap (λ t. done (cut_message b (8 + length m) t)) r,
      contents-rest_of (8 + length m) v fits ∙ behind,
      rest_of-IsValid (8 + length m) v fits,
    )
