-- ===== src/Rpc/Buffer/Cut.antt =====
-- `try_cut` of libp2p-rpc-behaviour/src/state.rs on the received bytes, and a valid buffer.
use openmina_poc.Base.{
  ℕ, zero, ◌+◌, ◌-◌, ◌%◌, ◌^◌, ◌≤◌, ◌<◌, ◌≡◌, sym, ap, ◌∙◌, max, List, none, done, panic, arith,
  length, take, drop, replicate, leb, length-take, length-drop, length-replicate, drop-take,
  take-take_le, take-append_le, le→leb, lt→leb_false, true, ◌⊎◌, inl, inr, Bool-cases, leb→le,
}
use openmina_poc.Rpc.Bytes.{u64_mod, from_le_bytes}
use openmina_poc.Rpc.Wire.{Codec}
use openmina_poc.Rpc.Buffer.{
  Buffer, initial_size, next_power_of_two, empty, try_cut, cut_message, resize,
}
use openmina_poc.Rpc.Buffer.Power.{next_power_of_two_bounds, resize_grow, length-resize}

-- The bytes received and not consumed.
abbrev pub contents : Buffer → List ℕ
contents b = take b.offset b.buf

-- The bytes end before the buffer does, which has its initial size at least, and no more than a
-- `Vec` can have.
pub record IsValid (b : Buffer) : Type 0 where
  pub within : b.offset < length b.buf
  pub roomy : initial_size ≤ length b.buf
  pub bounded : length b.buf ≤ 2 ^ 63

zeros-IsValid :
    (n : ℕ) → initial_size ≤ n → n ≤ 2 ^ 63 → IsValid (record { offset = 0; buf = replicate n 0 })
zeros-IsValid n h l = omega (arith, length-replicate n (zero))

pub empty-IsValid : IsValid empty
unfolding empty
empty-IsValid = zeros-IsValid initial_size (omega arith) (omega arith)

pub length-contents : {b : Buffer} → IsValid b → length (contents b) ≡ b.offset
length-contents {b} v = omega (arith, length-take b.offset b.buf)

-- The buffer after a complete message of `end` bytes, header included, has been cut off.
abbrev pub rest_of : Buffer → ℕ → Buffer
rest_of b end =
    let rest = drop end b.buf in
    record {
      offset = b.offset - end;
      buf = resize (max (next_power_of_two (length rest)) initial_size) rest;
    }

pub rest_of-IsValid : {b : Buffer} (end : ℕ) → IsValid b → end ≤ b.offset → IsValid (rest_of b end)
rest_of-IsValid {b} end v h =
    let n : ℕ = max (next_power_of_two (length (drop end b.buf))) initial_size in
    omega (
      arith,
      length-resize n (drop end b.buf),
      length-drop end b.buf,
      next_power_of_two_bounds (length (drop end b.buf)),
    )

pub contents-rest_of :
    {b : Buffer} (end : ℕ)
    → IsValid b
    → end ≤ b.offset
    → contents (rest_of b end) ≡ drop end (contents b)
contents-rest_of {b} end v h =
    let rest : List ℕ = drop end b.buf in
    let n : ℕ = max (next_power_of_two (length rest)) initial_size in
    let small : length rest ≤ n =
      omega (arith, length-drop end b.buf, next_power_of_two_bounds (length rest)) in
    ap (take (b.offset - end)) (resize_grow n rest small)
    ∙ take-append_le (b.offset - end) rest _ (omega (arith, length-drop end b.buf))
    ∙ sym (drop-take end b.offset b.buf)

-- The length that the first eight received bytes announce.
abbrev pub announced : Buffer → ℕ
announced b = from_le_bytes (take 8 (contents b))

announced-buf : (b : Buffer) → 8 ≤ b.offset → from_le_bytes (take 8 b.buf) ≡ announced b
announced-buf b h = ap from_le_bytes (sym (take-take_le 8 b.offset b.buf h))

payload-buf :
    (b : Buffer) (n : ℕ) → 8 + n ≤ b.offset → take n (drop 8 (contents b)) ≡ take n (drop 8 b.buf)
payload-buf b n h =
    ap (take n) (drop-take 8 b.offset b.buf) ∙ take-take_le n (b.offset - 8) _ (omega arith)

-- `try_cut` where a message of `n` bytes is complete.
pub try_cut_complete :
    (c : Codec) (b : Buffer) (n : ℕ)
    → IsValid b
    → 8 + n ≤ b.offset
    → announced b ≡ n
    → try_cut c b ≡ done (cut_message b (8 + n) (c.read_header (take n (drop 8 (contents b)))))
unfolding try_cut
try_cut_complete c b n v h e =
    let whole : (8 + from_le_bytes (take 8 b.buf)) % u64_mod ≡ 8 + n =
      omega (arith, announced-buf b (omega arith)) in
    let payload : take (8 + n - 8) (drop 8 b.buf) ≡ take n (drop 8 (contents b)) =
      ap (λ k. take k (drop 8 b.buf)) (omega arith) ∙ sym (payload-buf b n h) in
    rw (
      whole,
      le→leb 8 b.offset (omega arith),
      le→leb (8 + n) b.offset h,
      le→leb 8 (8 + n) (omega arith),
      le→leb (8 + n) (length b.buf) (omega arith),
      payload,
    )

pub try_cut_incomplete :
    (c : Codec) (b : Buffer)
    → IsValid b
    → (b.offset < 8) ⊎ (announced b + 8 < u64_mod) × (b.offset < 8 + announced b)
    → try_cut c b ≡ done (b, none)
unfolding try_cut
try_cut_incomplete c b v (inl h) = rw (lt→leb_false 8 b.offset h)
try_cut_incomplete c b v (inr (h, k)) = elim (Bool-cases (leb 8 b.offset)) [
  | inr short ↦ rw short
  | inl long ↦ rw (long, lt→leb_false _ b.offset (late long))
]
  where
    late : leb 8 b.offset ≡ true → b.offset < (8 + from_le_bytes (take 8 b.buf)) % u64_mod
    late long = omega (arith, announced-buf b (leb→le 8 b.offset long))

-- A length within eight of 2 ^ 64 makes `8 + msg_len` wrap: the slice that follows panics.
pub try_cut_wraps :
    (c : Codec) (b : Buffer)
    → IsValid b
    → 8 ≤ b.offset
    → u64_mod ≤ announced b + 8
    → announced b < u64_mod
    → try_cut c b ≡ panic
unfolding try_cut
try_cut_wraps c b v h k l =
    let e : from_le_bytes (take 8 b.buf) ≡ announced b = announced-buf b h in
    let end : ℕ = (8 + from_le_bytes (take 8 b.buf)) % u64_mod in
    let short : end < 8 = omega arith in
    rw (le→leb 8 b.offset h, le→leb end b.offset (omega arith), lt→leb_false 8 end short)
