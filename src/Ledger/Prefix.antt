-- ===== src/Ledger/Prefix.antt =====
-- The address in the query for a node's children, in `sync_at_depth_new` of
-- bootstrap-sandbox/src/snarked_ledger.rs.
use openmina_poc.Base.{
  ℕ, zero, suc, ◌+◌, ◌-◌, ◌*◌, ◌/◌, ◌%◌, ◌^◌, ◌≤◌, ◌<◌, ◌≡◌, refl, sym, ap, ◌∙◌, min, List, [], ◌∷◌,
  take, length, pow_add, arith,
}
use native.Mathlib.Nat.{mul-le-mul_right, one-le-pow}
use openmina_poc.Ledger.{to_be_bytes, child_bytes}

-- The number that big-endian bytes are.
pub from_be_bytes : ℕ → List ℕ → ℕ
from_be_bytes n [] = n
from_be_bytes n (b ∷ bs) = from_be_bytes (n * 256 + b) bs

-- The leading `b` bytes, where the others are zero.
from_be_bytes-take :
    (b p q : ℕ)
    → b ≤ 4
    → p ≡ q * 2 ^ (32 - 8 * b)
    → p < 2 ^ 32
    → (from_be_bytes 0 (take b (to_be_bytes p)) * 2 ^ (32 - 8 * b) ≡ p)
      × (length (take b (to_be_bytes p)) ≡ b)
unfolding from_be_bytes to_be_bytes
from_be_bytes-take zero p q l e h = (omega arith, refl)
from_be_bytes-take (suc zero) p q l e h = (omega arith, refl)
from_be_bytes-take (suc (suc zero)) p q l e h = (omega arith, refl)
from_be_bytes-take (suc (suc (suc zero))) p q l e h = (omega arith, refl)
from_be_bytes-take (suc (suc (suc (suc zero)))) p q l e h = (omega arith, refl)
from_be_bytes-take (suc (suc (suc (suc (suc b))))) p q l e h = absurd (omega arith)

shifted-lt : (depth pos : ℕ) → depth ≤ 32 → pos < 2 ^ depth → pos * 2 ^ (32 - depth) < 2 ^ 32
shifted-lt depth pos d h =
    let below : suc pos * 2 ^ (32 - depth) ≤ 2 ^ depth * 2 ^ (32 - depth) =
      mul-le-mul_right (2 ^ (32 - depth)) h in
    let whole : depth + (32 - depth) ≡ 32 = omega arith in
    let sum : 2 ^ depth * 2 ^ (32 - depth) ≡ 2 ^ 32 =
      sym (pow_add 2 depth (32 - depth)) ∙ ap (λ (e : ℕ). 2 ^ e) whole in
    let positive : 1 ≤ 2 ^ (32 - depth) = one-le-pow (32 - depth) 2 (omega arith) in
    omega (arith, below, sum, positive)

-- The shift of `child_bytes` by the levels below, at depth 0 by none.
shift_lem :
    (depth pos : ℕ)
    → depth ≤ 31
    → pos < 2 ^ depth
    → pos * 2 ^ ((32 - depth) % 32) ≡ pos * 2 ^ (32 - depth)
shift_lem zero pos d h = let z : pos ≡ 0 = omega (arith, h) in rw z refl
shift_lem (suc depth) pos d h =
    let same : (32 - suc depth) % 32 ≡ 32 - suc depth = omega arith in
    ap (λ (e : ℕ). pos * 2 ^ e) same

-- For a depth of at most 31 and a position at that depth: the bytes in the query for the children
-- are one for each eight bits of the depth that are begun, and they are the leading bytes of the
-- position shifted to 32 bits, of which the bytes left out are zero.
pub child_bytes-prefix :
    (depth pos : ℕ)
    → depth ≤ 31
    → pos < 2 ^ depth
    → (length (child_bytes depth pos) ≡ (depth + 7) / 8)
      × (from_be_bytes 0 (child_bytes depth pos) * 2 ^ (32 - 8 * length (child_bytes depth pos))
          ≡ pos * 2 ^ (32 - depth))
unfolding child_bytes
child_bytes-prefix depth pos d h =
    let b : ℕ = (depth + 7) / 8 in
    let b_le : b ≤ 4 = omega arith in
    let few : min b 4 ≡ b = omega arith in
    let lt = shifted-lt depth pos (omega arith) h in
    let shift = shift_lem depth pos d h in
    let fits : pos * 2 ^ (32 - depth) % 2 ^ 32 ≡ pos * 2 ^ (32 - depth) = omega (arith, lt) in
    let levels : 32 - depth ≡ (8 * b - depth) + (32 - 8 * b) = omega arith in
    let split : pos * 2 ^ (32 - depth) ≡ pos * 2 ^ (8 * b - depth) * 2 ^ (32 - 8 * b) =
      ap (λ (e : ℕ). pos * 2 ^ e) levels
      ∙ ap (λ (t : ℕ). pos * t) (pow_add 2 (8 * b - depth) (32 - 8 * b))
      ∙ omega arith in
    let (value, count) =
      from_be_bytes-take b (pos * 2 ^ (32 - depth)) (pos * 2 ^ (8 * b - depth)) b_le split lt in
    rw (few, shift, fits, count) (refl, value)
