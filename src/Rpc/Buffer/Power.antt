-- ===== src/Rpc/Buffer/Power.antt =====
-- `usize::next_power_of_two` as the buffer uses it, and the sizes that `resize` gives.
use openmina_poc.Base.{
  ℕ, zero, suc, ◌-◌, ◌*◌, ◌^◌, ◌≤◌, ◌≡◌, ap, ◌∙◌, List, ◌++◌, arith, length, replicate,
  length-append, length-replicate, take_all,
}
use openmina_poc.Rpc.Buffer.{next_power, next_power_of_two, resize}
use native.Mathlib.Nat.{pow-suc}

pub le-next_power : (k p n : ℕ) → n ≤ p * 2 ^ k → n ≤ next_power k p n
unfolding next_power
le-next_power zero p n h = omega arith
le-next_power (suc k) p n h =
    ground (arith, le-next_power k (2 * p) n, pow-suc 2 k, ap (λ (t : ℕ). p * t) (pow-suc 2 k))

le-mul-pow : (p j : ℕ) → p ≤ p * 2 ^ j
le-mul-pow p zero = omega arith
le-mul-pow p (suc j) = omega (arith, le-mul-pow p j, ap (λ (t : ℕ). p * t) (pow-suc 2 j))

pub next_power-le : (j k p n : ℕ) → n ≤ p * 2 ^ j → j ≤ k → next_power k p n ≤ p * 2 ^ j
unfolding next_power
next_power-le zero zero p n h l = omega arith
next_power-le (suc j) zero p n h l = absurd (omega arith)
next_power-le zero (suc k) p n h l = ground arith
next_power-le (suc j) (suc k) p n h l =
    ground (arith, le-mul-pow p j, next_power-le j k (2 * p) n, ap (λ (t : ℕ). p * t) (pow-suc 2 j))

-- Up to 2 ^ 63 the next power of two is at least the number, and at most 2 ^ 63.
pub next_power_of_two_bounds :
    (n : ℕ) → n ≤ 2 ^ 63 → (n ≤ next_power_of_two n) × (next_power_of_two n ≤ 2 ^ 63)
unfolding next_power_of_two
next_power_of_two_bounds n h =
    (le-next_power 64 1 n (omega arith), next_power-le 63 64 1 n (omega arith) (omega arith))

pub resize_grow :
    (n : ℕ) (xs : List ℕ) → length xs ≤ n → resize n xs ≡ xs ++ replicate (n - length xs) 0
resize_grow n xs h = rw (take_all n xs h)

pub length-resize : (n : ℕ) (xs : List ℕ) → length xs ≤ n → length (resize n xs) ≡ n
length-resize n xs h =
    ap length (resize_grow n xs h)
    ∙ length-append xs (replicate (n - length xs) 0)
    ∙ omega (arith, length-replicate (n - length xs) (zero))
