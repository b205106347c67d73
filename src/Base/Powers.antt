-- ===== src/Base/Powers.antt =====
-- Powers of native numbers.
use Prim.Native.Nat.{ℕ, zero, suc, ◌+◌, ◌*◌, ◌^◌}
use mathlib.Core.Path.{◌≡◌, ap, ◌∙◌}
use native.Mathlib.Omega.{arith}
use native.Mathlib.Nat.{pow-suc, pow-zero}

pub pow_add : (n a b : ℕ) → n ^ (a + b) ≡ n ^ a * n ^ b
pow_add n a zero =
    let s : a + zero ≡ a = omega arith in
    ap (λ (e : ℕ). n ^ e) s ∙ omega (arith, ap (λ (t : ℕ). n ^ a * t) (pow-zero n))
pow_add n a (suc b) =
    let s : a + suc b ≡ suc (a + b) = omega arith in
    ap (λ (e : ℕ). n ^ e) s
    ∙ pow-suc n (a + b)
    ∙ ap (λ (t : ℕ). t * n) (pow_add n a b)
    ∙ omega (arith, ap (λ (t : ℕ). n ^ a * t) (pow-suc n b))
