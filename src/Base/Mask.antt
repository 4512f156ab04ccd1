-- ===== src/Base/Mask.antt =====
-- A bit mask of low ones takes the remainder: `x & (n - 1)` for a power of two `n`.
use Prim.Native.Nat.{
  ℕ, zero, suc, ◌+◌, ◌-◌, ◌*◌, ◌/◌, ◌%◌, ◌^◌, ◌≤◌, min, bit_and, digits, bit_and-bitwise,
}
use native.Mathlib.Nat.{pow-suc, one-le-pow, div-add-mod, mod-lt}
use mathlib.Core.Path.{◌≡◌}
use native.Mathlib.Omega.{arith}

-- The remainder by twice a number, digit by digit.
mod_double : (p x : ℕ) → 1 ≤ p → (x / 2) % p * 2 + x % 2 ≡ x % (p * 2)
mod_double p x h = grind (arith, div-add-mod x 2, div-add-mod (x / 2) p, mod-lt (x / 2) h)

and_mask : (fuel k x : ℕ) → x ≤ fuel → digits (λ b. zero) min fuel x (2 ^ k - 1) ≡ x % 2 ^ k
and_mask zero k zero h = omega arith
and_mask zero k (suc x) h = absurd (omega arith)
and_mask (suc fuel) k zero h = omega (arith, one-le-pow k 2)
and_mask (suc fuel) zero (suc x) h = omega (arith, and_mask fuel zero (suc x / 2) (omega arith))
and_mask (suc fuel) (suc k) (suc x) h =
    let half : (2 ^ suc k - 1) / 2 ≡ 2 ^ k - 1 = omega (arith, pow-suc 2 k, one-le-pow k 2) in
    let odd : (2 ^ suc k - 1) % 2 ≡ 1 = omega (arith, pow-suc 2 k, one-le-pow k 2) in
    rw (half, odd, pow-suc 2 k)
      (omega (
        arith,
        and_mask fuel k (suc x / 2) (omega arith),
        mod_double (2 ^ k) (suc x) (one-le-pow k 2 (omega arith)),
      ))

pub bit_and-mask : (k x : ℕ) → bit_and x (2 ^ k - 1) ≡ x % 2 ^ k
bit_and-mask k x = omega (arith, bit_and-bitwise x (2 ^ k - 1), and_mask x k x (omega arith))
