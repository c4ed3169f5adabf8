-- ===== src/Base/Bits.antt =====
-- The lowest bits of a number, by a mask of ones.
use Prim.Native.Nat.{
  ℕ, zero, suc, ◌+◌, ◌-◌, ◌*◌, ◌/◌, ◌%◌, ◌≤◌, ◌<◌, min, bit_and, digits, bit_and-bitwise,
}
use mathlib.Core.Path.{◌≡◌, sym, ap, ◌∙◌}
use native.Mathlib.Nat.{zero-mod, add-mul, div-add-mod, mul-add-mod_self_left, mod-eq_of_lt, mod-lt}
use native.Mathlib.Omega.{arith}

-- The powers of two.
abbrev pub power : ℕ → ℕ
power zero = 1
power (suc k) = power k + power k

pub power_pos : (k : ℕ) → 0 < power k
power_pos zero = omega arith
power_pos (suc k) = omega (arith, power_pos k)

-- One more bit.
mod-double : (a p : ℕ) → 0 < p → a / 2 % p * 2 + a % 2 ≡ a % (p + p)
mod-double a p pos =
    sym (mod-eq_of_lt small)
    ∙ sym (mul-add-mod_self_left (p + p) (a / 2 / p) (a / 2 % p * 2 + a % 2))
    ∙ ap (λ n. n % (p + p)) whole
  where
    small : a / 2 % p * 2 + a % 2 < p + p
    small = omega (arith, mod-lt (a / 2) pos)

    whole : (p + p) * (a / 2 / p) + (a / 2 % p * 2 + a % 2) ≡ a
    whole = omega (arith, div-add-mod (a / 2) p, add-mul p p (a / 2 / p))

digits-mask : (fuel a k : ℕ) → a ≤ fuel → digits (λ d. zero) min fuel a (power k - 1) ≡ a % power k
digits-mask zero zero k h = sym (zero-mod (power k))
digits-mask zero (suc a) k h = absurd (omega arith)
digits-mask (suc fuel) zero k h = sym (zero-mod (power k))
digits-mask (suc fuel) (suc a) zero h = omega (arith, digits-mask fuel (suc a / 2) 0 (omega arith))
digits-mask (suc fuel) (suc a) (suc k) h =
    ap (λ m. digits (λ d. zero) min fuel (suc a / 2) m * 2 + min (suc a % 2) odd) rest_of_mask
    ∙ omega (
      arith,
      digits-mask fuel (suc a / 2) k (omega arith),
      last_bit,
      mod-double (suc a) (power k) pos,
    )
  where
    pos : 0 < power k
    pos = power_pos k

    odd : ℕ
    odd = (power k + power k - 1) % 2

    rest_of_mask : (power k + power k - 1) / 2 ≡ power k - 1
    rest_of_mask = omega (arith, pos)

    last_bit : min (suc a % 2) odd ≡ suc a % 2
    last_bit = omega (arith, pos)

-- A mask of `k` ones leaves the rest by the power of two.
pub bit_and-mask : (a k : ℕ) → bit_and a (power k - 1) ≡ a % power k
bit_and-mask a k = bit_and-bitwise a (power k - 1) ∙ digits-mask a a k (omega arith)
