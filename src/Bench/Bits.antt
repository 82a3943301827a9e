-- ===== src/Bench/Bits.antt =====
-- `&` with the mask of a byte and `|` of disjoint fields, as arithmetic.
use Prim.Native.Nat.{digits, bit_and-bitwise, bit_or-bitwise}
use native.Mathlib.Nat.{pow-suc}
use mathlib.Core.Path.{ap}
use bsv_miner_op_code_calc.Common.{
  ℕ, zero, suc, ◌+◌, ◌*◌, ◌/◌, ◌%◌, ◌^◌, ◌≤◌, ◌<◌, ◌≡◌, refl, max, min, bit_and, bit_or, arith,
}

-- The recursion that the native operations stand for does not depend on its fuel.
module _ (at_zero : ℕ → ℕ) (on_bits : ℕ → ℕ → ℕ) where
  same_digits :
      (a b p q : ℕ) → a ≤ p → a ≤ q → digits at_zero on_bits p a b ≡ digits at_zero on_bits q a b
  same_digits zero b zero zero hp hq = refl
  same_digits zero b zero (suc q) hp hq = refl
  same_digits zero b (suc p) zero hp hq = refl
  same_digits zero b (suc p) (suc q) hp hq = refl
  same_digits (suc a) b zero q hp hq = absurd (omega arith)
  same_digits (suc a) b (suc p) zero hp hq = absurd (omega arith)
  same_digits (suc a) b (suc p) (suc q) hp hq =
      rw (same_digits (suc a / 2) (b / 2) p q (omega arith) (omega arith))

and_last : (a b : ℕ) → bit_and a b ≡ 2 * bit_and (a / 2) (b / 2) + min (a % 2) (b % 2)
and_last zero b = omega (arith, bit_and-bitwise 0 b, bit_and-bitwise 0 (b / 2))
and_last (suc a) b =
    let h =
      same_digits (λ _. 0) min (suc a / 2) (b / 2) a (suc a / 2) (omega arith) (omega arith) in
    omega (arith, bit_and-bitwise (suc a) b, bit_and-bitwise (suc a / 2) (b / 2))

or_last : (a b : ℕ) → bit_or a b ≡ 2 * bit_or (a / 2) (b / 2) + max (a % 2) (b % 2)
or_last zero b = omega (arith, bit_or-bitwise 0 b, bit_or-bitwise 0 (b / 2))
or_last (suc a) b =
    let h =
      same_digits (λ y. y) max (suc a / 2) (b / 2) a (suc a / 2) (omega arith) (omega arith) in
    omega (arith, bit_or-bitwise (suc a) b, bit_or-bitwise (suc a / 2) (b / 2))

and_nothing : (fuel a : ℕ) → a ≤ fuel → bit_and a 0 ≡ 0
and_nothing fuel zero h = refl
and_nothing zero (suc a) h = absurd (omega arith)
and_nothing (suc fuel) (suc a) h =
    omega (arith, and_last (suc a) 0, and_nothing fuel (suc a / 2) (omega arith))

and_nibble : (a : ℕ) → bit_and a 15 ≡ a % 16
and_nibble a =
    let rest = a / 2 / 2 / 2 / 2 in
    omega (
      arith,
      and_last a 15,
      and_last (a / 2) 7,
      and_last (a / 2 / 2) 3,
      and_last (a / 2 / 2 / 2) 1,
      and_nothing rest rest (omega arith),
    )

-- `a & 0xFF`.
pub and_byte : (a : ℕ) → bit_and a 0xff ≡ a % 256
and_byte a = omega (
  arith,
  and_last a 255,
  and_last (a / 2) 127,
  and_last (a / 2 / 2) 63,
  and_last (a / 2 / 2 / 2) 31,
  and_nibble (a / 2 / 2 / 2 / 2),
)

-- `a | (b << k)`, where `a` fits the bits below.
pub or_low : (k a b : ℕ) → a < 2 ^ k → bit_or a (b * 2 ^ k) ≡ a + b * 2 ^ k
or_low zero a b h = ground (arith, bit_or-bitwise 0 b)
or_low (suc k) a b h =
    let double : b * 2 ^ suc k ≡ 2 * (b * 2 ^ k) =
      omega (arith, ap (λ (t : ℕ). b * t) (pow-suc 2 k)) in
    let half : b * 2 ^ suc k / 2 ≡ b * 2 ^ k = omega arith in
    let low : a / 2 < 2 ^ k = omega (arith, pow-suc 2 k) in
    let ih = or_low k (a / 2) b low in
    let top : bit_or (a / 2) (b * 2 ^ suc k / 2) ≡ a / 2 + b * 2 ^ k = rw half ih in
    omega (arith, or_last a (b * 2 ^ suc k))
