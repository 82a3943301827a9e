-- ===== src/Double/Exact.antt =====
-- What bsv_script_bench/src does with a `double` beyond the estimator, and what IEEE 754 says of values
-- that are whole numbers below 2 ^ 53: they are represented, and an operation whose result is such a
-- number gives it without rounding.
use bsv_miner_op_code_calc.Common.{ℕ, ◌≡◌, ◌≤◌, ◌+◌, ◌/◌, ◌^◌, ◌<◌}
use bsv_miner_op_code_calc.Double.Laws.{Double}

-- `-` and `std::sqrt`.
pub record Signed {ℓ} (W : Type ℓ) : Type ℓ where
  pub sub : W → W → W
  pub sqrt : W → W

pub record IsExact {ℓ} (W : Type ℓ) ⦃d : Double W⦄ ⦃e : Signed W⦄ : Type ℓ where
  pub zero_lit : d.lit 0 0 ≡ d.of_u64 0
  pub add_whole : (a b : ℕ) → a + b < 2 ^ 53 → d.add (d.of_u64 a) (d.of_u64 b) ≡ d.of_u64 (a + b)
  pub to_u64_whole : (a : ℕ) → a < 2 ^ 53 → d.to_u64 (d.of_u64 a) ≡ a

-- The index that a percentage of a size is converted to: below the size, at least its half from 50
-- percent on, and no less for a larger percentage.
pub record IsRanked {ℓ} (W : Type ℓ) ⦃d : Double W⦄ : Type ℓ where
  pub percent-lt :
      (n p : ℕ) → p < 100 → 0 < n → n < 2 ^ 53 → d.to_u64 (d.mul (d.of_u64 n) (d.lit p 2)) < n
  pub percent_mono :
      (n p q : ℕ)
      → p ≤ q
      → q < 100
      → n < 2 ^ 53
      → d.to_u64 (d.mul (d.of_u64 n) (d.lit p 2)) ≤ d.to_u64 (d.mul (d.of_u64 n) (d.lit q 2))
  pub half-le :
      (n p : ℕ) → 50 ≤ p → p < 100 → n < 2 ^ 53 → n / 2 ≤ d.to_u64 (d.mul (d.of_u64 n) (d.lit p 2))
