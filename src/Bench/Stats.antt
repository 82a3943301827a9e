-- ===== src/Bench/Stats.antt =====
-- `struct Statistics` of bsv_script_bench/src/bench_harness.h and `calculate_stats` of
-- bsv_script_bench/src/bench_harness.cpp. It sorts its argument, so it returns the samples too.
pub mod Sort
pub mod Ranks
pub mod Mean
mod Tests
use bsv_miner_op_code_calc.Common.{
  ℕ, ◌/◌, leb, if◌then◌else◌, List, [], ◌∷◌, length, get_elem?, Result, ok, ◌>>=◌, Fault, checked,
}
use bsv_miner_op_code_calc.Double.{Double, Signed, cast64}

pub record Statistics {ℓ} (W : Type ℓ) : Type ℓ where
  pub mean : W
  pub median : W
  pub p90 : W
  pub p95 : W
  pub p99 : W
  pub stddev : W

-- `std::sort`, which leaves the samples in ascending order.
unfoldable pub insert : ℕ → List ℕ → List ℕ
insert x [] = x ∷ []
insert x (y ∷ ys) = if leb x y then x ∷ y ∷ ys else y ∷ insert x ys

unfoldable pub sort : List ℕ → List ℕ
unfolding insert
sort [] = []
sort (x ∷ xs) = insert x (sort xs)

-- `static_cast<size_t>(samples.size() * 0.90)`, and so for the others.
abbrev pub rank {ℓ} : (W : Type ℓ) ⦃d : Double W⦄ → ℕ → ℕ → ℕ
rank W ⦃d⦄ size percent = cast64 (d.mul (d.of_u64 size) (d.lit percent 2))

module _ {ℓ} {W : Type ℓ} ⦃d : Double W⦄ ⦃e : Signed W⦄ where
  open d use {lit, of_u64, add, mul, div}
  open e use {sub, sqrt}

  -- `std::accumulate`.
  unfoldable pub accumulate : List ℕ → W → W
  accumulate [] sum = sum
  accumulate (x ∷ xs) sum = accumulate xs (add sum (of_u64 x))

  unfoldable pub sum_of_squares : W → List ℕ → W → W
  sum_of_squares mean [] variance = variance
  sum_of_squares mean (x ∷ xs) variance =
      let deviation = sub (of_u64 x) mean in
      sum_of_squares mean xs (add variance (mul deviation deviation))

  abbrev pub sample_at : List ℕ → ℕ → Result Fault W
  sample_at samples i = do sample ← checked (get_elem? samples i); ok (of_u64 sample)

  unfoldable pub calculate_stats : List ℕ → Result Fault (Statistics W × List ℕ)
  unfolding sort accumulate sum_of_squares
  calculate_stats unsorted = do
    let samples = sort unsorted
    let size = length samples
    let mean = div (accumulate samples (lit 0 0)) (of_u64 size)
    median ← sample_at samples (size / 2)
    p90 ← sample_at samples (rank W size 90)
    p95 ← sample_at samples (rank W size 95)
    p99 ← sample_at samples (rank W size 99)
    let variance = sum_of_squares mean samples (lit 0 0)
    let stddev = sqrt (div variance (of_u64 size))
    ok (
      record { mean = mean; median = median; p90 = p90; p95 = p95; p99 = p99; stddev = stddev },
      samples,
    )
