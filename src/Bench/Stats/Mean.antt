-- ===== src/Bench/Stats/Mean.antt =====
-- The mean that `calculate_stats` of bsv_script_bench/src/bench_harness.cpp computes.
use bsv_miner_op_code_calc.Common.{
  ℕ, ◌+◌, ◌/◌, ◌^◌, ◌<◌, ◌≡◌, ◌∙◌, refl, ap, List, [], ◌∷◌, length, ok, >>=-eq-ok, arith,
}
use bsv_miner_op_code_calc.Double.{Double, Signed, IsExact}
use bsv_miner_op_code_calc.Bench.Stats.{
  Statistics, insert, sort, accumulate, rank, sample_at, calculate_stats,
}
use bsv_miner_op_code_calc.Bench.Stats.Sort.{sort-counts}

abbrev pub total : List ℕ → ℕ
total [] = 0
total (x ∷ xs) = x + total xs

total-insert : (x : ℕ) (xs : List ℕ) → total (insert x xs) ≡ x + total xs
unfolding insert
total-insert x [] = refl
total-insert x (y ∷ ys) = ground (arith, total-insert x ys)

total-sort : (xs : List ℕ) → total (sort xs) ≡ total xs
unfolding sort
total-sort [] = refl
total-sort (x ∷ xs) = omega (arith, total-insert x (sort xs), total-sort xs)

module _ {ℓ} {W : Type ℓ} ⦃d : Double W⦄ ⦃e : Signed W⦄ (exact : IsExact W) where
  accumulate-total :
      (xs : List ℕ) (sum : ℕ)
      → sum + total xs < 2 ^ 53
      → accumulate xs (d.of_u64 sum) ≡ d.of_u64 (sum + total xs)
  unfolding accumulate
  accumulate-total [] sum fits = ap d.of_u64 (omega arith)
  accumulate-total (x ∷ xs) sum fits =
      rw (exact.add_whole sum x (omega arith), accumulate-total xs (sum + x) (omega arith))
        (ap d.of_u64 (omega arith))

  -- As long as the samples add up to less than 2 ^ 53, the mean is one rounded division of their total
  -- by their number, whatever their order.
  pub calculate_stats-mean :
      (samples : List ℕ) {stats : Statistics W} {sorted : List ℕ}
      → total samples < 2 ^ 53
      → calculate_stats samples ≡ ok (stats, sorted)
      → stats.mean ≡ d.div (d.of_u64 (total samples)) (d.of_u64 (length samples))
  unfolding calculate_stats
  calculate_stats-mean samples {stats} fits h =
      let xs = sort samples in
      let (median, _, h1) = >>=-eq-ok (sample_at xs (length xs / 2)) _ h in
      let (p90, _, h2) = >>=-eq-ok (sample_at xs (rank W (length xs) 90)) _ h1 in
      let (p95, _, h3) = >>=-eq-ok (sample_at xs (rank W (length xs) 95)) _ h2 in
      let (p99, _, h4) = >>=-eq-ok (sample_at xs (rank W (length xs) 99)) _ h3 in
      let same : stats.mean ≡ d.div (accumulate xs (d.lit 0 0)) (d.of_u64 (length xs)) = cc in
      let whole = total-sort samples in
      let size = (sort-counts 0 samples).0 in
      let sum : d.of_u64 (0 + total xs) ≡ d.of_u64 (total samples) = ap d.of_u64 (omega arith) in
      same ∙ rw (exact.zero_lit, accumulate-total xs 0 (omega arith), sum, size) refl
