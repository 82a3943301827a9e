-- ===== src/Bench/Stats/Ranks.antt =====
-- Which samples `calculate_stats` of bsv_script_bench/src/bench_harness.cpp picks.
use mathlib.Core.List.{Perm}
use bsv_miner_op_code_calc.Common.{
  ℕ, ◌/◌, ◌^◌, ◌≤◌, ◌<◌, ◌≡◌, refl, some, List, length, get_elem?, get_elem?-lt, ok, arith,
}
use bsv_miner_op_code_calc.Double.{Double, Signed, IsRanked}
use bsv_miner_op_code_calc.Bench.Stats.{
  Statistics, sort, accumulate, sum_of_squares, rank, calculate_stats,
}
use bsv_miner_op_code_calc.Bench.Stats.Sort.{
  HasRank, sort-IsSorted, sort-counts, sort-perm, get_elem?-HasRank, get_elem?_mono,
}

module _ {ℓ} {W : Type ℓ} ⦃d : Double W⦄ ⦃e : Signed W⦄ where
  -- The statistics do not depend on the order in which the samples were taken, down to the rounding of
  -- the mean and the deviation.
  pub calculate_stats-perm :
      (xs ys : List ℕ) → Perm xs ys → calculate_stats {W = W} xs ≡ calculate_stats ys
  unfolding calculate_stats
  calculate_stats-perm xs ys p = rw (sort-perm p) refl

  -- The statistics with these samples for the median and the percentiles.
  abbrev pub picked : List ℕ → ℕ → ℕ → ℕ → ℕ → Statistics W
  picked samples median p90 p95 p99 =
      let size = d.of_u64 (length samples) in
      let mean = d.div (accumulate samples (d.lit 0 0)) size in
      record {
        mean = mean;
        median = d.of_u64 median;
        p90 = d.of_u64 p90;
        p95 = d.of_u64 p95;
        p99 = d.of_u64 p99;
        stddev = e.sqrt (d.div (sum_of_squares mean samples (d.lit 0 0)) size);
      }

  calculate_stats-picked :
      (unsorted : List ℕ) (n : ℕ) {median p90 p95 p99 : ℕ}
      → length (sort unsorted) ≡ n
      → get_elem? (sort unsorted) (n / 2) ≡ some median
      → get_elem? (sort unsorted) (rank W n 90) ≡ some p90
      → get_elem? (sort unsorted) (rank W n 95) ≡ some p95
      → get_elem? (sort unsorted) (rank W n 99) ≡ some p99
      → calculate_stats unsorted ≡ ok (picked (sort unsorted) median p90 p95 p99, sort unsorted)
  unfolding calculate_stats
  calculate_stats-picked unsorted n same hm h90 h95 h99 = rw (same, hm, h90, h95, h99) refl

module _ {ℓ} {W : Type ℓ} ⦃d : Double W⦄ ⦃e : Signed W⦄ (laws : IsRanked W) where
  rank-lt : (n p : ℕ) → p < 100 → 0 < n → n < 2 ^ 53 → rank W n p < n
  rank-lt n p small some_samples word = omega (arith, laws.percent-lt n p small some_samples word)

  rank_mono : (n p q : ℕ) → p ≤ q → q < 100 → 0 < n → n < 2 ^ 53 → rank W n p ≤ rank W n q
  rank_mono n p q h small some_samples word = omega (
    arith,
    laws.percent-lt n p (omega arith) some_samples word,
    laws.percent-lt n q small some_samples word,
    laws.percent_mono n p q h small word,
  )

  half-le-rank : (n p : ℕ) → 50 ≤ p → p < 100 → 0 < n → n < 2 ^ 53 → n / 2 ≤ rank W n p
  half-le-rank n p h small some_samples word =
      omega (arith, laws.percent-lt n p small some_samples word, laws.half-le n p h small word)

  -- A sample of each rank.
  ranked :
      (unsorted : List ℕ) (i : ℕ)
      → i < length unsorted
      → (v : ℕ) × (get_elem? (sort unsorted) i ≡ some v) × HasRank unsorted i v
  ranked unsorted i h =
      let (v, read, _) = get_elem?-lt (sort unsorted) i (omega (arith, sort-counts 0 unsorted)) in
      (
        v,
        read,
        omega (
          arith,
          sort-counts v unsorted,
          get_elem?-HasRank v (sort unsorted) i (sort-IsSorted unsorted) read,
        ),
      )

  -- What the samples say of their statistics, of `n` samples.
  abbrev pub Summary : List ℕ → ℕ → Type ℓ
  Summary unsorted n =
      (median : ℕ) × (p90 : ℕ) × (p95 : ℕ) × (p99 : ℕ) × (calculate_stats {W = W} unsorted
        ≡ ok (picked (sort unsorted) median p90 p95 p99, sort unsorted))
      × HasRank unsorted (n / 2) median
      × HasRank unsorted (rank W n 90) p90
      × HasRank unsorted (rank W n 95) p95
      × HasRank unsorted (rank W n 99) p99
      × (median ≤ p90)
      × (p90 ≤ p95)
      × (p95 ≤ p99)

  pub calculate_stats-Summary :
      (unsorted : List ℕ) (n : ℕ) → length unsorted ≡ n → 0 < n → n < 2 ^ 53 → Summary unsorted n
  calculate_stats-Summary unsorted n size some_samples word =
      let s = sort-IsSorted unsorted in
      let (a, ra, ka) = ranked unsorted (n / 2) (omega arith) in
      let below = λ (p : ℕ) (small : p < 100). rank-lt n p small some_samples word in
      let (b, rb, kb) = ranked unsorted (rank W n 90) (omega (arith, below 90 (omega arith))) in
      let (c, rc, kc) = ranked unsorted (rank W n 95) (omega (arith, below 95 (omega arith))) in
      let (f, rf, kf) = ranked unsorted (rank W n 99) (omega (arith, below 99 (omega arith))) in
      let half = half-le-rank n 90 (omega arith) (omega arith) some_samples word in
      let up = rank_mono n 90 95 (omega arith) (omega arith) some_samples word in
      let top = rank_mono n 95 99 (omega arith) (omega arith) some_samples word in
      (
        a,
        b,
        c,
        f,
        calculate_stats-picked unsorted n (omega (arith, sort-counts 0 unsorted)) ra rb rc rf,
        ka,
        kb,
        kc,
        kf,
        get_elem?_mono (sort unsorted) (n / 2) (rank W n 90) s half ra rb,
        get_elem?_mono (sort unsorted) (rank W n 90) (rank W n 95) s up rb rc,
        get_elem?_mono (sort unsorted) (rank W n 95) (rank W n 99) s top rc rf,
      )

  -- Of at least one sample, and fewer than 2 ^ 53, the statistics are computed. The median and the
  -- percentiles are samples: that of the rank n / 2, and those of the ranks that 0.90, 0.95 and 0.99 of
  -- the size are converted to; and they do not descend.
  pub calculate_stats-ranks :
      (unsorted : List ℕ)
      → 0 < length unsorted
      → length unsorted < 2 ^ 53
      → Summary unsorted (length unsorted)
  calculate_stats-ranks unsorted = calculate_stats-Summary unsorted (length unsorted) refl
