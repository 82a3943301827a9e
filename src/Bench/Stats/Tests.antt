-- ===== src/Bench/Stats/Tests.antt =====
-- The theorems on statistics at small samples, with doubles that compute.
use mathlib.Core.List.Perm
use bsv_miner_op_code_calc.Common.{[], ◌∷◌, ◌≡◌, ok, refl, arith}
use bsv_miner_op_code_calc.Double.Fixed.{
  Decimal, decimal_double, decimal_signed, Decimal-IsExact, Decimal-IsRanked,
}
use bsv_miner_op_code_calc.Bench.Stats.{Statistics, calculate_stats}
use bsv_miner_op_code_calc.Bench.Stats.Ranks.{Summary, calculate_stats-perm, calculate_stats-ranks}
use bsv_miner_op_code_calc.Bench.Stats.Mean.{calculate_stats-mean}

calculate_stats-perm_example :
    calculate_stats {W = Decimal} (40 ∷ 20 ∷ 30 ∷ []) ≡ calculate_stats (20 ∷ 40 ∷ 30 ∷ [])
calculate_stats-perm_example =
    calculate_stats-perm (40 ∷ 20 ∷ 30 ∷ []) (20 ∷ 40 ∷ 30 ∷ []) (Perm.swap _ _ _)

calculate_stats-ranks_example : Summary Decimal-IsRanked (40 ∷ 20 ∷ 30 ∷ []) 3
calculate_stats-ranks_example =
    calculate_stats-ranks Decimal-IsRanked (40 ∷ 20 ∷ 30 ∷ []) (omega arith) (omega arith)

-- A difference of these doubles stops at 0, so that the deviation is the root of 100 / 3.
abbrev three_stats : Statistics Decimal
three_stats = record {
  mean = 300_000;
  median = 300_000;
  p90 = 400_000;
  p95 = 400_000;
  p99 = 400_000;
  stddev = 57_734;
}

computed : calculate_stats {W = Decimal} (40 ∷ 20 ∷ 30 ∷ []) ≡ ok (three_stats, 20 ∷ 30 ∷ 40 ∷ [])
unfolding calculate_stats
computed = refl

calculate_stats-mean_example :
    three_stats.mean ≡ decimal_double.div (decimal_double.of_u64 90) (decimal_double.of_u64 3)
calculate_stats-mean_example =
    calculate_stats-mean Decimal-IsExact (40 ∷ 20 ∷ 30 ∷ []) (omega arith) computed
