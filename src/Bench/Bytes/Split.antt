-- ===== src/Bench/Bytes/Split.antt =====
-- The benchmark of OP_SPLIT of bsv_script_bench/src/bench_byte_ops.cpp, and what it makes.
use bsv_miner_op_code_calc.Common.{
  ℕ, ◌^◌, ◌≤◌, ◌<◌, ◌≡◌, ap, ltb, add64, if◌then◌else◌, List, [], ◌∷◌, length, length-append,
  length-replicate, replicate, All, ok, ◌>>=◌, arith,
}
use bsv_miner_op_code_calc.Double.{Double, IsRanked, cast64}
use bsv_miner_op_code_calc.Bench.Exception.{Throws}
use bsv_miner_op_code_calc.Bench.Job.{Job, ◌<>◌, to_string, for_each, runs-same, All-for_each}
use bsv_miner_op_code_calc.Bench.Bytes.{op_cat, op_split}
use bsv_miner_op_code_calc.Bench.Bytes.Cut.{op_split-Cuts}
use bsv_miner_op_code_calc.Bench.Bytes.Measured.{IsMeasured}

-- The lambda that is measured.
unfoldable pub split_size : ℕ → ℕ → ℕ → Throws ℕ
split_size size position s = do
  (left, right) ← op_split (replicate size 0x42) position
  ok (add64 (length left) (length right))

abbrev pub split_sizes : List ℕ
split_sizes = 100 ∷ 1000 ∷ 10_000 ∷ 100_000 ∷ 1_000_000 ∷ 10_000_000 ∷ []

-- The ratios 0.01, 0.5 and 0.99, in hundredths.
abbrev pub split_positions : List ℕ
split_positions = 1 ∷ 50 ∷ 99 ∷ []

module _ {ℓ} (W : Type ℓ) ⦃d : Double W⦄ where
  open d use {lit, of_u64, mul}

  abbrev pub split_position : ℕ → ℕ → ℕ
  split_position size percent = cast64 (mul (of_u64 size) (lit percent 2))

  abbrev pub split_body : ℕ → ℕ → List (Job ℕ)
  split_body size percent =
      record {
        opcode_name = "OP_SPLIT";
        param_description =
            to_string size <> "B @ " <> to_string (cast64 (mul (lit percent 2) (lit 100 0))) <> "%";
        input_size_bytes = size;
        captured = 0;
        operation = split_size size (split_position size percent);
        iterations = if ltb 1_000_000 size then 100 else 1000;
        warmup_iterations = if ltb 1_000_000 size then 10 else 100;
      }
      ∷ []

  unfoldable pub benchmark_op_split : List (Job ℕ)
  benchmark_op_split = for_each split_sizes λ size. for_each split_positions (split_body size)

split_size-sum :
    (size position s : ℕ) → size < 2 ^ 53 → position ≤ size → split_size size position s ≡ ok size
unfolding split_size op_cat
split_size-sum size position s word inside =
    let bytes = replicate {A = ℕ} size 0x42 in
    let filled = length-replicate {A = ℕ} size 0x42 in
    let (left, right, cut, _, whole) = op_split-Cuts bytes position (omega arith) in
    let sum = length-append left right in
    let all = ap {B = ℕ} length whole in rw cut (ap (λ (n : ℕ). ok n) (omega arith))

-- Where a percentage of a size is converted to an index below the size, the benchmark of OP_SPLIT,
-- however often it runs, never splits behind the end, and its parts together are as long as the input
-- size that it reports.
pub benchmark_op_split-IsMeasured {ℓ} :
    {W : Type ℓ} ⦃d : Double W⦄ (ranked : IsRanked W) (n : ℕ)
    → All (IsMeasured n) (benchmark_op_split W)
unfolding benchmark_op_split
benchmark_op_split-IsMeasured {W = W} ranked n =
    All-for_each (λ size. (0 < size) × (size < 2 ^ 53)) (IsMeasured n) split_sizes
      (λ size. for_each split_positions (split_body W size)) (omega arith)
      λ size (some_bytes, word).
        All-for_each (λ percent. percent < 100) (IsMeasured n) split_positions (split_body W size)
          (omega arith)
          λ percent below. (
            runs-same (split_size size (split_position W size percent)) size
                (λ s.
                  split_size-sum size (split_position W size percent) s word
                    (omega (arith, ranked.percent-lt size percent below some_bytes word)))
                n 0,
            tt,
          )
