-- ===== src/Bench/Bytes/Jobs.antt =====
-- The benchmarks of bsv_script_bench/src/bench_byte_ops.cpp but that of OP_SPLIT, as the calls of the
-- harness that they make. The state is what the operation writes to its volatile variable.
use bsv_miner_op_code_calc.Common.{
  ℕ, zero, suc, ◌+◌, ◌*◌, ◌-◌, ltb, if◌then◌else◌, List, [], ◌∷◌, length, replicate, ok, ◌>>=◌,
}
use bsv_miner_op_code_calc.Bench.Exception.{Throws, unfaulted}
use bsv_miner_op_code_calc.Bench.Job.{Job, ◌<>◌, to_string, for_each}
use bsv_miner_op_code_calc.Bench.Stack.{Bytes}
use bsv_miner_op_code_calc.Bench.Bytes.{op_cat, op_num2bin, op_bin2num}

-- The lambdas that are measured.
unfoldable pub cat_size : ℕ → ℕ → ℕ → Throws ℕ
cat_size size_a size_b s =
    let cat_result = op_cat (replicate size_a 0x42) (replicate size_b 0x43) in
    ok (length cat_result)

unfoldable pub num2bin_size : ℕ → ℕ → ℕ → Throws ℕ
num2bin_size num size s = do bin ← unfaulted (op_num2bin num size); ok (length bin)

unfoldable pub bin2num_value : ℕ → ℕ → Throws ℕ
bin2num_value size n = unfaulted (op_bin2num (replicate size 0x42))

-- `for (int i = 1; i < chain_len; ++i) result = op_cat(result, chunk);`, the rounds that are left.
unfoldable pub cat_times : ℕ → Bytes → Bytes → Bytes
cat_times zero chunk result = result
cat_times (suc rounds) chunk result = cat_times rounds chunk (op_cat result chunk)

unfoldable pub chain_size : ℕ → ℕ → ℕ → Throws ℕ
unfolding cat_times
chain_size chain_len chunk_size s =
    let chunk = replicate chunk_size 0x42 in ok (length (cat_times (chain_len - 1) chunk chunk))

abbrev pub size_pairs : List (ℕ × ℕ)
size_pairs =
    (10, 10)
    ∷ (100, 100)
    ∷ (1000, 1000)
    ∷ (10_000, 10_000)
    ∷ (100_000, 100_000)
    ∷ (1_000_000, 1_000_000)
    ∷ (10_000_000, 10_000_000)
    ∷ (1, 10_000_000)
    ∷ (10_000_000, 1)
    ∷ []

abbrev pub cat_body : ℕ × ℕ → List (Job ℕ)
cat_body (size_a, size_b) =
    record {
      opcode_name = "OP_CAT";
      param_description = to_string size_a <> "B + " <> to_string size_b <> "B";
      input_size_bytes = size_a + size_b;
      captured = 0;
      operation = cat_size size_a size_b;
      iterations = if ltb 1_000_000 (size_a + size_b) then 100 else 1000;
      warmup_iterations = if ltb 1_000_000 (size_a + size_b) then 10 else 100;
    }
    ∷ []

unfoldable pub benchmark_op_cat : List (Job ℕ)
benchmark_op_cat = for_each size_pairs cat_body

abbrev pub number_sizes : List ℕ
number_sizes = 1 ∷ 8 ∷ 32 ∷ 256 ∷ 1000 ∷ 10_000 ∷ 1_000_000 ∷ []

abbrev pub num2bin_body : ℕ → List (Job ℕ)
num2bin_body size =
    record {
      opcode_name = "OP_NUM2BIN";
      param_description = "output_size=" <> to_string size <> "B";
      input_size_bytes = size;
      captured = 0;
      operation = num2bin_size 0x123456789abcdef0 size;
      iterations = if ltb 100_000 size then 100 else 1000;
      warmup_iterations = if ltb 100_000 size then 10 else 100;
    }
    ∷ []

unfoldable pub benchmark_op_num2bin : List (Job ℕ)
benchmark_op_num2bin = for_each number_sizes num2bin_body

abbrev pub bin2num_body : ℕ → List (Job ℕ)
bin2num_body size =
    record {
      opcode_name = "OP_BIN2NUM";
      param_description = "input_size=" <> to_string size <> "B";
      input_size_bytes = size;
      captured = 0;
      operation = bin2num_value size;
      iterations = if ltb 100_000 size then 100 else 1000;
      warmup_iterations = if ltb 100_000 size then 10 else 100;
    }
    ∷ []

unfoldable pub benchmark_op_bin2num : List (Job ℕ)
benchmark_op_bin2num = for_each number_sizes bin2num_body

abbrev pub chain_lengths : List ℕ
chain_lengths = 2 ∷ 4 ∷ 8 ∷ 16 ∷ []

abbrev pub chunk_sizes : List ℕ
chunk_sizes = 100 ∷ 1000 ∷ 10_000 ∷ 100_000 ∷ []

abbrev pub chain_body : ℕ → ℕ → List (Job ℕ)
chain_body chain_len chunk_size =
    record {
      opcode_name = "OP_CAT_CHAIN";
      param_description = to_string chain_len <> " x " <> to_string chunk_size <> "B";
      input_size_bytes = chain_len * chunk_size;
      captured = 0;
      operation = chain_size chain_len chunk_size;
      iterations = if ltb 10_000 chunk_size then 100 else 500;
      warmup_iterations = if ltb 10_000 chunk_size then 10 else 50;
    }
    ∷ []

unfoldable pub benchmark_cat_chain : List (Job ℕ)
benchmark_cat_chain =
    for_each chain_lengths λ chain_len. for_each chunk_sizes (chain_body chain_len)
