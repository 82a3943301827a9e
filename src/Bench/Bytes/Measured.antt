-- ===== src/Bench/Bytes/Measured.antt =====
-- What the benchmarks of bsv_script_bench/src/bench_byte_ops.cpp make, run after run.
use bsv_miner_op_code_calc.Common.{
  ℕ, zero, suc, ◌+◌, ◌*◌, ◌-◌, ◌<◌, ◌^◌, ◌≡◌, refl, ap, length, length-append, length-replicate,
  replicate, take, All, ok, arith,
}
use bsv_miner_op_code_calc.Bench.Job.{Job, runs, runs-same, All-for_each, All-grid, All-Unit}
use bsv_miner_op_code_calc.Bench.Stack.{Bytes}
use bsv_miner_op_code_calc.Bench.Bytes.{op_cat}
use bsv_miner_op_code_calc.Bench.Bytes.Digits.{le_value, length-le_bytes}
use bsv_miner_op_code_calc.Bench.Bytes.Decode.{op_bin2num-le_value}
use bsv_miner_op_code_calc.Bench.Bytes.Encode.{op_num2bin-le_bytes}
use bsv_miner_op_code_calc.Bench.Bytes.Jobs.{
  bin2num_value, bin2num_body, benchmark_op_bin2num, cat_size, num2bin_size, cat_times, chain_size,
  size_pairs, cat_body, benchmark_op_cat, number_sizes, num2bin_body, benchmark_op_num2bin,
  chain_lengths, chunk_sizes, chain_body, benchmark_cat_chain,
}

-- After any number of runs but none, the size that was made last is the one that is reported.
abbrev pub IsMeasured : ℕ → Job ℕ → Type 0
IsMeasured n job = runs (suc n) job.operation job.captured ≡ ok job.input_size_bytes

length-op_cat : (a b : Bytes) → length (op_cat a b) ≡ length a + length b
unfolding op_cat
length-op_cat a b = length-append a b

length-filled : (n b : ℕ) → length (replicate n b) ≡ n
length-filled n b = length-replicate n b

cat_size-sum : (size_a size_b s : ℕ) → cat_size size_a size_b s ≡ ok (size_a + size_b)
unfolding cat_size
cat_size-sum size_a size_b s = ap ok (
    omega (
      arith,
      length-op_cat (replicate size_a 0x42) (replicate size_b 0x43),
      length-filled size_a 0x42,
      length-filled size_b 0x43,
    ))

num2bin_size-same : (num size s : ℕ) → num < 2 ^ 64 → num2bin_size num size s ≡ ok size
unfolding num2bin_size
num2bin_size-same num size s word =
    rw (op_num2bin-le_bytes num size word) (ap ok (length-le_bytes size num))

length-cat_times :
    (rounds : ℕ) (chunk result : Bytes)
    → length (cat_times rounds chunk result) ≡ length result + rounds * length chunk
unfolding cat_times
length-cat_times zero chunk result = omega arith
length-cat_times (suc rounds) chunk result =
    omega (arith, length-cat_times rounds chunk (op_cat result chunk), length-op_cat result chunk)

chain_size-product :
    (chain_len chunk_size s : ℕ)
    → 0 < chain_len
    → chain_size chain_len chunk_size s ≡ ok (chain_len * chunk_size)
unfolding chain_size
chain_size-product zero chunk_size s some = absurd (omega arith)
chain_size-product (suc rounds) chunk_size s some =
    let chunk : Bytes = replicate chunk_size 0x42 in
    let rounds_left : suc rounds - 1 ≡ rounds = omega arith in
    let sum : chunk_size + rounds * chunk_size ≡ suc rounds * chunk_size = omega arith in
    rw (rounds_left, length-cat_times rounds chunk chunk, length-filled chunk_size 0x42, sum) refl

cat-IsMeasured : (n : ℕ) → All (IsMeasured n) benchmark_op_cat
unfolding benchmark_op_cat
cat-IsMeasured n =
    All-for_each (λ _. Unit {0}) (IsMeasured n) size_pairs cat_body (All-Unit size_pairs)
      λ (size_a, size_b) _.
        (runs-same (cat_size size_a size_b) _ (cat_size-sum size_a size_b) n 0, tt)

num2bin-IsMeasured : (n : ℕ) → All (IsMeasured n) benchmark_op_num2bin
unfolding benchmark_op_num2bin
num2bin-IsMeasured n =
    All-for_each (λ _. Unit {0}) (IsMeasured n) number_sizes num2bin_body (All-Unit number_sizes)
      λ size _. (
        runs-same (num2bin_size 0x123456789abcdef0 size) size
            (λ s. num2bin_size-same 0x123456789abcdef0 size s (omega arith)) n 0,
        tt,
      )

chain-IsMeasured : (n : ℕ) → All (IsMeasured n) benchmark_cat_chain
unfolding benchmark_cat_chain
chain-IsMeasured n =
    All-grid (λ chain_len. 0 < chain_len) (IsMeasured n) chain_lengths chunk_sizes chain_body
      (omega arith)
      λ chain_len chunk_size some. (
        runs-same (chain_size chain_len chunk_size) (chain_len * chunk_size)
            (λ s. chain_size-product chain_len chunk_size s some) n 0,
        tt,
      )

filled-IsByte : (n b : ℕ) → b < 256 → All (λ c. c < 256) (replicate n b)
filled-IsByte zero b small = tt
filled-IsByte (suc n) b small = (small, filled-IsByte n b small)

-- What is read from bytes that are all 0x42.
abbrev pub IsRead : ℕ → Job ℕ → Type 0
IsRead n job =
    runs (suc n) job.operation job.captured
    ≡ ok (le_value (take 8 (replicate job.input_size_bytes 0x42)))

bin2num_value-le_value :
    (size s : ℕ) → bin2num_value size s ≡ ok (le_value (take 8 (replicate size 0x42)))
unfolding bin2num_value
bin2num_value-le_value size s =
    let read = op_bin2num-le_value (replicate size 0x42) (filled-IsByte size 0x42 (omega arith)) in
    rw read refl

bin2num-IsRead : (n : ℕ) → All (IsRead n) benchmark_op_bin2num
unfolding benchmark_op_bin2num
bin2num-IsRead n =
    All-for_each (λ _. Unit {0}) (IsRead n) number_sizes bin2num_body (All-Unit number_sizes)
      λ size _. (runs-same (bin2num_value size) _ (bin2num_value-le_value size) n 0, tt)

-- However often they run, the benchmarks of OP_CAT, OP_NUM2BIN and the chains throw nothing, and the
-- length of what they make is the input size that they report; that of OP_BIN2NUM throws nothing and
-- reads the first eight of as many bytes as it reports.
pub byte_jobs-IsMeasured :
    (n : ℕ)
    → All (IsMeasured n) benchmark_op_cat
      × All (IsMeasured n) benchmark_op_num2bin
      × All (IsRead n) benchmark_op_bin2num
      × All (IsMeasured n) benchmark_cat_chain
byte_jobs-IsMeasured n =
    (cat-IsMeasured n, num2bin-IsMeasured n, bin2num-IsRead n, chain-IsMeasured n)
