-- ===== src/Bench/Harness/Tests.antt =====
-- The theorems on the harness at a system that opens some of the counters, and a benchmark of five
-- rounds.
use bsv_miner_op_code_calc.Common.{
  ℕ, suc, ltb, if◌then◌else◌, ◌+◌, ◌*◌, ◌≡◌, refl, true, none, some, [], ◌∷◌, ok, arith,
}
use bsv_miner_op_code_calc.Double.Fixed.{
  Decimal, decimal_double, decimal_signed, Decimal-IsExact, Decimal-IsRanked,
}
use bsv_miner_op_code_calc.Bench.Job.{Job, runs}
use bsv_miner_op_code_calc.Bench.Harness.{Fd, BenchmarkHarness, Kernel}
use bsv_miner_op_code_calc.Bench.Harness.Measure.{BenchResult, Reading, benchmark}
use bsv_miner_op_code_calc.Bench.Harness.Descriptors.{IsOwned}
use bsv_miner_op_code_calc.Bench.Harness.Owned.{whole_life, whole_life-IsOwned}
use bsv_miner_op_code_calc.Bench.Harness.Results.{IsResult, rounds_log, benchmark-IsResult}

-- The counter of the last-level cache is missing.
abbrev counter_of : ℕ → Fd
counter_of config = if ltb config 6 then some (3 + config) else none

abbrev kernel : Kernel
kernel = record { opens = λ pe. counter_of pe.config; pins = λ core. true }

abbrev readings : ℕ → Reading
readings i = record {
  start = 1000 * i;
  end = 1000 * i + 50 * (i + 1);
  instructions = some 10;
  l1d_misses = some i;
  llc_misses = none;
  branch_misses = some 2;
}

whole_life-IsOwned_example : IsOwned [] (whole_life kernel (some 0) (readings 0 ∷ readings 1 ∷ []))
whole_life-IsOwned_example = whole_life-IsOwned kernel (some 0) (readings 0 ∷ readings 1 ∷ [])

-- The operation counts its runs.
abbrev counting : Job ℕ
counting = record {
  opcode_name = "OP_DUP";
  param_description = "32B";
  input_size_bytes = 32;
  captured = 0;
  operation = λ n. ok (suc n);
  iterations = 5;
  warmup_iterations = 2;
}

abbrev open_harness : BenchmarkHarness
open_harness = record {
  perf_fd_cycles = some 3;
  perf_fd_instructions = some 4;
  perf_fd_l1d_misses = some 5;
  perf_fd_llc_misses = none;
  perf_fd_branch_misses = some 6;
  perf_counters_enabled = true;
  pinned_cpu = some 0;
}

seven_runs : runs 7 counting.operation 0 ≡ ok 7
unfolding runs
seven_runs = refl

benchmark-IsResult_example :
    (r : BenchResult Decimal) × (benchmark open_harness readings counting
      ≡ ok (r, 7, rounds_log readings open_harness 5 0))
    × IsResult Decimal-IsExact Decimal-IsRanked open_harness readings counting r
benchmark-IsResult_example =
    benchmark-IsResult Decimal-IsExact Decimal-IsRanked open_harness readings counting (omega arith)
      (omega arith) (omega arith) seven_runs
