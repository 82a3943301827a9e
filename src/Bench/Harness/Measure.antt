-- ===== src/Bench/Harness/Measure.antt =====
-- `BenchmarkHarness::benchmark` of bsv_script_bench/src/bench_harness.h. What the clock and the counters
-- reply in each round is a parameter, and the rounds append to the log of the calls of the system.
use bsv_miner_op_code_calc.Common.{
  ℕ, String, zero, suc, ◌/◌, Option, none, some, if◌then◌else◌, List, [], ◌∷◌, ◌++◌, add64, sub64,
  ok, ◌>>=◌,
}
use bsv_miner_op_code_calc.Double.{Double, Signed, cast64}
use bsv_miner_op_code_calc.Bench.Exception.{Throws, unfaulted}
use bsv_miner_op_code_calc.Bench.Job.{Job, runs}
use bsv_miner_op_code_calc.Bench.Stats.{Statistics, calculate_stats}
use bsv_miner_op_code_calc.Bench.Harness.{
  Request, Event, ioctl, read, serialize, mfence, operation, rdtsc, BenchmarkHarness,
}

pub record BenchResult {ℓ} (W : Type ℓ) : Type ℓ where
  pub opcode : String
  pub param_desc : String
  pub input_bytes : ℕ
  pub median_cycles : ℕ
  pub p90_cycles : ℕ
  pub p99_cycles : ℕ
  pub median_ns : W
  pub instructions : ℕ
  pub ipc : W
  pub l1d_misses : ℕ
  pub llc_misses : ℕ
  pub branch_misses : ℕ
  pub malloc_count : ℕ
  pub alloc_bytes : ℕ

-- What is read in one round. A read of a counter that does not return eight bytes has no count.
pub record Reading : Type 0 where
  pub start : ℕ
  pub end : ℕ
  pub instructions : Option ℕ
  pub l1d_misses : Option ℕ
  pub llc_misses : Option ℕ
  pub branch_misses : Option ℕ

-- The local variables of `benchmark`, and the log.
pub record Tally : Type 0 where
  pub cycle_samples : List ℕ
  pub total_instructions : ℕ
  pub total_l1d_misses : ℕ
  pub total_llc_misses : ℕ
  pub total_branch_misses : ℕ
  pub log : List Event

abbrev pub empty_tally : Tally
empty_tally = record {
  cycle_samples = [];
  total_instructions = 0;
  total_l1d_misses = 0;
  total_llc_misses = 0;
  total_branch_misses = 0;
  log = [];
}

-- `if (read(fd, &count, sizeof(count)) == sizeof(count)) total += count;`
abbrev pub add_count : Option ℕ → ℕ → ℕ
add_count none total = total
add_count (some count) total = add64 total count

module _ (h : BenchmarkHarness) where
  -- One `ioctl` for each counter.
  unfoldable pub control : Request → List Event
  control request =
      ioctl request h.perf_fd_cycles
      ∷ ioctl request h.perf_fd_instructions
      ∷ ioctl request h.perf_fd_l1d_misses
      ∷ ioctl request h.perf_fd_llc_misses
      ∷ ioctl request h.perf_fd_branch_misses
      ∷ []

  unfoldable pub reads : Reading → List Event
  reads r =
      read h.perf_fd_instructions r.instructions
      ∷ read h.perf_fd_l1d_misses r.l1d_misses
      ∷ read h.perf_fd_llc_misses r.llc_misses
      ∷ read h.perf_fd_branch_misses r.branch_misses
      ∷ []

  -- The calls of one round.
  unfoldable pub round_log : Reading → List Event
  unfolding control reads
  round_log r =
      let timed =
        serialize ∷ rdtsc r.start ∷ mfence ∷ operation ∷ mfence ∷ rdtsc r.end ∷ serialize ∷ [] in
      if h.perf_counters_enabled
      then control Request.reset
        ++ control Request.enable
        ++ timed
        ++ control Request.disable
        ++ reads r
      else timed

  -- The reads are made where the counters are enabled.
  abbrev pub count_reply : Option ℕ → ℕ → ℕ
  count_reply reply total = if h.perf_counters_enabled then add_count reply total else total

  -- The rest of a round whose operation returned.
  unfoldable pub tally_round : Reading → Tally → Tally
  unfolding round_log
  tally_round r t = record {
    cycle_samples = t.cycle_samples ++ sub64 r.end r.start ∷ [];
    total_instructions = count_reply r.instructions t.total_instructions;
    total_l1d_misses = count_reply r.l1d_misses t.total_l1d_misses;
    total_llc_misses = count_reply r.llc_misses t.total_llc_misses;
    total_branch_misses = count_reply r.branch_misses t.total_branch_misses;
    log = t.log ++ round_log r;
  }

  module _ {ℓ} {S : Type ℓ} (readings : ℕ → Reading) (run_once : S → Throws S) where
    -- `for (int i = 0; i < iterations; ++i)`, with the rounds that are left.
    unfoldable pub measure : ℕ → ℕ → S → Tally → Throws (S × Tally)
    unfolding tally_round
    measure zero i s t = ok (s, t)
    measure (suc left) i s t = do
      s ← run_once s
      measure left (suc i) s (tally_round (readings i) t)

module _ {ℓ κ} {W : Type ℓ} {S : Type κ} ⦃d : Double W⦄ ⦃e : Signed W⦄ (h : BenchmarkHarness) where
  open d use {lit, of_u64, div}

  unfoldable pub result_of : Job S → Statistics W → Tally → BenchResult W
  result_of job stats t =
      let median_cycles = cast64 stats.median in
      let instructions = t.total_instructions / job.iterations in
      record {
        opcode = job.opcode_name;
        param_desc = job.param_description;
        input_bytes = job.input_size_bytes;
        median_cycles = median_cycles;
        p90_cycles = cast64 stats.p90;
        p99_cycles = cast64 stats.p99;
        median_ns = div stats.median (lit 35 1);
        instructions = instructions;
        ipc =
            if h.perf_counters_enabled
            then div (of_u64 instructions) (of_u64 median_cycles)
            else lit 0 0;
        l1d_misses = t.total_l1d_misses / job.iterations;
        llc_misses = t.total_llc_misses / job.iterations;
        branch_misses = t.total_branch_misses / job.iterations;
        malloc_count = 0;
        alloc_bytes = 0;
      }

  -- With no iteration the reads of the empty samples are already outside, before the divisions.
  unfoldable pub benchmark : (ℕ → Reading) → Job S → Throws (BenchResult W × S × List Event)
  unfolding measure result_of
  benchmark readings job = do
    s ← runs job.warmup_iterations job.operation job.captured
    (s, t) ← measure h readings job.operation job.iterations 0 s empty_tally
    (stats, _) ← unfaulted (calculate_stats t.cycle_samples)
    ok (result_of job stats t, s, t.log)
