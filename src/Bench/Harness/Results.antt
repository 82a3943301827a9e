-- ===== src/Bench/Harness/Results.antt =====
-- What `BenchmarkHarness::benchmark` of bsv_script_bench/src/bench_harness.h returns.
use mathlib.Core.List.{append_assoc, append-nil}
use bsv_miner_op_code_calc.Common.{
  ℕ, zero, suc, ◌+◌, ◌/◌, ◌^◌, ◌≤◌, ◌<◌, ◌≡◌, ◌∙◌, refl, ap, sym, Option, if◌then◌else◌, List, [],
  ◌∷◌, ◌++◌, length, All, u64, sub64, ok, ◌>>=◌, >>=->>=, >>=-eq-ok, arith,
}
use bsv_miner_op_code_calc.Double.{Double, Signed, IsExact, IsRanked, cast64}
use bsv_miner_op_code_calc.Bench.Exception.{Throws}
use bsv_miner_op_code_calc.Bench.Job.{Job, runs, runs-add}
use bsv_miner_op_code_calc.Bench.Stats.{sort, rank}
use bsv_miner_op_code_calc.Bench.Stats.Sort.{HasRank, HasRank-lt}
use bsv_miner_op_code_calc.Bench.Stats.Ranks.{picked, calculate_stats-Summary}
use bsv_miner_op_code_calc.Bench.Harness.{Event, BenchmarkHarness}
use bsv_miner_op_code_calc.Bench.Harness.Measure.{
  BenchResult, Reading, Tally, empty_tally, add_count, round_log, count_reply, tally_round, measure,
  result_of, benchmark,
}

abbrev AreWords : Tally → Type 0
AreWords t =
    (t.total_instructions < 2 ^ 64)
    × (t.total_l1d_misses < 2 ^ 64)
    × (t.total_llc_misses < 2 ^ 64)
    × (t.total_branch_misses < 2 ^ 64)

module _ (readings : ℕ → Reading) where
  -- The cycles of the rounds from `i` on, as the difference of two clocks of 64 bits.
  abbrev pub cycles : ℕ → ℕ → List ℕ
  cycles zero i = []
  cycles (suc left) i = sub64 (readings i).end (readings i).start ∷ cycles left (suc i)

  -- The sum of the counts that a counter replied.
  abbrev pub replied : (Reading → Option ℕ) → ℕ → ℕ → ℕ
  replied counter zero i = 0
  replied counter (suc left) i = add_count (counter (readings i)) 0 + replied counter left (suc i)

  length-cycles : (left i : ℕ) → length (cycles left i) ≡ left
  length-cycles zero i = refl
  length-cycles (suc left) i = omega (arith, length-cycles left (suc i))

  module _ (h : BenchmarkHarness) where
    -- The calls of the system in the rounds from `i` on.
    abbrev pub rounds_log : ℕ → ℕ → List Event
    rounds_log zero i = []
    rounds_log (suc left) i = round_log h (readings i) ++ rounds_log left (suc i)

    tallies : ℕ → ℕ → Tally → Tally
    tallies zero i t = t
    tallies (suc left) i t = tallies left (suc i) (tally_round h (readings i) t)

    -- The rounds run the operation as often as there are rounds, and do not look at its state.
    measure-runs {ℓ} :
        {S : Type ℓ} (run_once : S → Throws S) (left i : ℕ) (s : S) (t : Tally)
        → measure h readings run_once left i s t
          ≡ (runs left run_once s >>= λ s'. ok (s', tallies left i t))
    unfolding measure runs tallies
    measure-runs run_once zero i s t = refl
    measure-runs run_once (suc left) i s t = sym (
        >>=->>= (run_once s) _ _
          λ s'. sym (measure-runs run_once left (suc i) s' (tally_round h (readings i) t)))

    tallies-cycles :
        (left i : ℕ) (t : Tally)
        → (tallies left i t).cycle_samples ≡ t.cycle_samples ++ cycles left i
    unfolding tallies tally_round
    tallies-cycles zero i t = sym (append-nil t.cycle_samples)
    tallies-cycles (suc left) i t =
        tallies-cycles left (suc i) (tally_round h (readings i) t)
        ∙ append_assoc t.cycle_samples (sub64 (readings i).end (readings i).start ∷ [])
            (cycles left (suc i))

    tallies-log : (left i : ℕ) (t : Tally) → (tallies left i t).log ≡ t.log ++ rounds_log left i
    unfolding tallies tally_round
    tallies-log zero i t = sym (append-nil t.log)
    tallies-log (suc left) i t =
        tallies-log left (suc i) (tally_round h (readings i) t)
        ∙ append_assoc t.log (round_log h (readings i)) (rounds_log left (suc i))

    -- A total that a counter's replies are added to, where the counters are enabled.
    abbrev pub counted : ℕ → (Reading → Option ℕ) → ℕ → ℕ → ℕ
    counted total counter left i =
        if h.perf_counters_enabled then u64 (total + replied counter left i) else total

    counted-suc :
        (total : ℕ) (counter : Reading → Option ℕ) (left i : ℕ)
        → counted (count_reply h (counter (readings i)) total) counter left (suc i)
          ≡ counted total counter (suc left) i
    counted-suc total counter left i = ground arith

    count_reply-lt :
        (reply : Option ℕ) (total : ℕ) → total < 2 ^ 64 → count_reply h reply total < 2 ^ 64
    count_reply-lt reply total w = ground arith

    tally_round-AreWords : (r : Reading) (t : Tally) → AreWords t → AreWords (tally_round h r t)
    unfolding tally_round
    tally_round-AreWords r t (a, b, c, f) = (
      count_reply-lt r.instructions t.total_instructions a,
      count_reply-lt r.l1d_misses t.total_l1d_misses b,
      count_reply-lt r.llc_misses t.total_llc_misses c,
      count_reply-lt r.branch_misses t.total_branch_misses f,
    )

    abbrev Totals : ℕ → ℕ → Tally → Tally → Type 0
    Totals left i before after =
        (after.total_instructions ≡ counted before.total_instructions (λ r. r.instructions) left i)
        × (after.total_l1d_misses ≡ counted before.total_l1d_misses (λ r. r.l1d_misses) left i)
        × (after.total_llc_misses ≡ counted before.total_llc_misses (λ r. r.llc_misses) left i)
        × (after.total_branch_misses
            ≡ counted before.total_branch_misses (λ r. r.branch_misses) left i)

    tallies-Totals : (left i : ℕ) (t : Tally) → AreWords t → Totals left i t (tallies left i t)
    unfolding tallies tally_round
    tallies-Totals zero i t w = ground arith
    tallies-Totals (suc left) i t w =
        let next = tally_round h (readings i) t in
        let (a, b, c, f) =
          tallies-Totals left (suc i) next (tally_round-AreWords (readings i) t w) in
        (
          a ∙ counted-suc t.total_instructions (λ r. r.instructions) left i,
          b ∙ counted-suc t.total_l1d_misses (λ r. r.l1d_misses) left i,
          c ∙ counted-suc t.total_llc_misses (λ r. r.llc_misses) left i,
          f ∙ counted-suc t.total_branch_misses (λ r. r.branch_misses) left i,
        )

zeros : AreWords empty_tally
zeros = omega arith

module _ {ℓ κ} {W : Type ℓ} {S : Type κ} ⦃d : Double W⦄ ⦃e : Signed W⦄ (exact : IsExact W)
    (ranked : IsRanked W) (h : BenchmarkHarness) (readings : ℕ → Reading) (job : Job S) where
  abbrev timed : List ℕ
  timed = cycles readings job.iterations 0

  -- The result is named like the benchmark. Its cycles are the samples of their ranks, and its counts
  -- are the averages of the counts that were replied, each sum taken in 64 bits.
  abbrev pub IsResult : BenchResult W → Type 0
  IsResult r =
      let n = job.iterations in
      (r.opcode ≡ job.opcode_name)
      × (r.param_desc ≡ job.param_description)
      × (r.input_bytes ≡ job.input_size_bytes)
      × HasRank timed (n / 2) r.median_cycles
      × HasRank timed (rank W n 90) r.p90_cycles
      × HasRank timed (rank W n 99) r.p99_cycles
      × (r.median_cycles ≤ r.p90_cycles)
      × (r.p90_cycles ≤ r.p99_cycles)
      × (r.instructions ≡ counted readings h 0 (λ r. r.instructions) n 0 / n)
      × (r.l1d_misses ≡ counted readings h 0 (λ r. r.l1d_misses) n 0 / n)
      × (r.llc_misses ≡ counted readings h 0 (λ r. r.llc_misses) n 0 / n)
      × (r.branch_misses ≡ counted readings h 0 (λ r. r.branch_misses) n 0 / n)

  measured :
      {final : S}
      → runs (job.warmup_iterations + job.iterations) job.operation job.captured ≡ ok final
      → (warm : S) × (runs job.warmup_iterations job.operation job.captured ≡ ok warm)
        × (measure h readings job.operation job.iterations 0 warm empty_tally
            ≡ ok (final, tallies readings h job.iterations 0 empty_tally))
  measured {final} ran =
      let split = runs-add job.warmup_iterations job.iterations job.operation job.captured in
      let (warm, before, rest) =
        >>=-eq-ok (runs job.warmup_iterations job.operation job.captured) _ (split ∙ ran) in
      let pure = measure-runs readings h job.operation job.iterations 0 warm empty_tally in
      (warm, before, pure ∙ rw rest refl)

  cast64_whole : (v : ℕ) → v < 2 ^ 53 → cast64 (d.of_u64 v) ≡ v
  cast64_whole v small = omega (arith, exact.to_u64_whole v small)

  -- With iterations in the range of the exact integers, clocks that differ by less than 2 ^ 53 cycles,
  -- and an operation that throws nothing, a benchmark returns. It has run the operation as often as
  -- there are warmups and iterations, and its log is that of the rounds.
  pub benchmark-IsResult :
      {final : S}
      → 0 < job.iterations
      → job.iterations < 2 ^ 53
      → All (λ c. c < 2 ^ 53) (cycles readings job.iterations 0)
      → runs (job.warmup_iterations + job.iterations) job.operation job.captured ≡ ok final
      → (r : BenchResult W) × (benchmark h readings job
          ≡ ok (r, final, rounds_log readings h job.iterations 0))
        × IsResult r
  unfolding benchmark result_of
  benchmark-IsResult {final} some_rounds word small ran =
      let (warm, before, rounds) = measured ran in
      let n = job.iterations in
      let t = tallies readings h n 0 empty_tally in
      let (ti, tl, tc, tb) = tallies-Totals readings h n 0 empty_tally zeros in
      let (median, p90, p95, p99, stats, km, k90, k95, k99, up, up', top) =
        calculate_stats-Summary ranked timed n (length-cycles readings n 0) some_rounds word in
      let em = cast64_whole median (HasRank-lt _ median timed _ small km) in
      let e90 = cast64_whole p90 (HasRank-lt _ p90 timed _ small k90) in
      let e99 = cast64_whole p99 (HasRank-lt _ p99 timed _ small k99) in
      (
        result_of h job (picked (sort timed) median p90 p95 p99) t,
        rw
            (
              before,
              rounds,
              tallies-cycles readings h n 0 empty_tally,
              stats,
              tallies-log readings h n 0 empty_tally,
            )
            refl,
        (
          refl,
          refl,
          refl,
          rw em km,
          rw e90 k90,
          rw e99 k99,
          omega arith,
          omega arith,
          ap (λ (x : ℕ). x / n) ti,
          ap (λ (x : ℕ). x / n) tl,
          ap (λ (x : ℕ). x / n) tc,
          ap (λ (x : ℕ). x / n) tb,
        ),
      )
