-- ===== src/Bench/Main/Complete.antt =====
-- That the programs of bsv_script_bench/src come to their end, and what they leave.
use mathlib.Core.List.{append_assoc}
use bsv_miner_op_code_calc.Common.{
  ℕ, String, zero, suc, ◌+◌, ◌^◌, ◌<◌, ◌≡◌, refl, some, List, [], ◌∷◌, ◌++◌, length, sub64, All, ok,
  arith,
}
use bsv_miner_op_code_calc.Double.{Double, Signed, IsExact, IsRanked}
use bsv_miner_op_code_calc.Bench.Exception.{Throws}
use bsv_miner_op_code_calc.Bench.Job.{Job, runs}
use bsv_miner_op_code_calc.Bench.Harness.{
  BenchmarkHarness, Event, Kernel, new_harness, initialize, destroy,
}
use bsv_miner_op_code_calc.Bench.Harness.Measure.{BenchResult, Reading, round_log}
use bsv_miner_op_code_calc.Bench.Harness.Descriptors.{IsOwned}
use bsv_miner_op_code_calc.Bench.Harness.Owned.{
  all_owned, round-IsOwned, initialize-IsOwned, destroy-IsOwned,
}
use bsv_miner_op_code_calc.Bench.Harness.Results.{IsResult, cycles, rounds_log, benchmark-IsResult}
use bsv_miner_op_code_calc.Bench.Export.{export_csv}
use bsv_miner_op_code_calc.Bench.Export.Json.{json_text, export_json-separated}
use bsv_miner_op_code_calc.Bench.Main.{Output, run_jobs, bench_main}

-- A benchmark with some iterations, and whose operation throws nothing however often it runs.
abbrev pub IsSound {ℓ} : {S : Type ℓ} → Job S → Type ℓ
IsSound {S = S} job =
    (0 < job.iterations)
    × (job.iterations < 2 ^ 53)
    × ((n : ℕ) → (final : S) × (runs n job.operation job.captured ≡ ok final))

-- In each round the clock goes on by less than 2 ^ 53 cycles.
abbrev pub IsCalm : (ℕ → ℕ → Reading) → Type 0
IsCalm readings = (i k : ℕ) → sub64 (readings i k).end (readings i k).start < 2 ^ 53

cycles-All :
    (readings : ℕ → Reading) (left k : ℕ)
    → ((j : ℕ) → sub64 (readings j).end (readings j).start < 2 ^ 53)
    → All (λ c. c < 2 ^ 53) (cycles readings left k)
cycles-All readings zero k calm = tt
cycles-All readings (suc left) k calm = (calm k, cycles-All readings left (suc k) calm)

-- A log whose calls are all on open descriptors, and which opens and closes none.
abbrev IsKept : BenchmarkHarness → List Event → Type 0
IsKept h log =
    (events : List Event) → IsOwned (all_owned h) events → IsOwned (all_owned h) (log ++ events)

append-IsKept :
    (h : BenchmarkHarness) (xs ys : List Event) → IsKept h xs → IsKept h ys → IsKept h (xs ++ ys)
append-IsKept h xs ys kx ky events rest =
    rw (append_assoc xs ys events) (kx (ys ++ events) (ky events rest))

rounds_log-IsKept :
    (readings : ℕ → Reading) (h : BenchmarkHarness) (left k : ℕ)
    → IsKept h (rounds_log readings h left k)
rounds_log-IsKept readings h zero k = λ events rest. rest
rounds_log-IsKept readings h (suc left) k =
    append-IsKept h (round_log h (readings k)) (rounds_log readings h left (suc k))
      (λ events rest. round-IsOwned h (readings k) events rest)
      (rounds_log-IsKept readings h left (suc k))

module _ {ℓ κ} {W : Type ℓ} {S : Type κ} ⦃d : Double W⦄ ⦃e : Signed W⦄ (exact : IsExact W)
    (ranked : IsRanked W) (readings : ℕ → ℕ → Reading) where
  -- One result for each benchmark, in order.
  abbrev pub Reports : BenchmarkHarness → ℕ → List (Job S) → List (BenchResult W) → Type 0
  Reports h i [] [] = Unit
  Reports h i (job ∷ jobs) (r ∷ results) =
      IsResult exact ranked h (readings i) job r × Reports h (suc i) jobs results
  Reports h i _ _ = ⊥

  run_jobs-Reports :
      (h : BenchmarkHarness) (i : ℕ) (jobs : List (Job S))
      → IsCalm readings
      → All IsSound jobs
      → (results : List (BenchResult W)) × (log : List Event) × (run_jobs h readings i jobs
          ≡ ok (results, log))
        × Reports h i jobs results
        × IsKept h log
  unfolding run_jobs
  run_jobs-Reports h i [] calm sound = ([], [], refl, tt, λ events rest. rest)
  run_jobs-Reports h i (job ∷ jobs) calm ((some_rounds, word, runs_on), sound) =
      let (final, ran) = runs_on (job.warmup_iterations + job.iterations) in
      let small = cycles-All (readings i) job.iterations 0 (calm i) in
      let (r, returned, good) =
        benchmark-IsResult exact ranked h (readings i) job some_rounds word small ran in
      let (results, more, rest, reports, kept) = run_jobs-Reports h (suc i) jobs calm sound in
      let rounds = rounds_log (readings i) h job.iterations 0 in
      (
        r ∷ results,
        rounds ++ more,
        rw (returned, rest) refl,
        (good, reports),
        append-IsKept h rounds more (rounds_log-IsKept (readings i) h job.iterations 0) kept,
      )

  Reports-length :
      (h : BenchmarkHarness) (i : ℕ) (jobs : List (Job S)) (results : List (BenchResult W))
      → Reports h i jobs results
      → length results ≡ length jobs
  Reports-length h i [] [] reports = refl
  Reports-length h i [] (r ∷ results) reports = elim reports [ ]
  Reports-length h i (job ∷ jobs) [] reports = elim reports [ ]
  Reports-length h i (job ∷ jobs) (r ∷ results) (good, reports) =
      omega (arith, Reports-length h (suc i) jobs results reports)

  -- The program ends with one result for each benchmark, in order; its calls use, open and close
  -- descriptors as they should; and the files have the results.
  abbrev pub IsComplete : Kernel → (W → String) → List (Job S) → Throws (Output W) → Type ℓ
  IsComplete kernel printed jobs run =
      let h = (initialize kernel (some 0) new_harness).0 in
      (output : Output W) × (run ≡ ok output)
      × Reports h 0 jobs output.results
      × IsOwned [] output.calls
      × (output.csv_file ≡ export_csv printed output.results)
      × (output.json_file ≡ json_text printed output.results)

  pub bench_main-IsComplete :
      (kernel : Kernel) (printed : W → String) (jobs : List (Job S))
      → IsCalm readings
      → All IsSound jobs
      → length jobs < 2 ^ 64
      → IsComplete kernel printed jobs (bench_main kernel printed readings jobs)
  unfolding bench_main
  bench_main-IsComplete kernel printed jobs calm sound few =
      let h = (initialize kernel (some 0) new_harness).0 in
      let (results, log, ran, reports, kept) = run_jobs-Reports h 0 jobs calm sound in
      let json =
        export_json-separated printed results
          (omega (arith, Reports-length h 0 jobs results reports)) in
      let owned =
        initialize-IsOwned kernel (some 0) new_harness (log ++ destroy h)
          (kept (destroy h) (destroy-IsOwned h)) in
      (
        record {
          results = results;
          csv_file = export_csv printed results;
          json_file = json_text printed results;
          calls = (initialize kernel (some 0) new_harness).1 ++ (log ++ destroy h);
        },
        rw (ran, json) refl,
        reports,
        owned,
        refl,
        refl,
      )
