-- ===== src/Bench/Main.antt =====
-- The three benchmark programs of bsv_script_bench/src: the `main` of bench_stack_ops.cpp, of
-- bench_byte_ops.cpp and of bench_hash_ops.cpp, but what they print.
pub mod Complete
pub mod Programs
pub mod Analysis
mod Tests
use bsv_miner_op_code_calc.Common.{ℕ, String, suc, some, List, [], ◌∷◌, ◌++◌, ok, ◌>>=◌}
use bsv_miner_op_code_calc.Double.{Double, Signed}
use bsv_miner_op_code_calc.Bench.Exception.{Throws, unfaulted}
use bsv_miner_op_code_calc.Bench.Job.{Job}
use bsv_miner_op_code_calc.Bench.Stack.Jobs.{stack_jobs}
use bsv_miner_op_code_calc.Bench.Stack.{SimpleStack}
use bsv_miner_op_code_calc.Bench.Bytes.Jobs.{
  benchmark_op_cat, benchmark_op_num2bin, benchmark_op_bin2num, benchmark_cat_chain,
}
use bsv_miner_op_code_calc.Bench.Bytes.Split.{benchmark_op_split}
use bsv_miner_op_code_calc.Bench.Hash.{OpenSsl, hash_jobs}
use bsv_miner_op_code_calc.Bench.Harness.{
  BenchmarkHarness, Event, Kernel, new_harness, initialize, destroy,
}
use bsv_miner_op_code_calc.Bench.Harness.Measure.{BenchResult, Reading, benchmark}
use bsv_miner_op_code_calc.Bench.Export.{export_csv, export_json}

-- The benchmarks of `main`.
unfoldable pub byte_jobs {ℓ} : (W : Type ℓ) ⦃d : Double W⦄ → List (Job ℕ)
byte_jobs W =
    benchmark_op_cat
    ++ benchmark_op_split W
    ++ benchmark_op_num2bin
    ++ benchmark_op_bin2num
    ++ benchmark_cat_chain

-- What a program leaves: the results, the texts of its files, and the calls of the system.
pub record Output {ℓ} (W : Type ℓ) : Type ℓ where
  pub results : List (BenchResult W)
  pub csv_file : String
  pub json_file : String
  pub calls : List Event

module _ {ℓ κ} {W : Type ℓ} {S : Type κ} ⦃d : Double W⦄ ⦃e : Signed W⦄ where
  -- The calls of `benchmark`, each with a `results.push_back(result)`. What the clock and the counters
  -- reply depends on the benchmark and the round.
  unfoldable pub run_jobs :
      BenchmarkHarness
      → (ℕ → ℕ → Reading)
      → ℕ
      → List (Job S)
      → Throws (List (BenchResult W) × List Event)
  run_jobs h readings i [] = ok ([], [])
  run_jobs h readings i (job ∷ jobs) = do
    (result, _, log) ← benchmark h (readings i) job
    (results, more) ← run_jobs h readings (suc i) jobs
    ok (result ∷ results, log ++ more)

  unfoldable pub bench_main :
      Kernel → (W → String) → (ℕ → ℕ → Reading) → List (Job S) → Throws (Output W)
  unfolding run_jobs
  bench_main kernel printed readings jobs = do
    let (h, opening) = initialize kernel (some 0) new_harness
    (results, log) ← run_jobs h readings 0 jobs
    json ← unfaulted (export_json printed results)
    ok (record {
      results = results;
      csv_file = export_csv printed results;
      json_file = json;
      calls = opening ++ (log ++ destroy h);
    })

module _ {ℓ} {W : Type ℓ} ⦃d : Double W⦄ ⦃e : Signed W⦄ (kernel : Kernel) (printed : W → String)
    (readings : ℕ → ℕ → Reading) where
  unfoldable pub stack_main : Throws (Output W)
  unfolding bench_main
  stack_main = bench_main kernel printed readings stack_jobs

  unfoldable pub byte_main : Throws (Output W)
  unfolding bench_main byte_jobs
  byte_main = bench_main kernel printed readings (byte_jobs W)

  unfoldable pub hash_main : OpenSsl → Throws (Output W)
  unfolding bench_main
  hash_main ssl = bench_main kernel printed readings (hash_jobs ssl)
