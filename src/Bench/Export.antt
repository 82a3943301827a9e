-- ===== src/Bench/Export.antt =====
-- `BenchmarkHarness::export_csv` and `export_json` of bsv_script_bench/src/bench_harness.cpp: the text
-- that each writes to its file. How a `double` is printed is a parameter.
pub mod Cells
pub mod Numbers
pub mod Rows
pub mod Csv
pub mod Json
pub mod ReadBack
mod Tests
use bsv_miner_op_code_calc.Common.{
  ℕ, String, zero, suc, List, [], ◌∷◌, length, get_elem?, Option, some, none, ltb, sub64,
  if◌then◌else◌, Result, ok, ◌>>=◌, Fault, checked,
}
use bsv_miner_op_code_calc.Bench.Job.{◌<>◌, to_string}
use bsv_miner_op_code_calc.Bench.Harness.Measure.{BenchResult}

module _ {ℓ} {W : Type ℓ} (printed : W → String) where
  -- A data row.
  abbrev pub csv_row : BenchResult W → String
  csv_row r =
      r.opcode
      <> ","
      <> r.param_desc
      <> ","
      <> to_string r.input_bytes
      <> ","
      <> to_string r.median_cycles
      <> ","
      <> to_string r.p90_cycles
      <> ","
      <> to_string r.p99_cycles
      <> ","
      <> printed r.median_ns
      <> ","
      <> to_string r.instructions
      <> ","
      <> printed r.ipc
      <> ","
      <> to_string r.l1d_misses
      <> ","
      <> to_string r.llc_misses
      <> ","
      <> to_string r.branch_misses
      <> ","
      <> to_string r.malloc_count
      <> ","
      <> to_string r.alloc_bytes
      <> "\n"

  -- `for (const auto& r : results)`.
  unfoldable pub csv_rows : List (BenchResult W) → String
  csv_rows [] = ""
  csv_rows (r ∷ results) = csv_row r <> csv_rows results

  unfoldable pub export_csv : List (BenchResult W) → String
  unfolding csv_rows
  export_csv results =
      "opcode,param_desc,input_bytes,median_cycles,p90_cycles,p99_cycles,"
      <> "median_ns,instructions,ipc,l1d_misses,llc_misses,branch_misses,"
      <> "malloc_count,alloc_bytes\n"
      <> csv_rows results

  -- The members of an object, without the end of its line.
  abbrev pub json_object : BenchResult W → String
  json_object r =
      "    {\n"
      <> "      \"opcode\": \""
      <> r.opcode
      <> "\",\n"
      <> "      \"param_desc\": \""
      <> r.param_desc
      <> "\",\n"
      <> "      \"input_bytes\": "
      <> to_string r.input_bytes
      <> ",\n"
      <> "      \"median_cycles\": "
      <> to_string r.median_cycles
      <> ",\n"
      <> "      \"p90_cycles\": "
      <> to_string r.p90_cycles
      <> ",\n"
      <> "      \"p99_cycles\": "
      <> to_string r.p99_cycles
      <> ",\n"
      <> "      \"median_ns\": "
      <> printed r.median_ns
      <> ",\n"
      <> "      \"instructions\": "
      <> to_string r.instructions
      <> ",\n"
      <> "      \"ipc\": "
      <> printed r.ipc
      <> ",\n"
      <> "      \"l1d_misses\": "
      <> to_string r.l1d_misses
      <> ",\n"
      <> "      \"llc_misses\": "
      <> to_string r.llc_misses
      <> ",\n"
      <> "      \"branch_misses\": "
      <> to_string r.branch_misses
      <> "\n"
      <> "    }"

  module _ (results : List (BenchResult W)) where
    -- `for (size_t i = 0; i < results.size(); ++i)`, with the rounds that are left.
    unfoldable pub json_objects : ℕ → ℕ → Result Fault String
    json_objects zero i = ok ""
    json_objects (suc left) i = do
      r ← checked (get_elem? results i)
      let separator = if ltb i (sub64 (length results) 1) then "," else ""
      rest ← json_objects left (suc i)
      ok (json_object r <> separator <> "\n" <> rest)

    unfoldable pub export_json : Result Fault String
    unfolding json_objects
    export_json = do
      objects ← json_objects (length results) 0
      ok ("{\n  \"benchmarks\": [\n" <> objects <> "  ]\n}\n")
