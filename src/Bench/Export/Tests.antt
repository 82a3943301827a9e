-- ===== src/Bench/Export/Tests.antt =====
-- The theorems on the files at two results, one with a comma in its description, with whole numbers for
-- doubles.
use mathlib.Core.List.{map}
use bsv_miner_op_code_calc.Common.{some, ℕ, String, ◌≡◌, List, [], ◌∷◌, ◌++◌, ok, arith}
use bsv_miner_op_code_calc.Bench.Job.{to_string}
use bsv_miner_op_code_calc.Bench.Harness.Measure.{BenchResult}
use bsv_miner_op_code_calc.Bench.Export.{export_csv, export_json}
use bsv_miner_op_code_calc.Bench.Export.Cells.{Text, codes}
use bsv_miner_op_code_calc.Bench.Export.Rows.{read_csv, header, to_string-IsCell}
use bsv_miner_op_code_calc.Bench.Export.Csv.{cells, export_csv-cells}
use bsv_miner_op_code_calc.Bench.Export.ReadBack.{read_row, row_of, export_csv-read_row}
use bsv_miner_op_code_calc.Bench.Export.Json.{json_text, export_json-separated}

abbrev result : String → String → BenchResult ℕ
result opcode param_desc = record {
  opcode = opcode;
  param_desc = param_desc;
  input_bytes = 32;
  median_cycles = 120;
  p90_cycles = 130;
  p99_cycles = 190;
  median_ns = 34;
  instructions = 80;
  ipc = 0;
  l1d_misses = 1;
  llc_misses = 0;
  branch_misses = 2;
  malloc_count = 0;
  alloc_bytes = 0;
}

abbrev two_results : List (BenchResult ℕ)
two_results = result "OP_DUP" "depth=1,item_size=32" ∷ result "OP_CAT" "10B + 10B" ∷ []

export_csv-cells_example :
    read_csv (codes (export_csv to_string two_results))
    ≡ map codes header ∷ map (cells to_string) two_results ++ ([] ∷ []) ∷ []
export_csv-cells_example = export_csv-cells to_string to_string-IsCell two_results (omega arith)

export_json-separated_example :
    export_json to_string two_results ≡ ok (json_text to_string two_results)
export_json-separated_example = export_json-separated to_string two_results (omega arith)

abbrev one_result : List (BenchResult ℕ)
one_result = result "OP_CAT" "10B + 10B" ∷ []

export_csv-read_row_example :
    (rows : List (List Text)) × (read_csv (codes (export_csv to_string one_result))
      ≡ map codes header ∷ rows ++ ([] ∷ []) ∷ [])
    × (map read_row rows ≡ map (λ r. some (row_of to_string r)) one_result)
export_csv-read_row_example =
    export_csv-read_row to_string to_string-IsCell one_result (omega arith)
