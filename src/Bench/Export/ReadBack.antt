-- ===== src/Bench/Export/ReadBack.antt =====
-- That a reader of the file of `export_csv` of bsv_script_bench/src/bench_harness.cpp gets the results
-- back.
use mathlib.Core.List.{map}
use bsv_miner_op_code_calc.Common.{
  ℕ, String, ◌^◌, ◌<◌, ◌≡◌, ◌∙◌, refl, ap, Option, none, some, List, [], ◌∷◌, ◌++◌, All, to_string,
}
use bsv_miner_op_code_calc.Bench.Harness.Measure.{BenchResult}
use bsv_miner_op_code_calc.Bench.Export.{export_csv}
use bsv_miner_op_code_calc.Bench.Export.Cells.{Text, codes, comma, split-Lacks}
use bsv_miner_op_code_calc.Bench.Export.Numbers.{value, to_string-value}
use bsv_miner_op_code_calc.Bench.Export.Rows.{read_csv, header, IsCell}
use bsv_miner_op_code_calc.Bench.Export.Csv.{IsLine, measures, cells, export_csv-cells}

-- A line of the table: its texts, its whole numbers, and its doubles as they are printed.
pub record Row : Type 0 where
  pub opcode : Text
  pub param_desc : Text
  pub numbers : List ℕ
  pub doubles : List Text

abbrev pub read_row : List Text → Option Row
read_row (opcode ∷ param_desc ∷ a ∷ b ∷ c ∷ d ∷ ns ∷ e ∷ ipc ∷ f ∷ g ∷ h ∷ i ∷ j ∷ []) =
    some (record {
      opcode = opcode;
      param_desc = param_desc;
      numbers =
          value a
          ∷ value b
          ∷ value c
          ∷ value d
          ∷ value e
          ∷ value f
          ∷ value g
          ∷ value h
          ∷ value i
          ∷ value j
          ∷ [];
      doubles = ns ∷ ipc ∷ [];
    })
read_row _ = none

module _ {ℓ} {W : Type ℓ} (printed : W → String) where
  abbrev pub numbers_of : BenchResult W → List ℕ
  numbers_of r =
      r.input_bytes ∷ r.median_cycles ∷ r.p90_cycles ∷ r.p99_cycles ∷ r.instructions ∷ r.l1d_misses
      ∷ r.llc_misses ∷ r.branch_misses ∷ r.malloc_count ∷ r.alloc_bytes ∷ []

  abbrev pub row_of : BenchResult W → Row
  row_of r = record {
    opcode = codes r.opcode;
    param_desc = codes r.param_desc;
    numbers = numbers_of r;
    doubles = codes (printed r.median_ns) ∷ codes (printed r.ipc) ∷ [];
  }

  -- The opcode and the description hold no separator, and the numbers are words.
  abbrev pub IsPlain : BenchResult W → Type 0
  IsPlain r = IsCell r.opcode × IsCell r.param_desc × All (λ n. n < 2 ^ 64) (numbers_of r)

  plain-cells :
      (r : BenchResult W)
      → IsCell r.opcode
      → IsCell r.param_desc
      → cells printed r ≡ codes r.opcode ∷ codes r.param_desc ∷ map codes (measures printed r)
  plain-cells r (ho, _) (hd, _) =
      rw (split-Lacks comma (codes r.opcode) ho, split-Lacks comma (codes r.param_desc) hd) refl

  values : (ns : List ℕ) → All (λ n. n < 2 ^ 64) ns → map (λ n. value (codes (to_string n))) ns ≡ ns
  values [] words = refl
  values (n ∷ ns) (word, words) = rw (to_string-value n word, values ns words) refl

  read-cells : (r : BenchResult W) → IsPlain r → read_row (cells printed r) ≡ some (row_of r)
  read-cells r (ho, hd, words) =
      ap read_row (plain-cells r ho hd)
      ∙ ap
          (λ (ns : List ℕ). some (record {
            opcode = codes r.opcode;
            param_desc = codes r.param_desc;
            numbers = ns;
            doubles = codes (printed r.median_ns) ∷ codes (printed r.ipc) ∷ [];
          }))
          (values (numbers_of r) words)

  module _ (plain : (w : W) → IsCell (printed w)) where
    plain-lines :
        (results : List (BenchResult W)) → All IsPlain results → All (IsLine printed plain) results
    plain-lines [] hs = tt
    plain-lines (r ∷ results) ((ho, hd, _), hs) = ((ho.1, hd.1), plain-lines results hs)

    rows-back :
        (results : List (BenchResult W))
        → All IsPlain results
        → map read_row (map (cells printed) results) ≡ map (λ r. some (row_of r)) results
    rows-back [] hs = refl
    rows-back (r ∷ results) (h, hs) = rw (read-cells r h, rows-back results hs) refl

    -- Where the printed doubles, the opcodes and the descriptions hold no comma and no newline, and the
    -- numbers are words, the lines between the header and the end of the file are read back to the
    -- results: their texts, their numbers, and their doubles as they were printed.
    pub export_csv-read_row :
        (results : List (BenchResult W))
        → All IsPlain results
        → (rows : List (List Text)) × (read_csv (codes (export_csv printed results))
            ≡ map codes header ∷ rows ++ ([] ∷ []) ∷ [])
          × (map read_row rows ≡ map (λ r. some (row_of r)) results)
    export_csv-read_row results hs = (
      map (cells printed) results,
      export_csv-cells printed plain results (plain-lines results hs),
      rows-back results hs,
    )
