-- ===== src/Bench/Export/Csv.antt =====
-- What `export_csv` of bsv_script_bench/src/bench_harness.cpp writes, as its reader sees it.
use mathlib.Core.List.{map, append_assoc}
use bsv_miner_op_code_calc.Common.{String, ◌≡◌, ◌∙◌, refl, ap, List, [], ◌∷◌, ◌++◌, All}
use bsv_miner_op_code_calc.Bench.Job.{to_string}
use bsv_miner_op_code_calc.Bench.Harness.Measure.{BenchResult}
use bsv_miner_op_code_calc.Bench.Export.{csv_row, csv_rows, export_csv}
use bsv_miner_op_code_calc.Bench.Export.Cells.{
  Text, codes, comma, newline, Lacks, split, codes-append, split-append,
}
use bsv_miner_op_code_calc.Bench.Export.Rows.{
  read_csv, read-line, joined, joined-Lacks, split-joined, line, line-joined, IsCell,
  to_string-IsCell, header, title, title_line, title-Lacks, title-cells,
}

module _ {ℓ} {W : Type ℓ} (printed : W → String) where
  -- The fields behind the description.
  abbrev pub measures : BenchResult W → List String
  measures r =
      to_string r.input_bytes
      ∷ to_string r.median_cycles
      ∷ to_string r.p90_cycles
      ∷ to_string r.p99_cycles
      ∷ printed r.median_ns
      ∷ to_string r.instructions
      ∷ printed r.ipc
      ∷ to_string r.l1d_misses
      ∷ to_string r.llc_misses
      ∷ to_string r.branch_misses
      ∷ to_string r.malloc_count
      ∷ to_string r.alloc_bytes
      ∷ []

  abbrev pub cells : BenchResult W → List Text
  cells r =
      split comma (codes r.opcode) ++ (split comma (codes r.param_desc) ++ map codes (measures r))

  module _ (plain : (w : W) → IsCell (printed w)) where
    measures-IsCell : (r : BenchResult W) → All IsCell (measures r)
    measures-IsCell r =
        let number = to_string-IsCell in
        (
          number r.input_bytes,
          (
            number r.median_cycles,
            (
              number r.p90_cycles,
              (
                number r.p99_cycles,
                (
                  plain r.median_ns,
                  (
                    number r.instructions,
                    (
                      plain r.ipc,
                      (
                        number r.l1d_misses,
                        (
                          number r.llc_misses,
                          (
                            number r.branch_misses,
                            (number r.malloc_count, (number r.alloc_bytes, tt)),
                          ),
                        ),
                      ),
                    ),
                  ),
                ),
              ),
            ),
          ),
        )

    -- A line, without its newline.
    row : BenchResult W → Text
    row r = joined (codes r.opcode) (codes r.param_desc ∷ map codes (measures r))

    csv_row-row : (r : BenchResult W) → codes (csv_row printed r) ≡ row r ++ newline ∷ []
    unfolding row
    csv_row-row r =
        codes-append (line r.opcode (r.param_desc ∷ measures r)) "\n"
        ∙ ap (λ (t : Text). t ++ newline ∷ []) (line-joined r.opcode (r.param_desc ∷ measures r))

    All-comma : (fields : List String) → All IsCell fields → All (Lacks comma) (map codes fields)
    All-comma [] hs = tt
    All-comma (f ∷ fields) (h, hs) = (h.0, All-comma fields hs)

    All-newline :
        (fields : List String) → All IsCell fields → All (Lacks newline) (map codes fields)
    All-newline [] hs = tt
    All-newline (f ∷ fields) (h, hs) = (h.1, All-newline fields hs)

    row-Lacks :
        (r : BenchResult W)
        → Lacks newline (codes r.opcode)
        → Lacks newline (codes r.param_desc)
        → Lacks newline (row r)
    unfolding row
    row-Lacks r ho hd =
        joined-Lacks (codes r.opcode) (codes r.param_desc ∷ map codes (measures r)) ho
          (hd, All-newline (measures r) (measures-IsCell r))

    row-cells : (r : BenchResult W) → split comma (row r) ≡ cells r
    unfolding row
    row-cells r =
        split-append comma (codes r.opcode) (joined (codes r.param_desc) (map codes (measures r)))
        ∙ ap (λ (t : List Text). split comma (codes r.opcode) ++ t)
            (split-joined (codes r.param_desc) (map codes (measures r))
              (All-comma (measures r) (measures-IsCell r)))

    -- The opcode and the description hold no newline.
    abbrev pub IsLine : BenchResult W → Type 0
    IsLine r = Lacks newline (codes r.opcode) × Lacks newline (codes r.param_desc)

    read-rows :
        (results : List (BenchResult W))
        → All IsLine results
        → read_csv (codes (csv_rows printed results)) ≡ map cells results ++ ([] ∷ []) ∷ []
    unfolding csv_rows split
    read-rows [] hs = refl
    read-rows (r ∷ results) (h, hs) =
        ap read_csv (
          codes-append (csv_row printed r) (csv_rows printed results)
          ∙ ap (λ (t : Text). t ++ codes (csv_rows printed results)) (csv_row-row r)
          ∙ append_assoc (row r) (newline ∷ []) (codes (csv_rows printed results)))
        ∙ read-line (row r) (codes (csv_rows printed results)) (row-Lacks r h.0 h.1)
        ∙ ap (λ (t : List Text). t ∷ read_csv (codes (csv_rows printed results))) (row-cells r)
        ∙ ap (λ (t : List (List Text)). cells r ∷ t) (read-rows results hs)

    -- Where the printed doubles hold no comma and no newline, and the opcodes and descriptions hold no
    -- newline, the reader of the file sees the header, one line for each result, and an empty line at
    -- the end. A line has the cells of its fields: fourteen, and one more for each comma in the opcode
    -- or in the description, which are not quoted.
    pub export_csv-cells :
        (results : List (BenchResult W))
        → All IsLine results
        → read_csv (codes (export_csv printed results))
          ≡ map codes header ∷ map cells results ++ ([] ∷ []) ∷ []
    unfolding export_csv split
    export_csv-cells results hs =
        ap read_csv (codes-append title (csv_rows printed results))
        ∙ read-line title_line (codes (csv_rows printed results)) title-Lacks
        ∙ ap (λ (t : List Text). t ∷ read_csv (codes (csv_rows printed results))) title-cells
        ∙ ap (λ (t : List (List Text)). map codes header ∷ t) (read-rows results hs)
