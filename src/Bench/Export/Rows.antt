-- ===== src/Bench/Export/Rows.antt =====
-- The lines of the file of `export_csv` of bsv_script_bench/src/bench_harness.cpp, as lists of fields.
use mathlib.Core.List.{map, append_assoc, append-nil}
use bsv_miner_op_code_calc.Common.{
  ℕ, String, ◌≡◌, ◌≢◌, ◌∙◌, refl, ap, sym, List, [], ◌∷◌, ◌++◌, All, arith,
}
use bsv_miner_op_code_calc.Bench.Job.{◌<>◌, to_string, All-append}
use bsv_miner_op_code_calc.Bench.Export.Cells.{
  Text, codes, comma, newline, Lacks, split, codes-append, split-append, split-Lacks,
  to_string-Lacks,
}

abbrev pub read_csv : Text → List (List Text)
read_csv text = map (split comma) (split newline text)

pub read-line :
    (p s : Text) → Lacks newline p → read_csv (p ++ newline ∷ s) ≡ split comma p ∷ read_csv s
read-line p s h = rw (split-append newline p s, split-Lacks newline p h) refl

-- Cells with commas between them.
abbrev pub joined : Text → List Text → Text
joined cell [] = cell
joined cell (next ∷ cells) = cell ++ comma ∷ joined next cells

pub joined-Lacks :
    (cell : Text) (cells : List Text)
    → Lacks newline cell
    → All (Lacks newline) cells
    → Lacks newline (joined cell cells)
joined-Lacks cell [] h hs = h
joined-Lacks cell (next ∷ cells) h (hn, hs) =
    All-append (λ c. c ≢ newline) cell (comma ∷ joined next cells) h
      (ground arith, joined-Lacks next cells hn hs)

pub split-joined :
    (cell : Text) (cells : List Text)
    → All (Lacks comma) cells
    → split comma (joined cell cells) ≡ split comma cell ++ cells
split-joined cell [] hs = sym (append-nil _)
split-joined cell (next ∷ cells) (hn, hs) =
    split-append comma cell (joined next cells)
    ∙ ap (λ (r : List Text). split comma cell ++ r)
        (split-joined next cells hs ∙ rw (split-Lacks comma next hn) refl)

pub joined-extended :
    (cell next : Text) (cells : List Text)
    → joined (cell ++ comma ∷ next) cells ≡ cell ++ comma ∷ joined next cells
joined-extended cell next [] = refl
joined-extended cell next (c ∷ cells) = append_assoc cell (comma ∷ next) (comma ∷ joined c cells)

-- A line whose end is appended to.
abbrev pub line : String → List String → String
line start [] = start
line start (next ∷ fields) = line (start <> "," <> next) fields

pub line-joined :
    (start : String) (fields : List String)
    → codes (line start fields) ≡ joined (codes start) (map codes fields)
line-joined start [] = refl
line-joined start (next ∷ fields) =
    line-joined (start <> "," <> next) fields
    ∙ rw
        (
          codes-append (start <> ",") next,
          codes-append start ",",
          append_assoc (codes start) (comma ∷ []) (codes next),
        )
        (joined-extended (codes start) (codes next) (map codes fields))

-- The text has no separator of cells or lines in it.
abbrev pub IsCell : String → Type 0
IsCell s = Lacks comma (codes s) × Lacks newline (codes s)

pub to_string-IsCell : (n : ℕ) → IsCell (to_string n)
to_string-IsCell n = (to_string-Lacks comma n refl, to_string-Lacks newline n refl)

abbrev pub header : List String
header =
    "opcode" ∷ "param_desc" ∷ "input_bytes" ∷ "median_cycles" ∷ "p90_cycles" ∷ "p99_cycles"
    ∷ "median_ns" ∷ "instructions" ∷ "ipc" ∷ "l1d_misses" ∷ "llc_misses" ∷ "branch_misses"
    ∷ "malloc_count" ∷ "alloc_bytes" ∷ []

abbrev pub title : String
title =
    "opcode,param_desc,input_bytes,median_cycles,p90_cycles,p99_cycles,"
    <> "median_ns,instructions,ipc,l1d_misses,llc_misses,branch_misses,"
    <> "malloc_count,alloc_bytes\n"

-- The first line, without its newline.
abbrev pub title_line : Text
title_line = codes (
    "opcode,param_desc,input_bytes,median_cycles,p90_cycles,p99_cycles,"
    <> "median_ns,instructions,ipc,l1d_misses,llc_misses,branch_misses,"
    <> "malloc_count,alloc_bytes")

pub title-Lacks : Lacks newline title_line
title-Lacks = ground arith

pub title-cells : split comma title_line ≡ map codes header
unfolding split
title-cells = refl

pub title-line : codes title ≡ title_line ++ newline ∷ []
title-line = refl
