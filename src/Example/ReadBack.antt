-- ===== src/Example/ReadBack.antt =====
-- That a reader finds each value of an estimate in the text that `print_estimate` of
-- libbsv_cost_estimator/examples/estimate_tx.cpp prints.
use mathlib.Core.List.{map, append_assoc, append-nil}
use bsv_miner_op_code_calc.Common.{
  ℕ, String, ◌≡◌, ◌∙◌, refl, ap, sym, none, some, arith, List, [], ◌∷◌, ◌++◌, All, ◌<>◌, to_string,
}
use bsv_miner_op_code_calc.Double.{Double}
use bsv_miner_op_code_calc.Estimate.Machine.{CostEstimate}
use bsv_miner_op_code_calc.Bench.Export.Cells.{
  Text, codes, newline, Lacks, codes-append, to_string-Lacks, split, split-append, split-Lacks,
}
use bsv_miner_op_code_calc.Example.{print_estimate, warning_lines, warning_text}
use bsv_miner_op_code_calc.Example.Reading.{
  strip, behind, read_fields, read_fields-field, read_fields-nil,
}

abbrev pub space : ℕ
space = 32

-- The labels of an estimate, each with what ends its value.
abbrev pub labels : List (String × ℕ)
labels =
    ("Total Cycles: ", newline)
    ∷ ("Estimated Fee: ", space)
    ∷ ("Parsing:      ", space)
    ∷ ("Dispatch:     ", space)
    ∷ ("Stack Ops:    ", space)
    ∷ ("Byte Ops:     ", space)
    ∷ ("Hashing:      ", space)
    ∷ ("Signatures:   ", space)
    ∷ ("Peak Stack:   ", space)
    ∷ ("bytes (", space)
    ∷ ("Signatures:   ", newline)
    ∷ ("Opcodes:      ", newline)
    ∷ []

-- Pieces that are printed one after the other.
abbrev printed_on : String → List String → String
printed_on text [] = text
printed_on text (piece ∷ pieces) = printed_on (text <> piece) pieces

abbrev texts : List String → Text
texts [] = []
texts (piece ∷ pieces) = codes piece ++ texts pieces

printed_on-texts :
    (text : String) (pieces : List String)
    → codes (printed_on text pieces) ≡ codes text ++ texts pieces
printed_on-texts text [] = sym (append-nil (codes text))
printed_on-texts text (piece ∷ pieces) =
    printed_on-texts (text <> piece) pieces
    ∙ ap (λ (s : Text). s ++ texts pieces) (codes-append text piece)
    ∙ append_assoc (codes text) (codes piece) (texts pieces)

module _ (t fee pa di st by ha si pb pi sc oc w : String) where
  -- What is printed behind the title.
  abbrev pieces : List String
  pieces =
      "Total Cycles: " ∷ t ∷ "\n" ∷ "Estimated Fee: " ∷ fee ∷ " compute units\n" ∷ "\nBreakdown:\n"
      ∷ "  Parsing:      " ∷ pa ∷ " cycles\n" ∷ "  Dispatch:     " ∷ di ∷ " cycles\n"
      ∷ "  Stack Ops:    " ∷ st ∷ " cycles\n" ∷ "  Byte Ops:     " ∷ by ∷ " cycles\n"
      ∷ "  Hashing:      " ∷ ha ∷ " cycles\n" ∷ "  Signatures:   " ∷ si ∷ " cycles\n"
      ∷ "\nResource Usage:\n" ∷ "  Peak Stack:   " ∷ pb ∷ " bytes (" ∷ pi ∷ " items)\n"
      ∷ "  Signatures:   " ∷ sc ∷ "\n" ∷ "  Opcodes:      " ∷ oc ∷ "\n" ∷ w ∷ []

  pieces-read_fields :
      Lacks newline (codes t)
      → Lacks space (codes fee)
      → Lacks space (codes pa)
      → Lacks space (codes di)
      → Lacks space (codes st)
      → Lacks space (codes by)
      → Lacks space (codes ha)
      → Lacks space (codes si)
      → Lacks space (codes pb)
      → Lacks space (codes pi)
      → Lacks newline (codes sc)
      → Lacks newline (codes oc)
      → read_fields labels (codes "\n=== Cost Estimate ===\n" ++ texts pieces)
        ≡ some (
          codes t
              ∷ codes fee
              ∷ codes pa
              ∷ codes di
              ∷ codes st
              ∷ codes by
              ∷ codes ha
              ∷ codes si
              ∷ codes pb
              ∷ codes pi
              ∷ codes sc
              ∷ codes oc
              ∷ [],
          codes w ++ [],
        )
  unfolding behind
  pieces-read_fields ht hfee hpa hdi hst hby hha hsi hpb hpi hsc hoc =
      read_fields-field "Total Cycles: " newline _ _ (codes t) _ refl ht (
        read_fields-field "Estimated Fee: " space _ _ (codes fee) _ refl hfee (
          read_fields-field "Parsing:      " space _ _ (codes pa) _ refl hpa (
            read_fields-field "Dispatch:     " space _ _ (codes di) _ refl hdi (
              read_fields-field "Stack Ops:    " space _ _ (codes st) _ refl hst (
                read_fields-field "Byte Ops:     " space _ _ (codes by) _ refl hby (
                  read_fields-field "Hashing:      " space _ _ (codes ha) _ refl hha (
                    read_fields-field "Signatures:   " space _ _ (codes si) _ refl hsi (
                      read_fields-field "Peak Stack:   " space _ _ (codes pb) _ refl hpb (
                        read_fields-field "bytes (" space _ _ (codes pi) _ refl hpi (
                          read_fields-field "Signatures:   " newline _ _ (codes sc) _ refl hsc (
                            read_fields-field "Opcodes:      " newline _ _ (codes oc) _ refl hoc
                              (read_fields-nil _))))))))))))

-- The warnings are on lines that begin with a dash.
abbrev pub kept : List Text → List Text
kept [] = []
kept (l ∷ lines) =
    let others = kept lines in
    elim (strip (codes "  - ") l) [ none ↦ others | some warning ↦ warning ∷ others ]

abbrev pub read_warnings : Text → List Text
read_warnings text = kept (split newline text)

abbrev pub AreLines : List String → Type 0
AreLines = All λ s. Lacks newline (codes s)

warning_lines-read_warnings :
    (ws : List String) → AreLines ws → read_warnings (codes (warning_lines ws)) ≡ map codes ws
unfolding split
warning_lines-read_warnings [] h = refl
warning_lines-read_warnings (w ∷ ws) (h, hs) =
    ap read_warnings (
      codes-append ("  - " <> w <> "\n") (warning_lines ws)
      ∙ ap (λ (s : Text). s ++ codes (warning_lines ws))
          (codes-append ("  - " <> w) "\n"
            ∙ ap (λ (s : Text). s ++ newline ∷ []) (codes-append "  - " w))
      ∙ append_assoc (codes "  - " ++ codes w) (newline ∷ []) (codes (warning_lines ws)))
    ∙ ap kept (split-append newline (codes "  - " ++ codes w) (codes (warning_lines ws)))
    ∙ ap (λ (ls : List Text). kept (ls ++ split newline (codes (warning_lines ws))))
        (split-Lacks newline (codes "  - " ++ codes w) (ground (arith, h)))
    ∙ ap (λ (ls : List Text). codes w ∷ ls) (warning_lines-read_warnings ws hs)

warning_text-read_warnings :
    (ws : List String) → AreLines ws → read_warnings (codes (warning_text ws)) ≡ map codes ws
unfolding split
warning_text-read_warnings [] h = refl
warning_text-read_warnings (w ∷ ws) h =
    ap read_warnings (codes-append "\nWarnings:\n" (warning_lines (w ∷ ws)))
    ∙ warning_lines-read_warnings (w ∷ ws) h

module _ {ℓ} {W : Type ℓ} ⦃d : Double W⦄ (printed : W → String) where
  -- The values that the labels stand before.
  abbrev pub values : CostEstimate → List Text
  values est =
      codes (to_string est.total_cycles)
      ∷ codes (printed (d.div (d.of_u64 est.total_cycles) (d.of_u64 100_000)))
      ∷ codes (to_string est.breakdown.parsing)
      ∷ codes (to_string est.breakdown.dispatch)
      ∷ codes (to_string est.breakdown.stack_ops)
      ∷ codes (to_string est.breakdown.byte_ops)
      ∷ codes (to_string est.breakdown.hashing)
      ∷ codes (to_string est.breakdown.signatures)
      ∷ codes (to_string est.peak_stack_bytes)
      ∷ codes (to_string est.peak_stack_items)
      ∷ codes (to_string est.signature_count)
      ∷ codes (to_string est.opcode_count)
      ∷ []

  -- Read from a text, the values and the warnings are those of the estimate.
  abbrev pub IsRead : String → CostEstimate → Type 0
  IsRead text est =
      (left : Text) × (read_fields labels (codes text) ≡ some (values est, left))
      × (read_warnings left ≡ map codes est.warnings)

  -- Where the printed fee holds no space, and no warning a newline, a reader of the text finds every
  -- value behind its label, and the warnings.
  pub print_estimate-IsRead :
      (est : CostEstimate)
      → Lacks space (codes (printed (d.div (d.of_u64 est.total_cycles) (d.of_u64 100_000))))
      → AreLines est.warnings
      → IsRead (print_estimate printed est) est
  unfolding print_estimate
  print_estimate-IsRead est plain lines = (
    codes (warning_text est.warnings) ++ [],
    ap (read_fields labels) (
          printed_on-texts "\n=== Cost Estimate ===\n" (
            pieces (to_string est.total_cycles)
              (printed (d.div (d.of_u64 est.total_cycles) (d.of_u64 100_000)))
              (to_string est.breakdown.parsing) (to_string est.breakdown.dispatch)
              (to_string est.breakdown.stack_ops) (to_string est.breakdown.byte_ops)
              (to_string est.breakdown.hashing) (to_string est.breakdown.signatures)
              (to_string est.peak_stack_bytes) (to_string est.peak_stack_items)
              (to_string est.signature_count) (to_string est.opcode_count)
              (warning_text est.warnings)))
        ∙ pieces-read_fields (to_string est.total_cycles)
            (printed (d.div (d.of_u64 est.total_cycles) (d.of_u64 100_000)))
            (to_string est.breakdown.parsing) (to_string est.breakdown.dispatch)
            (to_string est.breakdown.stack_ops) (to_string est.breakdown.byte_ops)
            (to_string est.breakdown.hashing) (to_string est.breakdown.signatures)
            (to_string est.peak_stack_bytes) (to_string est.peak_stack_items)
            (to_string est.signature_count) (to_string est.opcode_count) (warning_text est.warnings)
            (to_string-Lacks newline est.total_cycles refl) plain
            (to_string-Lacks space est.breakdown.parsing refl)
            (to_string-Lacks space est.breakdown.dispatch refl)
            (to_string-Lacks space est.breakdown.stack_ops refl)
            (to_string-Lacks space est.breakdown.byte_ops refl)
            (to_string-Lacks space est.breakdown.hashing refl)
            (to_string-Lacks space est.breakdown.signatures refl)
            (to_string-Lacks space est.peak_stack_bytes refl)
            (to_string-Lacks space est.peak_stack_items refl)
            (to_string-Lacks newline est.signature_count refl)
            (to_string-Lacks newline est.opcode_count refl),
    ap read_warnings (append-nil (codes (warning_text est.warnings)))
        ∙ warning_text-read_warnings est.warnings lines,
  )
