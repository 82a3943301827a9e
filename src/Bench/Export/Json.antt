-- ===== src/Bench/Export/Json.antt =====
-- What `export_json` of bsv_script_bench/src/bench_harness.cpp writes.
use mathlib.Core.List.{map}
use text.Mathlib.TextLemmas.{append-nil}
use bsv_miner_op_code_calc.Common.{
  ℕ, Bool, String, suc, ◌+◌, ◌^◌, ◌<◌, true, false, ltb, ◌≡◌, ◌∙◌, refl, ap, sym, List, [], ◌∷◌,
  length, get_elem?, some, sub64, if◌then◌else◌, ok, arith,
}
use bsv_miner_op_code_calc.Bench.Job.{◌<>◌}
use bsv_miner_op_code_calc.Bench.Harness.Measure.{BenchResult}
use bsv_miner_op_code_calc.Bench.Export.{json_object, json_objects, export_json}

-- Items on lines of their own, with a comma behind each but the last.
abbrev pub separated : List String → String
separated [] = ""
separated (s ∷ []) = s <> "\n"
separated (s ∷ t ∷ more) = s <> "," <> "\n" <> separated (t ∷ more)

add-zero : (i : ℕ) → i + 0 ≡ i
add-zero i = omega arith

add-shift : (i j : ℕ) → suc i + j ≡ i + suc j
add-shift i j = omega arith

-- An array of the objects.
abbrev pub json_text {ℓ} : {W : Type ℓ} → (W → String) → List (BenchResult W) → String
json_text printed results =
    "{\n  \"benchmarks\": [\n" <> separated (map (json_object printed) results) <> "  ]\n}\n"

module _ {ℓ} {W : Type ℓ} (printed : W → String) (results : List (BenchResult W)) where
  last-ltb :
      (i : ℕ)
      → i + 1 ≡ length results
      → length results < 2 ^ 64
      → ltb i (sub64 (length results) 1) ≡ false
  last-ltb i e word = ground arith

  inner-ltb :
      (i left : ℕ)
      → i + suc (suc left) ≡ length results
      → length results < 2 ^ 64
      → ltb i (sub64 (length results) 1) ≡ true
  inner-ltb i left e word = ground arith

  object_step :
      (left i : ℕ) (separator text : String) {r : BenchResult W}
      → get_elem? results i ≡ some r
      → (if ltb i (sub64 (length results) 1) then "," else "") ≡ separator
      → json_objects printed results left (suc i) ≡ ok text
      → json_objects printed results (suc left) i
        ≡ ok (json_object printed r <> separator <> "\n" <> text)
  unfolding json_objects
  object_step left i separator text read test more = rw (read, test, more) refl

  json_objects-separated :
      (rest : List (BenchResult W)) (i : ℕ)
      → ((j : ℕ) → get_elem? results (i + j) ≡ get_elem? rest j)
      → i + length rest ≡ length results
      → length results < 2 ^ 64
      → json_objects printed results (length rest) i
        ≡ ok (separated (map (json_object printed) rest))
  unfolding json_objects
  json_objects-separated [] i there size word = refl
  json_objects-separated (r ∷ []) i there size word =
      let first = ap (get_elem? results) (sym (add-zero i)) ∙ there 0 in
      let alone : (if ltb i (sub64 (length results) 1) then "," else "") ≡ "" =
        ap (λ (b : Bool). if b then "," else "") (last-ltb i (omega arith) word) in
      let text = json_object printed r in
      object_step 0 i "" "" first alone refl
      ∙ ap (λ t. ok t) (append-nil (text <> "" <> "\n") ∙ ap (λ t. t <> "\n") (append-nil text))
  json_objects-separated (r ∷ next ∷ rest) i there size word =
      let first = ap (get_elem? results) (sym (add-zero i)) ∙ there 0 in
      let test = inner-ltb i (length rest) (omega arith) word in
      let inner : (if ltb i (sub64 (length results) 1) then "," else "") ≡ "," =
        ap (λ (b : Bool). if b then "," else "") test in
      let next_there = λ (j : ℕ). ap (get_elem? results) (add-shift i j) ∙ there (suc j) in
      object_step (suc (length rest)) i "," _ first inner
        (json_objects-separated (next ∷ rest) (suc i) next_there (omega arith) word)

  -- The file has the objects of the results in their order, a comma behind each but the last; no read is
  -- outside the results.
  pub export_json-separated :
      length results < 2 ^ 64 → export_json printed results ≡ ok (json_text printed results)
  unfolding export_json
  export_json-separated word =
      rw
        (json_objects-separated results 0 (λ j. ap (get_elem? results) (omega arith)) (omega arith)
          word)
        refl
