-- ===== src/Bench/Main/Analysis.antt =====
-- What `main` of bsv_script_bench/src/bench_hash_ops.cpp hands to `analyze_hash_linearity`: the points that
-- it picks from the results for each opcode.
use text.Mathlib.Text
use mathlib.Core.List.{map}
use bsv_miner_op_code_calc.Common.{
  ℕ, String, suc, ◌*◌, ◌/◌, ◌^◌, ◌<◌, ◌≤◌, ltb, if◌then◌else◌, ◌≡◌, List, [], ◌∷◌, ◌++◌, some,
  sub64, ◌∙◌, ap,
}
use bsv_miner_op_code_calc.Double.{Double, Signed, IsExact, IsRanked}
use bsv_miner_op_code_calc.Bench.Stack.{Bytes}
use bsv_miner_op_code_calc.Common.{Result, Fault}
use bsv_miner_op_code_calc.Bench.Job.{Job, for_each}
use bsv_miner_op_code_calc.Bench.Stats.Sort.{HasRank}
use bsv_miner_op_code_calc.Bench.Hash.{OpenSsl, hash_body}
use bsv_miner_op_code_calc.Bench.Hash.Fit.{points, mul64, LinearModel, analyze_hash_linearity}
use bsv_miner_op_code_calc.Bench.Harness.{BenchmarkHarness}
use bsv_miner_op_code_calc.Bench.Harness.Measure.{BenchResult, Reading}
use bsv_miner_op_code_calc.Bench.Harness.Results.{cycles}
use bsv_miner_op_code_calc.Bench.Main.Complete.{Reports}

-- In each round the clock goes on by less than 2 ^ 37 cycles.
abbrev pub IsBrief : (ℕ → ℕ → Reading) → Type 0
IsBrief readings = (i k : ℕ) → sub64 (readings i k).end (readings i k).start < 2 ^ 37

-- The sizes of the data in bytes, and how often each is measured.
abbrev planned : List (ℕ × ℕ)
planned =
    (1, 1000)
    ∷ (64, 1000)
    ∷ (512, 1000)
    ∷ (4096, 1000)
    ∷ (65_536, 1000)
    ∷ (1_000_000, 1000)
    ∷ (10_000_000, 100)
    ∷ (100_000_000, 50)
    ∷ []

-- A size of at most 10 ^ 8, and the iterations of its benchmark.
abbrev IsPlan : ℕ × ℕ → Type 0
IsPlan p =
    (p.0 ≤ 100_000_000)
    × ((if ltb 10_000_000 p.0 then 50 else if ltb 1_000_000 p.0 then 100 else 1000) ≡ p.1)

-- The index of the benchmark behind those of a plan.
abbrev after : ℕ → List (ℕ × ℕ) → ℕ
after i [] = i
after i (p ∷ plan) = after (suc i) plan

behind {ℓ} :
    {A : Type ℓ} {xs ys zs : List A} (front : List A)
    → xs ≡ front ++ ys
    → ys ≡ zs
    → xs ≡ front ++ zs
behind front e rest = e ∙ ap (λ end. front ++ end) rest

module _ (readings : ℕ → ℕ → Reading) where
  -- The points of one opcode whose benchmarks start with that of index `i`: for each planned size in order
  -- the size and the upper median of the cycles of its own rounds, whose products fit in 64 bits.
  abbrev pub ArePlotted : ℕ → List (ℕ × ℕ) → List (ℕ × ℕ) → Type 0
  ArePlotted i [] [] = Unit
  ArePlotted i ((size, rounds) ∷ plan) ((x, y) ∷ found) =
      (x ≡ size)
      × HasRank (cycles (readings i) rounds 0) (rounds / 2) y
      × (mul64 x y ≡ x * y)
      × (mul64 x x ≡ x * x)
      × ArePlotted (suc i) plan found
  ArePlotted i _ _ = ⊥

  module _ {ℓ} {W : Type ℓ} ⦃d : Double W⦄ ⦃e : Signed W⦄ where
    -- The analysis of an opcode is of such points, and gives a line.
    abbrev pub IsAnalysed : List (BenchResult W) → ℕ → String → Type ℓ
    IsAnalysed results i name =
        ArePlotted i planned (points name results)
        × (line : LinearModel W) × (analyze_hash_linearity results name ≡ some line)

  module _ {ℓ} {W : Type ℓ} ⦃d : Double W⦄ ⦃e : Signed W⦄ (exact : IsExact W)
      (ranked : IsRanked W) where
    abbrev AreFrom : BenchmarkHarness → ℕ → List (Job ℕ) → List (BenchResult W) → Type 0
    AreFrom = Reports exact ranked readings

    module _ (ssl : OpenSsl) where
      abbrev jobs_of : String → (Bytes → Result Fault Bytes) → List (Job ℕ) → List (Job ℕ)
      jobs_of name hash_fn jobs = for_each (map (λ p. p.0) planned) (hash_body name hash_fn) ++ jobs
