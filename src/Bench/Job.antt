-- ===== src/Bench/Job.antt =====
-- What a benchmark hands to `BenchmarkHarness::benchmark` of bsv_script_bench/src/bench_harness.h: the
-- arguments of a call, and the runs of its operation.
use native.Mathlib.Nat.{zero-add, suc-add}
pub use bsv_miner_op_code_calc.Common.{◌<>◌, digit, decimals, to_string}
use bsv_miner_op_code_calc.Common.{
  ℕ, String, zero, suc, List, [], ◌∷◌, ◌≡◌, refl, ◌++◌, All, ◌+◌, >>=->>=, ok, ◌>>=◌,
}
use bsv_miner_op_code_calc.Bench.Exception.{Throws}

-- A call of `benchmark`, with the variables that its operation captures as a state of type `S`.
pub record Job {ℓ} (S : Type ℓ) : Type ℓ where
  pub opcode_name : String
  pub param_description : String
  pub input_size_bytes : ℕ
  pub captured : S
  pub operation : S → Throws S
  pub iterations : ℕ
  pub warmup_iterations : ℕ

-- A `for` over the elements of a vector, whose body calls `benchmark` some times.
abbrev pub for_each {ℓ κ} : {A : Type ℓ} {B : Type κ} → List A → (A → List B) → List B
for_each [] body = []
for_each (x ∷ xs) body = body x ++ for_each xs body

-- The operation, as many times as a loop of `benchmark` runs it.
unfoldable pub runs {ℓ} : {S : Type ℓ} → ℕ → (S → Throws S) → S → Throws S
runs zero operation s = ok s
runs (suc n) operation s = operation s >>= runs n operation

pub All-append {ℓ κ} :
    {A : Type ℓ} (P : A → Type κ) (xs ys : List A) → All P xs → All P ys → All P (xs ++ ys)
All-append P [] ys px py = py
All-append P (x ∷ xs) ys px py = (px.0, All-append P xs ys px.1 py)

pub All-Unit {ℓ} : {A : Type ℓ} (xs : List A) → All (λ _. Unit {0}) xs
All-Unit [] = tt
All-Unit (x ∷ xs) = (tt, All-Unit xs)

-- What every body gives, the loop gives.
pub All-for_each {ℓ κ ℓp ℓq} :
    {A : Type ℓ} {B : Type κ} (Q : A → Type ℓq) (P : B → Type ℓp) (xs : List A) (body : A → List B)
    → All Q xs
    → ((x : A) → Q x → All P (body x))
    → All P (for_each xs body)
All-for_each Q P [] body qs each = tt
All-for_each Q P (x ∷ xs) body qs each =
    All-append P (body x) (for_each xs body) (each x qs.0) (All-for_each Q P xs body qs.1 each)

-- The same of two loops, one in the other.
pub All-grid {ℓ κ μ ℓp ℓq} :
    {A : Type ℓ} {B : Type κ} {C : Type μ} (Q : A → Type ℓq) (P : C → Type ℓp) (xs : List A)
    (ys : List B) (body : A → B → List C)
    → All Q xs
    → ((x : A) (y : B) → Q x → All P (body x y))
    → All P (for_each xs λ x. for_each ys (body x))
All-grid Q P xs ys body qs each =
    All-for_each Q P xs (λ x. for_each ys (body x)) qs
      λ x q. All-for_each (λ _. Unit {0}) P ys (body x) (All-Unit ys) λ y _. each x y q

-- A property that a run keeps holds after any number of runs, none of which throws.
pub runs-keeps {ℓ κ} :
    {S : Type ℓ} (Keeps : S → Type κ) (operation : S → Throws S)
    → ((s : S) → Keeps s → (s' : S) × (operation s ≡ ok s') × Keeps s')
    → (n : ℕ) (s : S) → Keeps s
    → (s' : S) × (runs n operation s ≡ ok s') × Keeps s'
unfolding runs
runs-keeps Keeps operation keep zero s k = (s, refl, k)
runs-keeps Keeps operation keep (suc n) s k =
    let (s1, once, k1) = keep s k in
    let (s2, more, k2) = runs-keeps Keeps operation keep n s1 k1 in (s2, rw (once, more) refl, k2)

-- One loop and then another is one loop of as many rounds.
pub runs-add {ℓ} :
    {S : Type ℓ} (m n : ℕ) (operation : S → Throws S) (s : S)
    → (runs m operation s >>= runs n operation) ≡ runs (m + n) operation s
unfolding runs
runs-add zero n operation s = rw zero-add refl
runs-add (suc m) n operation s =
    rw suc-add (>>=->>= (operation s) _ _ λ s'. runs-add m n operation s')

-- An operation that makes the same whatever was made before.
pub runs-same :
    (operation : ℕ → Throws ℕ) (size : ℕ)
    → ((s : ℕ) → operation s ≡ ok size)
    → (n s : ℕ) → runs (suc n) operation s ≡ ok size
unfolding runs
runs-same operation size same zero s = rw same refl
runs-same operation size same (suc n) s = rw (same s) (runs-same operation size same n size)
