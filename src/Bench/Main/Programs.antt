-- ===== src/Bench/Main/Programs.antt =====
-- That the `main` functions of bench_stack_ops.cpp, bench_byte_ops.cpp and bench_hash_ops.cpp of
-- bsv_script_bench/src come to their end.
use bsv_miner_op_code_calc.Common.{
  ℕ, String, zero, suc, ◌^◌, ◌<◌, ltb, Bool, true, false, if◌then◌else◌, ◌≡◌, refl, List, [], ◌∷◌,
  length, All, ok, arith,
}
use bsv_miner_op_code_calc.Double.{Double, Signed, IsExact, IsRanked}
use bsv_miner_op_code_calc.Bench.Job.{Job, runs, All-append}
use bsv_miner_op_code_calc.Bench.Stack.Jobs.{stack_jobs}
use bsv_miner_op_code_calc.Bench.Stack.Measured.{IsSteady, stack_jobs-IsSteady}
use bsv_miner_op_code_calc.Bench.Bytes.Jobs.{
  benchmark_op_cat, benchmark_op_num2bin, benchmark_op_bin2num, benchmark_cat_chain,
}
use bsv_miner_op_code_calc.Bench.Bytes.Split.{benchmark_op_split, benchmark_op_split-IsMeasured}
use bsv_miner_op_code_calc.Bench.Bytes.Measured.{IsMeasured, IsRead, byte_jobs-IsMeasured}
use bsv_miner_op_code_calc.Bench.Hash.{OpenSsl, hash_jobs, benchmark_hash_op}
use bsv_miner_op_code_calc.Bench.Hash.Laws.{IsSized, IsHashed, hash_jobs-IsHashed}
use bsv_miner_op_code_calc.Bench.Harness.{Kernel}
use bsv_miner_op_code_calc.Bench.Harness.Measure.{Reading}
use bsv_miner_op_code_calc.Bench.Main.{byte_jobs, stack_main, byte_main, hash_main}
use bsv_miner_op_code_calc.Bench.Main.Complete.{IsSound, IsCalm, IsComplete, bench_main-IsComplete}

-- The operation throws nothing however often it runs.
abbrev IsSafe {ℓ} : {S : Type ℓ} → Job S → Type ℓ
IsSafe {S = S} job = (n : ℕ) → (final : S) × (runs n job.operation job.captured ≡ ok final)

-- What holds after any number of runs of every benchmark, holds of every benchmark after any number.
All-each {ℓ κ} :
    {A : Type ℓ} (P : ℕ → A → Type κ) (xs : List A)
    → ((n : ℕ) → All (P n) xs)
    → All (λ x. (n : ℕ) → P n x) xs
All-each P [] all = tt
All-each P (x ∷ xs) all = (λ n. (all n).0, All-each P xs λ n. (all n).1)

All-map {ℓ κ μ} :
    {A : Type ℓ} {P : A → Type κ} {Q : A → Type μ} (xs : List A)
    → ((x : A) → P x → Q x)
    → All P xs
    → All Q xs
All-map [] f all = tt
All-map (x ∷ xs) f (p, all) = (f x p, All-map xs f all)

from_suc :
    (job : Job ℕ)
    → ((n : ℕ) → (final : ℕ) × (runs (suc n) job.operation job.captured ≡ ok final))
    → IsSafe job
unfolding runs
from_suc job each zero = (job.captured, refl)
from_suc job each (suc n) = each n

-- A benchmark of numbers is safe where its runs but none end in a number.
ending-IsSafe :
    {P : ℕ → Job ℕ → Type 0} (jobs : List (Job ℕ))
    → ((n : ℕ) (job : Job ℕ)
        → P n job
        → (final : ℕ) × (runs (suc n) job.operation job.captured ≡ ok final))
    → ((n : ℕ) → All (P n) jobs)
    → All IsSafe jobs
ending-IsSafe {P} jobs ends all =
    All-map jobs (λ job each n. from_suc job (λ k. ends k job (each k)) n) (All-each P jobs all)

-- The iterations are some, and few.
abbrev all_by {ℓ} : {A : Type ℓ} → (A → Bool) → List A → Bool
all_by test [] = true
all_by test (x ∷ xs) = if test x then all_by test xs else false

abbrev has_rounds {ℓ} : {S : Type ℓ} → Job S → Bool
has_rounds job = if ltb 0 job.iterations then ltb job.iterations (2 ^ 53) else false

sound {ℓ} :
    {S : Type ℓ} (jobs : List (Job S))
    → all_by has_rounds jobs ≡ true
    → All IsSafe jobs
    → All IsSound jobs
sound [] rounds safe = tt
sound (job ∷ jobs) rounds (s, safe) =
    ((ground arith, ground arith, s), sound jobs (ground arith) safe)

stack-rounds : (all_by has_rounds stack_jobs ≡ true) × (length stack_jobs < 2 ^ 64)
unfolding stack_jobs
stack-rounds = (refl, omega arith)

byte-rounds {ℓ} :
    (W : Type ℓ) ⦃d : Double W⦄
    → (all_by has_rounds (byte_jobs W) ≡ true) × (length (byte_jobs W) < 2 ^ 64)
unfolding byte_jobs benchmark_op_cat benchmark_op_split benchmark_op_num2bin benchmark_op_bin2num
    benchmark_cat_chain
byte-rounds W = (refl, omega arith)

hash-rounds :
    (ssl : OpenSsl) → (all_by has_rounds (hash_jobs ssl) ≡ true) × (length (hash_jobs ssl) < 2 ^ 64)
unfolding hash_jobs benchmark_hash_op
hash-rounds ssl = (refl, omega arith)

stack-IsSafe : All IsSafe stack_jobs
stack-IsSafe =
    All-map stack_jobs (λ job steady n. let (s, ran, _) = steady n in (s, ran))
      (All-each IsSteady stack_jobs stack_jobs-IsSteady)

measured-IsSafe : (jobs : List (Job ℕ)) → ((n : ℕ) → All (IsMeasured n) jobs) → All IsSafe jobs
measured-IsSafe jobs = ending-IsSafe jobs λ n job ran. (job.input_size_bytes, ran)

byte-IsSafe {ℓ} : {W : Type ℓ} ⦃d : Double W⦄ → IsRanked W → All IsSafe (byte_jobs W)
unfolding byte_jobs
byte-IsSafe {W = W} ranked =
    let cat =
      measured-IsSafe benchmark_op_cat λ n. let (h, _, _, _) = byte_jobs-IsMeasured n in h in
    let split = measured-IsSafe (benchmark_op_split W) (benchmark_op_split-IsMeasured ranked) in
    let num2bin =
      measured-IsSafe benchmark_op_num2bin λ n. let (_, h, _, _) = byte_jobs-IsMeasured n in h in
    let bin2num =
      ending-IsSafe {P = IsRead} benchmark_op_bin2num (λ n job ran. (_, ran))
        λ n. let (_, _, h, _) = byte_jobs-IsMeasured n in h in
    let chain =
      measured-IsSafe benchmark_cat_chain λ n. let (_, _, _, h) = byte_jobs-IsMeasured n in h in
    All-append IsSafe _ benchmark_cat_chain
      (All-append IsSafe _ benchmark_op_bin2num
        (All-append IsSafe _ benchmark_op_num2bin
          (All-append IsSafe benchmark_op_cat (benchmark_op_split W) cat split) num2bin)
        bin2num)
      chain

hashed-IsSafe :
    (ssl : OpenSsl) (z : IsSized ssl) (size : ℕ) (jobs : List (Job ℕ))
    → ((n : ℕ) → All (IsHashed ssl z n size) jobs)
    → All IsSafe jobs
hashed-IsSafe ssl z size jobs = ending-IsSafe jobs λ n job ran. (size, ran)

hash-IsSafe : (ssl : OpenSsl) → IsSized ssl → All IsSafe (hash_jobs ssl)
unfolding hash_jobs
hash-IsSafe ssl z =
    let each = hash_jobs-IsHashed ssl z in
    let sha1 = hashed-IsSafe ssl z 20 _ λ n. let (h, _, _, _, _) = each n in h in
    let sha256 = hashed-IsSafe ssl z 32 _ λ n. let (_, h, _, _, _) = each n in h in
    let hash160 = hashed-IsSafe ssl z 20 _ λ n. let (_, _, h, _, _) = each n in h in
    let hash256 = hashed-IsSafe ssl z 32 _ λ n. let (_, _, _, h, _) = each n in h in
    let ripemd160 = hashed-IsSafe ssl z 20 _ λ n. let (_, _, _, _, h) = each n in h in
    All-append IsSafe _ _
      (All-append IsSafe _ _ (All-append IsSafe _ _ (All-append IsSafe _ _ sha1 sha256) hash160)
        hash256)
      ripemd160

-- Where the doubles are exact on whole numbers below 2 ^ 53 and percentages of sizes are indices, with
-- digests of the documented sizes, and where in each round the clock goes on by less than 2 ^ 53 cycles:
-- each program ends, whichever counters the system opens. It has one result for each benchmark, in
-- order, the result of that benchmark's own rounds; it uses and closes just the descriptors that it
-- opened; and both files have the text of the results.
pub programs-IsComplete {ℓ} :
    {W : Type ℓ} ⦃d : Double W⦄ ⦃e : Signed W⦄ (exact : IsExact W) (ranked : IsRanked W)
    (ssl : OpenSsl) (sized : IsSized ssl) (kernel : Kernel) (printed : W → String)
    (readings : ℕ → ℕ → Reading)
    → IsCalm readings
    → IsComplete exact ranked readings kernel printed stack_jobs
        (stack_main kernel printed readings)
      × IsComplete exact ranked readings kernel printed
          (byte_jobs W)
          (byte_main kernel printed readings)
      × IsComplete exact ranked readings kernel printed
          (hash_jobs ssl)
          (hash_main kernel printed readings ssl)
unfolding stack_main byte_main hash_main
programs-IsComplete {W = W} exact ranked ssl sized kernel printed readings calm =
    let (stack_some, stack_few) = stack-rounds in
    let (byte_some, byte_few) = byte-rounds W in
    let (hash_some, hash_few) = hash-rounds ssl in
    (
      bench_main-IsComplete exact ranked readings kernel printed stack_jobs calm
          (sound stack_jobs stack_some stack-IsSafe) stack_few,
      bench_main-IsComplete exact ranked readings kernel printed (byte_jobs W) calm
          (sound (byte_jobs W) byte_some (byte-IsSafe ranked)) byte_few,
      bench_main-IsComplete exact ranked readings kernel printed (hash_jobs ssl) calm
          (sound (hash_jobs ssl) hash_some (hash-IsSafe ssl sized)) hash_few,
    )
