-- ===== src/Example/Ending.antt =====
-- How libbsv_cost_estimator/examples/estimate_tx.cpp ends.
use bsv_miner_op_code_calc.Estimate.Sample.{sample_tx}
use bsv_miner_op_code_calc.Program.{Instr, decode, final_stack}
use bsv_miner_op_code_calc.Program.Limits.{Ending}
use bsv_miner_op_code_calc.Program.Outcome.{IsAdmitted, estimate-Ending}
use bsv_miner_op_code_calc.Bench.Export.Cells.{Lacks, codes}
use bsv_miner_op_code_calc.Example.ReadBack.{AreLines, space, IsRead, print_estimate-IsRead}
use bsv_miner_op_code_calc.Common.{
  List, inl, inr, ℕ, String, zero, suc, ◌-◌, ◌≤◌, ◌<◌, ◌^◌, ◌≡◌, refl, Option, [], ◌∷◌, ◌++◌,
  length, length-append, replicate, take, All, ◌<>◌, Result, ok, err, Fault, arith,
}
use bsv_miner_op_code_calc.Double.{Double}
use bsv_miner_op_code_calc.OpCode.{op_dup, op_hash160, to_byte}
use bsv_miner_op_code_calc.Tx.{Script, Transaction}
use bsv_miner_op_code_calc.Model.{CostType, Impl}
use bsv_miner_op_code_calc.Model.Load.{LoadError, Json, load_model}
use bsv_miner_op_code_calc.Estimate.Machine.{CostEstimate, EstimatorLimits, default_limits}
use bsv_miner_op_code_calc.Estimate.Loop.{start, estimate}
use bsv_miner_op_code_calc.Program.Run.{executed, specified}
use bsv_miner_op_code_calc.Program.Refine.{estimate-specified}
use bsv_miner_op_code_calc.Example.{
  resize, create_sample_transaction, p2pkh_unlocking, p2pkh_locking, cat_unlocking, cat_locking,
  hash_unlocking, hash_locking, print_estimate, Exit, what, model_path, example_main,
}

-- A script of bytes, shorter than 2 ^ 20.
abbrev IsShort : Script → Type 0
IsShort script = All (λ n. n < 256) script × (length script < 2 ^ 20)

append-IsByte :
    (xs ys : Script) → All (λ n. n < 256) xs → All (λ n. n < 256) ys → All (λ n. n < 256) (xs ++ ys)
append-IsByte [] ys hx hy = hy
append-IsByte (x ∷ xs) ys (h, hx) hy = (h, append-IsByte xs ys hx hy)

zeros-IsByte : (n : ℕ) → All (λ b. b < 256) (replicate n 0)
zeros-IsByte zero = tt
zeros-IsByte (suc n) = (omega arith, zeros-IsByte n)

take-IsByte : (n : ℕ) (xs : Script) → All (λ b. b < 256) xs → All (λ b. b < 256) (take n xs)
take-IsByte zero xs h = tt
take-IsByte (suc n) [] h = tt
take-IsByte (suc n) (x ∷ xs) (h, hs) = (h, take-IsByte n xs hs)

length-take_le : (n : ℕ) (xs : Script) → length (take n xs) ≤ n
length-take_le zero xs = omega arith
length-take_le (suc n) [] = omega arith
length-take_le (suc n) (x ∷ xs) = omega (arith, length-take_le n xs)

resize-IsShort : (n : ℕ) (bytes : Script) → n < 2 ^ 20 → IsShort bytes → IsShort (resize n bytes)
unfolding resize
resize-IsShort n bytes few (h, short) =
    let longer = bytes ++ replicate (n - length bytes) 0 in
    (
      take-IsByte n longer (
          append-IsByte bytes (replicate (n - length bytes) 0) h (zeros-IsByte (n - length bytes))),
      omega (arith, length-take_le n longer),
    )

p2pkh-IsShort : IsShort p2pkh_unlocking × IsShort p2pkh_locking
unfolding p2pkh_unlocking p2pkh_locking to_byte
p2pkh-IsShort = (
  resize-IsShort 106 (0x47 ∷ 0x21 ∷ []) (omega arith) (omega arith),
  resize-IsShort 25 (to_byte op_dup ∷ to_byte op_hash160 ∷ 0x14 ∷ []) (omega arith) (omega arith),
)

cat-IsShort : IsShort cat_unlocking × IsShort cat_locking
unfolding cat_unlocking cat_locking to_byte
cat-IsShort =
    (resize-IsShort 1026 (0x4c ∷ 0xff ∷ 0x03 ∷ []) (omega arith) (omega arith), omega arith)

hash-IsShort : IsShort hash_unlocking × IsShort hash_locking
unfolding hash_unlocking hash_locking to_byte
hash-IsShort = (resize-IsShort 33 (0x20 ∷ []) (omega arith) (omega arith), omega arith)

-- The scripts, byte by byte.
p2pkh-bytes :
    (p2pkh_unlocking ≡ 0x47 ∷ 0x21 ∷ replicate 104 0)
    × (p2pkh_locking ≡ 0x76 ∷ 0xa9 ∷ 0x14 ∷ replicate 22 0)
unfolding p2pkh_unlocking p2pkh_locking to_byte
p2pkh-bytes = (refl, refl)

cat-bytes :
    (cat_unlocking ≡ 0x4c ∷ 0xff ∷ 0x03 ∷ replicate 1023 0)
    × (cat_locking ≡ 0x76 ∷ 0x7e ∷ 0xa8 ∷ [])
unfolding cat_unlocking cat_locking to_byte
cat-bytes = (refl, refl)

hash-bytes :
    (hash_unlocking ≡ 0x20 ∷ replicate 32 0) × (hash_locking ≡ 0xa8 ∷ 0xa8 ∷ 0xa8 ∷ 0xaa ∷ [])
unfolding hash_unlocking hash_locking to_byte
hash-bytes = (refl, refl)

sample_tx-bytes : create_sample_transaction ≡ sample_tx
unfolding create_sample_transaction to_byte
sample_tx-bytes = refl

Ending-AreLines {ℓ} :
    {W : Type ℓ} ⦃d : Double W⦄ (impl : Impl W) (tx : Transaction) (limits : EstimatorLimits)
    (is done : List Instr) (r : CostEstimate) (stack : List ℕ)
    → Ending impl tx limits [] is done r stack
    → AreLines r.warnings
Ending-AreLines impl tx limits is done r stack (inl completed) = rw completed.no_warning tt
Ending-AreLines impl tx limits is done r stack (inr (inl (e, _))) = rw e (ground arith)
Ending-AreLines impl tx limits is done r stack (inr (inr (inl (e, _)))) = rw e (ground arith)
Ending-AreLines impl tx limits is done r stack (inr (inr (inr (e, _)))) = rw e (ground arith)

module _ {ℓ} {W : Type ℓ} ⦃d : Double W⦄ (impl : Impl W) where
  -- What the specification gives for two scripts of the transaction.
  abbrev pub spec : Script → Script → CostEstimate
  spec = specified impl sample_tx default_limits

  -- A transaction of those bytes, and short scripts.
  estimate-specified_lines :
      (tx : Transaction) (unlocking_script locking_script : Script)
      → IsShort unlocking_script
      → IsShort locking_script
      → (estimate impl unlocking_script locking_script tx 0
          ≡ ok (specified impl tx default_limits unlocking_script locking_script))
        × AreLines (specified impl tx default_limits unlocking_script locking_script).warnings
  unfolding estimate
  estimate-specified_lines tx unlocking_script locking_script (hu, su) (hl, sl) =
      let bytes = append-IsByte unlocking_script locking_script hu hl in
      let long = length-append unlocking_script locking_script in
      let given =
        estimate-specified impl tx 0 default_limits unlocking_script locking_script
          (omega (arith, long)) bytes in
      let admitted : IsAdmitted default_limits (unlocking_script ++ locking_script) = record {
        small = omega (arith, long);
        bytes = bytes;
        within = omega (arith, long);
      } in
      let ending =
        estimate-Ending impl tx default_limits unlocking_script locking_script 0 admitted in
      let is = decode 0 (unlocking_script ++ locking_script) in
      let done =
        executed impl tx default_limits is (start impl (unlocking_script ++ locking_script)) in
      (
        given,
        Ending-AreLines impl tx default_limits is done
            (specified impl tx default_limits unlocking_script locking_script) (final_stack done [])
            (rw given at ending),
      )

  -- The same of scripts whose bytes are given.
  estimate-spec :
      (u l unlocking_script locking_script : Script)
      → unlocking_script ≡ u
      → locking_script ≡ l
      → IsShort unlocking_script
      → IsShort locking_script
      → (estimate impl unlocking_script locking_script create_sample_transaction 0 ≡ ok (spec u l))
        × AreLines (spec u l).warnings
  estimate-spec u l unlocking_script locking_script eu el hu hl =
      rw (← eu, ← el, ← sample_tx-bytes)
        (estimate-specified_lines create_sample_transaction unlocking_script locking_script hu hl)

module _ {ℓ} {W : Type ℓ} ⦃d : Double W⦄ (printed : W → String) where
  -- How the program ends, from how the model was loaded.
  abbrev pub Ends : Result LoadError (Impl W) → Result Fault Exit → Type 0
  Ends (err e) exit =
      exit
      ≡ ok (record {
        status = 1;
        out = "=== BSV Cost Estimator Example ===\n";
        err = "Error: " <> what e <> "\n";
      })
  Ends (ok impl) exit =
      (first : String) × (second : String) × (third : String) × (exit
        ≡ ok (record {
          status = 0;
          out =
              "=== BSV Cost Estimator Example ===\n"
              <> (("Loaded cost model: " <> impl.profile_id <> "\n\n")
                  <> "\n--- Example 1: Standard P2PKH ---\n"
                  <> first
                  <> "\n--- Example 2: Large OP_CAT ---\n"
                  <> second
                  <> "\n--- Example 3: Hash Chain ---\n"
                  <> third);
          err = "";
        }))
      × IsRead printed first
          (spec impl (0x47 ∷ 0x21 ∷ replicate 104 0) (0x76 ∷ 0xa9 ∷ 0x14 ∷ replicate 22 0))
      × IsRead printed second
          (spec impl (0x4c ∷ 0xff ∷ 0x03 ∷ replicate 1023 0) (0x76 ∷ 0x7e ∷ 0xa8 ∷ []))
      × IsRead printed third (spec impl (0x20 ∷ replicate 32 0) (0xa8 ∷ 0xa8 ∷ 0xa8 ∷ 0xaa ∷ []))

module _ {ℓ κ} {W : Type ℓ} {J : Type κ} ⦃d : Double W⦄ (printed : W → String) (json : Json W J)
    (uninitialised : String → Option CostType) (open_file : String → Option String) where
  module _ (argument : Option String) (plain : (w : W) → Lacks space (codes (printed w))) where
    ends :
        (loaded : Result LoadError (Impl W))
        → load_model json uninitialised open_file (model_path argument) ≡ loaded
        → Ends printed loaded (example_main printed json uninitialised open_file argument)
    unfolding example_main
    ends (err e) loaded = rw (example_main, loaded) refl
    ends (ok impl) loaded =
        let p2pkh =
          estimate-spec impl (0x47 ∷ 0x21 ∷ replicate 104 0) (0x76 ∷ 0xa9 ∷ 0x14 ∷ replicate 22 0)
            p2pkh_unlocking p2pkh_locking p2pkh-bytes.0 p2pkh-bytes.1 p2pkh-IsShort.0
            p2pkh-IsShort.1 in
        let cat =
          estimate-spec impl (0x4c ∷ 0xff ∷ 0x03 ∷ replicate 1023 0) (0x76 ∷ 0x7e ∷ 0xa8 ∷ [])
            cat_unlocking cat_locking cat-bytes.0 cat-bytes.1 cat-IsShort.0 cat-IsShort.1 in
        let hash =
          estimate-spec impl (0x20 ∷ replicate 32 0) (0xa8 ∷ 0xa8 ∷ 0xa8 ∷ 0xaa ∷ []) hash_unlocking
            hash_locking hash-bytes.0 hash-bytes.1 hash-IsShort.0 hash-IsShort.1 in
        let est1 =
          spec impl (0x47 ∷ 0x21 ∷ replicate 104 0) (0x76 ∷ 0xa9 ∷ 0x14 ∷ replicate 22 0) in
        let est2 = spec impl (0x4c ∷ 0xff ∷ 0x03 ∷ replicate 1023 0) (0x76 ∷ 0x7e ∷ 0xa8 ∷ []) in
        let est3 = spec impl (0x20 ∷ replicate 32 0) (0xa8 ∷ 0xa8 ∷ 0xa8 ∷ 0xaa ∷ []) in
        (
          print_estimate printed est1,
          print_estimate printed est2,
          print_estimate printed est3,
          rw (example_main, loaded, p2pkh.0, cat.0, hash.0) refl,
          print_estimate-IsRead printed est1 (plain _) (p2pkh.1),
          print_estimate-IsRead printed est2 (plain _) (cat.1),
          print_estimate-IsRead printed est3 (plain _) (hash.1),
        )

    -- Where no printed fee holds a space, the program never faults: where the model cannot be loaded it
    -- prints the heading and the error and ends with 1; else it ends with 0 and has printed the heading,
    -- the name of the model, and under its title, for the scripts whose bytes are given, a text each in
    -- which a reader finds behind every label its value of the specified estimate, and the warnings.
    pub example_main-Ends :
        Ends printed
          (load_model json uninitialised open_file (model_path argument))
          (example_main printed json uninitialised open_file argument)
    example_main-Ends = ends (load_model json uninitialised open_file (model_path argument)) refl
