-- ===== src/Example.antt =====
-- The program libbsv_cost_estimator/examples/estimate_tx.cpp, which estimates three pairs of scripts and
-- prints what it finds, and `CostEstimate::to_fee` of libbsv_cost_estimator/include/bsv/cost_estimator.h.
-- How a fee is printed with two places is a parameter, as are the files and the JSON parser.
pub mod Reading
pub mod ReadBack
pub mod Ending
mod Tests
use bsv_miner_op_code_calc.Common.{
  ℕ, String, ◌-◌, ◌+◌, Option, none, some, List, [], ◌∷◌, ◌++◌, length, replicate, take, ◌<>◌,
  to_string, Result, ok, err, ◌>>=◌, Fault,
}
use bsv_miner_op_code_calc.Double.{Double}
use bsv_miner_op_code_calc.OpCode.{op_dup, op_cat, op_sha256, op_hash160, op_hash256, to_byte}
use bsv_miner_op_code_calc.Tx.{Script, Transaction}
use bsv_miner_op_code_calc.Model.{CostType, Impl}
use bsv_miner_op_code_calc.Model.Load.{LoadError, runtime_error, json_error, Json, load_model}
use bsv_miner_op_code_calc.Estimate.Machine.{CostEstimate}
use bsv_miner_op_code_calc.Estimate.Loop.{estimate}

-- `resize` of a vector of bytes.
unfoldable pub resize : ℕ → Script → Script
resize n bytes = take n (bytes ++ replicate (n - length bytes) 0)

unfoldable pub create_sample_transaction : Transaction
unfolding resize to_byte
create_sample_transaction = record {
  version = 1;
  inputs =
      record {
        prevout_hash = replicate 32 0;
        prevout_index = 0;
        script_sig = resize (71 + 33 + 2) (0x47 ∷ 0x21 ∷ []);
        sequence = 0xffffffff;
      }
      ∷ [];
  outputs =
      record {
        value = 100_000;
        script_pubkey = resize 25 (to_byte op_dup ∷ to_byte op_hash160 ∷ 0x14 ∷ []);
      }
      ∷ [];
  locktime = 0;
}

-- The scripts of `main`.
unfoldable pub p2pkh_unlocking : Script
unfolding resize
p2pkh_unlocking = resize (71 + 33 + 2) (0x47 ∷ 0x21 ∷ [])

unfoldable pub p2pkh_locking : Script
unfolding resize to_byte
p2pkh_locking = resize 25 (to_byte op_dup ∷ to_byte op_hash160 ∷ 0x14 ∷ [])

unfoldable pub cat_unlocking : Script
unfolding resize
cat_unlocking = resize 1026 (0x4c ∷ 0xff ∷ 0x03 ∷ [])

unfoldable pub cat_locking : Script
unfolding to_byte
cat_locking = to_byte op_dup ∷ to_byte op_cat ∷ to_byte op_sha256 ∷ []

unfoldable pub hash_unlocking : Script
unfolding resize
hash_unlocking = resize 33 (0x20 ∷ [])

unfoldable pub hash_locking : Script
unfolding to_byte
hash_locking = to_byte op_sha256 ∷ to_byte op_sha256 ∷ to_byte op_sha256 ∷ to_byte op_hash256 ∷ []

abbrev pub to_fee {ℓ} : {W : Type ℓ} ⦃d : Double W⦄ → ℕ → CostEstimate → W
to_fee ⦃d⦄ cycles_per_unit est = d.div (d.of_u64 est.total_cycles) (d.of_u64 cycles_per_unit)

-- `for (const auto& warning : est.warnings)`.
abbrev pub warning_lines : List String → String
warning_lines [] = ""
warning_lines (warning ∷ warnings) = "  - " <> warning <> "\n" <> warning_lines warnings

abbrev pub warning_text : List String → String
warning_text [] = ""
warning_text (warning ∷ warnings) = "\nWarnings:\n" <> warning_lines (warning ∷ warnings)

module _ {ℓ} {W : Type ℓ} ⦃d : Double W⦄ (printed : W → String) where
  unfoldable pub print_estimate : CostEstimate → String
  print_estimate est =
      "\n=== Cost Estimate ===\n"
      <> "Total Cycles: "
      <> to_string est.total_cycles
      <> "\n"
      <> "Estimated Fee: "
      <> printed (to_fee 100_000 est)
      <> " compute units\n"
      <> "\nBreakdown:\n"
      <> "  Parsing:      "
      <> to_string est.breakdown.parsing
      <> " cycles\n"
      <> "  Dispatch:     "
      <> to_string est.breakdown.dispatch
      <> " cycles\n"
      <> "  Stack Ops:    "
      <> to_string est.breakdown.stack_ops
      <> " cycles\n"
      <> "  Byte Ops:     "
      <> to_string est.breakdown.byte_ops
      <> " cycles\n"
      <> "  Hashing:      "
      <> to_string est.breakdown.hashing
      <> " cycles\n"
      <> "  Signatures:   "
      <> to_string est.breakdown.signatures
      <> " cycles\n"
      <> "\nResource Usage:\n"
      <> "  Peak Stack:   "
      <> to_string est.peak_stack_bytes
      <> " bytes ("
      <> to_string est.peak_stack_items
      <> " items)\n"
      <> "  Signatures:   "
      <> to_string est.signature_count
      <> "\n"
      <> "  Opcodes:      "
      <> to_string est.opcode_count
      <> "\n"
      <> warning_text est.warnings

  -- What `main` prints once the model is loaded, with the three estimates.
  abbrev pub report : Impl W → CostEstimate → CostEstimate → CostEstimate → String
  report impl est1 est2 est3 =
      ("Loaded cost model: " <> impl.profile_id <> "\n\n")
      <> "\n--- Example 1: Standard P2PKH ---\n"
      <> print_estimate est1
      <> "\n--- Example 2: Large OP_CAT ---\n"
      <> print_estimate est2
      <> "\n--- Example 3: Hash Chain ---\n"
      <> print_estimate est3

-- How a program ends, and what it has printed to either stream.
pub record Exit : Type 0 where
  pub status : ℕ
  pub out : String
  pub err : String

-- `e.what()`.
abbrev pub what : LoadError → String
what (runtime_error message) = message
what (json_error message) = message

abbrev pub heading : String
heading = "=== BSV Cost Estimator Example ===\n"

abbrev pub model_path : Option String → String
model_path none = "../../cost_models/example_model.json"
model_path (some argument) = argument

module _ {ℓ κ} {W : Type ℓ} {J : Type κ} ⦃d : Double W⦄ (printed : W → String) (json : Json W J)
    (uninitialised : String → Option CostType) (open_file : String → Option String) where
  -- The `try`, whose exceptions are those of the constructor.
  unfoldable pub example_main : Option String → Result Fault Exit
  unfolding create_sample_transaction p2pkh_unlocking p2pkh_locking cat_unlocking cat_locking
      hash_unlocking hash_locking print_estimate
  example_main argument = elim (load_model json uninitialised open_file (model_path argument)) [
    | err e ↦ ok (record { status = 1; out = heading; err = "Error: " <> what e <> "\n" })
    | ok impl ↦ do
      let tx = create_sample_transaction
      est1 ← estimate impl p2pkh_unlocking p2pkh_locking tx 0
      est2 ← estimate impl cat_unlocking cat_locking tx 0
      est3 ← estimate impl hash_unlocking hash_locking tx 0
      ok (record { status = 0; out = heading <> report printed impl est1 est2 est3; err = "" })
  ]
