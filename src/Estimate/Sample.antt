-- ===== src/Estimate/Sample.antt =====
-- The prices of cost_models/example_model.json that the estimator loads, and the scripts of
-- libbsv_cost_estimator/examples/estimate_tx.cpp and libbsv_cost_estimator/tests/test_estimator.cpp.
use bsv_miner_op_code_calc.Common.{ℕ, zero, suc, none, some, [], ◌∷◌, ◌++◌, replicate}
use bsv_miner_op_code_calc.Double.Fixed.{Decimal, decimal_double}
use bsv_miner_op_code_calc.OpCode.{
  op_dup, op_swap, op_cat, op_split, op_sha256, op_hash256, op_checksig, op_checkmultisig,
}
use bsv_miner_op_code_calc.Tx.{Script, Transaction}
use bsv_miner_op_code_calc.Model.{CostType, OpcodeCostModel, CostMap, Impl}

abbrev lit : ℕ → ℕ → Decimal
lit = decimal_double.lit

abbrev plain : CostType → OpcodeCostModel Decimal
plain t = record {
  type = some t;
  c0 = 0;
  c1 = 0;
  c_ecdsa = 0;
  c_preimage_per_byte = 0;
  c_keyscan = 0;
  c_setup = 0;
  c_alloc = 0;
}

abbrev fixed_price : Decimal → OpcodeCostModel Decimal
fixed_price c = record (plain CostType.constant) { c0 = c }

abbrev per_byte : Decimal → Decimal → Decimal → OpcodeCostModel Decimal
per_byte a b c = record (plain CostType.linear) { c0 = a; c1 = b; c_alloc = c }

abbrev pub example_costs : CostMap Decimal
example_costs op_dup = some (fixed_price (lit 130 0))
example_costs op_swap = some (fixed_price (lit 86 0))
example_costs op_cat = some (per_byte (lit 150 0) (lit 15 2) (lit 50 0))
example_costs op_split = some (per_byte (lit 200 0) (lit 35 2) (lit 0 0))
example_costs op_sha256 = some (per_byte (lit 1000 0) (lit 135 2) (lit 0 0))
example_costs op_hash256 = some (per_byte (lit 1800 0) (lit 138 2) (lit 0 0))
example_costs op_checksig =
    some (record (plain CostType.signature) {
      c_ecdsa = lit 85_000 0;
      c_preimage_per_byte = lit 135 2;
    })
example_costs op_checkmultisig = some (record (plain CostType.multisig) {
  c_ecdsa = lit 85_000 0;
  c_preimage_per_byte = lit 135 2;
  c_keyscan = lit 150 0;
  c_setup = lit 300 0;
})
example_costs _ = none

abbrev pub example_impl : Impl Decimal
example_impl = record {
  profile_id = "benchmark_2025_11_10";
  hardware_info = "";
  c_dispatch = lit 5 0;
  c_parse_per_byte = lit 8 1;
  opcode_costs = example_costs;
}

-- `create_sample_transaction`.
abbrev pub sample_tx : Transaction
sample_tx = record {
  version = 1;
  inputs =
      record {
        prevout_hash = replicate 32 0;
        prevout_index = 0;
        script_sig = 0x47 ∷ 0x21 ∷ replicate 104 0;
        sequence = 0xffffffff;
      }
      ∷ [];
  outputs = record { value = 100_000; script_pubkey = 0x76 ∷ 0xa9 ∷ 0x14 ∷ replicate 22 0 } ∷ [];
  locktime = 0;
}

-- A hash chain.
abbrev pub hash_unlocking : Script
hash_unlocking = 0x20 ∷ replicate 32 0

abbrev pub hash_locking : Script
hash_locking = 0xa8 ∷ 0xa8 ∷ 0xa8 ∷ 0xaa ∷ []

-- Two pushes of ten bytes, and OP_CAT.
abbrev pub cat_unlocking : Script
cat_unlocking = (0x0a ∷ replicate 10 0) ++ (0x0a ∷ replicate 10 0)

abbrev pub cat_locking : Script
cat_locking = 0x7e ∷ []

-- One copy of a script after another.
abbrev pub repeat : ℕ → Script → Script
repeat zero script = []
repeat (suc n) script = script ++ repeat n script

-- 33 checks of two empty items, whose results are joined and hashed.
abbrev pub leak_locking : Script
leak_locking =
    repeat 33 (0x4c ∷ 0x00 ∷ 0x4c ∷ 0x00 ∷ 0xac ∷ []) ++ repeat 32 (0x7e ∷ []) ++ (0xa8 ∷ [])
