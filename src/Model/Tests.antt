-- ===== src/Model/Tests.antt =====
-- The prices of cost_models/example_model.json.
use bsv_miner_op_code_calc.Common.{◌≤◌, refl, some, [], ◌∷◌, arith}
use bsv_miner_op_code_calc.Double.Fixed.{Decimal, decimal_double, decimal_order, Decimal-IsOrdered}
use bsv_miner_op_code_calc.OpCode.{op_sha256}
use bsv_miner_op_code_calc.Model.{
  CostType, OpcodeCostModel, Impl, linear_value, calculate_opcode_cost,
}
use bsv_miner_op_code_calc.Model.Costs.{IsSound, calculate_opcode_cost_mono}

abbrev sha256_model : OpcodeCostModel Decimal
sha256_model = record {
  type = some CostType.linear;
  c0 = decimal_double.lit 1000 0;
  c1 = decimal_double.lit 135 2;
  c_ecdsa = 0;
  c_preimage_per_byte = 0;
  c_keyscan = 0;
  c_setup = 0;
  c_alloc = 0;
}

abbrev sha256_impl : Impl Decimal
sha256_impl = record {
  profile_id = "sha256";
  hardware_info = "";
  c_dispatch = 0;
  c_parse_per_byte = 0;
  opcode_costs = λ _. some sha256_model;
}

sha256_model-IsSound : IsSound decimal_order sha256_model
sha256_model-IsSound = ground arith

calculate_opcode_cost_mono_example :
    calculate_opcode_cost sha256_impl op_sha256 (32 ∷ [])
    ≤ calculate_opcode_cost sha256_impl op_sha256 (64 ∷ [])
unfolding linear_value
calculate_opcode_cost_mono_example =
    calculate_opcode_cost_mono Decimal-IsOrdered sha256_impl op_sha256 sha256_model 32 64
      CostType.linear refl refl sha256_model-IsSound (omega arith) (omega arith) refl
