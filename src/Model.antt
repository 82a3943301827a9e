-- ===== src/Model.antt =====
-- The cost model: `struct OpcodeCostModel`, the state of `CostEstimator::Impl` and
-- `calculate_opcode_cost` of libbsv_cost_estimator/src/cost_estimator.cpp. Its numbers are of any type
-- with the operations of `Double`.
pub mod Costs
pub mod Load
mod Tests
use bsv_miner_op_code_calc.Common.{ℕ, String, Option, none, some, List, get_or, sub64}
use bsv_miner_op_code_calc.Double.{Double, cast64}
use bsv_miner_op_code_calc.OpCode.{OpCode}

-- `enum class Type`.
pub data CostType : Type 0 where
  constant linear signature multisig : CostType

-- The field `type` has no initial value: `none` stands for a value that is no enumerator.
pub record OpcodeCostModel {ℓ} (W : Type ℓ) : Type ℓ where
  pub type : Option CostType
  pub c0 : W
  pub c1 : W
  pub c_ecdsa : W
  pub c_preimage_per_byte : W
  pub c_keyscan : W
  pub c_setup : W
  pub c_alloc : W

-- `std::map<OpCode, OpcodeCostModel>`, as the function that `find` computes.
abbrev pub CostMap {ℓ} : Type ℓ → Type ℓ
CostMap W = OpCode → Option (OpcodeCostModel W)

pub record Impl {ℓ} (W : Type ℓ) : Type ℓ where
  pub profile_id : String
  pub hardware_info : String
  pub c_dispatch : W
  pub c_parse_per_byte : W
  pub opcode_costs : CostMap W

module _ {ℓ} {W : Type ℓ} ⦃d : Double W⦄ where
  open d use {of_u64, add, mul}

  -- The value that the case `LINEAR` converts, and the one of `SIGNATURE`.
  unfoldable pub linear_value : OpcodeCostModel W → ℕ → W
  linear_value model n = add (add model.c0 (mul model.c1 (of_u64 n))) model.c_alloc

  unfoldable pub signature_value : OpcodeCostModel W → ℕ → W
  signature_value model preimage_size =
      add model.c_ecdsa (mul model.c_preimage_per_byte (of_u64 preimage_size))

  -- `n - m` is a `uint64_t`, and wraps around where more signatures than keys are given.
  unfoldable pub multisig_value : OpcodeCostModel W → ℕ → ℕ → ℕ → W
  multisig_value model m n preimage_size =
      add
        (add
          (mul (of_u64 m)
            (add model.c_ecdsa (mul model.c_preimage_per_byte (of_u64 preimage_size))))
          (mul (of_u64 (sub64 n m)) model.c_keyscan))
        model.c_setup

  -- The `switch` on the type.
  unfoldable pub cost_by_type : Option CostType → OpcodeCostModel W → List ℕ → ℕ
  unfolding linear_value signature_value multisig_value
  cost_by_type (some CostType.constant) model params = cast64 model.c0
  cost_by_type (some CostType.linear) model params = cast64 (linear_value model (get_or params 0 0))
  cost_by_type (some CostType.signature) model params =
      cast64 (signature_value model (get_or params 0 1000))
  cost_by_type (some CostType.multisig) model params =
      cast64 (multisig_value model (get_or params 0 1) (get_or params 1 3) (get_or params 2 1000))
  cost_by_type none model params = 100

  unfoldable pub calculate_opcode_cost : Impl W → OpCode → List ℕ → ℕ
  unfolding cost_by_type
  calculate_opcode_cost impl op params = elim (impl.opcode_costs op) [
    | none ↦ 100
    | some model ↦ cost_by_type model.type model params
  ]
