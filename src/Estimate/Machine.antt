-- ===== src/Estimate/Machine.antt =====
-- What `estimate` computes with: `CostEstimate`, `EstimatorLimits`, and the local variables
-- of its loop but the program counter.
use bsv_miner_op_code_calc.Common.{ℕ, String, List, [], ◌∷◌, ◌++◌, add64, add32}

pub record Breakdown : Type 0 where
  pub parsing : ℕ
  pub dispatch : ℕ
  pub stack_ops : ℕ
  pub byte_ops : ℕ
  pub hashing : ℕ
  pub signatures : ℕ
  pub control_flow : ℕ

pub record CostEstimate : Type 0 where
  pub total_cycles : ℕ
  pub breakdown : Breakdown
  pub peak_stack_bytes : ℕ
  pub peak_stack_items : ℕ
  pub signature_count : ℕ
  pub opcode_count : ℕ
  pub warnings : List String

pub record EstimatorLimits : Type 0 where
  pub max_script_size : ℕ
  pub max_stack_items : ℕ
  pub max_stack_item_size : ℕ
  pub max_opcode_count : ℕ
  pub max_total_cycles : ℕ

abbrev pub default_limits : EstimatorLimits
default_limits = record {
  max_script_size = 100_000_000;
  max_stack_items = 10_000;
  max_stack_item_size = 100_000_000;
  max_opcode_count = 1_000_000;
  max_total_cycles = 10_000_000_000;
}

-- `stack_sizes` holds the vector from its back, the top of the stack, to its front.
pub record Machine : Type 0 where
  pub result : CostEstimate
  pub stack_sizes : List ℕ
  pub current_stack_bytes : ℕ

abbrev pub empty_estimate : CostEstimate
empty_estimate = record {
  total_cycles = 0;
  breakdown = record {
    parsing = 0;
    dispatch = 0;
    stack_ops = 0;
    byte_ops = 0;
    hashing = 0;
    signatures = 0;
    control_flow = 0;
  };
  peak_stack_bytes = 0;
  peak_stack_items = 0;
  signature_count = 0;
  opcode_count = 0;
  warnings = [];
}

-- `result.warnings.push_back(w)`.
abbrev pub warn : String → CostEstimate → CostEstimate
warn w r = record r { warnings = r.warnings ++ (w ∷ []) }

-- The compound assignments to the fields of `result`.
abbrev pub add_total : ℕ → Machine → Machine
add_total c m = record m {
  result = record (m.result) { total_cycles = add64 m.result.total_cycles c };
}

abbrev pub add_dispatch : ℕ → Machine → Machine
add_dispatch c m = record m {
  result = record (m.result) {
    breakdown = record (m.result.breakdown) { dispatch = add64 m.result.breakdown.dispatch c };
  };
}

abbrev pub add_stack_ops : ℕ → Machine → Machine
add_stack_ops c m = record m {
  result = record (m.result) {
    breakdown = record (m.result.breakdown) { stack_ops = add64 m.result.breakdown.stack_ops c };
  };
}

abbrev pub add_byte_ops : ℕ → Machine → Machine
add_byte_ops c m = record m {
  result = record (m.result) {
    breakdown = record (m.result.breakdown) { byte_ops = add64 m.result.breakdown.byte_ops c };
  };
}

abbrev pub add_hashing : ℕ → Machine → Machine
add_hashing c m = record m {
  result = record (m.result) {
    breakdown = record (m.result.breakdown) { hashing = add64 m.result.breakdown.hashing c };
  };
}

abbrev pub add_signatures : ℕ → Machine → Machine
add_signatures c m = record m {
  result = record (m.result) {
    breakdown = record (m.result.breakdown) { signatures = add64 m.result.breakdown.signatures c };
  };
}

abbrev pub count_signature : Machine → Machine
count_signature m = record m {
  result = record (m.result) { signature_count = add32 m.result.signature_count 1 };
}

abbrev pub count_opcode : Machine → Machine
count_opcode m = record m {
  result = record (m.result) { opcode_count = add32 m.result.opcode_count 1 };
}
