-- ===== src/Bench/Stack/Tests.antt =====
-- The theorems at a stack of three items.
use bsv_miner_op_code_calc.Common.{All, [], ◌∷◌, arith}
use bsv_miner_op_code_calc.Bench.Stack.{SimpleStack}
use bsv_miner_op_code_calc.Bench.Stack.Depth.{MovesTo, pick-roll}
use bsv_miner_op_code_calc.Bench.Stack.Jobs.{stack_jobs}
use bsv_miner_op_code_calc.Bench.Stack.Measured.{IsSteady, stack_jobs-IsSteady}
use bsv_miner_op_code_calc.Bench.Stack.Laws.{
  Undoes, ThrowsIff, AtFixedDepth, undo, throws_iff, fixed_depth,
}

abbrev three_items : SimpleStack
three_items = (3 ∷ 3 ∷ []) ∷ (2 ∷ []) ∷ (1 ∷ []) ∷ []

pick-roll_example : MovesTo three_items 1
pick-roll_example = pick-roll three_items 1 (omega arith)

undo_example : Undoes three_items (7 ∷ []) 2
undo_example = undo three_items (7 ∷ []) 2

throws_iff_example : ThrowsIff three_items 3
throws_iff_example = throws_iff three_items 3

fixed_depth_example : AtFixedDepth three_items
fixed_depth_example = fixed_depth three_items

-- The warmup and the measurements are 1100 runs.
stack_jobs-IsSteady_example : All (IsSteady 1100) stack_jobs
stack_jobs-IsSteady_example = stack_jobs-IsSteady 1100
