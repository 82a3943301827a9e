-- ===== src/Bench/Stack/Jobs.antt =====
-- The benchmarks of bsv_script_bench/src/bench_stack_ops.cpp, as the calls of the harness that they
-- make.
use bsv_miner_op_code_calc.Common.{
  ℕ, String, zero, suc, ◌*◌, leb, if◌then◌else◌, List, [], ◌∷◌, ◌++◌, replicate, ok, ◌>>=◌,
}
use bsv_miner_op_code_calc.Bench.Exception.{Throws}
use bsv_miner_op_code_calc.Bench.Job.{Job, ◌<>◌, to_string, for_each}
use bsv_miner_op_code_calc.Bench.Stack.{Bytes, SimpleStack, push, pop, dup, swap, pick, roll, rot}

-- `for (size_t i = 0; i < depth; ++i) stack.push(item);`
unfoldable pub fill : ℕ → Bytes → SimpleStack → SimpleStack
fill zero item stack = stack
fill (suc n) item stack = fill n item (push item stack)

abbrev pub item_of : ℕ → Bytes
item_of item_size = replicate item_size 0x42

abbrev pub depth_and_size : ℕ → ℕ → String
depth_and_size depth item_size = "depth=" <> to_string depth <> ",item_size=" <> to_string item_size

-- The lambdas that are measured.
unfoldable pub dup_pop : SimpleStack → Throws SimpleStack
dup_pop stack = do stack ← dup stack; (item, stack) ← pop stack; ok stack

unfoldable pub pick_pop : ℕ → SimpleStack → Throws SimpleStack
pick_pop pick_depth stack = do stack ← pick pick_depth stack; (item, stack) ← pop stack; ok stack

-- The stack of this one is local to a run, which fills it and rolls. The state is the stack that the last
-- run leaves; before the first it is the stack that every run fills.
unfoldable pub fill_roll : ℕ → ℕ → ℕ → SimpleStack → Throws SimpleStack
fill_roll depth roll_depth item_size last = roll roll_depth (fill depth (item_of item_size) [])

abbrev pub item_sizes : List ℕ
item_sizes = 1 ∷ 100 ∷ 10_000 ∷ 1_000_000 ∷ []

-- For each benchmark the body of its inner loop, and then the loops.
abbrev pub dup_body : ℕ → ℕ → List (Job SimpleStack)
dup_body depth item_size =
    record {
      opcode_name = "OP_DUP";
      param_description = depth_and_size depth item_size;
      input_size_bytes = item_size;
      captured = fill depth (item_of item_size) [];
      operation = dup_pop;
      iterations = 1000;
      warmup_iterations = 100;
    }
    ∷ []

abbrev pub dup_depths : List ℕ
dup_depths = 1 ∷ 10 ∷ 100 ∷ 1000 ∷ []

unfoldable pub benchmark_op_dup : List (Job SimpleStack)
benchmark_op_dup = for_each dup_depths λ depth. for_each item_sizes (dup_body depth)

abbrev pub swap_body : ℕ → ℕ → List (Job SimpleStack)
swap_body depth item_size =
    record {
      opcode_name = "OP_SWAP";
      param_description = depth_and_size depth item_size;
      input_size_bytes = item_size * 2;
      captured = fill depth (item_of item_size) [];
      operation = swap;
      iterations = 1000;
      warmup_iterations = 100;
    }
    ∷ []

abbrev pub swap_depths : List ℕ
swap_depths = 2 ∷ 10 ∷ 100 ∷ 1000 ∷ []

unfoldable pub benchmark_op_swap : List (Job SimpleStack)
benchmark_op_swap = for_each swap_depths λ depth. for_each item_sizes (swap_body depth)

abbrev pub pick_job : ℕ → ℕ → Job SimpleStack
pick_job depth pick_depth = record {
  opcode_name = "OP_PICK";
  param_description = "stack_depth=" <> to_string depth <> ",pick_depth=" <> to_string pick_depth;
  input_size_bytes = 100;
  captured = fill depth (item_of 100) [];
  operation = pick_pop pick_depth;
  iterations = 1000;
  warmup_iterations = 100;
}

abbrev pub pick_body : ℕ → ℕ → List (Job SimpleStack)
pick_body depth pick_depth = if leb depth pick_depth then [] else pick_job depth pick_depth ∷ []

abbrev pub pick_stack_depths : List ℕ
pick_stack_depths = 10 ∷ 100 ∷ 1000 ∷ 10_000 ∷ []

abbrev pub pick_depths : List ℕ
pick_depths = 0 ∷ 5 ∷ 50 ∷ 500 ∷ []

unfoldable pub benchmark_op_pick : List (Job SimpleStack)
benchmark_op_pick = for_each pick_stack_depths λ depth. for_each pick_depths (pick_body depth)

abbrev pub roll_job : ℕ → ℕ → Job SimpleStack
roll_job depth roll_depth = record {
  opcode_name = "OP_ROLL";
  param_description = "stack_depth=" <> to_string depth <> ",roll_depth=" <> to_string roll_depth;
  input_size_bytes = 100;
  captured = fill depth (item_of 100) [];
  operation = fill_roll depth roll_depth 100;
  iterations = 1000;
  warmup_iterations = 100;
}

abbrev pub roll_body : ℕ → ℕ → List (Job SimpleStack)
roll_body depth roll_depth = if leb depth roll_depth then [] else roll_job depth roll_depth ∷ []

abbrev pub roll_stack_depths : List ℕ
roll_stack_depths = 10 ∷ 100 ∷ 1000 ∷ []

abbrev pub roll_depths : List ℕ
roll_depths = 1 ∷ 5 ∷ 50 ∷ []

unfoldable pub benchmark_op_roll : List (Job SimpleStack)
benchmark_op_roll = for_each roll_stack_depths λ depth. for_each roll_depths (roll_body depth)

abbrev pub rot_body : ℕ → ℕ → List (Job SimpleStack)
rot_body depth item_size =
    record {
      opcode_name = "OP_ROT";
      param_description = depth_and_size depth item_size;
      input_size_bytes = item_size * 3;
      captured = fill depth (item_of item_size) [];
      operation = rot;
      iterations = 1000;
      warmup_iterations = 100;
    }
    ∷ []

abbrev pub rot_depths : List ℕ
rot_depths = 3 ∷ 10 ∷ 100 ∷ 1000 ∷ []

unfoldable pub benchmark_op_rot : List (Job SimpleStack)
benchmark_op_rot = for_each rot_depths λ depth. for_each item_sizes (rot_body depth)

-- The order of `main`.
unfoldable pub stack_jobs : List (Job SimpleStack)
unfolding benchmark_op_dup benchmark_op_swap benchmark_op_pick benchmark_op_roll benchmark_op_rot
stack_jobs =
    benchmark_op_dup ++ benchmark_op_swap ++ benchmark_op_pick ++ benchmark_op_roll
    ++ benchmark_op_rot
