-- ===== src/Bench/Stack/Measured.antt =====
-- What the benchmarks of bsv_script_bench/src/bench_stack_ops.cpp measure, run after run.
use bsv_miner_op_code_calc.Common.{
  ℕ, zero, suc, ◌+◌, ◌<◌, ◌≡◌, refl, ◌∙◌, leb, Bool-cases, inl, inr, [], ◌∷◌, ◌++◌, length,
  get_elem?, some, get_elem?-lt, All, ok, arith,
}
use bsv_miner_op_code_calc.Bench.Exception.{Throws}
use bsv_miner_op_code_calc.Bench.Job.{Job, runs, runs-keeps, All-grid, All-Unit, All-append}
use bsv_miner_op_code_calc.Bench.Stack.{
  Bytes, SimpleStack, erase_from_back, push, pop, dup, swap, rot, size,
}
use bsv_miner_op_code_calc.Bench.Stack.Depth.{pick-at, roll-at}
use bsv_miner_op_code_calc.Bench.Stack.Jobs.{
  fill, item_of, item_sizes, dup_pop, pick_pop, fill_roll, dup_body, dup_depths, swap_body,
  swap_depths, rot_body, rot_depths, pick_body, pick_depths, pick_stack_depths, roll_body,
  roll_depths, roll_stack_depths, benchmark_op_dup, benchmark_op_swap, benchmark_op_pick,
  benchmark_op_roll, benchmark_op_rot, stack_jobs,
}

-- A run throws nothing and leaves as many items.
abbrev KeepsSize : (SimpleStack → Throws SimpleStack) → SimpleStack → Type 0
KeepsSize operation s = (s' : SimpleStack) × (operation s ≡ ok s') × (size s' ≡ size s)

dup_pop-KeepsSize : (s : SimpleStack) → 0 < size s → KeepsSize dup_pop s
unfolding dup_pop dup pop size
dup_pop-KeepsSize [] h = absurd (omega arith)
dup_pop-KeepsSize (a ∷ s) h = (a ∷ s, refl, refl)

swap-KeepsSize : (s : SimpleStack) → 1 < size s → KeepsSize swap s
unfolding swap size
swap-KeepsSize [] h = absurd (omega arith)
swap-KeepsSize (a ∷ []) h = absurd (omega arith)
swap-KeepsSize (a ∷ b ∷ s) h = (b ∷ a ∷ s, refl, refl)

rot-KeepsSize : (s : SimpleStack) → 2 < size s → KeepsSize rot s
unfolding rot size
rot-KeepsSize [] h = absurd (omega arith)
rot-KeepsSize (a ∷ []) h = absurd (omega arith)
rot-KeepsSize (a ∷ b ∷ []) h = absurd (omega arith)
rot-KeepsSize (a ∷ b ∷ c ∷ s) h = (c ∷ a ∷ b ∷ s, refl, refl)

pick_pop-KeepsSize : (k : ℕ) (s : SimpleStack) → k < size s → KeepsSize (pick_pop k) s
unfolding pick_pop pop size
pick_pop-KeepsSize k s h =
    let (x, read, _) = get_elem?-lt s k h in (s, rw (pick-at s k read) refl, refl)

size-fill : (n : ℕ) (item : Bytes) (s : SimpleStack) → size (fill n item s) ≡ n + size s
unfolding fill push size
size-fill zero item s = omega arith
size-fill (suc n) item s = omega (arith, size-fill n item (item ∷ s))

length-erase_from_back :
    (items : SimpleStack) (k : ℕ) {x : Bytes}
    → get_elem? items k ≡ some x
    → suc (length (erase_from_back items k)) ≡ length items
unfolding erase_from_back
length-erase_from_back [] k read = cc
length-erase_from_back (y ∷ items) zero read = refl
length-erase_from_back (y ∷ items) (suc k) read = omega (arith, length-erase_from_back items k read)

-- However a run found the stack, it leaves one of all the items that it fills.
fill_roll-KeepsSize :
    (depth k item_size : ℕ) (s : SimpleStack)
    → k < depth
    → size s ≡ depth
    → KeepsSize (fill_roll depth k item_size) s
unfolding fill_roll size
fill_roll-KeepsSize depth k item_size s h same =
    let full = fill depth (item_of item_size) [] in
    let filled = size-fill depth (item_of item_size) [] in
    let (x, read, _) = get_elem?-lt full k (omega (arith, filled)) in
    (
      x ∷ erase_from_back full k,
      roll-at full k read,
      omega (arith, length-erase_from_back full k read, filled),
    )

-- A run of an operation that needs more than `need` items.
module _ (operation : SimpleStack → Throws SimpleStack) (need : ℕ)
    (keep : (s : SimpleStack) → need < size s → KeepsSize operation s) where
  runs-KeepsSize : (n : ℕ) (s : SimpleStack) → need < size s → KeepsSize (runs n operation) s
  runs-KeepsSize n s h =
      let (s', ran, same) =
        runs-keeps (λ t. size t ≡ size s) operation
          (λ t e. let (t', once, more) = keep t (omega arith) in (t', once, omega arith)) n s
          refl in
      (s', ran, same)

  runs-fill :
      (n depth item_size : ℕ)
      → need < depth
      → KeepsSize (runs n operation) (fill depth (item_of item_size) [])
  unfolding size
  runs-fill n depth item_size h =
      runs-KeepsSize n _ (omega (arith, size-fill depth (item_of item_size) []))

-- However often its operation runs, a benchmark throws nothing and keeps the depth of its stack.
abbrev pub IsSteady : ℕ → Job SimpleStack → Type 0
IsSteady n job =
    (s : SimpleStack) × (runs n job.operation job.captured ≡ ok s) × (size s ≡ size job.captured)

dup-IsSteady : (n : ℕ) → All (IsSteady n) benchmark_op_dup
unfolding benchmark_op_dup
dup-IsSteady n =
    All-grid (λ depth. 0 < depth) (IsSteady n) dup_depths item_sizes dup_body (omega arith)
      λ depth item_size h. (runs-fill dup_pop 0 dup_pop-KeepsSize n depth item_size h, tt)

swap-IsSteady : (n : ℕ) → All (IsSteady n) benchmark_op_swap
unfolding benchmark_op_swap
swap-IsSteady n =
    All-grid (λ depth. 1 < depth) (IsSteady n) swap_depths item_sizes swap_body (omega arith)
      λ depth item_size h. (runs-fill swap 1 swap-KeepsSize n depth item_size h, tt)

rot-IsSteady : (n : ℕ) → All (IsSteady n) benchmark_op_rot
unfolding benchmark_op_rot
rot-IsSteady n =
    All-grid (λ depth. 2 < depth) (IsSteady n) rot_depths item_sizes rot_body (omega arith)
      λ depth item_size h. (runs-fill rot 2 rot-KeepsSize n depth item_size h, tt)

pick_body-IsSteady : (n depth k : ℕ) → All (IsSteady n) (pick_body depth k)
pick_body-IsSteady n depth k = elim (Bool-cases (leb depth k)) [
  | inl over ↦ rw over tt
  | inr inside ↦
      rw inside (runs-fill (pick_pop k) k (pick_pop-KeepsSize k) n depth 100 (ground arith), tt)
]

roll_body-IsSteady : (n depth k : ℕ) → All (IsSteady n) (roll_body depth k)
unfolding size
roll_body-IsSteady n depth k = elim (Bool-cases (leb depth k)) [
  | inl over ↦ rw over tt
  | inr inside ↦
      let h : k < depth = ground arith in
      let filled = size-fill depth (item_of 100) [] in
      let (s, ran, same) =
        runs-keeps (λ s. size s ≡ depth) (fill_roll depth k 100)
          (λ s e.
            let (s', once, more) = fill_roll-KeepsSize depth k 100 s h e in (s', once, more ∙ e))
          n (fill depth (item_of 100) []) (omega arith) in
      rw inside ((s, ran, omega arith), tt)
]

pick-IsSteady : (n : ℕ) → All (IsSteady n) benchmark_op_pick
unfolding benchmark_op_pick
pick-IsSteady n =
    All-grid (λ _. Unit {0}) (IsSteady n) pick_stack_depths pick_depths pick_body
      (All-Unit pick_stack_depths) λ depth k _. pick_body-IsSteady n depth k

roll-IsSteady : (n : ℕ) → All (IsSteady n) benchmark_op_roll
unfolding benchmark_op_roll
roll-IsSteady n =
    All-grid (λ _. Unit {0}) (IsSteady n) roll_stack_depths roll_depths roll_body
      (All-Unit roll_stack_depths) λ depth k _. roll_body-IsSteady n depth k

-- However often its operation runs, no benchmark of the stack throws, and the stack that it works on
-- keeps the number of items that it is filled with; for OP_ROLL that is the stack that each run fills
-- and rolls.
pub stack_jobs-IsSteady : (n : ℕ) → All (IsSteady n) stack_jobs
unfolding stack_jobs
stack_jobs-IsSteady n =
    let from_roll = benchmark_op_roll ++ benchmark_op_rot in
    let from_pick = benchmark_op_pick ++ from_roll in
    let from_swap = benchmark_op_swap ++ from_pick in
    All-append (IsSteady n) benchmark_op_dup from_swap (dup-IsSteady n) (
      All-append (IsSteady n) benchmark_op_swap from_pick (swap-IsSteady n) (
        All-append (IsSteady n) benchmark_op_pick from_roll (pick-IsSteady n) (
          All-append (IsSteady n) benchmark_op_roll benchmark_op_rot (roll-IsSteady n)
            (rot-IsSteady n))))
