-- ===== src/Bench/Stack/Laws.antt =====
-- How the methods of `class SimpleStack` of bsv_script_bench/src/bench_stack_ops.cpp fit together,
-- their exceptions included.
use bsv_miner_op_code_calc.Common.{
  ℕ, ◌≤◌, ◌<◌, ◌≡◌, ◌↔◌, ◌⊎◌, refl, [], ◌∷◌, length, leb, Bool-cases, inl, inr, ok, err, ◌>>=◌,
  arith,
}
use bsv_miner_op_code_calc.Bench.Exception.{runtime_error, value?}
use bsv_miner_op_code_calc.Bench.Stack.{
  Bytes, SimpleStack, push, pop, top, dup, swap, pick, roll, rot, size, erase_from_back,
}
use bsv_miner_op_code_calc.Bench.Stack.Depth.{pick-roll, pick-at, roll-at}

-- `pick` throws, or leaves the stack under the item that it copies.
pick-cases :
    (items : SimpleStack) (depth : ℕ)
    → ((length items ≤ depth) × (pick depth items ≡ err (runtime_error "Pick out of range")))
      ⊎ ((x : Bytes) × (depth < length items) × (pick depth items ≡ ok (x ∷ items)))
unfolding pick
pick-cases items depth = elim (Bool-cases (leb (length items) depth)) [
  | inl short ↦ inl (ground arith, rw short refl)
  | inr deep ↦
      let h : depth < length items = ground arith in
      let (x, rest, _, picked, _, _, _) = pick-roll items depth h in inr (x, h, picked)
]

roll-cases :
    (items : SimpleStack) (depth : ℕ)
    → ((length items ≤ depth) × (roll depth items ≡ err (runtime_error "Roll out of range")))
      ⊎ ((t : SimpleStack) × (depth < length items) × (roll depth items ≡ ok t))
unfolding roll
roll-cases items depth = elim (Bool-cases (leb (length items) depth)) [
  | inl short ↦ inl (ground arith, rw short refl)
  | inr deep ↦
      let h : depth < length items = ground arith in
      let (x, rest, _, _, rolled, _, _) = pick-roll items depth h in inr (x ∷ rest, h, rolled)
]

abbrev pub Undoes : SimpleStack → Bytes → ℕ → Type 0
Undoes items item depth =
    (pop (push item items) ≡ ok (item, items))
    × ((dup items >>= pop) ≡ (top items >>= λ x. ok (x, items)))
    × ((pick depth items >>= pop) ≡ (pick depth items >>= λ t. top t >>= λ x. ok (x, items)))
    × ((swap items >>= swap) ≡ (swap items >>= λ _. ok items))
    × ((rot items >>= rot >>= rot) ≡ (rot items >>= λ _. ok items))

-- Popping undoes pushing, duplicating and picking; swapping twice and rotating three times restore
-- the stack; and where the first method of such a pair throws, the pair throws the same.
pub undo : (items : SimpleStack) (item : Bytes) (depth : ℕ) → Undoes items item depth
unfolding push pop top dup swap rot
undo items item depth = (refl, dup_part items, pick_part, swap_part items, rot_part items)
  where
    dup_part : (s : SimpleStack) → (dup s >>= pop) ≡ (top s >>= λ x. ok (x, s))
    dup_part [] = refl
    dup_part (a ∷ s) = refl

    pick_part :
        (pick depth items >>= pop) ≡ (pick depth items >>= λ t. top t >>= λ x. ok (x, items))
    pick_part = elim (pick-cases items depth) [ inl (_, e) ↦ rw e refl | inr (x, _, e) ↦ rw e refl ]

    swap_part : (s : SimpleStack) → (swap s >>= swap) ≡ (swap s >>= λ _. ok s)
    swap_part [] = refl
    swap_part (a ∷ []) = refl
    swap_part (a ∷ b ∷ s) = refl

    rot_part : (s : SimpleStack) → (rot s >>= rot >>= rot) ≡ (rot s >>= λ _. ok s)
    rot_part [] = refl
    rot_part (a ∷ []) = refl
    rot_part (a ∷ b ∷ []) = refl
    rot_part (a ∷ b ∷ c ∷ s) = refl

abbrev pub ThrowsIff : SimpleStack → ℕ → Type 0
ThrowsIff items depth =
    ((pop items ≡ err (runtime_error "Stack underflow")) ↔ (size items < 1))
    × ((top items ≡ err (runtime_error "Stack empty")) ↔ (size items < 1))
    × ((dup items ≡ err (runtime_error "Stack empty")) ↔ (size items < 1))
    × ((swap items ≡ err (runtime_error "Insufficient items")) ↔ (size items < 2))
    × ((rot items ≡ err (runtime_error "Insufficient items")) ↔ (size items < 3))
    × ((pick depth items ≡ err (runtime_error "Pick out of range")) ↔ (size items ≤ depth))
    × ((roll depth items ≡ err (runtime_error "Roll out of range")) ↔ (size items ≤ depth))

-- Each method throws its own exception exactly when the stack is too short for it.
pub throws_iff : (items : SimpleStack) (depth : ℕ) → ThrowsIff items depth
unfolding pop top dup swap rot size
throws_iff items depth = (
  pop_part items,
  top_part items,
  dup_part items,
  swap_part items,
  rot_part items,
  pick_part,
  roll_part,
)
  where
    pop_part : (s : SimpleStack) → (pop s ≡ err (runtime_error "Stack underflow")) ↔ (size s < 1)
    pop_part [] = ground arith
    pop_part (a ∷ s) = ground arith

    top_part : (s : SimpleStack) → (top s ≡ err (runtime_error "Stack empty")) ↔ (size s < 1)
    top_part [] = ground arith
    top_part (a ∷ s) = ground arith

    dup_part : (s : SimpleStack) → (dup s ≡ err (runtime_error "Stack empty")) ↔ (size s < 1)
    dup_part [] = ground arith
    dup_part (a ∷ s) = ground arith

    swap_part :
        (s : SimpleStack) → (swap s ≡ err (runtime_error "Insufficient items")) ↔ (size s < 2)
    swap_part [] = ground arith
    swap_part (a ∷ []) = ground arith
    swap_part (a ∷ b ∷ s) = ground arith

    rot_part : (s : SimpleStack) → (rot s ≡ err (runtime_error "Insufficient items")) ↔ (size s < 3)
    rot_part [] = ground arith
    rot_part (a ∷ []) = ground arith
    rot_part (a ∷ b ∷ []) = ground arith
    rot_part (a ∷ b ∷ c ∷ s) = ground arith

    pick_part : (pick depth items ≡ err (runtime_error "Pick out of range")) ↔ (size items ≤ depth)
    pick_part = elim (pick-cases items depth) [
      | inl (short, e) ↦ rw e (ground arith)
      | inr (x, deep, e) ↦ rw e (ground arith)
    ]

    roll_part : (roll depth items ≡ err (runtime_error "Roll out of range")) ↔ (size items ≤ depth)
    roll_part = elim (roll-cases items depth) [
      | inl (short, e) ↦ rw e (ground arith)
      | inr (t, deep, e) ↦ rw e (ground arith)
    ]

abbrev pub AtFixedDepth : SimpleStack → Type 0
AtFixedDepth items =
    (value? (dup items) ≡ value? (pick 0 items))
    × (value? (swap items) ≡ value? (roll 1 items))
    × (value? (rot items) ≡ value? (roll 2 items))

short-AtFixedDepth :
    (a b : Bytes) → AtFixedDepth [] × AtFixedDepth (a ∷ []) × AtFixedDepth (a ∷ b ∷ [])
unfolding dup swap rot pick roll
short-AtFixedDepth a b = ((refl, refl, refl), (refl, refl, refl), (refl, refl, refl))

-- `dup`, `swap` and `rot` are `pick` and `roll` at a fixed depth, and throw on the same stacks.
pub fixed_depth : (items : SimpleStack) → AtFixedDepth items
unfolding dup swap rot erase_from_back
fixed_depth [] = (short-AtFixedDepth [] []).0
fixed_depth (a ∷ []) = (short-AtFixedDepth a []).1
fixed_depth (a ∷ b ∷ []) = (short-AtFixedDepth a b).2
fixed_depth (a ∷ b ∷ c ∷ items) =
    let s = a ∷ b ∷ c ∷ items in
    (rw (pick-at s 0 refl) refl, rw (roll-at s 1 refl) refl, rw (roll-at s 2 refl) refl)
