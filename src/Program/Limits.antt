-- ===== src/Program/Limits.antt =====
-- How a run ends: at the end of its instructions, or at the limit that its warning names.
use bsv_miner_op_code_calc.Common.{
  ℕ, ◌≤◌, ◌<◌, ◌^◌, ◌≡◌, ◌⊎◌, refl, ap, ◌∙◌, leb, Bool-cases, Option-cases, inl, inr, false, none,
  some, String, List, [], ◌∷◌, ◌++◌, length, arith,
}
use bsv_miner_op_code_calc.Double.{Double}
use bsv_miner_op_code_calc.Tx.{Transaction}
use bsv_miner_op_code_calc.Model.{Impl}
use bsv_miner_op_code_calc.Estimate.Machine.{CostEstimate, EstimatorLimits, Machine, warn}
use bsv_miner_op_code_calc.Program.{Instr, push_data, exec}
use bsv_miner_op_code_calc.Program.Run.{step, run, executed, over_limit}
use bsv_miner_op_code_calc.Program.Ledger.{count-step}

module _ {ℓ} {W : Type ℓ} ⦃d : Double W⦄ (impl : Impl W) (tx : Transaction)
    (limits : EstimatorLimits) where
  -- The result `r` of a run of all of `is`, of which `done` were executed; `old` are the warnings from
  -- before.
  pub record Completed (old : List String) (is done : List Instr) (r : CostEstimate) : Type 0 where
    pub no_warning : r.warnings ≡ old
    pub all_done : done ≡ is
    pub bytes_within : r.peak_stack_bytes ≤ limits.max_stack_item_size
    pub items_within : r.peak_stack_items ≤ limits.max_stack_items

  abbrev pub StoppedBy : List String → String → CostEstimate → Type 0 → Type 0
  StoppedBy old w r cause = (r.warnings ≡ old ++ (w ∷ [])) × cause

  -- `stack` is the stack of sizes at the end.
  abbrev pub Ending : List String → List Instr → List Instr → CostEstimate → List ℕ → Type 0
  Ending old is done r stack =
      Completed old is done r
      ⊎ (StoppedBy old "Opcode count limit exceeded" r (limits.max_opcode_count ≤ r.opcode_count)
          ⊎ (StoppedBy old "Stack byte limit exceeded" r
                (limits.max_stack_item_size < r.peak_stack_bytes)
              ⊎ StoppedBy old "Stack item count limit exceeded" r
                  (limits.max_stack_items < length stack)))

  peak-step :
      (i : Instr) (m : Machine)
      → (step impl tx i m).current_stack_bytes ≤ (step impl tx i m).result.peak_stack_bytes
  unfolding step
  peak-step (push_data n) m = omega arith
  peak-step (exec op) m = omega arith

  warnings-step : (i : Instr) (m : Machine) → (step impl tx i m).result.warnings ≡ m.result.warnings
  unfolding step
  warnings-step (push_data n) m = refl
  warnings-step (exec op) m = refl

  peaks-step :
      (i : Instr) (m : Machine)
      → m.result.peak_stack_bytes ≤ limits.max_stack_item_size
      → m.result.peak_stack_items ≤ limits.max_stack_items
      → over_limit limits (step impl tx i m) ≡ none
      → ((step impl tx i m).result.peak_stack_bytes ≤ limits.max_stack_item_size)
        × ((step impl tx i m).result.peak_stack_items ≤ limits.max_stack_items)
  unfolding step over_limit
  peaks-step (push_data n) m p q h = ground arith
  peaks-step (exec op) m p q h = ground arith

  over-Ending :
      (old : List String) (is done : List Instr) (m : Machine) {w : String}
      → m.result.warnings ≡ old
      → m.current_stack_bytes ≤ m.result.peak_stack_bytes
      → over_limit limits m ≡ some w
      → Ending old is done (warn w m.result) m.stack_sizes
  unfolding over_limit
  over-Ending old is done m e peak over = ground arith

  cons-Ending :
      (old : List String) (i : Instr) (is done : List Instr) (r : CostEstimate) (stack : List ℕ)
      → Ending old is done r stack
      → Ending old (i ∷ is) (i ∷ done) r stack
  cons-Ending old i is done r stack (inl c) = inl (record {
    no_warning = c.no_warning;
    all_done = ap (λ t. i ∷ t) c.all_done;
    bytes_within = c.bytes_within;
    items_within = c.items_within;
  })
  cons-Ending old i is done r stack (inr s) = inr s

  -- A run that starts within the limits ends in one of the four ways.
  pub run-Ending :
      (old : List String) (is : List Instr) (m : Machine)
      → m.result.warnings ≡ old
      → m.result.peak_stack_bytes ≤ limits.max_stack_item_size
      → m.result.peak_stack_items ≤ limits.max_stack_items
      → let after = run impl tx limits is m in
        Ending old is (executed impl tx limits is m) after.result after.stack_sizes
  unfolding run executed
  run-Ending old [] m e p q =
      inl (record { no_warning = e; all_done = refl; bytes_within = p; items_within = q })
  run-Ending old (i ∷ is) m e p q =
      let after = step impl tx i m in
      let e' = warnings-step i m ∙ e in
      elim (Bool-cases (leb limits.max_opcode_count m.result.opcode_count)) [
        | inl full ↦
            rw full
              (inr (inl (ap (λ ws. ws ++ ("Opcode count limit exceeded" ∷ [])) e, ground arith)))
        | inr room ↦ elim (Option-cases (over_limit limits after)) [
          | inl fits ↦
              let (p', q') = peaks-step i m p q fits in
              rw (room, fits)
                (cons-Ending old i is (executed impl tx limits is after)
                  (run impl tx limits is after).result (run impl tx limits is after).stack_sizes
                  (run-Ending old is after e' p' q'))
          | inr (w, over) ↦
              rw (room, over) (over-Ending old (i ∷ is) (i ∷ []) after e' (peak-step i m) over)
        ]
      ]

  count_within-step :
      (i : Instr) (m : Machine)
      → limits.max_opcode_count < 2 ^ 32
      → leb limits.max_opcode_count m.result.opcode_count ≡ false
      → (step impl tx i m).result.opcode_count ≤ limits.max_opcode_count
  count_within-step i m small room = ground (arith, count-step impl tx i m)

  -- No run executes more opcodes than the limit allows.
  pub count-le-limit :
      (is : List Instr) (m : Machine)
      → limits.max_opcode_count < 2 ^ 32
      → m.result.opcode_count ≤ limits.max_opcode_count
      → (run impl tx limits is m).result.opcode_count ≤ limits.max_opcode_count
  unfolding run
  count-le-limit [] m small h = h
  count-le-limit (i ∷ is) m small h =
      ground (arith, count_within-step i m small, count-le-limit is (step impl tx i m) small)

  pub executed-le :
      (is : List Instr) (m : Machine) → length (executed impl tx limits is m) ≤ length is
  unfolding executed
  executed-le [] m = omega arith
  executed-le (i ∷ is) m = ground (arith, executed-le is (step impl tx i m))

  pub run-max_total_cycles :
      (cycles : ℕ) (is : List Instr) (m : Machine)
      → run impl tx (record limits { max_total_cycles = cycles }) is m ≡ run impl tx limits is m
  unfolding run over_limit
  run-max_total_cycles cycles [] m = refl
  run-max_total_cycles cycles (i ∷ is) m =
      ground (arith, run-max_total_cycles cycles is (step impl tx i m))
