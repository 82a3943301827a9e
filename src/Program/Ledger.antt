-- ===== src/Program/Ledger.antt =====
-- What the outputs of a run add up to, over the instructions that the limits let through.
use bsv_miner_op_code_calc.Common.{
  ℕ, ◌+◌, ◌<◌, ◌^◌, ◌≡◌, refl, ap, ◌∙◌, leb, Bool-cases, Option-cases, inl, inr, List, [], ◌∷◌,
  foldl, String, u32, u64, arith,
}
use bsv_miner_op_code_calc.Double.{Double}
use bsv_miner_op_code_calc.Tx.{Transaction}
use bsv_miner_op_code_calc.Model.{Impl}
use bsv_miner_op_code_calc.Estimate.Machine.{EstimatorLimits, Machine}
use bsv_miner_op_code_calc.Program.{
  Instr, push_data, exec, Kind, kind, stack_step, price, signatures_of,
}
use bsv_miner_op_code_calc.Program.Run.{step, run, executed, over_limit, warned, count_signatures}

pub count_signatures-lem :
    (k : Kind) (n : ℕ) → n < 2 ^ 32 → count_signatures k n ≡ u32 (n + signatures_of k)
unfolding count_signatures signatures_of
count_signatures-lem Kind.check_signature n h = refl
count_signatures-lem _ n h = omega arith

module _ {ℓ} {W : Type ℓ} ⦃d : Double W⦄ (impl : Impl W) (tx : Transaction) where
  pub stack-step :
      (i : Instr) (m : Machine) → (step impl tx i m).stack_sizes ≡ stack_step i m.stack_sizes
  unfolding step stack_step
  stack-step (push_data n) m = refl
  stack-step (exec op) m = refl

  pub total-step :
      (i : Instr) (m : Machine)
      → (step impl tx i m).result.total_cycles
        ≡ u64 (m.result.total_cycles + price impl i m.stack_sizes)
  unfolding step price kind
  total-step (push_data n) m = omega arith
  total-step (exec op) m = omega arith

  pub count-step :
      (i : Instr) (m : Machine)
      → (step impl tx i m).result.opcode_count ≡ u32 (m.result.opcode_count + 1)
  unfolding step
  count-step (push_data n) m = refl
  count-step (exec op) m = refl

  module _ (limits : EstimatorLimits) where
    -- An output that each step computes from its old value, and that no warning touches, is a fold
    -- over the instructions that are executed.
    pub run-foldl {κ} :
        {S : Type κ} (view : Machine → S) (next_view : S → Instr → S)
        → ((i : Instr) (m : Machine) → view (step impl tx i m) ≡ next_view (view m) i)
        → ((w : String) (m : Machine) → view (warned w m) ≡ view m)
        → (is : List Instr) (m : Machine)
        → view (run impl tx limits is m) ≡ foldl next_view (view m) (executed impl tx limits is m)
    unfolding run executed
    run-foldl view next_view on_step on_warn [] m = refl
    run-foldl view next_view on_step on_warn (i ∷ is) m =
        let after = step impl tx i m in
        elim (Bool-cases (leb limits.max_opcode_count m.result.opcode_count)) [
          | inl full ↦ rw full (on_warn _ m)
          | inr room ↦ elim (Option-cases (over_limit limits after)) [
            | inl fits ↦
                rw (room, fits)
                  (run-foldl view next_view on_step on_warn is after
                    ∙ ap (λ s. foldl next_view s (executed impl tx limits is after)) (on_step i m))
            | inr (w, over) ↦ rw (room, over) (on_warn w after ∙ on_step i m)
          ]
        ]
