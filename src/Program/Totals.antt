-- ===== src/Program/Totals.antt =====
-- The total, the counters and the stack of a run, as sums over the executed instructions.
use mathlib.Core.List.{foldl}
use mathlib.Core.Path.{ap₂}
use bsv_miner_op_code_calc.Common.{
  ℕ, ◌+◌, ◌<◌, ◌^◌, ◌≡◌, refl, ap, ◌∙◌, List, [], ◌∷◌, length, u32, u64, arith,
}
use bsv_miner_op_code_calc.Double.{Double}
use bsv_miner_op_code_calc.Tx.{Transaction}
use bsv_miner_op_code_calc.Model.{Impl}
use bsv_miner_op_code_calc.Estimate.Machine.{EstimatorLimits, Machine}
use bsv_miner_op_code_calc.Program.{
  Instr, push_data, exec, kind, stack_step, price, total_price, final_stack, signature_ops,
  signatures_of,
}
use bsv_miner_op_code_calc.Program.Run.{step, run, executed, count_signatures}
use bsv_miner_op_code_calc.Program.Ledger.{
  stack-step, total-step, count-step, run-foldl, count_signatures-lem,
}

foldl-final_stack :
    (is : List Instr) (stack : List ℕ)
    → foldl (λ s i. stack_step i s) stack is ≡ final_stack is stack
unfolding final_stack
foldl-final_stack [] stack = refl
foldl-final_stack (i ∷ is) stack = foldl-final_stack is (stack_step i stack)

foldl-count :
    (is : List Instr) (n : ℕ) → n < 2 ^ 32 → foldl (λ c i. u32 (c + 1)) n is ≡ u32 (n + length is)
foldl-count [] n h = omega arith
foldl-count (i ∷ is) n h = omega (arith, foldl-count is (u32 (n + 1)) (omega arith))

sign_step : Instr → ℕ → ℕ
sign_step (push_data _) n = n
sign_step (exec op) n = count_signatures (kind op) n

foldl-signatures :
    (is : List Instr) (n : ℕ)
    → n < 2 ^ 32
    → foldl (λ c i. sign_step i c) n is ≡ u32 (n + signature_ops is)
unfolding sign_step signature_ops
foldl-signatures [] n h = omega arith
foldl-signatures (push_data _ ∷ is) n h = foldl-signatures is n h
foldl-signatures (exec op ∷ is) n h =
    let next : count_signatures (kind op) n ≡ u32 (n + signatures_of (kind op)) =
      count_signatures-lem (kind op) n h in
    omega (arith, foldl-signatures is (count_signatures (kind op) n) (omega arith))

module _ {ℓ} {W : Type ℓ} ⦃d : Double W⦄ (impl : Impl W) where
  sign-step :
      (tx : Transaction) (i : Instr) (m : Machine)
      → (step impl tx i m).result.signature_count ≡ sign_step i m.result.signature_count
  unfolding step sign_step
  sign-step tx (push_data _) m = refl
  sign-step tx (exec op) m = refl

  foldl-total_price :
      (is : List Instr) (t : ℕ) (stack : List ℕ)
      → t < 2 ^ 64
      → (foldl {B = ℕ × List ℕ}
          (λ s i. (u64 (s.0 + price impl i s.1), stack_step i s.1))
          (t, stack)
          is).0
        ≡ u64 (t + total_price impl is stack)
  unfolding total_price
  foldl-total_price [] t stack h = omega arith
  foldl-total_price (i ∷ is) t stack h = omega (
    arith,
    foldl-total_price is (u64 (t + price impl i stack)) (stack_step i stack) (omega arith),
  )

  module _ (tx : Transaction) (limits : EstimatorLimits) (is : List Instr) (m : Machine) where
    pub stack-run :
        (run impl tx limits is m).stack_sizes
        ≡ final_stack (executed impl tx limits is m) m.stack_sizes
    stack-run =
        run-foldl impl tx limits (λ m. m.stack_sizes) (λ s i. stack_step i s) (stack-step impl tx)
          (λ w m. refl) is m
        ∙ foldl-final_stack (executed impl tx limits is m) m.stack_sizes

    pub total-run :
        m.result.total_cycles < 2 ^ 64
        → (run impl tx limits is m).result.total_cycles
          ≡ u64 (
              m.result.total_cycles + total_price impl (executed impl tx limits is m) m.stack_sizes)
    total-run h =
        ap (λ s. s.0)
          (run-foldl impl tx limits {S = ℕ × List ℕ} (λ m. (m.result.total_cycles, m.stack_sizes))
            (λ s i. (u64 (s.0 + price impl i s.1), stack_step i s.1))
            (λ i m. ap₂ (λ a b. (a, b)) (total-step impl tx i m) (stack-step impl tx i m))
            (λ w m. refl) is m)
        ∙ foldl-total_price (executed impl tx limits is m) m.result.total_cycles m.stack_sizes h

    pub count-run :
        m.result.opcode_count < 2 ^ 32
        → (run impl tx limits is m).result.opcode_count
          ≡ u32 (m.result.opcode_count + length (executed impl tx limits is m))
    count-run h =
        run-foldl impl tx limits (λ m. m.result.opcode_count) (λ c i. u32 (c + 1))
          (count-step impl tx) (λ w m. refl) is m
        ∙ foldl-count (executed impl tx limits is m) m.result.opcode_count h

    pub signatures-run :
        m.result.signature_count < 2 ^ 32
        → (run impl tx limits is m).result.signature_count
          ≡ u32 (m.result.signature_count + signature_ops (executed impl tx limits is m))
    signatures-run h =
        run-foldl impl tx limits (λ m. m.result.signature_count) (λ n i. sign_step i n)
          (sign-step tx) (λ w m. refl) is m
        ∙ foldl-signatures (executed impl tx limits is m) m.result.signature_count h
