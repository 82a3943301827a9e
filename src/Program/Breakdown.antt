-- ===== src/Program/Breakdown.antt =====
-- How the total of a run and the categories of its breakdown fit together.
use mathlib.Core.List.{foldl}
use bsv_miner_op_code_calc.Common.{
  ℕ, suc, ◌+◌, ◌*◌, ◌<◌, ◌^◌, ap, ◌∙◌, ◌≡◌, ◌⊎◌, refl, inl, inr, List, [], ◌∷◌, length, u64, add64,
  arith,
}
use bsv_miner_op_code_calc.Double.{Double, cast64}
use bsv_miner_op_code_calc.Tx.{Transaction, serialize_size}
use bsv_miner_op_code_calc.Model.{Impl, calculate_opcode_cost}
use bsv_miner_op_code_calc.Estimate.Machine.{EstimatorLimits, Machine, Breakdown}
use bsv_miner_op_code_calc.Program.{Instr, push_data, exec, Kind, kind, priced_by, surcharge}
use bsv_miner_op_code_calc.Program.Ledger.{run-foldl}
use bsv_miner_op_code_calc.Program.Run.{step, run, executed, charge, breakdown_params}

abbrev pub breakdown_sum : Breakdown → ℕ
breakdown_sum b =
    b.parsing + b.dispatch + b.stack_ops + b.byte_ops + b.hashing + b.signatures + b.control_flow

-- Cycles of an opcode of cost `c` that the total holds and no category does.
unfoldable pub uncategorised_cost : Kind → ℕ → ℕ
uncategorised_cost Kind.unknown c = 100 + c
uncategorised_cost Kind.check_signature c = c
uncategorised_cost _ c = 0

-- Cycles that a category holds and the total does not.
unfoldable pub untotalled_cost : Kind → ℕ → ℕ
untotalled_cost Kind.check_signature c = c
untotalled_cost _ c = 0

charge_lem :
    (k : Kind) (t priced listed : ℕ) (b : Breakdown)
    → (k ≡ Kind.check_signature) ⊎ (listed ≡ priced)
    → u64 (t + surcharge k + priced + breakdown_sum b + untotalled_cost k listed)
      ≡ u64 (t + breakdown_sum (charge k listed b) + uncategorised_cost k priced)
unfolding surcharge charge uncategorised_cost untotalled_cost
charge_lem Kind.duplicate t priced listed b h = ground arith
charge_lem _ t priced listed b h = ground arith

-- The categories that no opcode is charged to.
abbrev pub overheads : Breakdown → ℕ × ℕ × ℕ
overheads b = (b.parsing, b.dispatch, b.control_flow)

overheads-charge : (k : Kind) (c : ℕ) (b : Breakdown) → overheads (charge k c b) ≡ overheads b
unfolding charge
overheads-charge Kind.duplicate c b = refl
overheads-charge _ c b = refl

next_overheads : ℕ → ℕ × ℕ × ℕ → Instr → ℕ × ℕ × ℕ
next_overheads cycles (p, d, c) i = (p, add64 d cycles, c)

foldl-overheads :
    (cycles : ℕ) (is : List Instr) (p d c : ℕ)
    → d < 2 ^ 64
    → foldl (next_overheads cycles) (p, d, c) is ≡ (p, u64 (d + length is * cycles), c)
unfolding next_overheads
foldl-overheads cycles [] p d c h =
    let same : d ≡ u64 (d + 0 * cycles) = omega arith in ap (λ (t : ℕ). (p, t, c)) same
foldl-overheads cycles (i ∷ is) p d c h =
    let n = length is in
    let same : u64 (add64 d cycles + n * cycles) ≡ u64 (d + suc n * cycles) = omega arith in
    foldl-overheads cycles is p (add64 d cycles) c (omega arith) ∙ ap (λ (t : ℕ). (p, t, c)) same

module _ {ℓ} {W : Type ℓ} ⦃d : Double W⦄ (impl : Impl W) (tx : Transaction) where
  unfoldable pub uncategorised : List Instr → ℕ
  uncategorised [] = 0
  uncategorised (push_data _ ∷ is) = uncategorised is
  uncategorised (exec op ∷ is) =
      uncategorised_cost (kind op) (calculate_opcode_cost impl op []) + uncategorised is

  unfoldable pub untotalled : List Instr → ℕ
  untotalled [] = 0
  untotalled (push_data _ ∷ is) = untotalled is
  untotalled (exec op ∷ is) =
      untotalled_cost (kind op) (calculate_opcode_cost impl op (u64 (serialize_size tx + 4) ∷ []))
      + untotalled is

  untotalled-cons :
      (i : Instr) (is : List Instr) → untotalled (i ∷ is) ≡ untotalled (i ∷ []) + untotalled is
  unfolding untotalled
  untotalled-cons (push_data _) is = omega arith
  untotalled-cons (exec _) is = omega arith

  uncategorised-cons :
      (i : Instr) (is : List Instr)
      → uncategorised (i ∷ is) ≡ uncategorised (i ∷ []) + uncategorised is
  unfolding uncategorised
  uncategorised-cons (push_data _) is = omega arith
  uncategorised-cons (exec _) is = omega arith

  uncategorised_cost-priced_by :
      (k : Kind) (cost : List ℕ → ℕ) (stack : List ℕ)
      → uncategorised_cost k (cost (priced_by k stack)) ≡ uncategorised_cost k (cost [])
  unfolding uncategorised_cost priced_by
  uncategorised_cost-priced_by Kind.unknown cost stack = refl
  uncategorised_cost-priced_by Kind.check_signature cost stack = refl
  uncategorised_cost-priced_by _ cost stack = refl

  untotalled_cost-params :
      (k : Kind) (cost : List ℕ → ℕ) (stack : List ℕ)
      → untotalled_cost k (cost (breakdown_params tx k stack))
        ≡ untotalled_cost k (cost (u64 (serialize_size tx + 4) ∷ []))
  unfolding untotalled_cost breakdown_params
  untotalled_cost-params Kind.check_signature cost stack = refl
  untotalled_cost-params _ cost stack = refl

  listed-cases :
      (k : Kind) (cost : List ℕ → ℕ) (stack : List ℕ)
      → (k ≡ Kind.check_signature) ⊎ (cost (breakdown_params tx k stack) ≡ cost (priced_by k stack))
  unfolding breakdown_params priced_by
  listed-cases Kind.check_signature cost stack = inl refl
  listed-cases _ cost stack = inr refl

  balance-step :
      (i : Instr) (m : Machine)
      → let after = step impl tx i m in
        u64 (after.result.total_cycles + breakdown_sum m.result.breakdown + untotalled (i ∷ []))
        ≡ u64
            (m.result.total_cycles + breakdown_sum after.result.breakdown + uncategorised (i ∷ []))
  unfolding step untotalled uncategorised
  balance-step (push_data n) m = omega arith
  balance-step (exec op) m =
      let k = kind op in
      let cost = calculate_opcode_cost impl op in
      let stack = m.stack_sizes in
      omega (
        arith,
        charge_lem k (m.result.total_cycles + cast64 impl.c_dispatch) (cost (priced_by k stack))
            (cost (breakdown_params tx k stack))
            (record (m.result.breakdown) {
              dispatch = add64 m.result.breakdown.dispatch (cast64 impl.c_dispatch);
            })
            (listed-cases k cost stack),
        uncategorised_cost-priced_by k cost stack,
        untotalled_cost-params k cost stack,
      )

  module _ (limits : EstimatorLimits) where
    pub balance-run :
        (is : List Instr) (m : Machine)
        → let after = run impl tx limits is m in
          let done = executed impl tx limits is m in
          u64 (after.result.total_cycles + breakdown_sum m.result.breakdown + untotalled done)
          ≡ u64 (m.result.total_cycles + breakdown_sum after.result.breakdown + uncategorised done)
    unfolding run executed untotalled uncategorised
    balance-run [] m = omega arith
    balance-run (i ∷ is) m = ground (
      arith,
      balance-step i m,
      balance-run is (step impl tx i m),
      untotalled-cons i is,
      untotalled-cons i [],
      uncategorised-cons i is,
      uncategorised-cons i [],
    )

    overheads-step :
        (i : Instr) (m : Machine)
        → overheads (step impl tx i m).result.breakdown
          ≡ next_overheads (cast64 impl.c_dispatch) (overheads m.result.breakdown) i
    unfolding step next_overheads
    overheads-step (push_data _) m = refl
    overheads-step (exec op) m = overheads-charge (kind op) _ _

    pub overheads-run :
        (is : List Instr) (m : Machine)
        → m.result.breakdown.dispatch < 2 ^ 64
        → overheads (run impl tx limits is m).result.breakdown ≡ (
          m.result.breakdown.parsing,
          u64 (
              m.result.breakdown.dispatch
              + length (executed impl tx limits is m) * cast64 impl.c_dispatch),
          m.result.breakdown.control_flow,
        )
    overheads-run is m h =
        run-foldl impl tx limits (λ m. overheads m.result.breakdown)
          (next_overheads (cast64 impl.c_dispatch)) overheads-step (λ w m. refl) is m
        ∙ foldl-overheads (cast64 impl.c_dispatch) (executed impl tx limits is m)
            m.result.breakdown.parsing m.result.breakdown.dispatch m.result.breakdown.control_flow h
