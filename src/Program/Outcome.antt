-- ===== src/Program/Outcome.antt =====
-- What `CostEstimator::Impl::estimate` returns, output by output.
use bsv_miner_op_code_calc.Common.{
  ℕ, ◌+◌, ◌*◌, ◌≤◌, ◌<◌, ◌^◌, ◌≡◌, refl, ap, ◌∙◌, false, ltb, List, [], ◌++◌, length, All, u32, u64,
  Returns, arith,
}
use bsv_miner_op_code_calc.Double.{Double, cast64}
use bsv_miner_op_code_calc.Tx.{Script, Transaction}
use bsv_miner_op_code_calc.Model.{Impl}
use bsv_miner_op_code_calc.Estimate.Machine.{CostEstimate, EstimatorLimits}
use bsv_miner_op_code_calc.Estimate.Loop.{start, estimate_with_limits}
use bsv_miner_op_code_calc.Program.{Instr, decode, total_price, final_stack, signature_ops}
use bsv_miner_op_code_calc.Program.Run.{run, executed, specified}
use bsv_miner_op_code_calc.Program.Decode.{decode-IsSized, decode-le}
use bsv_miner_op_code_calc.Program.Totals.{total-run, stack-run, count-run, signatures-run}
use bsv_miner_op_code_calc.Program.Breakdown.{
  breakdown_sum, uncategorised, untotalled, balance-run, overheads-run,
}
use bsv_miner_op_code_calc.Program.Peaks.{most_items, most_bytes, peaks-run}
use bsv_miner_op_code_calc.Program.Limits.{
  Ending, run-Ending, count-le-limit, executed-le, run-max_total_cycles,
}
use bsv_miner_op_code_calc.Program.Refine.{estimate-specified}

-- A script of bytes that the size limit admits, shorter than half the address space.
pub record IsAdmitted (limits : EstimatorLimits) (combined : Script) : Type 0 where
  pub small : length combined < 2 ^ 63
  pub bytes : All (λ n. n < 256) combined
  pub within : length combined ≤ limits.max_script_size

module _ {ℓ} {W : Type ℓ} ⦃d : Double W⦄ (impl : Impl W) (tx : Transaction)
    (limits : EstimatorLimits) (unlocking_script locking_script : Script) where
  -- The cycles of parsing both scripts.
  abbrev pub parsing_cycles : ℕ
  parsing_cycles =
      cast64 (d.mul impl.c_parse_per_byte (d.of_u64 (length (unlocking_script ++ locking_script))))

  -- The instructions that are executed before the scripts or a limit end the run.
  abbrev pub executed_instrs : List Instr
  executed_instrs =
      let combined = unlocking_script ++ locking_script in
      executed impl tx limits (decode 0 combined) (start impl combined)

  -- It is enough to know the result of the run.
  Returns-run :
      (P : CostEstimate → Type 0) (input_index : ℕ)
      → IsAdmitted limits (unlocking_script ++ locking_script)
      → (let combined = unlocking_script ++ locking_script in
          P (run impl tx limits (decode 0 combined) (start impl combined)).result)
      → Returns (estimate_with_limits impl tx input_index limits unlocking_script locking_script) P
  unfolding specified
  Returns-run P input_index a p =
      let combined = unlocking_script ++ locking_script in
      let fits : ltb limits.max_script_size (length combined) ≡ false = ground arith in
      rw
        (
          estimate-specified impl tx input_index limits unlocking_script locking_script a.small
              a.bytes,
          fits,
        )
        p

  module _ (input_index : ℕ) (a : IsAdmitted limits (unlocking_script ++ locking_script)) where
    -- On admitted scripts the total is the parsing cost and the price of every executed instruction, and the two counts are
    -- those of the executed instructions and of the signature checks among them, all as words.
    pub estimate-total_price :
        Returns
          (estimate_with_limits impl tx input_index limits unlocking_script locking_script)
          λ r.
            (r.total_cycles ≡ u64 (parsing_cycles + total_price impl executed_instrs []))
            × (r.opcode_count ≡ u32 (length executed_instrs))
            × (r.signature_count ≡ u32 (signature_ops executed_instrs))
    unfolding start
    estimate-total_price =
        let combined = unlocking_script ++ locking_script in
        let is = decode 0 combined in
        let m = start impl combined in
        Returns-run _ input_index a (
          omega (arith, total-run impl tx limits is m (omega arith)),
          omega (arith, count-run impl tx limits is m (omega arith)),
          omega (arith, signatures-run impl tx limits is m (omega arith)),
        )

    -- On admitted scripts the total and the sum of the breakdown agree as words, but for the costs of the opcodes with no
    -- category and of the signature checks, which the two sides price differently.
    pub estimate-breakdown_sum :
        Returns
          (estimate_with_limits impl tx input_index limits unlocking_script locking_script)
          λ r.
            (u64 (r.total_cycles + untotalled impl tx executed_instrs)
              ≡ u64 (breakdown_sum r.breakdown + uncategorised impl tx executed_instrs))
    unfolding start
    estimate-breakdown_sum =
        let combined = unlocking_script ++ locking_script in
        let is = decode 0 combined in
        let m = start impl combined in
        Returns-run _ input_index a (omega (arith, balance-run impl tx limits is m))

    -- On admitted scripts the peaks are the most items on the stack after an executed instruction, and the most bytes
    -- counted then: those on the stack and those that signature checks leaked.
    pub estimate-peaks :
        Returns
          (estimate_with_limits impl tx input_index limits unlocking_script locking_script)
          λ r.
            (r.peak_stack_items ≡ most_items executed_instrs [])
            × (r.peak_stack_bytes ≡ most_bytes executed_instrs [] 0)
    unfolding start
    estimate-peaks =
        let combined = unlocking_script ++ locking_script in
        let is = decode 0 combined in
        let m = start impl combined in
        Returns-run _ input_index a (
          omega (
            arith,
            peaks-run impl tx limits is m (decode-IsSized 0 combined a.bytes)
                (record { words = tt; counted = omega arith }),
          ))

    -- On admitted scripts either there is no warning, every instruction was executed, and both peaks are within the limits;
    -- or there is one warning, and it names a limit that was reached or passed.
    pub estimate-Ending :
        Returns
          (estimate_with_limits impl tx input_index limits unlocking_script locking_script)
          λ r.
            Ending impl tx limits []
              (decode 0 (unlocking_script ++ locking_script))
              executed_instrs
              r
              (final_stack executed_instrs [])
    unfolding start
    estimate-Ending =
        let combined = unlocking_script ++ locking_script in
        let is = decode 0 combined in
        let m = start impl combined in
        Returns-run _ input_index a (
          rw (← stack-run impl tx limits is m)
            (run-Ending impl tx limits [] is m refl (omega arith) (omega arith)))

    -- On admitted scripts the parsing cost is that of the whole length, the dispatch cost the same for each executed
    -- instruction, and no cycle is charged to control flow.
    pub estimate-overheads :
        Returns
          (estimate_with_limits impl tx input_index limits unlocking_script locking_script)
          λ r.
            (r.breakdown.parsing ≡ parsing_cycles)
            × (r.breakdown.dispatch ≡ u64 (length executed_instrs * cast64 impl.c_dispatch))
            × (r.breakdown.control_flow ≡ 0)
    unfolding start
    estimate-overheads =
        let combined = unlocking_script ++ locking_script in
        let is = decode 0 combined in
        let m = start impl combined in
        let e = overheads-run impl tx limits is m (omega arith) in
        Returns-run _ input_index a
          (ap (λ t. t.0) e, ap (λ t. t.1) e ∙ omega arith, ap (λ t. t.2) e)

    -- On admitted scripts, with a limit on the opcode count that is a uint32_t, no more instructions are
    -- counted than the limit allows, nor than the scripts have bytes.
    pub estimate-opcode_count_le :
        limits.max_opcode_count < 2 ^ 32
        → Returns
            (estimate_with_limits impl tx input_index limits unlocking_script locking_script)
            λ r.
              (r.opcode_count ≤ limits.max_opcode_count)
              × (r.opcode_count ≤ length (unlocking_script ++ locking_script))
    unfolding start
    estimate-opcode_count_le word =
        let combined = unlocking_script ++ locking_script in
        let is = decode 0 combined in
        let m = start impl combined in
        Returns-run _ input_index a (
          count-le-limit impl tx limits is m word (omega arith),
          omega (
            arith,
            count-run impl tx limits is m (omega arith),
            executed-le impl tx limits is m,
            decode-le 0 combined,
          ),
        )

  -- On admitted scripts the limit on the total cycles has no effect.
  pub estimate-max_total_cycles_unused :
      (input_index cycles : ℕ)
      → IsAdmitted limits (unlocking_script ++ locking_script)
      → estimate_with_limits impl tx input_index
          (record limits { max_total_cycles = cycles })
          unlocking_script
          locking_script
        ≡ estimate_with_limits impl tx input_index limits unlocking_script locking_script
  unfolding specified
  estimate-max_total_cycles_unused input_index cycles a =
      let combined = unlocking_script ++ locking_script in
      rw (
        estimate-specified impl tx input_index limits unlocking_script locking_script a.small
            a.bytes,
        estimate-specified impl tx input_index (record limits { max_total_cycles = cycles })
            unlocking_script locking_script a.small a.bytes,
        run-max_total_cycles impl tx limits cycles (decode 0 combined) (start impl combined),
      )
