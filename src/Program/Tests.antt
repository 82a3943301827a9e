-- ===== src/Program/Tests.antt =====
-- The theorems at the scripts of libbsv_cost_estimator/examples/estimate_tx.cpp and
-- libbsv_cost_estimator/tests/test_estimator.cpp.
use bsv_miner_op_code_calc.Common.{
  ◌≤◌, ◌≡◌, refl, [], ◌∷◌, ◌++◌, u64, ◌+◌, ◌-◌, ◌^◌, ok, Returns, arith,
}
use bsv_miner_op_code_calc.Double.Fixed.{decimal_double}
use bsv_miner_op_code_calc.OpCode.{of_byte}
use bsv_miner_op_code_calc.Tx.{serialize_size}
use bsv_miner_op_code_calc.Model.{calculate_opcode_cost}
use bsv_miner_op_code_calc.Estimate.Machine.{default_limits}
use bsv_miner_op_code_calc.Estimate.Loop.{start, estimate_with_limits}
use bsv_miner_op_code_calc.Estimate.Sample.{
  example_impl, sample_tx, hash_unlocking, hash_locking, cat_unlocking, cat_locking, leak_locking,
}
use bsv_miner_op_code_calc.Program.{
  decode, kind, stack_after, priced_by, bytes_after, surcharge, signatures_of, stack_step, price,
  total_price, final_stack, signature_ops,
}
use bsv_miner_op_code_calc.Program.Run.{
  run, executed, specified, over_limit, step, charge, count_signatures, breakdown_params,
}
use bsv_miner_op_code_calc.Program.Breakdown.{
  breakdown_sum, uncategorised, untotalled, uncategorised_cost, untotalled_cost,
}
use bsv_miner_op_code_calc.Program.Peaks.{most_items, most_bytes, leak}
use bsv_miner_op_code_calc.Program.Limits.{Ending}
use bsv_miner_op_code_calc.Program.Refine.{estimate-specified}
use bsv_miner_op_code_calc.Program.Outcome.{
  IsAdmitted, executed_instrs, estimate-total_price, estimate-breakdown_sum, estimate-peaks,
  estimate-Ending, estimate-overheads, estimate-opcode_count_le, estimate-max_total_cycles_unused,
}

-- What the specification computes with.
spec_opened : Unit {0}
unfolding serialize_size specified run executed step over_limit decode of_byte kind total_price
    price stack_step surcharge priced_by calculate_opcode_cost signature_ops signatures_of start
    charge count_signatures breakdown_params stack_after bytes_after uncategorised untotalled
    uncategorised_cost untotalled_cost most_items most_bytes leak final_stack
spec_opened = tt

hash_chain-IsAdmitted : IsAdmitted default_limits (hash_unlocking ++ hash_locking)
hash_chain-IsAdmitted = omega arith

cat-IsAdmitted : IsAdmitted default_limits (cat_unlocking ++ cat_locking)
cat-IsAdmitted = omega arith

estimate-specified_example :
    estimate_with_limits example_impl sample_tx 0 default_limits hash_unlocking hash_locking
    ≡ ok (specified example_impl sample_tx default_limits hash_unlocking hash_locking)
estimate-specified_example =
    estimate-specified example_impl sample_tx 0 default_limits hash_unlocking hash_locking
      (omega arith) (omega arith)

estimate-total_price_example :
    Returns
      (estimate_with_limits example_impl sample_tx 0 default_limits hash_unlocking hash_locking)
      λ r. (r.total_cycles ≡ 5027) × (r.opcode_count ≡ 5) × (r.signature_count ≡ 0)
unfolding spec_opened
estimate-total_price_example =
    estimate-total_price example_impl sample_tx default_limits hash_unlocking hash_locking 0
      hash_chain-IsAdmitted

-- A lone signature check, of a transaction of 191 bytes: the breakdown has 85263 cycles for it, and
-- the total 86350.
estimate-breakdown_sum_example :
    Returns
      (estimate_with_limits example_impl sample_tx 0 default_limits [] (0xac ∷ []))
      λ r. u64 (r.total_cycles + 85_263) ≡ u64 (breakdown_sum r.breakdown + 86_350)
unfolding spec_opened
estimate-breakdown_sum_example =
    estimate-breakdown_sum example_impl sample_tx default_limits [] (0xac ∷ []) 0 (omega arith)

estimate-peaks_example :
    Returns
      (estimate_with_limits example_impl sample_tx 0 default_limits cat_unlocking cat_locking)
      λ r. (r.peak_stack_items ≡ 2) × (r.peak_stack_bytes ≡ 20)
unfolding spec_opened
estimate-peaks_example =
    estimate-peaks example_impl sample_tx default_limits cat_unlocking cat_locking 0 cat-IsAdmitted

estimate-Ending_example :
    Returns
      (estimate_with_limits example_impl sample_tx 0 default_limits cat_unlocking cat_locking)
      λ r.
        Ending example_impl sample_tx default_limits []
          (decode 0 (cat_unlocking ++ cat_locking))
          (executed_instrs example_impl sample_tx default_limits cat_unlocking cat_locking)
          r
          (20 ∷ [])
unfolding spec_opened
estimate-Ending_example =
    estimate-Ending example_impl sample_tx default_limits cat_unlocking cat_locking 0 cat-IsAdmitted

estimate-overheads_example :
    Returns
      (estimate_with_limits example_impl sample_tx 0 default_limits cat_unlocking cat_locking)
      λ r. (r.breakdown.parsing ≡ 18) × (r.breakdown.dispatch ≡ 15) × (r.breakdown.control_flow ≡ 0)
unfolding spec_opened
estimate-overheads_example =
    estimate-overheads example_impl sample_tx default_limits cat_unlocking cat_locking 0
      cat-IsAdmitted

estimate-opcode_count_le_example :
    Returns
      (estimate_with_limits example_impl sample_tx 0 default_limits cat_unlocking cat_locking)
      λ r. (r.opcode_count ≤ 1_000_000) × (r.opcode_count ≤ 23)
estimate-opcode_count_le_example =
    estimate-opcode_count_le example_impl sample_tx default_limits cat_unlocking cat_locking 0
      cat-IsAdmitted (omega arith)

estimate-max_total_cycles_unused_example :
    estimate_with_limits example_impl sample_tx 0
      (record default_limits { max_total_cycles = 1 })
      hash_unlocking
      hash_locking
    ≡ estimate_with_limits example_impl sample_tx 0 default_limits hash_unlocking hash_locking
estimate-max_total_cycles_unused_example =
    estimate-max_total_cycles_unused example_impl sample_tx default_limits hash_unlocking
      hash_locking 0 1 hash_chain-IsAdmitted

-- The byte count passes below zero, and the run stops at the byte limit with one item of 32 bytes.
leak_underflow :
    let r = specified example_impl sample_tx default_limits [] leak_locking in
    (r.peak_stack_bytes ≡ 2 ^ 64 - 1) × (r.warnings ≡ "Stack byte limit exceeded" ∷ [])
unfolding spec_opened
leak_underflow = (refl, refl)
