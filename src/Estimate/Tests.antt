-- ===== src/Estimate/Tests.antt =====
-- Estimates of the scripts of libbsv_cost_estimator/examples/estimate_tx.cpp and
-- libbsv_cost_estimator/tests/test_estimator.cpp.
use bsv_miner_op_code_calc.Common.{◌≡◌, refl, [], ok}
use bsv_miner_op_code_calc.Double.Fixed.{decimal_double}
use bsv_miner_op_code_calc.OpCode.{of_byte}
use bsv_miner_op_code_calc.Tx.{calculate_sighash_size}
use bsv_miner_op_code_calc.Model.{calculate_opcode_cost}
use bsv_miner_op_code_calc.Estimate.Execute.{
  execute, dup_stack, swap_stack, cat_stack, hash_stack, checksig_stack,
}
use bsv_miner_op_code_calc.Estimate.Loop.{estimate, estimate_with_limits, loop, round}
use bsv_miner_op_code_calc.Estimate.Sample.{example_impl, sample_tx, hash_unlocking, hash_locking}

-- The hash chain costs 3 * 1043 + 1844 cycles of hashing.
hash_chain :
    estimate example_impl hash_unlocking hash_locking sample_tx 0
    ≡ ok (record {
      total_cycles = 5027;
      breakdown = record {
        parsing = 29;
        dispatch = 25;
        stack_ops = 0;
        byte_ops = 0;
        hashing = 4973;
        signatures = 0;
        control_flow = 0;
      };
      peak_stack_bytes = 32;
      peak_stack_items = 1;
      signature_count = 0;
      opcode_count = 5;
      warnings = [];
    })
unfolding estimate estimate_with_limits loop round execute dup_stack swap_stack cat_stack hash_stack
    checksig_stack of_byte calculate_opcode_cost calculate_sighash_size
hash_chain = refl
