-- ===== src/Program/Effects.antt =====
-- `execute` of one opcode has the effect and the price that the specification gives.
use bsv_miner_op_code_calc.Common.{ℕ, ◌≡◌, ok, arith}
use bsv_miner_op_code_calc.Double.{Double}
use bsv_miner_op_code_calc.OpCode.{
  OpCode, op_dup, op_swap, op_cat, op_sha256, op_hash256, op_checksig,
}
use bsv_miner_op_code_calc.Tx.{Transaction, sighash_all}
use bsv_miner_op_code_calc.Tx.Sizes.{SignsAll, sighash_all-serialize_size}
use bsv_miner_op_code_calc.Model.{Impl}
use bsv_miner_op_code_calc.Estimate.Machine.{Machine}
use bsv_miner_op_code_calc.Estimate.Execute.{
  execute, dup_stack, swap_stack, cat_stack, hash_stack, checksig_stack,
}
use bsv_miner_op_code_calc.Program.{exec, kind, stack_after, priced_by, bytes_after, surcharge}
use bsv_miner_op_code_calc.Program.Run.{perform, breakdown_params, charge, count_signatures}

sighash_all-SignsAll : SignsAll sighash_all
sighash_all-SignsAll = ground arith

module _ {ℓ} {W : Type ℓ} ⦃d : Double W⦄ (impl : Impl W) (tx : Transaction) (input_index : ℕ) where
  -- On every opcode, whatever the stack holds, the `switch` has this effect and does not fault.
  pub execute-perform :
      (op : OpCode) (m : Machine)
      → execute impl tx input_index op m ≡ ok (perform impl tx (exec op) m)
  unfolding execute perform dup_stack swap_stack cat_stack hash_stack checksig_stack kind
      stack_after priced_by bytes_after surcharge charge count_signatures breakdown_params
  execute-perform op_dup m = ground arith
  execute-perform op_swap m = ground arith
  execute-perform op_cat m = ground arith
  execute-perform op_sha256 m = ground arith
  execute-perform op_hash256 m = ground arith
  execute-perform op_checksig m =
      rw (sighash_all-serialize_size tx input_index sighash_all sighash_all-SignsAll) (ground arith)
  execute-perform _ m = ground arith
