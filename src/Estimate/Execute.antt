-- ===== src/Estimate/Execute.antt =====
-- One opcode, executed on the sizes of the stack's items: the `switch` of
-- `CostEstimator::Impl::estimate`. Each function returns the new variables and `params`.
use bsv_miner_op_code_calc.Common.{ℕ, List, [], ◌∷◌, add64, sub64, Result, ok, ◌>>=◌, Fault}
use bsv_miner_op_code_calc.Double.{Double}
use bsv_miner_op_code_calc.OpCode.{
  OpCode, op_dup, op_swap, op_cat, op_sha256, op_hash256, op_checksig,
}
use bsv_miner_op_code_calc.Tx.{Transaction, sighash_all, calculate_sighash_size}
use bsv_miner_op_code_calc.Model.{Impl, calculate_opcode_cost}
use bsv_miner_op_code_calc.Estimate.Machine.{
  Machine, add_total, add_stack_ops, add_byte_ops, add_hashing, add_signatures, count_signature,
}

-- The guarded part of each case, over the stack that it matches on.
unfoldable pub dup_stack : List ℕ → Machine → Machine × List ℕ
dup_stack [] m = (m, [])
dup_stack (top_size ∷ rest) m = (
  record m {
    stack_sizes = top_size ∷ top_size ∷ rest;
    current_stack_bytes = add64 m.current_stack_bytes top_size;
  },
  top_size ∷ [],
)

unfoldable pub swap_stack : List ℕ → Machine → Machine
swap_stack (a ∷ b ∷ rest) m = record m { stack_sizes = b ∷ a ∷ rest }
swap_stack _ m = m

unfoldable pub cat_stack : List ℕ → Machine → Machine × List ℕ
cat_stack (size_b ∷ size_a ∷ rest) m =
    let result_size = add64 size_a size_b in
    (
      record m {
        stack_sizes = result_size ∷ rest;
        current_stack_bytes = add64 (sub64 (sub64 m.current_stack_bytes size_a) size_b) result_size;
      },
      result_size ∷ [],
    )
cat_stack _ m = (m, [])

unfoldable pub hash_stack : List ℕ → Machine → Machine × List ℕ
hash_stack [] m = (m, [])
hash_stack (input_size ∷ rest) m = (
  record m {
    stack_sizes = 32 ∷ rest;
    current_stack_bytes = add64 (sub64 m.current_stack_bytes input_size) 32;
  },
  input_size ∷ [],
)

-- The signature and the key are popped and the truth value pushed; `current_stack_bytes` stays.
unfoldable pub checksig_stack : List ℕ → Machine → Machine
checksig_stack (_ ∷ _ ∷ rest) m = record m { stack_sizes = 1 ∷ rest }
checksig_stack _ m = m

module _ {ℓ} {W : Type ℓ} ⦃d : Double W⦄ (impl : Impl W) (tx : Transaction) (input_index : ℕ) where
  unfoldable pub exec_dup : Machine → Machine × List ℕ
  unfolding dup_stack
  exec_dup m =
      let (m, params) = dup_stack m.stack_sizes m in
      (add_stack_ops (calculate_opcode_cost impl op_dup params) m, params)

  unfoldable pub exec_swap : Machine → Machine × List ℕ
  unfolding swap_stack
  exec_swap m =
      (add_stack_ops (calculate_opcode_cost impl op_swap []) (swap_stack m.stack_sizes m), [])

  unfoldable pub exec_cat : Machine → Machine × List ℕ
  unfolding cat_stack
  exec_cat m =
      let (m, params) = cat_stack m.stack_sizes m in
      (add_byte_ops (calculate_opcode_cost impl op_cat params) m, params)

  unfoldable pub exec_hash : OpCode → Machine → Machine × List ℕ
  unfolding hash_stack
  exec_hash op m =
      let (m, params) = hash_stack m.stack_sizes m in
      (add_hashing (calculate_opcode_cost impl op params) m, params)

  -- `params` stays empty here: the preimage size is passed for the breakdown alone.
  unfoldable pub exec_checksig : Machine → Result Fault (Machine × List ℕ)
  unfolding checksig_stack
  exec_checksig m = do
    preimage_size ← calculate_sighash_size tx input_index sighash_all
    let m = add_signatures (calculate_opcode_cost impl op_checksig (preimage_size ∷ [])) m
    let m = count_signature m
    ok (checksig_stack m.stack_sizes m, [])

  unfoldable pub exec_opcode : OpCode → Machine → Result Fault (Machine × List ℕ)
  unfolding exec_dup exec_swap exec_cat exec_hash exec_checksig
  exec_opcode op_dup m = ok (exec_dup m)
  exec_opcode op_swap m = ok (exec_swap m)
  exec_opcode op_cat m = ok (exec_cat m)
  exec_opcode op_sha256 m = ok (exec_hash op_sha256 m)
  exec_opcode op_hash256 m = ok (exec_hash op_hash256 m)
  exec_opcode op_checksig m = exec_checksig m
  exec_opcode _ m = ok (add_total 100 m, [])

  -- The whole branch that is no push.
  unfoldable pub execute : OpCode → Machine → Result Fault Machine
  unfolding exec_opcode
  execute op m = do
    (m, params) ← exec_opcode op m
    ok (add_total (calculate_opcode_cost impl op params) m)
