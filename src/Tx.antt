-- ===== src/Tx.antt =====
-- Transactions and the sizes computed of them: `struct TxInput`, `struct TxOutput`,
-- `struct Transaction` and `enum SigHashType` of libbsv_cost_estimator/include/bsv/cost_estimator.h,
-- `Transaction::serialize_size` and `calculate_sighash_size` of
-- libbsv_cost_estimator/src/cost_estimator.cpp.
pub mod Sizes
mod Tests
use bsv_miner_op_code_calc.Common.{
  ℕ, ◌+◌, ◌==◌, if◌then◌else◌, ltb, Bool, not, List, [], ◌∷◌, length, get_elem?, add64, Result, ok,
  ◌>>=◌, checked, Fault, bit_and,
}

-- `std::vector<uint8_t>`, its bytes in order.
abbrev pub Script : Type 0
Script = List ℕ

pub record TxInput : Type 0 where
  pub prevout_hash : List ℕ
  pub prevout_index : ℕ
  pub script_sig : Script
  pub sequence : ℕ

pub record TxOutput : Type 0 where
  pub value : ℕ
  pub script_pubkey : Script

pub record Transaction : Type 0 where
  pub version : ℕ
  pub inputs : List TxInput
  pub outputs : List TxOutput
  pub locktime : ℕ

-- The flags of `enum SigHashType : uint32_t`. A type is any `uint32_t`, since flags are combined.
abbrev pub sighash_all : ℕ
sighash_all = 0x01

abbrev pub sighash_none : ℕ
sighash_none = 0x02

abbrev pub sighash_single : ℕ
sighash_single = 0x03

abbrev pub sighash_anyonecanpay : ℕ
sighash_anyonecanpay = 0x80

-- The two loops of `serialize_size`.
serialize_inputs : ℕ → List TxInput → ℕ
serialize_inputs size [] = size
serialize_inputs size (i ∷ is) =
    serialize_inputs (add64 (add64 (add64 size 36) (1 + length i.script_sig)) 4) is

serialize_outputs : ℕ → List TxOutput → ℕ
serialize_outputs size [] = size
serialize_outputs size (o ∷ os) =
    serialize_outputs (add64 (add64 size 8) (1 + length o.script_pubkey)) os

unfoldable pub serialize_size : Transaction → ℕ
unfolding serialize_inputs serialize_outputs
serialize_size tx =
    let size = add64 4 1 in
    let size = serialize_inputs size tx.inputs in
    let size = add64 size 1 in let size = serialize_outputs size tx.outputs in add64 size 4

-- The two loops of `calculate_sighash_size`.
sighash_inputs : ℕ → List TxInput → ℕ
sighash_inputs size [] = size
sighash_inputs size (i ∷ is) = sighash_inputs (add64 size (36 + 1 + length i.script_sig + 4)) is

sighash_outputs : ℕ → List TxOutput → ℕ
sighash_outputs size [] = size
sighash_outputs size (o ∷ os) = sighash_outputs (add64 size (8 + 1 + length o.script_pubkey)) os

-- The part that ends at the inputs, from the version on.
size_of_inputs : Transaction → ℕ → Bool → Result Fault ℕ
unfolding sighash_inputs
size_of_inputs tx input_index anyone_can_pay =
    if anyone_can_pay
    then (do
      input ← checked (get_elem? tx.inputs input_index)
      ok (add64 4 (1 + 36 + 1 + length input.script_sig + 4)))
    else ok (sighash_inputs (add64 4 1) tx.inputs)

size_of_outputs : Transaction → ℕ → ℕ → ℕ → Result Fault ℕ
unfolding sighash_outputs
size_of_outputs tx input_index base_type size =
    if base_type == sighash_single
    then (if ltb input_index (length tx.outputs)
        then (do
          output ← checked (get_elem? tx.outputs input_index)
          ok (add64 size (1 + 8 + 1 + length output.script_pubkey)))
        else ok size)
    else if base_type == sighash_none
    then ok (add64 size 1)
    else ok (sighash_outputs (add64 size 1) tx.outputs)

-- The read of `tx.inputs[input_index]` is not guarded, and faults out of range.
unfoldable pub calculate_sighash_size : Transaction → ℕ → ℕ → Result Fault ℕ
unfolding size_of_inputs size_of_outputs
calculate_sighash_size tx input_index sighash_type = do
  let base_type = bit_and sighash_type 0x1f
  let anyone_can_pay = not (bit_and sighash_type sighash_anyonecanpay == 0)
  size ← size_of_inputs tx input_index anyone_can_pay
  size ← size_of_outputs tx input_index base_type size
  ok (add64 (add64 size 4) 4)
