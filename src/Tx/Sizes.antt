-- ===== src/Tx/Sizes.antt =====
-- What the sizes of libbsv_cost_estimator/src/cost_estimator.cpp add up to.
use bsv_miner_op_code_calc.Common.{
  ℕ, zero, suc, ◌+◌, ◌≤◌, ◌<◌, ◌^◌, ◌≡◌, ◌≢◌, ◌↔◌, Bool, not, ◌==◌, List, [], ◌∷◌, length,
  get_elem?, add64, u64, ok, err, ◌>>=◌, Fault, >>=-eq-ok, arith, bit_and, Option, some, none,
}
use bsv_miner_op_code_calc.Tx.{
  TxInput, TxOutput, Transaction, sighash_none, sighash_single, sighash_anyonecanpay,
  serialize_size, serialize_inputs, serialize_outputs, sighash_inputs, sighash_outputs,
  size_of_inputs, size_of_outputs, calculate_sighash_size,
}

-- Bytes on the wire, with one byte for each length.
abbrev pub input_bytes : List TxInput → ℕ
input_bytes [] = 0
input_bytes (i ∷ is) = 32 + 4 + (1 + length i.script_sig) + 4 + input_bytes is

abbrev pub output_bytes : List TxOutput → ℕ
output_bytes [] = 0
output_bytes (o ∷ os) = 8 + (1 + length o.script_pubkey) + output_bytes os

-- Version, two counts and lock time, inputs and outputs.
abbrev pub wire_bytes : Transaction → ℕ
wire_bytes tx = 4 + 1 + input_bytes tx.inputs + 1 + output_bytes tx.outputs + 4

serialize_inputs_lem :
    (size : ℕ) (is : List TxInput) → u64 (serialize_inputs size is) ≡ u64 (size + input_bytes is)
unfolding serialize_inputs
serialize_inputs_lem size [] = omega arith
serialize_inputs_lem size (i ∷ is) =
    omega
      (arith, serialize_inputs_lem (add64 (add64 (add64 size 36) (1 + length i.script_sig)) 4) is)

serialize_outputs_lem :
    (size : ℕ) (os : List TxOutput) → u64 (serialize_outputs size os) ≡ u64 (size + output_bytes os)
unfolding serialize_outputs
serialize_outputs_lem size [] = omega arith
serialize_outputs_lem size (o ∷ os) =
    omega (arith, serialize_outputs_lem (add64 (add64 size 8) (1 + length o.script_pubkey)) os)

sighash_inputs_lem :
    (size : ℕ) (is : List TxInput)
    → size < 2 ^ 64
    → sighash_inputs size is ≡ u64 (size + input_bytes is)
unfolding sighash_inputs
sighash_inputs_lem size [] h = omega arith
sighash_inputs_lem size (i ∷ is) h =
    omega
      (arith, sighash_inputs_lem (add64 size (36 + 1 + length i.script_sig + 4)) is (omega arith))

sighash_outputs_lem :
    (size : ℕ) (os : List TxOutput)
    → size < 2 ^ 64
    → sighash_outputs size os ≡ u64 (size + output_bytes os)
unfolding sighash_outputs
sighash_outputs_lem size [] h = omega arith
sighash_outputs_lem size (o ∷ os) h =
    omega
      (arith, sighash_outputs_lem (add64 size (8 + 1 + length o.script_pubkey)) os (omega arith))

-- The size is the number of bytes on the wire, as a word.
pub serialize_size-wire_bytes : (tx : Transaction) → serialize_size tx ≡ u64 (wire_bytes tx)
unfolding serialize_size
serialize_size-wire_bytes tx = omega (
  arith,
  serialize_inputs_lem (add64 4 1) tx.inputs,
  serialize_outputs_lem (add64 (serialize_inputs (add64 4 1) tx.inputs) 1) tx.outputs,
)

-- A type that signs all inputs and all outputs.
pub record SignsAll (t : ℕ) : Type 0 where
  pub all_inputs : bit_and t sighash_anyonecanpay ≡ 0
  pub not_none : bit_and t 0x1f ≢ sighash_none
  pub not_single : bit_and t 0x1f ≢ sighash_single

-- The preimage of a type that signs everything is the serialized transaction and four bytes for the
-- type.
pub sighash_all-serialize_size :
    (tx : Transaction) (i t : ℕ)
    → SignsAll t
    → calculate_sighash_size tx i t ≡ ok (u64 (serialize_size tx + 4))
unfolding calculate_sighash_size
sighash_all-serialize_size tx i t s = ground (
  arith,
  sighash_inputs_lem (add64 4 1) tx.inputs,
  sighash_outputs_lem (add64 (sighash_inputs (add64 4 1) tx.inputs) 1) tx.outputs,
  serialize_size-wire_bytes tx,
)

get_elem?-none_iff {ℓ} :
    {A : Type ℓ} (xs : List A) (i : ℕ) → (get_elem? xs i ≡ none) ↔ (length xs ≤ i)
get_elem?-none_iff [] i = ground arith
get_elem?-none_iff (x ∷ xs) zero = ground arith
get_elem?-none_iff (x ∷ xs) (suc i) = ground (arith, get_elem?-none_iff xs i)

size_of_outputs-ne_err :
    (tx : Transaction) (i base size : ℕ) (e : Fault) → size_of_outputs tx i base size ≢ err e
unfolding size_of_outputs
size_of_outputs-ne_err tx i base size e = ground (arith, get_elem?-none_iff tx.outputs i)

-- The preimage size reads outside the transaction exactly when only one input is signed and there
-- is no input of that index.
pub sighash-out_of_bounds_iff :
    (tx : Transaction) (i t : ℕ)
    → (calculate_sighash_size tx i t ≡ err Fault.out_of_bounds)
      ↔ ((bit_and t sighash_anyonecanpay ≢ 0) × (length tx.inputs ≤ i))
unfolding calculate_sighash_size
sighash-out_of_bounds_iff tx i t =
    ground (arith, get_elem?-none_iff tx.inputs i, get_elem?-none_iff tx.outputs i)

-- What one input, or one output, adds to a preimage that signs no other.
abbrev one_input : Option TxInput → ℕ
one_input none = 1
one_input (some x) = 1 + 36 + 1 + length x.script_sig + 4

abbrev one_output : Option TxOutput → ℕ
one_output none = 1
one_output (some x) = 1 + 8 + 1 + length x.script_pubkey

one_input-le : (is : List TxInput) (i : ℕ) → one_input (get_elem? is i) ≤ 1 + input_bytes is
one_input-le [] i = omega arith
one_input-le (y ∷ is) zero = omega arith
one_input-le (y ∷ is) (suc i) = omega (arith, one_input-le is i)

one_output-le : (os : List TxOutput) (i : ℕ) → one_output (get_elem? os i) ≤ 1 + output_bytes os
one_output-le [] i = omega arith
one_output-le (y ∷ os) zero = omega arith
one_output-le (y ∷ os) (suc i) = omega (arith, one_output-le os i)

size_of_inputs-le :
    (tx : Transaction) (i : ℕ) (anyone : Bool) {n : ℕ}
    → wire_bytes tx < 2 ^ 64
    → size_of_inputs tx i anyone ≡ ok n
    → n ≤ 4 + 1 + input_bytes tx.inputs
unfolding size_of_inputs
size_of_inputs-le tx i anyone small h =
    ground (arith, sighash_inputs_lem (add64 4 1) tx.inputs, one_input-le tx.inputs i)

size_of_outputs-le :
    (tx : Transaction) (i base size : ℕ) {n : ℕ}
    → size ≤ 4 + 1 + input_bytes tx.inputs
    → wire_bytes tx < 2 ^ 64
    → size_of_outputs tx i base size ≡ ok n
    → n ≤ size + 1 + output_bytes tx.outputs
unfolding size_of_outputs
size_of_outputs-le tx i base size room small h =
    ground (arith, sighash_outputs_lem (add64 size 1) tx.outputs, one_output-le tx.outputs i)

-- For a transaction whose size fits a word with four bytes to spare, every type of signature hashes
-- at most the serialized transaction and four bytes.
pub sighash-le-serialize_size :
    (tx : Transaction) (i t : ℕ) {n : ℕ}
    → wire_bytes tx + 4 < 2 ^ 64
    → calculate_sighash_size tx i t ≡ ok n
    → n ≤ serialize_size tx + 4
unfolding calculate_sighash_size
sighash-le-serialize_size tx i t small h =
    let anyone : Bool = not (bit_and t sighash_anyonecanpay == 0) in
    let base : ℕ = bit_and t 0x1f in
    let (a, ea, ha) =
      >>=-eq-ok (size_of_inputs tx i anyone)
        (λ a. size_of_outputs tx i base a >>= λ b. ok (add64 (add64 b 4) 4)) h in
    let (b, eb, hb) = >>=-eq-ok (size_of_outputs tx i base a) (λ b. ok (add64 (add64 b 4) 4)) ha in
    let first = size_of_inputs-le tx i anyone (omega arith) ea in
    let second = size_of_outputs-le tx i base a first (omega arith) eb in
    ground (arith, first, second, serialize_size-wire_bytes tx)
