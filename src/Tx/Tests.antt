-- ===== src/Tx/Tests.antt =====
-- The transactions of libbsv_cost_estimator/examples/estimate_tx.cpp and
-- libbsv_cost_estimator/tests/test_estimator.cpp, and the sizes of them.
use bsv_miner_op_code_calc.Common.{
  ◌+◌, ◌≤◌, ◌≡◌, ◌≢◌, ◌↔◌, ◌≤◌, ◌+◌, ◌≢◌, ◌↔◌, refl, [], ◌∷◌, replicate, u64, ok, err, Fault, arith,
  bit_and,
}
use bsv_miner_op_code_calc.Tx.{
  Transaction, sighash_all, sighash_single, sighash_anyonecanpay, serialize_size,
  calculate_sighash_size,
}
use bsv_miner_op_code_calc.Tx.Sizes.{
  serialize_size-wire_bytes, sighash_all-serialize_size, sighash-out_of_bounds_iff,
  sighash-le-serialize_size,
}

-- `create_sample_transaction`: `resize` fills up with zeros.
abbrev create_sample_transaction : Transaction
create_sample_transaction = record {
  version = 1;
  inputs =
      record {
        prevout_hash = replicate 32 0;
        prevout_index = 0;
        script_sig = 0x47 ∷ 0x21 ∷ replicate (71 + 33) 0;
        sequence = 0xffffffff;
      }
      ∷ [];
  outputs = record { value = 100_000; script_pubkey = 0x76 ∷ 0xa9 ∷ 0x14 ∷ replicate 22 0 } ∷ [];
  locktime = 0;
}

sample_sizes :
    (serialize_size create_sample_transaction ≡ 191)
    × (calculate_sighash_size create_sample_transaction 0 sighash_all ≡ ok 195)
    × (calculate_sighash_size create_sample_transaction 7 sighash_single ≡ ok 160)
unfolding serialize_size calculate_sighash_size
sample_sizes = (refl, refl, refl)

serialize_size-wire_bytes_example : serialize_size create_sample_transaction ≡ 191
serialize_size-wire_bytes_example = serialize_size-wire_bytes create_sample_transaction

sighash_all-serialize_size_example :
    calculate_sighash_size create_sample_transaction 0 sighash_all
    ≡ ok (u64 (serialize_size create_sample_transaction + 4))
sighash_all-serialize_size_example =
    sighash_all-serialize_size create_sample_transaction 0 sighash_all (ground arith)

sighash-out_of_bounds_iff_example :
    (calculate_sighash_size create_sample_transaction 1 (sighash_all + sighash_anyonecanpay)
      ≡ err Fault.out_of_bounds)
    ↔ ((bit_and 0x81 0x80 ≢ 0) × (1 ≤ 1))
sighash-out_of_bounds_iff_example =
    sighash-out_of_bounds_iff create_sample_transaction 1 (sighash_all + sighash_anyonecanpay)

sighash-le-serialize_size_example : 160 ≤ serialize_size create_sample_transaction + 4
unfolding calculate_sighash_size
sighash-le-serialize_size_example =
    sighash-le-serialize_size create_sample_transaction 7 sighash_single (omega arith) refl
