-- ===== src/Bench/Hash.antt =====
-- The hash operations of bsv_script_bench/src/bench_hash_ops.cpp and their benchmarks. The functions of
-- OpenSSL are a parameter: what each writes for the data that it reads.
pub mod Laws
pub mod Fit
mod Tests
use bsv_miner_op_code_calc.Common.{
  ℕ, String, zero, suc, ltb, leb, if◌then◌else◌, List, [], ◌∷◌, ◌++◌, length, replicate, drop,
  Result, ok, err, ◌>>=◌, Fault, out_of_bounds,
}
use bsv_miner_op_code_calc.Bench.Exception.{Throws, unfaulted}
use bsv_miner_op_code_calc.Bench.Job.{Job, ◌<>◌, to_string, for_each}
use bsv_miner_op_code_calc.Bench.Stack.{Bytes}

-- `SHA1`, `SHA256` and `RIPEMD160`.
pub record OpenSsl : Type 0 where
  pub sha1 : Bytes → Bytes
  pub sha256 : Bytes → Bytes
  pub ripemd160 : Bytes → Bytes

abbrev pub sha_digest_length : ℕ
sha_digest_length = 20

abbrev pub sha256_digest_length : ℕ
sha256_digest_length = 32

abbrev pub ripemd160_digest_length : ℕ
ripemd160_digest_length = 20

-- A digest, written from the start of a vector.
unfoldable pub write_digest : Bytes → Bytes → Result Fault Bytes
write_digest digest hash =
    if leb (length digest) (length hash)
    then ok (digest ++ drop (length digest) hash)
    else err out_of_bounds

module _ (ssl : OpenSsl) where
  unfoldable pub op_sha1 : Bytes → Result Fault Bytes
  op_sha1 bytes = write_digest (ssl.sha1 bytes) (replicate sha_digest_length 0)

  unfoldable pub op_sha256 : Bytes → Result Fault Bytes
  op_sha256 bytes = write_digest (ssl.sha256 bytes) (replicate sha256_digest_length 0)

  unfoldable pub op_hash160 : Bytes → Result Fault Bytes
  op_hash160 bytes = do
    sha256_hash ← write_digest (ssl.sha256 bytes) (replicate sha256_digest_length 0)
    write_digest (ssl.ripemd160 sha256_hash) (replicate ripemd160_digest_length 0)

  unfoldable pub op_hash256 : Bytes → Result Fault Bytes
  op_hash256 bytes = do
    first_hash ← write_digest (ssl.sha256 bytes) (replicate sha256_digest_length 0)
    write_digest (ssl.sha256 first_hash) (replicate sha256_digest_length 0)

  unfoldable pub op_ripemd160 : Bytes → Result Fault Bytes
  op_ripemd160 bytes = write_digest (ssl.ripemd160 bytes) (replicate ripemd160_digest_length 0)

abbrev pub hash_sizes : List ℕ
hash_sizes = 1 ∷ 64 ∷ 512 ∷ 4096 ∷ 65536 ∷ 1_000_000 ∷ 10_000_000 ∷ 100_000_000 ∷ []

-- The lambda that is measured. The state is what it writes to its volatile variable.
unfoldable pub hash_size : (Bytes → Result Fault Bytes) → ℕ → ℕ → Throws ℕ
hash_size hash_fn size s = do hash ← unfaulted (hash_fn (replicate size 0x42)); ok (length hash)

abbrev pub hash_body : String → (Bytes → Result Fault Bytes) → ℕ → List (Job ℕ)
hash_body opcode_name hash_fn size =
    record {
      opcode_name = opcode_name;
      param_description = to_string size <> "B";
      input_size_bytes = size;
      captured = 0;
      operation = hash_size hash_fn size;
      iterations = if ltb 10_000_000 size then 50 else if ltb 1_000_000 size then 100 else 1000;
      warmup_iterations = if ltb 10_000_000 size then 5 else if ltb 1_000_000 size then 10 else 100;
    }
    ∷ []

unfoldable pub benchmark_hash_op : String → (Bytes → Result Fault Bytes) → List (Job ℕ)
benchmark_hash_op opcode_name hash_fn = for_each hash_sizes (hash_body opcode_name hash_fn)

-- The benchmarks of `main`.
unfoldable pub hash_jobs : OpenSsl → List (Job ℕ)
hash_jobs ssl =
    benchmark_hash_op "OP_SHA1" (op_sha1 ssl)
    ++ benchmark_hash_op "OP_SHA256" (op_sha256 ssl)
    ++ benchmark_hash_op "OP_HASH160" (op_hash160 ssl)
    ++ benchmark_hash_op "OP_HASH256" (op_hash256 ssl)
    ++ benchmark_hash_op "OP_RIPEMD160" (op_ripemd160 ssl)
