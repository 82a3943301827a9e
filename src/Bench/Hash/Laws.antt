-- ===== src/Bench/Hash/Laws.antt =====
-- What the hash operations of bsv_script_bench/src/bench_hash_ops.cpp return.
use mathlib.Core.List.{append-nil}
use bsv_miner_op_code_calc.Common.{
  true, drop-length_le, ℕ, String, suc, ◌≡◌, refl, ap, [], length, length-replicate, replicate,
  drop, leb, All, Result, ok, ◌>>=◌, Fault, arith,
}
use bsv_miner_op_code_calc.Bench.Job.{Job, runs, runs-same, All-for_each, All-Unit}
use bsv_miner_op_code_calc.Bench.Stack.{Bytes}
use bsv_miner_op_code_calc.Bench.Hash.{
  OpenSsl, write_digest, op_sha1, op_sha256, op_hash160, op_hash256, op_ripemd160, hash_sizes,
  hash_size, hash_body, benchmark_hash_op,
}

-- The sizes that OpenSSL documents for the digests.
pub record IsSized (ssl : OpenSsl) : Type 0 where
  pub length-sha1 : (bytes : Bytes) → length (ssl.sha1 bytes) ≡ 20
  pub length-sha256 : (bytes : Bytes) → length (ssl.sha256 bytes) ≡ 32
  pub length-ripemd160 : (bytes : Bytes) → length (ssl.ripemd160 bytes) ≡ 20

-- A digest fills a vector of its size.
write_digest-filled :
    (digest : Bytes) (n : ℕ) → length digest ≡ n → write_digest digest (replicate n 0) ≡ ok digest
unfolding write_digest
write_digest-filled digest n size =
    let fits : leb (length digest) (length (replicate {A = ℕ} n 0)) ≡ true =
      ground (arith, length-replicate {A = ℕ} n 0) in
    let rest : drop (length digest) (replicate {A = ℕ} n 0) ≡ [] =
      drop-length_le (replicate n 0) (length digest)
        (omega (arith, length-replicate {A = ℕ} n 0)) in
    rw (fits, rest) (ap (λ d. ok d) (append-nil digest))

module _ (ssl : OpenSsl) (sized : IsSized ssl) where
  -- The five operations on some data, and the sizes of what they return.
  abbrev pub Hashes : Bytes → Type 0
  Hashes bytes =
      (op_sha1 ssl bytes ≡ ok (ssl.sha1 bytes))
      × (op_sha256 ssl bytes ≡ ok (ssl.sha256 bytes))
      × (op_ripemd160 ssl bytes ≡ ok (ssl.ripemd160 bytes))
      × (op_hash160 ssl bytes ≡ (op_sha256 ssl bytes >>= op_ripemd160 ssl))
      × (op_hash160 ssl bytes ≡ ok (ssl.ripemd160 (ssl.sha256 bytes)))
      × (op_hash256 ssl bytes ≡ (op_sha256 ssl bytes >>= op_sha256 ssl))
      × (op_hash256 ssl bytes ≡ ok (ssl.sha256 (ssl.sha256 bytes)))

  -- With digests of the documented sizes every write of a digest is inside its vector, and the
  -- operations return the digests alone: OP_HASH160 is OP_RIPEMD160 of OP_SHA256, and OP_HASH256 is
  -- OP_SHA256 of itself.
  pub ops-Hashes : (bytes : Bytes) → Hashes bytes
  unfolding op_sha1 op_sha256 op_ripemd160 op_hash160 op_hash256
  ops-Hashes bytes =
      let one = write_digest-filled (ssl.sha1 bytes) 20 (sized.length-sha1 bytes) in
      let two = write_digest-filled (ssl.sha256 bytes) 32 (sized.length-sha256 bytes) in
      let three = write_digest-filled (ssl.ripemd160 bytes) 20 (sized.length-ripemd160 bytes) in
      let hash = ssl.sha256 bytes in
      let four = write_digest-filled (ssl.ripemd160 hash) 20 (sized.length-ripemd160 hash) in
      let five = write_digest-filled (ssl.sha256 hash) 32 (sized.length-sha256 hash) in
      (one, two, three, refl, rw (two, four) refl, refl, rw (two, five) refl)

  -- After any number of runs but none, the size of the digest is what was written last.
  abbrev pub IsHashed : ℕ → ℕ → Job ℕ → Type 0
  IsHashed n size job = runs (suc n) job.operation job.captured ≡ ok size

  hash_size-ok :
      (hash_fn : Bytes → Result Fault Bytes) (digest : Bytes → Bytes) (size n s : ℕ)
      → ((bytes : Bytes) → hash_fn bytes ≡ ok (digest bytes))
      → ((bytes : Bytes) → length (digest bytes) ≡ size)
      → hash_size hash_fn n s ≡ ok size
  unfolding hash_size
  hash_size-ok hash_fn digest size n s returns long =
      rw (returns (replicate n 0x42), long (replicate n 0x42)) refl

  benchmark-IsHashed :
      (opcode_name : String) (hash_fn : Bytes → Result Fault Bytes) (digest : Bytes → Bytes)
      (n size : ℕ)
      → ((bytes : Bytes) → hash_fn bytes ≡ ok (digest bytes))
      → ((bytes : Bytes) → length (digest bytes) ≡ size)
      → All (IsHashed n size) (benchmark_hash_op opcode_name hash_fn)
  unfolding benchmark_hash_op
  benchmark-IsHashed opcode_name hash_fn digest n size returns long =
      All-for_each (λ _. Unit {0}) (IsHashed n size) hash_sizes (hash_body opcode_name hash_fn)
        (All-Unit hash_sizes)
        λ bytes _. (
          runs-same (hash_size hash_fn bytes) size
              (λ s. hash_size-ok hash_fn digest size bytes s returns long) n 0,
          tt,
        )

  -- However often they run, the benchmarks of the five operations throw nothing, and the size that they
  -- write is that of their digest.
  pub hash_jobs-IsHashed :
      (n : ℕ)
      → All (IsHashed n 20) (benchmark_hash_op "OP_SHA1" (op_sha1 ssl))
        × All (IsHashed n 32) (benchmark_hash_op "OP_SHA256" (op_sha256 ssl))
        × All (IsHashed n 20) (benchmark_hash_op "OP_HASH160" (op_hash160 ssl))
        × All (IsHashed n 32) (benchmark_hash_op "OP_HASH256" (op_hash256 ssl))
        × All (IsHashed n 20) (benchmark_hash_op "OP_RIPEMD160" (op_ripemd160 ssl))
  hash_jobs-IsHashed n = (
    benchmark-IsHashed "OP_SHA1" (op_sha1 ssl) ssl.sha1 n 20
        (λ b. let (h, _, _, _, _, _, _) = ops-Hashes b in h) sized.length-sha1,
    benchmark-IsHashed "OP_SHA256" (op_sha256 ssl) ssl.sha256 n 32
        (λ b. let (_, h, _, _, _, _, _) = ops-Hashes b in h) sized.length-sha256,
    benchmark-IsHashed "OP_HASH160" (op_hash160 ssl) (λ b. ssl.ripemd160 (ssl.sha256 b)) n 20
        (λ b. let (_, _, _, _, h, _, _) = ops-Hashes b in h)
        (λ b. sized.length-ripemd160 (ssl.sha256 b)),
    benchmark-IsHashed "OP_HASH256" (op_hash256 ssl) (λ b. ssl.sha256 (ssl.sha256 b)) n 32
        (λ b. let (_, _, _, _, _, _, h) = ops-Hashes b in h)
        (λ b. sized.length-sha256 (ssl.sha256 b)),
    benchmark-IsHashed "OP_RIPEMD160" (op_ripemd160 ssl) ssl.ripemd160 n 20
        (λ b. let (_, _, h, _, _, _, _) = ops-Hashes b in h) sized.length-ripemd160,
  )
