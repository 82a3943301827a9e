-- ===== src/Bench/Hash/Tests.antt =====
-- The theorems on hashes at digests that fill their vectors.
use bsv_miner_op_code_calc.Common.{[], ◌∷◌, replicate, length, length-replicate}
use bsv_miner_op_code_calc.Bench.Hash.{OpenSsl}
use bsv_miner_op_code_calc.Bench.Hash.Laws.{IsSized, Hashes, ops-Hashes}

-- A digest repeats the length of the data.
abbrev ssl : OpenSsl
ssl = record {
  sha1 = λ bytes. replicate 20 (length bytes);
  sha256 = λ bytes. replicate 32 (length bytes);
  ripemd160 = λ bytes. replicate 20 (length bytes);
}

sized : IsSized ssl
sized = record {
  length-sha1 = λ bytes. length-replicate 20 (length bytes);
  length-sha256 = λ bytes. length-replicate 32 (length bytes);
  length-ripemd160 = λ bytes. length-replicate 20 (length bytes);
}

ops-Hashes_example : Hashes ssl sized (1 ∷ 2 ∷ 3 ∷ [])
ops-Hashes_example = ops-Hashes ssl sized (1 ∷ 2 ∷ 3 ∷ [])
