-- ===== src/Bench/Main/Tests.antt =====
-- The programs at a system that refuses all counters, a clock that goes on by 120 cycles in each
-- round, and digests that fill their vectors.
use bsv_miner_op_code_calc.Common.{
  ℕ, ◌+◌, ◌*◌, none, false, length, length-replicate, replicate, arith,
}
use bsv_miner_op_code_calc.Double.Fixed.{
  Decimal, decimal_double, decimal_signed, Decimal-IsExact, Decimal-IsRanked,
}
use bsv_miner_op_code_calc.Bench.Job.{to_string}
use bsv_miner_op_code_calc.Bench.Stack.Jobs.{stack_jobs}
use bsv_miner_op_code_calc.Bench.Hash.{OpenSsl, hash_jobs}
use bsv_miner_op_code_calc.Bench.Hash.Laws.{IsSized}
use bsv_miner_op_code_calc.Bench.Harness.{Kernel}
use bsv_miner_op_code_calc.Bench.Harness.Measure.{Reading}
use bsv_miner_op_code_calc.Bench.Main.{byte_jobs, stack_main, byte_main, hash_main}
use bsv_miner_op_code_calc.Bench.Main.Complete.{IsCalm, IsComplete}
use bsv_miner_op_code_calc.Bench.Main.Programs.{programs-IsComplete}

abbrev ssl : OpenSsl
ssl = record {
  sha1 = λ bytes. replicate 20 (length bytes);
  sha256 = λ bytes. replicate 32 (length bytes);
  ripemd160 = λ bytes. replicate 20 (length bytes);
}

sized : IsSized ssl
sized = record {
  length-sha1 = λ bytes. length-replicate 20 (length bytes);
  length-sha256 = λ bytes. length-replicate 32 (length bytes);
  length-ripemd160 = λ bytes. length-replicate 20 (length bytes);
}

abbrev kernel : Kernel
kernel = record { opens = λ pe. none; pins = λ core. false }

abbrev readings : ℕ → ℕ → Reading
readings i k = record {
  start = 100_000 * k;
  end = 100_000 * k + 120;
  instructions = none;
  l1d_misses = none;
  llc_misses = none;
  branch_misses = none;
}

calm : IsCalm readings
calm i k = omega arith

programs-IsComplete_example :
    IsComplete Decimal-IsExact Decimal-IsRanked readings kernel to_string stack_jobs
      (stack_main kernel to_string readings)
    × IsComplete Decimal-IsExact Decimal-IsRanked readings kernel to_string
        (byte_jobs Decimal)
        (byte_main kernel to_string readings)
    × IsComplete Decimal-IsExact Decimal-IsRanked readings kernel to_string
        (hash_jobs ssl)
        (hash_main kernel to_string readings ssl)
programs-IsComplete_example =
    programs-IsComplete Decimal-IsExact Decimal-IsRanked ssl sized kernel to_string readings calm
