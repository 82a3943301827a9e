-- ===== src/Bench/Bytes/Tests.antt =====
-- The byte operations at small inputs.
use bsv_miner_op_code_calc.Double.Fixed.{Decimal, decimal_double, Decimal-IsRanked}
use bsv_miner_op_code_calc.Bench.Bytes.Split.{benchmark_op_split, benchmark_op_split-IsMeasured}
use bsv_miner_op_code_calc.Common.{
  All, ◌≡◌, ◌⊎◌, ◌<◌, ◌≤◌, ◌-◌, ◌^◌, [], ◌∷◌, length, ok, err, ◌>>=◌, arith,
}
use bsv_miner_op_code_calc.Bench.Exception.{runtime_error}
use bsv_miner_op_code_calc.Bench.Stack.{Bytes}
use bsv_miner_op_code_calc.Bench.Bytes.{op_cat, op_split, op_num2bin, op_bin2num}
use bsv_miner_op_code_calc.Bench.Bytes.Digits.{le_bytes, le_value}
use bsv_miner_op_code_calc.Bench.Bytes.Cut.{Cuts, op_split-op_cat}
use bsv_miner_op_code_calc.Bench.Bytes.Encode.{op_num2bin-le_bytes}
use bsv_miner_op_code_calc.Bench.Bytes.Decode.{
  op_bin2num-le_value, op_bin2num-op_num2bin, op_num2bin-op_bin2num,
}
use bsv_miner_op_code_calc.Bench.Bytes.Jobs.{
  benchmark_op_cat, benchmark_op_num2bin, benchmark_op_bin2num, benchmark_cat_chain,
}
use bsv_miner_op_code_calc.Bench.Bytes.Measured.{IsMeasured, IsRead, byte_jobs-IsMeasured}

abbrev four_bytes : Bytes
four_bytes = 1 ∷ 2 ∷ 0xff ∷ 4 ∷ []

-- -2 keeps its sign in eight bytes, and loses it in nine.
op_num2bin-le_bytes_example :
    op_num2bin (2 ^ 64 - 2) 9 ≡ ok (0xfe ∷ 0xff ∷ 0xff ∷ 0xff ∷ 0xff ∷ 0xff ∷ 0xff ∷ 0xff ∷ 0 ∷ [])
unfolding le_bytes
op_num2bin-le_bytes_example = op_num2bin-le_bytes (2 ^ 64 - 2) 9 (omega arith)

op_bin2num-le_value_example : op_bin2num four_bytes ≡ ok 0x04ff0201
unfolding le_value
op_bin2num-le_value_example = op_bin2num-le_value four_bytes (omega arith)

op_bin2num-op_num2bin_example : (op_num2bin 0x1234 2 >>= op_bin2num) ≡ ok 0x1234
op_bin2num-op_num2bin_example = op_bin2num-op_num2bin 0x1234 2 (omega arith) (omega arith)

op_num2bin-op_bin2num_example :
    (op_bin2num four_bytes >>= λ num. op_num2bin num (length four_bytes)) ≡ ok four_bytes
op_num2bin-op_bin2num_example = op_num2bin-op_bin2num four_bytes (omega arith) (omega arith)

op_split-op_cat_example :
    (((4 < 5) × (op_split four_bytes 5 ≡ err (runtime_error "Split position out of range")))
      ⊎ ((5 ≤ 4) × Cuts four_bytes 5))
    × (op_split (op_cat four_bytes (9 ∷ [])) 4 ≡ ok (four_bytes, 9 ∷ []))
op_split-op_cat_example = op_split-op_cat four_bytes (9 ∷ []) 5

byte_jobs-IsMeasured_example :
    All (IsMeasured 99) benchmark_op_cat
    × All (IsMeasured 99) benchmark_op_num2bin
    × All (IsRead 99) benchmark_op_bin2num
    × All (IsMeasured 99) benchmark_cat_chain
byte_jobs-IsMeasured_example = byte_jobs-IsMeasured 99

benchmark_op_split-IsMeasured_example : All (IsMeasured 99) (benchmark_op_split Decimal)
benchmark_op_split-IsMeasured_example = benchmark_op_split-IsMeasured Decimal-IsRanked 99
