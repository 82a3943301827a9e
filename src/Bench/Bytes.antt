-- ===== src/Bench/Bytes.antt =====
-- The byte operations of bsv_script_bench/src/bench_byte_ops.cpp. An `int64_t` is its pattern of 64
-- bits, a number below 2 ^ 64.
pub mod Digits
pub mod Encode
pub mod Decode
pub mod Cut
pub mod Jobs
pub mod Measured
pub mod Split
mod Tests
use bsv_miner_op_code_calc.Common.{
  ℕ, zero, suc, ◌+◌, ◌*◌, ◌-◌, ◌/◌, ◌%◌, ◌^◌, ltb, if◌then◌else◌, ◌&&◌, min, bit_and, bit_or, [],
  ◌∷◌, ◌++◌, length, get_elem?, take, drop, replicate, u64, Result, ok, err, ◌>>=◌, checked, Fault,
}
use bsv_miner_op_code_calc.Bench.Exception.{runtime_error, Throws}
use bsv_miner_op_code_calc.Bench.Stack.{Bytes}

unfoldable pub op_cat : Bytes → Bytes → Bytes
op_cat a b = ([] ++ a) ++ b

unfoldable pub op_split : Bytes → ℕ → Throws (Bytes × Bytes)
op_split bytes position =
    if ltb (length bytes) position
    then err (runtime_error "Split position out of range")
    else ok (take position bytes, drop position bytes)

-- `num >> s` of an int64_t: the sign bit is shifted in.
unfoldable pub shift_right : ℕ → ℕ → ℕ
shift_right num s =
    if ltb num (2 ^ 63) then num / 2 ^ s else 2 ^ 64 - 1 - (2 ^ 64 - 1 - num) / 2 ^ s

-- `(int64_t)b << s`.
unfoldable pub shift_left : ℕ → ℕ → ℕ
shift_left b s = u64 (b * 2 ^ s)

-- `result[i] = b`.
unfoldable pub store : ℕ → ℕ → Bytes → Result Fault Bytes
store i b [] = err Fault.out_of_bounds
store zero b (_ ∷ xs) = ok (b ∷ xs)
store (suc i) b (x ∷ xs) = do xs' ← store i b xs; ok (x ∷ xs')

-- The byte that a round of `op_num2bin` stores: `(num >> (i * 8)) & 0xFF`, converted to uint8_t.
unfoldable pub byte_of : ℕ → ℕ → ℕ
unfolding shift_right
byte_of num i = bit_and (shift_right num (i * 8)) 0xff % 256

-- `for (size_t i = 0; i < size && i < 8; ++i)`, with fuel.
unfoldable pub num2bin_loop : ℕ → ℕ → ℕ → ℕ → Bytes → Result Fault Bytes
num2bin_loop zero i num size result =
    if ltb i size && ltb i 8 then err Fault.out_of_fuel else ok result
num2bin_loop (suc fuel) i num size result =
    if ltb i size && ltb i 8
    then (do result ← store i (byte_of num i) result; num2bin_loop fuel (suc i) num size result)
    else ok result

unfoldable pub op_num2bin : ℕ → ℕ → Result Fault Bytes
op_num2bin num size = num2bin_loop 8 0 num size (replicate size 0)

-- `for (size_t i = 0; i < std::min(bytes.size(), size_t(8)); ++i)`, with fuel.
unfoldable pub bin2num_loop : ℕ → ℕ → Bytes → ℕ → Result Fault ℕ
unfolding shift_left
bin2num_loop zero i bytes result =
    if ltb i (min (length bytes) 8) then err Fault.out_of_fuel else ok result
bin2num_loop (suc fuel) i bytes result =
    if ltb i (min (length bytes) 8)
    then (do
      b ← checked (get_elem? bytes i)
      bin2num_loop fuel (suc i) bytes (bit_or result (shift_left b (i * 8))))
    else ok result

unfoldable pub op_bin2num : Bytes → Result Fault ℕ
op_bin2num bytes = bin2num_loop 8 0 bytes 0
