-- ===== src/Bench/Bytes/Decode.antt =====
-- What `op_bin2num` of bsv_script_bench/src/bench_byte_ops.cpp reads, and the round trips with
-- `op_num2bin`.
use native.Mathlib.Nat.{pow-le-pow_right}
use bsv_miner_op_code_calc.Common.{
  take-length_le, ap, ◌∙◌, ℕ, zero, suc, ◌+◌, ◌*◌, ◌^◌, ◌≤◌, ◌<◌, ◌≡◌, refl, min, true, false, ltb,
  Bool-cases, inl, inr, bit_or, length, get_elem?-lt, take, drop, drop-length_le, All,
  All-get_elem?, ok, ◌>>=◌, arith,
}
use bsv_miner_op_code_calc.Bench.Stack.{Bytes}
use bsv_miner_op_code_calc.Bench.Bits.{or_low}
use bsv_miner_op_code_calc.Bench.Bytes.{shift_left, bin2num_loop, op_bin2num, op_num2bin}
use bsv_miner_op_code_calc.Bench.Bytes.Digits.{
  le_bytes, le_value, scale, scale-pow, scale-add, scale_mono, le_value-take-le_bytes,
  le_bytes-le_value, le_value-lt, le_bytes-IsByte,
}
use bsv_miner_op_code_calc.Bench.Bytes.Encode.{op_num2bin-le_bytes}

-- A byte at its place in a word: nothing is shifted out.
shift_left-scale :
    (i b : ℕ)
    → i < 8
    → b < 256
    → (shift_left b (i * 8) ≡ b * 2 ^ (i * 8))
      × (scale i b ≡ b * 2 ^ (i * 8))
      × (scale i 1 ≡ 2 ^ (i * 8))
unfolding shift_left
shift_left-scale zero b h byte = omega arith
shift_left-scale (suc zero) b h byte = omega arith
shift_left-scale (suc (suc zero)) b h byte = omega arith
shift_left-scale (suc (suc (suc zero))) b h byte = omega arith
shift_left-scale (suc (suc (suc (suc zero)))) b h byte = omega arith
shift_left-scale (suc (suc (suc (suc (suc zero))))) b h byte = omega arith
shift_left-scale (suc (suc (suc (suc (suc (suc zero)))))) b h byte = omega arith
shift_left-scale (suc (suc (suc (suc (suc (suc (suc zero))))))) b h byte = omega arith
shift_left-scale (suc (suc (suc (suc (suc (suc (suc (suc i)))))))) b h byte = absurd (omega arith)

-- `result |= (int64_t)b << (i * 8)` adds the byte at its place.
bit_or-shift_left :
    (i b acc : ℕ)
    → i < 8
    → b < 256
    → acc < scale i 1
    → bit_or acc (shift_left b (i * 8)) ≡ acc + scale i b
bit_or-shift_left i b acc h byte fits =
    let (placed, scaled, one) = shift_left-scale i b h byte in
    rw (placed, scaled) (or_low (i * 8) acc b (omega arith))

-- What is read so far stays below the next byte's place.
scale-lt : (i b acc : ℕ) → b < 256 → acc < scale i 1 → acc + scale i b < scale (suc i) 1
scale-lt i b acc byte fits = omega (arith, scale-add i b 1, scale_mono i (b + 1) 256 (omega arith))

scale-zero : (i : ℕ) → scale i 0 ≡ 0
scale-zero i = omega (arith, scale-add i 0 0)

bin2num_loop-le_value :
    (fuel i : ℕ) (bytes : Bytes) (acc : ℕ)
    → fuel + i ≡ 8
    → All (λ b. b < 256) bytes
    → acc < scale i 1
    → bin2num_loop fuel i bytes acc ≡ ok (acc + scale i (le_value (take fuel (drop i bytes))))
unfolding bin2num_loop le_value
bin2num_loop-le_value zero i bytes acc full small fits =
    let outside : ltb i (min (length bytes) 8) ≡ false = ground arith in
    let sum : acc + scale i 0 ≡ acc = omega (arith, scale-zero i) in rw (outside, sum) refl
bin2num_loop-le_value (suc fuel) i bytes acc full small fits =
    elim (Bool-cases (ltb i (length bytes))) [
      | inl more ↦
          let (b, read, tail) = get_elem?-lt bytes i (ground arith) in
          let byte : b < 256 = All-get_elem? (λ b. b < 256) bytes i small read in
          let inside : ltb i (min (length bytes) 8) ≡ true = ground arith in
          let v = le_value (take fuel (drop (suc i) bytes)) in
          let acc' = acc + scale i b in
          let next =
            bin2num_loop-le_value fuel (suc i) bytes acc' (omega arith) small
              (scale-lt i b acc byte fits) in
          let sum : acc + scale i (b + 256 * v) ≡ acc' + scale (suc i) v =
            omega (arith, scale-add i b (256 * v)) in
          rw (inside, read, bit_or-shift_left i b acc (omega arith) byte fits, next, tail, sum) refl
      | inr over ↦
          let outside : ltb i (min (length bytes) 8) ≡ false = ground arith in
          let sum : acc + scale i 0 ≡ acc = omega (arith, scale-zero i) in
          rw (outside, drop-length_le bytes i (ground arith), sum) refl
    ]

-- On bytes the result is the little-endian value of the first eight, as 64 bits; no read is outside.
pub op_bin2num-le_value :
    (bytes : Bytes) → All (λ b. b < 256) bytes → op_bin2num bytes ≡ ok (le_value (take 8 bytes))
unfolding op_bin2num
op_bin2num-le_value bytes small =
    let v = le_value (take 8 bytes) in
    let none_yet : 0 + v ≡ v = omega arith in
    bin2num_loop-le_value 8 0 bytes 0 refl small (omega arith) ∙ ap ok none_yet

-- A number of 64 bits that fits the size is read back as it was.
pub op_bin2num-op_num2bin :
    (num size : ℕ) → num < 2 ^ 64 → num < 256 ^ size → (op_num2bin num size >>= op_bin2num) ≡ ok num
op_bin2num-op_num2bin num size word fits =
    rw
      (
        op_num2bin-le_bytes num size word,
        op_bin2num-le_value (le_bytes size num) (le_bytes-IsByte size num),
      )
      (ap ok (le_value-take-le_bytes 8 size num (omega (arith, scale-pow size)) (omega arith)))

-- Up to eight bytes are encoded back to what they were.
pub op_num2bin-op_bin2num :
    (bytes : Bytes)
    → All (λ b. b < 256) bytes
    → length bytes ≤ 8
    → (op_bin2num bytes >>= λ num. op_num2bin num (length bytes)) ≡ ok bytes
op_num2bin-op_bin2num bytes small short =
    let positive : 0 < 256 = omega arith in
    let word : le_value bytes < 2 ^ 64 =
      omega (
        arith,
        le_value-lt bytes small,
        scale-pow (length bytes),
        pow-le-pow_right positive short,
      ) in
    rw (op_bin2num-le_value bytes small, take-length_le bytes 8 short)
      (op_num2bin-le_bytes (le_value bytes) (length bytes) word
        ∙ ap ok (le_bytes-le_value bytes small))
