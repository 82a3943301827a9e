-- ===== src/Bench/Bytes/Encode.antt =====
-- What `op_num2bin` of bsv_script_bench/src/bench_byte_ops.cpp stores.
use bsv_miner_op_code_calc.Common.{
  ℕ, zero, suc, ◌+◌, ◌*◌, ◌%◌, ◌^◌, ◌<◌, ◌≡◌, refl, true, ltb, ◌&&◌, [], ◌∷◌, ◌++◌, length,
  length-append, replicate, ok, arith,
}
use bsv_miner_op_code_calc.Bench.Stack.{Bytes}
use bsv_miner_op_code_calc.Bench.Bits.{and_byte}
use bsv_miner_op_code_calc.Bench.Bytes.{store, shift_right, byte_of, num2bin_loop, op_num2bin}
use bsv_miner_op_code_calc.Bench.Bytes.Digits.{le_bytes, le_bytes-zero, shifted}

-- The shift of a word by whole bytes, at each round; the sign bit stays above the byte that is kept.
shift_right-shifted :
    (i num : ℕ) → i < 8 → num < 2 ^ 64 → shift_right num (i * 8) % 256 ≡ shifted i num % 256
unfolding shift_right
shift_right-shifted zero num h word = ground arith
shift_right-shifted (suc zero) num h word = ground arith
shift_right-shifted (suc (suc zero)) num h word = ground arith
shift_right-shifted (suc (suc (suc zero))) num h word = ground arith
shift_right-shifted (suc (suc (suc (suc zero)))) num h word = ground arith
shift_right-shifted (suc (suc (suc (suc (suc zero))))) num h word = ground arith
shift_right-shifted (suc (suc (suc (suc (suc (suc zero)))))) num h word = ground arith
shift_right-shifted (suc (suc (suc (suc (suc (suc (suc zero))))))) num h word = ground arith
shift_right-shifted (suc (suc (suc (suc (suc (suc (suc (suc i)))))))) num h word =
    absurd (omega arith)

byte_of-shifted : (num i : ℕ) → i < 8 → num < 2 ^ 64 → byte_of num i ≡ shifted i num % 256
unfolding byte_of
byte_of-shifted num i h word =
    omega (arith, and_byte (shift_right num (i * 8)), shift_right-shifted i num h word)

shifted-eight : (num : ℕ) → num < 2 ^ 64 → shifted 8 num ≡ 0
shifted-eight num word = omega arith

-- A store just behind a prefix.
store-append :
    (done : Bytes) (i b x : ℕ) (rest : Bytes)
    → length done ≡ i
    → store i b (done ++ x ∷ rest) ≡ ok (done ++ b ∷ rest)
unfolding store
store-append [] zero b x rest e = refl
store-append [] (suc i) b x rest e = absurd (omega arith)
store-append (y ∷ done) zero b x rest e = absurd (omega arith)
store-append (y ∷ done) (suc i) b x rest e = rw (store-append done i b x rest (omega arith)) refl

snoc-append : (done : Bytes) (b : ℕ) (rest : Bytes) → (done ++ b ∷ []) ++ rest ≡ done ++ b ∷ rest
snoc-append [] b rest = refl
snoc-append (y ∷ done) b rest = rw (snoc-append done b rest) refl

num2bin_loop-le_bytes :
    (fuel num r i size : ℕ) (done : Bytes)
    → length done ≡ i
    → i + r ≡ size
    → fuel + i ≡ 8
    → num < 2 ^ 64
    → num2bin_loop fuel i num size (done ++ replicate r 0) ≡ ok (done ++ le_bytes r (shifted i num))
unfolding num2bin_loop le_bytes
num2bin_loop-le_bytes zero num r i size done at_i rest full word =
    let eight : i ≡ 8 = omega arith in
    rw (eight, shifted-eight num word, le_bytes-zero r) (ground arith)
num2bin_loop-le_bytes (suc fuel) num zero i size done at_i rest full word = ground arith
num2bin_loop-le_bytes (suc fuel) num (suc r) i size done at_i rest full word =
    let inside : (ltb i size && ltb i 8) ≡ true = ground arith in
    let b = byte_of num i in
    let longer : length (done ++ b ∷ []) ≡ suc i = omega (arith, length-append done (b ∷ [])) in
    let next =
      num2bin_loop-le_bytes fuel num r (suc i) size (done ++ b ∷ []) longer (omega arith)
        (omega arith) word in
    rw
      (
        inside,
        store-append done i b 0 (replicate r 0) at_i,
        ← snoc-append done b (replicate r 0),
        next,
        snoc-append done b (le_bytes r (shifted (suc i) num)),
        byte_of-shifted num i (omega arith) word,
      )
      refl

-- For any number of 64 bits and any size, the bytes are the little-endian digits of the number's 64 bits, zeros
-- above them, and every store is inside the result.
pub op_num2bin-le_bytes :
    (num size : ℕ) → num < 2 ^ 64 → op_num2bin num size ≡ ok (le_bytes size num)
unfolding op_num2bin
op_num2bin-le_bytes num size word =
    num2bin_loop-le_bytes 8 num size 0 size [] refl (omega arith) refl word
