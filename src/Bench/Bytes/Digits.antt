-- ===== src/Bench/Bytes/Digits.antt =====
-- Little-endian digits in base 256: what the encodings of bsv_script_bench/src/bench_byte_ops.cpp mean.
use native.Mathlib.Nat.{pow-suc}
use bsv_miner_op_code_calc.Common.{
  ℕ, zero, suc, ◌+◌, ◌*◌, ◌/◌, ◌%◌, ◌^◌, ◌≤◌, ◌<◌, ◌≡◌, refl, [], ◌∷◌, length, take, replicate, All,
  arith,
}
use bsv_miner_op_code_calc.Bench.Stack.{Bytes}

-- The digits of a number, as many as asked for, the lowest first; and the number of some digits.
unfoldable pub le_bytes : ℕ → ℕ → Bytes
le_bytes zero n = []
le_bytes (suc size) n = n % 256 ∷ le_bytes size (n / 256)

unfoldable pub le_value : Bytes → ℕ
le_value [] = 0
le_value (b ∷ bs) = b + 256 * le_value bs

-- `n` without its lowest `i` digits, and with `i` zeros below.
abbrev pub shifted : ℕ → ℕ → ℕ
shifted zero n = n
shifted (suc i) n = shifted i n / 256

abbrev pub scale : ℕ → ℕ → ℕ
scale zero n = n
scale (suc i) n = scale i (256 * n)

pub scale-add : (i m n : ℕ) → scale i (m + n) ≡ scale i m + scale i n
scale-add zero m n = refl
scale-add (suc i) m n =
    let spread : 256 * (m + n) ≡ 256 * m + 256 * n = omega arith in
    rw spread (scale-add i (256 * m) (256 * n))

pub scale-256 : (i n : ℕ) → scale i (256 * n) ≡ 256 * scale i n
scale-256 zero n = refl
scale-256 (suc i) n = scale-256 i (256 * n)

pub scale_mono : (i m n : ℕ) → m ≤ n → scale i m ≤ scale i n
scale_mono zero m n h = h
scale_mono (suc i) m n h = scale_mono i (256 * m) (256 * n) (omega arith)

pub scale-pow : (i : ℕ) → scale i 1 ≡ 256 ^ i
scale-pow zero = refl
scale-pow (suc i) = omega (arith, scale-256 i 1, scale-pow i, pow-suc 256 i)

-- The digits of zero are zeros.
pub le_bytes-zero : (size : ℕ) → le_bytes size 0 ≡ replicate size 0
unfolding le_bytes
le_bytes-zero zero = refl
le_bytes-zero (suc size) = rw (le_bytes-zero size) refl

pub length-le_bytes : (size n : ℕ) → length (le_bytes size n) ≡ size
unfolding le_bytes
length-le_bytes zero n = refl
length-le_bytes (suc size) n = omega (arith, length-le_bytes size (n / 256))

pub le_bytes-IsByte : (size n : ℕ) → All (λ b. b < 256) (le_bytes size n)
unfolding le_bytes
le_bytes-IsByte zero n = tt
le_bytes-IsByte (suc size) n = (omega arith, le_bytes-IsByte size (n / 256))

-- Taking enough digits of a number that fits gives it back.
pub le_value-take-le_bytes :
    (k size n : ℕ) → n < scale size 1 → n < scale k 1 → le_value (take k (le_bytes size n)) ≡ n
unfolding le_bytes le_value
le_value-take-le_bytes zero size n fits small = omega arith
le_value-take-le_bytes (suc k) zero n fits small = omega arith
le_value-take-le_bytes (suc k) (suc size) n fits small = omega (
  arith,
  le_value-take-le_bytes k size (n / 256) (omega (arith, scale-256 size 1))
      (omega (arith, scale-256 k 1)),
)

-- The digits of the number of some bytes are those bytes.
pub le_bytes-le_value :
    (bs : Bytes) → All (λ b. b < 256) bs → le_bytes (length bs) (le_value bs) ≡ bs
unfolding le_bytes le_value
le_bytes-le_value [] h = refl
le_bytes-le_value (b ∷ bs) h =
    let small = h.0 in
    let low : (b + 256 * le_value bs) % 256 ≡ b = omega arith in
    let high : (b + 256 * le_value bs) / 256 ≡ le_value bs = omega arith in
    rw (low, high, le_bytes-le_value bs h.1) refl

pub le_value-lt : (bs : Bytes) → All (λ b. b < 256) bs → le_value bs < scale (length bs) 1
unfolding le_value
le_value-lt [] h = omega arith
le_value-lt (b ∷ bs) h =
    let small = h.0 in omega (arith, le_value-lt bs h.1, scale-256 (length bs) 1)
