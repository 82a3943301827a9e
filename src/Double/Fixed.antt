-- ===== src/Double/Fixed.antt =====
-- A value of the interface that computes: decimal numbers with four places, rounded down. The
-- coefficients of the cost models have at most two places.
use bsv_miner_op_code_calc.Common.{
  ℕ, zero, suc, refl, if◌then◌else◌, ◌≡◌, ◌+◌, ◌-◌, ◌*◌, ◌/◌, ◌^◌, ◌≤◌, leb, arith,
}
use bsv_miner_op_code_calc.Double.Laws.{Double, Order, IsOrdered}
use bsv_miner_op_code_calc.Double.Exact.{Signed, IsExact, IsRanked}

abbrev pub Decimal : Type 0
Decimal = ℕ

abbrev pub places : ℕ
places = 10_000

instance abbrev pub decimal_double : Double Decimal
decimal_double = record {
  lit = λ m k. m * places / 10 ^ k;
  of_u64 = λ n. n * places;
  add = λ a b. a + b;
  mul = λ a b. a * b / places;
  div = λ a b. a * places / b;
  to_u64 = λ a. a / places;
}

scaled_mono : (c x y : ℕ) → x ≤ y → c * x / places ≤ c * y / places
scaled_mono c x y h = let wide : c * x ≤ c * y = grind arith in omega arith

abbrev pub decimal_order : Order Decimal
decimal_order = record { le = leb; largest = places * 2 ^ 64; last_u64 = places * 2 ^ 64 - 1 }

pub Decimal-IsOrdered : IsOrdered Decimal decimal_order
Decimal-IsOrdered = record {
  le_trans = λ x y z p q. ground arith;
  zero-le-of_u64 = λ n h. ground arith;
  of_u64-le-largest = λ n h. ground arith;
  of_u64_mono = λ m n h w. ground arith;
  zero-le-mul = λ x y p q r s. ground arith;
  mul_mono = λ c x y p q r s t. ground (arith, scaled_mono c x y);
  zero-le-add = λ x y p q. ground arith;
  add_mono_right = λ c x y p q r. ground arith;
  add_mono_left = λ c x y p q r. ground arith;
  to_u64-lt = λ x p q. ground arith;
  to_u64_mono = λ x y p q r. ground arith;
}

-- The square root, rounded down, from that of the quarter.
abbrev root : ℕ → ℕ → ℕ
root zero n = 0
root (suc fuel) n = let r = 2 * root fuel (n / 4) in if leb ((r + 1) * (r + 1)) n then r + 1 else r

-- A difference stops at zero.
instance abbrev pub decimal_signed : Signed Decimal
decimal_signed = record { sub = λ a b. a - b; sqrt = λ a. root 64 (a * places) }

-- The index that a percentage of a size is converted to.
index : ℕ → ℕ → ℕ
index n p =
    decimal_double.to_u64 (decimal_double.mul (decimal_double.of_u64 n) (decimal_double.lit p 2))

index_lem : (n p : ℕ) → index n p ≡ n * p / 100
unfolding index
index_lem n p =
    let percent : p * places / 100 ≡ p * 100 = omega arith in
    let scaled : n * places * (p * 100) ≡ n * p * 1_000_000 = grind arith in
    rw (percent, scaled) (omega arith)

pub Decimal-IsExact : IsExact Decimal
Decimal-IsExact = record {
  zero_lit = refl;
  add_whole = λ a b h. omega arith;
  to_u64_whole = λ a h. omega arith;
}

pub Decimal-IsRanked : IsRanked Decimal
unfolding index
Decimal-IsRanked = record {
  percent-lt =
      λ n p h s w. let below : n * p ≤ n * 99 = grind arith in omega (arith, index_lem n p);
  percent_mono = λ n p q h s w.
      let wide : n * p ≤ n * q = grind arith in omega (arith, index_lem n p, index_lem n q);
  half-le = λ n p h s w. let wide : n * 50 ≤ n * p = grind arith in omega (arith, index_lem n p);
}
