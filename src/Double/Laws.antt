-- ===== src/Double/Laws.antt =====
-- The type `double` of the cost model, with the operations that the code applies to it.
use bsv_miner_op_code_calc.Common.{ℕ, ◌≡◌, ◌≤◌, ◌^◌, ◌<◌, Bool, true, u64}

-- `lit m k` is the literal m / 10 ^ k. `to_u64` is the truncating conversion; outside the range of
-- `uint64_t` the language does not define it.
pub record Double {ℓ} (W : Type ℓ) : Type ℓ where
  pub lit : ℕ → ℕ → W
  pub of_u64 : ℕ → W
  pub add : W → W → W
  pub mul : W → W → W
  pub div : W → W → W
  pub to_u64 : W → ℕ

-- `static_cast<uint64_t>(x)`: whatever the value, a word.
abbrev pub cast64 {ℓ} : {W : Type ℓ} ⦃d : Double W⦄ → W → ℕ
cast64 ⦃d⦄ x = u64 (d.to_u64 x)

-- The comparison `<=`, the largest finite value, and the largest one below 2 ^ 64.
pub record Order {ℓ} (W : Type ℓ) : Type ℓ where
  pub le : W → W → Bool
  pub largest : W
  pub last_u64 : W

-- What IEEE 754 says of the comparison `<=` and rounded arithmetic, on values that are not negative.
pub record IsOrdered {ℓ} (W : Type ℓ) ⦃d : Double W⦄ (o : Order W) : Type ℓ where
  pub le_trans : (x y z : W) → o.le x y ≡ true → o.le y z ≡ true → o.le x z ≡ true
  pub zero-le-of_u64 : (n : ℕ) → n < 2 ^ 64 → o.le (d.lit 0 0) (d.of_u64 n) ≡ true
  pub of_u64-le-largest : (n : ℕ) → n < 2 ^ 64 → o.le (d.of_u64 n) o.largest ≡ true
  pub of_u64_mono : (m n : ℕ) → m ≤ n → n < 2 ^ 64 → o.le (d.of_u64 m) (d.of_u64 n) ≡ true
  pub zero-le-mul :
      (x y : W)
      → o.le (d.lit 0 0) x ≡ true
      → o.le (d.lit 0 0) y ≡ true
      → o.le x o.largest ≡ true
      → o.le y o.largest ≡ true
      → o.le (d.lit 0 0) (d.mul x y) ≡ true
  pub mul_mono :
      (c x y : W)
      → o.le (d.lit 0 0) c ≡ true
      → o.le c o.largest ≡ true
      → o.le (d.lit 0 0) x ≡ true
      → o.le x y ≡ true
      → o.le y o.largest ≡ true
      → o.le (d.mul c x) (d.mul c y) ≡ true
  pub zero-le-add :
      (x y : W)
      → o.le (d.lit 0 0) x ≡ true
      → o.le (d.lit 0 0) y ≡ true
      → o.le (d.lit 0 0) (d.add x y) ≡ true
  pub add_mono_right :
      (c x y : W)
      → o.le (d.lit 0 0) c ≡ true
      → o.le (d.lit 0 0) x ≡ true
      → o.le x y ≡ true
      → o.le (d.add c x) (d.add c y) ≡ true
  pub add_mono_left :
      (c x y : W)
      → o.le (d.lit 0 0) c ≡ true
      → o.le (d.lit 0 0) x ≡ true
      → o.le x y ≡ true
      → o.le (d.add x c) (d.add y c) ≡ true
  pub to_u64-lt :
      (x : W) → o.le (d.lit 0 0) x ≡ true → o.le x o.last_u64 ≡ true → d.to_u64 x < 2 ^ 64
  pub to_u64_mono :
      (x y : W)
      → o.le (d.lit 0 0) x ≡ true
      → o.le x y ≡ true
      → o.le y o.last_u64 ≡ true
      → d.to_u64 x ≤ d.to_u64 y
