-- ===== src/Bench/Hash/Fit.antt =====
-- `analyze_hash_linearity` of bsv_script_bench/src/bench_hash_ops.cpp, but what it prints: the line that
-- is fitted to the sizes and the cycles of the results of an opcode.
use text.Mathlib.Text
use bsv_miner_op_code_calc.Common.{
  ℕ, String, ◌*◌, ◌%◌, ◌^◌, ltb, Option, none, some, if◌then◌else◌, List, [], ◌∷◌, length,
}
use bsv_miner_op_code_calc.Double.{Double, Signed}
use bsv_miner_op_code_calc.Bench.Harness.Measure.{BenchResult}

-- A product of two words, as the product of two `uint64_t`.
abbrev pub mul64 : ℕ → ℕ → ℕ
mul64 a b = a * b % 2 ^ 64

-- The points of an opcode, (bytes, cycles).
unfoldable pub points {ℓ} : {W : Type ℓ} → String → List (BenchResult W) → List (ℕ × ℕ)
points opcode_name [] = []
points opcode_name (r ∷ results) =
    let rest = points opcode_name results in
    if Text.◌==◌ r.opcode opcode_name then (r.input_bytes, r.median_cycles) ∷ rest else rest

pub record Sums {ℓ} (W : Type ℓ) : Type ℓ where
  pub sum_x : W
  pub sum_y : W
  pub sum_xy : W
  pub sum_xx : W

pub record Residuals {ℓ} (W : Type ℓ) : Type ℓ where
  pub ss_tot : W
  pub ss_res : W

pub record LinearModel {ℓ} (W : Type ℓ) : Type ℓ where
  pub c0 : W
  pub c1 : W
  pub r_squared : W

module _ {ℓ} {W : Type ℓ} ⦃d : Double W⦄ ⦃e : Signed W⦄ where
  open d use {lit, of_u64, add, mul, div}
  open e use {sub}

  abbrev pub no_sums : Sums W
  no_sums = record { sum_x = lit 0 0; sum_y = lit 0 0; sum_xy = lit 0 0; sum_xx = lit 0 0 }

  -- `for (const auto& [x, y] : points)`, the first of the two loops.
  unfoldable pub add_points : List (ℕ × ℕ) → Sums W → Sums W
  add_points [] s = s
  add_points ((x, y) ∷ more) s = add_points more (record {
    sum_x = add s.sum_x (of_u64 x);
    sum_y = add s.sum_y (of_u64 y);
    sum_xy = add s.sum_xy (of_u64 (mul64 x y));
    sum_xx = add s.sum_xx (of_u64 (mul64 x x));
  })

  -- The second.
  unfoldable pub add_residuals : W → W → W → List (ℕ × ℕ) → Residuals W → Residuals W
  add_residuals c0 c1 mean_y [] s = s
  add_residuals c0 c1 mean_y ((x, y) ∷ more) s =
      let y_pred = add c0 (mul c1 (of_u64 x)) in
      let apart = sub (of_u64 y) mean_y in
      let missed = sub (of_u64 y) y_pred in
      add_residuals c0 c1 mean_y more (record {
        ss_tot = add s.ss_tot (mul apart apart);
        ss_res = add s.ss_res (mul missed missed);
      })

  -- `c1`, `c0` and `r_squared`.
  abbrev pub slope_of : W → Sums W → W
  slope_of n s =
      div (sub (mul n s.sum_xy) (mul s.sum_x s.sum_y)) (sub (mul n s.sum_xx) (mul s.sum_x s.sum_x))

  abbrev pub base_of : W → Sums W → W → W
  base_of n s c1 = div (sub s.sum_y (mul c1 s.sum_x)) n

  abbrev pub no_residuals : Residuals W
  no_residuals = record { ss_tot = lit 0 0; ss_res = lit 0 0 }

  abbrev pub quality_of : Residuals W → W
  quality_of squares = sub (lit 1 0) (div squares.ss_res squares.ss_tot)

  -- The fit, with the sums of the points.
  unfoldable pub fit_sums : List (ℕ × ℕ) → Sums W → LinearModel W
  unfolding add_residuals
  fit_sums pts s =
      let n = of_u64 (length pts) in
      let c1 = slope_of n s in
      let c0 = base_of n s c1 in
      let mean_y = div s.sum_y n in
      record {
        c0 = c0;
        c1 = c1;
        r_squared = quality_of (add_residuals c0 c1 mean_y pts no_residuals);
      }

  -- What is printed, which is nothing for fewer than two points.
  unfoldable pub analyze_hash_linearity : List (BenchResult W) → String → Option (LinearModel W)
  unfolding points add_points fit_sums
  analyze_hash_linearity results opcode_name =
      let pts = points opcode_name results in
      if ltb (length pts) 2 then none else some (fit_sums pts (add_points pts no_sums))
