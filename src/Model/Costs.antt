-- ===== src/Model/Costs.antt =====
-- How the price that `calculate_opcode_cost` of libbsv_cost_estimator/src/cost_estimator.cpp computes
-- depends on the sizes.
use mathlib.Core.Path.{subst}
use bsv_miner_op_code_calc.Common.{ℕ, ◌≤◌, ◌<◌, ◌^◌, ◌≡◌, true, sym, some, [], ◌∷◌, arith}
use bsv_miner_op_code_calc.Double.{Double, Order, IsOrdered, cast64}
use bsv_miner_op_code_calc.OpCode.{OpCode}
use bsv_miner_op_code_calc.Model.{
  CostType, OpcodeCostModel, Impl, linear_value, signature_value, calculate_opcode_cost,
  cost_by_type,
}

module _ {ℓ} {W : Type ℓ} ⦃d : Double W⦄ (o : Order W) where
  open o use {le, largest, last_u64}

  -- A coefficient that is finite and not negative.
  pub record IsCoefficient (c : W) : Type 0 where
    pub nonneg : le (d.lit 0 0) c ≡ true
    pub finite : le c largest ≡ true

  pub record IsSound (model : OpcodeCostModel W) : Type 0 where
    pub base : IsCoefficient model.c0
    pub slope : IsCoefficient model.c1
    pub alloc : IsCoefficient model.c_alloc
    pub ecdsa : IsCoefficient model.c_ecdsa
    pub preimage : IsCoefficient model.c_preimage_per_byte

  -- The value that is converted at a size fits a word; a constant is no function of the size, and a
  -- signature check of several keys has more sizes than one.
  abbrev pub Fits : OpcodeCostModel W → CostType → ℕ → Type 0
  Fits model CostType.constant n = Unit
  Fits model CostType.linear n = le (linear_value model n) last_u64 ≡ true
  Fits model CostType.signature n = le (signature_value model n) last_u64 ≡ true
  Fits model CostType.multisig n = ⊥

module _ {ℓ} {W : Type ℓ} ⦃d : Double W⦄ {o : Order W} (laws : IsOrdered W o) where
  open o use {le, last_u64}
  open laws use {
    zero-le-of_u64, of_u64-le-largest, of_u64_mono, zero-le-mul, mul_mono, zero-le-add,
    add_mono_right, add_mono_left, to_u64_mono, to_u64-lt, le_trans,
  }

  product_mono :
      (c : W) (m n : ℕ)
      → IsCoefficient o c
      → m ≤ n
      → n < 2 ^ 64
      → (le (d.lit 0 0) (d.mul c (d.of_u64 m)) ≡ true)
        × (le (d.mul c (d.of_u64 m)) (d.mul c (d.of_u64 n)) ≡ true)
  product_mono c m n h le_mn word =
      let m_finite = of_u64-le-largest m (omega arith) in
      let n_finite = of_u64-le-largest n word in
      (
        zero-le-mul c (d.of_u64 m) h.nonneg (zero-le-of_u64 m (omega arith)) h.finite m_finite,
        mul_mono c (d.of_u64 m) (d.of_u64 n) h.nonneg h.finite (zero-le-of_u64 m (omega arith))
            (of_u64_mono m n le_mn word) n_finite,
      )

  linear_value_mono :
      (model : OpcodeCostModel W) (m n : ℕ)
      → IsSound o model
      → m ≤ n
      → n < 2 ^ 64
      → (le (d.lit 0 0) (linear_value model m) ≡ true)
        × (le (linear_value model m) (linear_value model n) ≡ true)
  unfolding linear_value
  linear_value_mono model m n s le_mn word =
      let (p0, p) = product_mono model.c1 m n s.slope le_mn word in
      let q0 = zero-le-add _ _ s.base.nonneg p0 in
      let q = add_mono_right model.c0 _ _ s.base.nonneg p0 p in
      (zero-le-add _ _ q0 s.alloc.nonneg, add_mono_left model.c_alloc _ _ s.alloc.nonneg q0 q)

  signature_value_mono :
      (model : OpcodeCostModel W) (m n : ℕ)
      → IsSound o model
      → m ≤ n
      → n < 2 ^ 64
      → (le (d.lit 0 0) (signature_value model m) ≡ true)
        × (le (signature_value model m) (signature_value model n) ≡ true)
  unfolding signature_value
  signature_value_mono model m n s le_mn word =
      let (p0, p) = product_mono model.c_preimage_per_byte m n s.preimage le_mn word in
      (zero-le-add _ _ s.ecdsa.nonneg p0, add_mono_right model.c_ecdsa _ _ s.ecdsa.nonneg p0 p)

  cast64_mono :
      (x y : W)
      → le (d.lit 0 0) x ≡ true
      → le x y ≡ true
      → le y last_u64 ≡ true
      → cast64 x ≤ cast64 y
  cast64_mono x y x0 xy fits =
      omega (arith, to_u64_mono x y x0 xy fits, to_u64-lt y (le_trans _ _ _ x0 xy) fits)

  cost_by_type_mono :
      (t : CostType) (model : OpcodeCostModel W) (m n : ℕ)
      → IsSound o model
      → m ≤ n
      → n < 2 ^ 64
      → Fits o model t n
      → cost_by_type (some t) model (m ∷ []) ≤ cost_by_type (some t) model (n ∷ [])
  unfolding cost_by_type
  cost_by_type_mono CostType.constant model m n s le_mn word fits = omega arith
  cost_by_type_mono CostType.linear model m n s le_mn word fits =
      let (p0, p) = linear_value_mono model m n s le_mn word in cast64_mono _ _ p0 p fits
  cost_by_type_mono CostType.signature model m n s le_mn word fits =
      let (p0, p) = signature_value_mono model m n s le_mn word in cast64_mono _ _ p0 p fits
  cost_by_type_mono CostType.multisig model m n s le_mn word fits = absurd fits

  -- With coefficients that are finite and not negative, an opcode of the type `constant`, `linear` or
  -- `signature` costs no less at a larger size, as long as the larger cost fits a word.
  pub calculate_opcode_cost_mono :
      (impl : Impl W) (op : OpCode) (model : OpcodeCostModel W) (m n : ℕ) (t : CostType)
      → impl.opcode_costs op ≡ some model
      → model.type ≡ some t
      → IsSound o model
      → m ≤ n
      → n < 2 ^ 64
      → Fits o model t n
      → calculate_opcode_cost impl op (m ∷ []) ≤ calculate_opcode_cost impl op (n ∷ [])
  unfolding calculate_opcode_cost
  calculate_opcode_cost_mono impl op model m n t priced typed s le_mn word fits =
      rw (priced, calculate_opcode_cost)
        (subst (λ o. cost_by_type o model (m ∷ []) ≤ cost_by_type o model (n ∷ [])) (sym typed)
          (cost_by_type_mono t model m n s le_mn word fits))
