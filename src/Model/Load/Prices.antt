-- ===== src/Model/Load/Prices.antt =====
-- The price that an entry of a cost model file describes: `load_model` and `calculate_opcode_cost` of
-- libbsv_cost_estimator/src/cost_estimator.cpp in one.
use bsv_miner_op_code_calc.Common.{
  ℕ, String, ◌≡◌, refl, Option, List, get_or, sub64, if◌then◌else◌, Result, ok, ◌>>=◌, >>=->>=,
  if->>=,
}
use bsv_miner_op_code_calc.Double.{Double, cast64}
use bsv_miner_op_code_calc.Model.{
  CostType, OpcodeCostModel, linear_value, signature_value, multisig_value, cost_by_type,
}
use bsv_miner_op_code_calc.Model.Load.{
  Json, same_text, initial_model, read_constant, read_linear, read_signature, read_multisig,
  read_typed, read_model,
}

module _ {ℓ κ} {W : Type ℓ} {J : Type κ} ⦃d : Double W⦄ (json : Json W J)
    (uninitialised : Option CostType) where
  open json use {parse, contains, member, value_string, value_double, items}
  open d use {lit, of_u64, add, mul}

  -- The price that an entry of the file describes, read off the entry.
  unfoldable pub price_typed : String → J → List ℕ → Result String ℕ
  price_typed model_type entry params =
      if same_text model_type "constant"
      then (do c0 ← value_double entry "c0" (lit 0 0); ok (cast64 c0))
      else if same_text model_type "linear"
      then (do
        c0 ← value_double entry "c0" (lit 0 0)
        c1 ← value_double entry "c1" (lit 0 0)
        c_alloc ← value_double entry "c_alloc" (lit 0 0)
        ok (cast64 (add (add c0 (mul c1 (of_u64 (get_or params 0 0)))) c_alloc)))
      else if same_text model_type "signature"
      then (do
        c_ecdsa ← value_double entry "c_ecdsa" (lit 85_000 0)
        c_preimage ← value_double entry "c_preimage_per_byte" (lit 25 1)
        ok (cast64 (add c_ecdsa (mul c_preimage (of_u64 (get_or params 0 1000))))))
      else if same_text model_type "multisig"
      then (do
        c_ecdsa ← value_double entry "c_ecdsa" (lit 85_000 0)
        c_preimage ← value_double entry "c_preimage_per_byte" (lit 25 1)
        c_keyscan ← value_double entry "c_keyscan" (lit 150 0)
        c_setup ← value_double entry "c_setup" (lit 300 0)
        let m = get_or params 0 1
        let check = add c_ecdsa (mul c_preimage (of_u64 (get_or params 2 1000)))
        let scan = mul (of_u64 (sub64 (get_or params 1 3) m)) c_keyscan
        ok (cast64 (add (add (mul (of_u64 m) check) scan) c_setup)))
      else ok (cost_by_type uninitialised (initial_model json uninitialised) params)

  unfoldable pub described_price : J → List ℕ → Result String ℕ
  unfolding price_typed
  described_price entry params = do
    model_type ← value_string entry "model" "constant"
    price_typed model_type entry params

  -- The price of the model that is read from an entry.
  abbrev pub priced : List ℕ → OpcodeCostModel W → Result String ℕ
  priced params m = ok (cost_by_type m.type m params)

  read_typed-price_typed :
      (model_type : String) (entry : J) (params : List ℕ)
      → (read_typed json uninitialised model_type entry >>= priced params)
        ≡ price_typed model_type entry params
  unfolding read_typed price_typed cost_by_type read_constant read_linear read_signature
      read_multisig linear_value signature_value multisig_value
  read_typed-price_typed model_type entry params =
      if->>= (same_text model_type "constant") _ _ _
        (>>=->>= (value_double entry "c0" _) _ _ λ c0. refl)
        (if->>= (same_text model_type "linear") _ _ _
          (>>=->>= (value_double entry "c0" _) _ _ λ c0.
            >>=->>= (value_double entry "c1" _) _ _
              λ c1. >>=->>= (value_double entry "c_alloc" _) _ _ λ c_alloc. refl)
          (if->>= (same_text model_type "signature") _ _ _
            (>>=->>= (value_double entry "c_ecdsa" _) _ _ λ c_ecdsa.
              >>=->>= (value_double entry "c_preimage_per_byte" _) _ _ λ c_preimage. refl)
            (if->>= (same_text model_type "multisig") _ _ _
              (>>=->>= (value_double entry "c_ecdsa" _) _ _ λ c_ecdsa.
                >>=->>= (value_double entry "c_preimage_per_byte" _) _ _ λ c_preimage.
                  >>=->>= (value_double entry "c_keyscan" _) _ _
                    λ c_keyscan. >>=->>= (value_double entry "c_setup" _) _ _ λ c_setup. refl)
              refl)))

  pub read_model-described_price :
      (entry : J) (params : List ℕ)
      → (read_model json uninitialised entry >>= priced params) ≡ described_price entry params
  unfolding read_model described_price
  read_model-described_price entry params =
      >>=->>= (value_string entry "model" "constant") _ _
        λ model_type. read_typed-price_typed model_type entry params
