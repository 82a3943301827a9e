-- ===== src/Model/Load.antt =====
-- `CostEstimator::Impl::load_model` and the constructor of libbsv_cost_estimator/src/cost_estimator.cpp.
-- The files and the JSON parser are parameters: what the code calls of them is the record `Json`, and
-- an error of the parser is an exception of its own.
pub mod Prices
pub mod Entries
mod Tests
use Prim.Native.Nat.{Ordering}
use Prim.Native.String
use bsv_miner_op_code_calc.Common.{
  String, ℕ, Bool, true, false, Option, none, some, List, [], ◌∷◌, ◌==◌, if◌then◌else◌, Result, ok,
  err, ◌>>=◌,
}
use bsv_miner_op_code_calc.Double.{Double}
use bsv_miner_op_code_calc.OpCode.{
  OpCode, op_dup, op_swap, op_cat, op_split, op_sha256, op_hash256, op_checksig, op_checkmultisig,
  to_byte,
}
use bsv_miner_op_code_calc.Model.{CostType, OpcodeCostModel, CostMap, Impl}

pub data LoadError : Type 0 where
  runtime_error : String → LoadError
  json_error : String → LoadError

-- `value` throws on a value that is no object, and on an entry of another type than the default.
pub record Json {ℓ κ} (W : Type ℓ) (J : Type κ) : Type (ℓ ⊔ κ) where
  pub parse : String → Result String J
  pub contains : J → String → Bool
  pub member : J → String → Result String J
  pub value_string : J → String → String → Result String String
  pub value_double : J → String → W → Result String W
  pub items : J → List (String × J)

abbrev pub of_json {ℓ} : {A : Type ℓ} → Result String A → Result LoadError A
of_json (ok a) = ok a
of_json (err e) = err (json_error e)

-- `==` on std::string.
abbrev pub same_text : String → String → Bool
same_text s t = elim (String.compare s t) [ Ordering.eq ↦ true | _ ↦ false ]

-- The opcodes that the names are mapped to.
unfoldable pub opcode_named : String → Option OpCode
opcode_named name =
    if same_text name "OP_DUP"
    then some op_dup
    else if same_text name "OP_SWAP"
    then some op_swap
    else if same_text name "OP_CAT"
    then some op_cat
    else if same_text name "OP_SPLIT"
    then some op_split
    else if same_text name "OP_SHA256"
    then some op_sha256
    else if same_text name "OP_HASH256"
    then some op_hash256
    else if same_text name "OP_CHECKSIG"
    then some op_checksig
    else if same_text name "OP_CHECKMULTISIG"
    then some op_checkmultisig
    else none

-- `opcode_costs[op] = cost_model`; the keys are compared by their values.
unfoldable pub set_cost {ℓ} : {W : Type ℓ} → OpCode → OpcodeCostModel W → CostMap W → CostMap W
set_cost op cost_model costs q = if to_byte q == to_byte op then some cost_model else costs q

abbrev pub set_named {ℓ} : {W : Type ℓ} → Option OpCode → OpcodeCostModel W → CostMap W → CostMap W
set_named none cost_model costs = costs
set_named (some op) cost_model costs = set_cost op cost_model costs

-- `uninitialised` is what the field `type` of the local variable `cost_model` happens to hold.
module _ {ℓ κ} {W : Type ℓ} {J : Type κ} ⦃d : Double W⦄ (json : Json W J)
    (uninitialised : Option CostType) where
  open json use {parse, contains, member, value_string, value_double, items}
  open d use {lit}

  abbrev pub initial_model : OpcodeCostModel W
  initial_model = record {
    type = uninitialised;
    c0 = lit 0 0;
    c1 = lit 0 0;
    c_ecdsa = lit 0 0;
    c_preimage_per_byte = lit 0 0;
    c_keyscan = lit 0 0;
    c_setup = lit 0 0;
    c_alloc = lit 0 0;
  }

  unfoldable pub read_constant : J → Result String (OpcodeCostModel W)
  read_constant entry = do
    c0 ← value_double entry "c0" (lit 0 0)
    ok (record initial_model { type = some CostType.constant; c0 = c0 })

  unfoldable pub read_linear : J → Result String (OpcodeCostModel W)
  read_linear entry = do
    c0 ← value_double entry "c0" (lit 0 0)
    c1 ← value_double entry "c1" (lit 0 0)
    c_alloc ← value_double entry "c_alloc" (lit 0 0)
    ok (record initial_model { type = some CostType.linear; c0 = c0; c1 = c1; c_alloc = c_alloc })

  unfoldable pub read_signature : J → Result String (OpcodeCostModel W)
  read_signature entry = do
    c_ecdsa ← value_double entry "c_ecdsa" (lit 85_000 0)
    c_preimage_per_byte ← value_double entry "c_preimage_per_byte" (lit 25 1)
    ok (record initial_model {
      type = some CostType.signature;
      c_ecdsa = c_ecdsa;
      c_preimage_per_byte = c_preimage_per_byte;
    })

  unfoldable pub read_multisig : J → Result String (OpcodeCostModel W)
  read_multisig entry = do
    c_ecdsa ← value_double entry "c_ecdsa" (lit 85_000 0)
    c_preimage_per_byte ← value_double entry "c_preimage_per_byte" (lit 25 1)
    c_keyscan ← value_double entry "c_keyscan" (lit 150 0)
    c_setup ← value_double entry "c_setup" (lit 300 0)
    ok (record initial_model {
      type = some CostType.multisig;
      c_ecdsa = c_ecdsa;
      c_preimage_per_byte = c_preimage_per_byte;
      c_keyscan = c_keyscan;
      c_setup = c_setup;
    })

  unfoldable pub read_typed : String → J → Result String (OpcodeCostModel W)
  unfolding read_constant read_linear read_signature read_multisig
  read_typed model_type entry =
      if same_text model_type "constant"
      then read_constant entry
      else if same_text model_type "linear"
      then read_linear entry
      else if same_text model_type "signature"
      then read_signature entry
      else if same_text model_type "multisig"
      then read_multisig entry
      else ok initial_model

  unfoldable pub read_model : J → Result String (OpcodeCostModel W)
  unfolding read_typed
  read_model entry = do
    model_type ← value_string entry "model" "constant"
    read_typed model_type entry

-- Each entry of a file has a variable of its own: `uninitialised` gives what is in that of a name.
module _ {ℓ κ} {W : Type ℓ} {J : Type κ} ⦃d : Double W⦄ (json : Json W J)
    (uninitialised : String → Option CostType) where
  open json use {parse, contains, member, value_string, value_double, items}
  open d use {lit}

  unfoldable pub load_opcodes : List (String × J) → CostMap W → Result String (CostMap W)
  unfolding read_model opcode_named set_cost
  load_opcodes [] costs = ok costs
  load_opcodes ((opcode_name, opcode_data) ∷ rest) costs = do
    cost_model ← read_model json (uninitialised opcode_name) opcode_data
    load_opcodes rest (set_named (opcode_named opcode_name) cost_model costs)

  unfoldable pub load_constants : J → Impl W → Result String (Impl W)
  load_constants model impl =
      if contains model "constants"
      then (do
        constants ← member model "constants"
        c_dispatch ← value_double constants "c_dispatch" (lit 5 0)
        c_parse_per_byte ← value_double constants "c_parse_per_byte" (lit 8 1)
        ok (record impl { c_dispatch = c_dispatch; c_parse_per_byte = c_parse_per_byte }))
      else ok impl

  unfoldable pub load_costs : J → Impl W → Result String (Impl W)
  unfolding load_opcodes
  load_costs model impl =
      if contains model "opcodes"
      then (do
        opcodes ← member model "opcodes"
        costs ← load_opcodes (items opcodes) impl.opcode_costs
        ok (record impl { opcode_costs = costs }))
      else ok impl

  unfoldable pub load_text : String → Impl W → Result String (Impl W)
  unfolding load_constants load_costs
  load_text text impl = do
    model ← parse text
    profile_id ← value_string model "profile_id" "unknown"
    impl ← load_constants model (record impl { profile_id = profile_id })
    load_costs model impl

  -- The members before `load_model`.
  abbrev pub initial_impl : Impl W
  initial_impl = record {
    profile_id = "";
    hardware_info = "";
    c_dispatch = lit 5 0;
    c_parse_per_byte = lit 8 1;
    opcode_costs = λ _. none;
  }

  -- `open_file` gives the text of a file that can be opened.
  unfoldable pub load_model : (String → Option String) → String → Result LoadError (Impl W)
  unfolding load_text
  load_model open_file path = elim (open_file path) [
    | none ↦ err (runtime_error (String.◌++◌ "Failed to open cost model: " path))
    | some text ↦ of_json (load_text text initial_impl)
  ]
