-- ===== src/Model/Load/Tests.antt =====
-- The theorems at a short cost model, as the parser gives it.
use bsv_miner_op_code_calc.Common.{
  ℕ, String, Bool, true, false, ◌≡◌, refl, Option, none, some, List, [], ◌∷◌, if◌then◌else◌, Result,
  ok, err, arith,
}
use bsv_miner_op_code_calc.Double.Fixed.{Decimal, decimal_double}
use bsv_miner_op_code_calc.OpCode.{op_pick, to_byte}
use bsv_miner_op_code_calc.Model.{CostType, Impl, calculate_opcode_cost}
use bsv_miner_op_code_calc.Model.Load.{
  LoadError, Json, same_text, opcode_named, read_constant, read_linear, read_typed, read_model,
  load_opcodes, load_constants, load_costs, load_text, initial_impl, load_model,
}
use bsv_miner_op_code_calc.Model.Load.Entries.{Loaded, load_model-Loaded, load_model-few}

mutual
  pub data Value : Type 0 where
    text : String → Value
    number : Decimal → Value
    object : Fields → Value

  pub data Fields : Type 0 where
    end : Fields
    field : String → Value → Fields → Fields

abbrev find : Fields → String → Option Value
find end key = none
find (field name value rest) key = if same_text name key then some value else find rest key

abbrev fields : Value → Fields
fields (object fs) = fs
fields _ = end

abbrev listed : Fields → List (String × Value)
listed end = []
listed (field name value rest) = (name, value) ∷ listed rest

abbrev as_text : Option Value → String → Result String String
as_text none default = ok default
as_text (some (text s)) default = ok s
as_text (some _) default = err "type must be string"

abbrev as_number : Option Value → Decimal → Result String Decimal
as_number none default = ok default
as_number (some (number n)) default = ok n
as_number (some _) default = err "type must be number"

abbrev as_member : Option Value → Result String Value
as_member none = err "no such member"
as_member (some value) = ok value

abbrev present : Option Value → Bool
present none = false
present (some _) = true

abbrev lit : ℕ → ℕ → Value
lit m k = number (decimal_double.lit m k)

abbrev short_model : Value
short_model =
    let dup = object (field "c0" (lit 130 0) end) in
    let cat =
      object (field "model" (text "linear") (field "c0" (lit 150 0) (field "c1" (lit 15 2) end))) in
    let pick = object (field "c0" (lit 136 0) end) in
    object (
      field "profile_id" (text "short") (
        field "opcodes"
          (object (field "OP_DUP" dup (field "OP_PICK" pick (field "OP_CAT" cat end)))) end))

abbrev short_json : Json Decimal Value
short_json = record {
  parse = λ _. ok short_model;
  contains = λ v key. present (find (fields v) key);
  member = λ v key. as_member (find (fields v) key);
  value_string = λ v key default. as_text (find (fields v) key) default;
  value_double = λ v key default. as_number (find (fields v) key) default;
  items = λ v. listed (fields v);
}

-- Every variable starts with no type.
abbrev unset : String → Option CostType
unset name = none

abbrev files : String → Option String
files _ = some "{}"

abbrev loaded_or : Result LoadError (Impl Decimal) → Impl Decimal
loaded_or (ok impl) = impl
loaded_or (err _) = initial_impl short_json unset

-- What the constructor makes of it.
unfoldable short_impl : Impl Decimal
short_impl = loaded_or (load_model short_json unset files "short.json")

short-loads : load_model short_json unset files "short.json" ≡ ok short_impl
unfolding short_impl load_model load_text load_constants load_costs load_opcodes read_model
    read_typed read_constant read_linear opcode_named
short-loads = refl

load_model-Loaded_example : Loaded short_json unset files "short.json" short_impl
load_model-Loaded_example = load_model-Loaded short_json unset files "short.json" short-loads

load_model-few_example : calculate_opcode_cost short_impl op_pick (7 ∷ []) ≡ 100
unfolding to_byte
load_model-few_example =
    load_model-few short_json unset files "short.json" op_pick (7 ∷ []) short-loads (omega arith)
