-- ===== src/Example/Tests.antt =====
-- The example at an empty cost model.
use bsv_miner_op_code_calc.Common.{arith, String, false, Option, none, some, [], ok, err}
use bsv_miner_op_code_calc.Double.Fixed.{Decimal, decimal_double}
use bsv_miner_op_code_calc.Model.{CostType}
use bsv_miner_op_code_calc.Model.Load.{Json, load_model}
use bsv_miner_op_code_calc.Example.{model_path, example_main}
use bsv_miner_op_code_calc.Example.Ending.{Ends, example_main-Ends}

-- A parser that finds no member.
abbrev empty_json : Json Decimal String
empty_json = record {
  parse = λ text. ok text;
  contains = λ v key. false;
  member = λ v key. err "no such member";
  value_string = λ v key default. ok default;
  value_double = λ v key default. ok default;
  items = λ v. [];
}

-- Every variable starts with no type.
abbrev unset : String → Option CostType
unset name = none

abbrev files : String → Option String
files _ = some "{}"

abbrev printed : Decimal → String
printed _ = "0.05"

example_main-Ends_example :
    Ends printed
      (load_model empty_json unset files (model_path none))
      (example_main printed empty_json unset files none)
example_main-Ends_example = example_main-Ends printed empty_json unset files none λ w. omega arith
