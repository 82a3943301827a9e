-- ===== src/Common/Text.antt =====
-- Strings: how they are joined, and how a number is printed.
use Prim.Native.Nat.{ℕ, zero, suc, ◌/◌, ◌%◌}
use Prim.Native.String
use Prim.Native.String.{String}
use mathlib.Core.List.{[], ◌∷◌}
use bsv_miner_op_code_calc.Common.Tests.{ltb, if◌then◌else◌}
use bsv_miner_op_code_calc.Common.Lists.{get_or}

infixl 50 ◌<>◌
abbrev pub ◌<>◌ : String → String → String
s <> t = String.◌++◌ s t

-- `std::to_string`.
abbrev pub digit : ℕ → String
digit d = get_or ("0" ∷ "1" ∷ "2" ∷ "3" ∷ "4" ∷ "5" ∷ "6" ∷ "7" ∷ "8" ∷ "9" ∷ []) d ""

abbrev pub decimals : ℕ → ℕ → String
decimals zero n = ""
decimals (suc fuel) n =
    let rest = decimals fuel (n / 10) in if ltb n 10 then digit n else rest <> digit (n % 10)

abbrev pub to_string : ℕ → String
to_string n = decimals 20 n
