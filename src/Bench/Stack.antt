-- ===== src/Bench/Stack.antt =====
-- `class SimpleStack` of bsv_script_bench/src/bench_stack_ops.cpp. The vector `items_` is the list of
-- its elements from the back, the top of the stack, to the front.
pub mod Laws
pub mod Depth
pub mod Jobs
pub mod Measured
mod Tests
use bsv_miner_op_code_calc.Common.{
  ℕ, zero, suc, ◌-◌, ◌+◌, Option, none, some, ltb, leb, if◌then◌else◌, List, [], ◌∷◌, length,
  get_elem?, ok, err, ◌>>=◌,
}
use bsv_miner_op_code_calc.Bench.Exception.{Exception, runtime_error, Throws, accessed}

-- `std::vector<uint8_t>`.
abbrev pub Bytes : Type 0
Bytes = List ℕ

abbrev pub SimpleStack : Type 0
SimpleStack = List Bytes

-- `items_[i]`, and what is left after `items_.erase(items_.begin() + i)`, counted from the front.
unfoldable pub at : SimpleStack → ℕ → Option Bytes
at items i = if ltb i (length items) then get_elem? items (length items - 1 - i) else none

unfoldable pub erase_from_back : SimpleStack → ℕ → SimpleStack
erase_from_back [] i = []
erase_from_back (x ∷ items) zero = items
erase_from_back (x ∷ items) (suc i) = x ∷ erase_from_back items i

unfoldable pub erase_at : SimpleStack → ℕ → Option SimpleStack
unfolding erase_from_back
erase_at items i =
    if ltb i (length items) then some (erase_from_back items (length items - 1 - i)) else none

unfoldable pub push : Bytes → SimpleStack → SimpleStack
push item items = item ∷ items

unfoldable pub pop : SimpleStack → Throws (Bytes × SimpleStack)
pop [] = err (runtime_error "Stack underflow")
pop (item ∷ items) = ok (item, items)

unfoldable pub top : SimpleStack → Throws Bytes
top [] = err (runtime_error "Stack empty")
top (item ∷ items) = ok item

unfoldable pub dup : SimpleStack → Throws SimpleStack
dup [] = err (runtime_error "Stack empty")
dup (item ∷ items) = ok (item ∷ item ∷ items)

unfoldable pub swap : SimpleStack → Throws SimpleStack
swap (b ∷ a ∷ items) = ok (a ∷ b ∷ items)
swap _ = err (runtime_error "Insufficient items")

unfoldable pub pick : ℕ → SimpleStack → Throws SimpleStack
unfolding at
pick depth items =
    if leb (length items) depth
    then err (runtime_error "Pick out of range")
    else (do item ← accessed (at items (length items - 1 - depth)); ok (item ∷ items))

unfoldable pub roll : ℕ → SimpleStack → Throws SimpleStack
unfolding at erase_at
roll depth items = if leb (length items) depth then err (runtime_error "Roll out of range") else (do
  item ← accessed (at items (length items - 1 - depth))
  items ← accessed (erase_at items (length items - 1 - depth))
  ok (item ∷ items))

-- a b c -> b c a
unfoldable pub rot : SimpleStack → Throws SimpleStack
rot (c ∷ b ∷ a ∷ items) = ok (a ∷ c ∷ b ∷ items)
rot _ = err (runtime_error "Insufficient items")

unfoldable pub size : SimpleStack → ℕ
size items = length items

unfoldable pub clear : SimpleStack → SimpleStack
clear items = []
