-- ===== src/Common/Faults.antt =====
-- Runs that the language leaves undefined, as values: a read outside a vector, and a loop that used
-- up the rounds it was given.
use mathlib.Core.Option.{Option, none, some}
use mathlib.Core.Path.{◌≡◌, refl}
use mathlib.Core.Bool.{Bool, true, false}
use bsv_miner_op_code_calc.Common.Tests.{if◌then◌else◌}

pub data Fault : Type 0 where
  out_of_bounds out_of_fuel : Fault

-- What a call ends with: the exception that it throws, or the value that it returns.
pub data Result {ℓe ℓa} (Cause : Type ℓe) (Value : Type ℓa) : Type (ℓe ⊔ ℓa) where
  err : Cause → Result Cause Value
  ok : Value → Result Cause Value

infixl 5 ◌>>=◌
abbrev pub ◌>>=◌ {ℓe ℓa ℓb} :
    {Cause : Type ℓe} {Value : Type ℓa} {Next : Type ℓb}
    → Result Cause Value
    → (Value → Result Cause Next)
    → Result Cause Next
err cause >>= _ = err cause
ok value >>= then_do = then_do value

-- The element that a `[]` on a vector reads.
abbrev pub checked {ℓ} : {A : Type ℓ} → Option A → Result Fault A
checked none = err Fault.out_of_bounds
checked (some a) = ok a

-- The run ends without a fault, in a value with the property.
abbrev pub Returns {ℓ κ} : {E : Type ℓ} {A : Type κ} → Result E A → (A → Type 0) → Type 0
Returns (ok a) P = P a
Returns (err e) P = ⊥

-- Where a whole chain returns, its first call did, and the rest returned from its value.
pub >>=-eq-ok {ℓe ℓa ℓb} :
    {Cause : Type ℓe} {Value : Type ℓa} {Next : Type ℓb} (first : Result Cause Value)
    (then_do : Value → Result Cause Next) {end : Next}
    → (first >>= then_do) ≡ ok end
    → (value : Value) × (first ≡ ok value) × (then_do value ≡ ok end)
>>=-eq-ok (err cause) then_do returned = cc
>>=-eq-ok (ok value) then_do returned = (value, refl, returned)

-- What follows a chain follows its last call, and what follows a branch follows both sides.
pub >>=->>= {ℓe ℓa ℓb ℓc} :
    {Cause : Type ℓe} {Value : Type ℓa} {Next : Type ℓb} {Last : Type ℓc}
    (first : Result Cause Value) (then_do : Value → Result Cause Next)
    (finish : Next → Result Cause Last) {whole : Value → Result Cause Last}
    → ((value : Value) → (then_do value >>= finish) ≡ whole value)
    → ((first >>= then_do) >>= finish) ≡ (first >>= whole)
>>=->>= (err cause) then_do finish each = refl
>>=->>= (ok value) then_do finish each = each value

pub if->>= {ℓe ℓa ℓb} :
    {Cause : Type ℓe} {Value : Type ℓa} {Next : Type ℓb} (test : Bool)
    (left right : Result Cause Value) (finish : Value → Result Cause Next)
    {left' right' : Result Cause Next}
    → (left >>= finish) ≡ left'
    → (right >>= finish) ≡ right'
    → ((if test then left else right) >>= finish) ≡ (if test then left' else right')
if->>= true left right finish on_yes on_no = on_yes
if->>= false left right finish on_yes on_no = on_no
