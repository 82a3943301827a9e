-- ===== src/Bench/Exception.antt =====
-- What the benchmarked operations throw, and reads that no vector allows.
use bsv_miner_op_code_calc.Common.{String, Option, none, some, Result, ok, err, Fault}

pub data Exception : Type 0 where
  runtime_error : String → Exception
  bad_access : Exception

-- The result of a method, and what is left of it where the message does not matter.
abbrev pub Throws {ℓ} : Type ℓ → Type ℓ
Throws A = Result Exception A

abbrev pub value? {ℓ} : {A : Type ℓ} → Throws A → Option A
value? (ok a) = some a
value? (err e) = none

abbrev pub accessed {ℓ} : {A : Type ℓ} → Option A → Throws A
accessed none = err Exception.bad_access
accessed (some a) = ok a

-- A run that the language leaves undefined is such an access too.
abbrev pub unfaulted {ℓ} : {A : Type ℓ} → Result Fault A → Throws A
unfaulted (ok a) = ok a
unfaulted (err fault) = err Exception.bad_access
