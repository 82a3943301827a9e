-- ===== src/Program.antt =====
-- What an estimate means, without a program counter: a script is a list of instructions, and each
-- instruction has an effect on the stack of sizes and a price. This is the specification that
-- `CostEstimator::Impl::estimate` of libbsv_cost_estimator/src/cost_estimator.cpp is proved against.
pub mod Run
pub mod Effects
mod Tests
pub mod Outcome
pub mod Peaks
pub mod Limits
pub mod Breakdown
pub mod Totals
pub mod Ledger
pub mod Refine
pub mod Decode
use bsv_miner_op_code_calc.Common.{
  ℕ, zero, suc, ◌+◌, ◌<◌, ◌^◌, ltb, ◌==◌, if◌then◌else◌, ◌&&◌, List, [], ◌∷◌, add64, sub64,
}
use bsv_miner_op_code_calc.Double.{Double, cast64}
use bsv_miner_op_code_calc.OpCode.{
  OpCode, op_dup, op_swap, op_cat, op_sha256, op_hash256, op_checksig, of_byte,
}
use bsv_miner_op_code_calc.Tx.{Script}
use bsv_miner_op_code_calc.Model.{Impl, calculate_opcode_cost}

pub data Instr : Type 0 where
  push_data : ℕ → Instr
  exec : OpCode → Instr

-- The size of a push is a word.
abbrev pub IsSized : Instr → Type 0
IsSized (push_data n) = n < 2 ^ 64
IsSized (exec op) = Unit

-- The instructions of a script of which the first bytes are data to pass over. A push whose data is
-- cut off by the end of the script counts whole; OP_PUSHDATA1 as the last byte is no push.
unfoldable pub decode : ℕ → Script → List Instr
decode skip [] = []
decode (suc skip) (_ ∷ bytes) = decode skip bytes
decode zero (b ∷ []) = (if ltb 0 b && ltb b 0x4c then push_data b else exec (of_byte b)) ∷ []
decode zero (b ∷ n ∷ bytes) =
    let data_push = push_data b ∷ decode b (n ∷ bytes) in
    let sized_push = push_data n ∷ decode n bytes in
    let opcode = exec (of_byte b) ∷ decode 0 (n ∷ bytes) in
    if ltb 0 b && ltb b 0x4c then data_push else if b == 0x4c then sized_push else opcode

-- The opcodes that the estimator knows the effect of.
pub data Kind : Type 0 where
  duplicate exchange concat hash check_signature unknown : Kind

unfoldable pub kind : OpCode → Kind
kind op_dup = Kind.duplicate
kind op_swap = Kind.exchange
kind op_cat = Kind.concat
kind op_sha256 = Kind.hash
kind op_hash256 = Kind.hash
kind op_checksig = Kind.check_signature
kind _ = Kind.unknown

-- The stack of sizes, its top first, after an opcode. Too short a stack stays as it is.
unfoldable pub stack_after : Kind → List ℕ → List ℕ
stack_after Kind.duplicate (s ∷ rest) = s ∷ s ∷ rest
stack_after Kind.exchange (a ∷ b ∷ rest) = b ∷ a ∷ rest
stack_after Kind.concat (b ∷ a ∷ rest) = add64 a b ∷ rest
stack_after Kind.hash (s ∷ rest) = 32 ∷ rest
stack_after Kind.check_signature (_ ∷ _ ∷ rest) = 1 ∷ rest
stack_after _ stack = stack

-- The sizes that an opcode is priced by.
unfoldable pub priced_by : Kind → List ℕ → List ℕ
priced_by Kind.duplicate (s ∷ _) = s ∷ []
priced_by Kind.concat (b ∷ a ∷ _) = add64 a b ∷ []
priced_by Kind.hash (s ∷ _) = s ∷ []
priced_by _ _ = []

-- The byte count that goes with the stack.
unfoldable pub bytes_after : Kind → List ℕ → ℕ → ℕ
bytes_after Kind.duplicate (s ∷ _) bytes = add64 bytes s
bytes_after Kind.concat (b ∷ a ∷ _) bytes = add64 (sub64 (sub64 bytes a) b) (add64 a b)
bytes_after Kind.hash (s ∷ _) bytes = add64 (sub64 bytes s) 32
bytes_after _ _ bytes = bytes

-- What an opcode that is not known is charged on top of its price.
unfoldable pub surcharge : Kind → ℕ
surcharge Kind.unknown = 100
surcharge _ = 0

unfoldable pub signatures_of : Kind → ℕ
signatures_of Kind.check_signature = 1
signatures_of _ = 0

unfoldable pub stack_step : Instr → List ℕ → List ℕ
unfolding kind stack_after
stack_step (push_data n) stack = n ∷ stack
stack_step (exec op) stack = stack_after (kind op) stack

module _ {ℓ} {W : Type ℓ} ⦃d : Double W⦄ (impl : Impl W) where
  -- The cycles that an instruction adds to the total, its dispatch included.
  unfoldable pub price : Instr → List ℕ → ℕ
  price (push_data n) stack = cast64 impl.c_dispatch
  price (exec op) stack =
      cast64 impl.c_dispatch
      + surcharge (kind op)
      + calculate_opcode_cost impl op (priced_by (kind op) stack)

  unfoldable pub total_price : List Instr → List ℕ → ℕ
  total_price [] stack = 0
  total_price (i ∷ is) stack = price i stack + total_price is (stack_step i stack)

unfoldable pub final_stack : List Instr → List ℕ → List ℕ
final_stack [] stack = stack
final_stack (i ∷ is) stack = final_stack is (stack_step i stack)

unfoldable pub signature_ops : List Instr → ℕ
signature_ops [] = 0
signature_ops (push_data _ ∷ is) = signature_ops is
signature_ops (exec op ∷ is) = signatures_of (kind op) + signature_ops is
