-- ===== src/Program/Run.antt =====
-- The run of a list of instructions under limits: every variable of the loop of
-- `CostEstimator::Impl::estimate`, but the program counter, as a function of the instructions.
use bsv_miner_op_code_calc.Common.{
  ℕ, ◌+◌, String, Option, none, some, ltb, leb, if◌then◌else◌, List, [], ◌∷◌, ◌++◌, length, add64,
  add32, u64,
}
use bsv_miner_op_code_calc.Double.{Double}
use bsv_miner_op_code_calc.Tx.{Script, Transaction, serialize_size}
use bsv_miner_op_code_calc.Model.{Impl, calculate_opcode_cost}
use bsv_miner_op_code_calc.Estimate.Machine.{
  Breakdown, CostEstimate, EstimatorLimits, Machine, warn, empty_estimate,
}
use bsv_miner_op_code_calc.Estimate.Loop.{push, track_peak, dispatch, start}
use bsv_miner_op_code_calc.Program.{
  Instr, push_data, exec, Kind, kind, decode, stack_after, priced_by, bytes_after, surcharge,
}

-- The category of the breakdown that a kind of opcode is charged to.
unfoldable pub charge : Kind → ℕ → Breakdown → Breakdown
charge Kind.duplicate c b = record b { stack_ops = add64 b.stack_ops c }
charge Kind.exchange c b = record b { stack_ops = add64 b.stack_ops c }
charge Kind.concat c b = record b { byte_ops = add64 b.byte_ops c }
charge Kind.hash c b = record b { hashing = add64 b.hashing c }
charge Kind.check_signature c b = record b { signatures = add64 b.signatures c }
charge Kind.unknown c b = b

unfoldable pub count_signatures : Kind → ℕ → ℕ
count_signatures Kind.check_signature n = add32 n 1
count_signatures _ n = n

-- The limit on the stack that is passed, if one is.
unfoldable pub over_limit : EstimatorLimits → Machine → Option String
over_limit limits m =
    if ltb limits.max_stack_item_size m.current_stack_bytes
    then some "Stack byte limit exceeded"
    else if ltb limits.max_stack_items (length m.stack_sizes)
    then some "Stack item count limit exceeded"
    else none

abbrev pub warned : String → Machine → Machine
warned w m = record m { result = warn w m.result }

-- In the breakdown a signature check is priced by the size of its preimage.
unfoldable pub breakdown_params : Transaction → Kind → List ℕ → List ℕ
breakdown_params tx Kind.check_signature stack = u64 (serialize_size tx + 4) ∷ []
breakdown_params tx k stack = priced_by k stack

module _ {ℓ} {W : Type ℓ} ⦃d : Double W⦄ (impl : Impl W) (tx : Transaction) where
  unfoldable pub perform : Instr → Machine → Machine
  unfolding push
  perform (push_data n) m = push n m
  perform (exec op) m =
      let k = kind op in
      let stack = m.stack_sizes in
      record {
        result = record (m.result) {
          total_cycles =
              add64 m.result.total_cycles
                (surcharge k + calculate_opcode_cost impl op (priced_by k stack));
          breakdown =
              charge k (calculate_opcode_cost impl op (breakdown_params tx k stack))
                m.result.breakdown;
          signature_count = count_signatures k m.result.signature_count;
        };
        stack_sizes = stack_after k stack;
        current_stack_bytes = bytes_after k stack m.current_stack_bytes;
      }

  unfoldable pub step : Instr → Machine → Machine
  unfolding dispatch perform track_peak
  step i m = track_peak (perform i (dispatch impl m))

module _ {ℓ} {W : Type ℓ} ⦃d : Double W⦄ (impl : Impl W) (tx : Transaction)
    (limits : EstimatorLimits) where
  unfoldable pub run : List Instr → Machine → Machine
  run [] m = m
  run (i ∷ is) m =
      let after = step impl tx i m in
      let rest = run is after in
      if leb limits.max_opcode_count m.result.opcode_count
      then warned "Opcode count limit exceeded" m
      else elim (over_limit limits after) [ none ↦ rest | some w ↦ warned w after ]

  -- The instructions that the limits let through.
  unfoldable pub executed : List Instr → Machine → List Instr
  executed [] m = []
  executed (i ∷ is) m =
      let after = step impl tx i m in
      let rest = executed is after in
      if leb limits.max_opcode_count m.result.opcode_count
      then []
      else elim (over_limit limits after) [ none ↦ i ∷ rest | some w ↦ i ∷ [] ]

  -- The estimate of two scripts that are run one after the other.
  unfoldable pub specified : Script → Script → CostEstimate
  unfolding run
  specified unlocking_script locking_script =
      let combined = unlocking_script ++ locking_script in
      if ltb limits.max_script_size (length combined)
      then warn "Script exceeds size limit" empty_estimate
      else (run (decode 0 combined) (start impl combined)).result
