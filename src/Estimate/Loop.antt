-- ===== src/Estimate/Loop.antt =====
-- The loop of `CostEstimator::Impl::estimate` over the combined script, `estimate` itself and the
-- public functions `CostEstimator::estimate` and `CostEstimator::estimate_with_limits`.
use bsv_miner_op_code_calc.Common.{
  ℕ, String, zero, suc, max, ◌==◌, ltb, leb, if◌then◌else◌, ◌&&◌, [], ◌∷◌, ◌++◌, length, get_elem?,
  add64, u32, Result, ok, err, ◌>>=◌, checked, Fault,
}
use bsv_miner_op_code_calc.Double.{Double, cast64}
use bsv_miner_op_code_calc.OpCode.{of_byte}
use bsv_miner_op_code_calc.Tx.{Script, Transaction}
use bsv_miner_op_code_calc.Model.{Impl}
use bsv_miner_op_code_calc.Estimate.Machine.{
  CostEstimate, EstimatorLimits, default_limits, Machine, empty_estimate, warn, add_total,
  add_dispatch, count_opcode,
}
use bsv_miner_op_code_calc.Estimate.Execute.{execute}

-- How a round of the loop ends: at the next program counter, or by `break`.
pub data Flow : Type 0 where
  next : ℕ → Machine → Flow
  stop : Machine → Flow

-- `stack_sizes.push_back(push_size); current_stack_bytes += push_size;`
unfoldable pub push : ℕ → Machine → Machine
push push_size m = record m {
  stack_sizes = push_size ∷ m.stack_sizes;
  current_stack_bytes = add64 m.current_stack_bytes push_size;
}

-- `static_cast<uint32_t>(stack_sizes.size())` is compared.
unfoldable pub track_peak : Machine → Machine
track_peak m = record m {
  result = record (m.result) {
    peak_stack_bytes = max m.result.peak_stack_bytes m.current_stack_bytes;
    peak_stack_items = max m.result.peak_stack_items (u32 (length m.stack_sizes));
  };
}

abbrev pub warn_and_stop : String → Machine → Flow
warn_and_stop w m = stop (record m { result = warn w m.result })

-- The end of a round: the limits on the stack.
unfoldable pub check_limits : EstimatorLimits → ℕ → Machine → Flow
check_limits limits pc m =
    if ltb limits.max_stack_item_size m.current_stack_bytes
    then warn_and_stop "Stack byte limit exceeded" m
    else if ltb limits.max_stack_items (length m.stack_sizes)
    then warn_and_stop "Stack item count limit exceeded" m
    else next pc m

-- The end of a round whose next program counter is `pc`.
unfoldable pub end_round : EstimatorLimits → ℕ → Machine → Flow
unfolding track_peak check_limits
end_round limits pc m = check_limits limits pc (track_peak m)

module _ {ℓ} {W : Type ℓ} ⦃d : Double W⦄ (impl : Impl W) where
  -- `result.opcode_count++` and the dispatch overhead.
  unfoldable pub dispatch : Machine → Machine
  dispatch m =
      let cycles = cast64 impl.c_dispatch in add_total cycles (add_dispatch cycles (count_opcode m))

  -- The parsing cost, before the loop.
  unfoldable pub start : Script → Machine
  start combined =
      let parsing = cast64 (d.mul impl.c_parse_per_byte (d.of_u64 (length combined))) in
      record {
        result = record empty_estimate {
          breakdown = record (empty_estimate.breakdown) { parsing = parsing };
          total_cycles = add64 0 parsing;
        };
        stack_sizes = [];
        current_stack_bytes = 0;
      }

module _ {ℓ} {W : Type ℓ} ⦃d : Double W⦄ (impl : Impl W) (tx : Transaction) (input_index : ℕ)
    (limits : EstimatorLimits) where
  -- The rest of a round that read `op_byte`, with the program counter behind it.
  unfoldable pub handle : Script → ℕ → ℕ → Machine → Result Fault Flow
  unfolding push end_round
  handle combined op_byte pc m =
      if ltb 0 op_byte && ltb op_byte 0x4c
      then ok (end_round limits (add64 pc op_byte) (push op_byte m))
      else if op_byte == 0x4c && ltb pc (length combined)
      then (do
        push_size ← checked (get_elem? combined pc)
        ok (end_round limits (add64 (add64 pc 1) push_size) (push push_size m)))
      else (do m ← execute impl tx input_index (of_byte op_byte) m; ok (end_round limits pc m))

  -- One round, at a program counter inside the script.
  unfoldable pub round : Script → ℕ → Machine → Result Fault Flow
  unfolding dispatch handle
  round combined pc m =
      if leb limits.max_opcode_count m.result.opcode_count
      then ok (warn_and_stop "Opcode count limit exceeded" m)
      else (do
        op_byte ← checked (get_elem? combined pc)
        handle combined op_byte (add64 pc 1) (dispatch impl m))

  -- `while (pc < combined.size())`, with fuel.
  unfoldable pub loop : ℕ → Script → ℕ → Machine → Result Fault Machine
  loop zero combined pc m = if ltb pc (length combined) then err Fault.out_of_fuel else ok m
  loop (suc fuel) combined pc m =
      if ltb pc (length combined)
      then (do
        flow ← round combined pc m
        elim flow [ next pc' m' ↦ loop fuel combined pc' m' | stop m' ↦ ok m' ])
      else ok m

  -- Each round moves the program counter on, so one round for each byte is enough.
  unfoldable pub estimate_with_limits : Script → Script → Result Fault CostEstimate
  unfolding start
  estimate_with_limits unlocking_script locking_script =
      let combined = unlocking_script ++ locking_script in
      if ltb limits.max_script_size (length combined)
      then ok (warn "Script exceeds size limit" empty_estimate)
      else (do m ← loop (length combined) combined 0 (start impl combined); ok m.result)

module _ {ℓ} {W : Type ℓ} ⦃d : Double W⦄ (impl : Impl W) where
  unfoldable pub estimate : Script → Script → Transaction → ℕ → Result Fault CostEstimate
  estimate unlocking_script locking_script tx input_index =
      estimate_with_limits impl tx input_index default_limits unlocking_script locking_script
