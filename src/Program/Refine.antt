-- ===== src/Program/Refine.antt =====
-- The loop of `CostEstimator::Impl::estimate` runs the decoded script.
use bsv_miner_op_code_calc.Common.{
  ℕ, zero, suc, ◌+◌, ◌≤◌, ◌<◌, ◌^◌, ◌≡◌, inl, inr, ◌∙◌, ap, true, false, ltb, ltb→lt, leb, ◌==◌,
  ◌&&◌, Bool-cases, none, some, List, ◌∷◌, ◌++◌, length, get_elem?, get_elem?-lt, drop, drop-drop,
  drop-length_le, All, All-get_elem?, add64, Result, Fault, ok, ◌>>=◌, if◌then◌else◌, arith,
}
use bsv_miner_op_code_calc.Double.{Double}
use bsv_miner_op_code_calc.OpCode.{of_byte}
use bsv_miner_op_code_calc.Tx.{Script, Transaction}
use bsv_miner_op_code_calc.Model.{Impl}
use bsv_miner_op_code_calc.Estimate.Machine.{EstimatorLimits, Machine}
use bsv_miner_op_code_calc.Estimate.Loop.{
  next, stop, end_round, track_peak, dispatch, handle, round, loop, start, estimate_with_limits,
  warn_and_stop,
}
use bsv_miner_op_code_calc.Program.{Instr, push_data, exec, decode}
use bsv_miner_op_code_calc.Program.Run.{perform, step, run, specified, over_limit}
use bsv_miner_op_code_calc.Program.Effects.{execute-perform}
use bsv_miner_op_code_calc.Program.Decode.{decode-drop, decode_direct, decode_sized, decode_opcode}

module _ {ℓ} {W : Type ℓ} ⦃d : Double W⦄ (impl : Impl W) (tx : Transaction) (input_index : ℕ)
    (limits : EstimatorLimits) (combined : Script) where
  -- The instruction at a place in the script, where the next one stands, and what handling it does.
  record IsNext (pc b : ℕ) : Type ℓ where
    instr : Instr
    after : ℕ
    later : pc < after
    decoded : decode 0 (drop pc combined) ≡ instr ∷ decode 0 (drop after combined)
    handled :
        (m : Machine)
        → handle impl tx input_index limits combined b (add64 pc 1) m
          ≡ ok (end_round limits after (perform impl tx instr m))

  module _ (small : length combined < 2 ^ 63) (pc b : ℕ) (inside : pc < length combined)
      (byte : b < 256) (here : drop pc combined ≡ b ∷ drop (suc pc) combined) where
    direct-IsNext : (ltb 0 b && ltb b 0x4c) ≡ true → IsNext pc b
    unfolding handle perform
    direct-IsNext test = record {
      instr = push_data b;
      after = pc + 1 + b;
      later = omega arith;
      decoded = rw here (
          decode_direct b (drop (suc pc) combined) test
          ∙ ap (λ is. push_data b ∷ is)
              (decode-drop b (drop (suc pc) combined)
                ∙ ap (decode 0) (drop-drop (suc pc) b (pc + 1 + b) combined (omega arith))));
      handled = λ m. let wrap : add64 (add64 pc 1) b ≡ pc + 1 + b = omega arith in rw (test, wrap);
    }

    opcode-IsNext :
        (ltb 0 b && ltb b 0x4c) ≡ false
        → (b == 0x4c && ltb (add64 pc 1) (length combined)) ≡ false
        → IsNext pc b
    unfolding handle
    opcode-IsNext test cut = record {
      instr = exec (of_byte b);
      after = suc pc;
      later = omega arith;
      decoded = rw here (
          decode_opcode b (drop (suc pc) combined) test (elim (Bool-cases (b == 0x4c)) [
            | inl e ↦ inr (drop-length_le combined (suc pc) (ground arith))
            | inr e ↦ inl (ground arith)
          ]));
      handled = λ m.
          let wrap : add64 pc 1 ≡ suc pc = omega arith in
          rw (test, cut, execute-perform impl tx input_index (of_byte b) (m), wrap);
    }

    sized-IsNext :
        All (λ n. n < 256) combined
        → (ltb 0 b && ltb b 0x4c) ≡ false
        → (b == 0x4c && ltb (add64 pc 1) (length combined)) ≡ true
        → IsNext pc b
    unfolding handle perform
    sized-IsNext bytes test more =
        let (n, read, next_byte) = get_elem?-lt combined (suc pc) (ground arith) in
        let fits : n < 256 = All-get_elem? (λ n. n < 256) combined (suc pc) bytes read in
        let is_sized : b ≡ 0x4c = ground arith in
        let wrap1 : add64 pc 1 ≡ suc pc = omega arith in
        let wrap2 : add64 (add64 (suc pc) 1) n ≡ pc + 2 + n = omega arith in
        record {
          instr = push_data n;
          after = pc + 2 + n;
          later = omega arith;
          decoded =
              rw (here, next_byte)
                (ap (λ (x : ℕ). decode 0 (x ∷ n ∷ drop (suc (suc pc)) combined)) is_sized
                  ∙ decode_sized n (drop (suc (suc pc)) combined)
                  ∙ ap (λ is. push_data n ∷ is)
                      (decode-drop n (drop (suc (suc pc)) combined)
                        ∙ ap (decode 0)
                            (drop-drop (suc (suc pc)) n (pc + 2 + n) combined (omega arith))));
          handled = λ m. rw (test, more, wrap1, read, wrap2);
        }

    IsNext-instr : All (λ n. n < 256) combined → IsNext pc b
    IsNext-instr bytes = elim (Bool-cases (ltb 0 b && ltb b 0x4c)) [
      | inl direct ↦ direct-IsNext direct
      | inr other ↦ elim (Bool-cases (b == 0x4c && ltb (add64 pc 1) (length combined))) [
        | inl more ↦ sized-IsNext bytes other more
        | inr cut ↦ opcode-IsNext other cut
      ]
    ]

  end_round_lem :
      (pc : ℕ) (m : Machine)
      → end_round limits pc m ≡ elim (over_limit limits (track_peak m)) [
        | none ↦ next pc (track_peak m)
        | some w ↦ warn_and_stop w (track_peak m)
      ]
  unfolding end_round over_limit
  end_round_lem pc m = ground arith

  round_lem :
      (pc b : ℕ) (n : IsNext pc b) (m : Machine)
      → get_elem? combined pc ≡ some b
      → round impl tx input_index limits combined pc m ≡ (
          if leb limits.max_opcode_count m.result.opcode_count
          then ok (warn_and_stop "Opcode count limit exceeded" m)
          else ok (end_round limits n.after (perform impl tx n.instr (dispatch impl m))))
  unfolding round
  round_lem pc b n m read = rw (read, n.handled (dispatch impl m))

  -- What follows a round, if the rest of the loop runs the rest of the script.
  flow-run :
      (rest : ℕ → Machine → Result Fault Machine) (pc : ℕ) (i : Instr) (is : List Instr)
      (m : Machine)
      → ((m' : Machine) → rest pc m' ≡ ok (run impl tx limits is m'))
      → ((if leb limits.max_opcode_count m.result.opcode_count
            then ok (warn_and_stop "Opcode count limit exceeded" m)
            else ok (end_round limits pc (perform impl tx i (dispatch impl m))))
          >>= λ flow. elim flow [ next pc' m' ↦ rest pc' m' | stop m' ↦ ok m' ])
        ≡ ok (run impl tx limits (i ∷ is) m)
  unfolding run step
  flow-run rest pc i is m ih =
      ground (arith, end_round_lem pc (perform impl tx i (dispatch impl m)), ih (step impl tx i m))

  -- With a round for each byte that is left, the loop ends, reads only inside the script, and has run
  -- the instructions from its program counter on.
  loop-run :
      length combined < 2 ^ 63
      → All (λ n. n < 256) combined
      → (fuel pc : ℕ) (m : Machine) → length combined ≤ pc + fuel
      → loop impl tx input_index limits fuel combined pc m
        ≡ ok (run impl tx limits (decode 0 (drop pc combined)) m)
  unfolding loop run decode
  loop-run small bytes zero pc m enough =
      rw (drop-length_le combined pc (omega arith)) (ground arith)
  loop-run small bytes (suc fuel) pc m enough = elim (Bool-cases (ltb pc (length combined))) [
    | inr done ↦ rw (drop-length_le combined pc (ground arith), done)
    | inl inside ↦
        let (b, read, here) = get_elem?-lt combined pc (ltb→lt _ _ inside) in
        let byte = All-get_elem? (λ n. n < 256) combined pc bytes read in
        let n = IsNext-instr small pc b (ltb→lt _ _ inside) byte here bytes in
        let later = n.later in
        let ih = λ (m' : Machine). loop-run small bytes fuel n.after m' (omega arith) in
        rw (inside, n.decoded, round_lem pc b n m read)
          (flow-run (λ pc' m'. loop impl tx input_index limits fuel combined pc' m') n.after n.instr
            (decode 0 (drop n.after combined)) m ih)
  ]

-- On scripts of bytes, shorter together than half the address space, `estimate` ends, reads only
-- inside the script, and returns what the specification says, whatever `input_index` is.
pub estimate-specified {ℓ} :
    {W : Type ℓ} ⦃d : Double W⦄ (impl : Impl W) (tx : Transaction) (input_index : ℕ)
    (limits : EstimatorLimits) (unlocking_script locking_script : Script)
    → length (unlocking_script ++ locking_script) < 2 ^ 63
    → All (λ n. n < 256) (unlocking_script ++ locking_script)
    → estimate_with_limits impl tx input_index limits unlocking_script locking_script
      ≡ ok (specified impl tx limits unlocking_script locking_script)
unfolding estimate_with_limits specified
estimate-specified impl tx input_index limits u l small bytes =
    let combined = u ++ l in
    elim (Bool-cases (ltb limits.max_script_size (length combined))) [
      | inl large ↦ rw large
      | inr fits ↦ rw (
        fits,
        loop-run impl tx input_index limits combined small bytes (length combined) 0
            (start impl combined) (omega arith),
      )
    ]
