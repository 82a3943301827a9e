-- ===== src/Program/Peaks.antt =====
-- What the peaks of a run are: the most items, and the most bytes, that the stack of sizes holds after
-- an executed instruction.
use mathlib.Core.List.{foldl}
use bsv_miner_op_code_calc.Common.{
  ℕ, ◌+◌, ◌-◌, ◌<◌, ◌^◌, ◌≡◌, refl, ap, ◌∙◌, max, List, [], ◌∷◌, length, All, u32, u64, add64,
  arith,
}
use bsv_miner_op_code_calc.Double.{Double}
use bsv_miner_op_code_calc.Tx.{Transaction}
use bsv_miner_op_code_calc.Model.{Impl}
use bsv_miner_op_code_calc.Estimate.Machine.{EstimatorLimits, Machine}
use bsv_miner_op_code_calc.Program.{
  Instr, push_data, exec, IsSized, Kind, kind, stack_after, bytes_after, stack_step,
}
use bsv_miner_op_code_calc.Program.Run.{step, run, executed}
use bsv_miner_op_code_calc.Program.Ledger.{run-foldl}

abbrev pub stack_bytes : List ℕ → ℕ
stack_bytes [] = 0
stack_bytes (s ∷ stack) = s + stack_bytes stack

-- The most items on the stack after an instruction, as a `uint32_t`.
unfoldable pub most_items : List Instr → List ℕ → ℕ
most_items [] stack = 0
most_items (i ∷ is) stack =
    let after = stack_step i stack in max (u32 (length after)) (most_items is after)

-- A signature check with two items to pop leaves their bytes counted, but for the one of its result.
unfoldable pub leak_after : Kind → List ℕ → ℕ
leak_after Kind.check_signature (a ∷ b ∷ _) = a + b + (2 ^ 64 - 1)
leak_after _ _ = 0

unfoldable pub leak : Instr → List ℕ → ℕ
unfolding kind leak_after
leak (push_data _) stack = 0
leak (exec op) stack = leak_after (kind op) stack

-- The most bytes counted after an instruction: those on the stack, and those leaked so far.
unfoldable pub most_bytes : List Instr → List ℕ → ℕ → ℕ
most_bytes [] stack leaked = 0
most_bytes (i ∷ is) stack leaked =
    let after = stack_step i stack in
    let leaked' = leaked + leak i stack in
    max (u64 (stack_bytes after + leaked')) (most_bytes is after leaked')

-- A byte count that goes with a stack and a leak.
pub record Tracks (stack : List ℕ) (bytes leaked : ℕ) : Type 0 where
  pub words : All (λ s. s < 2 ^ 64) stack
  pub counted : bytes ≡ u64 (stack_bytes stack + leaked)

byte_step : Instr → List ℕ → ℕ → ℕ
byte_step (push_data n) stack bytes = add64 bytes n
byte_step (exec op) stack bytes = bytes_after (kind op) stack bytes

after-Tracks :
    (k : Kind) (stack : List ℕ) (bytes leaked : ℕ)
    → Tracks stack bytes leaked
    → Tracks (stack_after k stack) (bytes_after k stack bytes) (leaked + leak_after k stack)
unfolding stack_after bytes_after leak_after
after-Tracks Kind.duplicate [] bytes leaked t = omega arith
after-Tracks Kind.duplicate (s ∷ rest) bytes leaked t =
    let w = t.words in record { words = (w.0, w); counted = omega arith }
after-Tracks Kind.exchange [] bytes leaked t = omega arith
after-Tracks Kind.exchange (a ∷ []) bytes leaked t = omega arith
after-Tracks Kind.exchange (a ∷ b ∷ rest) bytes leaked t =
    let w = t.words in record { words = (w.1.0, (w.0, w.1.1)); counted = omega arith }
after-Tracks Kind.concat [] bytes leaked t = omega arith
after-Tracks Kind.concat (a ∷ []) bytes leaked t = omega arith
after-Tracks Kind.concat (a ∷ b ∷ rest) bytes leaked t =
    let w = t.words in record { words = (omega arith, w.1.1); counted = omega arith }
after-Tracks Kind.hash [] bytes leaked t = omega arith
after-Tracks Kind.hash (s ∷ rest) bytes leaked t =
    let w = t.words in record { words = (omega arith, w.1); counted = omega arith }
after-Tracks Kind.check_signature [] bytes leaked t = omega arith
after-Tracks Kind.check_signature (a ∷ []) bytes leaked t = omega arith
after-Tracks Kind.check_signature (a ∷ b ∷ rest) bytes leaked t =
    let w = t.words in record { words = (omega arith, w.1.1); counted = omega arith }
after-Tracks Kind.unknown stack bytes leaked t = record { words = t.words; counted = omega arith }

step-Tracks :
    (i : Instr) (stack : List ℕ) (bytes leaked : ℕ)
    → IsSized i
    → Tracks stack bytes leaked
    → Tracks (stack_step i stack) (byte_step i stack bytes) (leaked + leak i stack)
unfolding stack_step byte_step leak
step-Tracks (push_data n) stack bytes leaked sized t = record {
  words = (sized, t.words);
  counted = omega arith;
}
step-Tracks (exec op) stack bytes leaked sized t = after-Tracks (kind op) stack bytes leaked t

-- The two peaks, the byte count and the stack, after an instruction.
abbrev View : Type 0
View = ℕ × ℕ × ℕ × List ℕ

next_view : View → Instr → View
next_view (items, peak, bytes, stack) i =
    let after = stack_step i stack in
    let bytes' = byte_step i stack bytes in
    (max items (u32 (length after)), max peak bytes', bytes', after)

foldl-peaks :
    (is : List Instr) (items peak bytes leaked : ℕ) (stack : List ℕ)
    → All IsSized is
    → Tracks stack bytes leaked
    → ((foldl next_view (items, peak, bytes, stack) is).0 ≡ max items (most_items is stack))
      × ((foldl next_view (items, peak, bytes, stack) is).1 ≡ max peak (most_bytes is stack leaked))
unfolding next_view most_items most_bytes
foldl-peaks [] items peak bytes leaked stack sized t = omega arith
foldl-peaks (i ∷ is) items peak bytes leaked stack (si, sized) t =
    let after = stack_step i stack in
    let bytes' = byte_step i stack bytes in
    let t' = step-Tracks i stack bytes leaked si t in
    let counted = t'.counted in
    let ih =
      foldl-peaks is (max items (u32 (length after))) (max peak bytes') bytes'
        (leaked + leak i stack) after sized t' in
    (omega (arith, ih.0), omega (arith, ih.1))

module _ {ℓ} {W : Type ℓ} ⦃d : Double W⦄ (impl : Impl W) (tx : Transaction)
    (limits : EstimatorLimits) where
  view : Machine → View
  view m =
      (m.result.peak_stack_items, m.result.peak_stack_bytes, m.current_stack_bytes, m.stack_sizes)

  view-step : (i : Instr) (m : Machine) → view (step impl tx i m) ≡ next_view (view m) i
  unfolding view step next_view byte_step stack_step
  view-step (push_data n) m = refl
  view-step (exec op) m = refl

  executed-All :
      (is : List Instr) (m : Machine) → All IsSized is → All IsSized (executed impl tx limits is m)
  unfolding executed
  executed-All [] m sized = sized
  executed-All (i ∷ is) m (si, sized) = ground (arith, executed-All is (step impl tx i m) sized)

  pub peaks-run :
      (is : List Instr) (m : Machine)
      → All IsSized is
      → Tracks m.stack_sizes m.current_stack_bytes 0
      → let after = run impl tx limits is m in
        let done = executed impl tx limits is m in
        (after.result.peak_stack_items
          ≡ max m.result.peak_stack_items (most_items done m.stack_sizes))
        × (after.result.peak_stack_bytes
            ≡ max m.result.peak_stack_bytes (most_bytes done m.stack_sizes 0))
  unfolding view
  peaks-run is m sized t =
      let replayed = run-foldl impl tx limits view next_view view-step (λ w m. refl) is m in
      let (items, bytes) =
        foldl-peaks (executed impl tx limits is m) m.result.peak_stack_items
          m.result.peak_stack_bytes m.current_stack_bytes 0 m.stack_sizes (executed-All is m sized)
          t in
      (ap (λ v. v.0) replayed ∙ items, ap (λ v. v.1) replayed ∙ bytes)
