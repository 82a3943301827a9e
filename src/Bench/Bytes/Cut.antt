-- ===== src/Bench/Bytes/Cut.antt =====
-- How `op_cat` and `op_split` of bsv_script_bench/src/bench_byte_ops.cpp undo each other.
use bsv_miner_op_code_calc.Common.{
  Bool-cases, inl, inr, ◌⊎◌, ℕ, ◌≤◌, ◌<◌, ◌≡◌, refl, false, ltb, ◌++◌, length, length-append, take,
  drop, take-append-drop, length-take, take-append, drop-append, ok, err, arith,
}
use bsv_miner_op_code_calc.Bench.Exception.{runtime_error}
use bsv_miner_op_code_calc.Bench.Stack.{Bytes}
use bsv_miner_op_code_calc.Bench.Bytes.{op_cat, op_split}

abbrev pub Cuts : Bytes → ℕ → Type 0
Cuts bytes position =
    (left : Bytes) × (right : Bytes) × (op_split bytes position ≡ ok (left, right))
    × (length left ≡ position)
    × (op_cat left right ≡ bytes)

pub op_split-Cuts : (bytes : Bytes) (position : ℕ) → position ≤ length bytes → Cuts bytes position
unfolding op_cat op_split
op_split-Cuts bytes position inside =
    let fits : ltb (length bytes) position ≡ false = ground arith in
    (
      take position bytes,
      drop position bytes,
      rw fits refl,
      length-take position bytes inside,
      take-append-drop bytes position,
    )

-- Splitting throws where the position is behind the end. Elsewhere joining the two parts gives the
-- bytes back, and the left part is as long as the position. Splitting what was joined at the length of
-- the left part gives both parts back.
pub op_split-op_cat :
    (bytes other : Bytes) (position : ℕ)
    → (((length bytes < position)
          × (op_split bytes position ≡ err (runtime_error "Split position out of range")))
        ⊎ ((position ≤ length bytes) × Cuts bytes position))
      × (op_split (op_cat bytes other) (length bytes) ≡ ok (bytes, other))
unfolding op_cat op_split
op_split-op_cat bytes other position =
    let fits : ltb (length (bytes ++ other)) (length bytes) ≡ false =
      ground (arith, length-append bytes other) in
    (
      elim (Bool-cases (ltb (length bytes) position)) [
        | inl over ↦ inl (ground arith, rw over refl)
        | inr inside ↦ inr (ground arith, op_split-Cuts bytes position (ground arith))
      ],
      rw (fits, take-append bytes other, drop-append bytes other) refl,
    )
