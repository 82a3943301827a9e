-- ===== src/Program/Decode.antt =====
-- Decoding follows the program counter of `CostEstimator::Impl::estimate`.
use bsv_miner_op_code_calc.Common.{
  ℕ, zero, suc, ◌≤◌, ◌<◌, ◌≡◌, ◌≢◌, ◌⊎◌, refl, true, false, ltb, ◌&&◌, [], ◌∷◌, drop, length, All,
  arith,
}
use bsv_miner_op_code_calc.OpCode.{of_byte}
use bsv_miner_op_code_calc.Tx.{Script}
use bsv_miner_op_code_calc.Program.{push_data, exec, IsSized, decode}

-- Data that is passed over is dropped.
pub decode-drop : (skip : ℕ) (bytes : Script) → decode skip bytes ≡ decode 0 (drop skip bytes)
unfolding decode
decode-drop zero bytes = refl
decode-drop (suc skip) [] = refl
decode-drop (suc skip) (b ∷ bytes) = decode-drop skip bytes

-- A direct push.
pub decode_direct :
    (b : ℕ) (rest : Script)
    → (ltb 0 b && ltb b 0x4c) ≡ true
    → decode 0 (b ∷ rest) ≡ push_data b ∷ decode b rest
unfolding decode
decode_direct zero [] h = cc
decode_direct (suc b) [] h = ground arith
decode_direct b (n ∷ rest) h = ground arith

-- OP_PUSHDATA1 with its size byte.
pub decode_sized :
    (n : ℕ) (rest : Script) → decode 0 (0x4c ∷ n ∷ rest) ≡ push_data n ∷ decode n rest
unfolding decode
decode_sized n rest = refl

-- Any other byte, OP_PUSHDATA1 at the end included.
pub decode_opcode :
    (b : ℕ) (rest : Script)
    → (ltb 0 b && ltb b 0x4c) ≡ false
    → (b ≢ 0x4c) ⊎ (rest ≡ [])
    → decode 0 (b ∷ rest) ≡ exec (of_byte b) ∷ decode 0 rest
unfolding decode
decode_opcode b [] h e = ground arith
decode_opcode b (n ∷ rest) h e = ground arith

-- The pushes of a script of bytes are of at most 255 bytes.
pub decode-IsSized :
    (skip : ℕ) (bytes : Script) → All (λ n. n < 256) bytes → All IsSized (decode skip bytes)
unfolding decode
decode-IsSized zero [] fit = tt
decode-IsSized (suc skip) [] fit = tt
decode-IsSized (suc skip) (b ∷ bytes) fit = decode-IsSized skip bytes fit.1
decode-IsSized zero (b ∷ []) fit = ground arith
decode-IsSized zero (b ∷ n ∷ bytes) fit = ground (
  arith,
  decode-IsSized b (n ∷ bytes) fit.1,
  decode-IsSized n bytes fit.1.1,
  decode-IsSized 0 (n ∷ bytes) fit.1,
)

-- There are at most as many instructions as bytes.
pub decode-le : (skip : ℕ) (bytes : Script) → length (decode skip bytes) ≤ length bytes
unfolding decode
decode-le zero [] = omega arith
decode-le (suc skip) [] = omega arith
decode-le (suc skip) (b ∷ bytes) = omega (arith, decode-le skip bytes)
decode-le zero (b ∷ []) = omega arith
decode-le zero (b ∷ n ∷ bytes) =
    ground (arith, decode-le b (n ∷ bytes), decode-le n bytes, decode-le 0 (n ∷ bytes))
