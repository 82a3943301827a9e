-- ===== src/Bench/Export/Numbers.antt =====
-- How the numbers that `std::to_string` and `operator<<` print are read back.
use native.Mathlib.Nat.{pow-suc}
use bsv_miner_op_code_calc.Common.{
  ℕ, zero, suc, ◌+◌, ◌-◌, ◌*◌, ◌/◌, ◌%◌, ◌^◌, ◌<◌, ◌≡◌, refl, ltb, Bool-cases, inl, inr, [], ◌∷◌,
  ◌++◌, digit, decimals, to_string, arith,
}
use bsv_miner_op_code_calc.Bench.Export.Cells.{Text, codes, codes-append}

-- The number that decimal digits spell, behind those that were read.
abbrev value_from : ℕ → Text → ℕ
value_from acc [] = acc
value_from acc (c ∷ s) = value_from (acc * 10 + (c - 48)) s

abbrev pub value : Text → ℕ
value = value_from 0

value_from-append :
    (acc c : ℕ) (s : Text) → value_from acc (s ++ c ∷ []) ≡ value_from acc s * 10 + (c - 48)
value_from-append acc c [] = refl
value_from-append acc c (b ∷ s) = value_from-append (acc * 10 + (b - 48)) c s

digit-code : (d : ℕ) → d < 10 → codes (digit d) ≡ (48 + d) ∷ []
digit-code zero h = refl
digit-code (suc zero) h = refl
digit-code (suc (suc zero)) h = refl
digit-code (suc (suc (suc zero))) h = refl
digit-code (suc (suc (suc (suc zero)))) h = refl
digit-code (suc (suc (suc (suc (suc zero))))) h = refl
digit-code (suc (suc (suc (suc (suc (suc zero)))))) h = refl
digit-code (suc (suc (suc (suc (suc (suc (suc zero))))))) h = refl
digit-code (suc (suc (suc (suc (suc (suc (suc (suc zero)))))))) h = refl
digit-code (suc (suc (suc (suc (suc (suc (suc (suc (suc zero))))))))) h = refl
digit-code (suc (suc (suc (suc (suc (suc (suc (suc (suc (suc d)))))))))) h = absurd (omega arith)

decimals-value : (fuel n : ℕ) → n < 10 ^ fuel → value (codes (decimals fuel n)) ≡ n
decimals-value zero n h = omega arith
decimals-value (suc fuel) n h =
    let last = digit-code (n % 10) (omega arith) in
    let inner = decimals-value fuel (n / 10) (omega (arith, pow-suc 10 fuel)) in
    elim (Bool-cases (ltb n 10)) [
      | inl one_digit ↦ let only = digit-code n (ground arith) in rw (one_digit, only) (omega arith)
      | inr more ↦
          rw
            (
              more,
              codes-append (decimals fuel (n / 10)) (digit (n % 10)),
              last,
              value_from-append 0 (48 + n % 10) (codes (decimals fuel (n / 10))),
              inner,
            )
            (omega arith)
    ]

-- A word is read back as it was.
pub to_string-value : (n : ℕ) → n < 2 ^ 64 → value (codes (to_string n)) ≡ n
to_string-value n word = decimals-value 20 n (omega arith)
