-- ===== src/Bench/Export/Cells.antt =====
-- How a reader takes a table of comma-separated values apart: lines at newlines, and the cells of a
-- line at commas.
use Prim.Native.Char.{code}
use text.Mathlib.TextLemmas.{nil-append, cons-append}
use bsv_miner_op_code_calc.Common.{
  Bool-cases, inl, inr, ℕ, String, zero, suc, ◌/◌, ◌%◌, ltb, ◌==◌, true, if◌then◌else◌, ◌≡◌, ◌≢◌,
  ◌∙◌, refl, ap, List, [], ◌∷◌, ◌++◌, All, get_or, arith,
}
use bsv_miner_op_code_calc.Bench.Job.{◌<>◌, digit, decimals, to_string, All-append}

abbrev pub Text : Type 0
Text = List ℕ

-- The characters of a string, by their codes.
abbrev pub codes : String → Text
codes String.[] = []
codes (String.◌∷◌ c s) = code c ∷ codes s

abbrev pub comma : ℕ
comma = 44

abbrev pub newline : ℕ
newline = 10

abbrev pub Lacks : ℕ → Text → Type 0
Lacks sep = All (λ c. c ≢ sep)

abbrev pub extend_first : ℕ → List Text → List Text
extend_first c [] = (c ∷ []) ∷ []
extend_first c (p ∷ ps) = (c ∷ p) ∷ ps

-- The parts between the separators, one more than there are separators.
unfoldable pub split : ℕ → Text → List Text
split sep [] = [] ∷ []
split sep (c ∷ s) = let rest = split sep s in if c == sep then [] ∷ rest else extend_first c rest

pub codes-append : (s t : String) → codes (s <> t) ≡ codes s ++ codes t
codes-append String.[] t = ap codes (nil-append t)
codes-append (String.◌∷◌ c s) t =
    ap codes (cons-append c s t) ∙ ap (λ (r : Text). code c ∷ r) (codes-append s t)

split-cons :
    (sep : ℕ) (p : Text) → (first : Text) × (others : List Text) × (split sep p ≡ first ∷ others)
unfolding split
split-cons sep [] = ([], [], refl)
split-cons sep (c ∷ p) =
    let (first, others, e) = split-cons sep p in
    elim (Bool-cases (c == sep)) [
      | inl same ↦ ([], first ∷ others, rw (same, e) refl)
      | inr other ↦ (c ∷ first, others, rw (other, e) refl)
    ]

-- A separator ends the last part of the text before it, whatever that text is.
pub split-append : (sep : ℕ) (p s : Text) → split sep (p ++ sep ∷ s) ≡ split sep p ++ split sep s
unfolding split
split-append sep [] s = ground arith
split-append sep (c ∷ p) s =
    let (first, others, e) = split-cons sep p in
    let rest = split-append sep p s in
    elim (Bool-cases (c == sep)) [
      | inl same ↦ rw (same, rest) refl
      | inr other ↦ rw (other, rest, e) refl
    ]

pub split-Lacks : (sep : ℕ) (p : Text) → Lacks sep p → split sep p ≡ p ∷ []
unfolding split
split-Lacks sep [] h = refl
split-Lacks sep (c ∷ p) (h, hp) = ground (arith, split-Lacks sep p hp)

get_or-All {ℓ κ} :
    {A : Type ℓ} (P : A → Type κ) (xs : List A) (i : ℕ) (d : A) → All P xs → P d → P (get_or xs i d)
get_or-All P [] i d h hd = hd
get_or-All P (x ∷ xs) zero d h hd = h.0
get_or-All P (x ∷ xs) (suc i) d h hd = get_or-All P xs i d h.1 hd

digit-Lacks : (sep d : ℕ) → ltb sep 48 ≡ true → Lacks sep (codes (digit d))
digit-Lacks sep d h =
    get_or-All (λ s. Lacks sep (codes s))
      ("0" ∷ "1" ∷ "2" ∷ "3" ∷ "4" ∷ "5" ∷ "6" ∷ "7" ∷ "8" ∷ "9" ∷ []) d "" (ground arith) tt

decimals-Lacks : (sep fuel n : ℕ) → ltb sep 48 ≡ true → Lacks sep (codes (decimals fuel n))
decimals-Lacks sep zero n h = tt
decimals-Lacks sep (suc fuel) n h =
    let last = digit-Lacks sep (n % 10) h in
    let joined =
      All-append (λ c. c ≢ sep) (codes (decimals fuel (n / 10))) (codes (digit (n % 10)))
        (decimals-Lacks sep fuel (n / 10) h) last in
    elim (Bool-cases (ltb n 10)) [
      | inl one_digit ↦ rw one_digit (digit-Lacks sep n h)
      | inr more ↦ rw (more, codes-append (decimals fuel (n / 10)) (digit (n % 10))) joined
    ]

pub to_string-Lacks : (sep n : ℕ) → ltb sep 48 ≡ true → Lacks sep (codes (to_string n))
to_string-Lacks sep n = decimals-Lacks sep 20 n
