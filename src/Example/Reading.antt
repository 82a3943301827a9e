-- ===== src/Example/Reading.antt =====
-- How a reader finds the values in a text that was printed: behind a label, up to a separator.
use bsv_miner_op_code_calc.Common.{
  ℕ, String, false, ◌==◌, if◌then◌else◌, ◌≡◌, ap, refl, Option, none, some, List, [], ◌∷◌, ◌++◌,
  arith,
}
use bsv_miner_op_code_calc.Bench.Export.Cells.{Text, Lacks, codes}

-- The rest behind the first part of a text, where the text begins with it.
abbrev pub strip : Text → Text → Option Text
strip [] s = some s
strip (c ∷ part) [] = none
strip (c ∷ part) (d ∷ s) = if c == d then strip part s else none

-- What is behind the first place of a label.
unfoldable pub behind : Text → Text → Option Text
behind label [] = none
behind label (c ∷ s) =
    let later = behind label s in
    elim (strip label (c ∷ s)) [ none ↦ later | some rest ↦ some rest ]

-- A text up to a separator, and what is behind the separator.
unfoldable pub cut : ℕ → Text → Text × Text
cut sep [] = ([], [])
cut sep (c ∷ s) = let (field, rest) = cut sep s in if c == sep then ([], s) else (c ∷ field, rest)

pub cut-field :
    (sep : ℕ) (field rest : Text) → Lacks sep field → cut sep (field ++ sep ∷ rest) ≡ (field, rest)
unfolding cut
cut-field sep [] rest h = ground arith
cut-field sep (c ∷ field) rest (h, hs) =
    let other : (c == sep) ≡ false = ground arith in rw (other, cut-field sep field rest hs) refl

-- The fields behind some labels, each up to its separator, one after the other; and what is left.
unfoldable pub read_fields : List (String × ℕ) → Text → Option (List Text × Text)
unfolding behind cut
read_fields [] s = some ([], s)
read_fields ((label, sep) ∷ labels) s = elim (behind (codes label) s) [
  | none ↦ none
  | some rest ↦
      let (field, after) = cut sep rest in
      elim (read_fields labels after) [
        | none ↦ none
        | some (fields, left) ↦ some (field ∷ fields, left)
      ]
]

-- A label, the field behind it, and its separator, in the text.
pub read_fields-field :
    (label : String) (sep : ℕ) (labels : List (String × ℕ)) (s field after : Text)
    {fields : List Text} {left : Text}
    → behind (codes label) s ≡ some (field ++ sep ∷ after)
    → Lacks sep field
    → read_fields labels after ≡ some (fields, left)
    → read_fields ((label, sep) ∷ labels) s ≡ some (field ∷ fields, left)
unfolding read_fields
read_fields-field label sep labels s field after {fields} {left} found lacks rest =
    let first = ap (λ (p : Text × Text). p.0) (cut-field sep field after lacks) in
    rw (read_fields, found, cut-field sep field after lacks, rest)
      (ap (λ (f : Text). some (f ∷ fields, left)) first)

pub read_fields-nil : (s : Text) → read_fields [] s ≡ some ([], s)
unfolding read_fields
read_fields-nil s = refl
