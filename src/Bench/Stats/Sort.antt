-- ===== src/Bench/Stats/Sort.antt =====
-- Sorted samples, and how many samples lie on either side of one: for `calculate_stats` of
-- bsv_script_bench/src/bench_harness.cpp.
use mathlib.Core.List.{Perm, foldr}
use mathlib.Core.List.Perm
use mathlib.Core.Option.{some-injective}
use bsv_miner_op_code_calc.Common.{
  ℕ, zero, suc, ◌+◌, ◌≤◌, ◌<◌, ◌≡◌, ◌∙◌, refl, sym, some, leb, Bool-cases, inl, inr, if◌then◌else◌,
  List, [], ◌∷◌, length, get_elem?, All, All-get_elem?, arith,
}
use bsv_miner_op_code_calc.Bench.Stats.{insert, sort}

abbrev pub IsSorted : List ℕ → Type 0
IsSorted [] = Unit
IsSorted (x ∷ xs) = All (λ y. x ≤ y) xs × IsSorted xs

-- How many of the samples are at most, and at least, a value.
abbrev pub at_most : ℕ → List ℕ → ℕ
at_most v [] = 0
at_most v (x ∷ xs) = (if leb x v then 1 else 0) + at_most v xs

abbrev pub at_least : ℕ → List ℕ → ℕ
at_least v [] = 0
at_least v (x ∷ xs) = (if leb v x then 1 else 0) + at_least v xs

-- The value is at the place `i`, counted from 0, when the samples are in ascending order.
abbrev pub HasRank : List ℕ → ℕ → ℕ → Type 0
HasRank samples i v = (i < at_most v samples) × (length samples ≤ i + at_least v samples)

All-mono : (a b : ℕ) (xs : List ℕ) → a ≤ b → All (λ y. b ≤ y) xs → All (λ y. a ≤ y) xs
All-mono a b [] h all = tt
All-mono a b (x ∷ xs) h (hx, all) = (omega arith, All-mono a b xs h all)

insert-All : (P : ℕ → Type 0) (x : ℕ) (xs : List ℕ) → P x → All P xs → All P (insert x xs)
unfolding insert
insert-All P x [] px all = (px, tt)
insert-All P x (y ∷ ys) px (py, all) = elim (Bool-cases (leb x y)) [
  | inl first ↦ rw first (px, (py, all))
  | inr later ↦ rw later (py, insert-All P x ys px all)
]

insert-IsSorted : (x : ℕ) (xs : List ℕ) → IsSorted xs → IsSorted (insert x xs)
unfolding insert
insert-IsSorted x [] s = (tt, tt)
insert-IsSorted x (y ∷ ys) (below, s) = elim (Bool-cases (leb x y)) [
  | inl first ↦ let h : x ≤ y = ground arith in rw first ((h, All-mono x y ys h below), (below, s))
  | inr later ↦ rw later (insert-All (λ z. y ≤ z) x ys (ground arith) below, insert-IsSorted x ys s)
]

pub sort-IsSorted : (xs : List ℕ) → IsSorted (sort xs)
unfolding sort
sort-IsSorted [] = tt
sort-IsSorted (x ∷ xs) = insert-IsSorted x (sort xs) (sort-IsSorted xs)

module _ (v x : ℕ) where
  insert-counts :
      (xs : List ℕ)
      → (length (insert x xs) ≡ suc (length xs))
        × (at_most v (insert x xs) ≡ at_most v (x ∷ xs))
        × (at_least v (insert x xs) ≡ at_least v (x ∷ xs))
  unfolding insert
  insert-counts [] = (refl, refl, refl)
  insert-counts (y ∷ ys) = ground (arith, insert-counts ys)

-- Sorting keeps the number of samples, and how many lie on either side of a value.
pub sort-counts :
    (v : ℕ) (xs : List ℕ)
    → (length (sort xs) ≡ length xs)
      × (at_most v (sort xs) ≡ at_most v xs)
      × (at_least v (sort xs) ≡ at_least v xs)
unfolding sort
sort-counts v [] = (refl, refl, refl)
sort-counts v (x ∷ xs) = omega (arith, insert-counts v x (sort xs), sort-counts v xs)

insert_comm : (x y : ℕ) (xs : List ℕ) → insert x (insert y xs) ≡ insert y (insert x xs)
unfolding insert
insert_comm x y [] = ground arith
insert_comm x y (z ∷ zs) = ground (arith, insert_comm x y zs)

sort-foldr : (xs : List ℕ) → sort xs ≡ foldr insert [] xs
unfolding sort
sort-foldr [] = refl
sort-foldr (x ∷ xs) = rw (sort-foldr xs) refl

-- The order in which the samples were taken is forgotten.
pub sort-perm : {xs ys : List ℕ} → Perm xs ys → sort xs ≡ sort ys
sort-perm {xs} {ys} p =
    sort-foldr xs ∙ Perm.foldr-eq (hlevel) insert insert_comm p [] ∙ sym (sort-foldr ys)

module _ (v : ℕ) where
  All-at_least : (xs : List ℕ) → All (λ y. v ≤ y) xs → at_least v xs ≡ length xs
  All-at_least [] all = refl
  All-at_least (x ∷ xs) (h, all) = ground (arith, All-at_least xs all)

  -- In ascending order the places are the ranks.
  pub get_elem?-HasRank :
      (xs : List ℕ) (i : ℕ) → IsSorted xs → get_elem? xs i ≡ some v → HasRank xs i v
  get_elem?-HasRank [] i s h = absurd (cc)
  get_elem?-HasRank (x ∷ xs) zero (below, s) h =
      let same : x ≡ v = some-injective _ _ h in ground (arith, All-at_least xs (rw same at below))
  get_elem?-HasRank (x ∷ xs) (suc i) (below, s) h =
      let above : x ≤ v = All-get_elem? (λ y. x ≤ y) xs i below h in
      ground (arith, get_elem?-HasRank xs i s h)

pub get_elem?_mono :
    (xs : List ℕ) (i j : ℕ) {a b : ℕ}
    → IsSorted xs
    → i ≤ j
    → get_elem? xs i ≡ some a
    → get_elem? xs j ≡ some b
    → a ≤ b
get_elem?_mono [] i j s h ha hb = absurd (cc)
get_elem?_mono (x ∷ xs) zero zero s h ha hb =
    omega (arith, some-injective _ _ ha, some-injective _ _ hb)
get_elem?_mono (x ∷ xs) zero (suc j) {b = b} s h ha hb =
    let above : x ≤ b = All-get_elem? (λ y. x ≤ y) xs j s.0 hb in
    omega (arith, some-injective _ _ ha)
get_elem?_mono (x ∷ xs) (suc i) zero s h ha hb = absurd (omega arith)
get_elem?_mono (x ∷ xs) (suc i) (suc j) s h ha hb = get_elem?_mono xs i j s.1 (omega arith) ha hb

module _ (b v : ℕ) where
  at_most-le : (xs : List ℕ) → at_most v xs ≤ length xs
  at_most-le [] = omega arith
  at_most-le (x ∷ xs) = ground (arith, at_most-le xs)

  at_least-zero : (xs : List ℕ) → All (λ c. c < b) xs → b ≤ v → at_least v xs ≡ 0
  at_least-zero [] all h = refl
  at_least-zero (x ∷ xs) (hx, all) h = ground (arith, at_least-zero xs all h)

  -- A value of some rank is bounded like the samples.
  pub HasRank-lt : (xs : List ℕ) (i : ℕ) → All (λ c. c < b) xs → HasRank xs i v → v < b
  HasRank-lt xs i all r = elim (Bool-cases (leb b v)) [
    | inl over ↦ absurd (omega (arith, r, at_most-le xs, at_least-zero xs all (ground arith)))
    | inr below ↦ ground arith
  ]
