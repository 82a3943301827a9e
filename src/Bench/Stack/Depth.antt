-- ===== src/Bench/Stack/Depth.antt =====
-- What `pick` and `roll` reach, counted from the top.
use mathlib.Core.List.{Perm}
use mathlib.Core.List.Perm
use mathlib.Core.Option.{some-injective}
use bsv_miner_op_code_calc.Common.{
  ℕ, zero, suc, ◌-◌, ◌<◌, ◌≡◌, refl, some, ltb, leb, if◌then◌else◌, false, [], ◌∷◌, length,
  get_elem?, get_elem?-lt, ok, arith,
}
use bsv_miner_op_code_calc.Bench.Stack.{
  Bytes, SimpleStack, at, erase_at, erase_from_back, pick, roll,
}

at-depth :
    (items : SimpleStack) (depth : ℕ)
    → depth < length items
    → at items (length items - 1 - depth) ≡ get_elem? items depth
unfolding at
at-depth items depth h =
    let back : length items - 1 - (length items - 1 - depth) ≡ depth = omega arith in
    rw back (ground arith)

erase_at-depth :
    (items : SimpleStack) (depth : ℕ)
    → depth < length items
    → erase_at items (length items - 1 - depth) ≡ some (erase_from_back items depth)
unfolding erase_at
erase_at-depth items depth h =
    let back : length items - 1 - (length items - 1 - depth) ≡ depth = omega arith in
    rw back (ground arith)

erase_from_back-perm :
    (items : SimpleStack) (depth : ℕ) {x : Bytes}
    → get_elem? items depth ≡ some x
    → Perm (x ∷ erase_from_back items depth) items
unfolding erase_from_back
erase_from_back-perm [] depth h = cc
erase_from_back-perm (y ∷ items) zero h = rw (some-injective _ _ h) (Perm.refl _)
erase_from_back-perm (y ∷ items) (suc depth) {x} h =
    Perm.trans (Perm.swap y x (erase_from_back items depth))
      (Perm.cons y (erase_from_back-perm items depth h))

-- Above the erased item nothing moves; below it every item moves up by one.
erase_from_back-get_elem? :
    (items : SimpleStack) (depth i : ℕ)
    → get_elem? (erase_from_back items depth) i
      ≡ (if ltb i depth then get_elem? items i else get_elem? items (suc i))
unfolding erase_from_back
erase_from_back-get_elem? [] depth i = ground arith
erase_from_back-get_elem? (y ∷ items) zero i = ground arith
erase_from_back-get_elem? (y ∷ items) (suc depth) zero = ground arith
erase_from_back-get_elem? (y ∷ items) (suc depth) (suc i) =
    ground (arith, erase_from_back-get_elem? items depth i)

get_elem?-some-lt :
    (items : SimpleStack) (depth : ℕ) {x : Bytes}
    → get_elem? items depth ≡ some x
    → depth < length items
get_elem?-some-lt [] depth h = cc
get_elem?-some-lt (y ∷ items) zero h = omega arith
get_elem?-some-lt (y ∷ items) (suc depth) h = omega (arith, get_elem?-some-lt items depth h)

pub pick-at :
    (items : SimpleStack) (depth : ℕ) {x : Bytes}
    → get_elem? items depth ≡ some x
    → pick depth items ≡ ok (x ∷ items)
unfolding pick
pick-at items depth read =
    let h = get_elem?-some-lt items depth read in
    let inside : leb (length items) depth ≡ false = ground arith in
    rw (inside, at-depth items depth h, read) refl

pub roll-at :
    (items : SimpleStack) (depth : ℕ) {x : Bytes}
    → get_elem? items depth ≡ some x
    → roll depth items ≡ ok (x ∷ erase_from_back items depth)
unfolding roll
roll-at items depth read =
    let h = get_elem?-some-lt items depth read in
    let inside : leb (length items) depth ≡ false = ground arith in
    rw (inside, at-depth items depth h, read, erase_at-depth items depth h) refl

abbrev pub MovesTo : SimpleStack → ℕ → Type 0
MovesTo items depth =
    (x : Bytes) × (rest : SimpleStack) × (get_elem? items depth ≡ some x)
    × (pick depth items ≡ ok (x ∷ items))
    × (roll depth items ≡ ok (x ∷ rest))
    × Perm (x ∷ rest) items
    × ((i : ℕ)
        → get_elem? rest i ≡ (if ltb i depth then get_elem? items i else get_elem? items (suc i)))

-- Within the stack `pick` copies the item at the depth to the top, and `roll` moves it there: the
-- items above it go down by one and those below it stay, so the stack keeps its items.
pub pick-roll : (items : SimpleStack) (depth : ℕ) → depth < length items → MovesTo items depth
pick-roll items depth h =
    let (x, read, _) = get_elem?-lt items depth h in
    (
      x,
      erase_from_back items depth,
      read,
      pick-at items depth read,
      roll-at items depth read,
      erase_from_back-perm items depth read,
      erase_from_back-get_elem? items depth,
    )
