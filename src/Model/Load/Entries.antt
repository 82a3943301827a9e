-- ===== src/Model/Load/Entries.antt =====
-- What a cost model file says, and what the estimator charges that has loaded it: `load_model` and
-- `calculate_opcode_cost` of libbsv_cost_estimator/src/cost_estimator.cpp.
use bsv_miner_op_code_calc.Common.{
  ℕ, String, Bool, false, ◌≡◌, ◌∙◌, ap, ◌≢◌, refl, Bool-cases, Option, none, some, Option-cases,
  inl, inr, List, [], ◌∷◌, All, ◌==◌, if◌then◌else◌, Result, ok, err, ◌>>=◌, >>=-eq-ok, arith,
}
use bsv_miner_op_code_calc.Double.{Double}
use bsv_miner_op_code_calc.OpCode.{OpCode, op_dup, to_byte}
use bsv_miner_op_code_calc.Model.{CostType, OpcodeCostModel, CostMap, Impl, calculate_opcode_cost}
use bsv_miner_op_code_calc.Model.Load.Prices.{priced, described_price, read_model-described_price}
use bsv_miner_op_code_calc.Model.Load.{
  Json, same_text, of_json, opcode_named, set_cost, set_named, read_model, load_opcodes,
  load_constants, load_costs, load_text, initial_impl, load_model,
}

-- The names that count in a file, each with the byte of its opcode.
abbrev pub known_names : List (String × ℕ)
known_names =
    ("OP_DUP", 0x76)
    ∷ ("OP_SWAP", 0x7c)
    ∷ ("OP_CAT", 0x7e)
    ∷ ("OP_SPLIT", 0x7f)
    ∷ ("OP_SHA256", 0xa8)
    ∷ ("OP_HASH256", 0xaa)
    ∷ ("OP_CHECKSIG", 0xac)
    ∷ ("OP_CHECKMULTISIG", 0xae)
    ∷ []

-- A name is that of the opcode with this byte, by the first of some names that it is.
abbrev pub is_named : List (String × ℕ) → ℕ → String → Bool
is_named [] byte name = false
is_named ((known, b) ∷ names) byte name =
    let others = is_named names byte name in if same_text name known then byte == b else others

-- What a name of the file stands for is the opcode.
abbrev same_opcode : OpCode → Option OpCode → Bool
same_opcode q none = false
same_opcode q (some op) = to_byte q == to_byte op

opcode_named-is_named :
    (q : OpCode) (name : String)
    → same_opcode q (opcode_named name) ≡ is_named known_names (to_byte q) name
unfolding opcode_named to_byte
opcode_named-is_named q name = ground arith

abbrev later_or {κ} : {J : Type κ} → Option J → Option J → Option J
later_or none earlier = earlier
later_or (some later) earlier = some later

module _ {κ} {J : Type κ} (q : OpCode) where
  -- The entry of the opcode, with its name: the last one, if there are several.
  unfoldable pub last_named : List (String × J) → Option (String × J)
  last_named [] = none
  last_named ((name, entry) ∷ rest) =
      later_or (last_named rest)
        (if is_named known_names (to_byte q) name then some (name, entry) else none)

-- The opcodes that a file can price.
abbrev pub few_bytes : List ℕ
few_bytes = 0x76 ∷ 0x7c ∷ 0x7e ∷ 0x7f ∷ 0xa8 ∷ 0xaa ∷ 0xac ∷ 0xae ∷ []

of_json-ok {ℓ} : {A : Type ℓ} {r : Result String A} {a : A} → of_json r ≡ ok a → r ≡ ok a
of_json-ok {r = ok a} h = cc
of_json-ok {r = err e} h = cc

module _ {ℓ κ} {W : Type ℓ} {J : Type κ} ⦃d : Double W⦄ (json : Json W J)
    (uninitialised : String → Option CostType) where
  open json use {parse, contains, member, value_string, value_double, items}
  open d use {lit, of_u64, add, mul}

  -- What the map holds for an opcode, given its entry and what was there before.
  abbrev cost_of :
      Option (String × J) → Option (OpcodeCostModel W) → Result String (Option (OpcodeCostModel W))
  cost_of none before = ok before
  cost_of (some (name, entry)) before =
      read_model json (uninitialised name) entry >>= λ m. ok (some m)

  cost_of-set_named :
      (q : OpCode) (named : Option OpCode) (name : String) (entry : J) (m : OpcodeCostModel W)
      (costs : CostMap W)
      → read_model json (uninitialised name) entry ≡ ok m
      → cost_of (if same_opcode q named then some (name, entry) else none) (costs q)
        ≡ ok (set_named named m costs q)
  unfolding set_cost
  cost_of-set_named q none name entry m costs read = refl
  cost_of-set_named q (some op) name entry m costs read =
      elim (Bool-cases (to_byte q == to_byte op)) [
        | inl same ↦ rw (same, read) refl
        | inr other ↦ rw other refl
      ]

  -- An entry that is followed by others counts where they do not name the opcode.
  cost_of-later_or :
      (later earlier : Option (String × J)) (before : Option (OpcodeCostModel W))
      {now after : Option (OpcodeCostModel W)}
      → cost_of earlier before ≡ ok now
      → cost_of later now ≡ ok after
      → cost_of (later_or later earlier) before ≡ ok after
  cost_of-later_or none earlier before first rest = first ∙ rest
  cost_of-later_or (some entry) earlier before first rest = rest

  load_opcodes-last_named :
      (q : OpCode) (entries : List (String × J)) (costs : CostMap W) {costs' : CostMap W}
      → load_opcodes json uninitialised entries costs ≡ ok costs'
      → cost_of (last_named q entries) (costs q) ≡ ok (costs' q)
  unfolding load_opcodes last_named
  load_opcodes-last_named q [] costs h = cc
  load_opcodes-last_named q ((name, entry) ∷ rest) costs h =
      let (m, read, rest_ok) = >>=-eq-ok (read_model json (uninitialised name) entry) _ h in
      cost_of-later_or (last_named q rest) _ _
        (rw (opcode_named-is_named q name) at
          (cost_of-set_named q (opcode_named name) name entry m costs read))
        (load_opcodes-last_named q rest _ rest_ok)

  -- The entries of the opcodes in the text of a file.
  abbrev entries_of : J → List (String × J)
  entries_of model =
      if contains model "opcodes"
      then elim (member model "opcodes") [ err e ↦ [] | ok opcodes ↦ items opcodes ]
      else []

  -- The cost of an opcode is the one that its entry describes, or 100.
  abbrev pub IsPriced : Impl W → OpCode → List ℕ → Option (String × J) → Type 0
  IsPriced impl q params none = calculate_opcode_cost impl q params ≡ 100
  IsPriced impl q params (some (name, entry)) =
      described_price json (uninitialised name) entry params
      ≡ ok (calculate_opcode_cost impl q params)

  cost_of-IsPriced :
      (impl : Impl W) (q : OpCode) (params : List ℕ) (entry : Option (String × J))
      → cost_of entry none ≡ ok (impl.opcode_costs q)
      → IsPriced impl q params entry
  unfolding calculate_opcode_cost
  cost_of-IsPriced impl q params none h =
      let free : impl.opcode_costs q ≡ none = cc in rw (free, calculate_opcode_cost) refl
  cost_of-IsPriced impl q params (some (name, entry)) h =
      let (m, read, held) = >>=-eq-ok (read_model json (uninitialised name) entry) _ h in
      let found : impl.opcode_costs q ≡ some m = cc in
      rw
        (
          found,
          calculate_opcode_cost,
          ← read_model-described_price json (uninitialised name) entry params,
          read,
        )
        refl

  ok-fields :
      {result : Result String (Impl W)} {impl impl' : Impl W}
      → result ≡ ok impl'
      → result ≡ ok impl
      → (impl'.opcode_costs ≡ impl.opcode_costs) × (impl'.hardware_info ≡ impl.hardware_info)
  ok-fields h same = (cc, cc)

  load_constants-keeps :
      (model : J) (impl : Impl W) {impl' : Impl W}
      → load_constants json uninitialised model impl ≡ ok impl'
      → (impl'.opcode_costs ≡ impl.opcode_costs) × (impl'.hardware_info ≡ impl.hardware_info)
  unfolding load_constants
  load_constants-keeps model impl h = elim (Bool-cases (contains model "constants")) [
    | inl given ↦
        let (constants, _, h1) =
          >>=-eq-ok (member model "constants") _ (rw (given, load_constants) at h) in
        let (c_dispatch, _, h2) = >>=-eq-ok (value_double constants "c_dispatch" _) _ h1 in
        let (c_parse, _, h3) = >>=-eq-ok (value_double constants "c_parse_per_byte" _) _ h2 in
        ok-fields h3 refl
    | inr absent ↦ ok-fields (rw (absent, load_constants) at h) refl
  ]

  load_costs-entries :
      (q : OpCode) (model : J) (impl : Impl W) {impl' : Impl W}
      → load_costs json uninitialised model impl ≡ ok impl'
      → (cost_of (last_named q (entries_of model)) (impl.opcode_costs q)
          ≡ ok (impl'.opcode_costs q))
        × (impl'.hardware_info ≡ impl.hardware_info)
  unfolding load_costs last_named
  load_costs-entries q model impl h = elim (Bool-cases (contains model "opcodes")) [
    | inl given ↦
        let (opcodes, there, h1) =
          >>=-eq-ok (member model "opcodes") _ (rw (given, load_costs) at h) in
        let (costs, loaded, h2) =
          >>=-eq-ok (load_opcodes json uninitialised (items opcodes) _) _ h1 in
        let found = load_opcodes-last_named q (items opcodes) impl.opcode_costs loaded in
        let same = ok-fields h2 refl in rw (given, there, same.0) (found, same.1)
    | inr absent ↦
        let same = ok-fields (rw (absent, load_costs) at h) refl in
        rw (absent, same.0) (refl, same.1)
  ]

  -- The file can be opened and parsed, every opcode costs what its entry describes, or 100, and the
  -- hardware is the empty text.
  abbrev pub Loaded : (String → Option String) → String → Impl W → Type κ
  Loaded open_file path impl =
      (text : String) × (model : J) × (open_file path ≡ some text)
      × (parse text ≡ ok model)
      × ((q : OpCode) (params : List ℕ) → IsPriced impl q params (last_named q (entries_of model)))
      × (impl.hardware_info ≡ "")

  load_text-Loaded :
      (open_file : String → Option String) (path text : String) {impl : Impl W}
      → open_file path ≡ some text
      → load_text json uninitialised text (initial_impl json uninitialised) ≡ ok impl
      → Loaded open_file path impl
  unfolding load_text
  load_text-Loaded open_file path text {impl} opened h =
      let (model, parsed, h1) = >>=-eq-ok (parse text) _ h in
      let (profile_id, _, h2) = >>=-eq-ok (value_string model "profile_id" "unknown") _ h1 in
      let (with_constants, constants, h3) =
        >>=-eq-ok (load_constants json uninitialised model _) _ h2 in
      let (no_costs, no_hardware) = load_constants-keeps model _ constants in
      let costs = λ (q : OpCode). load_costs-entries q model with_constants h3 in
      let free = λ (q : OpCode). ap (λ (f : CostMap W). f q) no_costs in
      (
        text,
        model,
        opened,
        parsed,
        λ q params. cost_of-IsPriced impl q params _ (rw (free q) at ((costs q).0)),
        (costs op_dup).1 ∙ no_hardware,
      )

  -- Where the estimator is constructed, its file could be opened and parsed; each opcode costs what the
  -- last entry describes whose name a table of eight names gives that opcode's byte, and 100 cycles
  -- without one; and the hardware is the empty text.
  pub load_model-Loaded :
      (open_file : String → Option String) (path : String) {impl : Impl W}
      → load_model json uninitialised open_file path ≡ ok impl
      → Loaded open_file path impl
  unfolding load_model
  load_model-Loaded open_file path h = elim (Option-cases (open_file path)) [
    | inl missing ↦ absurd (cc (rw (missing, load_model) at h))
    | inr (text, opened) ↦
        load_text-Loaded open_file path text opened (of_json-ok (rw (opened, load_model) at h))
  ]

  nameless_entry :
      (q : OpCode) (name : String) (entry : J) (later : Option (String × J))
      → is_named known_names (to_byte q) name ≡ false
      → later ≡ none
      → later_or later (if is_named known_names (to_byte q) name then some (name, entry) else none)
        ≡ none
  nameless_entry q name entry later nameless free =
      ap (λ (b : Bool). later_or later (if b then some (name, entry) else none)) nameless
      ∙ ap (λ (l : Option (String × J)). later_or l none) free

  last_named-none :
      (q : OpCode) (entries : List (String × J))
      → ((name : String) → is_named known_names (to_byte q) name ≡ false)
      → last_named q entries ≡ none
  unfolding last_named
  last_named-none q [] nameless = refl
  last_named-none q ((name, entry) ∷ rest) nameless =
      nameless_entry q name entry (last_named q rest) (nameless name)
        (last_named-none q rest nameless)

  is_named-few :
      (byte : ℕ) (name : String)
      → All (λ b. byte ≢ b) few_bytes
      → is_named known_names byte name ≡ false
  is_named-few byte name other = ground arith

  -- Whatever the file says, an opcode but OP_DUP, OP_SWAP, OP_CAT, OP_SPLIT, OP_SHA256, OP_HASH256,
  -- OP_CHECKSIG and OP_CHECKMULTISIG costs 100 cycles at every size.
  pub load_model-few :
      (open_file : String → Option String) (path : String) {impl : Impl W} (q : OpCode)
      (params : List ℕ)
      → load_model json uninitialised open_file path ≡ ok impl
      → All (λ b. to_byte q ≢ b) few_bytes
      → calculate_opcode_cost impl q params ≡ 100
  load_model-few open_file path q params h other =
      let (text, model, _, _, priced, _) = load_model-Loaded open_file path h in
      let free =
        last_named-none q (entries_of model) (λ name. is_named-few (to_byte q) name other) in
      rw free at (priced q params)
