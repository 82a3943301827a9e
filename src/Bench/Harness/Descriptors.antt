-- ===== src/Bench/Harness/Descriptors.antt =====
-- Which descriptors are open while the calls of the system by `class BenchmarkHarness` of
-- bsv_script_bench/src/bench_harness.cpp go on.
use mathlib.Core.List.{append_assoc, append-nil}
use mathlib.Core.Option.{some-injective}
use bsv_miner_op_code_calc.Common.{
  zero, suc, get_elem?, ℕ, ◌≡◌, ◌⊎◌, inl, inr, refl, none, some, List, [], ◌∷◌, ◌++◌,
}
use bsv_miner_op_code_calc.Bench.Harness.{
  Fd, PerfEventAttr, Event, perf_event_open, ioctl, read, close, BenchmarkHarness, close_valid,
  destroy,
}

abbrev pub Has : ℕ → List ℕ → Type 0
Has fd [] = ⊥
Has fd (x ∷ xs) = (x ≡ fd) ⊎ Has fd xs

-- A call with -1 fails, and touches nothing.
abbrev pub Owns : List ℕ → Fd → Type 0
Owns owned none = Unit
Owns owned (some fd) = Has fd owned

abbrev pub valid : Fd → List ℕ
valid none = []
valid (some fd) = fd ∷ []

-- The calls only use descriptors that are open, none is closed that is not, and none is left open.
abbrev pub IsOwned : List ℕ → List Event → Type 0
IsOwned owned [] = owned ≡ []
IsOwned owned (perf_event_open pe none ∷ events) = IsOwned owned events
IsOwned owned (perf_event_open pe (some fd) ∷ events) = IsOwned (owned ++ fd ∷ []) events
IsOwned owned (ioctl request fd ∷ events) = Owns owned fd × IsOwned owned events
IsOwned owned (read fd reply ∷ events) = Owns owned fd × IsOwned owned events
IsOwned owned (close fd ∷ events) =
    (before : List ℕ) × (after : List ℕ) × (owned ≡ before ++ fd ∷ after)
    × IsOwned (before ++ after) events
IsOwned owned (_ ∷ events) = IsOwned owned events

-- The members of a harness that hold descriptors, in the order in which they are opened.
abbrev pub descriptors : BenchmarkHarness → List Fd
descriptors h =
    h.perf_fd_cycles ∷ h.perf_fd_instructions ∷ h.perf_fd_l1d_misses ∷ h.perf_fd_llc_misses
    ∷ h.perf_fd_branch_misses ∷ []

abbrev pub valids : List Fd → List ℕ
valids [] = []
valids (fd ∷ fds) = valid fd ++ valids fds

Owns-left : (xs ys : List ℕ) (fd : Fd) → Owns xs fd → Owns (xs ++ ys) fd
Owns-left xs ys none h = tt
Owns-left [] ys (some fd) h = elim h [ ]
Owns-left (x ∷ xs) ys (some fd) (inl e) = inl e
Owns-left (x ∷ xs) ys (some fd) (inr h) = inr (Owns-left xs ys (some fd) h)

Owns-right : (xs ys : List ℕ) (fd : Fd) → Owns ys fd → Owns (xs ++ ys) fd
Owns-right xs ys none h = tt
Owns-right [] ys (some fd) h = h
Owns-right (x ∷ xs) ys (some fd) h = inr (Owns-right xs ys (some fd) h)

Owns-valid : (fd : Fd) → Owns (valid fd) fd
Owns-valid none = tt
Owns-valid (some fd) = inl refl

pub IsOwned-open :
    (owned : List ℕ) (pe : PerfEventAttr) (fd : Fd) (events : List Event)
    → IsOwned (owned ++ valid fd) events
    → IsOwned owned (perf_event_open pe fd ∷ events)
IsOwned-open owned pe none events h = rw append-nil at h
IsOwned-open owned pe (some fd) events h = h

IsOwned-close :
    (fd : Fd) (owned : List ℕ) (events : List Event)
    → IsOwned owned events
    → IsOwned (valid fd ++ owned) (close_valid fd ++ events)
IsOwned-close none owned events h = h
IsOwned-close (some fd) owned events h = ([], owned, refl, h)

pub closes : List Fd → List Event
closes [] = []
closes (fd ∷ fds) = close_valid fd ++ closes fds

pub closes-IsOwned : (fds : List Fd) → IsOwned (valids fds) (closes fds)
unfolding closes
closes-IsOwned [] = refl
closes-IsOwned (fd ∷ fds) = IsOwned-close fd (valids fds) (closes fds) (closes-IsOwned fds)

pub destroy-closes : (h : BenchmarkHarness) → destroy h ≡ closes (descriptors h)
unfolding destroy closes
destroy-closes h = simp (append_assoc, append-nil)

pub Owns-valids :
    (fds : List Fd) (i : ℕ) {fd : Fd} → get_elem? fds i ≡ some fd → Owns (valids fds) fd
Owns-valids [] i h = cc
Owns-valids (fd ∷ fds) zero h =
    rw (← some-injective _ _ h) (Owns-left (valid fd) (valids fds) fd (Owns-valid fd))
Owns-valids (x ∷ fds) (suc i) {fd} h = Owns-right (valid x) (valids fds) fd (Owns-valids fds i h)
