-- ===== src/Bench/Harness/Owned.antt =====
-- The descriptors of `class BenchmarkHarness` of bsv_script_bench/src/bench_harness.cpp, over its whole
-- life: the constructor, `initialize`, rounds of benchmarks, and the destructor.
use mathlib.Core.List.{append_assoc, append-nil}
use bsv_miner_op_code_calc.Common.{
  get_elem?, ℕ, String, Bool, true, false, ◌≡◌, inl, inr, refl, Option, none, some, Bool-cases,
  if◌then◌else◌, List, [], ◌∷◌, ◌++◌,
}
use bsv_miner_op_code_calc.Bench.Harness.{
  Fd, Request, Event, serialize, mfence, operation, rdtsc, warning, BenchmarkHarness, cycles_attr,
  instructions_attr, l1d_attr, llc_attr, branch_attr, new_harness, Kernel, pin_to_cpu, pinned,
  initialize, is_valid, destroy,
}
use bsv_miner_op_code_calc.Bench.Harness.Measure.{Reading, control, reads, round_log}
use bsv_miner_op_code_calc.Bench.Harness.Descriptors.{
  IsOwned, Owns, valid, descriptors, valids, IsOwned-open, closes-IsOwned, destroy-closes,
  Owns-valids,
}

-- The calls of the system in the rounds of some benchmarks.
unfoldable pub benchmarks_log : BenchmarkHarness → List Reading → List Event
benchmarks_log h [] = []
benchmarks_log h (r ∷ readings) = round_log h r ++ benchmarks_log h readings

-- A harness from its constructor to its destructor, initialized once.
unfoldable pub whole_life : Kernel → Option ℕ → List Reading → List Event
unfolding initialize
whole_life kernel cpu_core readings =
    let (h, calls) = initialize kernel cpu_core new_harness in
    calls ++ benchmarks_log h readings ++ destroy h

module _ (h : BenchmarkHarness) where
  abbrev pub all_owned : List ℕ
  all_owned = valids (descriptors h)

  Owns-each :
      Owns all_owned h.perf_fd_cycles
      × Owns all_owned h.perf_fd_instructions
      × Owns all_owned h.perf_fd_l1d_misses
      × Owns all_owned h.perf_fd_llc_misses
      × Owns all_owned h.perf_fd_branch_misses
  Owns-each =
      let own = λ (i : ℕ) (fd : Fd) (e : get_elem? (descriptors h) i ≡ some fd).
        Owns-valids (descriptors h) i e in
      (own 0 _ refl, own 1 _ refl, own 2 _ refl, own 3 _ refl, own 4 _ refl)

  control-IsOwned :
      (request : Request) (events : List Event)
      → IsOwned all_owned events
      → IsOwned all_owned (control h request ++ events)
  unfolding control
  control-IsOwned request events rest =
      let (a, b, c, d, e) = Owns-each in (a, (b, (c, (d, (e, rest)))))

  reads-IsOwned :
      (r : Reading) (events : List Event)
      → IsOwned all_owned events
      → IsOwned all_owned (reads h r ++ events)
  unfolding reads
  reads-IsOwned r events rest = let (_, b, c, d, e) = Owns-each in (b, (c, (d, (e, rest))))

  pub round-IsOwned :
      (r : Reading) (events : List Event)
      → IsOwned all_owned events
      → IsOwned all_owned (round_log h r ++ events)
  unfolding round_log control reads
  round-IsOwned r events rest =
      let disabled = control h Request.disable ++ (reads h r ++ events) in
      let timed =
        serialize
        ∷ rdtsc r.start
        ∷ mfence
        ∷ operation
        ∷ mfence
        ∷ rdtsc r.end
        ∷ serialize
        ∷ disabled in
      let enabled = control h Request.enable ++ timed in
      elim (Bool-cases h.perf_counters_enabled) [
        | inl on ↦ rw on (
            control-IsOwned Request.reset enabled (
              control-IsOwned Request.enable timed (
                control-IsOwned Request.disable (reads h r ++ events)
                  (reads-IsOwned r events rest))))
        | inr off ↦ rw off rest
      ]

  benchmarks-IsOwned :
      (readings : List Reading) (events : List Event)
      → IsOwned all_owned events
      → IsOwned all_owned (benchmarks_log h readings ++ events)
  unfolding benchmarks_log
  benchmarks-IsOwned [] events rest = rest
  benchmarks-IsOwned (r ∷ readings) events rest =
      rw (append_assoc (round_log h r) (benchmarks_log h readings) events) (
        round-IsOwned r (benchmarks_log h readings ++ events)
          (benchmarks-IsOwned readings events rest))

five_appends :
    (a b c d e : List ℕ) → (((([] ++ a) ++ b) ++ c) ++ d) ++ e ≡ a ++ (b ++ (c ++ (d ++ (e ++ []))))
five_appends a b c d e = simp (append_assoc, append-nil)

pinned-IsOwned :
    (kernel : Kernel) (cpu_core : Option ℕ) (events : List Event)
    → IsOwned [] events
    → IsOwned [] (pinned kernel cpu_core ++ events)
unfolding pin_to_cpu
pinned-IsOwned kernel none events h = h
pinned-IsOwned kernel (some cpu_core) events h = elim (Bool-cases (kernel.pins cpu_core)) [
  | inl done ↦ rw done h
  | inr failed ↦ rw failed h
]

complaint-IsOwned :
    (test : Bool) (text : String) (owned : List ℕ) (events : List Event)
    → IsOwned owned events
    → IsOwned owned ((if test then [] else warning text ∷ []) ++ events)
complaint-IsOwned true text owned events h = h
complaint-IsOwned false text owned events h = h

abbrev unavailable : String
unavailable = "Warning: Performance counters not available. Running with rdtsc only.\n"

pub initialize-IsOwned :
    (kernel : Kernel) (cpu_core : Option ℕ) (h : BenchmarkHarness) (events : List Event)
    → IsOwned (valids (descriptors (initialize kernel cpu_core h).0)) events
    → IsOwned [] ((initialize kernel cpu_core h).1 ++ events)
unfolding initialize
initialize-IsOwned kernel cpu_core h events rest =
    let a = kernel.opens cycles_attr in
    let b = kernel.opens instructions_attr in
    let c = kernel.opens l1d_attr in
    let d = kernel.opens llc_attr in
    let e = kernel.opens branch_attr in
    let all = five_appends (valid a) (valid b) (valid c) (valid d) (valid e) in
    let complaint =
      complaint-IsOwned (is_valid a) unavailable
        (valids (descriptors (initialize kernel cpu_core h).0)) events rest in
    let last = (if is_valid a then [] else warning unavailable ∷ []) ++ events in
    rw (append_assoc (pinned kernel cpu_core) _ events) (
      pinned-IsOwned kernel cpu_core _ (
        IsOwned-open [] cycles_attr a _ (
          IsOwned-open ([] ++ valid a) instructions_attr b _ (
            IsOwned-open (([] ++ valid a) ++ valid b) l1d_attr c _ (
              IsOwned-open ((([] ++ valid a) ++ valid b) ++ valid c) llc_attr d _ (
                IsOwned-open (((([] ++ valid a) ++ valid b) ++ valid c) ++ valid d) branch_attr e
                  last (rw all complaint)))))))

pub destroy-IsOwned : (h : BenchmarkHarness) → IsOwned (all_owned h) (destroy h)
destroy-IsOwned h = rw (destroy-closes h) (closes-IsOwned (descriptors h))

-- Over the whole life of a harness that is initialized once, every call on a descriptor is on one that
-- is open or on -1, every descriptor that the system gave is closed once, and no other is.
pub whole_life-IsOwned :
    (kernel : Kernel) (cpu_core : Option ℕ) (readings : List Reading)
    → IsOwned [] (whole_life kernel cpu_core readings)
unfolding whole_life
whole_life-IsOwned kernel cpu_core readings =
    let h = (initialize kernel cpu_core new_harness).0 in
    let last : IsOwned (all_owned h) (destroy h) =
      rw (destroy-closes h) (closes-IsOwned (descriptors h)) in
    rw
      (append_assoc (initialize kernel cpu_core new_harness).1 (benchmarks_log h readings)
        (destroy h))
      (initialize-IsOwned kernel cpu_core new_harness (benchmarks_log h readings ++ destroy h)
        (benchmarks-IsOwned h readings (destroy h) last))
