-- ===== src/Bench/Harness.antt =====
-- `class BenchmarkHarness` of bsv_script_bench/src/bench_harness.h and bench_harness.cpp: its members,
-- and the calls of the system by which it gets and returns its counters. A call of the system is an
-- event of a log, with the system's reply.
pub mod Measure
pub mod Descriptors
pub mod Owned
pub mod Results
mod Tests
use bsv_miner_op_code_calc.Common.{
  ℕ, String, Bool, true, false, ◌+◌, ◌*◌, ◌^◌, Option, none, some, List, [], ◌∷◌, ◌++◌,
  if◌then◌else◌,
}
use bsv_miner_op_code_calc.Bench.Job.{◌<>◌, to_string}

-- A file descriptor of an `int`: none is -1, which the system returns for a failed call.
abbrev pub Fd : Type 0
Fd = Option ℕ

pub record PerfEventAttr : Type 0 where
  pub type : ℕ
  pub config : ℕ
  pub disabled : Bool
  pub exclude_kernel : Bool
  pub exclude_hv : Bool

-- The values of <linux/perf_event.h>.
abbrev pub perf_type_hardware : ℕ
perf_type_hardware = 0

abbrev pub perf_type_hw_cache : ℕ
perf_type_hw_cache = 3

pub data Request : Type 0 where
  reset enable disable : Request

pub data Event : Type 0 where
  sched_setaffinity : ℕ → Bool → Event
  perf_event_open : PerfEventAttr → Fd → Event
  ioctl : Request → Fd → Event
  read : Fd → Option ℕ → Event
  close : ℕ → Event
  serialize mfence operation : Event
  rdtsc : ℕ → Event
  warning : String → Event

pub record BenchmarkHarness : Type 0 where
  pub perf_fd_cycles : Fd
  pub perf_fd_instructions : Fd
  pub perf_fd_l1d_misses : Fd
  pub perf_fd_llc_misses : Fd
  pub perf_fd_branch_misses : Fd
  pub perf_counters_enabled : Bool
  pub pinned_cpu : Option ℕ

-- The constructor.
abbrev pub new_harness : BenchmarkHarness
new_harness = record {
  perf_fd_cycles = none;
  perf_fd_instructions = none;
  perf_fd_l1d_misses = none;
  perf_fd_llc_misses = none;
  perf_fd_branch_misses = none;
  perf_counters_enabled = false;
  pinned_cpu = none;
}

-- What the system replies.
pub record Kernel : Type 0 where
  pub opens : PerfEventAttr → Fd
  pub pins : ℕ → Bool

abbrev pub is_valid : Fd → Bool
is_valid none = false
is_valid (some fd) = true

-- The five settings of `pe`.
abbrev pub counter_attr : ℕ → ℕ → PerfEventAttr
counter_attr type config = record {
  type = type;
  config = config;
  disabled = true;
  exclude_kernel = true;
  exclude_hv = true;
}

abbrev pub cycles_attr : PerfEventAttr
cycles_attr = counter_attr perf_type_hardware 0

abbrev pub instructions_attr : PerfEventAttr
instructions_attr = counter_attr perf_type_hardware 1

abbrev pub l1d_attr : PerfEventAttr
l1d_attr = counter_attr perf_type_hardware 3

abbrev pub llc_attr : PerfEventAttr
llc_attr = counter_attr perf_type_hw_cache (2 + 0 * 2 ^ 8 + 1 * 2 ^ 16)

abbrev pub branch_attr : PerfEventAttr
branch_attr = counter_attr perf_type_hardware 5

module _ (kernel : Kernel) where
  unfoldable pub pin_to_cpu : ℕ → List Event
  pin_to_cpu cpu_core =
      let call = sched_setaffinity cpu_core (kernel.pins cpu_core) in
      let complaint = warning ("Warning: Failed to pin to CPU " <> to_string cpu_core <> "\n") in
      if kernel.pins cpu_core then call ∷ [] else call ∷ complaint ∷ []

  -- `perf_event_open(&pe, 0, -1, -1, 0)`.
  abbrev pub open_counter : PerfEventAttr → Event
  open_counter pe = perf_event_open pe (kernel.opens pe)

  abbrev pub pinned : Option ℕ → List Event
  pinned none = []
  pinned (some cpu_core) = pin_to_cpu cpu_core

  abbrev pub pinned_to : Option ℕ → Option ℕ → Option ℕ
  pinned_to none before = before
  pinned_to (some cpu_core) before = some cpu_core

  -- A negative `cpu_core` is none.
  unfoldable pub initialize : Option ℕ → BenchmarkHarness → BenchmarkHarness × List Event
  unfolding pin_to_cpu
  initialize cpu_core h =
      let enabled = is_valid (kernel.opens cycles_attr) in
      let complaint =
        warning "Warning: Performance counters not available. Running with rdtsc only.\n" in
      (
        record {
          perf_fd_cycles = kernel.opens cycles_attr;
          perf_fd_instructions = kernel.opens instructions_attr;
          perf_fd_l1d_misses = kernel.opens l1d_attr;
          perf_fd_llc_misses = kernel.opens llc_attr;
          perf_fd_branch_misses = kernel.opens branch_attr;
          perf_counters_enabled = enabled;
          pinned_cpu = pinned_to cpu_core h.pinned_cpu;
        },
        pinned cpu_core
            ++ open_counter cycles_attr
              ∷ open_counter instructions_attr
              ∷ open_counter l1d_attr
              ∷ open_counter llc_attr
              ∷ open_counter branch_attr
              ∷ (if enabled then [] else complaint ∷ []),
      )

abbrev pub close_valid : Fd → List Event
close_valid none = []
close_valid (some fd) = close fd ∷ []

-- The destructor.
unfoldable pub destroy : BenchmarkHarness → List Event
destroy h =
    close_valid h.perf_fd_cycles
    ++ close_valid h.perf_fd_instructions
    ++ close_valid h.perf_fd_l1d_misses
    ++ close_valid h.perf_fd_llc_misses
    ++ close_valid h.perf_fd_branch_misses
