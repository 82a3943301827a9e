-- ===== src/Double.antt =====
-- All that the program does with a `double`: decimal literals, the conversions from and to
-- `uint64_t`, and `+`, `*`, `/`; in the benchmarks also `-` and the square root.
mod Laws
mod Exact
pub mod Fixed
pub use Laws.*
pub use Exact.*
