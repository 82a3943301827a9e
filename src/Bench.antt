-- ===== src/Bench.antt =====
-- The operations that bsv_script_bench/src measures.
pub mod Exception
pub mod Job
pub mod Stack
mod Bits
pub mod Bytes
pub mod Stats
pub mod Harness
pub mod Export
pub mod Hash
pub mod Main
