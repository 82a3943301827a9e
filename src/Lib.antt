-- ===== src/Lib.antt =====
-- A verification library for the two programs of this repository: libbsv_cost_estimator, which
-- estimates the cycles and the memory that a Bitcoin SV script takes, and bsv_script_bench, whose
-- measurements its cost models are made from.
--
-- The estimator reads a cost model, then walks over the unlocking and the locking script as one list
-- of bytes. It keeps the sizes of the stack's items, never their contents, and adds up the price of
-- each opcode at the sizes that it meets. Its modules, under libbsv_cost_estimator/:
--   OpCode    `enum class OpCode` of include/bsv/cost_estimator.h.
--   Tx        `Transaction::serialize_size` and `calculate_sighash_size` of src/cost_estimator.cpp, with
--             the structures of the header. A read outside the inputs is the fault `out_of_bounds`.
--   Double    what the code uses of `double`: a record of operations that the definitions take as an
--             instance, the order and its laws as hypotheses, and decimals that satisfy them. Exact has
--             what the benchmarks use in addition, and what IEEE 754 says of whole numbers below 2^53.
--   Model     `OpcodeCostModel`, the members of `CostEstimator::Impl`, `calculate_opcode_cost`; Load
--             has `load_model`, with the files and the JSON parser as parameters.
--   Estimate  `CostEstimator::Impl::estimate`: Machine has the structures and the local variables,
--             Execute the `switch`, Loop the loop and the public functions.
--   Program   what an estimate means. A script is decoded to instructions; Program.antt gives each its
--             effect on the stack of sizes and its price, Run the run under the limits. Refine shows that
--             the loop, with its program counter, does this; the other children follow one output each,
--             and Outcome gathers them.
--   Example   the program examples/estimate_tx.cpp, with the text that it prints and its status;
--             Reading and ReadBack have how that text is read.
-- A vector that is used as a stack is the list of its elements from the back. Members of type uint64_t
-- and uint32_t are numbers with the wrap-around written out. A `double` that is converted to a word
-- outside its range is undefined in the language; the operation of the record stands for the result.
--
-- The loop has fuel: one round for each byte of the combined script, which is enough since a round that
-- goes on moves the program counter on. Scripts are shorter than 2^63 bytes, below any address space, so
-- that the program counter does not wrap.
--
-- The benchmark programs, under bsv_script_bench/src/:
--   Bench/Exception  what the operations throw.
--   Bench/Job        the arguments of a call of `BenchmarkHarness::benchmark` of bench_harness.h, and the
--                    runs of its operation.
--   Bench/Stats      `calculate_stats` of bench_harness.cpp.
--   Bench/Harness    `class BenchmarkHarness`: its members, its constructor, `initialize` and destructor;
--                    Measure has `benchmark`, Results what it returns, and Descriptors and Owned which
--                    descriptors are open. Each call of the system is an event of a log, with the
--                    reply, which is a parameter, as are the readings of the clock and the counters.
--   Bench/Stack      `class SimpleStack` of bench_stack_ops.cpp; Jobs has the benchmarks of that file.
--   Bench/Bytes      `op_cat`, `op_split`, `op_num2bin` and `op_bin2num` of bench_byte_ops.cpp, with the
--                    bits as arithmetic in Bench/Bits. An int64_t is its pattern of 64 bits, and both loops
--                    have eight rounds of fuel, as many as their bound. Jobs has the benchmarks of that
--                    file, Split that of OP_SPLIT, whose positions are products of doubles.
--   Bench/Hash       the operations of bench_hash_ops.cpp, with OpenSSL as a parameter; Fit has
--                    `analyze_hash_linearity`.
--   Bench/Export     the text that `export_csv` and `export_json` write; Cells, Rows and Numbers
--                    have how a table is read.
--   Bench/Main       the `main` of the three programs; Analysis has what that of the hashes analyzes.
--
-- Not modelled: what the benchmarks print, files, and the placeholder programs, which have no behaviour
-- but calls of the system; what the system does with its counters and its processors; OpenSSL and the
-- JSON parser, which are not in the repository. PROJECT.json lists each part.
pub mod Common
pub mod Double
pub mod Tx
pub mod OpCode
pub mod Model
pub mod Estimate
pub mod Program
pub mod Bench
pub mod Example
