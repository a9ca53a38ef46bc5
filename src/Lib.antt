-- ===== src/Lib.antt =====
-- The virtual machine of Nexus (the crate vm): a RISC-V machine with a Merkle memory that records
-- its trace for a prover; the builder of its step circuit; and parts of its prover (the crate nova):
-- R1CS and its folding, the RS shuffle, sparse matrices, and the buffers and tasks of the parallel
-- tree.
--
-- How the parts interact. `eval_inst` fetches a word from the memory controller, parses it,
-- executes it and retires it. A controller (the `Memory` trait) is a paged memory or a Merkle trie
-- of cache lines; it answers each access with a proof. A system call reads the registers and the
-- memory and changes the state of the calls. `trace` runs `eval_inst` and records blocks of steps;
-- a prover replays a block with `BlockIter`, which rebuilds a witness for every step.
-- `Memory.Lines` is what the accesses suppose of a controller: a map from addresses to lines; the
-- paged memory and the trie both fill it. In the prover, the levels of the shuffle split buckets by
-- bits that a sponge derives; the tasks of the heap publish the ids of the pool's blocks. An R1CS
-- shape holds three sparse matrices, as a CCS shape holds any number; its tests of satisfaction
-- multiply them with the input and the witness; folding combines two pairs of instance and witness
-- by a challenge that an oracle draws.
--
-- Files and code:
--   Base              helpers: tests, lists, 32-bit words, bit operations, the result type of
--                     vm/src/error.rs (Base/Result), and methods on `&mut self` that return a
--                     result (Base/Exec: the state is kept where they fail), association lists
--                     (Base/Assoc)
--   Rv32              vm/src/rv32.rs: instructions and their operands, `index_j`
--   Parse             vm/src/rv32/parse.rs: fields, immediates, `parse_u32`, `parse_inst`,
--                     `parse_buf`
--   Memory/CacheLine  vm/src/memory/cacheline.rs: the union as 32 bytes in little-endian order
--   Memory/Controller vm/src/memory.rs: the trait as a record, and its derived methods
--   Memory/Lines      a controller as a map of lines, and the array of bytes it is (Access)
--   Memory/Paged      vm/src/memory/paged.rs
--   Memory/Path       vm/src/memory/path.rs: hashing, `compute_zeros`, `Path::verify`
--   Memory/Trie       vm/src/memory/trie.rs
--   Syscalls          vm/src/syscalls.rs
--   Eval              vm/src/eval.rs: Alu (`add32` to `alu_op`), Machine (`NexusVM`, `Regs`),
--                     Profile (`handle_profile_cycles`), Step (`eval_inst`)
--   Trace             vm/src/trace.rs: Record (`step`, `k_step`, `trace`), Witness (`BlockIter`,
--                     `parse_alt`)
--   Machines          vm/src/machines.rs (the code in Code, the expected registers in Expected);
--                     Run: `eval` of vm/src/lib.rs
--   Shuffle           nova/src/shuffling/rs_shuffle: Bits (`derive_split_bits`, and
--                     `generate_random_values` of nova/src/shuffling/utils.rs), Level
--                     (`build_level`), Witness (`prepare_witness_data`,
--                     `apply_rs_shuffle_permutation`)
--   Pool              nova/src/parallel_tree/block_pool.rs; Steps: its operations as a relation
--   Sparse            nova/src/sparse.rs: `new`, `multiply_vec`
--   Tasks             nova/src/parallel_tree/task.rs: Leaf and Node (their atomic operations), Heap
--   R1cs              nova/src/r1cs/mod.rs: shapes, instances, witnesses; Satisfied (`new`,
--                     `is_satisfied`, `is_relaxed_satisfied`), Fold (`fold`, `commit_T` and their
--                     relaxed forms); Nifs: nova/src/folding/nova/nifs.rs
--   Ccs               nova/src/ccs/mod.rs: `CCSShape` and its tests (`is_satisfied`,
--                     `is_satisfied_linearized`), and `vec_to_mle` of nova/src/ccs/mle.rs; Fold: the
--                     instances of CCS, LCCS and ACCS and their folds; FromR1cs: a shape's system
--   Circuit           vm/src/circuit/r1cs.rs: the builder `R1CS` over dense rows, `is_sat`,
--                     `merge`; Gadget (`set_eq` to `nand`), Select (`member` to `store_reg`);
--                     Riscv: additions, subtractions and branches of vm/src/circuit/riscv.rs
-- The other files beside a component hold its theorems.
--
-- Numbers. A u32 is a natural number with its wrap-around written out; counters of type usize and
-- u64 do not wrap. The shuffle's u16 are natural numbers: they do not overflow with at most 2 ^ 14
-- rows in buckets below 2 ^ 15, and the deck has 52 rows in at most 32 buckets. A pool's ids are
-- taken modulo 2 ^ 32, and a heap's depth is one whose size fits. A panic is a result of its own:
-- an index out of range, an `unwrap` of nothing, a failed assertion, or an overflow of `+` on u32,
-- as in a build with overflow checks.
--
-- Fuel. `parse_buf` runs on fuel of one more than the buffer's length, which is enough, since each
-- turn takes four bytes. `trace` and `eval` take their fuel as an argument, since a machine need not
-- halt, and return none where it runs out. `split_by` has fuel for one chunk per block. The scan of
-- `is_free` has fuel for the length of the queue; `ilog2`, the digits of a decimal and the doublings
-- of `next_power_of_two` have fuel for the number itself.
--
-- Third-party code. The scalar field and the Poseidon hash of the commitments are a value of the
-- record `Commitments`. Theorems on them suppose, where they say so, that the equality of digests is
-- reflexive and that hashing does not fail on inputs of these lengths. The sponge of the shuffle, the
-- queue of free ids and the field of a sparse matrix are values of `Sponge`, `SegQueue` and `Field`;
-- the last two hold the laws that the theorems use. The field of an R1CS is a value of `Ring`, a
-- commutative ring with a test for equality; the commitments (nova/src/commitment.rs, over a curve)
-- are a value of `Commitment`, in which committing is linear; Spartan's dense polynomials and the
-- commitments to them are a value of `PolyScheme`, which has no laws; the oracle of a folding is a
-- value of `RandomOracle`, which answers a request for one element with at least one. In the step
-- circuit's builder the field's conversion from integers and its division are arguments.
--
-- Not modelled. The ELF loader and what `eval` prints (vm/src/lib.rs); of the step circuit
-- (vm/src/circuit) the other instructions' constraints, the parsing of the instruction and the
-- whole step of riscv.rs, and the arkworks side; the gadgets of the memory proofs; the folding
-- schemes of nova around its R1CS (cyclefold, HyperNova, the linearization and folding protocols of
-- ccs, the tree folding) and all its circuits, the workers of its parallel tree, the iterator of
-- sparse matrices; sponge absorption and display of an R1CS, and the shape of an arkworks
-- constraint system; Spartan (spartan), the Jolt adapter (jolt), the network, the SDK and the
-- command line; formatting and serialisation; `peephole` and `const_prop` of vm/src/eval.rs, which
-- nothing calls; `input` and `estimate_size` of vm/src/trace.rs. Writing to standard output appends
-- to a field and does not fail.
pub mod Base
pub mod Rv32
pub mod Parse
pub mod Memory
pub mod Syscalls
pub mod Eval
pub mod Trace
pub mod Machines
pub mod Shuffle
pub mod Pool
pub mod Sparse
pub mod Tasks
pub mod R1cs
pub mod Circuit
pub mod Ccs
pub mod Examples
