-- ===== src/Lib.antt =====
-- tcg-rs is a binary translator: a frontend turns guest instructions into operations of an
-- intermediate representation (IR), the backend optimizes them, allocates registers and emits host
-- code, and an execution loop runs the blocks. This library models the data of the IR, the
-- translation context with the builder of operations, the optimizer, the store of translated blocks
-- and the execution loop. It proves that the optimizer keeps what a block does, and that the loop runs
-- only valid blocks for where the guest is.
--
-- - Base: the names that the modules share; lists measured by native numbers, Boolean tests, bit
--   operations, and the fixed-width arithmetic of Rust on numbers (Words, Shifts).
-- - Opcode, OpFlags, OpTable (core/src/opcode.rs): the opcodes, their numbers, the flags, and the
--   table OPCODE_DEFS with its lookup `Opcode::def`.
-- - IrType, Cond, RegSet, MemOp (core/src/types.rs): types, value locations, conditions, sets of
--   registers and memory accesses. The type is called IrType here, and `cond as u8` is `encode`.
-- - Temp (core/src/temp.rs), Op (core/src/op.rs), Label (core/src/label.rs): temporaries,
--   operations with their ten argument slots, and labels. The slots are a function from the slot's
--   number; names for debugging are left out.
-- - Context (core/src/context.rs): the translation context. A method that changes the context gives
--   the new one; an assertion that fails gives `none`. A map of constants is an association list.
-- - IrBuilder (core/src/ir_builder.rs): the methods `gen_*`, in the children by their kind; Calls and
--   Perform speak of sequences of calls.
-- - Tb (core/src/tb.rs): translated blocks, exit values and the jump cache of a CPU.
-- - TbStore (exec/src/tb_store.rs): the blocks, the hash table, whose chains are links in the blocks,
--   and the edges between blocks with patched jumps. `get_mut` and a lock are the function `write`. The
--   children View, Chain, Relink, Links and Patches hold what the proofs say of chains, of recorded
--   edges and of the host jumps patched back, and Splice, Remove, Unlink, Cut, Mark the steps of
--   `invalidate`. As in the source, the host jumps out of an invalidated block stay patched.
--   `patch_jump` of the backend is a parameter (Host); in Leads it is assumed to lead the jump at its
--   offset to the target and to leave jumps that do not overlap it (IsJumpCode). Its assertion that the
--   target is within reach of the jump is not modelled.
-- - ExecLoop (exec/src/exec_loop.rs, exec/src/lib.rs): `tb_find`, `tb_gen_code`, `tb_add_jump` and the
--   loop. SharedState, PerCpuState and the CPU are one record, Env. The guest CPU (`GuestCpu`), the
--   code buffer, `translate` and the run of host code are the fields of ExecLoop.Machine; of these it
--   is assumed that `gen_code` does not move the guest (IsMachine) and, where a theorem says so, that
--   host code comes back from a block of the store (IsExitKnown).
-- - Optimize (backend/src/optimize.rs): the table of what is known of each temporary; in its
--   children the evaluation of constants (Eval), the arms of `try_simplify` (Rules), the functions
--   `fold_*` (Fold) and the loop `optimize` (Pass). A function of the source that changes the context,
--   the table and one operation takes and gives these three as a Folding.
-- - Liveness (backend/src/liveness.rs): the backward pass. `temp_state` is a function from the
--   temporary's number; Liveness.Needed defines what is needed later, to which Walk holds it.
-- - Semantics: what an operation does, which the source leaves to the emitted host code. It follows
--   docs/ir-ops.md. Memory, calls, exits and vector operations are a parameter, a Machine, of which
--   nothing is assumed; a value that an operation writes is read back at the type of its temporary.
-- - Optimize.Block says what the theorems ask of a block, Optimize.Sound and its children prove that
--   each step keeps the meaning and the facts.
-- - Samples, ContextSamples, TypeSamples, IrSamples, StoreSamples and LoopSamples hold the theorems at
--   concrete inputs. Runs shows two blocks outside the theorems' conditions: a signed comparison at 32
--   bits, and an overwritten source of a copy.
--
-- The pass of the optimizer is a recursion on the list of operations. A walk along a chain of the hash
-- table is on fuel, of which the number of blocks is enough: the chain descends. The execution loop is
-- on a number of iterations, since guest code need not end. One thread is modelled. A u64 is a number below
-- 2 ^ 64 and an index is a number; the offsets of the frame do not become negative.
--
-- A block is run from its first operation until it goes on, jumps to a label or exits. A jump from
-- elsewhere to a label inside the block is not modelled: there the pass would need to forget the
-- constants that it keeps at a label. The optimizer does not drop the copies of a temporary that a
-- folded operation overwrites, so that the theorem on the pass asks for blocks without that.
-- It decides a signed comparison at i32 on zero-extended words, so that the theorem leaves out a
-- br_cond with a signed condition at i32. The liveness pass is held to what is needed in the textual
-- order of the operations, which is the order that it walks; taken jumps are not followed.
--
-- Not modelled: dump and serialisation (core/src), register constraints and
-- allocation, the code buffer and the x86-64 emitter (backend), the decoder, the RISC-V
-- frontend, the disassembler, the user-mode emulation of Linux and the tools. They are left for later;
-- the disassembler, dump and the tools print text for people.
pub mod Base
pub mod Opcode
pub mod OpFlags
pub mod OpTable
pub mod IrType
pub mod Cond
pub mod RegSet
pub mod MemOp
pub mod Temp
pub mod Op
pub mod Label
pub mod Context
pub mod Tb
pub mod TbStore
pub mod ExecLoop
pub mod IrBuilder
pub mod Optimize
pub mod Liveness
pub mod Semantics
mod Samples
mod ContextSamples
mod Runs
mod StoreSamples
mod LoopSamples
mod IrSamples
mod TypeSamples
