-- ===== src/Optimize/Pass.antt =====
-- backend/src/optimize.rs: the pass over a block.
use tcg_rs.Base.{
  ℕ, zero, suc, ◌+◌, Bool, true, false, List, [], ◌∷◌, map, none, some, ◌||◌, if◌then◌else◌,
}
use tcg_rs.Temp.{Temp, is_const}
use tcg_rs.Opcode.{Opcode}
use tcg_rs.OpFlags.{contains, side_effects, vector}
use tcg_rs.OpTable.{def}
use tcg_rs.Op.{Op, Args, set_arg}
use tcg_rs.Context.{Context}
use tcg_rs.Optimize.{TempInfo, default_info, Info, resolve_copy, reset_copies, invalidate_outputs}
use tcg_rs.Optimize.Fold.{Folding, fold_mov, fold_unary, fold_ext, fold_binary, fold_brcond}

-- The opcodes that end a basic block in the pass.
unfoldable pub is_boundary : Opcode → Bool
is_boundary Opcode.set_label = true
is_boundary Opcode.br = true
is_boundary Opcode.exit_tb = true
is_boundary Opcode.goto_tb = true
is_boundary Opcode.goto_ptr = true
is_boundary Opcode.call = true
is_boundary _ = false

abbrev is_passive : Opcode → Bool
is_passive Opcode.nop = true
is_passive Opcode.insn_start = true
is_passive Opcode.discard = true
is_passive _ = false

unfoldable pub is_skipped : Opcode → Bool
is_skipped opc =
    contains (def opc).flags side_effects || contains (def opc).flags vector || is_passive opc

-- The copy source of an argument, or the argument.
unfoldable pub source_of : Info → ℕ → ℕ
source_of info t = elim (resolve_copy info t) [ none ↦ t | some s ↦ s ]

-- Replaces the `n` input slots from slot `i` on; `old` are the arguments as they were read.
unfoldable pub propagate : Info → Args → ℕ → ℕ → Args → Args
unfolding source_of
propagate info old i zero args = args
propagate info old i (suc n) args =
    propagate info old (i + 1) n (set_arg args i (source_of info (old i)))

-- The outputs are forgotten and the operation stays.
unfoldable pub forget_outputs : Folding → Folding
forget_outputs s = record s {
  info = invalidate_outputs s.ctx.temps s.op.args 0 (def s.op.opc).nb_oargs s.info;
}

-- The match on the opcode.
unfoldable pub fold_op : Opcode → Folding → Folding
fold_op Opcode.mov s = fold_mov s
fold_op Opcode.neg s = fold_unary s
fold_op Opcode.not s = fold_unary s
fold_op Opcode.ext_i32_i64 s = fold_ext s
fold_op Opcode.ext_ui32_i64 s = fold_ext s
fold_op Opcode.extrl_i64_i32 s = fold_ext s
fold_op Opcode.extrh_i64_i32 s = fold_ext s
fold_op Opcode.add s = fold_binary s
fold_op Opcode.sub s = fold_binary s
fold_op Opcode.mul s = fold_binary s
fold_op Opcode.and s = fold_binary s
fold_op Opcode.or s = fold_binary s
fold_op Opcode.xor s = fold_binary s
fold_op Opcode.and_c s = fold_binary s
fold_op Opcode.shl s = fold_binary s
fold_op Opcode.shr s = fold_binary s
fold_op Opcode.sar s = fold_binary s
fold_op Opcode.rot_l s = fold_binary s
fold_op Opcode.rot_r s = fold_binary s
fold_op Opcode.br_cond s = fold_brcond s
fold_op _ s = forget_outputs s

-- The input slots after copy propagation.
unfoldable pub propagated : Folding → Folding
unfolding propagate
propagated s =
    let d = def s.op.opc in
    record s {
      op = record s.op { args = propagate s.info s.op.args d.nb_oargs d.nb_iargs s.op.args };
    }

-- The body of the loop.
unfoldable pub optimize_op : Folding → Folding
optimize_op s =
    if is_boundary s.op.opc
    then (let s' = forget_outputs s in record s' { info = reset_copies s'.info })
    else (if is_skipped s.op.opc then forget_outputs s else fold_op s.op.opc (propagated s))

-- The loop over the operations from here on: the context and the operations as they become.
unfoldable pub optimize_ops : Context → Info → List Op → Context × List Op
optimize_ops ctx info [] = (ctx, [])
optimize_ops ctx info (op ∷ ops) =
    let s = optimize_op (record { ctx = ctx; info = info; op = op }) in
    let (ctx', ops') = optimize_ops s.ctx s.info ops in (ctx', s.op ∷ ops')

-- The entry that a temporary starts with.
unfoldable pub seed : Temp → TempInfo
seed t =
    if is_const t then record { is_const = true; val = t.val; copy_of = none } else default_info

unfoldable pub optimize : Context → Context
unfolding seed
optimize ctx =
    let (ctx', ops') = optimize_ops ctx (map seed ctx.temps) ctx.ops in record ctx' { ops = ops' }
