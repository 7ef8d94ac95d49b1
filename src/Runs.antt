-- ===== src/Runs.antt =====
-- Runs of the optimizer's definitions on blocks outside the theorems' conditions.
use tcg_rs.Base.{ℕ, ◌≡◌, refl, List, [], ◌∷◌, true, false}
use tcg_rs.IrType.{IrType}
use tcg_rs.Cond.{Cond}
use tcg_rs.Temp
use tcg_rs.Temp.{TempIdx}
use tcg_rs.Opcode.{Opcode}
use tcg_rs.OpTable.{def}
use tcg_rs.Op.{Op, with_args}
use tcg_rs.Context.{Context, new_context, new_const}
use tcg_rs.Semantics.{Machine, Outcome, goes, next, run, step, step_as, compute, pure, write, holds}
use tcg_rs.OpFlags.{contains}
use tcg_rs.Optimize.{ti, resolve_copy, set_copy, set_const}
use tcg_rs.Optimize.Eval.{eval_cond, eval_binary}
use tcg_rs.Optimize.Fold.{fold_mov, fold_binary, replace_with_const}
use tcg_rs.Optimize.Pass.{
  optimize, optimize_ops, optimize_op, is_boundary, is_skipped, propagated, fold_op,
}

abbrev machine : Machine
machine = record { Mem = Unit; exec = λ o ty p q ins consts mem. goes [] mem }

-- A signed comparison of -1 with 0 at 32 bits is decided on the zero-extended words.
signed_at_32 :
    (eval_cond 0xFFFF_FFFF 0 Cond.lt IrType.i32 ≡ false) × (holds 32 Cond.lt 0xFFFF_FFFF 0 ≡ true)
unfolding eval_cond holds
signed_at_32 = (refl, refl)

-- `mov t1, t0; mov t0, 5; add t2, t1, t1`, whose second move overwrites the source of the first.
abbrev overwriting : List Op
overwriting =
    with_args 0 Opcode.mov IrType.i64 (1 ∷ 0 ∷ [])
    ∷ with_args 1 Opcode.mov IrType.i64 (0 ∷ 3 ∷ [])
    ∷ with_args 2 Opcode.add IrType.i64 (2 ∷ 1 ∷ 1 ∷ [])
    ∷ []

abbrev overwritten : Context
overwritten = record new_context {
  temps =
      Temp.new_ebb 0 IrType.i64
      ∷ Temp.new_ebb 1 IrType.i64
      ∷ Temp.new_ebb 2 IrType.i64
      ∷ Temp.new_const 3 IrType.i64 5
      ∷ [];
  ops = overwriting;
}

abbrev value_of : TempIdx → Outcome machine.Mem → ℕ
value_of t (next st) = st.env t
value_of t _ = 0

-- From t0 = 7 the block computes 14, and the optimized block 10.
overwritten_source :
    (value_of 2 (run machine overwritten.temps overwriting (record { env = λ t. 7; mem = tt }))
      ≡ 14)
    × (value_of 2 (
          run machine
            (optimize overwritten).temps
            (optimize overwritten).ops
            (record { env = λ t. 7; mem = tt }))
        ≡ 10)
unfolding run step step_as compute pure write def with_args new_context optimize optimize_ops
    optimize_op is_boundary is_skipped propagated fold_op fold_mov fold_binary contains ti
    resolve_copy set_copy set_const eval_binary replace_with_const new_const Temp.new_ebb
    Temp.new_const
overwritten_source = (refl, refl)
