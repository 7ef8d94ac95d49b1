-- ===== src/Optimize/Sound/Grows.antt =====
-- backend/src/optimize.rs: the pass adds constants to the context and changes no temporary.
use tcg_rs.Base.{ℕ, List, [], ◌∷◌, bit_and, ◌&&◌, Bool-cases, Option-cases, inl, inr}
use tcg_rs.IrType.{IrType}
use tcg_rs.Temp.{TempIdx}
use tcg_rs.Opcode.{Opcode}
use tcg_rs.Op.{Op}
use tcg_rs.Context.{Context}
use tcg_rs.Context.Consts.{AddsConsts, AddsConsts-refl, AddsConsts-trans, new_const-AddsConsts}
use tcg_rs.Optimize.{Info, ti}
use tcg_rs.Optimize.Eval.{type_mask, eval_cond, cond_from_carg}
use tcg_rs.Optimize.Rules.{Rule}
use tcg_rs.Optimize.Fold.{
  Folding, replace_with_const, fold_mov, fold_unary, fold_ext, fold_binary, fold_brcond, apply_rule,
  replace_with_mov, unary_value, ext_value, binary_rule,
}
use tcg_rs.Optimize.Pass.{
  is_boundary, is_skipped, forget_outputs, fold_op, propagated, optimize_op, optimize_ops,
}

abbrev Grown : Folding → Folding → Type 0
Grown s r = AddsConsts s.ctx.temps r.ctx.temps

replace_with_const-Grown :
    (s : Folding) (d : TempIdx) (v : ℕ) (ty : IrType) → Grown s (replace_with_const s d v ty)
unfolding replace_with_const
replace_with_const-Grown s d v ty = new_const-AddsConsts s.ctx ty (bit_and v (type_mask ty))

apply_rule-Grown : (s : Folding) (r : Rule) → Grown s (apply_rule s r)
unfolding apply_rule replace_with_mov
apply_rule-Grown s (Rule.to_mov x) = AddsConsts-refl s.ctx.temps
apply_rule-Grown s (Rule.to_const v) = replace_with_const-Grown s _ v _
apply_rule-Grown s (Rule.to_neg x) = AddsConsts-refl s.ctx.temps

fold_unary-Grown : (s : Folding) → Grown s (fold_unary s)
unfolding fold_unary
fold_unary-Grown s =
    let x = ti s.info (s.op.args 1) in
    elim (Bool-cases x.is_const) [
      | inr e ↦ rw e (AddsConsts-refl s.ctx.temps)
      | inl e ↦ elim (Option-cases (unary_value s.op.opc x.val s.op.op_type)) [
        | inl q ↦ rw (e, q) (AddsConsts-refl s.ctx.temps)
        | inr (v, q) ↦ rw (e, q) (replace_with_const-Grown s (s.op.args 0) v s.op.op_type)
      ]
    ]

fold_ext-Grown : (s : Folding) → Grown s (fold_ext s)
unfolding fold_ext
fold_ext-Grown s =
    let x = ti s.info (s.op.args 1) in
    elim (Bool-cases x.is_const) [
      | inr e ↦ rw e (AddsConsts-refl s.ctx.temps)
      | inl e ↦ elim (Option-cases (ext_value s.op.opc x.val)) [
        | inl q ↦ rw (e, q) (AddsConsts-refl s.ctx.temps)
        | inr ((v, out), q) ↦ rw (e, q) (replace_with_const-Grown s (s.op.args 0) v out)
      ]
    ]

fold_binary-Grown : (s : Folding) → Grown s (fold_binary s)
unfolding fold_binary
fold_binary-Grown s =
    let x = ti s.info (s.op.args 1) in
    let y = ti s.info (s.op.args 2) in
    elim (Option-cases (binary_rule s.op.opc s.op.op_type (s.op.args 1) (s.op.args 2) x y)) [
      | inl q ↦ rw (q, fold_binary) (AddsConsts-refl s.ctx.temps)
      | inr (r, q) ↦ rw (q, fold_binary) (apply_rule-Grown s r)
    ]

fold_brcond-Grown : (s : Folding) → Grown s (fold_brcond s)
unfolding fold_brcond
fold_brcond-Grown s =
    let x = ti s.info (s.op.args 0) in
    let y = ti s.info (s.op.args 1) in
    elim (Bool-cases (x.is_const && y.is_const)) [
      | inr e ↦ rw e (AddsConsts-refl s.ctx.temps)
      | inl e ↦
          elim (Bool-cases (eval_cond x.val y.val (cond_from_carg (s.op.args 2)) s.op.op_type)) [
            | inl f ↦ rw (e, f) (AddsConsts-refl s.ctx.temps)
            | inr f ↦ rw (e, f) (AddsConsts-refl s.ctx.temps)
          ]
    ]

fold_op-Grown : (o : Opcode) (s : Folding) → Grown s (fold_op o s)
unfolding fold_op fold_mov forget_outputs
fold_op-Grown Opcode.mov s = AddsConsts-refl s.ctx.temps
fold_op-Grown Opcode.neg s = fold_unary-Grown s
fold_op-Grown Opcode.not s = fold_unary-Grown s
fold_op-Grown Opcode.ext_i32_i64 s = fold_ext-Grown s
fold_op-Grown Opcode.ext_ui32_i64 s = fold_ext-Grown s
fold_op-Grown Opcode.extrl_i64_i32 s = fold_ext-Grown s
fold_op-Grown Opcode.extrh_i64_i32 s = fold_ext-Grown s
fold_op-Grown Opcode.add s = fold_binary-Grown s
fold_op-Grown Opcode.sub s = fold_binary-Grown s
fold_op-Grown Opcode.mul s = fold_binary-Grown s
fold_op-Grown Opcode.and s = fold_binary-Grown s
fold_op-Grown Opcode.or s = fold_binary-Grown s
fold_op-Grown Opcode.xor s = fold_binary-Grown s
fold_op-Grown Opcode.and_c s = fold_binary-Grown s
fold_op-Grown Opcode.shl s = fold_binary-Grown s
fold_op-Grown Opcode.shr s = fold_binary-Grown s
fold_op-Grown Opcode.sar s = fold_binary-Grown s
fold_op-Grown Opcode.rot_l s = fold_binary-Grown s
fold_op-Grown Opcode.rot_r s = fold_binary-Grown s
fold_op-Grown Opcode.br_cond s = fold_brcond-Grown s
fold_op-Grown _ s = AddsConsts-refl s.ctx.temps

pub optimize_op-Grown : (s : Folding) → Grown s (optimize_op s)
unfolding optimize_op forget_outputs propagated
optimize_op-Grown s = elim (Bool-cases (is_boundary s.op.opc)) [
  | inl e ↦ rw e (AddsConsts-refl s.ctx.temps)
  | inr e ↦ elim (Bool-cases (is_skipped s.op.opc)) [
    | inl f ↦ rw (e, f) (AddsConsts-refl s.ctx.temps)
    | inr f ↦ rw (e, f) (fold_op-Grown s.op.opc (propagated s))
  ]
]

-- The pass keeps every temporary of the context as it is, under its index, and every temporary that
-- it puts behind them is a constant.
pub optimize_ops-AddsConsts :
    (ctx : Context) (info : Info) (ops : List Op)
    → AddsConsts ctx.temps (optimize_ops ctx info ops).0.temps
unfolding optimize_ops
optimize_ops-AddsConsts ctx info [] = AddsConsts-refl ctx.temps
optimize_ops-AddsConsts ctx info (op ∷ ops) =
    let s = optimize_op (record { ctx = ctx; info = info; op = op }) in
    AddsConsts-trans ctx.temps s.ctx.temps _
      (optimize_op-Grown (record { ctx = ctx; info = info; op = op }))
      (optimize_ops-AddsConsts s.ctx s.info ops)
