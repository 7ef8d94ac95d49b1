-- ===== src/Optimize/Fold.antt =====
-- backend/src/optimize.rs: the functions that fold one operation. The operation at `op_idx` is
-- the only one that they change, so the state holds that operation beside the context.
pub mod Found
use tcg_rs.Base.{ℕ, bit_and, Bool, true, Option, none, some, ◌==◌, ◌&&◌, if◌then◌else◌}
use tcg_rs.Base.Words.{wrapping_sub, not_u64, as_u32, sign_extend32, shr}
use tcg_rs.IrType.{IrType}
use tcg_rs.Temp.{TempIdx}
use tcg_rs.Opcode.{Opcode}
use tcg_rs.Op.{Op, Args, set_arg}
use tcg_rs.Context.{Context}
use tcg_rs.Context
use tcg_rs.Optimize.{
  TempInfo, Info, ti, ensure_info, update_info, set_const, set_copy, invalidate_one,
}
use tcg_rs.Optimize.Eval.{type_mask, eval_cond, cond_from_carg, eval_binary}
use tcg_rs.Optimize.Rules.{Rule, right_rule, left_rule, same_rule}

pub record Folding : Type 0 where
  pub ctx : Context
  pub info : Info
  pub op : Op

-- Replaces the operation by `mov dst, src`; the slots behind the first two stay.
abbrev pub as_mov : Op → TempIdx → TempIdx → Op
as_mov op dst src = record op {
  opc = Opcode.mov;
  args = set_arg (set_arg op.args 0 dst) 1 src;
  nargs = 2;
}

unfoldable pub replace_with_const : Folding → TempIdx → ℕ → IrType → Folding
replace_with_const s dst v ty =
    let masked = bit_and v (type_mask ty) in
    let (ctx', c) = Context.new_const s.ctx ty masked in
    let known =
      update_info (ensure_info s.info c) c (λ x. record x { is_const = true; val = masked }) in
    record { ctx = ctx'; op = as_mov s.op dst c; info = set_const known dst masked }

unfoldable pub replace_with_mov : Folding → TempIdx → TempIdx → Folding
replace_with_mov s dst src = record s { op = as_mov s.op dst src; info = invalidate_one s.info dst }

unfoldable pub fold_mov : Folding → Folding
fold_mov s =
    let dst = s.op.args 0 in
    let src = s.op.args 1 in
    let si = ti s.info src in
    record s {
      info =
          if si.is_const
          then set_const s.info dst (bit_and si.val (type_mask s.op.op_type))
          else set_copy s.info dst src;
    }

-- The value of `Neg` and `Not`.
unfoldable pub unary_value : Opcode → ℕ → IrType → Option ℕ
unary_value Opcode.neg v ty = some (bit_and (wrapping_sub 0 v) (type_mask ty))
unary_value Opcode.not v ty = some (bit_and (not_u64 v) (type_mask ty))
unary_value _ v ty = none

-- The value of a type conversion, and the type of its result.
unfoldable pub ext_value : Opcode → ℕ → Option (ℕ × IrType)
ext_value Opcode.ext_i32_i64 v = some (sign_extend32 (as_u32 v), IrType.i64)
ext_value Opcode.ext_ui32_i64 v = some (bit_and v 0xFFFF_FFFF, IrType.i64)
ext_value Opcode.extrl_i64_i32 v = some (bit_and v 0xFFFF_FFFF, IrType.i32)
ext_value Opcode.extrh_i64_i32 v = some (bit_and (shr v 32) 0xFFFF_FFFF, IrType.i32)
ext_value _ v = none

-- `none` is the unreachable arm.
unfoldable pub fold_unary : Folding → Folding
fold_unary s =
    let dst = s.op.args 0 in
    let si = ti s.info (s.op.args 1) in
    let dropped = record s { info = invalidate_one s.info dst } in
    if si.is_const
    then elim (unary_value s.op.opc si.val s.op.op_type) [
      | none ↦ dropped
      | some v ↦ replace_with_const s dst v s.op.op_type
    ]
    else dropped

unfoldable pub fold_ext : Folding → Folding
fold_ext s =
    let dst = s.op.args 0 in
    let si = ti s.info (s.op.args 1) in
    let dropped = record s { info = invalidate_one s.info dst } in
    if si.is_const
    then elim (ext_value s.op.opc si.val) [
      | none ↦ dropped
      | some (v, ty) ↦ replace_with_const s dst v ty
    ]
    else dropped

-- Carries out a rule.
unfoldable pub apply_rule : Folding → Rule → Folding
apply_rule s (Rule.to_mov x) = replace_with_mov s (s.op.args 0) x
apply_rule s (Rule.to_const v) = replace_with_const s (s.op.args 0) v s.op.op_type
apply_rule s (Rule.to_neg x) = record s {
  op = record s.op {
    opc = Opcode.neg;
    args = set_arg (set_arg s.op.args 0 (s.op.args 0)) 1 x;
    nargs = 2;
  };
  info = invalidate_one s.info (s.op.args 0);
}

-- `first_of o o'` is the first rule found.
abbrev pub or_else : Option Rule → Option Rule → Option Rule
or_else (some r) o = some r
or_else none o = o

abbrev pub constant_rule : Option ℕ → Option Rule
constant_rule none = none
constant_rule (some v) = some (Rule.to_const v)

-- The rule that `fold_binary` finds, in the order of the code: two constants, `try_simplify` with
-- `b` and then with `a` constant, one operand twice.
unfoldable pub binary_rule : Opcode → IrType → TempIdx → TempIdx → TempInfo → TempInfo → Option Rule
binary_rule opc ty a_idx b_idx ai bi =
    let mask = type_mask ty in
    let a = bit_and ai.val mask in
    let b = bit_and bi.val mask in
    or_else (if ai.is_const && bi.is_const then constant_rule (eval_binary opc a b ty) else none) (
      or_else (if bi.is_const then right_rule opc b mask a_idx else none) (
        or_else (if ai.is_const then left_rule opc a mask b_idx else none)
          (if a_idx == b_idx then same_rule opc a_idx else none)))

unfoldable pub fold_binary : Folding → Folding
unfolding apply_rule binary_rule
fold_binary s =
    let a_idx = s.op.args 1 in
    let b_idx = s.op.args 2 in
    elim (binary_rule s.op.opc s.op.op_type a_idx b_idx (ti s.info a_idx) (ti s.info b_idx)) [
      | some r ↦ apply_rule s r
      | none ↦ record s { info = invalidate_one s.info (s.op.args 0) }
    ]

unfoldable pub fold_brcond : Folding → Folding
fold_brcond s =
    let ai = ti s.info (s.op.args 0) in
    let bi = ti s.info (s.op.args 1) in
    if ai.is_const && bi.is_const
    then (if eval_cond ai.val bi.val (cond_from_carg (s.op.args 2)) s.op.op_type
        then record s {
          op = record s.op { opc = Opcode.br; args = set_arg s.op.args 0 (s.op.args 3); nargs = 1 };
        }
        else record s { op = record s.op { opc = Opcode.nop; nargs = 0 } })
    else s
