-- ===== src/Optimize/Sound/Folds.antt =====
-- backend/src/optimize.rs: `fold_unary`, `fold_ext` and `fold_binary` keep the meaning of the
-- operation.
use tcg_rs.Base.{
  ℕ, ◌≡◌, ap, ◌∙◌, List, true, false, Option, some, Bool-cases, Option-cases, inl, inr,
}
use tcg_rs.IrType.{IrType, size_bits}
use tcg_rs.Temp.{Temp, TempIdx}
use tcg_rs.Opcode.{Opcode}
use tcg_rs.Context.Consts.{Extends}
use tcg_rs.Op.{Op}
use tcg_rs.Semantics.{Machine, State, step, trunc, value, pure, binary}
use tcg_rs.Optimize.{TempInfo, ti}
use tcg_rs.Optimize.Eval.Sound.{IsInt, trunc-lt, unary_value-pure, ext_value-pure}
use tcg_rs.Optimize.Facts.{IsRight}
use tcg_rs.Optimize.Rules.{Rule}
use tcg_rs.Optimize.Fold.{
  Folding, apply_rule, unary_value, ext_value, fold_unary, fold_ext, fold_binary, binary_rule,
}
use tcg_rs.Optimize.Fold.Found.{binary_rule-Keeps}
use tcg_rs.Optimize.Block.{member, IsDst, may_fold}
use tcg_rs.Optimize.Sound.{IsTracked, IsSound}
use tcg_rs.Optimize.Sound.Folded.{by_rule, by_dropping, fitting, OfWidth}

ext_value-OfWidth :
    (opc : Opcode) (x : ℕ) (ty : IrType) {v : ℕ} {out : IrType}
    → OfWidth opc ty
    → ext_value opc x ≡ some (v, out)
    → out ≡ ty
unfolding ext_value
ext_value-OfWidth Opcode.ext_i32_i64 x ty k e = cc
ext_value-OfWidth Opcode.ext_ui32_i64 x ty k e = cc
ext_value-OfWidth Opcode.extrl_i64_i32 x ty k e = cc
ext_value-OfWidth Opcode.extrh_i64_i32 x ty k e = cc
ext_value-OfWidth _ x ty k e = absurd (cc)

module _ (m : Machine) (start temps : List Temp) (srcs : List TempIdx) (op : Op) (s : Folding)
    (st : State m.Mem) (tracked : IsTracked start srcs s.ctx s.info)
    (right : IsRight temps s.info st.env) (grows : Extends s.ctx.temps temps)
    (int : IsInt s.op.op_type) (dst : IsDst start s.op.op_type (s.op.args 0))
    (free : member srcs (s.op.args 0) ≡ false) (folds : may_fold s.op.opc ≡ true)
    (same : step m temps s.op st ≡ step m temps op st) (width : OfWidth s.op.opc s.op.op_type) where
  abbrev known : ℕ → TempInfo
  known i = ti s.info (s.op.args i)

  abbrev input : ℕ → ℕ
  input i = value temps st.env (s.op.args i)

  pub fold_unary-IsSound :
      Extends (fold_unary s).ctx.temps temps → IsSound m start temps srcs op st (fold_unary s)
  unfolding fold_unary apply_rule
  fold_unary-IsSound g = elim (Bool-cases (known 1).is_const) [
    | inr e ↦
        rw e
          (by_dropping m start temps srcs op s st tracked right grows int dst free folds same width)
    | inl e ↦ elim (Option-cases (unary_value s.op.opc (known 1).val s.op.op_type)) [
      | inl q ↦
          rw (e, q)
            (by_dropping m start temps srcs op s st tracked right grows int dst free folds same
              width)
      | inr (v, q) ↦
          let p =
            unary_value-pure s.op.opc s.op.op_type (known 1).val (input 2) int
              (right.fits (s.op.args 1) e) q in
          rw (e, q)
            (by_rule m start temps srcs op s st tracked right grows int dst free folds same
              (Rule.to_const v)
              (fitting m start temps srcs op s st tracked right grows int dst free folds same v
                width (rw (right.constants (s.op.args 1) e) p))
              (rw (e, q) at g))
    ]
  ]

  pub fold_ext-IsSound :
      Extends (fold_ext s).ctx.temps temps → IsSound m start temps srcs op st (fold_ext s)
  unfolding fold_ext apply_rule
  fold_ext-IsSound g = elim (Bool-cases (known 1).is_const) [
    | inr e ↦
        rw e
          (by_dropping m start temps srcs op s st tracked right grows int dst free folds same width)
    | inl e ↦ elim (Option-cases (ext_value s.op.opc (known 1).val)) [
      | inl q ↦
          rw (e, q)
            (by_dropping m start temps srcs op s st tracked right grows int dst free folds same
              width)
      | inr ((v, out), q) ↦
          let p = ext_value-pure s.op.opc s.op.op_type (known 1).val (input 2) q in
          let w = ext_value-OfWidth s.op.opc (known 1).val s.op.op_type width q in
          rw (e, q, w)
            (by_rule m start temps srcs op s st tracked right grows int dst free folds same
              (Rule.to_const v)
              (fitting m start temps srcs op s st tracked right grows int dst free folds same v
                width (rw (right.constants (s.op.args 1) e) p.0))
              (rw (e, q, w) at g))
    ]
  ]

  known_word :
      (i : ℕ)
      → (known i).is_const ≡ true
      → trunc s.op.op_type (input i) ≡ trunc s.op.op_type (known i).val
  known_word i e = ap (trunc s.op.op_type) (right.constants (s.op.args i) e)

  abbrev found : Option Rule
  found = binary_rule s.op.opc s.op.op_type (s.op.args 1) (s.op.args 2) (known 1) (known 2)

  pub fold_binary-IsSound :
      pure s.op.opc s.op.op_type (input 1) (input 2)
        ≡ binary s.op.opc
            (size_bits s.op.op_type)
            (trunc s.op.op_type (input 1))
            (trunc s.op.op_type (input 2))
      → Extends (fold_binary s).ctx.temps temps
      → IsSound m start temps srcs op st (fold_binary s)
  unfolding fold_binary
  fold_binary-IsSound b g = elim (Option-cases found) [
    | inl q ↦
        rw (q, fold_binary)
          (by_dropping m start temps srcs op s st tracked right grows int dst free folds same width)
    | inr (r, q) ↦
        rw (q, fold_binary)
          (by_rule m start temps srcs op s st tracked right grows int dst free folds same r
            (fitting m start temps srcs op s st tracked right grows int dst free folds same _ width
              (b
                ∙ binary_rule-Keeps s.op.opc s.op.op_type
                    (λ t. trunc s.op.op_type (value temps st.env t)) (s.op.args 1) (s.op.args 2)
                    (known 1) (known 2) int (λ t. trunc-lt s.op.op_type (value temps st.env t))
                    (known_word 1) (known_word 2) r q))
            (rw (q, fold_binary) at g))
  ]
