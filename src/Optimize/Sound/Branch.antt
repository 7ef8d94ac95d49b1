-- ===== src/Optimize/Sound/Branch.antt =====
-- backend/src/optimize.rs: `fold_brcond` keeps the meaning of a conditional branch.
use tcg_rs.Base.{
  ℕ, ◌≡◌, ◌⊎◌, refl, ap, sym, ◌∙◌, List, Bool, true, false, ◌&&◌, Bool-cases, inl, inr,
  if◌then◌else◌, arith,
}
use tcg_rs.IrType.{IrType, size_bits}
use tcg_rs.Temp.{Temp, TempIdx}
use tcg_rs.Opcode.{Opcode}
use tcg_rs.Cond.{is_signed}
use tcg_rs.Op.{Op, set_arg}
use tcg_rs.Semantics.{
  Machine, State, Outcome, next, jump, step, step_as, branch, trunc, value, holds,
}
use tcg_rs.Semantics.Laws.{next-env}
use tcg_rs.Optimize.{TempInfo, ti}
use tcg_rs.Optimize.Eval.{eval_cond, cond_from_carg}
use tcg_rs.Optimize.Eval.Sound.{IsInt, eval_cond-holds}
use tcg_rs.Optimize.Facts.{IsRight}
use tcg_rs.Optimize.Fold.{Folding, fold_brcond}
use tcg_rs.Optimize.Sound.{IsTracked, IsSound}

module _ (m : Machine) (start temps : List Temp) (srcs : List TempIdx) (op : Op) (s : Folding)
    (st : State m.Mem) (tracked : IsTracked start srcs s.ctx s.info)
    (right : IsRight temps s.info st.env) (int : IsInt s.op.op_type)
    (agrees : (s.op.op_type ≡ IrType.i64) ⊎ (is_signed (cond_from_carg (s.op.args 2)) ≡ false))
    (is_branch : s.op.opc ≡ Opcode.br_cond) (same : step m temps s.op st ≡ step m temps op st) where
  abbrev known : ℕ → TempInfo
  known i = ti s.info (s.op.args i)

  abbrev test : Bool
  test = eval_cond (known 0).val (known 1).val (cond_from_carg (s.op.args 2)) s.op.op_type

  abbrev word : ℕ → ℕ
  word i = trunc s.op.op_type (value temps st.env (s.op.args i))

  abbrev outcome : Bool → Outcome m.Mem
  outcome b = if b then jump (s.op.args 3) st else next st

  branched :
      step m temps op st
      ≡ outcome (holds (size_bits s.op.op_type) (cond_from_carg (s.op.args 2)) (word 0) (word 1))
  unfolding step branch step_as
  branched = sym same ∙ (rw is_branch refl)

  tested : (known 0).is_const ≡ true → (known 1).is_const ≡ true → step m temps op st ≡ outcome test
  tested e f =
      branched
      ∙ ap outcome (
          sym (
            eval_cond-holds (known 0).val (known 1).val (cond_from_carg (s.op.args 2)) s.op.op_type
              int agrees
            ∙ (rw (sym (right.constants (s.op.args 0) e), sym (right.constants (s.op.args 1) f))
                refl)))

  stays : (b : Bool) (st' : State m.Mem) → outcome b ≡ next st' → st'.env ≡ st.env
  stays true st' e = absurd (cc)
  stays false st' e = next-env m temps st st' e

  -- A branch changes no temporary, so the facts stay right.
  replaced :
      (o : Op)
      → step m temps o st ≡ step m temps op st
      → IsSound m start temps srcs op st (record s { op = o })
  replaced o q = record {
    same = q;
    tracked = tracked;
    right = λ st' e. rw (stays _ st' (sym branched ∙ e)) right;
  }

  abbrev taken : Op
  taken = record s.op { opc = Opcode.br; args = set_arg s.op.args 0 (s.op.args 3); nargs = 1 }

  abbrev dropped : Op
  dropped = record s.op { opc = Opcode.nop; nargs = 0 }

  step-taken : step m temps taken st ≡ outcome true
  unfolding step step_as
  step-taken = refl

  step-dropped : step m temps dropped st ≡ outcome false
  unfolding step step_as
  step-dropped = refl

  pub fold_brcond-IsSound : IsSound m start temps srcs op st (fold_brcond s)
  unfolding fold_brcond
  fold_brcond-IsSound = elim (Bool-cases ((known 0).is_const && (known 1).is_const)) [
    | inr e ↦ rw e (replaced s.op same)
    | inl e ↦
        let q = tested (ground arith) (ground arith) in
        elim (Bool-cases test) [
          | inl t ↦ rw (e, t) (replaced taken (step-taken ∙ sym (q ∙ ap outcome t)))
          | inr t ↦ rw (e, t) (replaced dropped (step-dropped ∙ sym (q ∙ ap outcome t)))
        ]
  ]
