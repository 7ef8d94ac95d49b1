-- ===== src/Optimize/Sound/Each.antt =====
-- backend/src/optimize.rs: one round of the pass keeps the meaning of its operation, whatever the
-- operation is.
use tcg_rs.Base.{
  ℕ, ◌<◌, ◌≡◌, ◌⊎◌, refl, sym, ◌∙◌, List, ◌∷◌, Bool, true, false, Bool-cases, length, inl, inr,
  if◌then◌else◌, arith, All, ◌^◌,
}
use tcg_rs.IrType.{IrType, size_bits}
use tcg_rs.Temp.{Temp, TempIdx}
use tcg_rs.Opcode.{Opcode}
use tcg_rs.OpTable.{def}
use tcg_rs.Op.{Op, Args, slots}
use tcg_rs.Context.{Context}
use tcg_rs.Context.Consts.{Extends, Extends-trans}
use tcg_rs.Cond.{is_signed}
use tcg_rs.Semantics.{Machine, State, step, trunc, value, pure, binary}
use tcg_rs.Semantics.Laws.{step-same}
use tcg_rs.Optimize.{Info}
use tcg_rs.Optimize.Eval.{cond_from_carg}
use tcg_rs.Optimize.Eval.Sound.{IsInt}
use tcg_rs.Optimize.Facts.{IsRight}
use tcg_rs.Optimize.Fold.{Folding, fold_mov, fold_unary, fold_ext, fold_binary, fold_brcond}
use tcg_rs.Optimize.Pass.{
  is_boundary, is_skipped, source_of, propagate, forget_outputs, fold_op, propagated, optimize_op,
}
use tcg_rs.Optimize.Block.{
  member, IsDst, IsSrc, IsTyped, may_fold, HasResult, sources_after, is_mov,
}
use tcg_rs.Optimize.Sound.{IsTracked, IsSound}
use tcg_rs.Optimize.Sound.Inputs.{inputs_of, inputs_of-IsSameAs, source_of-from}
use tcg_rs.Optimize.Sound.Kept.{slots-equal, forget_outputs-IsSound, reset_copies-IsSound}
use tcg_rs.Optimize.Sound.Folded.{OfWidth, settled, step-pure}
use tcg_rs.Optimize.Sound.Folds.{fold_unary-IsSound, fold_ext-IsSound, fold_binary-IsSound}
use tcg_rs.Optimize.Sound.Move.{fold_mov-IsSound}
use tcg_rs.Optimize.Sound.Branch.{fold_brcond-IsSound}

-- What an operation that may be folded asks of its output and its type.
typed-HasResult :
    (temps : List Temp) (o : Opcode) (ty : IrType) (args : Args)
    → may_fold o ≡ true
    → IsTyped temps o ty args
    → HasResult temps ty args × OfWidth o ty
unfolding may_fold
typed-HasResult temps Opcode.mov ty args h k = (k.0, tt)
typed-HasResult temps Opcode.ext_i32_i64 ty args h k = (k.1, k.0)
typed-HasResult temps Opcode.ext_ui32_i64 ty args h k = (k.1, k.0)
typed-HasResult temps Opcode.extrl_i64_i32 ty args h k = (k.1, k.0)
typed-HasResult temps Opcode.extrh_i64_i32 ty args h k = (k.1, k.0)
typed-HasResult temps Opcode.neg ty args h k = (k, tt)
typed-HasResult temps Opcode.not ty args h k = (k, tt)
typed-HasResult temps Opcode.add ty args h k = (k, tt)
typed-HasResult temps Opcode.sub ty args h k = (k, tt)
typed-HasResult temps Opcode.mul ty args h k = (k, tt)
typed-HasResult temps Opcode.and ty args h k = (k, tt)
typed-HasResult temps Opcode.or ty args h k = (k, tt)
typed-HasResult temps Opcode.xor ty args h k = (k, tt)
typed-HasResult temps Opcode.and_c ty args h k = (k, tt)
typed-HasResult temps Opcode.shl ty args h k = (k, tt)
typed-HasResult temps Opcode.shr ty args h k = (k, tt)
typed-HasResult temps Opcode.sar ty args h k = (k, tt)
typed-HasResult temps Opcode.rot_l ty args h k = (k, tt)
typed-HasResult temps Opcode.rot_r ty args h k = (k, tt)
typed-HasResult temps _ ty args h k = absurd (cc)

value-IsSrc :
    (start temps : List Temp) (ty : IrType) (env : ℕ → ℕ) (t : TempIdx)
    → Extends start temps
    → IsSrc start ty t
    → value temps env t < 2 ^ size_bits ty
value-IsSrc start temps ty env t h src = rw (h t src.0 src.1) (src.2 (env t))

member_self : (srcs : List TempIdx) (t : TempIdx) → member (t ∷ srcs) t ≡ true
unfolding member
member_self srcs t = ground arith

member_more :
    (srcs : List TempIdx) (t u : TempIdx) → member srcs u ≡ true → member (t ∷ srcs) u ≡ true
unfolding member
member_more srcs t u h = ground arith

module _ (m : Machine) (start temps : List Temp) (srcs : List TempIdx) (ctx : Context) (info : Info)
    (op : Op) (st : State m.Mem) (tracked : IsTracked start srcs ctx info)
    (right : IsRight temps info st.env) (grows : Extends ctx.temps temps)
    (range : All (λ t. t < length start) (slots op.args 0 (def op.opc).nb_oargs))
    (free : may_fold op.opc ≡ true → member srcs (op.args 0) ≡ false) where
  abbrev initial : Folding
  initial = record { ctx = ctx; info = info; op = op }

  abbrev s : Folding
  s = record { ctx = ctx; info = info; op = record op { args = inputs_of info op } }

  same : step m temps s.op st ≡ step m temps op st
  same = step-same m temps op (inputs_of info op) st (inputs_of-IsSameAs temps info st.env op right)

  kept_outputs : (j : ℕ) → j < (def op.opc).nb_oargs → inputs_of info op j ≡ op.args j
  kept_outputs = (inputs_of-IsSameAs temps info st.env op right).outputs

  kept : IsSound m start temps srcs op st (forget_outputs s)
  kept =
      forget_outputs-IsSound m start temps srcs op s st tracked right grows
        (rw
          (slots-equal (inputs_of info op) op.args 0 (def op.opc).nb_oargs
            (λ j h. kept_outputs j (omega arith)))
          range)
        same

  module _ (folds : may_fold op.opc ≡ true)
      (typed : HasResult start op.op_type op.args × OfWidth op.opc op.op_type) where
    same_dst : inputs_of info op 0 ≡ op.args 0
    same_dst = kept_outputs 0 (omega (arith, (settled m temps op st op.opc refl folds).1))

    dst : IsDst start op.op_type (inputs_of info op 0)
    dst = rw same_dst typed.0.1

    is_free : member srcs (inputs_of info op 0) ≡ false
    is_free = rw same_dst (free folds)

    unary : Extends (fold_unary s).ctx.temps temps → IsSound m start temps srcs op st (fold_unary s)
    unary g =
        fold_unary-IsSound m start temps srcs op s st tracked right grows typed.0.0 dst is_free
          folds same typed.1 g

    ext : Extends (fold_ext s).ctx.temps temps → IsSound m start temps srcs op st (fold_ext s)
    ext g =
        fold_ext-IsSound m start temps srcs op s st tracked right grows typed.0.0 dst is_free folds
          same typed.1 g

    two_inputs :
        pure op.opc op.op_type (value temps st.env (s.op.args 1)) (value temps st.env (s.op.args 2))
          ≡ binary op.opc
              (size_bits op.op_type)
              (trunc op.op_type (value temps st.env (s.op.args 1)))
              (trunc op.op_type (value temps st.env (s.op.args 2)))
        → Extends (fold_binary s).ctx.temps temps
        → IsSound m start temps srcs op st (fold_binary s)
    two_inputs b g =
        fold_binary-IsSound m start temps srcs op s st tracked right grows typed.0.0 dst is_free
          folds same typed.1 b g

    pub moved :
        op.opc ≡ Opcode.mov
        → IsSrc start op.op_type (op.args 1)
        → IsSound m start temps (op.args 1 ∷ srcs) op st (fold_mov s)
    unfolding pure propagate def
    moved e src =
        fold_mov-IsSound m start temps srcs (op.args 1 ∷ srcs) op s st tracked right grows typed.0.0
          dst is_free fits is_source (member_more srcs (op.args 1)) same
          (sym same ∙ step-pure m temps s.op st _ folds (rw e refl))
      where
        fits : value temps st.env (s.op.args 1) < 2 ^ size_bits op.op_type
        fits = rw ((inputs_of-IsSameAs temps info st.env op right).values 1) (
            value-IsSrc start temps op.op_type st.env (op.args 1)
              (Extends-trans start ctx.temps temps tracked.grown grows) src)

        source : inputs_of info op 1 ≡ source_of info (op.args 1)
        source = rw e refl

        is_source : member (op.args 1 ∷ srcs) (inputs_of info op 1) ≡ true
        is_source = rw source (elim (source_of-from srcs info (op.args 1) tracked.sources) [
          | inl q ↦ rw q (member_self srcs (op.args 1))
          | inr q ↦ member_more srcs (op.args 1) (source_of info (op.args 1)) q
        ])

  branched :
      op.opc ≡ Opcode.br_cond
      → IsInt op.op_type
        × ((op.op_type ≡ IrType.i64) ⊎ (is_signed (cond_from_carg (op.args 2)) ≡ false))
      → IsSound m start temps srcs op st (fold_brcond s)
  unfolding def
  branched e typed =
      fold_brcond-IsSound m start temps srcs op s st tracked right typed.0 (rw same_cond typed.1) e
        same
    where
      same_cond : inputs_of info op 2 ≡ op.args 2
      same_cond = (inputs_of-IsSameAs temps info st.env op right).consts 2 (rw e (omega arith))

  -- The arm that the pass takes for the opcode.
  fold_op-IsSound :
      (o : Opcode)
      → op.opc ≡ o
      → IsTyped start o op.op_type op.args
      → Extends (fold_op o s).ctx.temps temps
      → IsSound m start temps (if is_mov o then op.args 1 ∷ srcs else srcs) op st (fold_op o s)
  unfolding fold_op is_mov may_fold pure
  fold_op-IsSound Opcode.mov e k g = moved (rw e refl) (k.0, rw e tt) e k.1
  fold_op-IsSound Opcode.neg e k g = unary (rw e refl) (k, rw e tt) g
  fold_op-IsSound Opcode.not e k g = unary (rw e refl) (k, rw e tt) g
  fold_op-IsSound Opcode.ext_i32_i64 e k g = ext (rw e refl) (k.1, rw e k.0) g
  fold_op-IsSound Opcode.ext_ui32_i64 e k g = ext (rw e refl) (k.1, rw e k.0) g
  fold_op-IsSound Opcode.extrl_i64_i32 e k g = ext (rw e refl) (k.1, rw e k.0) g
  fold_op-IsSound Opcode.extrh_i64_i32 e k g = ext (rw e refl) (k.1, rw e k.0) g
  fold_op-IsSound Opcode.add e k g = two_inputs (rw e refl) (k, rw e tt) (rw e refl) g
  fold_op-IsSound Opcode.sub e k g = two_inputs (rw e refl) (k, rw e tt) (rw e refl) g
  fold_op-IsSound Opcode.mul e k g = two_inputs (rw e refl) (k, rw e tt) (rw e refl) g
  fold_op-IsSound Opcode.and e k g = two_inputs (rw e refl) (k, rw e tt) (rw e refl) g
  fold_op-IsSound Opcode.or e k g = two_inputs (rw e refl) (k, rw e tt) (rw e refl) g
  fold_op-IsSound Opcode.xor e k g = two_inputs (rw e refl) (k, rw e tt) (rw e refl) g
  fold_op-IsSound Opcode.and_c e k g = two_inputs (rw e refl) (k, rw e tt) (rw e refl) g
  fold_op-IsSound Opcode.shl e k g = two_inputs (rw e refl) (k, rw e tt) (rw e refl) g
  fold_op-IsSound Opcode.shr e k g = two_inputs (rw e refl) (k, rw e tt) (rw e refl) g
  fold_op-IsSound Opcode.sar e k g = two_inputs (rw e refl) (k, rw e tt) (rw e refl) g
  fold_op-IsSound Opcode.rot_l e k g = two_inputs (rw e refl) (k, rw e tt) (rw e refl) g
  fold_op-IsSound Opcode.rot_r e k g = two_inputs (rw e refl) (k, rw e tt) (rw e refl) g
  fold_op-IsSound Opcode.br_cond e k g = branched e k
  fold_op-IsSound _ e k g = kept

  -- A longer list of sources.
  widened :
      (r : Folding)
      → IsSound m start temps srcs op st r
      → IsSound m start temps (sources_after srcs op) op st r
  unfolding sources_after
  widened r h = record {
    same = h.same;
    tracked = record {
      table = h.tracked.table;
      grown = h.tracked.grown;
      room = h.tracked.room;
      sources = λ t u e. wider (is_mov op.opc) u (h.tracked.sources t u e);
    };
    right = h.right;
  }
    where
      wider :
          (b : Bool) (u : TempIdx)
          → member srcs u ≡ true
          → member (if b then op.args 1 ∷ srcs else srcs) u ≡ true
      wider true u q = member_more srcs (op.args 1) u q
      wider false u q = q

  unread : IsSound m start temps srcs op st (forget_outputs initial)
  unread = forget_outputs-IsSound m start temps srcs op initial st tracked right grows range refl

  -- One round of the pass: the operation that it leaves has the meaning of the operation that it
  -- read, and what it knows afterwards is right, if the operation does not overwrite a known source.
  pub optimize_op-IsSound :
      IsTyped start op.opc op.op_type op.args
      → Extends (optimize_op initial).ctx.temps temps
      → IsSound m start temps (sources_after srcs op) op st (optimize_op initial)
  unfolding optimize_op propagated sources_after
  optimize_op-IsSound typed g = elim (Bool-cases (is_boundary op.opc)) [
    | inl e ↦
        rw e (
          widened _ (reset_copies-IsSound m start temps srcs op st (forget_outputs initial) unread))
    | inr e ↦ elim (Bool-cases (is_skipped op.opc)) [
      | inl f ↦ rw (e, f) (widened _ unread)
      | inr f ↦ rw (e, f) (fold_op-IsSound op.opc refl typed (rw (e, f) at g))
    ]
  ]
