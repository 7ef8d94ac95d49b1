-- ===== src/Optimize/Sound/Folded.antt =====
-- backend/src/optimize.rs: the functions that fold one operation keep its meaning.
use tcg_rs.Base.{
  ℕ, ◌-◌, ◌^◌, ◌<◌, ◌≡◌, refl, sym, ◌∙◌, bit_and, List, true, false, Option, some, none, arith,
}
use native.Mathlib.Nat.{mod-eq_of_lt}
use tcg_rs.IrType.{IrType, size_bits}
use tcg_rs.Temp.{Temp, TempIdx}
use tcg_rs.Opcode.{Opcode}
use tcg_rs.OpTable.{def}
use tcg_rs.Op.{Op}
use tcg_rs.Context.Consts.{Extends}
use tcg_rs.Semantics.{
  Machine, State, next, step, step_as, compute, write, trunc, value, update, pure, binary,
}
use tcg_rs.Optimize.{invalidate_one}
use tcg_rs.Optimize.Eval.{type_mask, eval_binary, eval_raw}
use tcg_rs.Optimize.Eval.Sound.{IsInt, mask-trunc, trunc-lt, eval_binary-binary}
use tcg_rs.Optimize.Facts.{IsRight}
use tcg_rs.Optimize.Rules.{Rule}
use tcg_rs.Optimize.Rules.Sound.{rule_value}
use tcg_rs.Optimize.Fold.{Folding, apply_rule}
use tcg_rs.Optimize.Block.{member, IsDst, may_fold}
use tcg_rs.Optimize.Sound.{IsTracked, IsSound}
use tcg_rs.Optimize.Sound.Assign.{constant, moved, negated, invalidated}

module _ (m : Machine) (temps : List Temp) (op : Op) (st : State m.Mem) where
  -- The value of a pure operation goes to its first argument.
  pub settled :
      (o : Opcode)
      → op.opc ≡ o
      → may_fold o ≡ true
      → (step_as m temps o op st ≡ compute m temps op st) × ((def op.opc).nb_oargs ≡ 1)
  unfolding may_fold step_as def
  settled Opcode.mov e h = (refl, rw e refl)
  settled Opcode.neg e h = (refl, rw e refl)
  settled Opcode.not e h = (refl, rw e refl)
  settled Opcode.ext_i32_i64 e h = (refl, rw e refl)
  settled Opcode.ext_ui32_i64 e h = (refl, rw e refl)
  settled Opcode.extrl_i64_i32 e h = (refl, rw e refl)
  settled Opcode.extrh_i64_i32 e h = (refl, rw e refl)
  settled Opcode.add e h = (refl, rw e refl)
  settled Opcode.sub e h = (refl, rw e refl)
  settled Opcode.mul e h = (refl, rw e refl)
  settled Opcode.and e h = (refl, rw e refl)
  settled Opcode.or e h = (refl, rw e refl)
  settled Opcode.xor e h = (refl, rw e refl)
  settled Opcode.and_c e h = (refl, rw e refl)
  settled Opcode.shl e h = (refl, rw e refl)
  settled Opcode.shr e h = (refl, rw e refl)
  settled Opcode.sar e h = (refl, rw e refl)
  settled Opcode.rot_l e h = (refl, rw e refl)
  settled Opcode.rot_r e h = (refl, rw e refl)
  settled _ e h = absurd (cc)

  pub step-pure :
      (v : ℕ)
      → may_fold op.opc ≡ true
      → pure op.opc op.op_type (value temps st.env (op.args 1)) (value temps st.env (op.args 2))
        ≡ some v
      → step m temps op st ≡ next (record st { env = update st.env (op.args 0) v })
  unfolding step compute write
  step-pure v h e = let q = settled op.opc refl h in q.0 ∙ (rw (e, q.1))

-- The value of a binary operation on words fits the words.
binary_fits :
    (opc : Opcode) (ty : IrType) (a b : ℕ) {v : ℕ}
    → IsInt ty
    → a < 2 ^ size_bits ty
    → b < 2 ^ size_bits ty
    → binary opc (size_bits ty) a b ≡ some v
    → v < 2 ^ size_bits ty
unfolding eval_binary
binary_fits opc ty a b h p q e =
    masked (eval_raw opc a b ty _) (eval_binary-binary opc ty a b h p q ∙ e)
  where
    masked :
        {v : ℕ} (o : Option ℕ)
        → (elim o [ none ↦ none | some r ↦ some (bit_and r (type_mask ty)) ]) ≡ some v
        → v < 2 ^ size_bits ty
    masked {v = v} none f = absurd (cc)
    masked {v = v} (some r) f =
        let f' : bit_and r (type_mask ty) ≡ v = cc in rw (sym f', mask-trunc ty r h) (trunc-lt ty r)

-- The width that a conversion is of.
abbrev pub OfWidth : Opcode → IrType → Type 0
OfWidth Opcode.ext_i32_i64 ty = ty ≡ IrType.i64
OfWidth Opcode.ext_ui32_i64 ty = ty ≡ IrType.i64
OfWidth Opcode.extrl_i64_i32 ty = ty ≡ IrType.i32
OfWidth Opcode.extrh_i64_i32 ty = ty ≡ IrType.i32
OfWidth _ ty = Unit

abbrev pub HasValue : Opcode → IrType → ℕ → ℕ → Type 0
HasValue opc ty x y = (v : ℕ) × (pure opc ty x y ≡ some v) × (v < 2 ^ size_bits ty)

module _ (ty : IrType) (x y : ℕ) (int : IsInt ty) where
  binary_value :
      (opc : Opcode) {v : ℕ}
      → pure opc ty x y ≡ binary opc (size_bits ty) (trunc ty x) (trunc ty y)
      → binary opc (size_bits ty) (trunc ty x) (trunc ty y) ≡ some v
      → HasValue opc ty x y
  binary_value opc {v} e f =
      (v, e ∙ f, binary_fits opc ty (trunc ty x) (trunc ty y) int (trunc-lt ty x) (trunc-lt ty y) f)

  -- An operation that may be folded has a value, which fits its type.
  pub pure-HasValue : (opc : Opcode) → may_fold opc ≡ true → OfWidth opc ty → HasValue opc ty x y
  unfolding may_fold pure binary
  pure-HasValue Opcode.mov h k = (trunc ty x, refl, trunc-lt ty x)
  pure-HasValue Opcode.neg h k = (_, refl, trunc-lt ty _)
  pure-HasValue Opcode.not h k =
      (2 ^ size_bits ty - 1 - trunc ty x, refl, omega (arith, trunc-lt ty x))
  pure-HasValue Opcode.ext_i32_i64 h k = (_, refl, rw k (ground arith))
  pure-HasValue Opcode.ext_ui32_i64 h k = (_, refl, rw k (omega arith))
  pure-HasValue Opcode.extrl_i64_i32 h k = (_, refl, rw k (omega arith))
  pure-HasValue Opcode.extrh_i64_i32 h k = (_, refl, rw k (omega arith))
  pure-HasValue Opcode.add h k = binary_value Opcode.add refl refl
  pure-HasValue Opcode.sub h k = binary_value Opcode.sub refl refl
  pure-HasValue Opcode.mul h k = binary_value Opcode.mul refl refl
  pure-HasValue Opcode.and h k = binary_value Opcode.and refl refl
  pure-HasValue Opcode.or h k = binary_value Opcode.or refl refl
  pure-HasValue Opcode.xor h k = binary_value Opcode.xor refl refl
  pure-HasValue Opcode.and_c h k = binary_value Opcode.and_c refl refl
  pure-HasValue Opcode.shl h k = binary_value Opcode.shl refl refl
  pure-HasValue Opcode.shr h k = binary_value Opcode.shr refl refl
  pure-HasValue Opcode.sar h k = binary_value Opcode.sar refl refl
  pure-HasValue Opcode.rot_l h k = binary_value Opcode.rot_l refl refl
  pure-HasValue Opcode.rot_r h k = binary_value Opcode.rot_r refl refl
  pure-HasValue _ h k = absurd (cc)

module _ (m : Machine) (start temps : List Temp) (srcs : List TempIdx) (op : Op) (s : Folding)
    (st : State m.Mem) (tracked : IsTracked start srcs s.ctx s.info)
    (right : IsRight temps s.info st.env) (grows : Extends s.ctx.temps temps)
    (int : IsInt s.op.op_type) (dst : IsDst start s.op.op_type (s.op.args 0))
    (free : member srcs (s.op.args 0) ≡ false) (folds : may_fold s.op.opc ≡ true)
    (same : step m temps s.op st ≡ step m temps op st) where
  abbrev pub input : ℕ → ℕ
  input i = value temps st.env (s.op.args i)

  abbrev pub word : TempIdx → ℕ
  word t = trunc s.op.op_type (value temps st.env t)

  abbrev pub IsValue : ℕ → Type 0
  IsValue v =
      (pure s.op.opc s.op.op_type (input 1) (input 2) ≡ some v) × (v < 2 ^ size_bits s.op.op_type)

  computed :
      (v : ℕ)
      → IsValue v
      → step m temps op st ≡ next (record st { env = update st.env (s.op.args 0) v })
  computed v h = sym same ∙ step-pure m temps s.op st v folds h.0

  pub by_rule :
      (r : Rule)
      → IsValue (rule_value s.op.op_type word r)
      → Extends (apply_rule s r).ctx.temps temps
      → IsSound m start temps srcs op st (apply_rule s r)
  unfolding apply_rule
  by_rule (Rule.to_mov x) h g =
      moved m start temps srcs op s st (s.op.args 0) (word x) tracked right grows int dst free h.1
        (computed (word x) h) x refl
  by_rule (Rule.to_const c) h g =
      constant m start temps srcs op s st (s.op.args 0) c tracked right grows int dst free h.1
        (computed c h) c (mask-trunc s.op.op_type c int ∙ mod-eq_of_lt h.1) g
  by_rule (Rule.to_neg x) h g =
      negated m start temps srcs op s st (s.op.args 0) _ tracked right grows int dst free h.1
        (computed _ h) x refl

  -- A value that the operation has fits its type.
  pub fitting :
      (v : ℕ)
      → OfWidth s.op.opc s.op.op_type
      → pure s.op.opc s.op.op_type (input 1) (input 2) ≡ some v
      → IsValue v
  fitting v k e =
      let h = pure-HasValue s.op.op_type (input 1) (input 2) int s.op.opc folds k in
      let q : h.0 ≡ v = cc (h.1, e) in (e, rw (sym q) h.2)

  -- Nothing is learnt of the output.
  pub by_dropping :
      OfWidth s.op.opc s.op.op_type
      → IsSound m start temps srcs op st (record s { info = invalidate_one s.info (s.op.args 0) })
  by_dropping k =
      let h = pure-HasValue s.op.op_type (input 1) (input 2) int s.op.opc folds k in
      invalidated m start temps srcs op s st (s.op.args 0) h.0 tracked right grows int dst free h.2
        (computed h.0 (h.1, h.2)) s.op same
