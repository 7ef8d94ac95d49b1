-- ===== src/Optimize/Sound/Assign.antt =====
-- backend/src/optimize.rs: the operations with one result that the pass evaluates: what each way
-- to rewrite such an operation needs in order to keep its meaning and the facts right.
use tcg_rs.Base.{
  ℕ, ◌-◌, ◌^◌, ◌<◌, ◌≡◌, inl, inr, refl, ap, sym, ◌∙◌, bit_and, List, true, false, some, none, ◌==◌,
  if◌then◌else◌, arith,
}
use native.Mathlib.Nat.{mod-eq_of_lt, le_trans}
use tcg_rs.IrType.{IrType, size_bits}
use tcg_rs.Temp.{Temp, TempIdx}
use tcg_rs.Opcode.{Opcode}
use tcg_rs.OpTable.{def}
use tcg_rs.Op.{Op, set_arg}
use tcg_rs.Context
use tcg_rs.Context.{Context}
use tcg_rs.Context.Consts.{Extends, IsAllocated, new_const-IsAllocated}
use tcg_rs.Semantics.{
  Machine, State, Outcome, next, step, step_as, compute, pure, write, trunc, value, update,
}
use tcg_rs.Semantics.Laws.{next-env}
use tcg_rs.Optimize.{Info, TempInfo, ti, ensure_info, update_info, set_const, invalidate_one}
use tcg_rs.Optimize.Eval.{type_mask}
use tcg_rs.Optimize.Eval.Sound.{IsInt}
use tcg_rs.Optimize.Known.{
  ti-set_const, ti-invalidate_one, ti-update_ensured, length-set_const, length-invalidate_one,
  length-update_ensured,
}
use tcg_rs.Optimize.Facts.{
  IsRight, SameBut-update, NoCopyOf, NoCopyOf-Unmoved, IsRight-set, IsRight-dropped, dropped-copy,
  same_or_not, if-eq, if-ne,
}
use tcg_rs.Optimize.Fold.{Folding, replace_with_const, replace_with_mov, as_mov}
use tcg_rs.Optimize.Block.{member, IsDst}
use tcg_rs.Optimize.Sound.{IsFrom, IsTracked, IsSound}
use tcg_rs.Optimize.Sound.Outputs.{value-constant}

-- A destination reads back what fits its type.
pub value-destination :
    (temps : List Temp) (ty : IrType) (env : ℕ → ℕ) (d v : ℕ)
    → IsDst temps ty d
    → v < 2 ^ size_bits ty
    → value temps (update env d v) d ≡ v
value-destination temps ty env d v dst small =
    let at_d : update env d v d ≡ v = ground arith in
    rw (dst.1, dst.2, dst.3, at_d) (mod-eq_of_lt small)

pub IsDst-Extends :
    (ts us : List Temp) (ty : IrType) (d : TempIdx) → Extends ts us → IsDst ts ty d → IsDst us ty d
IsDst-Extends ts us ty d h x = (x.0, h d x.0 x.1, x.2, x.3)

pub trunc-u64 : (ty : IrType) (v : ℕ) → IsInt ty → trunc ty v < 2 ^ 64
trunc-u64 IrType.i32 v h = omega arith
trunc-u64 IrType.i64 v h = omega arith
trunc-u64 _ v h = absurd h

pub alone_of :
    (srcs : List TempIdx) (info : Info) (d : TempIdx)
    → IsFrom srcs info
    → member srcs d ≡ false
    → NoCopyOf d info
alone_of srcs info d from free t s e q = cc (from t s e, ap (member srcs) q, free)

pub IsFrom-set :
    (srcs : List TempIdx) (info info' : Info) (d : TempIdx) (x : TempInfo)
    → IsFrom srcs info
    → ((s : TempIdx) → x.copy_of ≡ some s → member srcs s ≡ true)
    → ((t : TempIdx) → ti info' t ≡ (if t == d then x else ti info t))
    → IsFrom srcs info'
IsFrom-set srcs info info' d x from new e t s h = elim (same_or_not t d) [
  | inl q ↦ new s (sym (ap (λ (y : TempInfo). y.copy_of) (e t ∙ if-eq t d x (ti info t) q)) ∙ h)
  | inr ne ↦
      from t s (sym (ap (λ (y : TempInfo). y.copy_of) (e t ∙ if-ne t d x (ti info t) ne)) ∙ h)
]

abbrev pub as_neg : Op → TempIdx → TempIdx → Op
as_neg op d x = record op { opc = Opcode.neg; args = set_arg (set_arg op.args 0 d) 1 x; nargs = 2 }

pub step-as_mov :
    (m : Machine) (temps : List Temp) (op : Op) (d x : TempIdx) (st : State m.Mem)
    → step m temps (as_mov op d x) st
      ≡ next (record st { env = update st.env d (trunc op.op_type (value temps st.env x)) })
unfolding step step_as compute pure write def
step-as_mov m temps op d x st = refl

module _ (m : Machine) (start temps : List Temp) (srcs : List TempIdx) (op : Op) (s : Folding)
    (st : State m.Mem) (d v : ℕ) (tracked : IsTracked start srcs s.ctx s.info)
    (right : IsRight temps s.info st.env) (grows : Extends s.ctx.temps temps)
    (int : IsInt s.op.op_type) (dst : IsDst start s.op.op_type d) (free : member srcs d ≡ false)
    (fits : v < 2 ^ size_bits s.op.op_type)
    (result : step m temps op st ≡ next (record st { env = update st.env d v })) where
  abbrev after : ℕ → ℕ
  after = update st.env d v

  abbrev wrote_at : ℕ → Outcome m.Mem
  wrote_at w = next (record st { env = update st.env d w })

  at_dst : value temps after d ≡ v
  at_dst =
      value-destination temps s.op.op_type st.env d v
        (IsDst-Extends s.ctx.temps temps s.op.op_type d grows
          (IsDst-Extends start s.ctx.temps s.op.op_type d tracked.grown dst))
        fits

  -- The environment that the operation leaves.
  went : (st' : State m.Mem) → step m temps op st ≡ next st' → st'.env ≡ after
  went st' e = next-env m temps (record st { env = after }) st' (sym result ∙ e)

  -- Nothing is known of the result.
  pub invalidated :
      (op' : Op)
      → step m temps op' st ≡ step m temps op st
      → IsSound m start temps srcs op st (record s { op = op'; info = invalidate_one s.info d })
  invalidated op' same = record {
    same = same;
    tracked = record {
      table = tracked.table;
      grown = tracked.grown;
      room = le_trans tracked.room (length-invalidate_one s.info d);
      sources = λ t u h.
          tracked.sources t u (dropped-copy d s.info t u (rw (ti-invalidate_one s.info d t) at h));
    };
    right = λ st' e. rw (went st' e) (
        IsRight-dropped temps s.info (invalidate_one s.info d) d st.env after right
          (SameBut-update temps d v st.env) (ti-invalidate_one s.info d));
  }

  pub moved :
      (x : TempIdx)
      → trunc s.op.op_type (value temps st.env x) ≡ v
      → IsSound m start temps srcs op st (replace_with_mov s d x)
  unfolding replace_with_mov
  moved x e =
      invalidated (as_mov s.op d x) (step-as_mov m temps s.op d x st ∙ ap wrote_at e ∙ sym result)

  negated_step :
      (x : TempIdx)
      → step m temps (as_neg s.op d x) st
        ≡ wrote_at (
            trunc s.op.op_type
              (2 ^ size_bits s.op.op_type - trunc s.op.op_type (value temps st.env x)))
  unfolding step step_as compute pure write def
  negated_step x = refl

  pub negated :
      (x : TempIdx)
      → trunc s.op.op_type (2 ^ size_bits s.op.op_type - trunc s.op.op_type (value temps st.env x))
        ≡ v
      → IsSound m start temps srcs op st
          (record s { op = as_neg s.op d x; info = invalidate_one s.info d })
  negated x e = invalidated (as_neg s.op d x) (negated_step x ∙ ap wrote_at e ∙ sym result)

  -- The constant that the operation is replaced by, and what is then known of it.
  abbrev noted : TempIdx → Info
  noted c = update_info (ensure_info s.info c) c (λ x. record x { is_const = true; val = v })

  noted-IsFrom : (c : TempIdx) → IsFrom srcs (noted c)
  noted-IsFrom c =
      IsFrom-set srcs s.info (noted c) c _ tracked.sources (tracked.sources c)
        (ti-update_ensured s.info c (λ x. record x { is_const = true; val = v }))

  small : v < 2 ^ 64
  small = rw (sym (mod-eq_of_lt fits)) (trunc-u64 s.op.op_type v int)

  noted-IsRight : (c : TempIdx) → value temps st.env c ≡ v → IsRight temps (noted c) st.env
  noted-IsRight c e =
      IsRight-set temps s.info (noted c) c st.env st.env right (λ t ne. refl) (λ t u h. refl) _
        (ti-update_ensured s.info c (λ x. record x { is_const = true; val = v })) (λ h. (e, small))
        (right.copies c)

  abbrev known : TempInfo
  known = record { is_const = true; val = v; copy_of = none }

  pub with_constant :
      (r : Context × TempIdx)
      → IsAllocated s.ctx v r
      → Extends r.0.temps temps
      → IsSound m start temps srcs op st
          (record { ctx = r.0; op = as_mov s.op d r.1; info = set_const (noted r.1) d v })
  with_constant r a g =
      let c = a.constant in
      let at_c : (env : ℕ → ℕ) → value temps env r.1 ≡ v =
        λ env. value-constant temps env r.1 c.0 (g r.1 c.0 c.1) c.2 ∙ c.3 in
      record {
        same =
            step-as_mov m temps s.op d r.1 st
            ∙ ap wrote_at (ap (trunc s.op.op_type) (at_c st.env) ∙ mod-eq_of_lt fits)
            ∙ sym result;
        tracked = record {
          table = a.table;
          grown = λ t x e. a.extends t x (tracked.grown t x e);
          room = le_trans tracked.room (
              le_trans
                (length-update_ensured s.info r.1 (λ x. record x { is_const = true; val = v }))
                (length-set_const (noted r.1) d v));
          sources =
              IsFrom-set srcs (noted r.1) (set_const (noted r.1) d v) d known (noted-IsFrom r.1)
                (λ t h. absurd (cc)) (ti-set_const (noted r.1) d v);
        };
        right = λ st' e. rw (went st' e) (
            IsRight-set temps (noted r.1) (set_const (noted r.1) d v) d st.env after
              (noted-IsRight r.1 (at_c st.env)) (SameBut-update temps d v st.env)
              (NoCopyOf-Unmoved temps (noted r.1) d st.env after
                (alone_of srcs (noted r.1) d (noted-IsFrom r.1) free)
                (SameBut-update temps d v st.env))
              known (ti-set_const (noted r.1) d v) (λ h. (at_dst, small)) (λ t h. absurd (cc)));
      }

  -- The operation becomes a move from a constant.
  pub constant :
      (x : ℕ)
      → bit_and x (type_mask s.op.op_type) ≡ v
      → Extends (replace_with_const s d x s.op.op_type).ctx.temps temps
      → IsSound m start temps srcs op st (replace_with_const s d x s.op.op_type)
  unfolding replace_with_const
  constant x e g = rw e (
      with_constant (Context.new_const s.ctx s.op.op_type v)
        (new_const-IsAllocated s.ctx s.op.op_type v tracked.table) (rw e at g))
