-- ===== src/Optimize/Sound/Move.antt =====
-- backend/src/optimize.rs: `fold_mov`, which leaves the operation and learns what its output is.
use tcg_rs.Base.{
  ℕ, ◌^◌, ◌<◌, ◌≡◌, ap, sym, ◌∙◌, bit_and, List, true, false, some, none, ◌==◌, ◌≤◌, if◌then◌else◌,
  Bool-cases, inl, inr, length,
}
use native.Mathlib.Nat.{mod-eq_of_lt, le_trans}
use tcg_rs.IrType.{size_bits}
use tcg_rs.Temp.{Temp, TempIdx}
use tcg_rs.Op.{Op}
use tcg_rs.Context.Consts.{Extends}
use tcg_rs.Semantics.{Machine, State, next, step, trunc, value, update}
use tcg_rs.Semantics.Laws.{next-env}
use tcg_rs.Optimize.{Info, TempInfo, ti, set_const, set_copy}
use tcg_rs.Optimize.Eval.{type_mask}
use tcg_rs.Optimize.Eval.Sound.{IsInt, mask-trunc, trunc-lt}
use tcg_rs.Optimize.Known.{ti-set_const, ti-set_copy, length-set_const, length-set_copy}
use tcg_rs.Optimize.Facts.{IsRight, SameBut-update, NoCopyOf-Unmoved, IsRight-set, same_or_not}
use tcg_rs.Optimize.Fold.{Folding, fold_mov}
use tcg_rs.Optimize.Block.{member, IsDst}
use tcg_rs.Optimize.Sound.{IsTracked, IsSound}
use tcg_rs.Optimize.Sound.Assign.{value-destination, IsDst-Extends, trunc-u64, alone_of, IsFrom-set}

abbrev Includes : List TempIdx → List TempIdx → Type 0
Includes srcs more = (t : TempIdx) → member srcs t ≡ true → member more t ≡ true

module _ (m : Machine) (start temps : List Temp) (srcs more : List TempIdx) (op : Op) (s : Folding)
    (st : State m.Mem) (tracked : IsTracked start srcs s.ctx s.info)
    (right : IsRight temps s.info st.env) (grows : Extends s.ctx.temps temps)
    (int : IsInt s.op.op_type) (dst : IsDst start s.op.op_type (s.op.args 0))
    (free : member srcs (s.op.args 0) ≡ false)
    (fits : value temps st.env (s.op.args 1) < 2 ^ size_bits s.op.op_type)
    (is_source : member more (s.op.args 1) ≡ true) (wider : Includes srcs more)
    (same : step m temps s.op st ≡ step m temps op st)
    (result : step m temps op st
      ≡ next (record st {
        env = update st.env (s.op.args 0) (trunc s.op.op_type (value temps st.env (s.op.args 1)));
      })) where
  abbrev d : TempIdx
  d = s.op.args 0

  abbrev x : TempIdx
  x = s.op.args 1

  abbrev v : ℕ
  v = trunc s.op.op_type (value temps st.env x)

  abbrev after : ℕ → ℕ
  after = update st.env d v

  at_dst : value temps after d ≡ v
  at_dst =
      value-destination temps s.op.op_type st.env d v
        (IsDst-Extends s.ctx.temps temps s.op.op_type d grows
          (IsDst-Extends start s.ctx.temps s.op.op_type d tracked.grown dst))
        (trunc-lt s.op.op_type (value temps st.env x))

  -- What is known of `d` is replaced by an entry that is right.
  replaced :
      (info : Info) (entry : TempInfo)
      → ((t : TempIdx) → ti info t ≡ (if t == d then entry else ti s.info t))
      → (entry.is_const ≡ true → (v ≡ entry.val) × (entry.val < 2 ^ 64))
      → ((t : TempIdx) → entry.copy_of ≡ some t → t ≡ x)
      → length s.info ≤ length info
      → IsSound m start temps more op st (record s { info = info })
  replaced info entry e const copy room = record {
    same = same;
    tracked = record {
      table = tracked.table;
      grown = tracked.grown;
      room = le_trans tracked.room room;
      sources =
          IsFrom-set more s.info info d entry (λ t u h. wider u (tracked.sources t u h))
            (λ t h. rw (copy t h) is_source) e;
    };
    right = λ st' r. rw (next-env m temps (record st { env = after }) st' (sym result ∙ r)) (
        IsRight-set temps s.info info d st.env after right (SameBut-update temps d v st.env)
          (NoCopyOf-Unmoved temps s.info d st.env after
            (alone_of srcs s.info d tracked.sources free) (SameBut-update temps d v st.env))
          entry e (λ h. (at_dst ∙ (const h).0, (const h).1))
          (λ t h. rw (copy t h) (at_dst ∙ sym at_source)));
  }
    where
      at_source : value temps after x ≡ v
      at_source = elim (same_or_not x d) [
        | inl q ↦ ap (value temps after) q ∙ at_dst
        | inr ne ↦ SameBut-update temps d v st.env x ne ∙ sym (mod-eq_of_lt fits)
      ]

  masked : (ti s.info x).is_const ≡ true → v ≡ bit_and (ti s.info x).val (type_mask s.op.op_type)
  masked e =
      ap (trunc s.op.op_type) (right.constants x e)
      ∙ sym (mask-trunc s.op.op_type (ti s.info x).val int)

  pub fold_mov-IsSound : IsSound m start temps more op st (fold_mov s)
  unfolding fold_mov
  fold_mov-IsSound = elim (Bool-cases (ti s.info x).is_const) [
    | inl e ↦ rw e (
        replaced (set_const s.info d (bit_and (ti s.info x).val (type_mask s.op.op_type)))
          (record {
            is_const = true;
            val = bit_and (ti s.info x).val (type_mask s.op.op_type);
            copy_of = none;
          })
          (ti-set_const s.info d _)
          (λ h. (masked e, rw (← masked e) (trunc-u64 s.op.op_type (value temps st.env x) int)))
          (λ t h. absurd (cc)) (length-set_const s.info d _))
    | inr e ↦ rw e (
        replaced (set_copy s.info d x) (record (ti s.info d) { is_const = false; copy_of = some x })
          (λ t. ti-set_copy s.info d x t ∙ (rw e)) (λ h. absurd (cc)) (λ t h. cc)
          (length-set_copy s.info d x))
  ]
