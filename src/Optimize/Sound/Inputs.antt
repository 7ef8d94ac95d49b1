-- ===== src/Optimize/Sound/Inputs.antt =====
-- backend/src/optimize.rs: copy propagation replaces the inputs of an operation by temporaries of
-- the same values.
use tcg_rs.Base.{
  ℕ, zero, suc, ◌+◌, ◌≤◌, ◌<◌, ◌≡◌, ◌⊎◌, ◌≢◌, refl, ap, sym, ◌∙◌, List, none, some, arith,
  Option-cases, inl, inr, true,
}
use tcg_rs.Temp.{Temp, TempIdx}
use tcg_rs.OpTable.{def}
use tcg_rs.Op.{Op, Args, set_arg}
use tcg_rs.Semantics.{value}
use tcg_rs.Semantics.Laws.{IsSameAs}
use tcg_rs.Optimize.{Info, resolve_copy}
use tcg_rs.Optimize.Known.{resolve_copy-ti}
use tcg_rs.Optimize.Facts.{IsRight}
use tcg_rs.Optimize.Sound.{IsFrom}
use tcg_rs.Optimize.Block.{member}
use tcg_rs.Optimize.Pass.{source_of, propagate}

source_of-none : (info : Info) (t : TempIdx) → resolve_copy info t ≡ none → source_of info t ≡ t
unfolding source_of
source_of-none info t e = rw (e, source_of)

source_of-some : (info : Info) (t s : TempIdx) → resolve_copy info t ≡ some s → source_of info t ≡ s
unfolding source_of
source_of-some info t s e = rw (e, source_of)

-- The source of an argument is the argument or a source of a move.
pub source_of-from :
    (srcs : List TempIdx) (info : Info) (t : TempIdx)
    → IsFrom srcs info
    → (source_of info t ≡ t) ⊎ (member srcs (source_of info t) ≡ true)
source_of-from srcs info t from = elim (Option-cases (resolve_copy info t)) [
  | inl e ↦ inl (source_of-none info t e)
  | inr (s, e) ↦ inr (rw (source_of-some info t s e) (from t s (sym (resolve_copy-ti info t) ∙ e)))
]

value-source_of :
    (temps : List Temp) (info : Info) (env : ℕ → ℕ) (t : TempIdx)
    → IsRight temps info env
    → value temps env (source_of info t) ≡ value temps env t
value-source_of temps info env t right = elim (Option-cases (resolve_copy info t)) [
  | inl e ↦ ap (value temps env) (source_of-none info t e)
  | inr (s, e) ↦
      ap (value temps env) (source_of-some info t s e)
      ∙ sym (right.copies t s (sym (resolve_copy-ti info t) ∙ e))
]

set_arg-ne : (args : Args) (i j : ℕ) (t : TempIdx) → j ≢ i → set_arg args i t j ≡ args j
set_arg-ne args i j t ne = ground arith

set_arg-eq : (args : Args) (i : ℕ) (t : TempIdx) → set_arg args i t i ≡ t
set_arg-eq args i t = ground arith

slot_or_not : (i j : ℕ) → (j ≡ i) ⊎ (j ≢ i)
slot_or_not i j = omega arith

pub propagate-values :
    (temps : List Temp) (info : Info) (env : ℕ → ℕ) (old : Args) (i n : ℕ) (args : Args)
    → IsRight temps info env
    → ((j : ℕ) → value temps env (args j) ≡ value temps env (old j))
    → (j : ℕ) → value temps env (propagate info old i n args j) ≡ value temps env (old j)
unfolding propagate
propagate-values temps info env old i zero args right h = h
propagate-values temps info env old i (suc n) args right h =
    propagate-values temps info env old (i + 1) n (set_arg args i (source_of info (old i))) right
      λ j. elim (slot_or_not i j) [
        | inl e ↦ rw e (
            ap (value temps env) (set_arg-eq args i (source_of info (old i)))
            ∙ value-source_of temps info env (old i) right)
        | inr ne ↦ ap (value temps env) (set_arg-ne args i j (source_of info (old i)) ne) ∙ h j
      ]

pub propagate-outside :
    (info : Info) (old : Args) (i n : ℕ) (args : Args) (j : ℕ)
    → (j < i) ⊎ (i + n ≤ j)
    → propagate info old i n args j ≡ args j
unfolding propagate
propagate-outside info old i zero args j h = refl
propagate-outside info old i (suc n) args j h =
    propagate-outside info old (i + 1) n (set_arg args i (source_of info (old i))) j (omega arith)
    ∙ set_arg-ne args i j (source_of info (old i)) (omega arith)

-- The inputs as the pass leaves them.
abbrev pub inputs_of : Info → Op → Args
inputs_of info op = propagate info op.args (def op.opc).nb_oargs (def op.opc).nb_iargs op.args

pub inputs_of-IsSameAs :
    (temps : List Temp) (info : Info) (env : ℕ → ℕ) (op : Op)
    → IsRight temps info env
    → IsSameAs temps env op.opc (inputs_of info op) op.args
inputs_of-IsSameAs temps info env op right =
    let d = def op.opc in
    record {
      values =
          propagate-values temps info env op.args d.nb_oargs d.nb_iargs op.args right (λ j. refl);
      outputs = λ j h. propagate-outside info op.args d.nb_oargs d.nb_iargs op.args j (inl h);
      consts = λ j h. propagate-outside info op.args d.nb_oargs d.nb_iargs op.args j (inr h);
    }
