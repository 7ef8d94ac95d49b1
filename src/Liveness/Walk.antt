-- ===== src/Liveness/Walk.antt =====
-- backend/src/liveness.rs: the walk over all operations.
use tcg_rs.Base.{
  get_elem?-lt, ℕ, zero, suc, ◌+◌, ◌<◌, ◌≤◌, ◌≡◌, refl, sym, ap, ◌∙◌, List, true, false, not, ◌&&◌,
  ◌||◌, some, length, get_elem?, get_elem?-of_lt, get_elem?-modify_self, get_elem?-modify_ne,
  length-modify, modify, ltb, ◌==◌, if◌then◌else◌, arith, Bool-cases, inl, inr,
}
use mathlib.Core.Path.{subst}
use tcg_rs.Temp.{Temp}
use tcg_rs.Op.{Op, LifeData}
use tcg_rs.Context.{Context}
use tcg_rs.IrBuilder.Formed.{IsFormed}
use tcg_rs.Liveness.{
  TempState, globals_live, is_nop, set_life, bb_end_state, op_life, walk, liveness_analysis,
}
use tcg_rs.Liveness.Needed.{
  behind, reads, writes, needed, IsLast, behind-state, op_life-state, op_life-IsLast,
}

module _ (temps : List Temp) (nb_globals : ℕ) (ops : List Op) where
  -- What the walk does to the operation at `i`, with `j` operations behind it.
  abbrev IsAnnotated : List Op → ℕ → Type 0
  IsAnnotated out i =
      (j : ℕ) (op : Op)
      → suc i + j ≡ length ops
      → get_elem? ops i ≡ some op
      → is_nop op.opc ≡ false
      → (life : LifeData) × (get_elem? out i ≡ some (set_life life op))
        × IsLast temps nb_globals op (needed nb_globals ops j (suc i)) life

  -- An operation that the walk passes over is left as it is.
  abbrev IsPassedOver : List Op → ℕ → Type 0
  IsPassedOver out i =
      (op : Op) → get_elem? ops i ≡ some op → is_nop op.opc ≡ true → get_elem? out i ≡ some op

  needed_at :
      (k i : ℕ) (op : Op) (t : ℕ)
      → get_elem? ops i ≡ some op
      → needed nb_globals ops (suc k) i t ≡ (
          if is_nop op.opc
          then behind nb_globals op (needed nb_globals ops k (suc i)) t
          else reads op t
            || (behind nb_globals op (needed nb_globals ops k (suc i)) t && not (writes op t)))
  needed_at k i op t e = rw (needed, e) refl

  walk_on :
      (n : ℕ) (cur : List Op) (s : TempState) (op : Op)
      → get_elem? cur n ≡ some op
      → is_nop op.opc ≡ false
      → op.idx ≡ n
      → n < length cur
      → walk temps nb_globals (suc n) cur s
        ≡ walk temps nb_globals n
            (modify cur n (set_life (op_life temps op (bb_end_state nb_globals op s)).0))
            (op_life temps op (bb_end_state nb_globals op s)).1
  unfolding walk
  walk_on n cur s op found c idx h =
      let r = op_life temps op (bb_end_state nb_globals op s) in
      let fits : ltb op.idx (length cur) ≡ true =
        let low : op.idx < length cur = omega (arith, idx) in ground arith in
      let step : walk temps nb_globals (suc n) cur s
          ≡ walk temps nb_globals n (modify cur op.idx (set_life r.0)) r.1 =
        rw (found, c, fits) refl in
      step ∙ ap (λ (z : ℕ). walk temps nb_globals n (modify cur z (set_life r.0)) r.1) idx

  IsAnnotated-here :
      (n k : ℕ) (op : Op) (out : List Op) (s : TempState)
      → suc n + k ≡ length ops
      → get_elem? ops n ≡ some op
      → ((x : ℕ) → x < length temps → s x ≡ needed nb_globals ops k (suc n) x)
      → get_elem? out n ≡ some (set_life (op_life temps op (bb_end_state nb_globals op s)).0 op)
      → IsAnnotated out n
  IsAnnotated-here n k op out s total found e set_now j o w g nop =
      let r = op_life temps op (bb_end_state nb_globals op s) in
      let shown : some op ≡ some o = sym found ∙ g in
      let eq : op ≡ o = cc in
      let kj : k ≡ j = omega arith in
      let last = op_life-IsLast temps nb_globals op (needed nb_globals ops k (suc n)) s e in
      subst
        (λ (z : Op).
          (life : LifeData) × (get_elem? out n ≡ some (set_life life z))
          × IsLast temps nb_globals z (needed nb_globals ops j (suc n)) life)
        eq
        (
          r.0,
          set_now,
          subst (λ (a : ℕ). IsLast temps nb_globals op (needed nb_globals ops a (suc n)) r.0) kj
              last,
        )

  -- Two operations at one position are one, and so are both passed over or neither.
  same_kind :
      (n i : ℕ) (op o : Op)
      → get_elem? ops n ≡ some op
      → n ≡ i
      → get_elem? ops i ≡ some o
      → is_nop op.opc ≡ is_nop o.opc
  same_kind n i op o found at g =
      let r : some op ≡ some o = sym found ∙ ap (get_elem? ops) at ∙ g in
      let eq : op ≡ o = cc in ap (λ (z : Op). is_nop z.opc) eq

  walk-IsAnnotated :
      ((i : ℕ) (op : Op) → get_elem? ops i ≡ some op → op.idx ≡ i)
      → (n k : ℕ) (cur : List Op) (s : TempState) → n + k ≡ length ops
      → length cur ≡ length ops
      → ((i : ℕ) → i < n → get_elem? cur i ≡ get_elem? ops i)
      → ((x : ℕ) → x < length temps → s x ≡ needed nb_globals ops k n x)
      → (out : List Op) × (walk temps nb_globals n cur s ≡ some out)
        × (length out ≡ length ops)
        × ((i : ℕ) → n ≤ i → get_elem? out i ≡ get_elem? cur i)
        × ((i : ℕ) → i < n → IsAnnotated out i × IsPassedOver out i)
  unfolding walk
  walk-IsAnnotated num zero k cur s total len same e =
      (cur, refl, len, λ i h. refl, λ i h. absurd (omega arith))
  walk-IsAnnotated num (suc n) k cur s total len same e =
      let (op, found) = get_elem?-of_lt ops n (omega arith) in
      let here : get_elem? cur n ≡ some op = same n (omega arith) ∙ found in
      let idx = num n op found in
      let later = needed nb_globals ops k (suc n) in
      let s1 = bb_end_state nb_globals op s in
      elim (Bool-cases (is_nop op.opc)) [
        | inl c ↦
            let state : (x : ℕ) → x < length temps → s1 x ≡ needed nb_globals ops (suc k) n x =
              λ x h.
                behind-state temps nb_globals op later s x (e x h)
                ∙ sym (needed_at k n op x found ∙ rw c refl) in
            let (out, done, size, rest, marks) =
              walk-IsAnnotated num n (suc k) cur s1 (omega arith) len (λ i h. same i (omega arith))
                state in
            (
              out,
              rw (here, c) done,
              size,
              λ i h. rest i (omega arith),
              λ i h. elim (Bool-cases (i == n)) [
                | inl q ↦
                    let at : n ≡ i = ground arith in
                    (
                      λ j o w g nop. let bad = same_kind n i op o found at g ∙ nop in absurd (cc),
                      λ o g nop. rest i (omega arith) ∙ same i h ∙ g,
                    )
                | inr q ↦ marks i (ground arith)
              ],
            )
        | inr c ↦
            let done1 = op_life temps op s1 in
            let cur1 = modify cur n (set_life done1.0) in
            let state : (x : ℕ) → x < length temps → done1.1 x ≡ needed nb_globals ops (suc k) n x =
              λ x h.
                op_life-state temps nb_globals op later s e x h
                ∙ sym (needed_at k n op x found ∙ rw c refl) in
            let (out, done, size, rest, marks) =
              walk-IsAnnotated num n (suc k) cur1 done1.1 (omega arith)
                (length-modify cur n (set_life done1.0) ∙ len)
                (λ i h.
                  get_elem?-modify_ne cur n i (set_life done1.0)
                    (λ (q : i ≡ n). absurd (omega arith))
                  ∙ same i (omega arith))
                state in
            let mine =
              IsAnnotated-here n k op out s total found e
                (rest n (omega arith) ∙ get_elem?-modify_self cur n (set_life done1.0) here) in
            (
              out,
              walk_on n cur s op here c idx (omega arith) ∙ done,
              size,
              λ i h.
                  rest i (omega arith)
                  ∙ get_elem?-modify_ne cur n i (set_life done1.0)
                      (λ (q : i ≡ n). absurd (omega arith)),
              λ i h. elim (Bool-cases (i == n)) [
                | inl q ↦
                    let at : n ≡ i = ground arith in
                    (
                      subst (IsAnnotated out) at mine,
                      λ o g nop. let bad = same_kind n i op o found at g ∙ nop in absurd (cc),
                    )
                | inr q ↦ marks i (ground arith)
              ],
            )
      ]

-- For a block whose operations carry their own positions, as the builder makes it, the pass does not
-- panic. It keeps every field of the context but the list of operations, the length of this list, and
-- every operation that `is_nop` names as it is; of every other operation it changes the liveness bits
-- alone. An input that it marks dead is a temporary that the operation itself writes, or that is not
-- needed behind it in the order of the list: in this order it is overwritten before it is next read,
-- and before it is overwritten no basic block and not the whole ends while it is a global. This order
-- takes a jump as going on to the operation behind it, so what is read only where a jump leads does not
-- count.
pub liveness_analysis-IsLast :
    (ctx : Context)
    → IsFormed ctx
    → (ctx' : Context) × (liveness_analysis ctx ≡ some ctx')
      × (ctx' ≡ record ctx { ops = ctx'.ops })
      × (length ctx'.ops ≡ length ctx.ops)
      × ((i : ℕ) (op : Op)
          → get_elem? ctx.ops i ≡ some op
          → is_nop op.opc ≡ true
          → get_elem? ctx'.ops i ≡ some op)
      × ((i j : ℕ) (op : Op)
          → suc i + j ≡ length ctx.ops
          → get_elem? ctx.ops i ≡ some op
          → is_nop op.opc ≡ false
          → (life : LifeData) × (get_elem? ctx'.ops i ≡ some (set_life life op))
            × IsLast ctx.temps ctx.nb_globals op (needed ctx.nb_globals ctx.ops j (suc i)) life)
unfolding liveness_analysis
liveness_analysis-IsLast ctx formed =
    let n = length ctx.ops in
    let s = globals_live ctx.nb_globals (λ t. false) in
    let start : (x : ℕ) → x < length ctx.temps → s x ≡ ltb x ctx.nb_globals =
      λ x h. elim (Bool-cases (ltb x ctx.nb_globals)) [ inl d ↦ rw d refl | inr d ↦ rw d refl ] in
    let (out, done, size, rest, marks) =
      walk-IsAnnotated ctx.temps ctx.nb_globals ctx.ops formed.numbered n 0 ctx.ops s (omega arith)
        refl (λ i h. refl) start in
    (
      record ctx { ops = out },
      rw done refl,
      refl,
      size,
      λ i op found nop. (marks i (get_elem?-lt ctx.ops i found)).1 op found nop,
      λ i j op total found c. (marks i (omega arith)).0 j op total found c,
    )
