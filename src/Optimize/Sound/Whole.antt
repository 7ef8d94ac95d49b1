-- ===== src/Optimize/Sound/Whole.antt =====
-- backend/src/optimize.rs: the pass over a block keeps what the block does.
use tcg_rs.Base.{
  ℕ, zero, suc, ◌^◌, ◌<◌, ◌≡◌, refl, ap, sym, ◌∙◌, List, [], ◌∷◌, map, true, false, some, none,
  length, get_elem?, arith, Bool-cases, inl, inr, All,
}
use tcg_rs.Temp.{Temp, TempIdx, is_const}
use tcg_rs.Op.{Op}
use tcg_rs.Context.{Context}
use tcg_rs.Context.Consts.{Extends, Extends-refl, Extends-trans, HasConsts}
use tcg_rs.Semantics.{Machine, State, step, run}
use tcg_rs.Semantics.Laws.{run-continued}
use tcg_rs.Optimize.{Info, ti}
use tcg_rs.Optimize.Facts.{IsRight}
use tcg_rs.Optimize.Pass.{optimize_op, optimize_ops, seed, optimize}
use tcg_rs.Optimize.Block.{member, IsBlock, is_stable, may_fold, sources_after}
use tcg_rs.Optimize.Sound.{IsTracked}
use tcg_rs.Optimize.Sound.Outputs.{value-constant}
use tcg_rs.Optimize.Sound.Each.{optimize_op-IsSound}
use tcg_rs.Optimize.Sound.Grows.{optimize_op-Grown, optimize_ops-AddsConsts}

-- The constants are words of 64 bits.
abbrev pub AreWords : List Temp → Type 0
AreWords = All (λ x. is_const x ≡ true → x.val < 2 ^ 64)

word_at :
    (temps : List Temp) (t : TempIdx) {x : Temp}
    → AreWords temps
    → get_elem? temps t ≡ some x
    → is_const x ≡ true
    → x.val < 2 ^ 64
word_at [] t words e c = absurd (cc)
word_at (y ∷ temps) zero {x} words e c =
    let q : y ≡ x = cc in rw (sym q) (words.0 (rw (sym q) at c))
word_at (y ∷ temps) (suc t) words e c = word_at temps t words.1 e c

module _ (m : Machine) (start temps : List Temp) where
  stable_op :
      (srcs : List TempIdx) (op : Op) (ops : List Op)
      → is_stable srcs (op ∷ ops) ≡ true
      → (may_fold op.opc ≡ true → member srcs (op.args 0) ≡ false)
        × (is_stable (sources_after srcs op) ops ≡ true)
  unfolding is_stable
  stable_op srcs op ops h = (λ f. ground arith, ground arith)

  -- The operations that are left do what they did, from any state that the facts are right about.
  pub optimize_ops-run :
      (ops : List Op) (srcs : List TempIdx) (ctx : Context) (info : Info) (st : State m.Mem)
      → IsBlock start ops
      → is_stable srcs ops ≡ true
      → IsTracked start srcs ctx info
      → IsRight temps info st.env
      → Extends (optimize_ops ctx info ops).0.temps temps
      → run m temps (optimize_ops ctx info ops).1 st ≡ run m temps ops st
  unfolding optimize_ops run
  optimize_ops-run [] srcs ctx info st block stable tracked right grows = refl
  optimize_ops-run (op ∷ ops) srcs ctx info st block stable tracked right grows =
      let s = optimize_op (record { ctx = ctx; info = info; op = op }) in
      let before : Extends s.ctx.temps temps =
        Extends-trans s.ctx.temps _ temps (optimize_ops-AddsConsts s.ctx s.info ops).extends
          grows in
      let here : Extends ctx.temps temps =
        Extends-trans ctx.temps s.ctx.temps temps
          (optimize_op-Grown (record { ctx = ctx; info = info; op = op })).extends before in
      let h =
        optimize_op-IsSound m start temps srcs ctx info op st tracked right here block.0.0.0
          (stable_op srcs op ops stable).0 block.0.1 before in
      run-continued m temps temps s.op op (optimize_ops s.ctx s.info ops).1 ops st
        (step m temps op st) h.same refl
        λ st' e.
          optimize_ops-run ops (sources_after srcs op) s.ctx s.info st' block.1
            (stable_op srcs op ops stable).1 h.tracked (h.right st' e) grows

-- What the pass knows at its start: the constants.
seed-entry :
    (temps : List Temp) (t : TempIdx)
    → (ti (map seed temps) t).is_const ≡ true
    → (x : Temp) × (get_elem? temps t ≡ some x)
      × (is_const x ≡ true)
      × ((ti (map seed temps) t).val ≡ x.val)
unfolding ti seed
seed-entry [] t h = absurd (cc)
seed-entry (x ∷ temps) zero h = elim (Bool-cases (is_const x)) [
  | inl e ↦ (x, refl, e, rw e refl)
  | inr e ↦ absurd (cc (rw e at h))
]
seed-entry (x ∷ temps) (suc t) h = seed-entry temps t h

seed-no_copy : (temps : List Temp) (t : TempIdx) → (ti (map seed temps) t).copy_of ≡ none
unfolding ti seed
seed-no_copy [] t = refl
seed-no_copy (x ∷ temps) zero = ground arith
seed-no_copy (x ∷ temps) (suc t) = seed-no_copy temps t

length-seed : (temps : List Temp) → length (map seed temps) ≡ length temps
length-seed [] = refl
length-seed (x ∷ temps) = ap suc (length-seed temps)

seed-IsRight :
    (start temps : List Temp) (env : ℕ → ℕ)
    → Extends start temps
    → AreWords start
    → IsRight temps (map seed start) env
seed-IsRight start temps env grows words = record {
  constants = λ t h.
      let q = seed-entry start t h in
      value-constant temps env t q.0 (grows t q.0 q.1) q.2 ∙ sym q.3;
  fits = λ t h. let q = seed-entry start t h in rw q.3 (word_at start t words q.1 q.2);
  copies = λ t s h. absurd (cc (seed-no_copy start t));
}

seed-IsTracked : (ctx : Context) → HasConsts ctx → IsTracked ctx.temps [] ctx (map seed ctx.temps)
seed-IsTracked ctx table = record {
  table = table;
  grown = Extends-refl ctx.temps;
  room = omega (arith, length-seed ctx.temps);
  sources = λ t s h. absurd (cc (seed-no_copy ctx.temps t));
}

-- The optimized block does what the block did, from every state: it goes on, jumps or exits in the
-- same way and leaves the same values. The block is well formed and overwrites no source of a copy
-- by an operation that may be folded, and the context's constants are what its tables say.
pub optimize-run :
    (m : Machine) (ctx : Context) (st : State m.Mem)
    → IsBlock ctx.temps ctx.ops
    → is_stable [] ctx.ops ≡ true
    → HasConsts ctx
    → AreWords ctx.temps
    → run m (optimize ctx).temps (optimize ctx).ops st ≡ run m (optimize ctx).temps ctx.ops st
unfolding optimize
optimize-run m ctx st block stable table words =
    let info = map seed ctx.temps in
    let temps = (optimize_ops ctx info ctx.ops).0.temps in
    optimize_ops-run m ctx.temps temps ctx.ops [] ctx info st block stable
      (seed-IsTracked ctx table)
      (seed-IsRight ctx.temps temps st.env (optimize_ops-AddsConsts ctx info ctx.ops).extends words)
      (Extends-refl temps)
