-- ===== src/Optimize/Sound/Reading.antt =====
-- A block whose arguments are in range of a list of temporaries reads the same by any list that
-- extends it: the constants that the optimizer adds do not change what the original block does.
use tcg_rs.Base.{
  ℕ, zero, suc, ◌+◌, ◌<◌, ◌≡◌, refl, ap, ◌∙◌, List, [], ◌∷◌, map, true, some, length, get_elem?,
  arith, All,
}
use mathlib.Core.Path.{ap₂}
use tcg_rs.IrType.{IrType}
use tcg_rs.Temp.{Temp, TempIdx}
use tcg_rs.Opcode.{Opcode}
use tcg_rs.OpTable.{def}
use tcg_rs.Op.{Op, Args, slots}
use tcg_rs.Context.{Context}
use tcg_rs.Context.Consts.{Extends, HasConsts}
use tcg_rs.Semantics.{
  Machine, State, finish, settle, write, value, pure, binary, perform, compute, branch, step,
  step_as, run,
}
use tcg_rs.Semantics.Laws.{run-continued}
use tcg_rs.Optimize.Pass.{optimize}
use tcg_rs.Optimize.Block.{IsBlock, IsInRange, is_stable}
use tcg_rs.Optimize.Sound.Grows.{optimize_ops-AddsConsts}
use tcg_rs.Optimize.Sound.Whole.{AreWords, optimize-run}

elem_at : (ts : List Temp) (t : TempIdx) → t < length ts → (x : Temp) × (get_elem? ts t ≡ some x)
elem_at [] t h = absurd (omega arith)
elem_at (x ∷ ts) zero h = (x, refl)
elem_at (x ∷ ts) (suc t) h = elem_at ts t (omega arith)

module _ (m : Machine) (ts us : List Temp) (grows : Extends ts us) where
  -- In range, both lists give the same value.
  value-Extends : (env : ℕ → ℕ) (t : TempIdx) → t < length ts → value us env t ≡ value ts env t
  value-Extends env t h = let x = elem_at ts t h in rw (x.1, grows t x.0 x.1)

  inputs-Extends :
      (env : ℕ → ℕ) (args : Args) (i n : ℕ)
      → All (λ t. t < length ts) (slots args i n)
      → map (value us env) (slots args i n) ≡ map (value ts env) (slots args i n)
  inputs-Extends env args i zero h = refl
  inputs-Extends env args i (suc n) h =
      ap₂ ◌∷◌ (value-Extends env (args i) h.0) (inputs-Extends env args (i + 1) n h.1)

  abbrev Inputs : Opcode → Args → Type 0
  Inputs o args = All (λ t. t < length ts) (slots args (def o).nb_oargs (def o).nb_iargs)

  perform-Extends :
      (op : Op) (st : State m.Mem) → Inputs op.opc op.args → perform m us op st ≡ perform m ts op st
  unfolding perform
  perform-Extends op st h =
      let d = def op.opc in
      let consts = slots op.args (d.nb_oargs + d.nb_iargs) d.nb_cargs in
      ap
        (λ (ins : List ℕ).
          finish m us op.opc ins consts (λ outs. write op.args 0 d.nb_oargs outs st.env) st
            (m.exec op.opc op.op_type op.param1 op.param2 ins consts st.mem))
        (inputs-Extends st.env op.args d.nb_oargs d.nb_iargs h)

  pure-Extends :
      (o : Opcode) (ty : IrType) (args : Args) (env : ℕ → ℕ)
      → Inputs o args
      → pure o ty (value us env (args 1)) (value us env (args 2))
        ≡ pure o ty (value ts env (args 1)) (value ts env (args 2))
  unfolding pure def binary
  pure-Extends Opcode.mov ty args env h = rw (value-Extends env (args 1) h.0) refl
  pure-Extends Opcode.neg ty args env h = rw (value-Extends env (args 1) h.0) refl
  pure-Extends Opcode.not ty args env h = rw (value-Extends env (args 1) h.0) refl
  pure-Extends Opcode.ext_i32_i64 ty args env h = rw (value-Extends env (args 1) h.0) refl
  pure-Extends Opcode.ext_ui32_i64 ty args env h = rw (value-Extends env (args 1) h.0) refl
  pure-Extends Opcode.extrl_i64_i32 ty args env h = rw (value-Extends env (args 1) h.0) refl
  pure-Extends Opcode.extrh_i64_i32 ty args env h = rw (value-Extends env (args 1) h.0) refl
  pure-Extends Opcode.add ty args env h =
      rw (value-Extends env (args 1) h.0, value-Extends env (args 2) h.1.0) refl
  pure-Extends Opcode.sub ty args env h =
      rw (value-Extends env (args 1) h.0, value-Extends env (args 2) h.1.0) refl
  pure-Extends Opcode.mul ty args env h =
      rw (value-Extends env (args 1) h.0, value-Extends env (args 2) h.1.0) refl
  pure-Extends Opcode.and ty args env h =
      rw (value-Extends env (args 1) h.0, value-Extends env (args 2) h.1.0) refl
  pure-Extends Opcode.or ty args env h =
      rw (value-Extends env (args 1) h.0, value-Extends env (args 2) h.1.0) refl
  pure-Extends Opcode.xor ty args env h =
      rw (value-Extends env (args 1) h.0, value-Extends env (args 2) h.1.0) refl
  pure-Extends Opcode.and_c ty args env h =
      rw (value-Extends env (args 1) h.0, value-Extends env (args 2) h.1.0) refl
  pure-Extends Opcode.shl ty args env h =
      rw (value-Extends env (args 1) h.0, value-Extends env (args 2) h.1.0) refl
  pure-Extends Opcode.shr ty args env h =
      rw (value-Extends env (args 1) h.0, value-Extends env (args 2) h.1.0) refl
  pure-Extends Opcode.sar ty args env h =
      rw (value-Extends env (args 1) h.0, value-Extends env (args 2) h.1.0) refl
  pure-Extends Opcode.rot_l ty args env h =
      rw (value-Extends env (args 1) h.0, value-Extends env (args 2) h.1.0) refl
  pure-Extends Opcode.rot_r ty args env h =
      rw (value-Extends env (args 1) h.0, value-Extends env (args 2) h.1.0) refl
  pure-Extends _ ty args env h = refl

  compute-Extends :
      (op : Op) (st : State m.Mem) → Inputs op.opc op.args → compute m us op st ≡ compute m ts op st
  unfolding compute
  compute-Extends op st h =
      let store = λ (vs : List ℕ). write op.args 0 (def op.opc).nb_oargs vs st.env in
      λ i.
        settle m ts (pure-Extends op.opc op.op_type op.args st.env h i) store st
          (perform-Extends op st h i)

  branch-Extends :
      (op : Op) (st : State m.Mem)
      → op.args 0 < length ts
      → op.args 1 < length ts
      → branch m us op st ≡ branch m ts op st
  unfolding branch
  branch-Extends op st h k =
      rw (value-Extends st.env (op.args 0) h, value-Extends st.env (op.args 1) k) refl

  step_as-Extends :
      (o : Opcode) (op : Op) (st : State m.Mem)
      → op.opc ≡ o
      → Inputs o op.args
      → step_as m us o op st ≡ step_as m ts o op st
  unfolding step_as def
  step_as-Extends Opcode.nop op st e h = refl
  step_as-Extends Opcode.br op st e h = refl
  step_as-Extends Opcode.br_cond op st e h = branch-Extends op st h.0 h.1.0
  step_as-Extends _ op st e h = compute-Extends op st (rw e h)

  step-Extends : (op : Op) (st : State m.Mem) → IsInRange ts op → step m us op st ≡ step m ts op st
  unfolding step
  step-Extends op st h = step_as-Extends op.opc op st refl h.1

  run-Extends :
      (ops : List Op) (st : State m.Mem) → IsBlock ts ops → run m us ops st ≡ run m ts ops st
  unfolding run
  run-Extends [] st h = refl
  run-Extends (op ∷ ops) st h =
      run-continued m us ts op op ops ops st (step m ts op st) (step-Extends op st h.0.0) refl
        (λ st' e. run-Extends ops st' h.1)

-- Run from its first operation until it goes on behind the last, takes a jump or exits, the optimized
-- block does what the original block did by its own temporaries, from every state: it ends in the same
-- way and leaves the same values and memory. The block's arguments are temporaries of the context. The
-- output of an operation that the optimizer evaluates is no constant and has the operation's type,
-- which is i32 or i64; what a mov copies fits its type; a conversion has the type of its result. A
-- br_cond is at i64, or at i32 with a condition that is not signed: a signed condition at i32 is left
-- out. No operation that may be folded overwrites the source of an earlier copy. The tables of the
-- context hold its constants, and the constants are words.
pub optimize-run_original :
    (m : Machine) (ctx : Context) (st : State m.Mem)
    → IsBlock ctx.temps ctx.ops
    → is_stable [] ctx.ops ≡ true
    → HasConsts ctx
    → AreWords ctx.temps
    → run m (optimize ctx).temps (optimize ctx).ops st ≡ run m ctx.temps ctx.ops st
optimize-run_original m ctx st block stable table words =
    optimize-run m ctx st block stable table words
    ∙ run-Extends m ctx.temps (optimize ctx).temps (optimize-Extends ctx) ctx.ops st block
  where
    optimize-Extends : (c : Context) → Extends c.temps (optimize c).temps
    optimize-Extends c = unfold optimize in (optimize_ops-AddsConsts c _ c.ops).extends
