-- ===== src/Semantics/Laws.antt =====
-- The meaning of an operation depends on its inputs through their values alone.
use tcg_rs.Base.{
  ℕ, zero, suc, ◌+◌, ◌≤◌, ◌<◌, ◌≡◌, refl, ap, sym, Bool, true, false, List, [], ◌∷◌, map, Option,
  none, some, arith, if◌then◌else◌,
}
use mathlib.Core.Path.{ap₂}
use tcg_rs.IrType.{size_bits}
use tcg_rs.Temp.{Temp, TempIdx}
use tcg_rs.Opcode.{Opcode}
use tcg_rs.OpTable.{def}
use tcg_rs.Op.{Op, Args, slots}
use tcg_rs.Optimize.Eval.{cond_from_carg}
use tcg_rs.Semantics.{
  Machine, State, Outcome, Effect, finish, settle, next, jump, exit, goes, leaves, value, write,
  pure, holds, trunc, perform, compute, branch, step_as, step, run, update, head_or_zero, rest,
}

slots-ext :
    (f g : TempIdx → ℕ) (a b : Args) (i n : ℕ)
    → ((j : ℕ) → f (a j) ≡ g (b j))
    → map f (slots a i n) ≡ map g (slots b i n)
slots-ext f g a b i zero h = refl
slots-ext f g a b i (suc n) h = ap₂ ◌∷◌ (h i) (slots-ext f g a b (i + 1) n h)

slots-same : (a b : Args) (i n : ℕ) → ((j : ℕ) → i ≤ j → a j ≡ b j) → slots a i n ≡ slots b i n
slots-same a b i zero h = refl
slots-same a b i (suc n) h =
    ap₂ ◌∷◌ (h i (omega arith)) (slots-same a b (i + 1) n (λ j p. h j (omega arith)))

write-same :
    (a b : Args) (i n : ℕ) (vs : List ℕ) (env : ℕ → ℕ)
    → ((j : ℕ) → j < i + n → a j ≡ b j)
    → write a i n vs env ≡ write b i n vs env
unfolding write
write-same a b i zero vs env h = refl
write-same a b i (suc n) vs env h = rw (h i (omega arith)) (
    write-same a b (i + 1) n (rest vs) (update env (b i) (head_or_zero vs))
      (λ j p. h j (omega arith)))

-- Other arguments that have the same values: the outputs and the constant arguments are the same.
pub record IsSameAs (temps : List Temp) (env : ℕ → ℕ) (o : Opcode) (a b : Args) : Type 0 where
  pub values : (j : ℕ) → value temps env (a j) ≡ value temps env (b j)
  pub outputs : (j : ℕ) → j < (def o).nb_oargs → a j ≡ b j
  pub consts : (j : ℕ) → (def o).nb_oargs + (def o).nb_iargs ≤ j → a j ≡ b j

module _ (m : Machine) (temps : List Temp) where
  open m use {Mem, exec}

  perform-same :
      (op : Op) (a : Args) (st : State Mem)
      → IsSameAs temps st.env op.opc a op.args
      → perform m temps (record op { args = a }) st ≡ perform m temps op st
  unfolding perform
  perform-same op a st s =
      let d = def op.opc in
      let ins =
        slots-ext (value temps st.env) (value temps st.env) a op.args d.nb_oargs d.nb_iargs
          s.values in
      let consts = slots-same a op.args (d.nb_oargs + d.nb_iargs) d.nb_cargs s.consts in
      let store = λ (outs : List ℕ).
        write-same a op.args 0 d.nb_oargs outs st.env (λ j p. s.outputs j (omega arith)) in
      λ i.
        finish m temps op.opc (ins i) (consts i) (λ outs. store outs i) st
          (exec op.opc op.op_type op.param1 op.param2 (ins i) (consts i) st.mem)

  compute-same :
      (op : Op) (a : Args) (st : State Mem)
      → IsSameAs temps st.env op.opc a op.args
      → compute m temps (record op { args = a }) st ≡ compute m temps op st
  unfolding compute
  compute-same op a st s =
      let d = def op.opc in
      let store = λ (outs : List ℕ).
        write-same a op.args 0 d.nb_oargs outs st.env (λ j p. s.outputs j (omega arith)) in
      λ i.
        settle m temps (pure op.opc op.op_type (s.values 1 i) (s.values 2 i)) (λ vs. store vs i) st
          (perform-same op a st s i)

  branch-same :
      (op : Op) (a : Args) (st : State Mem)
      → IsSameAs temps st.env Opcode.br_cond a op.args
      → branch m temps (record op { args = a }) st ≡ branch m temps op st
  unfolding branch def
  branch-same op a st s = λ i.
      if holds (size_bits op.op_type) (cond_from_carg (s.consts 2 (omega arith) i))
        (trunc op.op_type (s.values 0 i)) (trunc op.op_type (s.values 1 i))
      then jump (s.consts 3 (omega arith) i) st
      else next st

  step_as-same :
      (o : Opcode) (op : Op) (a : Args) (st : State Mem)
      → op.opc ≡ o
      → IsSameAs temps st.env o a op.args
      → step_as m temps o (record op { args = a }) st ≡ step_as m temps o op st
  unfolding step_as def
  step_as-same Opcode.nop op a st e s = refl
  step_as-same Opcode.br op a st e s = λ i. jump (s.consts 0 (omega arith) i) st
  step_as-same Opcode.br_cond op a st e s = branch-same op a st s
  step_as-same _ op a st e s = compute-same op a st (rw e s)

  -- An operation with other arguments of the same values does the same.
  pub step-same :
      (op : Op) (a : Args) (st : State Mem)
      → IsSameAs temps st.env op.opc a op.args
      → step m temps (record op { args = a }) st ≡ step m temps op st
  unfolding step
  step-same op a st s = step_as-same op.opc op a st refl s

  -- What an operation that goes on does to the environment.
  pub data WritesOutputs (op : Op) (env env' : ℕ → ℕ) : Type 0 where
    nothing : env' ≡ env → WritesOutputs op env env'
    outputs :
        (vs : List ℕ)
        → env' ≡ write op.args 0 (def op.opc).nb_oargs vs env
        → WritesOutputs op env env'

  abbrev env_of : Outcome Mem → (ℕ → ℕ) → ℕ → ℕ
  env_of (next st) env = st.env
  env_of _ env = env

  -- Two outcomes that go on and are equal have equal environments.
  pub next-env :
      (st st' : State Mem) → ◌≡◌ {A = Outcome Mem} (next st) (next st') → st'.env ≡ st.env
  next-env st st' e = sym (ap (λ (o : Outcome Mem). env_of o st.env) e)

  module _ (op : Op) (st st' : State Mem) where
    abbrev store : List ℕ → ℕ → ℕ
    store vs = write op.args 0 (def op.opc).nb_oargs vs st.env

    settled :
        (o : Option ℕ) (k : Outcome Mem)
        → (k ≡ next st' → WritesOutputs op st.env st'.env)
        → settle m temps o store st k ≡ next st'
        → WritesOutputs op st.env st'.env
    settled (some v) k g e = outputs (v ∷ []) (next-env _ st' e)
    settled none k g e = g e

    finished :
        (eff : Effect Mem) (ins : List ℕ) (consts : List TempIdx)
        → finish m temps op.opc ins consts store st eff ≡ next st'
        → WritesOutputs op st.env st'.env
    finished (goes outs mem) ins consts e = outputs outs (next-env _ st' e)
    finished (leaves mem) ins consts e = absurd (cc)

    perform-writes : perform m temps op st ≡ next st' → WritesOutputs op st.env st'.env
    unfolding perform
    perform-writes e = finished _ _ _ e

    compute-writes : compute m temps op st ≡ next st' → WritesOutputs op st.env st'.env
    unfolding compute
    compute-writes e =
        settled
          (pure op.opc op.op_type (value temps st.env (op.args 1)) (value temps st.env (op.args 2)))
          (perform m temps op st) perform-writes e

    branched :
        (b : Bool) (l : TempIdx) → (if b then jump l st else next st) ≡ next st' → st'.env ≡ st.env
    branched true l e = absurd (cc)
    branched false l e = next-env st st' e

    step_as-writes :
        (o : Opcode) → step_as m temps o op st ≡ next st' → WritesOutputs op st.env st'.env
    unfolding step_as branch
    step_as-writes Opcode.nop e = nothing (next-env st st' e)
    step_as-writes Opcode.br e = absurd (cc)
    step_as-writes Opcode.br_cond e = nothing (branched _ _ e)
    step_as-writes _ e = compute-writes e

    -- An operation that goes on writes its outputs at most.
    pub step-writes : step m temps op st ≡ next st' → WritesOutputs op st.env st'.env
    unfolding step
    step-writes e = step_as-writes op.opc e

-- Two blocks whose first operations have one outcome: both go on with what is left, or both leave.
pub run-continued :
    (m : Machine) (ts us : List Temp) (o o' : Op) (ops ops' : List Op) (st : State m.Mem)
    (r : Outcome m.Mem)
    → step m ts o st ≡ r
    → step m us o' st ≡ r
    → ((st' : State m.Mem) → r ≡ next st' → run m ts ops st' ≡ run m us ops' st')
    → run m ts (o ∷ ops) st ≡ run m us (o' ∷ ops') st
unfolding run
run-continued m ts us o o' ops ops' st (next st') e f h = rw (e, f, run) (h st' refl)
run-continued m ts us o o' ops ops' st (jump l st') e f h = rw (e, f, run) refl
run-continued m ts us o o' ops ops' st (exit opc ins consts st') e f h = rw (e, f, run) refl
