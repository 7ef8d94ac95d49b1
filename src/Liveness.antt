-- ===== src/Liveness.antt =====
-- backend/src/liveness.rs: the backward pass that marks the last uses of temporaries.
pub mod Marks
pub mod Needed
pub mod Walk
use tcg_rs.Base.{
  ℕ, zero, suc, ◌+◌, List, [], ◌∷◌, Bool, true, false, not, ◌&&◌, Option, none, some, length,
  get_elem?, modify, ltb, ◌==◌, if◌then◌else◌, ◌>>=◌,
}
use tcg_rs.Opcode.{Opcode}
use tcg_rs.OpFlags.{OpDef, contains, bb_end}
use tcg_rs.OpTable.{def}
use tcg_rs.Temp.{Temp, TempIdx, TempKind}
use tcg_rs.Op.{Op, Args, LifeData, set_dead, set_sync}
use tcg_rs.Context.{Context}

-- `temp_state`, which is read below the number of temporaries alone.
abbrev pub TempState : Type 0
TempState = ℕ → Bool

-- The loop over the first `nb_globals` states.
abbrev pub globals_live : ℕ → TempState → TempState
globals_live nb_globals s t = if ltb t nb_globals then true else s t

abbrev pub set_state : TempState → ℕ → Bool → TempState
set_state s t v x = if x == t then v else s x

abbrev pub is_nop : Opcode → Bool
is_nop Opcode.nop = true
is_nop Opcode.insn_start = true
is_nop _ = false

abbrev pub is_global_kind : TempKind → Bool
is_global_kind TempKind.global = true
is_global_kind _ = false

-- `ctx.temp(t).kind == TempKind::Global`, for a temporary of the context.
unfoldable pub is_global_at : List Temp → ℕ → Bool
is_global_at temps t = elim (get_elem? temps t) [
  | none ↦ false
  | some temp ↦ is_global_kind temp.kind
]

abbrev pub output_arg : ℕ → Args → ℕ → LifeData × TempState → LifeData × TempState
output_arg nb_temps args i (life, s) =
    let t = args i in
    if ltb t nb_temps
    then ((if s t then life else set_dead life i), set_state s t false)
    else (life, s)

-- The loop over the outputs: `n` of them from the argument `i` on.
unfoldable pub output_args : ℕ → Args → ℕ → ℕ → LifeData × TempState → LifeData × TempState
output_args nb_temps args zero i r = r
output_args nb_temps args (suc n) i r =
    output_args nb_temps args n (suc i) (output_arg nb_temps args i r)

abbrev pub input_arg : List Temp → Args → ℕ → LifeData × TempState → LifeData × TempState
input_arg temps args i (life, s) =
    let t = args i in
    let dead = set_dead life i in
    let last = if is_global_at temps t then set_sync dead i else dead in
    if ltb t (length temps) then ((if s t then life else last), set_state s t true) else (life, s)

unfoldable pub input_args : List Temp → Args → ℕ → ℕ → LifeData × TempState → LifeData × TempState
input_args temps args zero i r = r
input_args temps args (suc n) i r = input_args temps args n (suc i) (input_arg temps args i r)

abbrev pub set_life : LifeData → Op → Op
set_life life op = record op { life = life }

-- The states before an operation, from those after it.
unfoldable pub bb_end_state : ℕ → Op → TempState → TempState
bb_end_state nb_globals op s =
    if contains (def op.opc).flags bb_end then globals_live nb_globals s else s

-- The liveness bits of an operation, and the states before it.
unfoldable pub op_life : List Temp → Op → TempState → LifeData × TempState
unfolding output_args input_args
op_life temps op s =
    let d = def op.opc in
    input_args temps op.args d.nb_iargs d.nb_oargs
      (output_args (length temps) op.args d.nb_oargs 0 (0, s))

-- The walk over the first `n` operations, the last of them first. `none` is a panic: an operation
-- whose own index is not one of the list.
unfoldable pub walk : List Temp → ℕ → ℕ → List Op → TempState → Option (List Op)
unfolding op_life bb_end_state
walk temps nb_globals zero ops s = some ops
walk temps nb_globals (suc n) ops s = do
  op ← get_elem? ops n
  let s1 = bb_end_state nb_globals op s
  let (life, s2) = op_life temps op s1
  let skipped = walk temps nb_globals n ops s1
  let marked = walk temps nb_globals n (modify ops op.idx (set_life life)) s2
  if is_nop op.opc then skipped else (if ltb op.idx (length ops) then marked else none)

unfoldable pub liveness_analysis : Context → Option Context
unfolding walk
liveness_analysis ctx = do
  ops ←
      walk ctx.temps ctx.nb_globals (length ctx.ops) ctx.ops
        (globals_live ctx.nb_globals (λ t. false))
  some (record ctx { ops = ops })
