-- ===== src/Semantics.antt =====
-- What the operations of the intermediate representation mean: the reference that the optimizer
-- is held to. docs/ir-ops.md describes the operations; a block is run from its first operation
-- until it leaves by a jump to a label or an exit.
pub mod Laws
use tcg_rs.Base.{
  ℕ, zero, suc, ◌+◌, ◌-◌, ◌*◌, ◌/◌, ◌%◌, ◌^◌, bit_and, bit_or, bit_xor, Bool, true, false, not,
  List, [], ◌∷◌, map, Option, none, some, get_elem?, ltb, leb, ◌==◌, if◌then◌else◌,
}
use tcg_rs.Base.Words.{ltb_ℤ, leb_ℤ, signed, arith_shr, rotate_left, rotate_right, sign_extend32}
use tcg_rs.IrType.{IrType, size_bits}
use tcg_rs.Cond.{Cond}
use tcg_rs.Temp.{Temp, TempIdx, is_const}
use tcg_rs.Opcode.{Opcode}
use tcg_rs.OpTable.{def}
use tcg_rs.Op.{Op, Args, slots}
use tcg_rs.Optimize.Eval.{cond_from_carg}

-- What an operation outside the optimizer's reach does with the values of its inputs and with its
-- constant arguments: it goes on with values for its outputs, or it leaves the block.
pub data Effect (Mem : Type 0) : Type 0 where
  goes : List ℕ → Mem → Effect Mem
  leaves : Mem → Effect Mem

-- Memory, calls, exits and all else that the model does not look into.
pub record Machine : Type 1 where
  pub Mem : Type 0
  pub exec : Opcode → IrType → ℕ → ℕ → List ℕ → List TempIdx → Mem → Effect Mem

pub record State (Mem : Type 0) : Type 0 where
  pub env : ℕ → ℕ
  pub mem : Mem

pub data Outcome (Mem : Type 0) : Type 0 where
  next : State Mem → Outcome Mem
  jump : TempIdx → State Mem → Outcome Mem
  exit : Opcode → List ℕ → List TempIdx → State Mem → Outcome Mem

abbrev pub trunc : IrType → ℕ → ℕ
trunc ty v = v % 2 ^ size_bits ty

-- A constant is its value; any other temporary is read at its own type.
abbrev pub read_as : Temp → ℕ → ℕ
read_as t v = if is_const t then t.val else trunc t.ty v

abbrev pub read_or : Option Temp → ℕ → ℕ
read_or none v = v
read_or (some t) v = read_as t v

abbrev pub value : List Temp → (ℕ → ℕ) → TempIdx → ℕ
value temps env t = read_or (get_elem? temps t) (env t)

abbrev pub update : (ℕ → ℕ) → TempIdx → ℕ → ℕ → ℕ
update env d v t = if t == d then v else env t

-- A condition on two words of the type's width.
unfoldable pub holds : ℕ → Cond → ℕ → ℕ → Bool
holds w Cond.always a b = true
holds w Cond.never a b = false
holds w Cond.eq a b = a == b
holds w Cond.ne a b = not (a == b)
holds w Cond.lt a b = ltb_ℤ (signed w a) (signed w b)
holds w Cond.ge a b = leb_ℤ (signed w b) (signed w a)
holds w Cond.le a b = leb_ℤ (signed w a) (signed w b)
holds w Cond.gt a b = ltb_ℤ (signed w b) (signed w a)
holds w Cond.ltu a b = ltb a b
holds w Cond.geu a b = leb b a
holds w Cond.leu a b = leb a b
holds w Cond.gtu a b = ltb b a
holds w Cond.tst_eq a b = bit_and a b == 0
holds w Cond.tst_ne a b = not (bit_and a b == 0)

-- The value of a binary operation on two words of `w` bits.
unfoldable pub binary : Opcode → ℕ → ℕ → ℕ → Option ℕ
binary Opcode.add w a b = some ((a + b) % 2 ^ w)
binary Opcode.sub w a b = some ((a + 2 ^ w - b) % 2 ^ w)
binary Opcode.mul w a b = some (a * b % 2 ^ w)
binary Opcode.and w a b = some (bit_and a b)
binary Opcode.or w a b = some (bit_or a b)
binary Opcode.xor w a b = some (bit_xor a b)
binary Opcode.and_c w a b = some (bit_and a (2 ^ w - 1 - b))
binary Opcode.shl w a b = some (a * 2 ^ (b % w) % 2 ^ w)
binary Opcode.shr w a b = some (a / 2 ^ (b % w))
binary Opcode.sar w a b = some (arith_shr w a (b % w))
binary Opcode.rot_l w a b = some (rotate_left w a (b % w))
binary Opcode.rot_r w a b = some (rotate_right w a (b % w))
binary _ w a b = none

-- The value of an operation that has one output and no other effect, from its first two inputs.
unfoldable pub pure : Opcode → IrType → ℕ → ℕ → Option ℕ
unfolding binary
pure Opcode.mov ty x y = some (trunc ty x)
pure Opcode.neg ty x y = some (trunc ty (2 ^ size_bits ty - trunc ty x))
pure Opcode.not ty x y = some (2 ^ size_bits ty - 1 - trunc ty x)
pure Opcode.ext_i32_i64 ty x y = some (sign_extend32 (trunc IrType.i32 x))
pure Opcode.ext_ui32_i64 ty x y = some (trunc IrType.i32 x)
pure Opcode.extrl_i64_i32 ty x y = some (trunc IrType.i32 x)
pure Opcode.extrh_i64_i32 ty x y = some (trunc IrType.i32 (x / 2 ^ 32))
pure opc ty x y = binary opc (size_bits ty) (trunc ty x) (trunc ty y)

abbrev pub head_or_zero : List ℕ → ℕ
head_or_zero [] = 0
head_or_zero (x ∷ xs) = x

abbrev pub rest : List ℕ → List ℕ
rest [] = []
rest (x ∷ xs) = xs

-- Writes the values to the `n` output slots from slot `i` on.
unfoldable pub write : Args → ℕ → ℕ → List ℕ → (ℕ → ℕ) → ℕ → ℕ
write args i zero vs env = env
write args i (suc n) vs env = write args (i + 1) n (rest vs) (update env (args i) (head_or_zero vs))

module _ (m : Machine) (temps : List Temp) where
  open m use {Mem, exec}

  -- Goes on with the outputs written by `store`, or leaves.
  abbrev pub finish :
      Opcode → List ℕ → List TempIdx → (List ℕ → ℕ → ℕ) → State Mem → Effect Mem → Outcome Mem
  finish o ins consts store st (goes outs mem) = next (record { env = store outs; mem = mem })
  finish o ins consts store st (leaves mem) = exit o ins consts (record st { mem = mem })

  unfoldable pub perform : Op → State Mem → Outcome Mem
  unfolding write
  perform op st =
      let d = def op.opc in
      let ins = map (value temps st.env) (slots op.args d.nb_oargs d.nb_iargs) in
      let consts = slots op.args (d.nb_oargs + d.nb_iargs) d.nb_cargs in
      finish op.opc ins consts (λ outs. write op.args 0 d.nb_oargs outs st.env) st
        (exec op.opc op.op_type op.param1 op.param2 ins consts st.mem)

  -- The value of a pure operation is written to its output.
  abbrev pub settle : Option ℕ → (List ℕ → ℕ → ℕ) → State Mem → Outcome Mem → Outcome Mem
  settle (some v) store st other = next (record st { env = store (v ∷ []) })
  settle none store st other = other

  unfoldable pub compute : Op → State Mem → Outcome Mem
  unfolding pure perform
  compute op st =
      settle
        (pure op.opc op.op_type (value temps st.env (op.args 1)) (value temps st.env (op.args 2)))
        (λ vs. write op.args 0 (def op.opc).nb_oargs vs st.env) st (perform op st)

  unfoldable pub branch : Op → State Mem → Outcome Mem
  unfolding holds
  branch op st =
      let w = size_bits op.op_type in
      let x = trunc op.op_type (value temps st.env (op.args 0)) in
      let y = trunc op.op_type (value temps st.env (op.args 1)) in
      if holds w (cond_from_carg (op.args 2)) x y then jump (op.args 3) st else next st

  unfoldable pub step_as : Opcode → Op → State Mem → Outcome Mem
  unfolding branch compute
  step_as Opcode.nop op st = next st
  step_as Opcode.br op st = jump (op.args 0) st
  step_as Opcode.br_cond op st = branch op st
  step_as _ op st = compute op st

  unfoldable pub step : Op → State Mem → Outcome Mem
  step op st = step_as op.opc op st

  unfoldable pub run : List Op → State Mem → Outcome Mem
  run [] st = next st
  run (op ∷ ops) st = elim (step op st) [
    | next st' ↦ run ops st'
    | jump l st' ↦ jump l st'
    | exit o ins consts st' ↦ exit o ins consts st'
  ]
