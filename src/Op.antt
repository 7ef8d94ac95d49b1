-- ===== src/Op.antt =====
-- core/src/op.rs: one operation of the intermediate representation, and its liveness bits.
pub mod Life
use tcg_rs.Base.{
  ℕ, zero, suc, ◌+◌, ◌*◌, ◌^◌, ◌%◌, bit_and, bit_or, Bool, not, List, [], ◌∷◌, length, take, ◌==◌,
  if◌then◌else◌,
}
use Prim.Native.Nat.{min}
use tcg_rs.Opcode.{Opcode}
use tcg_rs.OpTable.{def}
use tcg_rs.IrType.{IrType}
use tcg_rs.Temp.{TempIdx}

abbrev pub max_op_args : ℕ
max_op_args = 10

-- `LifeData`, a u32: two bits for each argument.
abbrev pub LifeData : Type 0
LifeData = ℕ

unfoldable pub dead_arg : ℕ → ℕ
dead_arg n = 2 ^ (n * 2) % 2 ^ 32

unfoldable pub sync_arg : ℕ → ℕ
sync_arg n = 2 ^ (n * 2 + 1) % 2 ^ 32

unfoldable pub is_dead : LifeData → ℕ → Bool
unfolding dead_arg
is_dead life n = not (bit_and life (dead_arg n) == 0)

unfoldable pub is_sync : LifeData → ℕ → Bool
unfolding sync_arg
is_sync life n = not (bit_and life (sync_arg n) == 0)

unfoldable pub set_dead : LifeData → ℕ → LifeData
unfolding dead_arg
set_dead life n = bit_or life (dead_arg n)

unfoldable pub set_sync : LifeData → ℕ → LifeData
unfolding sync_arg
set_sync life n = bit_or life (sync_arg n)

-- The ten argument slots, as a function from the slot's number.
abbrev pub Args : Type 0
Args = ℕ → TempIdx

abbrev pub set_arg : Args → ℕ → TempIdx → Args
set_arg args i t j = if j == i then t else args j

-- `output_pref` holds the preferred registers of the two outputs.
pub record Op : Type 0 where
  pub idx : ℕ
  pub opc : Opcode
  pub op_type : IrType
  pub param1 : ℕ
  pub param2 : ℕ
  pub life : LifeData
  pub output_pref : ℕ × ℕ
  pub args : Args
  pub nargs : ℕ

unfoldable pub new_op : ℕ → Opcode → IrType → Op
new_op i o t = record {
  idx = i;
  opc = o;
  op_type = t;
  param1 = 0;
  param2 = 0;
  life = 0;
  output_pref = (0, 0);
  args = λ _. 0;
  nargs = 0;
}

-- The slots of a slice, from slot `i` on; the other slots keep the default.
abbrev copy_from_slice : List TempIdx → ℕ → Args → Args
copy_from_slice [] i args = args
copy_from_slice (t ∷ ts) i args = copy_from_slice ts (i + 1) (set_arg args i t)

unfoldable pub with_args : ℕ → Opcode → IrType → List TempIdx → Op
unfolding new_op
with_args i o t ts =
    let n = min (length ts) max_op_args in
    record (new_op i o t) { args = copy_from_slice (take n ts) 0 (λ _. 0); nargs = n }

-- The `n` slots from slot `start` on.
abbrev pub slots : Args → ℕ → ℕ → List TempIdx
slots args start zero = []
slots args start (suc n) = args start ∷ slots args (start + 1) n

unfoldable pub oargs : Op → List TempIdx
oargs op = slots op.args 0 (def op.opc).nb_oargs

unfoldable pub iargs : Op → List TempIdx
iargs op = let d = def op.opc in slots op.args d.nb_oargs d.nb_iargs

unfoldable pub cargs : Op → List TempIdx
cargs op = let d = def op.opc in slots op.args (d.nb_oargs + d.nb_iargs) d.nb_cargs
