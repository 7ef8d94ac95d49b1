-- ===== src/IrBuilder.antt =====
-- core/src/ir_builder.rs: the methods that append operations. Here are the helpers that they share;
-- the children hold the methods, by the kind of operation. A method that returns its destination
-- gives it beside the new context.
pub mod Alu
pub mod BitField
pub mod Memory
pub mod Flow
pub mod Vector
pub mod Calls
pub mod Perform
pub mod Formed
use tcg_rs.Base.{ℕ, ◌%◌, ◌^◌, List, [], ◌∷◌}
use tcg_rs.IrType.{IrType}
use tcg_rs.Temp.{TempIdx}
use tcg_rs.Opcode.{Opcode}
use tcg_rs.Op.{with_args}
use tcg_rs.Context.{Context, emit_op, next_op_idx}

-- A constant argument is a number in the place of a temporary's index.
abbrev pub carg : ℕ → TempIdx
carg v = v

-- The three lines that every method ends with.
unfoldable pub emit : Context → Opcode → IrType → List TempIdx → Context
unfolding emit_op next_op_idx with_args
emit ctx opc ty args = (emit_op ctx (with_args (next_op_idx ctx) opc ty args)).0

-- An offset, an i64, is its 64-bit word.
unfoldable pub emit_binary :
    Context → Opcode → IrType → TempIdx → TempIdx → TempIdx → Context × TempIdx
emit_binary ctx opc ty dst a b = (emit ctx opc ty (dst ∷ a ∷ b ∷ []), dst)

unfoldable pub emit_unary : Context → Opcode → IrType → TempIdx → TempIdx → Context × TempIdx
emit_unary ctx opc ty dst src = (emit ctx opc ty (dst ∷ src ∷ []), dst)

unfoldable pub emit_sized_load :
    Context → Opcode → IrType → TempIdx → TempIdx → ℕ → Context × TempIdx
emit_sized_load ctx opc ty dst base offset =
    (emit ctx opc ty (dst ∷ base ∷ (carg (offset % 2 ^ 32)) ∷ []), dst)

unfoldable pub emit_sized_store : Context → Opcode → IrType → TempIdx → TempIdx → ℕ → Context
emit_sized_store ctx opc ty src base offset =
    emit ctx opc ty (src ∷ base ∷ (carg (offset % 2 ^ 32)) ∷ [])

unfoldable pub emit_vec_binary :
    Context → Opcode → IrType → TempIdx → TempIdx → TempIdx → Context × TempIdx
emit_vec_binary ctx opc ty d a b = (emit ctx opc ty (d ∷ a ∷ b ∷ []), d)

unfoldable pub emit_vec_unary : Context → Opcode → IrType → TempIdx → TempIdx → Context × TempIdx
emit_vec_unary ctx opc ty d s = (emit ctx opc ty (d ∷ s ∷ []), d)

unfoldable pub emit_vec_shift_imm :
    Context → Opcode → IrType → TempIdx → TempIdx → ℕ → Context × TempIdx
emit_vec_shift_imm ctx opc ty d s imm = (emit ctx opc ty (d ∷ s ∷ (carg imm) ∷ []), d)
