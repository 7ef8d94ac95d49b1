-- ===== src/IrBuilder/Memory.antt =====
-- core/src/ir_builder.rs: loads and stores of the CPU state.
use tcg_rs.Base.{ℕ, ◌%◌, ◌^◌, [], ◌∷◌}
use tcg_rs.Cond.{Cond, encode}
use tcg_rs.IrType.{IrType}
use tcg_rs.Temp.{TempIdx}
use tcg_rs.Opcode.{Opcode}
use tcg_rs.Context.{Context}
use tcg_rs.IrBuilder.{carg, emit, emit_unary, emit_sized_load, emit_sized_store}

unfoldable pub gen_extrl_i64_i32 : Context → TempIdx → TempIdx → Context × TempIdx
unfolding emit_unary
gen_extrl_i64_i32 ctx d s = emit_unary ctx Opcode.extrl_i64_i32 IrType.i32 d s

unfoldable pub gen_extrh_i64_i32 : Context → TempIdx → TempIdx → Context × TempIdx
unfolding emit_unary
gen_extrh_i64_i32 ctx d s = emit_unary ctx Opcode.extrh_i64_i32 IrType.i32 d s

unfoldable pub gen_setcond :
    Context → IrType → TempIdx → TempIdx → TempIdx → Cond → Context × TempIdx
gen_setcond ctx ty d a b cond =
    (emit ctx Opcode.set_cond ty (d ∷ a ∷ b ∷ (carg (encode cond)) ∷ []), d)

unfoldable pub gen_ld : Context → IrType → TempIdx → TempIdx → ℕ → Context × TempIdx
gen_ld ctx ty dst base offset =
    (emit ctx Opcode.ld ty (dst ∷ base ∷ (carg (offset % 2 ^ 32)) ∷ []), dst)

unfoldable pub gen_st : Context → IrType → TempIdx → TempIdx → ℕ → Context
gen_st ctx ty src base offset = emit ctx Opcode.st ty (src ∷ base ∷ (carg (offset % 2 ^ 32)) ∷ [])

unfoldable pub gen_ld8u : Context → IrType → TempIdx → TempIdx → ℕ → Context × TempIdx
unfolding emit_sized_load
gen_ld8u ctx ty dst base offset = emit_sized_load ctx Opcode.ld8_u ty dst base offset

unfoldable pub gen_ld8s : Context → IrType → TempIdx → TempIdx → ℕ → Context × TempIdx
unfolding emit_sized_load
gen_ld8s ctx ty dst base offset = emit_sized_load ctx Opcode.ld8_s ty dst base offset

unfoldable pub gen_ld16u : Context → IrType → TempIdx → TempIdx → ℕ → Context × TempIdx
unfolding emit_sized_load
gen_ld16u ctx ty dst base offset = emit_sized_load ctx Opcode.ld16_u ty dst base offset

unfoldable pub gen_ld16s : Context → IrType → TempIdx → TempIdx → ℕ → Context × TempIdx
unfolding emit_sized_load
gen_ld16s ctx ty dst base offset = emit_sized_load ctx Opcode.ld16_s ty dst base offset

unfoldable pub gen_ld32u : Context → IrType → TempIdx → TempIdx → ℕ → Context × TempIdx
unfolding emit_sized_load
gen_ld32u ctx ty dst base offset = emit_sized_load ctx Opcode.ld32_u ty dst base offset

unfoldable pub gen_ld32s : Context → IrType → TempIdx → TempIdx → ℕ → Context × TempIdx
unfolding emit_sized_load
gen_ld32s ctx ty dst base offset = emit_sized_load ctx Opcode.ld32_s ty dst base offset

unfoldable pub gen_st8 : Context → IrType → TempIdx → TempIdx → ℕ → Context
unfolding emit_sized_store
gen_st8 ctx ty src base offset = emit_sized_store ctx Opcode.st8 ty src base offset

unfoldable pub gen_st16 : Context → IrType → TempIdx → TempIdx → ℕ → Context
unfolding emit_sized_store
gen_st16 ctx ty src base offset = emit_sized_store ctx Opcode.st16 ty src base offset

unfoldable pub gen_st32 : Context → IrType → TempIdx → TempIdx → ℕ → Context
unfolding emit_sized_store
gen_st32 ctx ty src base offset = emit_sized_store ctx Opcode.st32 ty src base offset

unfoldable pub gen_br : Context → ℕ → Context
gen_br ctx label_id = emit ctx Opcode.br IrType.i64 ((carg label_id) ∷ [])
