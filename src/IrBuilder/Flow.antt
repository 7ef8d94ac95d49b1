-- ===== src/IrBuilder/Flow.antt =====
-- core/src/ir_builder.rs: control flow, calls and guest memory.
use tcg_rs.Base.{ℕ, ◌%◌, ◌/◌, ◌^◌, List, [], ◌∷◌, get_or}
use tcg_rs.Cond.{Cond, encode}
use tcg_rs.IrType.{IrType}
use tcg_rs.Temp.{TempIdx}
use tcg_rs.Opcode.{Opcode}
use tcg_rs.Context.{Context, new_const}
use tcg_rs.IrBuilder.{carg, emit}

unfoldable pub gen_brcond : Context → IrType → TempIdx → TempIdx → Cond → ℕ → Context
gen_brcond ctx ty a b cond label_id =
    emit ctx Opcode.br_cond ty (a ∷ b ∷ (carg (encode cond)) ∷ (carg label_id) ∷ [])

unfoldable pub gen_set_label : Context → ℕ → Context
gen_set_label ctx label_id = emit ctx Opcode.set_label IrType.i64 ((carg label_id) ∷ [])

unfoldable pub gen_goto_tb : Context → ℕ → Context
gen_goto_tb ctx tb_idx = emit ctx Opcode.goto_tb IrType.i64 ((carg tb_idx) ∷ [])

unfoldable pub gen_exit_tb : Context → ℕ → Context
gen_exit_tb ctx val = emit ctx Opcode.exit_tb IrType.i64 ((carg (val % 2 ^ 32)) ∷ [])

unfoldable pub gen_insn_start : Context → ℕ → Context
gen_insn_start ctx pc =
    emit ctx Opcode.insn_start IrType.i64
      ((carg (pc % 2 ^ 32)) ∷ (carg (pc / 2 ^ 32 % 2 ^ 32)) ∷ [])

unfoldable pub gen_goto_ptr : Context → TempIdx → Context
gen_goto_ptr ctx ptr = emit ctx Opcode.goto_ptr IrType.i64 (ptr ∷ [])

unfoldable pub gen_mb : Context → ℕ → Context
gen_mb ctx bar_type = emit ctx Opcode.mb IrType.i64 ((carg bar_type) ∷ [])

-- At most six arguments; the places that are left hold the constant 0.
unfoldable pub gen_call : Context → TempIdx → ℕ → List TempIdx → Context × TempIdx
gen_call ctx dst helper args =
    let (ctx', filler) = new_const ctx IrType.i64 0 in
    (
      emit ctx' Opcode.call IrType.i64 (
          dst
          ∷ get_or args 0 filler
          ∷ get_or args 1 filler
          ∷ get_or args 2 filler
          ∷ get_or args 3 filler
          ∷ get_or args 4 filler
          ∷ get_or args 5 filler
          ∷ carg (helper % 2 ^ 32)
          ∷ carg (helper / 2 ^ 32 % 2 ^ 32)
          ∷ []),
      dst,
    )

unfoldable pub gen_discard : Context → IrType → TempIdx → Context
gen_discard ctx ty t = emit ctx Opcode.discard ty (t ∷ [])

unfoldable pub gen_qemu_ld : Context → IrType → TempIdx → TempIdx → ℕ → Context × TempIdx
gen_qemu_ld ctx ty dst addr memop =
    (emit ctx Opcode.qemu_ld ty (dst ∷ addr ∷ (carg memop) ∷ []), dst)

unfoldable pub gen_qemu_st : Context → IrType → TempIdx → TempIdx → ℕ → Context
gen_qemu_st ctx ty val addr memop = emit ctx Opcode.qemu_st ty (val ∷ addr ∷ (carg memop) ∷ [])

unfoldable pub gen_qemu_ld2 : Context → IrType → TempIdx → TempIdx → TempIdx → ℕ → Context
gen_qemu_ld2 ctx ty dl dh addr memop =
    emit ctx Opcode.qemu_ld2 ty (dl ∷ dh ∷ addr ∷ (carg memop) ∷ [])

unfoldable pub gen_qemu_st2 : Context → IrType → TempIdx → TempIdx → TempIdx → ℕ → Context
gen_qemu_st2 ctx ty vl vh addr memop =
    emit ctx Opcode.qemu_st2 ty (vl ∷ vh ∷ addr ∷ (carg memop) ∷ [])
