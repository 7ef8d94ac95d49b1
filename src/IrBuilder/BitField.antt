-- ===== src/IrBuilder/BitField.antt =====
-- core/src/ir_builder.rs: bit fields, byte swaps, comparisons, moves and conversions.
use tcg_rs.Base.{ℕ, [], ◌∷◌}
use tcg_rs.Cond.{Cond, encode}
use tcg_rs.IrType.{IrType}
use tcg_rs.Temp.{TempIdx}
use tcg_rs.Opcode.{Opcode}
use tcg_rs.Context.{Context}
use tcg_rs.IrBuilder.{carg, emit, emit_binary, emit_unary}

unfoldable pub gen_sextract : Context → IrType → TempIdx → TempIdx → ℕ → ℕ → Context × TempIdx
gen_sextract ctx ty d src ofs len =
    (emit ctx Opcode.s_extract ty (d ∷ src ∷ (carg ofs) ∷ (carg len) ∷ []), d)

unfoldable pub gen_deposit :
    Context → IrType → TempIdx → TempIdx → TempIdx → ℕ → ℕ → Context × TempIdx
gen_deposit ctx ty d a b ofs len =
    (emit ctx Opcode.deposit ty (d ∷ a ∷ b ∷ (carg ofs) ∷ (carg len) ∷ []), d)

unfoldable pub gen_extract2 : Context → IrType → TempIdx → TempIdx → TempIdx → ℕ → Context × TempIdx
gen_extract2 ctx ty d al ah ofs = (emit ctx Opcode.extract2 ty (d ∷ al ∷ ah ∷ (carg ofs) ∷ []), d)

unfoldable pub gen_bswap16 : Context → IrType → TempIdx → TempIdx → ℕ → Context × TempIdx
gen_bswap16 ctx ty d src flags = (emit ctx Opcode.bswap16 ty (d ∷ src ∷ (carg flags) ∷ []), d)

unfoldable pub gen_bswap32 : Context → IrType → TempIdx → TempIdx → ℕ → Context × TempIdx
gen_bswap32 ctx ty d src flags = (emit ctx Opcode.bswap32 ty (d ∷ src ∷ (carg flags) ∷ []), d)

unfoldable pub gen_bswap64 : Context → IrType → TempIdx → TempIdx → ℕ → Context × TempIdx
gen_bswap64 ctx ty d src flags = (emit ctx Opcode.bswap64 ty (d ∷ src ∷ (carg flags) ∷ []), d)

unfoldable pub gen_clz : Context → IrType → TempIdx → TempIdx → TempIdx → Context × TempIdx
unfolding emit_binary
gen_clz ctx ty d a b = emit_binary ctx Opcode.clz ty d a b

unfoldable pub gen_ctz : Context → IrType → TempIdx → TempIdx → TempIdx → Context × TempIdx
unfolding emit_binary
gen_ctz ctx ty d a b = emit_binary ctx Opcode.ctz ty d a b

unfoldable pub gen_ctpop : Context → IrType → TempIdx → TempIdx → Context × TempIdx
unfolding emit_unary
gen_ctpop ctx ty d src = emit_unary ctx Opcode.ct_pop ty d src

unfoldable pub gen_brcond2_i32 :
    Context → TempIdx → TempIdx → TempIdx → TempIdx → Cond → ℕ → Context
gen_brcond2_i32 ctx al ah bl bh cond label_id =
    emit ctx Opcode.br_cond2_i32 IrType.i32
      (al ∷ ah ∷ bl ∷ bh ∷ (carg (encode cond)) ∷ (carg label_id) ∷ [])

unfoldable pub gen_setcond2_i32 :
    Context → TempIdx → TempIdx → TempIdx → TempIdx → TempIdx → Cond → Context × TempIdx
gen_setcond2_i32 ctx d al ah bl bh cond = (
  emit ctx Opcode.set_cond2_i32 IrType.i32 (d ∷ al ∷ ah ∷ bl ∷ bh ∷ (carg (encode cond)) ∷ []),
  d,
)

unfoldable pub gen_negsetcond :
    Context → IrType → TempIdx → TempIdx → TempIdx → Cond → Context × TempIdx
gen_negsetcond ctx ty d a b cond =
    (emit ctx Opcode.neg_set_cond ty (d ∷ a ∷ b ∷ (carg (encode cond)) ∷ []), d)

unfoldable pub gen_movcond :
    Context → IrType → TempIdx → TempIdx → TempIdx → TempIdx → TempIdx → Cond → Context × TempIdx
gen_movcond ctx ty d c1 c2 v1 v2 cond =
    (emit ctx Opcode.mov_cond ty (d ∷ c1 ∷ c2 ∷ v1 ∷ v2 ∷ (carg (encode cond)) ∷ []), d)

unfoldable pub gen_neg : Context → IrType → TempIdx → TempIdx → Context × TempIdx
unfolding emit_unary
gen_neg ctx ty d s = emit_unary ctx Opcode.neg ty d s

unfoldable pub gen_not : Context → IrType → TempIdx → TempIdx → Context × TempIdx
unfolding emit_unary
gen_not ctx ty d s = emit_unary ctx Opcode.not ty d s

unfoldable pub gen_mov : Context → IrType → TempIdx → TempIdx → Context × TempIdx
unfolding emit_unary
gen_mov ctx ty d s = emit_unary ctx Opcode.mov ty d s

unfoldable pub gen_ext_i32_i64 : Context → TempIdx → TempIdx → Context × TempIdx
unfolding emit_unary
gen_ext_i32_i64 ctx d s = emit_unary ctx Opcode.ext_i32_i64 IrType.i64 d s

unfoldable pub gen_ext_u32_i64 : Context → TempIdx → TempIdx → Context × TempIdx
unfolding emit_unary
gen_ext_u32_i64 ctx d s = emit_unary ctx Opcode.ext_ui32_i64 IrType.i64 d s
