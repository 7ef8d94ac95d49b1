-- ===== src/IrBuilder/Vector.antt =====
-- core/src/ir_builder.rs: vector operations.
use tcg_rs.Base.{ℕ, ◌%◌, ◌^◌, [], ◌∷◌}
use tcg_rs.Cond.{Cond, encode}
use tcg_rs.IrType.{IrType}
use tcg_rs.Temp.{TempIdx}
use tcg_rs.Opcode.{Opcode}
use tcg_rs.Context.{Context}
use tcg_rs.IrBuilder.{carg, emit, emit_vec_binary, emit_vec_unary, emit_vec_shift_imm}

unfoldable pub gen_dup_vec : Context → IrType → TempIdx → TempIdx → Context × TempIdx
unfolding emit_vec_unary
gen_dup_vec ctx ty d s = emit_vec_unary ctx Opcode.dup_vec ty d s

unfoldable pub gen_dup2_vec : Context → IrType → TempIdx → TempIdx → TempIdx → Context × TempIdx
unfolding emit_vec_binary
gen_dup2_vec ctx ty d a b = emit_vec_binary ctx Opcode.dup2_vec ty d a b

unfoldable pub gen_ld_vec : Context → IrType → TempIdx → TempIdx → ℕ → Context × TempIdx
gen_ld_vec ctx ty dst base offset =
    (emit ctx Opcode.ld_vec ty (dst ∷ base ∷ (carg (offset % 2 ^ 32)) ∷ []), dst)

unfoldable pub gen_st_vec : Context → IrType → TempIdx → TempIdx → ℕ → Context
gen_st_vec ctx ty src base offset =
    emit ctx Opcode.st_vec ty (src ∷ base ∷ (carg (offset % 2 ^ 32)) ∷ [])

unfoldable pub gen_dupm_vec : Context → IrType → TempIdx → TempIdx → ℕ → Context × TempIdx
gen_dupm_vec ctx ty dst base offset =
    (emit ctx Opcode.dupm_vec ty (dst ∷ base ∷ (carg (offset % 2 ^ 32)) ∷ []), dst)

unfoldable pub gen_add_vec : Context → IrType → TempIdx → TempIdx → TempIdx → Context × TempIdx
unfolding emit_vec_binary
gen_add_vec ctx ty d a b = emit_vec_binary ctx Opcode.add_vec ty d a b

unfoldable pub gen_sub_vec : Context → IrType → TempIdx → TempIdx → TempIdx → Context × TempIdx
unfolding emit_vec_binary
gen_sub_vec ctx ty d a b = emit_vec_binary ctx Opcode.sub_vec ty d a b

unfoldable pub gen_mul_vec : Context → IrType → TempIdx → TempIdx → TempIdx → Context × TempIdx
unfolding emit_vec_binary
gen_mul_vec ctx ty d a b = emit_vec_binary ctx Opcode.mul_vec ty d a b

unfoldable pub gen_neg_vec : Context → IrType → TempIdx → TempIdx → Context × TempIdx
unfolding emit_vec_unary
gen_neg_vec ctx ty d s = emit_vec_unary ctx Opcode.neg_vec ty d s

unfoldable pub gen_abs_vec : Context → IrType → TempIdx → TempIdx → Context × TempIdx
unfolding emit_vec_unary
gen_abs_vec ctx ty d s = emit_vec_unary ctx Opcode.abs_vec ty d s

unfoldable pub gen_ssadd_vec : Context → IrType → TempIdx → TempIdx → TempIdx → Context × TempIdx
unfolding emit_vec_binary
gen_ssadd_vec ctx ty d a b = emit_vec_binary ctx Opcode.ssadd_vec ty d a b

unfoldable pub gen_usadd_vec : Context → IrType → TempIdx → TempIdx → TempIdx → Context × TempIdx
unfolding emit_vec_binary
gen_usadd_vec ctx ty d a b = emit_vec_binary ctx Opcode.usadd_vec ty d a b

unfoldable pub gen_sssub_vec : Context → IrType → TempIdx → TempIdx → TempIdx → Context × TempIdx
unfolding emit_vec_binary
gen_sssub_vec ctx ty d a b = emit_vec_binary ctx Opcode.sssub_vec ty d a b

unfoldable pub gen_ussub_vec : Context → IrType → TempIdx → TempIdx → TempIdx → Context × TempIdx
unfolding emit_vec_binary
gen_ussub_vec ctx ty d a b = emit_vec_binary ctx Opcode.ussub_vec ty d a b

unfoldable pub gen_smin_vec : Context → IrType → TempIdx → TempIdx → TempIdx → Context × TempIdx
unfolding emit_vec_binary
gen_smin_vec ctx ty d a b = emit_vec_binary ctx Opcode.smin_vec ty d a b

unfoldable pub gen_umin_vec : Context → IrType → TempIdx → TempIdx → TempIdx → Context × TempIdx
unfolding emit_vec_binary
gen_umin_vec ctx ty d a b = emit_vec_binary ctx Opcode.umin_vec ty d a b

unfoldable pub gen_smax_vec : Context → IrType → TempIdx → TempIdx → TempIdx → Context × TempIdx
unfolding emit_vec_binary
gen_smax_vec ctx ty d a b = emit_vec_binary ctx Opcode.smax_vec ty d a b

unfoldable pub gen_umax_vec : Context → IrType → TempIdx → TempIdx → TempIdx → Context × TempIdx
unfolding emit_vec_binary
gen_umax_vec ctx ty d a b = emit_vec_binary ctx Opcode.umax_vec ty d a b

unfoldable pub gen_and_vec : Context → IrType → TempIdx → TempIdx → TempIdx → Context × TempIdx
unfolding emit_vec_binary
gen_and_vec ctx ty d a b = emit_vec_binary ctx Opcode.and_vec ty d a b

unfoldable pub gen_or_vec : Context → IrType → TempIdx → TempIdx → TempIdx → Context × TempIdx
unfolding emit_vec_binary
gen_or_vec ctx ty d a b = emit_vec_binary ctx Opcode.or_vec ty d a b

unfoldable pub gen_xor_vec : Context → IrType → TempIdx → TempIdx → TempIdx → Context × TempIdx
unfolding emit_vec_binary
gen_xor_vec ctx ty d a b = emit_vec_binary ctx Opcode.xor_vec ty d a b

unfoldable pub gen_andc_vec : Context → IrType → TempIdx → TempIdx → TempIdx → Context × TempIdx
unfolding emit_vec_binary
gen_andc_vec ctx ty d a b = emit_vec_binary ctx Opcode.andc_vec ty d a b

unfoldable pub gen_orc_vec : Context → IrType → TempIdx → TempIdx → TempIdx → Context × TempIdx
unfolding emit_vec_binary
gen_orc_vec ctx ty d a b = emit_vec_binary ctx Opcode.orc_vec ty d a b

unfoldable pub gen_nand_vec : Context → IrType → TempIdx → TempIdx → TempIdx → Context × TempIdx
unfolding emit_vec_binary
gen_nand_vec ctx ty d a b = emit_vec_binary ctx Opcode.nand_vec ty d a b

unfoldable pub gen_nor_vec : Context → IrType → TempIdx → TempIdx → TempIdx → Context × TempIdx
unfolding emit_vec_binary
gen_nor_vec ctx ty d a b = emit_vec_binary ctx Opcode.nor_vec ty d a b

unfoldable pub gen_eqv_vec : Context → IrType → TempIdx → TempIdx → TempIdx → Context × TempIdx
unfolding emit_vec_binary
gen_eqv_vec ctx ty d a b = emit_vec_binary ctx Opcode.eqv_vec ty d a b

unfoldable pub gen_not_vec : Context → IrType → TempIdx → TempIdx → Context × TempIdx
unfolding emit_vec_unary
gen_not_vec ctx ty d s = emit_vec_unary ctx Opcode.not_vec ty d s

unfoldable pub gen_shli_vec : Context → IrType → TempIdx → TempIdx → ℕ → Context × TempIdx
unfolding emit_vec_shift_imm
gen_shli_vec ctx ty d s imm = emit_vec_shift_imm ctx Opcode.shli_vec ty d s imm

unfoldable pub gen_shri_vec : Context → IrType → TempIdx → TempIdx → ℕ → Context × TempIdx
unfolding emit_vec_shift_imm
gen_shri_vec ctx ty d s imm = emit_vec_shift_imm ctx Opcode.shri_vec ty d s imm

unfoldable pub gen_sari_vec : Context → IrType → TempIdx → TempIdx → ℕ → Context × TempIdx
unfolding emit_vec_shift_imm
gen_sari_vec ctx ty d s imm = emit_vec_shift_imm ctx Opcode.sari_vec ty d s imm

unfoldable pub gen_rotli_vec : Context → IrType → TempIdx → TempIdx → ℕ → Context × TempIdx
unfolding emit_vec_shift_imm
gen_rotli_vec ctx ty d s imm = emit_vec_shift_imm ctx Opcode.rotli_vec ty d s imm

unfoldable pub gen_shls_vec : Context → IrType → TempIdx → TempIdx → TempIdx → Context × TempIdx
unfolding emit_vec_binary
gen_shls_vec ctx ty d a b = emit_vec_binary ctx Opcode.shls_vec ty d a b

unfoldable pub gen_shrs_vec : Context → IrType → TempIdx → TempIdx → TempIdx → Context × TempIdx
unfolding emit_vec_binary
gen_shrs_vec ctx ty d a b = emit_vec_binary ctx Opcode.shrs_vec ty d a b

unfoldable pub gen_sars_vec : Context → IrType → TempIdx → TempIdx → TempIdx → Context × TempIdx
unfolding emit_vec_binary
gen_sars_vec ctx ty d a b = emit_vec_binary ctx Opcode.sars_vec ty d a b

unfoldable pub gen_rotls_vec : Context → IrType → TempIdx → TempIdx → TempIdx → Context × TempIdx
unfolding emit_vec_binary
gen_rotls_vec ctx ty d a b = emit_vec_binary ctx Opcode.rotls_vec ty d a b

unfoldable pub gen_shlv_vec : Context → IrType → TempIdx → TempIdx → TempIdx → Context × TempIdx
unfolding emit_vec_binary
gen_shlv_vec ctx ty d a b = emit_vec_binary ctx Opcode.shlv_vec ty d a b

unfoldable pub gen_shrv_vec : Context → IrType → TempIdx → TempIdx → TempIdx → Context × TempIdx
unfolding emit_vec_binary
gen_shrv_vec ctx ty d a b = emit_vec_binary ctx Opcode.shrv_vec ty d a b

unfoldable pub gen_sarv_vec : Context → IrType → TempIdx → TempIdx → TempIdx → Context × TempIdx
unfolding emit_vec_binary
gen_sarv_vec ctx ty d a b = emit_vec_binary ctx Opcode.sarv_vec ty d a b

unfoldable pub gen_rotlv_vec : Context → IrType → TempIdx → TempIdx → TempIdx → Context × TempIdx
unfolding emit_vec_binary
gen_rotlv_vec ctx ty d a b = emit_vec_binary ctx Opcode.rotlv_vec ty d a b

unfoldable pub gen_rotrv_vec : Context → IrType → TempIdx → TempIdx → TempIdx → Context × TempIdx
unfolding emit_vec_binary
gen_rotrv_vec ctx ty d a b = emit_vec_binary ctx Opcode.rotrv_vec ty d a b

unfoldable pub gen_cmp_vec :
    Context → IrType → TempIdx → TempIdx → TempIdx → Cond → Context × TempIdx
gen_cmp_vec ctx ty d a b cond =
    (emit ctx Opcode.cmp_vec ty (d ∷ a ∷ b ∷ (carg (encode cond)) ∷ []), d)

unfoldable pub gen_bitsel_vec :
    Context → IrType → TempIdx → TempIdx → TempIdx → TempIdx → Context × TempIdx
gen_bitsel_vec ctx ty d a b c = (emit ctx Opcode.bitsel_vec ty (d ∷ a ∷ b ∷ c ∷ []), d)

unfoldable pub gen_cmpsel_vec :
    Context → IrType → TempIdx → TempIdx → TempIdx → TempIdx → TempIdx → Cond → Context × TempIdx
gen_cmpsel_vec ctx ty d c1 c2 v1 v2 cond =
    (emit ctx Opcode.cmpsel_vec ty (d ∷ c1 ∷ c2 ∷ v1 ∷ v2 ∷ (carg (encode cond)) ∷ []), d)
