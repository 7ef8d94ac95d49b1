-- ===== src/IrBuilder/Perform.antt =====
-- core/src/ir_builder.rs: what a call does to the context.
use tcg_rs.Base.{List, [], ◌∷◌}
use tcg_rs.Context.{Context}
use tcg_rs.IrBuilder.Calls.{Call}
use tcg_rs.IrBuilder.Alu.{
  gen_add, gen_sub, gen_mul, gen_and, gen_or, gen_xor, gen_shl, gen_shr, gen_sar, gen_rotl,
  gen_rotr, gen_andc, gen_orc, gen_eqv, gen_nand, gen_nor, gen_divs, gen_divu, gen_rems, gen_remu,
  gen_divs2, gen_divu2, gen_muls2, gen_mulu2, gen_mulsh, gen_muluh, gen_addco, gen_addci,
  gen_addcio, gen_addc1o, gen_subbo, gen_subbi, gen_subbio, gen_subb1o, gen_extract,
}
use tcg_rs.IrBuilder.BitField.{
  gen_sextract, gen_deposit, gen_extract2, gen_bswap16, gen_bswap32, gen_bswap64, gen_clz, gen_ctz,
  gen_ctpop, gen_brcond2_i32, gen_setcond2_i32, gen_negsetcond, gen_movcond, gen_neg, gen_not,
  gen_mov, gen_ext_i32_i64, gen_ext_u32_i64,
}
use tcg_rs.IrBuilder.Memory.{
  gen_extrl_i64_i32, gen_extrh_i64_i32, gen_setcond, gen_ld, gen_st, gen_ld8u, gen_ld8s, gen_ld16u,
  gen_ld16s, gen_ld32u, gen_ld32s, gen_st8, gen_st16, gen_st32, gen_br,
}
use tcg_rs.IrBuilder.Flow.{
  gen_brcond, gen_set_label, gen_goto_tb, gen_exit_tb, gen_insn_start, gen_goto_ptr, gen_mb,
  gen_call, gen_discard, gen_qemu_ld, gen_qemu_st, gen_qemu_ld2, gen_qemu_st2,
}
use tcg_rs.IrBuilder.Vector.{
  gen_dup_vec, gen_dup2_vec, gen_ld_vec, gen_st_vec, gen_dupm_vec, gen_add_vec, gen_sub_vec,
  gen_mul_vec, gen_neg_vec, gen_abs_vec, gen_ssadd_vec, gen_usadd_vec, gen_sssub_vec, gen_ussub_vec,
  gen_smin_vec, gen_umin_vec, gen_smax_vec, gen_umax_vec, gen_and_vec, gen_or_vec, gen_xor_vec,
  gen_andc_vec, gen_orc_vec, gen_nand_vec, gen_nor_vec, gen_eqv_vec, gen_not_vec, gen_shli_vec,
  gen_shri_vec, gen_sari_vec, gen_rotli_vec, gen_shls_vec, gen_shrs_vec, gen_sars_vec,
  gen_rotls_vec, gen_shlv_vec, gen_shrv_vec, gen_sarv_vec, gen_rotlv_vec, gen_rotrv_vec,
  gen_cmp_vec, gen_bitsel_vec, gen_cmpsel_vec,
}

-- The context that a call leaves.
unfoldable pub perform : Call → Context → Context
unfolding gen_add gen_sub gen_mul gen_and gen_or gen_xor gen_shl gen_shr gen_sar gen_rotl gen_rotr
    gen_andc gen_orc gen_eqv gen_nand gen_nor gen_divs gen_divu gen_rems gen_remu gen_divs2
    gen_divu2 gen_muls2 gen_mulu2 gen_mulsh gen_muluh gen_addco gen_addci gen_addcio gen_addc1o
    gen_subbo gen_subbi gen_subbio gen_subb1o gen_extract gen_sextract gen_deposit gen_extract2
    gen_bswap16 gen_bswap32 gen_bswap64 gen_clz gen_ctz gen_ctpop gen_brcond2_i32 gen_setcond2_i32
    gen_negsetcond gen_movcond gen_neg gen_not gen_mov gen_ext_i32_i64 gen_ext_u32_i64
    gen_extrl_i64_i32 gen_extrh_i64_i32 gen_setcond gen_ld gen_st gen_ld8u gen_ld8s gen_ld16u
    gen_ld16s gen_ld32u gen_ld32s gen_st8 gen_st16 gen_st32 gen_br gen_brcond gen_set_label
    gen_goto_tb gen_exit_tb gen_insn_start gen_goto_ptr gen_mb gen_call gen_discard gen_qemu_ld
    gen_qemu_st gen_qemu_ld2 gen_qemu_st2 gen_dup_vec gen_dup2_vec gen_ld_vec gen_st_vec
    gen_dupm_vec gen_add_vec gen_sub_vec gen_mul_vec gen_neg_vec gen_abs_vec gen_ssadd_vec
    gen_usadd_vec gen_sssub_vec gen_ussub_vec gen_smin_vec gen_umin_vec gen_smax_vec gen_umax_vec
    gen_and_vec gen_or_vec gen_xor_vec gen_andc_vec gen_orc_vec gen_nand_vec gen_nor_vec gen_eqv_vec
    gen_not_vec gen_shli_vec gen_shri_vec gen_sari_vec gen_rotli_vec gen_shls_vec gen_shrs_vec
    gen_sars_vec gen_rotls_vec gen_shlv_vec gen_shrv_vec gen_sarv_vec gen_rotlv_vec gen_rotrv_vec
    gen_cmp_vec gen_bitsel_vec gen_cmpsel_vec
perform (Call.add ty d a b) ctx = (gen_add ctx ty d a b).0
perform (Call.sub ty d a b) ctx = (gen_sub ctx ty d a b).0
perform (Call.mul ty d a b) ctx = (gen_mul ctx ty d a b).0
perform (Call.and ty d a b) ctx = (gen_and ctx ty d a b).0
perform (Call.or ty d a b) ctx = (gen_or ctx ty d a b).0
perform (Call.xor ty d a b) ctx = (gen_xor ctx ty d a b).0
perform (Call.shl ty d a b) ctx = (gen_shl ctx ty d a b).0
perform (Call.shr ty d a b) ctx = (gen_shr ctx ty d a b).0
perform (Call.sar ty d a b) ctx = (gen_sar ctx ty d a b).0
perform (Call.rotl ty d a b) ctx = (gen_rotl ctx ty d a b).0
perform (Call.rotr ty d a b) ctx = (gen_rotr ctx ty d a b).0
perform (Call.andc ty d a b) ctx = (gen_andc ctx ty d a b).0
perform (Call.orc ty d a b) ctx = (gen_orc ctx ty d a b).0
perform (Call.eqv ty d a b) ctx = (gen_eqv ctx ty d a b).0
perform (Call.nand ty d a b) ctx = (gen_nand ctx ty d a b).0
perform (Call.nor ty d a b) ctx = (gen_nor ctx ty d a b).0
perform (Call.divs ty d a b) ctx = (gen_divs ctx ty d a b).0
perform (Call.divu ty d a b) ctx = (gen_divu ctx ty d a b).0
perform (Call.rems ty d a b) ctx = (gen_rems ctx ty d a b).0
perform (Call.remu ty d a b) ctx = (gen_remu ctx ty d a b).0
perform (Call.divs2 ty dl dh al ah b) ctx = gen_divs2 ctx ty dl dh al ah b
perform (Call.divu2 ty dl dh al ah b) ctx = gen_divu2 ctx ty dl dh al ah b
perform (Call.muls2 ty dl dh a b) ctx = gen_muls2 ctx ty dl dh a b
perform (Call.mulu2 ty dl dh a b) ctx = gen_mulu2 ctx ty dl dh a b
perform (Call.mulsh ty d a b) ctx = (gen_mulsh ctx ty d a b).0
perform (Call.muluh ty d a b) ctx = (gen_muluh ctx ty d a b).0
perform (Call.addco ty d a b) ctx = (gen_addco ctx ty d a b).0
perform (Call.addci ty d a b) ctx = (gen_addci ctx ty d a b).0
perform (Call.addcio ty d a b) ctx = (gen_addcio ctx ty d a b).0
perform (Call.addc1o ty d a b) ctx = (gen_addc1o ctx ty d a b).0
perform (Call.subbo ty d a b) ctx = (gen_subbo ctx ty d a b).0
perform (Call.subbi ty d a b) ctx = (gen_subbi ctx ty d a b).0
perform (Call.subbio ty d a b) ctx = (gen_subbio ctx ty d a b).0
perform (Call.subb1o ty d a b) ctx = (gen_subb1o ctx ty d a b).0
perform (Call.extract ty d src ofs len) ctx = (gen_extract ctx ty d src ofs len).0
perform (Call.sextract ty d src ofs len) ctx = (gen_sextract ctx ty d src ofs len).0
perform (Call.deposit ty d a b ofs len) ctx = (gen_deposit ctx ty d a b ofs len).0
perform (Call.extract2 ty d al ah ofs) ctx = (gen_extract2 ctx ty d al ah ofs).0
perform (Call.bswap16 ty d src flags) ctx = (gen_bswap16 ctx ty d src flags).0
perform (Call.bswap32 ty d src flags) ctx = (gen_bswap32 ctx ty d src flags).0
perform (Call.bswap64 ty d src flags) ctx = (gen_bswap64 ctx ty d src flags).0
perform (Call.clz ty d a b) ctx = (gen_clz ctx ty d a b).0
perform (Call.ctz ty d a b) ctx = (gen_ctz ctx ty d a b).0
perform (Call.ctpop ty d src) ctx = (gen_ctpop ctx ty d src).0
perform (Call.brcond2_i32 al ah bl bh cond label_id) ctx =
    gen_brcond2_i32 ctx al ah bl bh cond label_id
perform (Call.setcond2_i32 d al ah bl bh cond) ctx = (gen_setcond2_i32 ctx d al ah bl bh cond).0
perform (Call.negsetcond ty d a b cond) ctx = (gen_negsetcond ctx ty d a b cond).0
perform (Call.movcond ty d c1 c2 v1 v2 cond) ctx = (gen_movcond ctx ty d c1 c2 v1 v2 cond).0
perform (Call.neg ty d s) ctx = (gen_neg ctx ty d s).0
perform (Call.not ty d s) ctx = (gen_not ctx ty d s).0
perform (Call.mov ty d s) ctx = (gen_mov ctx ty d s).0
perform (Call.ext_i32_i64 d s) ctx = (gen_ext_i32_i64 ctx d s).0
perform (Call.ext_u32_i64 d s) ctx = (gen_ext_u32_i64 ctx d s).0
perform (Call.extrl_i64_i32 d s) ctx = (gen_extrl_i64_i32 ctx d s).0
perform (Call.extrh_i64_i32 d s) ctx = (gen_extrh_i64_i32 ctx d s).0
perform (Call.setcond ty d a b cond) ctx = (gen_setcond ctx ty d a b cond).0
perform (Call.ld ty dst base offset) ctx = (gen_ld ctx ty dst base offset).0
perform (Call.st ty src base offset) ctx = gen_st ctx ty src base offset
perform (Call.ld8u ty dst base offset) ctx = (gen_ld8u ctx ty dst base offset).0
perform (Call.ld8s ty dst base offset) ctx = (gen_ld8s ctx ty dst base offset).0
perform (Call.ld16u ty dst base offset) ctx = (gen_ld16u ctx ty dst base offset).0
perform (Call.ld16s ty dst base offset) ctx = (gen_ld16s ctx ty dst base offset).0
perform (Call.ld32u ty dst base offset) ctx = (gen_ld32u ctx ty dst base offset).0
perform (Call.ld32s ty dst base offset) ctx = (gen_ld32s ctx ty dst base offset).0
perform (Call.st8 ty src base offset) ctx = gen_st8 ctx ty src base offset
perform (Call.st16 ty src base offset) ctx = gen_st16 ctx ty src base offset
perform (Call.st32 ty src base offset) ctx = gen_st32 ctx ty src base offset
perform (Call.br label_id) ctx = gen_br ctx label_id
perform (Call.brcond ty a b cond label_id) ctx = gen_brcond ctx ty a b cond label_id
perform (Call.set_label label_id) ctx = gen_set_label ctx label_id
perform (Call.goto_tb tb_idx) ctx = gen_goto_tb ctx tb_idx
perform (Call.exit_tb val) ctx = gen_exit_tb ctx val
perform (Call.insn_start pc) ctx = gen_insn_start ctx pc
perform (Call.goto_ptr ptr) ctx = gen_goto_ptr ctx ptr
perform (Call.mb bar_type) ctx = gen_mb ctx bar_type
perform (Call.call dst helper args) ctx = (gen_call ctx dst helper args).0
perform (Call.discard ty t) ctx = gen_discard ctx ty t
perform (Call.qemu_ld ty dst addr memop) ctx = (gen_qemu_ld ctx ty dst addr memop).0
perform (Call.qemu_st ty val addr memop) ctx = gen_qemu_st ctx ty val addr memop
perform (Call.qemu_ld2 ty dl dh addr memop) ctx = gen_qemu_ld2 ctx ty dl dh addr memop
perform (Call.qemu_st2 ty vl vh addr memop) ctx = gen_qemu_st2 ctx ty vl vh addr memop
perform (Call.dup_vec ty d s) ctx = (gen_dup_vec ctx ty d s).0
perform (Call.dup2_vec ty d a b) ctx = (gen_dup2_vec ctx ty d a b).0
perform (Call.ld_vec ty dst base offset) ctx = (gen_ld_vec ctx ty dst base offset).0
perform (Call.st_vec ty src base offset) ctx = gen_st_vec ctx ty src base offset
perform (Call.dupm_vec ty dst base offset) ctx = (gen_dupm_vec ctx ty dst base offset).0
perform (Call.add_vec ty d a b) ctx = (gen_add_vec ctx ty d a b).0
perform (Call.sub_vec ty d a b) ctx = (gen_sub_vec ctx ty d a b).0
perform (Call.mul_vec ty d a b) ctx = (gen_mul_vec ctx ty d a b).0
perform (Call.neg_vec ty d s) ctx = (gen_neg_vec ctx ty d s).0
perform (Call.abs_vec ty d s) ctx = (gen_abs_vec ctx ty d s).0
perform (Call.ssadd_vec ty d a b) ctx = (gen_ssadd_vec ctx ty d a b).0
perform (Call.usadd_vec ty d a b) ctx = (gen_usadd_vec ctx ty d a b).0
perform (Call.sssub_vec ty d a b) ctx = (gen_sssub_vec ctx ty d a b).0
perform (Call.ussub_vec ty d a b) ctx = (gen_ussub_vec ctx ty d a b).0
perform (Call.smin_vec ty d a b) ctx = (gen_smin_vec ctx ty d a b).0
perform (Call.umin_vec ty d a b) ctx = (gen_umin_vec ctx ty d a b).0
perform (Call.smax_vec ty d a b) ctx = (gen_smax_vec ctx ty d a b).0
perform (Call.umax_vec ty d a b) ctx = (gen_umax_vec ctx ty d a b).0
perform (Call.and_vec ty d a b) ctx = (gen_and_vec ctx ty d a b).0
perform (Call.or_vec ty d a b) ctx = (gen_or_vec ctx ty d a b).0
perform (Call.xor_vec ty d a b) ctx = (gen_xor_vec ctx ty d a b).0
perform (Call.andc_vec ty d a b) ctx = (gen_andc_vec ctx ty d a b).0
perform (Call.orc_vec ty d a b) ctx = (gen_orc_vec ctx ty d a b).0
perform (Call.nand_vec ty d a b) ctx = (gen_nand_vec ctx ty d a b).0
perform (Call.nor_vec ty d a b) ctx = (gen_nor_vec ctx ty d a b).0
perform (Call.eqv_vec ty d a b) ctx = (gen_eqv_vec ctx ty d a b).0
perform (Call.not_vec ty d s) ctx = (gen_not_vec ctx ty d s).0
perform (Call.shli_vec ty d s imm) ctx = (gen_shli_vec ctx ty d s imm).0
perform (Call.shri_vec ty d s imm) ctx = (gen_shri_vec ctx ty d s imm).0
perform (Call.sari_vec ty d s imm) ctx = (gen_sari_vec ctx ty d s imm).0
perform (Call.rotli_vec ty d s imm) ctx = (gen_rotli_vec ctx ty d s imm).0
perform (Call.shls_vec ty d a b) ctx = (gen_shls_vec ctx ty d a b).0
perform (Call.shrs_vec ty d a b) ctx = (gen_shrs_vec ctx ty d a b).0
perform (Call.sars_vec ty d a b) ctx = (gen_sars_vec ctx ty d a b).0
perform (Call.rotls_vec ty d a b) ctx = (gen_rotls_vec ctx ty d a b).0
perform (Call.shlv_vec ty d a b) ctx = (gen_shlv_vec ctx ty d a b).0
perform (Call.shrv_vec ty d a b) ctx = (gen_shrv_vec ctx ty d a b).0
perform (Call.sarv_vec ty d a b) ctx = (gen_sarv_vec ctx ty d a b).0
perform (Call.rotlv_vec ty d a b) ctx = (gen_rotlv_vec ctx ty d a b).0
perform (Call.rotrv_vec ty d a b) ctx = (gen_rotrv_vec ctx ty d a b).0
perform (Call.cmp_vec ty d a b cond) ctx = (gen_cmp_vec ctx ty d a b cond).0
perform (Call.bitsel_vec ty d a b c) ctx = (gen_bitsel_vec ctx ty d a b c).0
perform (Call.cmpsel_vec ty d c1 c2 v1 v2 cond) ctx = (gen_cmpsel_vec ctx ty d c1 c2 v1 v2 cond).0

unfoldable pub perform_all : List Call → Context → Context
unfolding perform
perform_all [] ctx = ctx
perform_all (k ∷ calls) ctx = perform_all calls (perform k ctx)
