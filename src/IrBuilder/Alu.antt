-- ===== src/IrBuilder/Alu.antt =====
-- core/src/ir_builder.rs: arithmetic, logic and shifts.
use tcg_rs.Base.{ℕ, [], ◌∷◌}
use tcg_rs.IrType.{IrType}
use tcg_rs.Temp.{TempIdx}
use tcg_rs.Opcode.{Opcode}
use tcg_rs.Context.{Context}
use tcg_rs.IrBuilder.{carg, emit, emit_binary}

unfoldable pub gen_add : Context → IrType → TempIdx → TempIdx → TempIdx → Context × TempIdx
unfolding emit_binary
gen_add ctx ty d a b = emit_binary ctx Opcode.add ty d a b

unfoldable pub gen_sub : Context → IrType → TempIdx → TempIdx → TempIdx → Context × TempIdx
unfolding emit_binary
gen_sub ctx ty d a b = emit_binary ctx Opcode.sub ty d a b

unfoldable pub gen_mul : Context → IrType → TempIdx → TempIdx → TempIdx → Context × TempIdx
unfolding emit_binary
gen_mul ctx ty d a b = emit_binary ctx Opcode.mul ty d a b

unfoldable pub gen_and : Context → IrType → TempIdx → TempIdx → TempIdx → Context × TempIdx
unfolding emit_binary
gen_and ctx ty d a b = emit_binary ctx Opcode.and ty d a b

unfoldable pub gen_or : Context → IrType → TempIdx → TempIdx → TempIdx → Context × TempIdx
unfolding emit_binary
gen_or ctx ty d a b = emit_binary ctx Opcode.or ty d a b

unfoldable pub gen_xor : Context → IrType → TempIdx → TempIdx → TempIdx → Context × TempIdx
unfolding emit_binary
gen_xor ctx ty d a b = emit_binary ctx Opcode.xor ty d a b

unfoldable pub gen_shl : Context → IrType → TempIdx → TempIdx → TempIdx → Context × TempIdx
unfolding emit_binary
gen_shl ctx ty d a b = emit_binary ctx Opcode.shl ty d a b

unfoldable pub gen_shr : Context → IrType → TempIdx → TempIdx → TempIdx → Context × TempIdx
unfolding emit_binary
gen_shr ctx ty d a b = emit_binary ctx Opcode.shr ty d a b

unfoldable pub gen_sar : Context → IrType → TempIdx → TempIdx → TempIdx → Context × TempIdx
unfolding emit_binary
gen_sar ctx ty d a b = emit_binary ctx Opcode.sar ty d a b

unfoldable pub gen_rotl : Context → IrType → TempIdx → TempIdx → TempIdx → Context × TempIdx
unfolding emit_binary
gen_rotl ctx ty d a b = emit_binary ctx Opcode.rot_l ty d a b

unfoldable pub gen_rotr : Context → IrType → TempIdx → TempIdx → TempIdx → Context × TempIdx
unfolding emit_binary
gen_rotr ctx ty d a b = emit_binary ctx Opcode.rot_r ty d a b

unfoldable pub gen_andc : Context → IrType → TempIdx → TempIdx → TempIdx → Context × TempIdx
unfolding emit_binary
gen_andc ctx ty d a b = emit_binary ctx Opcode.and_c ty d a b

unfoldable pub gen_orc : Context → IrType → TempIdx → TempIdx → TempIdx → Context × TempIdx
unfolding emit_binary
gen_orc ctx ty d a b = emit_binary ctx Opcode.or_c ty d a b

unfoldable pub gen_eqv : Context → IrType → TempIdx → TempIdx → TempIdx → Context × TempIdx
unfolding emit_binary
gen_eqv ctx ty d a b = emit_binary ctx Opcode.eqv ty d a b

unfoldable pub gen_nand : Context → IrType → TempIdx → TempIdx → TempIdx → Context × TempIdx
unfolding emit_binary
gen_nand ctx ty d a b = emit_binary ctx Opcode.nand ty d a b

unfoldable pub gen_nor : Context → IrType → TempIdx → TempIdx → TempIdx → Context × TempIdx
unfolding emit_binary
gen_nor ctx ty d a b = emit_binary ctx Opcode.nor ty d a b

unfoldable pub gen_divs : Context → IrType → TempIdx → TempIdx → TempIdx → Context × TempIdx
unfolding emit_binary
gen_divs ctx ty d a b = emit_binary ctx Opcode.div_s ty d a b

unfoldable pub gen_divu : Context → IrType → TempIdx → TempIdx → TempIdx → Context × TempIdx
unfolding emit_binary
gen_divu ctx ty d a b = emit_binary ctx Opcode.div_u ty d a b

unfoldable pub gen_rems : Context → IrType → TempIdx → TempIdx → TempIdx → Context × TempIdx
unfolding emit_binary
gen_rems ctx ty d a b = emit_binary ctx Opcode.rem_s ty d a b

unfoldable pub gen_remu : Context → IrType → TempIdx → TempIdx → TempIdx → Context × TempIdx
unfolding emit_binary
gen_remu ctx ty d a b = emit_binary ctx Opcode.rem_u ty d a b

unfoldable pub gen_divs2 :
    Context → IrType → TempIdx → TempIdx → TempIdx → TempIdx → TempIdx → Context
gen_divs2 ctx ty dl dh al ah b = emit ctx Opcode.div_s2 ty (dl ∷ dh ∷ al ∷ ah ∷ b ∷ [])

unfoldable pub gen_divu2 :
    Context → IrType → TempIdx → TempIdx → TempIdx → TempIdx → TempIdx → Context
gen_divu2 ctx ty dl dh al ah b = emit ctx Opcode.div_u2 ty (dl ∷ dh ∷ al ∷ ah ∷ b ∷ [])

unfoldable pub gen_muls2 : Context → IrType → TempIdx → TempIdx → TempIdx → TempIdx → Context
gen_muls2 ctx ty dl dh a b = emit ctx Opcode.mul_s2 ty (dl ∷ dh ∷ a ∷ b ∷ [])

unfoldable pub gen_mulu2 : Context → IrType → TempIdx → TempIdx → TempIdx → TempIdx → Context
gen_mulu2 ctx ty dl dh a b = emit ctx Opcode.mul_u2 ty (dl ∷ dh ∷ a ∷ b ∷ [])

unfoldable pub gen_mulsh : Context → IrType → TempIdx → TempIdx → TempIdx → Context × TempIdx
unfolding emit_binary
gen_mulsh ctx ty d a b = emit_binary ctx Opcode.mul_sh ty d a b

unfoldable pub gen_muluh : Context → IrType → TempIdx → TempIdx → TempIdx → Context × TempIdx
unfolding emit_binary
gen_muluh ctx ty d a b = emit_binary ctx Opcode.mul_uh ty d a b

unfoldable pub gen_addco : Context → IrType → TempIdx → TempIdx → TempIdx → Context × TempIdx
unfolding emit_binary
gen_addco ctx ty d a b = emit_binary ctx Opcode.add_co ty d a b

unfoldable pub gen_addci : Context → IrType → TempIdx → TempIdx → TempIdx → Context × TempIdx
unfolding emit_binary
gen_addci ctx ty d a b = emit_binary ctx Opcode.add_ci ty d a b

unfoldable pub gen_addcio : Context → IrType → TempIdx → TempIdx → TempIdx → Context × TempIdx
unfolding emit_binary
gen_addcio ctx ty d a b = emit_binary ctx Opcode.add_cio ty d a b

unfoldable pub gen_addc1o : Context → IrType → TempIdx → TempIdx → TempIdx → Context × TempIdx
unfolding emit_binary
gen_addc1o ctx ty d a b = emit_binary ctx Opcode.add_c1_o ty d a b

unfoldable pub gen_subbo : Context → IrType → TempIdx → TempIdx → TempIdx → Context × TempIdx
unfolding emit_binary
gen_subbo ctx ty d a b = emit_binary ctx Opcode.sub_bo ty d a b

unfoldable pub gen_subbi : Context → IrType → TempIdx → TempIdx → TempIdx → Context × TempIdx
unfolding emit_binary
gen_subbi ctx ty d a b = emit_binary ctx Opcode.sub_bi ty d a b

unfoldable pub gen_subbio : Context → IrType → TempIdx → TempIdx → TempIdx → Context × TempIdx
unfolding emit_binary
gen_subbio ctx ty d a b = emit_binary ctx Opcode.sub_bio ty d a b

unfoldable pub gen_subb1o : Context → IrType → TempIdx → TempIdx → TempIdx → Context × TempIdx
unfolding emit_binary
gen_subb1o ctx ty d a b = emit_binary ctx Opcode.sub_b1_o ty d a b

unfoldable pub gen_extract : Context → IrType → TempIdx → TempIdx → ℕ → ℕ → Context × TempIdx
gen_extract ctx ty d src ofs len =
    (emit ctx Opcode.extract ty (d ∷ src ∷ (carg ofs) ∷ (carg len) ∷ []), d)
