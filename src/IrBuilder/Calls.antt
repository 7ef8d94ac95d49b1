-- ===== src/IrBuilder/Calls.antt =====
-- core/src/ir_builder.rs: sequences of calls of the builder's methods. A call is a method with its
-- arguments.
use tcg_rs.Base.{ℕ, List}
use tcg_rs.Cond.{Cond}
use tcg_rs.IrType.{IrType}
use tcg_rs.Temp.{TempIdx}

pub data Call : Type 0 where
  add : IrType → TempIdx → TempIdx → TempIdx → Call
  sub : IrType → TempIdx → TempIdx → TempIdx → Call
  mul : IrType → TempIdx → TempIdx → TempIdx → Call
  and : IrType → TempIdx → TempIdx → TempIdx → Call
  or : IrType → TempIdx → TempIdx → TempIdx → Call
  xor : IrType → TempIdx → TempIdx → TempIdx → Call
  shl : IrType → TempIdx → TempIdx → TempIdx → Call
  shr : IrType → TempIdx → TempIdx → TempIdx → Call
  sar : IrType → TempIdx → TempIdx → TempIdx → Call
  rotl : IrType → TempIdx → TempIdx → TempIdx → Call
  rotr : IrType → TempIdx → TempIdx → TempIdx → Call
  andc : IrType → TempIdx → TempIdx → TempIdx → Call
  orc : IrType → TempIdx → TempIdx → TempIdx → Call
  eqv : IrType → TempIdx → TempIdx → TempIdx → Call
  nand : IrType → TempIdx → TempIdx → TempIdx → Call
  nor : IrType → TempIdx → TempIdx → TempIdx → Call
  divs : IrType → TempIdx → TempIdx → TempIdx → Call
  divu : IrType → TempIdx → TempIdx → TempIdx → Call
  rems : IrType → TempIdx → TempIdx → TempIdx → Call
  remu : IrType → TempIdx → TempIdx → TempIdx → Call
  divs2 : IrType → TempIdx → TempIdx → TempIdx → TempIdx → TempIdx → Call
  divu2 : IrType → TempIdx → TempIdx → TempIdx → TempIdx → TempIdx → Call
  muls2 : IrType → TempIdx → TempIdx → TempIdx → TempIdx → Call
  mulu2 : IrType → TempIdx → TempIdx → TempIdx → TempIdx → Call
  mulsh : IrType → TempIdx → TempIdx → TempIdx → Call
  muluh : IrType → TempIdx → TempIdx → TempIdx → Call
  addco : IrType → TempIdx → TempIdx → TempIdx → Call
  addci : IrType → TempIdx → TempIdx → TempIdx → Call
  addcio : IrType → TempIdx → TempIdx → TempIdx → Call
  addc1o : IrType → TempIdx → TempIdx → TempIdx → Call
  subbo : IrType → TempIdx → TempIdx → TempIdx → Call
  subbi : IrType → TempIdx → TempIdx → TempIdx → Call
  subbio : IrType → TempIdx → TempIdx → TempIdx → Call
  subb1o : IrType → TempIdx → TempIdx → TempIdx → Call
  extract : IrType → TempIdx → TempIdx → ℕ → ℕ → Call
  sextract : IrType → TempIdx → TempIdx → ℕ → ℕ → Call
  deposit : IrType → TempIdx → TempIdx → TempIdx → ℕ → ℕ → Call
  extract2 : IrType → TempIdx → TempIdx → TempIdx → ℕ → Call
  bswap16 : IrType → TempIdx → TempIdx → ℕ → Call
  bswap32 : IrType → TempIdx → TempIdx → ℕ → Call
  bswap64 : IrType → TempIdx → TempIdx → ℕ → Call
  clz : IrType → TempIdx → TempIdx → TempIdx → Call
  ctz : IrType → TempIdx → TempIdx → TempIdx → Call
  ctpop : IrType → TempIdx → TempIdx → Call
  brcond2_i32 : TempIdx → TempIdx → TempIdx → TempIdx → Cond → ℕ → Call
  setcond2_i32 : TempIdx → TempIdx → TempIdx → TempIdx → TempIdx → Cond → Call
  negsetcond : IrType → TempIdx → TempIdx → TempIdx → Cond → Call
  movcond : IrType → TempIdx → TempIdx → TempIdx → TempIdx → TempIdx → Cond → Call
  neg : IrType → TempIdx → TempIdx → Call
  not : IrType → TempIdx → TempIdx → Call
  mov : IrType → TempIdx → TempIdx → Call
  ext_i32_i64 : TempIdx → TempIdx → Call
  ext_u32_i64 : TempIdx → TempIdx → Call
  extrl_i64_i32 : TempIdx → TempIdx → Call
  extrh_i64_i32 : TempIdx → TempIdx → Call
  setcond : IrType → TempIdx → TempIdx → TempIdx → Cond → Call
  ld : IrType → TempIdx → TempIdx → ℕ → Call
  st : IrType → TempIdx → TempIdx → ℕ → Call
  ld8u : IrType → TempIdx → TempIdx → ℕ → Call
  ld8s : IrType → TempIdx → TempIdx → ℕ → Call
  ld16u : IrType → TempIdx → TempIdx → ℕ → Call
  ld16s : IrType → TempIdx → TempIdx → ℕ → Call
  ld32u : IrType → TempIdx → TempIdx → ℕ → Call
  ld32s : IrType → TempIdx → TempIdx → ℕ → Call
  st8 : IrType → TempIdx → TempIdx → ℕ → Call
  st16 : IrType → TempIdx → TempIdx → ℕ → Call
  st32 : IrType → TempIdx → TempIdx → ℕ → Call
  br : ℕ → Call
  brcond : IrType → TempIdx → TempIdx → Cond → ℕ → Call
  set_label : ℕ → Call
  goto_tb : ℕ → Call
  exit_tb : ℕ → Call
  insn_start : ℕ → Call
  goto_ptr : TempIdx → Call
  mb : ℕ → Call
  call : TempIdx → ℕ → List TempIdx → Call
  discard : IrType → TempIdx → Call
  qemu_ld : IrType → TempIdx → TempIdx → ℕ → Call
  qemu_st : IrType → TempIdx → TempIdx → ℕ → Call
  qemu_ld2 : IrType → TempIdx → TempIdx → TempIdx → ℕ → Call
  qemu_st2 : IrType → TempIdx → TempIdx → TempIdx → ℕ → Call
  dup_vec : IrType → TempIdx → TempIdx → Call
  dup2_vec : IrType → TempIdx → TempIdx → TempIdx → Call
  ld_vec : IrType → TempIdx → TempIdx → ℕ → Call
  st_vec : IrType → TempIdx → TempIdx → ℕ → Call
  dupm_vec : IrType → TempIdx → TempIdx → ℕ → Call
  add_vec : IrType → TempIdx → TempIdx → TempIdx → Call
  sub_vec : IrType → TempIdx → TempIdx → TempIdx → Call
  mul_vec : IrType → TempIdx → TempIdx → TempIdx → Call
  neg_vec : IrType → TempIdx → TempIdx → Call
  abs_vec : IrType → TempIdx → TempIdx → Call
  ssadd_vec : IrType → TempIdx → TempIdx → TempIdx → Call
  usadd_vec : IrType → TempIdx → TempIdx → TempIdx → Call
  sssub_vec : IrType → TempIdx → TempIdx → TempIdx → Call
  ussub_vec : IrType → TempIdx → TempIdx → TempIdx → Call
  smin_vec : IrType → TempIdx → TempIdx → TempIdx → Call
  umin_vec : IrType → TempIdx → TempIdx → TempIdx → Call
  smax_vec : IrType → TempIdx → TempIdx → TempIdx → Call
  umax_vec : IrType → TempIdx → TempIdx → TempIdx → Call
  and_vec : IrType → TempIdx → TempIdx → TempIdx → Call
  or_vec : IrType → TempIdx → TempIdx → TempIdx → Call
  xor_vec : IrType → TempIdx → TempIdx → TempIdx → Call
  andc_vec : IrType → TempIdx → TempIdx → TempIdx → Call
  orc_vec : IrType → TempIdx → TempIdx → TempIdx → Call
  nand_vec : IrType → TempIdx → TempIdx → TempIdx → Call
  nor_vec : IrType → TempIdx → TempIdx → TempIdx → Call
  eqv_vec : IrType → TempIdx → TempIdx → TempIdx → Call
  not_vec : IrType → TempIdx → TempIdx → Call
  shli_vec : IrType → TempIdx → TempIdx → ℕ → Call
  shri_vec : IrType → TempIdx → TempIdx → ℕ → Call
  sari_vec : IrType → TempIdx → TempIdx → ℕ → Call
  rotli_vec : IrType → TempIdx → TempIdx → ℕ → Call
  shls_vec : IrType → TempIdx → TempIdx → TempIdx → Call
  shrs_vec : IrType → TempIdx → TempIdx → TempIdx → Call
  sars_vec : IrType → TempIdx → TempIdx → TempIdx → Call
  rotls_vec : IrType → TempIdx → TempIdx → TempIdx → Call
  shlv_vec : IrType → TempIdx → TempIdx → TempIdx → Call
  shrv_vec : IrType → TempIdx → TempIdx → TempIdx → Call
  sarv_vec : IrType → TempIdx → TempIdx → TempIdx → Call
  rotlv_vec : IrType → TempIdx → TempIdx → TempIdx → Call
  rotrv_vec : IrType → TempIdx → TempIdx → TempIdx → Call
  cmp_vec : IrType → TempIdx → TempIdx → TempIdx → Cond → Call
  bitsel_vec : IrType → TempIdx → TempIdx → TempIdx → TempIdx → Call
  cmpsel_vec : IrType → TempIdx → TempIdx → TempIdx → TempIdx → TempIdx → Cond → Call
