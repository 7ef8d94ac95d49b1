-- ===== src/Opcode.antt =====
-- core/src/opcode.rs: the opcodes of the intermediate representation, their numbers and flags.
use tcg_rs.Base.{ℕ}

pub data Opcode : Type 0 where
  mov set_cond neg_set_cond mov_cond : Opcode
  add sub mul neg div_s div_u rem_s rem_u div_s2 div_u2 : Opcode
  mul_sh mul_uh mul_s2 mul_u2 : Opcode
  add_co add_ci add_cio add_c1_o sub_bo sub_bi sub_bio sub_b1_o : Opcode
  and or xor not and_c or_c eqv nand nor : Opcode
  shl shr sar rot_l rot_r : Opcode
  extract s_extract deposit extract2 : Opcode
  bswap16 bswap32 bswap64 : Opcode
  clz ctz ct_pop : Opcode
  br_cond2_i32 set_cond2_i32 : Opcode
  ext_i32_i64 ext_ui32_i64 extrl_i64_i32 extrh_i64_i32 : Opcode
  ld8_u ld8_s ld16_u ld16_s ld32_u ld32_s ld st8 st16 st32 st : Opcode
  qemu_ld qemu_st qemu_ld2 qemu_st2 : Opcode
  br br_cond set_label goto_tb exit_tb goto_ptr mb : Opcode
  call : Opcode
  plugin_cb plugin_mem_cb : Opcode
  nop discard insn_start : Opcode
  mov_vec dup_vec dup2_vec ld_vec st_vec dupm_vec : Opcode
  add_vec sub_vec mul_vec neg_vec abs_vec ssadd_vec usadd_vec sssub_vec ussub_vec : Opcode
  smin_vec umin_vec smax_vec umax_vec : Opcode
  and_vec or_vec xor_vec andc_vec orc_vec nand_vec nor_vec eqv_vec not_vec : Opcode
  shli_vec shri_vec sari_vec rotli_vec : Opcode
  shls_vec shrs_vec sars_vec rotls_vec : Opcode
  shlv_vec shrv_vec sarv_vec rotlv_vec rotrv_vec : Opcode
  cmp_vec bitsel_vec cmpsel_vec : Opcode

-- `opc as usize`: the discriminants go up by one from 0 in the order of declaration. The sentinel
-- `Count` is no operation and has no constructor; `opcode_count` is its number.
abbrev pub index : Opcode → ℕ
index Opcode.mov = 0
index Opcode.set_cond = 1
index Opcode.neg_set_cond = 2
index Opcode.mov_cond = 3
index Opcode.add = 4
index Opcode.sub = 5
index Opcode.mul = 6
index Opcode.neg = 7
index Opcode.div_s = 8
index Opcode.div_u = 9
index Opcode.rem_s = 10
index Opcode.rem_u = 11
index Opcode.div_s2 = 12
index Opcode.div_u2 = 13
index Opcode.mul_sh = 14
index Opcode.mul_uh = 15
index Opcode.mul_s2 = 16
index Opcode.mul_u2 = 17
index Opcode.add_co = 18
index Opcode.add_ci = 19
index Opcode.add_cio = 20
index Opcode.add_c1_o = 21
index Opcode.sub_bo = 22
index Opcode.sub_bi = 23
index Opcode.sub_bio = 24
index Opcode.sub_b1_o = 25
index Opcode.and = 26
index Opcode.or = 27
index Opcode.xor = 28
index Opcode.not = 29
index Opcode.and_c = 30
index Opcode.or_c = 31
index Opcode.eqv = 32
index Opcode.nand = 33
index Opcode.nor = 34
index Opcode.shl = 35
index Opcode.shr = 36
index Opcode.sar = 37
index Opcode.rot_l = 38
index Opcode.rot_r = 39
index Opcode.extract = 40
index Opcode.s_extract = 41
index Opcode.deposit = 42
index Opcode.extract2 = 43
index Opcode.bswap16 = 44
index Opcode.bswap32 = 45
index Opcode.bswap64 = 46
index Opcode.clz = 47
index Opcode.ctz = 48
index Opcode.ct_pop = 49
index Opcode.br_cond2_i32 = 50
index Opcode.set_cond2_i32 = 51
index Opcode.ext_i32_i64 = 52
index Opcode.ext_ui32_i64 = 53
index Opcode.extrl_i64_i32 = 54
index Opcode.extrh_i64_i32 = 55
index Opcode.ld8_u = 56
index Opcode.ld8_s = 57
index Opcode.ld16_u = 58
index Opcode.ld16_s = 59
index Opcode.ld32_u = 60
index Opcode.ld32_s = 61
index Opcode.ld = 62
index Opcode.st8 = 63
index Opcode.st16 = 64
index Opcode.st32 = 65
index Opcode.st = 66
index Opcode.qemu_ld = 67
index Opcode.qemu_st = 68
index Opcode.qemu_ld2 = 69
index Opcode.qemu_st2 = 70
index Opcode.br = 71
index Opcode.br_cond = 72
index Opcode.set_label = 73
index Opcode.goto_tb = 74
index Opcode.exit_tb = 75
index Opcode.goto_ptr = 76
index Opcode.mb = 77
index Opcode.call = 78
index Opcode.plugin_cb = 79
index Opcode.plugin_mem_cb = 80
index Opcode.nop = 81
index Opcode.discard = 82
index Opcode.insn_start = 83
index Opcode.mov_vec = 84
index Opcode.dup_vec = 85
index Opcode.dup2_vec = 86
index Opcode.ld_vec = 87
index Opcode.st_vec = 88
index Opcode.dupm_vec = 89
index Opcode.add_vec = 90
index Opcode.sub_vec = 91
index Opcode.mul_vec = 92
index Opcode.neg_vec = 93
index Opcode.abs_vec = 94
index Opcode.ssadd_vec = 95
index Opcode.usadd_vec = 96
index Opcode.sssub_vec = 97
index Opcode.ussub_vec = 98
index Opcode.smin_vec = 99
index Opcode.umin_vec = 100
index Opcode.smax_vec = 101
index Opcode.umax_vec = 102
index Opcode.and_vec = 103
index Opcode.or_vec = 104
index Opcode.xor_vec = 105
index Opcode.andc_vec = 106
index Opcode.orc_vec = 107
index Opcode.nand_vec = 108
index Opcode.nor_vec = 109
index Opcode.eqv_vec = 110
index Opcode.not_vec = 111
index Opcode.shli_vec = 112
index Opcode.shri_vec = 113
index Opcode.sari_vec = 114
index Opcode.rotli_vec = 115
index Opcode.shls_vec = 116
index Opcode.shrs_vec = 117
index Opcode.sars_vec = 118
index Opcode.rotls_vec = 119
index Opcode.shlv_vec = 120
index Opcode.shrv_vec = 121
index Opcode.sarv_vec = 122
index Opcode.rotlv_vec = 123
index Opcode.rotrv_vec = 124
index Opcode.cmp_vec = 125
index Opcode.bitsel_vec = 126
index Opcode.cmpsel_vec = 127

abbrev pub opcode_count : ℕ
opcode_count = 128
