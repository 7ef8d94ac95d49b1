-- ===== src/Tb.antt =====
-- core/src/tb.rs: translated blocks, the values with which they exit, and the jump cache.
pub mod Exit
use tcg_rs.Base.{
  ℕ, ◌+◌, ◌-◌, ◌*◌, ◌/◌, ◌%◌, ◌^◌, bit_and, bit_or, bit_xor, List, [], ◌∷◌, Bool, true, false,
  Option, none, some, ltb, ◌==◌, if◌then◌else◌,
}
use tcg_rs.Base.Words.{wrapping_mul, max_u64}

-- `EXIT_TARGET_NONE`, the largest usize.
abbrev pub exit_target_none : ℕ
exit_target_none = max_u64

-- An array of two optional values, as a function from the slot.
abbrev pub Slots : Type 0
Slots = ℕ → Option ℕ

abbrev pub set_slot : Slots → ℕ → Option ℕ → Slots
set_slot slots n v k = if k == n then v else slots k

pub record TbJmpState : Type 0 where
  pub jmp_dest : Slots
  pub jmp_list : List (ℕ × ℕ)

-- The lock of `jmp` and the atomic cells are their contents: the model runs one thread.
pub record TranslationBlock : Type 0 where
  pub pc : ℕ
  pub cs_base : ℕ
  pub flags : ℕ
  pub cflags : ℕ
  pub size : ℕ
  pub icount : ℕ
  pub host_offset : ℕ
  pub host_size : ℕ
  pub jmp_insn_offset : Slots
  pub jmp_reset_offset : Slots
  pub phys_pc : ℕ
  pub hash_next : Option ℕ
  pub jmp : TbJmpState
  pub invalid : Bool
  pub exit_target : ℕ

abbrev pub new_jmp_state : TbJmpState
new_jmp_state = record { jmp_dest = λ _. none; jmp_list = [] }

unfoldable pub new_block : ℕ → ℕ → ℕ → TranslationBlock
new_block pc flags cflags = record {
  pc = pc;
  cs_base = 0;
  flags = flags;
  cflags = cflags;
  size = 0;
  icount = 0;
  host_offset = 0;
  host_size = 0;
  jmp_insn_offset = λ _. none;
  jmp_reset_offset = λ _. none;
  phys_pc = 0;
  hash_next = none;
  jmp = new_jmp_state;
  invalid = false;
  exit_target = exit_target_none;
}

abbrev pub tb_hash_size : ℕ
tb_hash_size = 2 ^ 15

abbrev pub tb_jmp_cache_size : ℕ
tb_jmp_cache_size = 2 ^ 12

-- `TranslationBlock::hash`.
unfoldable pub hash_bucket : ℕ → ℕ → ℕ
hash_bucket pc flags =
    bit_and (bit_xor (wrapping_mul pc 0x9e37_79b9_7f4a_7c15) flags) (tb_hash_size - 1)

-- `none` is the failed assertion that the slot is below 2.
unfoldable pub set_jmp_insn_offset : TranslationBlock → ℕ → ℕ → Option TranslationBlock
set_jmp_insn_offset tb n offset =
    if ltb n 2
    then some (record tb { jmp_insn_offset = set_slot tb.jmp_insn_offset n (some offset) })
    else none

unfoldable pub set_jmp_reset_offset : TranslationBlock → ℕ → ℕ → Option TranslationBlock
set_jmp_reset_offset tb n offset =
    if ltb n 2
    then some (record tb { jmp_reset_offset = set_slot tb.jmp_reset_offset n (some offset) })
    else none

abbrev pub cf_count_mask : ℕ
cf_count_mask = 0xFFFF

unfoldable pub max_insns : ℕ → ℕ
max_insns cflags = let count = bit_and cflags cf_count_mask in if count == 0 then 512 else count

abbrev pub tb_exit_idx0 : ℕ
tb_exit_idx0 = 0

abbrev pub tb_exit_idx1 : ℕ
tb_exit_idx1 = 1

abbrev pub tb_exit_nochain : ℕ
tb_exit_nochain = 2

abbrev pub tb_exit_max : ℕ
tb_exit_max = 3

abbrev pub excp_ecall : ℕ
excp_ecall = tb_exit_max

abbrev pub excp_ebreak : ℕ
excp_ebreak = tb_exit_max + 1

abbrev pub excp_undef : ℕ
excp_undef = tb_exit_max + 2

-- `((tb_idx as u64 + 1) << 32) | val`, a u64.
unfoldable pub encode_tb_exit : ℕ → ℕ → ℕ
encode_tb_exit tb_idx val =
    if ltb val tb_exit_max then bit_or ((tb_idx + 1) * 2 ^ 32 % 2 ^ 64) val else val

unfoldable pub decode_tb_exit : ℕ → Option ℕ × ℕ
decode_tb_exit raw =
    let marker = raw / 2 ^ 32 in
    if marker == 0 then (none, raw) else (some (marker - 1), bit_and raw 3)

-- The cache of one CPU: an array of optional block numbers.
abbrev pub JumpCache : Type 0
JumpCache = ℕ → Option ℕ

unfoldable pub new_cache : JumpCache
new_cache _ = none

unfoldable pub cache_index : ℕ → ℕ
cache_index pc = bit_and (pc / 2 ^ 2) (tb_jmp_cache_size - 1)

unfoldable pub cache_lookup : JumpCache → ℕ → Option ℕ
unfolding cache_index
cache_lookup c pc = c (cache_index pc)

unfoldable pub cache_insert : JumpCache → ℕ → ℕ → JumpCache
unfolding cache_index
cache_insert c pc tb_idx k = if k == cache_index pc then some tb_idx else c k

unfoldable pub cache_remove : JumpCache → ℕ → JumpCache
unfolding cache_index
cache_remove c pc k = if k == cache_index pc then none else c k

unfoldable pub cache_invalidate : JumpCache → JumpCache
cache_invalidate c _ = none
