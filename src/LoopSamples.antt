-- ===== src/LoopSamples.antt =====
-- A block that jumps to itself, and its jump led back when the block is invalidated.
use tcg_rs.Base.{ℕ, false, [], ◌∷◌, Option, none, some, ◌==◌, if◌then◌else◌}
use tcg_rs.Tb.{TranslationBlock, hash_bucket}
use tcg_rs.TbStore.{TbStore, Host}

-- Host code is where the jump at each offset leads.
abbrev host : Host
host = record { Code = ℕ → ℕ; patch_jump = λ code jmp to x. if x == jmp then to else code x }

abbrev leads : host.Code → ℕ → ℕ
leads code x = code x

abbrev first_slot : ℕ → ℕ → Option ℕ
first_slot v slot = if slot == 0 then some v else none

abbrev block : TranslationBlock
block = record {
  pc = 4096;
  cs_base = 0;
  flags = 0;
  cflags = 0;
  size = 4;
  icount = 1;
  host_offset = 100;
  host_size = 64;
  jmp_insn_offset = first_slot 110;
  jmp_reset_offset = first_slot 120;
  phys_pc = 0;
  hash_next = none;
  jmp = record { jmp_dest = first_slot 0; jmp_list = (0, 0) ∷ [] };
  invalid = false;
  exit_target = 0;
}

abbrev looped : TbStore
looped = record { tbs = block ∷ []; hash = λ b. if hash_bucket 4096 0 == b then some 0 else none }
