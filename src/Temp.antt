-- ===== src/Temp.antt =====
-- core/src/temp.rs: the temporaries of the intermediate representation.
use tcg_rs.Base.{ℕ, Bool, true, false, Option, none, some, ◌||◌}
use tcg_rs.IrType.{IrType, TempVal}

pub data TempKind : Type 0 where
  ebb tb global fixed const : TempKind

-- An index into the context's temporaries, a u32.
abbrev pub TempIdx : Type 0
TempIdx = ℕ

-- The debug name is left out. `mem_offset`, an i64, holds offsets into the CPU state and the
-- frame, which are not negative.
pub record Temp : Type 0 where
  pub idx : TempIdx
  pub ty : IrType
  pub base_type : IrType
  pub kind : TempKind
  pub val_type : TempVal
  pub reg : Option ℕ
  pub mem_coherent : Bool
  pub mem_allocated : Bool
  pub val : ℕ
  pub mem_base : Option TempIdx
  pub mem_offset : ℕ

unfoldable pub new_ebb : TempIdx → IrType → Temp
new_ebb i t = record {
  idx = i;
  ty = t;
  base_type = t;
  kind = TempKind.ebb;
  val_type = TempVal.dead;
  reg = none;
  mem_coherent = false;
  mem_allocated = false;
  val = 0;
  mem_base = none;
  mem_offset = 0;
}

unfoldable pub new_tb : TempIdx → IrType → Temp
unfolding new_ebb
new_tb i t = record (new_ebb i t) { kind = TempKind.tb }

unfoldable pub new_const : TempIdx → IrType → ℕ → Temp
new_const i t v = record {
  idx = i;
  ty = t;
  base_type = t;
  kind = TempKind.const;
  val_type = TempVal.const;
  reg = none;
  mem_coherent = false;
  mem_allocated = false;
  val = v;
  mem_base = none;
  mem_offset = 0;
}

unfoldable pub new_global : TempIdx → IrType → TempIdx → ℕ → Temp
new_global i t base offset = record {
  idx = i;
  ty = t;
  base_type = t;
  kind = TempKind.global;
  val_type = TempVal.mem;
  reg = none;
  mem_coherent = true;
  mem_allocated = true;
  val = 0;
  mem_base = some base;
  mem_offset = offset;
}

unfoldable pub new_fixed : TempIdx → IrType → ℕ → Temp
new_fixed i t r = record {
  idx = i;
  ty = t;
  base_type = t;
  kind = TempKind.fixed;
  val_type = TempVal.reg;
  reg = some r;
  mem_coherent = false;
  mem_allocated = false;
  val = 0;
  mem_base = none;
  mem_offset = 0;
}

abbrev kind_is_const : TempKind → Bool
kind_is_const TempKind.const = true
kind_is_const _ = false

abbrev kind_is_global : TempKind → Bool
kind_is_global TempKind.global = true
kind_is_global _ = false

abbrev kind_is_fixed : TempKind → Bool
kind_is_fixed TempKind.fixed = true
kind_is_fixed _ = false

abbrev pub is_const : Temp → Bool
is_const t = kind_is_const t.kind

abbrev pub is_global : Temp → Bool
is_global t = kind_is_global t.kind

abbrev pub is_fixed : Temp → Bool
is_fixed t = kind_is_fixed t.kind

unfoldable pub is_global_or_fixed : Temp → Bool
is_global_or_fixed t = is_global t || is_fixed t
