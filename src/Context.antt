-- ===== src/Context.antt =====
-- core/src/context.rs: the translation context with its temporaries, operations and labels.
pub mod Consts
pub mod Frame
pub mod Ordered
use tcg_rs.Base.{
  ℕ, zero, suc, ◌+◌, ◌-◌, ◌*◌, ◌/◌, List, [], ◌∷◌, ◌++◌, Option, none, some, true, false, length,
  get_elem?, set, take, map, ◌==◌, leb, if◌then◌else◌,
}
use tcg_rs.IrType.{IrType, type_idx, size_bytes, TempVal}
use tcg_rs.Temp
use tcg_rs.Temp.{Temp, TempIdx, TempKind}
use tcg_rs.Op.{Op}
use tcg_rs.Label.{Label, new_label}

-- A map from u64 to the constant's temporary, as an association list.
abbrev pub ConstMap : Type 0
ConstMap = List (ℕ × TempIdx)

unfoldable pub get : ConstMap → ℕ → Option TempIdx
get [] v = none
get ((w, t) ∷ m) v = if w == v then some t else get m v

-- The `const_table` is the array of one map for each type, indexed by `ty as usize`. The frame's
-- offsets are i64 numbers that are not negative. `reserved_regs` is a set of registers as bits.
pub record Context : Type 0 where
  pub temps : List Temp
  pub ops : List Op
  pub labels : List Label
  pub nb_globals : ℕ
  pub frame_reg : Option ℕ
  pub frame_start : ℕ
  pub frame_end : ℕ
  pub frame_alloc_end : ℕ
  pub reserved_regs : ℕ
  pub const_table : ℕ → ConstMap
  pub gen_insn_end_off : List ℕ
  pub tb_idx : ℕ

unfoldable pub new_context : Context
new_context = record {
  temps = [];
  ops = [];
  labels = [];
  nb_globals = 0;
  frame_reg = none;
  frame_start = 0;
  frame_end = 0;
  frame_alloc_end = 0;
  reserved_regs = 0;
  const_table = λ _. [];
  gen_insn_end_off = [];
  tb_idx = 0;
}

-- What `reset` does to a surviving temporary.
unfoldable pub reset_temp : TempKind → Temp → Temp
reset_temp TempKind.fixed t = record t { mem_coherent = false }
reset_temp TempKind.global t = record t { val_type = TempVal.mem; reg = none; mem_coherent = true }
reset_temp _ t = t

unfoldable pub reset : Context → Context
unfolding reset_temp
reset c = record c {
  temps = map (λ t. reset_temp t.kind t) (take c.nb_globals c.temps);
  ops = [];
  labels = [];
  const_table = λ _. [];
  gen_insn_end_off = [];
  frame_alloc_end = c.frame_start;
}

unfoldable pub nb_temps : Context → ℕ
nb_temps c = length c.temps

unfoldable pub push_temp : Context → Temp → Context
push_temp c t = record c { temps = c.temps ++ t ∷ [] }

unfoldable pub new_temp : Context → IrType → Context × TempIdx
unfolding push_temp Temp.new_ebb
new_temp c ty = let i = length c.temps in (push_temp c (Temp.new_ebb i ty), i)

unfoldable pub new_temp_tb : Context → IrType → Context × TempIdx
unfolding push_temp Temp.new_tb
new_temp_tb c ty = let i = length c.temps in (push_temp c (Temp.new_tb i ty), i)

-- Allocates the constant and enters it into its type's table.
unfoldable pub add_const : Context → IrType → ℕ → Context × TempIdx
unfolding push_temp Temp.new_const
add_const c ty v =
    let i = length c.temps in
    let table : ℕ → ConstMap =
      λ k. if k == type_idx ty then (v, i) ∷ c.const_table k else c.const_table k in
    (record (push_temp c (Temp.new_const i ty v)) { const_table = table }, i)

unfoldable pub new_const : Context → IrType → ℕ → Context × TempIdx
unfolding get add_const
new_const c ty v = elim (get (c.const_table (type_idx ty)) v) [
  | some t ↦ (c, t)
  | none ↦ add_const c ty v
]

-- `none` is the failed assertion that globals come before locals.
unfoldable pub new_global : Context → IrType → TempIdx → ℕ → Option (Context × TempIdx)
unfolding push_temp Temp.new_global
new_global c ty base offset =
    let i = length c.temps in
    if i == c.nb_globals
    then some (
      record (push_temp c (Temp.new_global i ty base offset)) { nb_globals = c.nb_globals + 1 },
      i,
    )
    else none

unfoldable pub new_fixed : Context → IrType → ℕ → Option (Context × TempIdx)
unfolding push_temp Temp.new_fixed
new_fixed c ty reg =
    let i = length c.temps in
    if i == c.nb_globals
    then some (record (push_temp c (Temp.new_fixed i ty reg)) { nb_globals = c.nb_globals + 1 }, i)
    else none

unfoldable pub emit_op : Context → Op → Context × ℕ
emit_op c op = (record c { ops = c.ops ++ op ∷ [] }, op.idx)

unfoldable pub next_op_idx : Context → ℕ
next_op_idx c = length c.ops

unfoldable pub add_label : Context → Context × ℕ
unfolding new_label
add_label c = let i = length c.labels in (record c { labels = c.labels ++ new_label i ∷ [] }, i)

unfoldable pub set_frame : Context → ℕ → ℕ → ℕ → Context
set_frame c reg start size = record c {
  frame_reg = some reg;
  frame_start = start;
  frame_end = start + size;
  frame_alloc_end = start;
}

-- `(x + size - 1) & !(size - 1)` for a power of two: the next multiple of `size`.
unfoldable pub align_up : ℕ → ℕ → ℕ
align_up x size = (x + (size - 1)) / size * size

-- The slot for a temporary that has none yet; `none` is the overflow of the spill area.
unfoldable pub alloc_slot : Context → TempIdx → Temp → Option (Context × ℕ)
unfolding align_up size_bytes
alloc_slot c i t =
    let size = size_bytes t.ty in
    let offset = align_up c.frame_alloc_end size in
    if leb (offset + size) c.frame_end
    then some (
      record c {
        frame_alloc_end = offset + size;
        temps = set c.temps i (record t { mem_allocated = true; mem_offset = offset });
      },
      offset,
    )
    else none

-- `none` also where there is no such temporary.
unfoldable pub alloc_temp_frame : Context → TempIdx → Option (Context × ℕ)
unfolding alloc_slot
alloc_temp_frame c i = elim (get_elem? c.temps i) [
  | none ↦ none
  | some t ↦ if t.mem_allocated then some (c, t.mem_offset) else alloc_slot c i t
]
