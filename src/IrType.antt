-- ===== src/IrType.antt =====
-- core/src/types.rs: the types of the intermediate representation (`Type`) and `TempVal`.
use tcg_rs.Base.{ℕ, ◌/◌, Bool, true, false}

pub data IrType : Type 0 where
  i32 i64 i128 v64 v128 v256 : IrType

-- `ty as usize`, the index of a per-type table.
abbrev pub type_idx : IrType → ℕ
type_idx IrType.i32 = 0
type_idx IrType.i64 = 1
type_idx IrType.i128 = 2
type_idx IrType.v64 = 3
type_idx IrType.v128 = 4
type_idx IrType.v256 = 5

abbrev pub type_count : ℕ
type_count = 6

abbrev pub size_bits : IrType → ℕ
size_bits IrType.i32 = 32
size_bits IrType.i64 = 64
size_bits IrType.i128 = 128
size_bits IrType.v64 = 64
size_bits IrType.v128 = 128
size_bits IrType.v256 = 256

unfoldable pub size_bytes : IrType → ℕ
size_bytes ty = size_bits ty / 8

unfoldable pub is_vector : IrType → Bool
is_vector IrType.v64 = true
is_vector IrType.v128 = true
is_vector IrType.v256 = true
is_vector _ = false

unfoldable pub is_integer : IrType → Bool
is_integer IrType.i32 = true
is_integer IrType.i64 = true
is_integer IrType.i128 = true
is_integer _ = false

-- Where the register allocator keeps a temporary.
pub data TempVal : Type 0 where
  dead reg mem const : TempVal
