-- ===== src/MemOp.antt =====
-- core/src/types.rs: the descriptor of a memory access, fields of bits in a u16.
pub mod Fields
use tcg_rs.Base.{ℕ, ◌*◌, ◌^◌, bit_and, bit_or, Bool, not, ◌==◌}

abbrev pub MemOp : Type 0
MemOp = ℕ

abbrev pub size_8 : ℕ
size_8 = 0

abbrev pub size_16 : ℕ
size_16 = 1

abbrev pub size_32 : ℕ
size_32 = 2

abbrev pub size_64 : ℕ
size_64 = 3

abbrev pub sign : ℕ
sign = 1 * 2 ^ 2

abbrev pub bswap : ℕ
bswap = 1 * 2 ^ 3

abbrev pub align_2 : ℕ
align_2 = 1 * 2 ^ 4

abbrev pub align_4 : ℕ
align_4 = 2 * 2 ^ 4

abbrev pub align_8 : ℕ
align_8 = 3 * 2 ^ 4

abbrev pub align_16 : ℕ
align_16 = 4 * 2 ^ 4

abbrev pub align_32 : ℕ
align_32 = 5 * 2 ^ 4

abbrev pub align_64 : ℕ
align_64 = 6 * 2 ^ 4

unfoldable pub ub : MemOp
ub = size_8

unfoldable pub sb : MemOp
sb = bit_or size_8 sign

unfoldable pub uw : MemOp
uw = size_16

unfoldable pub sw : MemOp
sw = bit_or size_16 sign

unfoldable pub ul : MemOp
ul = size_32

unfoldable pub sl : MemOp
sl = bit_or size_32 sign

unfoldable pub uq : MemOp
uq = size_64

unfoldable pub size : MemOp → ℕ
size op = bit_and op 3

unfoldable pub is_signed : MemOp → Bool
is_signed op = not (bit_and op sign == 0)

unfoldable pub is_bswap : MemOp → Bool
is_bswap op = not (bit_and op bswap == 0)

unfoldable pub size_bytes : MemOp → ℕ
unfolding size
size_bytes op = 1 * 2 ^ size op
