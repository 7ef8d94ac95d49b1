-- ===== src/RegSet.antt =====
-- core/src/types.rs: sets of host registers, as the bits of a u64. An assertion that fails gives `none`.
pub mod Members
use tcg_rs.Base.{
  ℕ, zero, suc, ◌+◌, ◌*◌, ◌/◌, ◌%◌, ◌^◌, bit_and, bit_or, Bool, not, Option, none, some, ltb, ◌==◌,
  if◌then◌else◌,
}
use tcg_rs.Base.Words.{not_u64}

abbrev pub RegSet : Type 0
RegSet = ℕ

abbrev pub empty : RegSet
empty = 0

-- `1u64 << reg`.
abbrev pub bit : ℕ → ℕ
bit reg = 2 ^ reg

unfoldable pub set : RegSet → ℕ → Option RegSet
set s reg = if ltb reg 64 then some (bit_or s (bit reg)) else none

unfoldable pub clear : RegSet → ℕ → Option RegSet
clear s reg = if ltb reg 64 then some (bit_and s (not_u64 (bit reg))) else none

unfoldable pub contains : RegSet → ℕ → Option Bool
contains s reg = if ltb reg 64 then some (not (bit_and s (bit reg) == 0)) else none

unfoldable pub is_empty : RegSet → Bool
is_empty s = s == 0

unfoldable pub union : RegSet → RegSet → RegSet
union s other = bit_or s other

unfoldable pub intersect : RegSet → RegSet → RegSet
intersect s other = bit_and s other

unfoldable pub subtract : RegSet → RegSet → RegSet
subtract s other = bit_and s (not_u64 other)

-- `count_ones` of a number of `n` bits.
unfoldable pub count_ones : ℕ → ℕ → ℕ
count_ones zero x = 0
count_ones (suc n) x = x % 2 + count_ones n (x / 2)

unfoldable pub count : RegSet → ℕ
unfolding count_ones
count s = count_ones 64 s

-- `trailing_zeros` of a number of `n` bits.
unfoldable pub trailing_zeros : ℕ → ℕ → ℕ
trailing_zeros zero x = 0
trailing_zeros (suc n) x = let rest = trailing_zeros n (x / 2) in if x % 2 == 1 then 0 else suc rest

unfoldable pub first : RegSet → Option ℕ
unfolding trailing_zeros
first s = if s == 0 then none else some (trailing_zeros 64 s)
