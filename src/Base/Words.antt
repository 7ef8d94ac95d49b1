-- ===== src/Base/Words.antt =====
-- Rust's fixed-width operations on unsigned words kept as numbers, and the reading of a word as a
-- signed integer. A `u64` is a number below 2 ^ 64, a `u32` one below 2 ^ 32.
use tcg_rs.Base.Tests.{ltb, leb, if◌then◌else◌}
use Prim.Native.Nat.{ℕ, suc, ◌+◌, ◌-◌, ◌*◌, ◌/◌, ◌%◌, ◌^◌}
use mathlib.Core.Bool.{Bool}

-- `negsuc n` is -(n + 1).
pub data ℤ : Type 0 where
  pos : ℕ → ℤ
  negsuc : ℕ → ℤ

abbrev pub pos_part : ℤ → ℕ
pos_part (pos n) = n
pos_part (negsuc n) = 0

abbrev pub neg_part : ℤ → ℕ
neg_part (pos n) = 0
neg_part (negsuc n) = suc n

abbrev pub ltb_ℤ : ℤ → ℤ → Bool
ltb_ℤ a b = ltb (pos_part a + neg_part b) (pos_part b + neg_part a)

abbrev pub leb_ℤ : ℤ → ℤ → Bool
leb_ℤ a b = leb (pos_part a + neg_part b) (pos_part b + neg_part a)

-- A word of `w` bits read in two's complement.
abbrev pub signed : ℕ → ℕ → ℤ
signed w x = if ltb x (2 ^ (w - 1)) then pos x else negsuc (2 ^ w - x - 1)

abbrev pub max_u64 : ℕ
max_u64 = 0xFFFF_FFFF_FFFF_FFFF

abbrev pub as_u32 : ℕ → ℕ
as_u32 x = x % 2 ^ 32

abbrev pub wrapping_add : ℕ → ℕ → ℕ
wrapping_add a b = (a + b) % 2 ^ 64

-- `-` on ℕ stops at 0, so the modulus is added first.
abbrev pub wrapping_sub : ℕ → ℕ → ℕ
wrapping_sub a b = (a + 2 ^ 64 - b) % 2 ^ 64

abbrev pub wrapping_mul : ℕ → ℕ → ℕ
wrapping_mul a b = a * b % 2 ^ 64

-- `!a` of a u64.
abbrev pub not_u64 : ℕ → ℕ
not_u64 a = max_u64 - a

abbrev pub shl_u64 : ℕ → ℕ → ℕ
shl_u64 a n = a * 2 ^ n % 2 ^ 64

abbrev pub shr : ℕ → ℕ → ℕ
shr a n = a / 2 ^ n

-- `>>` of a signed word of `w` bits, which rounds down: of a negative number it is the complement
-- of the shifted complement.
abbrev pub arith_shr : ℕ → ℕ → ℕ → ℕ
arith_shr w a n = if ltb a (2 ^ (w - 1)) then a / 2 ^ n else 2 ^ w - 1 - (2 ^ w - 1 - a) / 2 ^ n

-- `x as i32 as i64 as u64` of a u32.
abbrev pub sign_extend32 : ℕ → ℕ
sign_extend32 x = if ltb x (2 ^ 31) then x else x + (2 ^ 64 - 2 ^ 32)

abbrev pub rotate_left : ℕ → ℕ → ℕ → ℕ
rotate_left w a n = a * 2 ^ n % 2 ^ w + a / 2 ^ (w - n)

abbrev pub rotate_right : ℕ → ℕ → ℕ → ℕ
rotate_right w a n = a / 2 ^ n + a * 2 ^ (w - n) % 2 ^ w
