-- ===== src/Optimize/Eval.antt =====
-- backend/src/optimize.rs: the evaluation of conditions and of binary operations on constants.
pub mod Sound
use tcg_rs.Base.{
  ℕ, ◌%◌, bit_and, bit_or, bit_xor, Bool, true, false, not, Option, none, some, ltb, leb, ◌==◌,
  if◌then◌else◌,
}
use tcg_rs.Base.Words.{
  ltb_ℤ, leb_ℤ, signed, max_u64, as_u32, wrapping_add, wrapping_sub, wrapping_mul, not_u64, shl_u64,
  shr, arith_shr, sign_extend32, rotate_left, rotate_right,
}
use tcg_rs.IrType.{IrType, size_bits}
use tcg_rs.Cond.{Cond}
use tcg_rs.Opcode.{Opcode}
use tcg_rs.Temp.{TempIdx}

abbrev pub type_mask : IrType → ℕ
type_mask IrType.i32 = 0xFFFF_FFFF
type_mask _ = max_u64

-- `compare_masked` holds the arms of the match, on operands that are masked already.
unfoldable pub compare_masked : ℕ → ℕ → Cond → Bool
compare_masked a b Cond.always = true
compare_masked a b Cond.never = false
compare_masked a b Cond.eq = a == b
compare_masked a b Cond.ne = not (a == b)
compare_masked a b Cond.lt = ltb_ℤ (signed 64 a) (signed 64 b)
compare_masked a b Cond.ge = leb_ℤ (signed 64 b) (signed 64 a)
compare_masked a b Cond.le = leb_ℤ (signed 64 a) (signed 64 b)
compare_masked a b Cond.gt = ltb_ℤ (signed 64 b) (signed 64 a)
compare_masked a b Cond.ltu = ltb a b
compare_masked a b Cond.geu = leb b a
compare_masked a b Cond.leu = leb a b
compare_masked a b Cond.gtu = ltb b a
compare_masked a b Cond.tst_eq = bit_and a b == 0
compare_masked a b Cond.tst_ne = not (bit_and a b == 0)

unfoldable pub eval_cond : ℕ → ℕ → Cond → IrType → Bool
unfolding compare_masked
eval_cond a b c ty = compare_masked (bit_and a (type_mask ty)) (bit_and b (type_mask ty)) c

-- The numbers from 2 to 7 and from 20 on stand for no condition.
unfoldable pub cond_from_carg : TempIdx → Cond
cond_from_carg t =
    if t == 1
    then Cond.always
    else if t == 8
    then Cond.eq
    else if t == 9
    then Cond.ne
    else if t == 10
    then Cond.lt
    else if t == 11
    then Cond.ge
    else if t == 12
    then Cond.le
    else if t == 13
    then Cond.gt
    else if t == 14
    then Cond.ltu
    else if t == 15
    then Cond.geu
    else if t == 16
    then Cond.leu
    else if t == 17
    then Cond.gtu
    else if t == 18
    then Cond.tst_eq
    else if t == 19
    then Cond.tst_ne
    else Cond.never

abbrev is_i32 : IrType → Bool
is_i32 IrType.i32 = true
is_i32 _ = false

-- The arms of `eval_binary`, before the result is masked. `sh` is `(b as u32) % bits`;
-- a shift or rotation of a u64 takes it modulo 64, which matters for types wider than 64 bits only
-- (there a build with overflow checks panics at `sar` in place of the reduction).
unfoldable pub eval_raw : Opcode → ℕ → ℕ → IrType → ℕ → Option ℕ
eval_raw Opcode.add a b ty sh = some (wrapping_add a b)
eval_raw Opcode.sub a b ty sh = some (wrapping_sub a b)
eval_raw Opcode.mul a b ty sh = some (wrapping_mul a b)
eval_raw Opcode.and a b ty sh = some (bit_and a b)
eval_raw Opcode.or a b ty sh = some (bit_or a b)
eval_raw Opcode.xor a b ty sh = some (bit_xor a b)
eval_raw Opcode.and_c a b ty sh = some (bit_and a (not_u64 b))
eval_raw Opcode.shl a b ty sh = some (shl_u64 a (sh % 64))
eval_raw Opcode.shr a b ty sh = some (shr (bit_and a (type_mask ty)) (sh % 64))
eval_raw Opcode.sar a b ty sh =
    some
      (if is_i32 ty then sign_extend32 (arith_shr 32 (as_u32 a) sh) else arith_shr 64 a (sh % 64))
eval_raw Opcode.rot_l a b ty sh =
    some (if is_i32 ty then rotate_left 32 (as_u32 a) sh else rotate_left 64 a (sh % 64))
eval_raw Opcode.rot_r a b ty sh =
    some (if is_i32 ty then rotate_right 32 (as_u32 a) sh else rotate_right 64 a (sh % 64))
eval_raw _ a b ty sh = none

unfoldable pub eval_binary : Opcode → ℕ → ℕ → IrType → Option ℕ
unfolding eval_raw
eval_binary opc a b ty = elim (eval_raw opc a b ty (as_u32 b % size_bits ty)) [
  | none ↦ none
  | some r ↦ some (bit_and r (type_mask ty))
]
