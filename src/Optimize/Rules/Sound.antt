-- ===== src/Optimize/Rules/Sound.antt =====
-- backend/src/optimize.rs: each rule gives the value of the operation that it replaces.
use tcg_rs.Base.{ℕ, ◌-◌, ◌*◌, ◌/◌, ◌%◌, ◌^◌, ◌<◌, ◌≡◌, ap, ◌∙◌, some, arith}
use tcg_rs.Base.Bits.{
  bit_and-zero, zero-bit_and, bit_or-zero, bit_xor-zero, bit_and_self, bit_or_self, bit_xor_self,
  bit_and_mask, bit_or_ones, ones_bit_or,
}
use tcg_rs.Base.Words.{arith_shr, rotate_left, rotate_right}
use tcg_rs.IrType.{IrType, size_bits}
use tcg_rs.Opcode.{Opcode}
use tcg_rs.Temp.{TempIdx}
use tcg_rs.Semantics.{trunc, binary}
use tcg_rs.Optimize.Rules.{Rule, right_rule, left_rule, same_rule}

-- The value of what a rule puts in place, where `val` reads the temporaries at the type.
abbrev pub rule_value : IrType → (TempIdx → ℕ) → Rule → ℕ
rule_value ty val (Rule.to_mov t) = val t
rule_value ty val (Rule.to_const v) = v
rule_value ty val (Rule.to_neg t) = trunc ty (2 ^ size_bits ty - val t)

-- What a shift by zero gives.
module _ (a : ℕ) where
  still_shl32 : a < 2 ^ 32 → a * 2 ^ (0 % 32) % 2 ^ 32 ≡ a
  still_shl32 h = omega arith

  still_rot_l32 : a < 2 ^ 32 → rotate_left 32 a (0 % 32) ≡ a
  still_rot_l32 h = omega arith

  still_rot_r32 : a < 2 ^ 32 → rotate_right 32 a (0 % 32) ≡ a
  still_rot_r32 h = omega arith

  still_sar32 : a < 2 ^ 32 → arith_shr 32 a (0 % 32) ≡ a
  still_sar32 h = ground arith

  still_shl64 : a < 2 ^ 64 → a * 2 ^ (0 % 64) % 2 ^ 64 ≡ a
  still_shl64 h = omega arith

  still_rot_l64 : a < 2 ^ 64 → rotate_left 64 a (0 % 64) ≡ a
  still_rot_l64 h = omega arith

  still_rot_r64 : a < 2 ^ 64 → rotate_right 64 a (0 % 64) ≡ a
  still_rot_r64 h = omega arith

  still_sar64 : a < 2 ^ 64 → arith_shr 64 a (0 % 64) ≡ a
  still_sar64 h = ground arith

still : (g : ℕ → ℕ) (a b : ℕ) → g 0 ≡ a → b ≡ 0 → g b ≡ a
still g a b h e = ap g e ∙ h

module _ (val : TempIdx → ℕ) (x : TempIdx) where
  pub right32 :
      (opc : Opcode) (a b : ℕ) {r : Rule}
      → val x ≡ a
      → a < 2 ^ 32
      → right_rule opc b 0xFFFF_FFFF x ≡ some r
      → binary opc 32 a b ≡ some (rule_value IrType.i32 val r)
  unfolding right_rule binary
  right32 Opcode.add a b e p h = ground arith
  right32 Opcode.sub a b e p h = ground arith
  right32 Opcode.or a b e p h = ground (arith, bit_or-zero a, bit_or_ones 32 a p)
  right32 Opcode.xor a b e p h = ground (arith, bit_xor-zero a)
  right32 Opcode.shl a b e p h =
      ground (arith, still (λ n. a * 2 ^ (n % 32) % 2 ^ 32) a b (still_shl32 a p))
  right32 Opcode.shr a b e p h = ground (arith, still (λ n. a / 2 ^ (n % 32)) a b (omega arith))
  right32 Opcode.sar a b e p h =
      ground (arith, still (λ n. arith_shr 32 a (n % 32)) a b (still_sar32 a p))
  right32 Opcode.rot_l a b e p h =
      ground (arith, still (λ n. rotate_left 32 a (n % 32)) a b (still_rot_l32 a p))
  right32 Opcode.rot_r a b e p h =
      ground (arith, still (λ n. rotate_right 32 a (n % 32)) a b (still_rot_r32 a p))
  right32 Opcode.mul a b e p h = ground arith
  right32 Opcode.and a b e p h = ground (arith, bit_and-zero a, bit_and_mask 32 a)
  right32 Opcode.and_c a b e p h = ground (arith, bit_and-zero a)
  right32 _ a b e p h = absurd (cc)

  pub left32 :
      (opc : Opcode) (a b : ℕ) {r : Rule}
      → val x ≡ b
      → b < 2 ^ 32
      → left_rule opc a 0xFFFF_FFFF x ≡ some r
      → binary opc 32 a b ≡ some (rule_value IrType.i32 val r)
  unfolding left_rule binary
  left32 Opcode.add a b e p h = ground arith
  left32 Opcode.sub a b e p h = ground arith
  left32 Opcode.or a b e p h = ground (arith, ones_bit_or 32 b p)
  left32 Opcode.mul a b e p h = ground arith
  left32 Opcode.and a b e p h = ground (arith, zero-bit_and b)
  left32 _ a b e p h = absurd (cc)

  pub same32 :
      (opc : Opcode) (a : ℕ) {r : Rule}
      → val x ≡ a
      → a < 2 ^ 32
      → same_rule opc x ≡ some r
      → binary opc 32 a a ≡ some (rule_value IrType.i32 val r)
  unfolding same_rule binary
  same32 Opcode.and a e p h = ground (arith, bit_and_self a)
  same32 Opcode.or a e p h = ground (arith, bit_or_self a)
  same32 Opcode.xor a e p h = ground (arith, bit_xor_self a)
  same32 Opcode.sub a e p h = ground arith
  same32 _ a e p h = absurd (cc)

  pub right64 :
      (opc : Opcode) (a b : ℕ) {r : Rule}
      → val x ≡ a
      → a < 2 ^ 64
      → right_rule opc b 0xFFFF_FFFF_FFFF_FFFF x ≡ some r
      → binary opc 64 a b ≡ some (rule_value IrType.i64 val r)
  unfolding right_rule binary
  right64 Opcode.add a b e p h = ground arith
  right64 Opcode.sub a b e p h = ground arith
  right64 Opcode.or a b e p h = ground (arith, bit_or-zero a, bit_or_ones 64 a p)
  right64 Opcode.xor a b e p h = ground (arith, bit_xor-zero a)
  right64 Opcode.shl a b e p h =
      ground (arith, still (λ n. a * 2 ^ (n % 64) % 2 ^ 64) a b (still_shl64 a p))
  right64 Opcode.shr a b e p h = ground (arith, still (λ n. a / 2 ^ (n % 64)) a b (omega arith))
  right64 Opcode.sar a b e p h =
      ground (arith, still (λ n. arith_shr 64 a (n % 64)) a b (still_sar64 a p))
  right64 Opcode.rot_l a b e p h =
      ground (arith, still (λ n. rotate_left 64 a (n % 64)) a b (still_rot_l64 a p))
  right64 Opcode.rot_r a b e p h =
      ground (arith, still (λ n. rotate_right 64 a (n % 64)) a b (still_rot_r64 a p))
  right64 Opcode.mul a b e p h = ground arith
  right64 Opcode.and a b e p h = ground (arith, bit_and-zero a, bit_and_mask 64 a)
  right64 Opcode.and_c a b e p h = ground (arith, bit_and-zero a)
  right64 _ a b e p h = absurd (cc)

  pub left64 :
      (opc : Opcode) (a b : ℕ) {r : Rule}
      → val x ≡ b
      → b < 2 ^ 64
      → left_rule opc a 0xFFFF_FFFF_FFFF_FFFF x ≡ some r
      → binary opc 64 a b ≡ some (rule_value IrType.i64 val r)
  unfolding left_rule binary
  left64 Opcode.add a b e p h = ground arith
  left64 Opcode.sub a b e p h = ground arith
  left64 Opcode.or a b e p h = ground (arith, ones_bit_or 64 b p)
  left64 Opcode.mul a b e p h = ground arith
  left64 Opcode.and a b e p h = ground (arith, zero-bit_and b)
  left64 _ a b e p h = absurd (cc)

  pub same64 :
      (opc : Opcode) (a : ℕ) {r : Rule}
      → val x ≡ a
      → a < 2 ^ 64
      → same_rule opc x ≡ some r
      → binary opc 64 a a ≡ some (rule_value IrType.i64 val r)
  unfolding same_rule binary
  same64 Opcode.and a e p h = ground (arith, bit_and_self a)
  same64 Opcode.or a e p h = ground (arith, bit_or_self a)
  same64 Opcode.xor a e p h = ground (arith, bit_xor_self a)
  same64 Opcode.sub a e p h = ground arith
  same64 _ a e p h = absurd (cc)
