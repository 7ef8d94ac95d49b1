-- ===== src/Optimize/Rules.antt =====
-- backend/src/optimize.rs: the arms of `try_simplify`, and the identities on one operand twice.
-- A rule says by what the arm replaces the operation; `Fold` carries it out.
pub mod Sound
use tcg_rs.Base.{ℕ, Option, none, some, ◌==◌, if◌then◌else◌}
use tcg_rs.Opcode.{Opcode}
use tcg_rs.Temp.{TempIdx}

pub data Rule : Type 0 where
  to_mov : TempIdx → Rule
  to_const : ℕ → Rule
  to_neg : TempIdx → Rule

-- The arms where `b`, masked, is a constant; `a_idx` is the other operand.
unfoldable pub right_rule : Opcode → ℕ → ℕ → TempIdx → Option Rule
right_rule Opcode.add b ones x = if b == 0 then some (Rule.to_mov x) else none
right_rule Opcode.sub b ones x = if b == 0 then some (Rule.to_mov x) else none
right_rule Opcode.or b ones x =
    if b == 0 then some (Rule.to_mov x) else if b == ones then some (Rule.to_const ones) else none
right_rule Opcode.xor b ones x = if b == 0 then some (Rule.to_mov x) else none
right_rule Opcode.shl b ones x = if b == 0 then some (Rule.to_mov x) else none
right_rule Opcode.shr b ones x = if b == 0 then some (Rule.to_mov x) else none
right_rule Opcode.sar b ones x = if b == 0 then some (Rule.to_mov x) else none
right_rule Opcode.rot_l b ones x = if b == 0 then some (Rule.to_mov x) else none
right_rule Opcode.rot_r b ones x = if b == 0 then some (Rule.to_mov x) else none
right_rule Opcode.mul b ones x =
    if b == 0 then some (Rule.to_const 0) else if b == 1 then some (Rule.to_mov x) else none
right_rule Opcode.and b ones x =
    if b == 0 then some (Rule.to_const 0) else if b == ones then some (Rule.to_mov x) else none
right_rule Opcode.and_c b ones x = if b == ones then some (Rule.to_const 0) else none
right_rule _ b ones x = none

-- The arms where `a`, masked, is a constant; `b_idx` is the other operand.
unfoldable pub left_rule : Opcode → ℕ → ℕ → TempIdx → Option Rule
left_rule Opcode.add a ones x = if a == 0 then some (Rule.to_mov x) else none
left_rule Opcode.sub a ones x = if a == 0 then some (Rule.to_neg x) else none
left_rule Opcode.mul a ones x = if a == 0 then some (Rule.to_const 0) else none
left_rule Opcode.and a ones x = if a == 0 then some (Rule.to_const 0) else none
left_rule Opcode.or a ones x = if a == ones then some (Rule.to_const ones) else none
left_rule _ a ones x = none

-- x & x and x | x are x, x ^ x and x - x are 0.
unfoldable pub same_rule : Opcode → TempIdx → Option Rule
same_rule Opcode.and x = some (Rule.to_mov x)
same_rule Opcode.or x = some (Rule.to_mov x)
same_rule Opcode.xor x = some (Rule.to_const 0)
same_rule Opcode.sub x = some (Rule.to_const 0)
same_rule _ x = none
