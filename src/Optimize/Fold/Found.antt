-- ===== src/Optimize/Fold/Found.antt =====
-- backend/src/optimize.rs: the rule that `fold_binary` finds keeps the value of the operation.
use tcg_rs.Base.{
  ℕ, ◌^◌, ◌<◌, ◌≡◌, refl, sym, ◌∙◌, bit_and, Bool, true, false, ◌&&◌, Option, none, some, arith,
  if◌then◌else◌, ◌==◌, ==_iff,
}
use tcg_rs.IrType.{IrType, size_bits}
use tcg_rs.Opcode.{Opcode}
use tcg_rs.Temp.{TempIdx}
use tcg_rs.Semantics.{trunc, binary}
use tcg_rs.Optimize.{TempInfo}
use tcg_rs.Optimize.Eval.{type_mask, eval_binary}
use tcg_rs.Optimize.Eval.Sound.{IsInt, mask-trunc, eval_binary-binary}
use tcg_rs.Optimize.Rules.{Rule, right_rule, left_rule, same_rule}
use tcg_rs.Optimize.Rules.Sound.{rule_value, right32, left32, same32, right64, left64, same64}
use tcg_rs.Optimize.Fold.{binary_rule, or_else, constant_rule}

abbrev Keeps : Opcode → IrType → (TempIdx → ℕ) → ℕ → ℕ → Option Rule → Type 0
Keeps opc ty val a b o =
    (r : Rule) → o ≡ some r → binary opc (size_bits ty) a b ≡ some (rule_value ty val r)

Keeps-none : (opc : Opcode) (ty : IrType) (val : TempIdx → ℕ) (a b : ℕ) → Keeps opc ty val a b none
Keeps-none opc ty val a b r e = absurd (cc)

Keeps-or_else :
    (opc : Opcode) (ty : IrType) (val : TempIdx → ℕ) (a b : ℕ) (o o' : Option Rule)
    → Keeps opc ty val a b o
    → Keeps opc ty val a b o'
    → Keeps opc ty val a b (or_else o o')
Keeps-or_else opc ty val a b none o' h h' = h'
Keeps-or_else opc ty val a b (some r) o' h h' = h

Keeps-if :
    (opc : Opcode) (ty : IrType) (val : TempIdx → ℕ) (a b : ℕ) (t : Bool) (o : Option Rule)
    → (t ≡ true → Keeps opc ty val a b o)
    → Keeps opc ty val a b (if t then o else none)
Keeps-if opc ty val a b true o h = h refl
Keeps-if opc ty val a b false o h = Keeps-none opc ty val a b

right_rule-Keeps :
    (opc : Opcode) (ty : IrType) (val : TempIdx → ℕ) (i : TempIdx) (b : ℕ)
    → IsInt ty
    → val i < 2 ^ size_bits ty
    → Keeps opc ty val (val i) b (right_rule opc b (type_mask ty) i)
right_rule-Keeps opc IrType.i32 val i b h p r e = right32 val i opc (val i) b refl p e
right_rule-Keeps opc IrType.i64 val i b h p r e = right64 val i opc (val i) b refl p e
right_rule-Keeps opc _ val i b h p r e = absurd h

left_rule-Keeps :
    (opc : Opcode) (ty : IrType) (val : TempIdx → ℕ) (j : TempIdx) (a : ℕ)
    → IsInt ty
    → val j < 2 ^ size_bits ty
    → Keeps opc ty val a (val j) (left_rule opc a (type_mask ty) j)
left_rule-Keeps opc IrType.i32 val j a h p r e = left32 val j opc a (val j) refl p e
left_rule-Keeps opc IrType.i64 val j a h p r e = left64 val j opc a (val j) refl p e
left_rule-Keeps opc _ val j a h p r e = absurd h

same_rule-Keeps :
    (opc : Opcode) (ty : IrType) (val : TempIdx → ℕ) (i : TempIdx)
    → IsInt ty
    → val i < 2 ^ size_bits ty
    → Keeps opc ty val (val i) (val i) (same_rule opc i)
same_rule-Keeps opc IrType.i32 val i h p r e = same32 val i opc (val i) refl p e
same_rule-Keeps opc IrType.i64 val i h p r e = same64 val i opc (val i) refl p e
same_rule-Keeps opc _ val i h p r e = absurd h

constant_rule-Keeps :
    (opc : Opcode) (ty : IrType) (val : TempIdx → ℕ) (a b : ℕ) (o : Option ℕ)
    → o ≡ binary opc (size_bits ty) a b
    → Keeps opc ty val a b (constant_rule o)
constant_rule-Keeps opc ty val a b none e r h = absurd (cc)
constant_rule-Keeps opc ty val a b (some v) e r h = ground arith

module _ (opc : Opcode) (ty : IrType) (val : TempIdx → ℕ) (i j : TempIdx) (ai bi : TempInfo)
    (int : IsInt ty) (fits : (t : TempIdx) → val t < 2 ^ size_bits ty)
    (a_known : ai.is_const ≡ true → val i ≡ trunc ty ai.val)
    (b_known : bi.is_const ≡ true → val j ≡ trunc ty bi.val) where
  a_masked : ai.is_const ≡ true → bit_and ai.val (type_mask ty) ≡ val i
  a_masked e = mask-trunc ty ai.val int ∙ sym (a_known e)

  b_masked : bi.is_const ≡ true → bit_and bi.val (type_mask ty) ≡ val j
  b_masked e = mask-trunc ty bi.val int ∙ sym (b_known e)

  both_constant :
      (ai.is_const && bi.is_const) ≡ true
      → Keeps opc ty val (val i) (val j) (
          constant_rule
            (eval_binary opc (bit_and ai.val (type_mask ty)) (bit_and bi.val (type_mask ty)) ty))
  both_constant e =
      let ea : ai.is_const ≡ true = ground arith in
      let eb : bi.is_const ≡ true = ground arith in
      rw (a_masked ea, b_masked eb)
        (constant_rule-Keeps opc ty val (val i) (val j) _
          (eval_binary-binary opc ty (val i) (val j) int (fits i) (fits j)))

  -- Where what is known of the two operands is right and their values fit the type, which is i32 or
  -- i64, the rule that `fold_binary` finds puts the value of the operation in the output.
  pub binary_rule-Keeps :
      (r : Rule)
      → binary_rule opc ty i j ai bi ≡ some r
      → binary opc (size_bits ty) (val i) (val j) ≡ some (rule_value ty val r)
  unfolding binary_rule
  binary_rule-Keeps =
      Keeps-or_else opc ty val (val i) (val j) _ _
        (Keeps-if opc ty val (val i) (val j) (ai.is_const && bi.is_const) _ both_constant)
        (Keeps-or_else opc ty val (val i) (val j) _ _
          (Keeps-if opc ty val (val i) (val j) bi.is_const _
            (λ e. rw (b_masked e) (right_rule-Keeps opc ty val i (val j) int (fits i))))
          (Keeps-or_else opc ty val (val i) (val j) _ _
            (Keeps-if opc ty val (val i) (val j) ai.is_const _
              (λ e. rw (a_masked e) (left_rule-Keeps opc ty val j (val i) int (fits j))))
            (Keeps-if opc ty val (val i) (val j) (i == j) _ (λ e.
              let q : i ≡ j = (==_iff i j).0 e in
              rw (← q) (same_rule-Keeps opc ty val i int (fits i))))))
