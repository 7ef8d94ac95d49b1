-- ===== src/Optimize/Eval/Sound.antt =====
-- backend/src/optimize.rs: folding agrees with the meaning of the operations at both widths.
use tcg_rs.Base.{
  ℕ, ◌+◌, ◌-◌, ◌*◌, ◌/◌, ◌%◌, ◌^◌, ◌<◌, ◌≡◌, refl, ap, sym, ◌∙◌, bit_and, false, some, ◌⊎◌, inl,
  inr, arith,
}
use tcg_rs.Base.Bits.{bit_and_mask, bit_and-mod, bit_and-le, bit_or-lt, bit_xor-lt}
use tcg_rs.Base.Words.{max_u64, arith_shr, sign_extend32, rotate_left, rotate_right}
use tcg_rs.Base.Shifts.{shr-le, arith_shr-lt, rotate_left-lt, rotate_right-lt}
use mathlib.Core.Path.{subst}
use native.Mathlib.Nat.{mod-eq_of_lt, mod-mod}
use tcg_rs.IrType.{IrType, size_bits}
use tcg_rs.Opcode.{Opcode}
use tcg_rs.Cond.{Cond, is_signed}
use tcg_rs.Semantics.{trunc, binary, holds, pure}
use tcg_rs.Optimize.Eval.{type_mask, eval_binary, eval_cond, compare_masked}
use tcg_rs.Optimize.Fold.{unary_value, ext_value}

-- The two types of scalar operations.
abbrev pub IsInt : IrType → Type 0
IsInt IrType.i32 = Unit
IsInt IrType.i64 = Unit
IsInt _ = ⊥

pub mask-trunc : (ty : IrType) (v : ℕ) → IsInt ty → bit_and v (type_mask ty) ≡ trunc ty v
mask-trunc IrType.i32 v h = bit_and_mask 32 v
mask-trunc IrType.i64 v h = bit_and_mask 64 v
mask-trunc _ v h = absurd h

pub trunc-lt : (ty : IrType) (v : ℕ) → trunc ty v < 2 ^ size_bits ty
trunc-lt IrType.i32 v = omega arith
trunc-lt _ v = omega arith

mask32 : (v : ℕ) → bit_and v 0xFFFF_FFFF ≡ v % 2 ^ 32
mask32 v = bit_and_mask 32 v

mask64 : (v : ℕ) → bit_and v 0xFFFF_FFFF_FFFF_FFFF ≡ v % 2 ^ 64
mask64 v = bit_and_mask 64 v

and_not32 :
    (a b : ℕ) → a < 2 ^ 32 → b < 2 ^ 32 → bit_and a (max_u64 - b) ≡ bit_and a (2 ^ 32 - 1 - b)
and_not32 a b h g = bit_and-mod 32 a (max_u64 - b) h ∙ ap (λ (t : ℕ). bit_and a t) (omega arith)

index32 : (b : ℕ) → b % 2 ^ 32 % 32 ≡ b % 32
index32 b = omega arith

shift32 : (b : ℕ) → b % 2 ^ 32 % 32 % 64 ≡ b % 32
shift32 b = omega arith

index64 : (b : ℕ) → b % 2 ^ 32 % 64 % 64 ≡ b % 64
index64 b = omega arith

mod64_mod32 : (x : ℕ) → x % 2 ^ 64 % 2 ^ 32 ≡ x % 2 ^ 32
mod64_mod32 x = omega arith

extended : (x : ℕ) → sign_extend32 x % 2 ^ 32 ≡ x % 2 ^ 32
extended x = ground arith

-- A shift by an index that is reduced in two steps, whose result fits the width.
at_index :
    (w : ℕ) (g g' : ℕ → ℕ) (s s' : ℕ)
    → s ≡ s'
    → ((n : ℕ) → g n ≡ g' n)
    → g' s' < 2 ^ w
    → g s % 2 ^ w ≡ g' s'
at_index w g g' s s' e h lt = ap (λ (n : ℕ). g n % 2 ^ w) e ∙ (rw (h s') (mod-eq_of_lt lt))

-- For the types i32 and i64, on operands that fit the type, folding a binary operation gives the
-- value that the operation has, and it folds the operations that have one.
pub eval_binary-binary :
    (opc : Opcode) (ty : IrType) (a b : ℕ)
    → IsInt ty
    → a < 2 ^ size_bits ty
    → b < 2 ^ size_bits ty
    → eval_binary opc a b ty ≡ binary opc (size_bits ty) a b
unfolding eval_binary binary
eval_binary-binary Opcode.add IrType.i32 a b h p q = ap some (mask32 _ ∙ omega arith)
eval_binary-binary Opcode.add IrType.i64 a b h p q = ap some (mask64 _ ∙ omega arith)
eval_binary-binary Opcode.sub IrType.i32 a b h p q = ap some (mask32 _ ∙ omega arith)
eval_binary-binary Opcode.sub IrType.i64 a b h p q = ap some (mask64 _ ∙ omega arith)
eval_binary-binary Opcode.mul IrType.i32 a b h p q = ap some (mask32 _ ∙ omega arith)
eval_binary-binary Opcode.mul IrType.i64 a b h p q = ap some (mask64 _ ∙ omega arith)
eval_binary-binary Opcode.and IrType.i32 a b h p q =
    ap some (mask32 _ ∙ omega (arith, bit_and-le 32 a b p))
eval_binary-binary Opcode.and IrType.i64 a b h p q =
    ap some (mask64 _ ∙ omega (arith, bit_and-le 64 a b p))
eval_binary-binary Opcode.or IrType.i32 a b h p q =
    ap some (mask32 _ ∙ omega (arith, bit_or-lt 32 a b p q))
eval_binary-binary Opcode.or IrType.i64 a b h p q =
    ap some (mask64 _ ∙ omega (arith, bit_or-lt 64 a b p q))
eval_binary-binary Opcode.xor IrType.i32 a b h p q =
    ap some (mask32 _ ∙ omega (arith, bit_xor-lt 32 a b p q))
eval_binary-binary Opcode.xor IrType.i64 a b h p q =
    ap some (mask64 _ ∙ omega (arith, bit_xor-lt 64 a b p q))
eval_binary-binary Opcode.and_c IrType.i32 a b h p q =
    ap some (mask32 _ ∙ omega (arith, and_not32 a b p q, bit_and-le 32 a (max_u64 - b) p))
eval_binary-binary Opcode.and_c IrType.i64 a b h p q =
    ap some (mask64 _ ∙ omega (arith, bit_and-le 64 a (max_u64 - b) p))
eval_binary-binary Opcode.shl IrType.i32 a b h p q =
    ap some (mask32 _ ∙ mod64_mod32 _ ∙ ap (λ (n : ℕ). a * 2 ^ n % 2 ^ 32) (shift32 b))
eval_binary-binary Opcode.shl IrType.i64 a b h p q =
    ap some (mask64 _ ∙ mod-mod _ _ ∙ ap (λ (n : ℕ). a * 2 ^ n % 2 ^ 64) (index64 b))
eval_binary-binary Opcode.shr IrType.i32 a b h p q = ap some (
    mask32 _
    ∙ at_index 32 (λ n. bit_and a 0xFFFF_FFFF / 2 ^ n) (λ n. a / 2 ^ n) _ _ (shift32 b)
        (λ n. ap (λ (t : ℕ). t / 2 ^ n) (mask32 a ∙ mod-eq_of_lt p))
        (omega (arith, shr-le a (b % 32))))
eval_binary-binary Opcode.shr IrType.i64 a b h p q = ap some (
    mask64 _
    ∙ at_index 64 (λ n. bit_and a max_u64 / 2 ^ n) (λ n. a / 2 ^ n) _ _ (index64 b)
        (λ n. ap (λ (t : ℕ). t / 2 ^ n) (mask64 a ∙ mod-eq_of_lt p))
        (omega (arith, shr-le a (b % 64))))
eval_binary-binary Opcode.sar IrType.i32 a b h p q = ap some (
    mask32 _
    ∙ extended _
    ∙ at_index 32 (λ n. arith_shr 32 (a % 2 ^ 32) n) (λ n. arith_shr 32 a n) _ _ (index32 b)
        (λ n. ap (λ (t : ℕ). arith_shr 32 t n) (mod-eq_of_lt p)) (arith_shr-lt 32 a (b % 32) p))
eval_binary-binary Opcode.sar IrType.i64 a b h p q = ap some (
    mask64 _
    ∙ at_index 64 (arith_shr 64 a) (arith_shr 64 a) _ _ (index64 b) (λ n. refl)
        (arith_shr-lt 64 a (b % 64) p))
eval_binary-binary Opcode.rot_l IrType.i32 a b h p q = ap some (
    mask32 _
    ∙ at_index 32 (rotate_left 32 (a % 2 ^ 32)) (rotate_left 32 a) _ _ (index32 b)
        (λ n. ap (λ (t : ℕ). rotate_left 32 t n) (mod-eq_of_lt p))
        (rotate_left-lt 32 a (b % 32) (omega arith) p))
eval_binary-binary Opcode.rot_l IrType.i64 a b h p q = ap some (
    mask64 _
    ∙ at_index 64 (rotate_left 64 a) (rotate_left 64 a) _ _ (index64 b) (λ n. refl)
        (rotate_left-lt 64 a (b % 64) (omega arith) p))
eval_binary-binary Opcode.rot_r IrType.i32 a b h p q = ap some (
    mask32 _
    ∙ at_index 32 (rotate_right 32 (a % 2 ^ 32)) (rotate_right 32 a) _ _ (index32 b)
        (λ n. ap (λ (t : ℕ). rotate_right 32 t n) (mod-eq_of_lt p))
        (rotate_right-lt 32 a (b % 32) (omega arith) p))
eval_binary-binary Opcode.rot_r IrType.i64 a b h p q = ap some (
    mask64 _
    ∙ at_index 64 (rotate_right 64 a) (rotate_right 64 a) _ _ (index64 b) (λ n. refl)
        (rotate_right-lt 64 a (b % 64) (omega arith) p))
eval_binary-binary opc IrType.i128 a b h p q = absurd h
eval_binary-binary opc IrType.v64 a b h p q = absurd h
eval_binary-binary opc IrType.v128 a b h p q = absurd h
eval_binary-binary opc IrType.v256 a b h p q = absurd h
eval_binary-binary _ _ a b h p q = refl

-- For the types i32 and i64, the value that `fold_unary` computes from a u64 constant is the value of
-- the operation.
pub unary_value-pure :
    (opc : Opcode) (ty : IrType) (x y : ℕ) {v : ℕ}
    → IsInt ty
    → x < 2 ^ 64
    → unary_value opc x ty ≡ some v
    → pure opc ty x y ≡ some v
unfolding unary_value pure
unary_value-pure Opcode.neg IrType.i32 x y h k e =
    ap some (omega (arith, mask32 ((0 + 2 ^ 64 - x) % 2 ^ 64))) ∙ e
unary_value-pure Opcode.neg IrType.i64 x y h k e =
    ap some (omega (arith, mask64 ((0 + 2 ^ 64 - x) % 2 ^ 64))) ∙ e
unary_value-pure Opcode.not IrType.i32 x y h k e = ap some (omega (arith, mask32 (max_u64 - x))) ∙ e
unary_value-pure Opcode.not IrType.i64 x y h k e = ap some (omega (arith, mask64 (max_u64 - x))) ∙ e
unary_value-pure opc IrType.i128 x y h k e = absurd h
unary_value-pure opc IrType.v64 x y h k e = absurd h
unary_value-pure opc IrType.v128 x y h k e = absurd h
unary_value-pure opc IrType.v256 x y h k e = absurd h
unary_value-pure _ _ x y h k e = absurd (cc)

abbrev IsExtended : Opcode → IrType → ℕ → ℕ → ℕ × IrType → Type 0
IsExtended opc ty x y r = (pure opc ty x y ≡ some r.0) × (r.0 < 2 ^ size_bits r.1) × IsInt r.1

carried :
    (opc : Opcode) (ty : IrType) (x y : ℕ) {r r' : ℕ × IrType}
    → some r ≡ some r'
    → IsExtended opc ty x y r
    → IsExtended opc ty x y r'
carried opc ty x y {r} {r'} e base = let q : r ≡ r' = cc in subst (IsExtended opc ty x y) q base

-- The value that `fold_ext` computes is the value of the conversion; it fits the type of the constant
-- that it is given, which is i32 or i64.
pub ext_value-pure :
    (opc : Opcode) (ty : IrType) (x y : ℕ) {v : ℕ} {out : IrType}
    → ext_value opc x ≡ some (v, out)
    → (pure opc ty x y ≡ some v) × (v < 2 ^ size_bits out) × IsInt out
unfolding ext_value pure
ext_value-pure Opcode.ext_i32_i64 ty x y e =
    carried Opcode.ext_i32_i64 ty x y e (refl, ground arith, tt)
ext_value-pure Opcode.ext_ui32_i64 ty x y e =
    carried Opcode.ext_ui32_i64 ty x y e (ap some (sym (mask32 x)), omega (arith, mask32 x), tt)
ext_value-pure Opcode.extrl_i64_i32 ty x y e =
    carried Opcode.extrl_i64_i32 ty x y e (ap some (sym (mask32 x)), omega (arith, mask32 x), tt)
ext_value-pure Opcode.extrh_i64_i32 ty x y e =
    carried Opcode.extrh_i64_i32 ty x y e
      (ap some (sym (mask32 (x / 2 ^ 32))), omega (arith, mask32 (x / 2 ^ 32)), tt)
ext_value-pure _ ty x y e = absurd (cc)

compare64 : (a b : ℕ) (c : Cond) → compare_masked a b c ≡ holds 64 c a b
unfolding compare_masked holds
compare64 a b Cond.always = refl
compare64 a b _ = refl

compare_unsigned :
    (a b w : ℕ) (c : Cond) → is_signed c ≡ false → compare_masked a b c ≡ holds w c a b
unfolding compare_masked holds
compare_unsigned a b w Cond.lt h = absurd (cc)
compare_unsigned a b w Cond.ge h = absurd (cc)
compare_unsigned a b w Cond.le h = absurd (cc)
compare_unsigned a b w Cond.gt h = absurd (cc)
compare_unsigned a b w _ h = refl

compare_at :
    (a b : ℕ) (c : Cond) (ty : IrType)
    → (ty ≡ IrType.i64) ⊎ (is_signed c ≡ false)
    → compare_masked a b c ≡ holds (size_bits ty) c a b
compare_at a b c ty (inl e) = rw e (compare64 a b c)
compare_at a b c ty (inr e) = compare_unsigned a b (size_bits ty) c e

-- At i64, and at i32 for a condition that is not signed, the test that the optimizer makes is what
-- the condition means on the words of the operands.
pub eval_cond-holds :
    (a b : ℕ) (c : Cond) (ty : IrType)
    → IsInt ty
    → (ty ≡ IrType.i64) ⊎ (is_signed c ≡ false)
    → eval_cond a b c ty ≡ holds (size_bits ty) c (trunc ty a) (trunc ty b)
unfolding eval_cond
eval_cond-holds a b c ty h k =
    rw (mask-trunc ty a h, mask-trunc ty b h) (compare_at (trunc ty a) (trunc ty b) c ty k)
