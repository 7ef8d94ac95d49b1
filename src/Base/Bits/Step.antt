-- ===== src/Base/Bits/Step.antt =====
-- The lowest digit of a bit operation on native numbers. The library defines the operations by a
-- count of digits to go; a count above what the first number needs changes nothing.
use Prim.Native.Nat.{
  ℕ, zero, suc, ◌+◌, ◌-◌, ◌*◌, ◌/◌, ◌%◌, ◌<◌, ◌≤◌, min, max, differ, digits, bitwise, bit_and,
  bit_or, bit_xor, bit_and-bitwise, bit_or-bitwise, bit_xor-bitwise,
}
use mathlib.Core.Path.{◌≡◌, refl, sym, ap, ◌∙◌}
use native.Mathlib.Omega.{arith}

module _ (rest : ℕ → ℕ) (digit : ℕ → ℕ → ℕ) where
  abbrev joined : ℕ → ℕ → ℕ → ℕ
  joined high x y = high * 2 + digit (x % 2) (y % 2)

  -- One more digit to go than the first number has at most.
  one_more : (n x y : ℕ) → x ≤ n → digits rest digit (suc n) x y ≡ digits rest digit n x y
  one_more zero zero y h = refl
  one_more zero (suc x) y h = absurd (omega arith)
  one_more (suc n) zero y h = refl
  one_more (suc n) (suc x) y h =
      ap (λ (high : ℕ). joined high (suc x) y) (one_more n (suc x / 2) (y / 2) (omega arith))

  spare : (k n x y : ℕ) → n ≡ k + x → digits rest digit n x y ≡ bitwise rest digit x y
  spare zero n x y e = ap (λ (i : ℕ). digits rest digit i x y) (omega arith)
  spare (suc k) n x y e =
      let more : n ≡ suc (k + x) = omega arith in
      ap (λ (i : ℕ). digits rest digit i x y) more
      ∙ one_more (k + x) x y (omega arith)
      ∙ spare k (k + x) x y refl

  -- An operation that means the digits, read off at its lowest digit.
  lowest :
      (op : ℕ → ℕ → ℕ)
      → ((x y : ℕ) → op x y ≡ bitwise rest digit x y)
      → ((y : ℕ) → rest y ≡ joined (rest (y / 2)) 0 y)
      → (x y : ℕ) → op x y ≡ joined (op (x / 2) (y / 2)) x y
  lowest op means out zero y =
      means 0 y ∙ out y ∙ ap (λ (high : ℕ). joined high 0 y) (sym (means 0 (y / 2)))
  lowest op means out (suc x) y =
      let half = suc x / 2 in
      means (suc x) y
      ∙ ap (λ (high : ℕ). joined high (suc x) y)
          (spare (x - half) x half (y / 2) (omega arith) ∙ sym (means half (y / 2)))

pub bit_or_step : (a b : ℕ) → bit_or a b ≡ bit_or (a / 2) (b / 2) * 2 + max (a % 2) (b % 2)
bit_or_step = lowest (λ y. y) max bit_or (λ x y. simp bit_or-bitwise) (λ y. omega arith)

pub bit_and_step : (a b : ℕ) → bit_and a b ≡ bit_and (a / 2) (b / 2) * 2 + min (a % 2) (b % 2)
bit_and_step = lowest (λ y. 0) min bit_and (λ x y. simp bit_and-bitwise) (λ y. omega arith)

between_digits : (x y : ℕ) → x < 2 → y < 2 → differ x y ≡ (x - y) + (y - x)
between_digits zero zero h k = refl
between_digits zero (suc zero) h k = refl
between_digits (suc zero) zero h k = refl
between_digits (suc zero) (suc zero) h k = refl
between_digits (suc (suc x)) y h k = absurd (omega arith)
between_digits zero (suc (suc y)) h k = absurd (omega arith)
between_digits (suc zero) (suc (suc y)) h k = absurd (omega arith)

-- The difference of two digits is that of the larger from the smaller.
pub differ_digits : (a b : ℕ) → differ (a % 2) (b % 2) ≡ (a % 2 - b % 2) + (b % 2 - a % 2)
differ_digits a b = between_digits (a % 2) (b % 2) (omega arith) (omega arith)

pub bit_xor_step : (a b : ℕ) → bit_xor a b ≡ bit_xor (a / 2) (b / 2) * 2 + differ (a % 2) (b % 2)
bit_xor_step =
    lowest (λ y. y) differ bit_xor (λ x y. simp bit_xor-bitwise)
      (λ y. omega (arith, differ_digits 0 y))
