-- ===== src/Base/Digits.antt =====
-- The binary digits of a number, and what the bit operations do to them.
use tcg_rs.Base.Bits.{bit_and_mask, doubled}
use tcg_rs.Base.Bits.Step.{bit_or_step, bit_and_step}
use native.Mathlib.Nat.{pow-suc}
use mathlib.Core.Path.{◌≡◌, refl, ap}
use mathlib.Core.Logic.{◌≢◌}
use Prim.Native.Nat.{ℕ, zero, suc, ◌-◌, ◌*◌, ◌/◌, ◌%◌, ◌^◌, ◌<◌, min, max, bit_and, bit_or}
use native.Mathlib.Omega.{arith}

abbrev pub digit : ℕ → ℕ → ℕ
digit a zero = a % 2
digit a (suc i) = digit (a / 2) i

pub digit-lt : (a i : ℕ) → digit a i < 2
digit-lt a zero = omega arith
digit-lt a (suc i) = digit-lt (a / 2) i

pub digit-bit_or : (a b i : ℕ) → digit (bit_or a b) i ≡ max (digit a i) (digit b i)
digit-bit_or a b zero = omega (arith, bit_or_step a b)
digit-bit_or a b (suc i) =
    let half : bit_or a b / 2 ≡ bit_or (a / 2) (b / 2) = omega (arith, bit_or_step a b) in
    rw half (digit-bit_or (a / 2) (b / 2) i)

pub digit-bit_and : (a b i : ℕ) → digit (bit_and a b) i ≡ min (digit a i) (digit b i)
digit-bit_and a b zero = omega (arith, bit_and_step a b)
digit-bit_and a b (suc i) =
    let half : bit_and a b / 2 ≡ bit_and (a / 2) (b / 2) = omega (arith, bit_and_step a b) in
    rw half (digit-bit_and (a / 2) (b / 2) i)

pub digit-zero : (i : ℕ) → digit 0 i ≡ 0
digit-zero zero = refl
digit-zero (suc i) = digit-zero i

even_pow : (j : ℕ) → (2 ^ suc j % 2 ≡ 0) × (2 ^ suc j / 2 ≡ 2 ^ j)
even_pow j = (omega (arith, pow-suc 2 j), omega (arith, pow-suc 2 j))

pub digit-pow_self : (i : ℕ) → digit (2 ^ i) i ≡ 1
digit-pow_self zero = omega arith
digit-pow_self (suc i) = rw (even_pow i).1 (digit-pow_self i)

pub digit-pow_ne : (j i : ℕ) → i ≢ j → digit (2 ^ j) i ≡ 0
digit-pow_ne zero zero ne = absurd (ne refl)
digit-pow_ne zero (suc i) ne = digit-zero i
digit-pow_ne (suc j) zero ne = (even_pow j).0
digit-pow_ne (suc j) (suc i) ne = rw (even_pow j).1 (digit-pow_ne j i (λ e. ne (ap suc e)))

-- The complement of a number of `k` bits.
pub digit-complement : (k x i : ℕ) → i < k → x < 2 ^ k → digit (2 ^ k - 1 - x) i ≡ 1 - digit x i
digit-complement zero x i h l = absurd (omega arith)
digit-complement (suc k) x zero h l = omega (arith, pow-suc 2 k)
digit-complement (suc k) x (suc i) h l =
    let half : (2 ^ suc k - 1 - x) / 2 ≡ 2 ^ k - 1 - x / 2 = omega (arith, pow-suc 2 k) in
    rw half (digit-complement k (x / 2) i (omega arith) (omega (arith, pow-suc 2 k)))

-- A mask of one bit.
pub bit_and_pow : (a i : ℕ) → bit_and a (2 ^ i) ≡ digit a i * 2 ^ i
bit_and_pow a zero = omega (arith, bit_and_mask 1 a)
bit_and_pow a (suc i) =
    let ih = bit_and_pow (a / 2) i in
    let half : bit_and (a / 2) (2 ^ suc i / 2) ≡ digit (a / 2) i * 2 ^ i = rw (even_pow i).1 ih in
    omega (arith, bit_and_step a (2 ^ suc i), half, (even_pow i).0, doubled (digit (a / 2) i) i)
