-- ===== src/Base/Bits.antt =====
-- The bit operations at variables, as arithmetic: the laws of masks, of zero and of all ones, for
-- operands of `k` bits, by induction on `k`.
pub mod Step
use Step.{bit_or_step, bit_and_step, bit_xor_step, differ_digits}
use native.Mathlib.Nat.{pow-suc, one-le-pow}
use native.Mathlib.Nat.{mod-lt, div-add-mod, mul-add-mod_self_left, mod-eq_of_lt}
use mathlib.Core.Path.{ap, sym, ◌≡◌, refl, ◌∙◌, ◌≡⟨◌⟩◌, ◌∎}
use Prim.Native.Nat.{
  ℕ, zero, suc, ◌+◌, ◌-◌, ◌*◌, ◌/◌, ◌%◌, ◌^◌, ◌<◌, ◌≤◌, bit_and, bit_or, bit_xor, differ,
}
use native.Mathlib.Omega.{arith}

-- Below one bit there is only zero.
zero_of_lt : (a : ℕ) → a < 2 ^ 0 → a ≡ 0
zero_of_lt a h = omega arith

halves : (k a : ℕ) → a < 2 ^ suc k → a / 2 < 2 ^ k
halves k a h = omega (arith, pow-suc 2 k)

pow_double : (k : ℕ) → 2 ^ suc k ≡ 2 * 2 ^ k
pow_double k = omega (arith, pow-suc 2 k)

pow_pos : (k : ℕ) → 0 < 2 ^ k
pow_pos k = omega (arith, one-le-pow k 2)

zero_by_halves :
    (f : ℕ → ℕ) → f 0 ≡ 0 → ((a : ℕ) → f a ≡ f (a / 2) * 2) → (k a : ℕ) → a < 2 ^ k → f a ≡ 0
zero_by_halves f base step zero a h = rw (zero_of_lt a h) base
zero_by_halves f base step (suc k) a h =
    omega (arith, step a, zero_by_halves f base step k (a / 2) (halves k a h))

lt-two-pow : (a : ℕ) → a < 2 ^ a
lt-two-pow zero = omega arith
lt-two-pow (suc a) = omega (arith, pow-suc 2 a, lt-two-pow a)

pub bit_and-zero : (a : ℕ) → bit_and a 0 ≡ 0
bit_and-zero a =
    zero_by_halves (λ x. bit_and x 0) refl (λ x. omega (arith, bit_and_step x 0)) a a (lt-two-pow a)

pub zero-bit_and : (a : ℕ) → bit_and 0 a ≡ 0
zero-bit_and a =
    zero_by_halves (λ x. bit_and 0 x) refl (λ x. omega (arith, bit_and_step 0 x)) a a (lt-two-pow a)

same_by_halves :
    (f : ℕ → ℕ)
    → f 0 ≡ 0
    → ((a : ℕ) → f a ≡ f (a / 2) * 2 + a % 2)
    → (k a : ℕ) → a < 2 ^ k
    → f a ≡ a
same_by_halves f base step zero a h = rw (zero_of_lt a h) base
same_by_halves f base step (suc k) a h =
    omega (arith, step a, same_by_halves f base step k (a / 2) (halves k a h))

pub bit_or-zero : (a : ℕ) → bit_or a 0 ≡ a
bit_or-zero a =
    same_by_halves (λ x. bit_or x 0) refl (λ x. omega (arith, bit_or_step x 0)) a a (lt-two-pow a)

pub zero-bit_or : (a : ℕ) → bit_or 0 a ≡ a
zero-bit_or a =
    same_by_halves (λ x. bit_or 0 x) refl (λ x. omega (arith, bit_or_step 0 x)) a a (lt-two-pow a)

pub bit_xor-zero : (a : ℕ) → bit_xor a 0 ≡ a
bit_xor-zero a =
    same_by_halves (λ x. bit_xor x 0) refl (λ x. omega (arith, bit_xor_step x 0, differ_digits x 0))
      a a (lt-two-pow a)

pub bit_and_self : (a : ℕ) → bit_and a a ≡ a
bit_and_self a =
    same_by_halves (λ x. bit_and x x) refl (λ x. omega (arith, bit_and_step x x)) a a (lt-two-pow a)

pub bit_or_self : (a : ℕ) → bit_or a a ≡ a
bit_or_self a =
    same_by_halves (λ x. bit_or x x) refl (λ x. omega (arith, bit_or_step x x)) a a (lt-two-pow a)

pub bit_xor_self : (a : ℕ) → bit_xor a a ≡ 0
bit_xor_self a =
    zero_by_halves (λ x. bit_xor x x) refl (λ x. omega (arith, bit_xor_step x x, differ_digits x x))
      a a (lt-two-pow a)

pub bit_or-lt : (k a b : ℕ) → a < 2 ^ k → b < 2 ^ k → bit_or a b < 2 ^ k
bit_or-lt zero a b h g = rw (zero_of_lt a h, zero-bit_or b) g
bit_or-lt (suc k) a b h g =
    omega (
      arith,
      pow-suc 2 k,
      bit_or_step a b,
      bit_or-lt k (a / 2) (b / 2) (halves k a h) (halves k b g),
    )

pub bit_xor-lt : (k a b : ℕ) → a < 2 ^ k → b < 2 ^ k → bit_xor a b < 2 ^ k
bit_xor-lt zero a b h g = rw (zero_of_lt b g, bit_xor-zero a) h
bit_xor-lt (suc k) a b h g = omega (
  arith,
  pow-suc 2 k,
  bit_xor_step a b,
  differ_digits a b,
  bit_xor-lt k (a / 2) (b / 2) (halves k a h) (halves k b g),
)

half_ones : (k : ℕ) → (2 ^ suc k - 1) / 2 ≡ 2 ^ k - 1
half_ones k = omega (arith, pow-suc 2 k, one-le-pow k 2)

ones_odd : (k : ℕ) → (2 ^ suc k - 1) % 2 ≡ 1
ones_odd k = omega (arith, pow-suc 2 k, one-le-pow k 2)

-- A remainder by `2 m`: the remainder of the half, and the lowest digit.
mod_double : (m a : ℕ) → 0 < m → a % (2 * m) ≡ a / 2 % m * 2 + a % 2
mod_double m a h =
    let r = a / 2 % m in
    let small : r < m = mod-lt (a / 2) h in
    let e : 2 * m * (a / 2 / m) + (r * 2 + a % 2) ≡ a = omega (arith, div-add-mod (a / 2) m) in
    (a % (2 * m))
    ≡⟨ ap (λ (t : ℕ). t % (2 * m)) (sym e) ⟩ ((2 * m * (a / 2 / m) + (r * 2 + a % 2)) % (2 * m))
    ≡⟨ mul-add-mod_self_left (2 * m) (a / 2 / m) (r * 2 + a % 2) ⟩ ((r * 2 + a % 2) % (2 * m))
    ≡⟨ mod-eq_of_lt (omega arith) ⟩ (r * 2 + a % 2) ∎

mod_suc : (k a : ℕ) → a % 2 ^ suc k ≡ a / 2 % 2 ^ k * 2 + a % 2
mod_suc k a = ap (λ (t : ℕ). a % t) (pow_double k) ∙ mod_double (2 ^ k) a (pow_pos k)

half_mod : (k a : ℕ) → a % 2 ^ suc k / 2 ≡ a / 2 % 2 ^ k
half_mod k a = omega (arith, mod_suc k a)

mod_odd : (k a : ℕ) → a % 2 ^ suc k % 2 ≡ a % 2
mod_odd k a = omega (arith, mod_suc k a)

-- A mask of `k` low ones is the remainder by `2 ^ k`.
pub bit_and_mask : (k a : ℕ) → bit_and a (2 ^ k - 1) ≡ a % 2 ^ k
bit_and_mask zero a = rw (bit_and-zero a) (omega arith)
bit_and_mask (suc k) a = omega (
  arith,
  bit_and_step a (2 ^ suc k - 1),
  ap (λ (t : ℕ). bit_and (a / 2) t) (half_ones k),
  ones_odd k,
  bit_and_mask k (a / 2),
  mod_suc k a,
)

-- Of the second operand only the digits below the first one's width count.
pub bit_and-mod : (k a b : ℕ) → a < 2 ^ k → bit_and a b ≡ bit_and a (b % 2 ^ k)
bit_and-mod zero a b h = rw (zero_of_lt a h, zero-bit_and b, zero-bit_and (b % 2 ^ 0))
bit_and-mod (suc k) a b h = omega (
  arith,
  bit_and_step a b,
  bit_and_step a (b % 2 ^ suc k),
  ap (λ (t : ℕ). bit_and (a / 2) t) (half_mod k b),
  mod_odd k b,
  bit_and-mod k (a / 2) (b / 2) (halves k a h),
)

pub bit_or_ones : (k a : ℕ) → a < 2 ^ k → bit_or a (2 ^ k - 1) ≡ 2 ^ k - 1
bit_or_ones zero a h = rw (zero_of_lt a h)
bit_or_ones (suc k) a h = omega (
  arith,
  bit_or_step a (2 ^ suc k - 1),
  ap (λ (t : ℕ). bit_or (a / 2) t) (half_ones k),
  ones_odd k,
  half_ones k,
  bit_or_ones k (a / 2) (halves k a h),
)

pub ones_bit_or : (k a : ℕ) → a < 2 ^ k → bit_or (2 ^ k - 1) a ≡ 2 ^ k - 1
ones_bit_or zero a h = rw (zero_of_lt a h)
ones_bit_or (suc k) a h = omega (
  arith,
  bit_or_step (2 ^ suc k - 1) a,
  ap (λ (t : ℕ). bit_or t (a / 2)) (half_ones k),
  ones_odd k,
  half_ones k,
  ones_bit_or k (a / 2) (halves k a h),
)

-- A conjunction is no larger than its first operand.
pub bit_and-le : (k a b : ℕ) → a < 2 ^ k → bit_and a b ≤ a
bit_and-le zero a b h = rw (zero_of_lt a h, zero-bit_and b) (omega arith)
bit_and-le (suc k) a b h =
    omega (arith, bit_and_step a b, bit_and-le k (a / 2) (b / 2) (halves k a h))

and_comm_below : (k a b : ℕ) → a < 2 ^ k → bit_and a b ≡ bit_and b a
and_comm_below zero a b h = rw (zero_of_lt a h) (zero-bit_and b ∙ sym (bit_and-zero b))
and_comm_below (suc k) a b h =
    omega
      (arith, bit_and_step a b, bit_and_step b a, and_comm_below k (a / 2) (b / 2) (halves k a h))

pub bit_and_comm : (a b : ℕ) → bit_and a b ≡ bit_and b a
bit_and_comm a b = and_comm_below a a b (lt-two-pow a)

covers_below : (k a b : ℕ) → b < 2 ^ k → bit_and (bit_or a b) b ≡ b
covers_below zero a b h = rw (zero_of_lt b h) (bit_and-zero (bit_or a 0))
covers_below (suc k) a b h =
    let half : bit_or a b / 2 ≡ bit_or (a / 2) (b / 2) = omega (arith, bit_or_step a b) in
    let rest : bit_and (bit_or a b / 2) (b / 2) ≡ b / 2 =
      rw half (covers_below k (a / 2) (b / 2) (halves k b h)) in
    omega (arith, bit_and_step (bit_or a b) b, bit_or_step a b, rest)

-- The bits that were set are found.
pub or_covers : (a b : ℕ) → bit_and (bit_or a b) b ≡ b
or_covers a b = covers_below b a b (lt-two-pow b)

pub doubled : (a k : ℕ) → a * 2 ^ suc k ≡ a * 2 ^ k * 2
doubled a k = rw (pow_double k) (grind arith)

-- Bits below the lowest bit of a multiple of 2 ^ k are added.
pub bit_or_low : (k a b : ℕ) → b < 2 ^ k → bit_or (a * 2 ^ k) b ≡ a * 2 ^ k + b
bit_or_low zero a b h = rw (zero_of_lt b h) (bit_or-zero (a * 2 ^ 0) ∙ omega arith)
bit_or_low (suc k) a b h =
    let even : a * 2 ^ suc k / 2 ≡ a * 2 ^ k = omega (arith, doubled a k) in
    let rest : bit_or (a * 2 ^ suc k / 2) (b / 2) ≡ a * 2 ^ k + b / 2 =
      rw even (bit_or_low k a (b / 2) (halves k b h)) in
    omega (arith, bit_or_step (a * 2 ^ suc k) b, rest, doubled a k)
