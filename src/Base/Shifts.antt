-- ===== src/Base/Shifts.antt =====
-- Bounds of the shifts and rotations of words.
use Prim.Native.Nat.{ℕ, zero, suc, ◌+◌, ◌-◌, ◌*◌, ◌/◌, ◌%◌, ◌^◌, ◌<◌, ◌≤◌}
use mathlib.Core.Path.{◌≡◌, ap, sym, ◌∙◌}
use native.Mathlib.Nat.{
  pow-suc, one-le-pow, div-add-mod, mod-lt, mul-add-mod_self_left, mod-eq_of_lt, zero-add,
}
use native.Mathlib.Nat.{lt_of_mul-lt-mul_right, mul-lt-mul_of_pos_right, mul-le-mul_right}
use native.Mathlib.Omega.{arith}
use tcg_rs.Base.Words.{arith_shr, rotate_left, rotate_right}

pub two_pow_pos : (k : ℕ) → 0 < 2 ^ k
two_pow_pos k = omega (arith, one-le-pow k 2)

suc-add : (n k : ℕ) → suc n + k ≡ suc (n + k)
suc-add n k = omega arith

pow-add : (n k : ℕ) → 2 ^ (n + k) ≡ 2 ^ n * 2 ^ k
pow-add zero k = ap (λ (t : ℕ). 2 ^ t) (zero-add k) ∙ omega arith
pow-add (suc n) k = omega (
  arith,
  ap (λ (t : ℕ). 2 ^ t) (suc-add n k),
  pow-suc 2 (n + k),
  ap (λ (t : ℕ). t * 2 ^ k) (pow-suc 2 n),
  pow-add n k,
)

pow_split : (w n : ℕ) → n ≤ w → 2 ^ n * 2 ^ (w - n) ≡ 2 ^ w
pow_split w n h = sym (pow-add n (w - n)) ∙ ap (λ (t : ℕ). 2 ^ t) (omega arith)

pub shr-le : (a n : ℕ) → a / 2 ^ n ≤ a
shr-le a n = omega (arith, two_pow_pos n)

pub arith_shr-lt : (w a n : ℕ) → a < 2 ^ w → arith_shr w a n < 2 ^ w
arith_shr-lt w a n h = ground (arith, shr-le a n, two_pow_pos w)

-- `(a * m) mod (m * p)` and the bits that fall out at the top fit together.
turn : (m p a : ℕ) → 0 < m → 0 < p → a < m * p → a * m % (m * p) + a / p < m * p
turn m p a hm hp h =
    let q = a / p in
    let r = a % p in
    let e : a * m ≡ m * p * q + r * m = omega (arith, ap (λ (t : ℕ). t * m) (div-add-mod a p)) in
    let small : q < m = lt_of_mul-lt-mul_right p (omega (arith, div-add-mod a p)) in
    let r_small : r < p = mod-lt a hp in
    let rm : a * m % (m * p) ≡ r * m =
      ap (λ (t : ℕ). t % (m * p)) e
      ∙ mul-add-mod_self_left (m * p) q (r * m)
      ∙ mod-eq_of_lt (omega (arith, mul-lt-mul_of_pos_right r_small hm)) in
    omega (arith, rm, mul-le-mul_right m r_small)

pub rotate_left-lt : (w a n : ℕ) → n ≤ w → a < 2 ^ w → rotate_left w a n < 2 ^ w
rotate_left-lt w a n h ha =
    let e = pow_split w n h in
    rw (← e) (turn (2 ^ n) (2 ^ (w - n)) a (two_pow_pos n) (two_pow_pos (w - n)) (rw e ha))

commuted : (a b c : ℕ) → a * b ≡ c → b * a ≡ c
commuted a b c e = omega arith

pub rotate_right-lt : (w a n : ℕ) → n ≤ w → a < 2 ^ w → rotate_right w a n < 2 ^ w
rotate_right-lt w a n h ha =
    let e = pow_split w n h in
    let t = turn (2 ^ (w - n)) (2 ^ n) a (two_pow_pos (w - n)) (two_pow_pos n) (omega (arith, e)) in
    omega (arith, t, ap (λ (x : ℕ). a * 2 ^ (w - n) % x) (commuted (2 ^ n) (2 ^ (w - n)) (2 ^ w) e))
