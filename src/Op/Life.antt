-- ===== src/Op/Life.antt =====
-- core/src/op.rs: the liveness bits of an operation's arguments.
use tcg_rs.Base.{
  ℕ, ◌+◌, ◌*◌, ◌%◌, ◌^◌, ◌<◌, ◌≤◌, ◌≡◌, ◌≢◌, refl, sym, ap, ◌∙◌, bit_and, bit_or, Bool, true, not,
  ◌||◌, ◌==◌, arith, Bool-cases, inl, inr,
}
use tcg_rs.Base.Digits.{digit, digit-lt, digit-bit_or, digit-pow_self, digit-pow_ne, bit_and_pow}
use tcg_rs.Op.{LifeData, dead_arg, sync_arg, is_dead, is_sync, set_dead, set_sync}
use native.Mathlib.Nat.{pow-le-pow_right, one-le-pow}

low_pow : (e : ℕ) → e < 32 → 2 ^ e % 2 ^ 32 ≡ 2 ^ e
low_pow e h =
    let two : 0 < 2 = omega arith in
    let below : e ≤ 31 = omega arith in
    let at_most : 2 ^ e ≤ 2 ^ 31 = pow-le-pow_right two below in omega arith

-- The test of the bit `e`, the way the code writes it.
abbrev has_bit : LifeData → ℕ → Bool
has_bit life e = not (bit_and life (2 ^ e % 2 ^ 32) == 0)

has_bit-digit : (life e : ℕ) → e < 32 → has_bit life e ≡ (digit life e == 1)
has_bit-digit life e h =
    let mask = bit_and_pow life e in
    let positive : 1 ≤ 2 ^ e = one-le-pow e 2 (omega arith) in
    let bound = digit-lt life e in
    let low = low_pow e h in
    elim (Bool-cases (digit life e == 1)) [
      | inl d ↦
          let one : digit life e ≡ 1 = ground arith in
          let all : bit_and life (2 ^ e) ≡ 2 ^ e = mask ∙ rw one (omega arith) in
          rw (low, all, d) (ground arith)
      | inr d ↦
          let none_set : digit life e ≡ 0 = ground arith in
          let all : bit_and life (2 ^ e) ≡ 0 = mask ∙ rw none_set (omega arith) in
          rw (low, all, d) refl
    ]

-- Setting the bit `f` leaves the others as they are.
other_bit :
    (life e f : ℕ)
    → e < 32
    → f < 32
    → e ≢ f
    → has_bit (bit_or life (2 ^ f % 2 ^ 32)) e ≡ has_bit life e
other_bit life e f h k ne =
    let low = low_pow f k in
    let off = digit-pow_ne f e ne in
    let both = digit-bit_or life (2 ^ f) e in
    let same : digit (bit_or life (2 ^ f)) e ≡ digit life e = omega (arith, both, off) in
    ap (λ (z : ℕ). has_bit (bit_or life z) e) low
    ∙ has_bit-digit (bit_or life (2 ^ f)) e h
    ∙ rw same (sym (has_bit-digit life e h))

pub is_dead-digit : (life p : ℕ) → p < 16 → is_dead life p ≡ (digit life (p * 2) == 1)
unfolding is_dead dead_arg
is_dead-digit life p h = has_bit-digit life (p * 2) (omega arith)

same_bit : (life e : ℕ) → e < 32 → has_bit (bit_or life (2 ^ e % 2 ^ 32)) e ≡ true
same_bit life e h =
    let low = low_pow e h in
    let on = digit-pow_self e in
    let both = digit-bit_or life (2 ^ e) e in
    let bound = digit-lt life e in
    let one : digit (bit_or life (2 ^ e)) e ≡ 1 = omega (arith, both, on, bound) in
    ap (λ (z : ℕ). has_bit (bit_or life z) e) low
    ∙ has_bit-digit (bit_or life (2 ^ e)) e h
    ∙ rw one refl

pub set_dead_other :
    (life p m : ℕ) → p < 16 → m < 16 → p ≢ m → is_dead (set_dead life m) p ≡ is_dead life p
unfolding is_dead set_dead dead_arg
set_dead_other life p m h k ne =
    other_bit life (p * 2) (m * 2) (omega arith) (omega arith) (λ e. ne (omega arith))

pub set_sync_other : (life p m : ℕ) → p < 16 → m < 16 → is_dead (set_sync life m) p ≡ is_dead life p
unfolding is_dead dead_arg set_sync sync_arg
set_sync_other life p m h k =
    other_bit life (p * 2) (m * 2 + 1) (omega arith) (omega arith)
      (λ (e : p * 2 ≡ m * 2 + 1). absurd (omega arith))

dead_marked :
    (life n m : ℕ) → n < 16 → m < 16 → is_dead (set_dead life n) m ≡ (m == n || is_dead life m)
unfolding is_dead set_dead dead_arg
dead_marked life n m h k = elim (Bool-cases (m == n)) [
  | inl d ↦ let same : m ≡ n = ground arith in rw (d, same) (same_bit life (n * 2) (omega arith))
  | inr d ↦ rw d (
      other_bit life (m * 2) (n * 2) (omega arith) (omega arith)
        (λ (e : m * 2 ≡ n * 2). absurd (ground arith)))
]

sync_marked :
    (life n m : ℕ) → n < 16 → m < 16 → is_sync (set_sync life n) m ≡ (m == n || is_sync life m)
unfolding is_sync set_sync sync_arg
sync_marked life n m h k = elim (Bool-cases (m == n)) [
  | inl d ↦
      let same : m ≡ n = ground arith in rw (d, same) (same_bit life (n * 2 + 1) (omega arith))
  | inr d ↦ rw d (
      other_bit life (m * 2 + 1) (n * 2 + 1) (omega arith) (omega arith)
        (λ (e : m * 2 + 1 ≡ n * 2 + 1). absurd (ground arith)))
]

-- For arguments `n` and `m` below 16: marking `n` dead makes `m` dead exactly where `m` is `n` or was
-- dead before, and leaves every mark for a write-back as it was; marking `n` for a write-back marks `m`
-- exactly where `m` is `n` or was marked before, and leaves every dead mark as it was.
pub marked-IsMarked :
    (life : LifeData) (n m : ℕ)
    → n < 16
    → m < 16
    → (is_dead (set_dead life n) m ≡ (m == n || is_dead life m))
      × (is_sync (set_dead life n) m ≡ is_sync life m)
      × (is_sync (set_sync life n) m ≡ (m == n || is_sync life m))
      × (is_dead (set_sync life n) m ≡ is_dead life m)
unfolding is_sync set_dead dead_arg sync_arg
marked-IsMarked life n m h k = (
  dead_marked life n m h k,
  other_bit life (m * 2 + 1) (n * 2) (omega arith) (omega arith)
      (λ (e : m * 2 + 1 ≡ n * 2). absurd (omega arith)),
  sync_marked life n m h k,
  set_sync_other life m n k h,
)
