-- ===== src/RegSet/Members.antt =====
-- core/src/types.rs: a set of registers is what it contains.
use tcg_rs.Base.{
  ℕ, zero, suc, ◌/◌, ◌%◌, ◌^◌, ◌<◌, ◌≤◌, ◌≡◌, ◌≢◌, refl, ap, ◌∙◌, bit_and, bit_or, Bool, true,
  false, not, ◌&&◌, ◌||◌, none, some, ltb, ◌==◌, if◌then◌else◌, arith, Bool-cases, inl, inr, ◌⊎◌,
  ◌>>=◌,
}
use tcg_rs.Base.Words.{not_u64}
use tcg_rs.Base.Digits.{
  digit, digit-lt, digit-bit_or, digit-bit_and, digit-pow_self, digit-pow_ne, digit-complement,
  bit_and_pow, digit-zero,
}
use native.Mathlib.Nat.{pow-le-pow_right, one-le-pow, pow-suc}
use tcg_rs.RegSet.{
  RegSet, bit, set, clear, contains, union, intersect, subtract, first, trailing_zeros,
}

abbrev pub has : RegSet → ℕ → Bool
has s reg = digit s reg == 1

-- A test of one bit.
contains-digit : (s reg : ℕ) → reg < 64 → contains s reg ≡ some (has s reg)
unfolding contains
contains-digit s reg h =
    let low : ltb reg 64 ≡ true = ground arith in
    let mask = bit_and_pow s reg in
    let positive : 1 ≤ 2 ^ reg = one-le-pow reg 2 (omega arith) in
    let bound = digit-lt s reg in
    elim (Bool-cases (digit s reg == 1)) [
      | inl d ↦
          let one : digit s reg ≡ 1 = ground arith in
          let all : bit_and s (2 ^ reg) ≡ 2 ^ reg = mask ∙ rw one (omega arith) in
          rw (low, all, d) (ground arith)
      | inr d ↦
          let zeroed : digit s reg ≡ 0 = ground arith in
          let all : bit_and s (2 ^ reg) ≡ 0 = mask ∙ rw zeroed (omega arith) in
          rw (low, all, d) (ground arith)
    ]

digit-bit : (reg q : ℕ) → digit (bit reg) q ≡ (if q == reg then 1 else 0)
digit-bit reg q = elim (Bool-cases (q == reg)) [
  | inl d ↦ let same : q ≡ reg = ground arith in rw (d, same) (digit-pow_self reg)
  | inr d ↦ rw d (digit-pow_ne reg q (λ (e : q ≡ reg). absurd (ground arith)))
]

has-or : (a b q : ℕ) → has (bit_or a b) q ≡ (has a q || has b q)
has-or a b q =
    let l = digit-bit_or a b q in let x = digit-lt a q in let y = digit-lt b q in ground arith

has-and : (a b q : ℕ) → has (bit_and a b) q ≡ (has a q && has b q)
has-and a b q =
    let l = digit-bit_and a b q in let x = digit-lt a q in let y = digit-lt b q in ground arith

has-not : (a q : ℕ) → q < 64 → a < 2 ^ 64 → has (not_u64 a) q ≡ not (has a q)
has-not a q h k = let l = digit-complement 64 a q h k in let x = digit-lt a q in ground arith

bit-lt : (reg : ℕ) → reg < 64 → bit reg < 2 ^ 64
bit-lt reg h =
    let two : 0 < 2 = omega arith in
    let below : reg ≤ 63 = omega arith in
    let at_most : 2 ^ reg ≤ 2 ^ 63 = pow-le-pow_right two below in omega arith

has-bit : (reg q : ℕ) → has (bit reg) q ≡ (q == reg)
has-bit reg q =
    let l = digit-bit reg q in
    elim (Bool-cases (q == reg)) [ inl d ↦ rw (l, d) refl | inr d ↦ rw (l, d) refl ]

-- After a register is set, or cleared, the set contains that register, or does not, and contains the
-- other registers as before.
pub contains-set :
    (s reg q : ℕ)
    → reg < 64
    → q < 64
    → ((set s reg >>= λ t. contains t q) ≡ some (has s q || q == reg))
      × ((clear s reg >>= λ t. contains t q) ≡ some (has s q && not (q == reg)))
unfolding set clear
contains-set s reg q h k =
    let low : ltb reg 64 ≡ true = ground arith in
    let on = has-or s (bit reg) q in
    let off = has-and s (not_u64 (bit reg)) q in
    let inv = has-not (bit reg) q k (bit-lt reg h) in
    (
      rw (low, contains-digit (bit_or s (bit reg)) q k, on, has-bit reg q) refl,
      rw (low, contains-digit (bit_and s (not_u64 (bit reg))) q k, off, inv, has-bit reg q) refl,
    )

-- The union, the intersection and the difference contain what the operation on sets says.
pub contains-union :
    (s other q : ℕ)
    → other < 2 ^ 64
    → q < 64
    → (contains (union s other) q ≡ some (has s q || has other q))
      × (contains (intersect s other) q ≡ some (has s q && has other q))
      × (contains (subtract s other) q ≡ some (has s q && not (has other q)))
unfolding union intersect subtract
contains-union s other q h k =
    let inv = has-not other q k h in
    (
      contains-digit (bit_or s other) q k ∙ ap some (has-or s other q),
      contains-digit (bit_and s other) q k ∙ ap some (has-and s other q),
      contains-digit (bit_and s (not_u64 other)) q k
          ∙ ap some (rw (has-and s (not_u64 other) q, inv) refl),
    )

below :
    (x m : ℕ)
    → x % 2 ≡ 0
    → ((q : ℕ) → q < m → digit (x / 2) q ≡ 0)
    → (q : ℕ) → q < suc m
    → digit x q ≡ 0
below x m even rest zero l = even
below x m even rest (suc q) l = rest q (omega arith)

lowest_digit :
    (n x : ℕ)
    → x < 2 ^ n
    → x ≢ 0
    → (trailing_zeros n x < n)
      × (digit x (trailing_zeros n x) ≡ 1)
      × ((q : ℕ) → q < trailing_zeros n x → digit x q ≡ 0)
unfolding trailing_zeros
lowest_digit zero x h ne = absurd (ne (omega arith))
lowest_digit (suc n) x h ne = elim (Bool-cases (x % 2 == 1)) [
  | inl d ↦ rw d (omega arith, ground arith, λ q l. absurd (omega arith))
  | inr d ↦
      let even : x % 2 ≡ 0 = ground arith in
      let half : x / 2 ≢ 0 = λ e. ne (omega arith) in
      let (inside, one, rest) = lowest_digit n (x / 2) (omega (arith, pow-suc 2 n)) half in
      rw d (omega arith, one, λ q l. below x (trailing_zeros n (x / 2)) even rest q l)
]

-- The first register of a set is its least member, and an empty set has none.
pub first-IsLeast :
    (s : ℕ)
    → s < 2 ^ 64
    → ((first s ≡ none) × ((q : ℕ) → q < 64 → contains s q ≡ some false))
      ⊎ ((r : ℕ) × (first s ≡ some r)
          × (contains s r ≡ some true)
          × ((q : ℕ) → q < r → contains s q ≡ some false))
unfolding first
first-IsLeast s h = elim (Bool-cases (s == 0)) [
  | inl d ↦
      let same : s ≡ 0 = ground arith in
      inl (rw d refl, λ q k. contains-digit s q k ∙ rw (same, digit-zero q) refl)
  | inr d ↦
      let ne : s ≢ 0 = λ e. absurd (ground arith) in
      let (inside, one, rest) = lowest_digit 64 s h ne in
      inr (
        trailing_zeros 64 s,
        rw d refl,
        contains-digit s (trailing_zeros 64 s) inside ∙ rw one refl,
        λ q k. contains-digit s q (omega arith) ∙ rw (rest q k) refl,
      )
]
