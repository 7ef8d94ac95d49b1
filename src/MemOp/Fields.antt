-- ===== src/MemOp/Fields.antt =====
-- core/src/types.rs: the fields of a memory access are read back as they were put in.
use tcg_rs.Base.{
  ℕ, ◌*◌, ◌/◌, ◌%◌, ◌^◌, ◌<◌, ◌≤◌, ◌≡◌, refl, ap, ◌∙◌, bit_and, bit_or, Bool, true, false, not,
  ◌==◌, if◌then◌else◌, arith,
}
use native.Mathlib.Nat.{one-le-pow}
use tcg_rs.Base.Bits.{bit_and_mask}
use tcg_rs.Base.Digits.{digit, digit-bit_or, bit_and_pow}
use Prim.Native.Nat.{max}
use tcg_rs.MemOp.{MemOp, sign, bswap, size, is_signed, is_bswap, size_bytes}

-- A descriptor of four fields, by the constants of the source.
abbrev pub described : ℕ → Bool → Bool → ℕ → MemOp
described log signed swapped align =
    bit_or (bit_or (bit_or log (if signed then sign else 0)) (if swapped then bswap else 0))
      (align * 2 ^ 4)

digit-described :
    (log : ℕ) (signed swapped : Bool) (align i : ℕ)
    → digit (described log signed swapped align) i
      ≡ max
          (max
            (max (digit log i) (digit (if signed then sign else 0) i))
            (digit (if swapped then bswap else 0) i))
          (digit (align * 2 ^ 4) i)
digit-described log signed swapped align i =
    let a = if signed then sign else 0 in
    let b = if swapped then bswap else 0 in
    rw
      (
        digit-bit_or (bit_or (bit_or log a) b) (align * 2 ^ 4) i,
        digit-bit_or (bit_or log a) b i,
        digit-bit_or log a i,
      )
      refl

-- The four lowest digits.
low_digits :
    (log : ℕ) (signed swapped : Bool) (align : ℕ)
    → log < 4
    → (digit (described log signed swapped align) 0 ≡ log % 2)
      × (digit (described log signed swapped align) 1 ≡ log / 2 % 2)
      × (digit (described log signed swapped align) 2 ≡ (if signed then 1 else 0))
      × (digit (described log signed swapped align) 3 ≡ (if swapped then 1 else 0))
low_digits log true true align h =
    let d = digit-described log true true align in
    (omega (arith, d 0), omega (arith, d 1), omega (arith, d 2), omega (arith, d 3))
low_digits log true false align h =
    let d = digit-described log true false align in
    (omega (arith, d 0), omega (arith, d 1), omega (arith, d 2), omega (arith, d 3))
low_digits log false true align h =
    let d = digit-described log false true align in
    (omega (arith, d 0), omega (arith, d 1), omega (arith, d 2), omega (arith, d 3))
low_digits log false false align h =
    let d = digit-described log false false align in
    (omega (arith, d 0), omega (arith, d 1), omega (arith, d 2), omega (arith, d 3))

mask_test :
    (op i : ℕ) (b : Bool) → digit op i ≡ (if b then 1 else 0) → not (bit_and op (2 ^ i) == 0) ≡ b
mask_test op i true e =
    let all : bit_and op (2 ^ i) ≡ 2 ^ i = bit_and_pow op i ∙ rw e (omega arith) in
    let positive : 1 ≤ 2 ^ i = one-le-pow i 2 (omega arith) in rw all (ground arith)
mask_test op i false e =
    let all : bit_and op (2 ^ i) ≡ 0 = bit_and_pow op i ∙ rw e (omega arith) in rw all refl

-- The fields of a descriptor: the size as a power of two, the sign and the byte order do not disturb
-- each other, nor does the alignment disturb them.
pub size-described :
    (log : ℕ) (signed swapped : Bool) (align : ℕ)
    → log < 4
    → (size (described log signed swapped align) ≡ log)
      × (size_bytes (described log signed swapped align) ≡ 2 ^ log)
      × (is_signed (described log signed swapped align) ≡ signed)
      × (is_bswap (described log signed swapped align) ≡ swapped)
unfolding size size_bytes is_signed is_bswap
size-described log signed swapped align h =
    let op = described log signed swapped align in
    let (d0, d1, d2, d3) = low_digits log signed swapped align h in
    let low : op % 4 ≡ log = omega (arith, d0, d1) in
    let same : bit_and op 3 ≡ log = bit_and_mask 2 op ∙ low in
    (
      same,
      ap (λ (z : ℕ). 1 * 2 ^ z) same ∙ omega arith,
      mask_test op 2 signed d2,
      mask_test op 3 swapped d3,
    )
