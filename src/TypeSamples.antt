-- ===== src/TypeSamples.antt =====
-- The theorems on the register sets and the memory accesses of core/src/types.rs at concrete values.
use tcg_rs.Base.{
  ℕ, ◌^◌, ◌<◌, ◌≡◌, ◌⊎◌, true, false, not, ◌&&◌, ◌||◌, none, some, ◌==◌, arith, ◌>>=◌,
}
use tcg_rs.RegSet.{set, clear, contains, union, intersect, subtract, first}
use tcg_rs.RegSet.Members.{has, contains-set, contains-union, first-IsLeast}
use tcg_rs.MemOp.{size, size_bytes, is_signed, is_bswap}
use tcg_rs.MemOp.Fields.{described, size-described}

contains-set_example :
    ((set 0x30 7 >>= λ t. contains t 5) ≡ some (has 0x30 5 || 5 == 7))
    × ((clear 0x30 7 >>= λ t. contains t 5) ≡ some (has 0x30 5 && not (5 == 7)))
contains-set_example = contains-set 0x30 7 5 (omega arith) (omega arith)

contains-union_example :
    (contains (union 0x30 0x21) 5 ≡ some (has 0x30 5 || has 0x21 5))
    × (contains (intersect 0x30 0x21) 5 ≡ some (has 0x30 5 && has 0x21 5))
    × (contains (subtract 0x30 0x21) 5 ≡ some (has 0x30 5 && not (has 0x21 5)))
contains-union_example = contains-union 0x30 0x21 5 (omega arith) (omega arith)

first-IsLeast_example :
    ((first 0x30 ≡ none) × ((q : ℕ) → q < 64 → contains 0x30 q ≡ some false))
    ⊎ ((r : ℕ) × (first 0x30 ≡ some r)
        × (contains 0x30 r ≡ some true)
        × ((q : ℕ) → q < r → contains 0x30 q ≡ some false))
first-IsLeast_example = first-IsLeast 0x30 (omega arith)

size-described_example :
    (size (described 2 true false 3) ≡ 2)
    × (size_bytes (described 2 true false 3) ≡ 2 ^ 2)
    × (is_signed (described 2 true false 3) ≡ true)
    × (is_bswap (described 2 true false 3) ≡ false)
size-described_example = size-described 2 true false 3 (omega arith)
