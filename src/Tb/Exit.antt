-- ===== src/Tb/Exit.antt =====
-- core/src/tb.rs: the exit values, and the bounds of the two index functions.
use tcg_rs.Base.{
  ℕ, ◌+◌, ◌*◌, ◌/◌, ◌%◌, ◌^◌, ◌<◌, ◌≡◌, refl, ◌∙◌, bit_and, bit_or, none, some, ltb, if◌then◌else◌,
  arith, Bool-cases, inl, inr,
}
use tcg_rs.Base.Bits.{bit_and_mask, bit_or_low}
use tcg_rs.Tb.{
  encode_tb_exit, decode_tb_exit, tb_exit_max, tb_hash_size, tb_jmp_cache_size, hash_bucket,
  cache_index,
}

low_bits : (raw : ℕ) → bit_and raw 3 ≡ raw % 4
low_bits raw = bit_and_mask 2 raw

packed :
    (i v : ℕ) → i + 1 < 2 ^ 32 → v < 3 → bit_or ((i + 1) * 2 ^ 32 % 2 ^ 64) v ≡ (i + 1) * 2 ^ 32 + v
packed i v h k =
    let small : (i + 1) * 2 ^ 32 % 2 ^ 64 ≡ (i + 1) * 2 ^ 32 = omega arith in
    rw small (bit_or_low 32 (i + 1) v (omega arith))

-- An exit that may be chained carries its block and its slot; any other exit below 2 ^ 32 is its own
-- value and carries no block.
pub decode_tb_exit-encode_tb_exit :
    (tb_idx val : ℕ)
    → tb_idx + 1 < 2 ^ 32
    → val < 2 ^ 32
    → decode_tb_exit (encode_tb_exit tb_idx val)
      ≡ (if ltb val tb_exit_max then (some tb_idx, val) else (none, val))
unfolding decode_tb_exit encode_tb_exit
decode_tb_exit-encode_tb_exit tb_idx val h k = elim (Bool-cases (ltb val tb_exit_max)) [
  | inl e ↦
      let small : val < 3 = ground arith in
      let word = packed tb_idx val h small in
      let marker : ((tb_idx + 1) * 2 ^ 32 + val) / 2 ^ 32 ≡ tb_idx + 1 = omega arith in
      let slot : bit_and ((tb_idx + 1) * 2 ^ 32 + val) 3 ≡ val =
        low_bits ((tb_idx + 1) * 2 ^ 32 + val) ∙ omega arith in
      rw (e, word, marker, slot) (ground arith)
  | inr e ↦ let marker : val / 2 ^ 32 ≡ 0 = omega arith in rw (e, marker) refl
]

-- Every block and every address has a place in its table.
pub index_bounds :
    (pc flags : ℕ) → (hash_bucket pc flags < tb_hash_size) × (cache_index pc < tb_jmp_cache_size)
unfolding hash_bucket cache_index
index_bounds pc flags = (omega (arith, bit_and_mask 15 _), omega (arith, bit_and_mask 12 _))
