-- ===== src/TbStore/Patches.antt =====
-- exec/src/tb_store.rs: the jumps to a block that is invalidated, patched back in the host code.
use tcg_rs.Base.{
  ℕ, ◌≡◌, refl, ap, ◌∙◌, List, [], ◌∷◌, Option, none, some, get_elem?, get_elem?-modify_read,
  modify, Option-cases, inl, inr,
}
use tcg_rs.Tb.{TranslationBlock, Slots}
use tcg_rs.TbStore.{Host, reset_jump}

abbrev both : Option ℕ → Option ℕ → Option (ℕ × ℕ)
both (some jmp) (some reset) = some (jmp, reset)
both _ _ = none

abbrev reset_of : ℕ → Option TranslationBlock → Option (ℕ × ℕ)
reset_of slot none = none
reset_of slot (some t) = both (t.jmp_insn_offset slot) (t.jmp_reset_offset slot)

-- Where the jump `slot` of a block stands in the host code, and where it led before it was chained.
unfoldable pub reset_patch : List TranslationBlock → ℕ → ℕ → Option (ℕ × ℕ)
reset_patch tbs i slot = reset_of slot (get_elem? tbs i)

-- Two lists of blocks with the jumps at the same places.
abbrev pub HasSameResets : List TranslationBlock → List TranslationBlock → Type 0
HasSameResets tbs tbs' = (i slot : ℕ) → reset_patch tbs' i slot ≡ reset_patch tbs i slot

pub HasSameResets-modify :
    (tbs : List TranslationBlock) (i : ℕ) (f : TranslationBlock → TranslationBlock)
    → ((t : TranslationBlock) → (f t).jmp_insn_offset ≡ t.jmp_insn_offset)
    → ((t : TranslationBlock) → (f t).jmp_reset_offset ≡ t.jmp_reset_offset)
    → HasSameResets tbs (modify tbs i f)
unfolding reset_patch
HasSameResets-modify tbs i f h g j slot = get_elem?-modify_read (reset_of slot) tbs i j f (λ t.
    ap (λ (o : Slots). both (o slot) ((f t).jmp_reset_offset slot)) (h t)
    ∙ ap (λ (o : Slots). both (t.jmp_insn_offset slot) (o slot)) (g t))

module _ (host : Host) where
  open host use {Code, patch_jump}

  abbrev pub patch : Option (ℕ × ℕ) → Code → Code
  patch none code = code
  patch (some (jmp, reset)) code = patch_jump code jmp reset

  -- The host code with each of the listed jumps led back, in the order of the list.
  unfoldable pub restored : List TranslationBlock → List (ℕ × ℕ) → Code → Code
  restored tbs [] code = code
  restored tbs ((src, slot) ∷ edges) code =
      restored tbs edges (patch (reset_patch tbs src slot) code)

  pub reset_jump-patch :
      (tbs : List TranslationBlock) (src slot : ℕ) (t : TranslationBlock) (code : Code)
      → get_elem? tbs src ≡ some t
      → reset_jump host t slot code ≡ patch (reset_patch tbs src slot) code
  unfolding reset_jump reset_patch
  reset_jump-patch tbs src slot t code found = elim (Option-cases (t.jmp_insn_offset slot)) [
    | inl a ↦ rw (found, a) refl
    | inr (jmp, a) ↦ elim (Option-cases (t.jmp_reset_offset slot)) [
      | inl b ↦ rw (found, a, b) refl
      | inr (reset, b) ↦ rw (found, a, b) refl
    ]
  ]

  pub restored_congr :
      (tbs tbs' : List TranslationBlock)
      → HasSameResets tbs tbs'
      → (edges : List (ℕ × ℕ)) (code : Code) → restored tbs' edges code ≡ restored tbs edges code
  unfolding restored
  restored_congr tbs tbs' h [] code = refl
  restored_congr tbs tbs' h ((src, slot) ∷ edges) code =
      rw (h src slot) (restored_congr tbs tbs' h edges (patch (reset_patch tbs src slot) code))
