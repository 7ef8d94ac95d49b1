-- ===== src/TbStore/Links.antt =====
-- exec/src/tb_store.rs: the edges between blocks, and the writes to them.
use tcg_rs.Base.{
  ℕ, ◌<◌, ◌≡◌, refl, ap, ◌∙◌, List, [], ◌∷◌, Bool, true, false, Option, none, some, length,
  get_elem?, get_elem?-modify_self, get_elem?-modify_ne, get_elem?-modify_read, get_elem?-of_lt,
  length-modify, modify, ◌==◌, if◌then◌else◌, arith, Bool-cases, inl, inr,
}
use tcg_rs.Tb.{TranslationBlock}
use tcg_rs.TbStore.{TbStore, is_edge}
use tcg_rs.TbStore.View.{view, entry}
use tcg_rs.TbStore.Facts.{view-modify_keep}

-- Where the jump `slot` of a block leads, and the edges that a block knows to lead to it.
unfoldable pub dest : List TranslationBlock → ℕ → ℕ → Option ℕ
dest tbs i slot = elim (get_elem? tbs i) [ none ↦ none | some t ↦ t.jmp.jmp_dest slot ]

unfoldable pub incoming : List TranslationBlock → ℕ → List (ℕ × ℕ)
incoming tbs i = elim (get_elem? tbs i) [ none ↦ [] | some t ↦ t.jmp.jmp_list ]

abbrev pub has : ℕ → ℕ → List (ℕ × ℕ) → Bool
has src slot [] = false
has src slot (e ∷ es) = let rest = has src slot es in if is_edge src slot e then true else rest

-- A change of the edges alone.
pub record IsKept (s s' : TbStore) : Type 0 where
  pub size : length s'.tbs ≡ length s.tbs
  pub hash : s'.hash ≡ s.hash
  pub views : (j : ℕ) → view s'.tbs j ≡ view s.tbs j

pub IsKept-trans : (s s' s'' : TbStore) → IsKept s s' → IsKept s' s'' → IsKept s s''
IsKept-trans s s' s'' a b = record {
  size = b.size ∙ a.size;
  hash = b.hash ∙ a.hash;
  views = λ j. b.views j ∙ a.views j;
}

pub dest-some :
    (tbs : List TranslationBlock) (i slot : ℕ) (t : TranslationBlock)
    → get_elem? tbs i ≡ some t
    → dest tbs i slot ≡ t.jmp.jmp_dest slot
unfolding dest
dest-some tbs i slot t e = rw (dest, e) refl

pub incoming-some :
    (tbs : List TranslationBlock) (i : ℕ) (t : TranslationBlock)
    → get_elem? tbs i ≡ some t
    → incoming tbs i ≡ t.jmp.jmp_list
unfolding incoming
incoming-some tbs i t e = rw (incoming, e) refl

module _ (s : TbStore) (i : ℕ) (f : TranslationBlock → TranslationBlock)
    (h : i < length s.tbs) where
  pub IsKept-write :
      ((t : TranslationBlock) → entry (f t) ≡ entry t)
      → IsKept s (record s { tbs = modify s.tbs i f })
  IsKept-write k = record {
    size = length-modify s.tbs i f;
    hash = refl;
    views = λ j. view-modify_keep s.tbs i j f k;
  }

  -- A write to one block, read through its edges.
  pub dest-write :
      (pick : (ℕ → Option ℕ) → ℕ → Option ℕ)
      → ((t : TranslationBlock) (slot : ℕ) → (f t).jmp.jmp_dest slot ≡ pick t.jmp.jmp_dest slot)
      → (j slot : ℕ)
      → dest (modify s.tbs i f) j slot
        ≡ (if j == i then pick (dest s.tbs i) slot else dest s.tbs j slot)
  unfolding dest
  dest-write pick k j slot =
      let (t, e) = get_elem?-of_lt s.tbs i h in
      elim (Bool-cases (j == i)) [
        | inl d ↦
            let same : j ≡ i = ground arith in
            let now =
              dest-some (modify s.tbs i f) i slot (f t) (get_elem?-modify_self s.tbs i f e) in
            let was : dest s.tbs i ≡ t.jmp.jmp_dest = λ p x. dest-some s.tbs i x t e p in
            rw (d, was) (ap (λ (z : ℕ). dest (modify s.tbs i f) z slot) same ∙ now ∙ k t slot)
        | inr d ↦
            rw (d, dest, get_elem?-modify_ne s.tbs i j f (λ (q : j ≡ i). absurd (ground arith)))
              refl
      ]

  pub incoming-write :
      (pick : List (ℕ × ℕ) → List (ℕ × ℕ))
      → ((t : TranslationBlock) → (f t).jmp.jmp_list ≡ pick t.jmp.jmp_list)
      → (j : ℕ)
      → incoming (modify s.tbs i f) j
        ≡ (if j == i then pick (incoming s.tbs i) else incoming s.tbs j)
  unfolding incoming
  incoming-write pick k j =
      let (t, e) = get_elem?-of_lt s.tbs i h in
      elim (Bool-cases (j == i)) [
        | inl d ↦
            let same : j ≡ i = ground arith in
            let now =
              incoming-some (modify s.tbs i f) i (f t) (get_elem?-modify_self s.tbs i f e) in
            let was = incoming-some s.tbs i t e in
            rw (d, was) (ap (incoming (modify s.tbs i f)) same ∙ now ∙ k t)
        | inr d ↦
            rw (d, incoming, get_elem?-modify_ne s.tbs i j f (λ (q : j ≡ i). absurd (ground arith)))
              refl
      ]

  pub dest-write_keep :
      ((t : TranslationBlock) → (f t).jmp.jmp_dest ≡ t.jmp.jmp_dest)
      → (j slot : ℕ) → dest (modify s.tbs i f) j slot ≡ dest s.tbs j slot
  unfolding dest
  dest-write_keep k j slot =
      get_elem?-modify_read
        (λ (o : Option TranslationBlock). elim o [ none ↦ none | some t ↦ t.jmp.jmp_dest slot ])
        s.tbs i j f (λ t. ap (λ (g : ℕ → Option ℕ). g slot) (k t))

  pub incoming-write_keep :
      ((t : TranslationBlock) → (f t).jmp.jmp_list ≡ t.jmp.jmp_list)
      → (j : ℕ) → incoming (modify s.tbs i f) j ≡ incoming s.tbs j
  unfolding incoming
  incoming-write_keep k j =
      get_elem?-modify_read
        (λ (o : Option TranslationBlock). elim o [ none ↦ [] | some t ↦ t.jmp.jmp_list ]) s.tbs i j
        f (λ t. k t)
