-- ===== src/TbStore/View.antt =====
-- exec/src/tb_store.rs: what a lookup reads of the blocks, and the walks along a chain.
use tcg_rs.Base.{
  ℕ, zero, suc, ◌≤◌, ◌≡◌, refl, sym, ap, ◌∙◌, List, [], ◌∷◌, Bool, true, false, not, ◌&&◌, Option,
  none, some, length, get_elem?, ◌==◌, if◌then◌else◌, arith, Bool-cases, inl, inr, Option-cases,
}
use tcg_rs.Tb.{TranslationBlock, hash_bucket}
use tcg_rs.TbStore.{TbStore, lookup_from, remove_from, splice, is_match}
use tcg_rs.TbStore.Chain.{Chain, pick, elem}

pub record Entry : Type 0 where
  pub pc : ℕ
  pub flags : ℕ
  pub invalid : Bool
  pub hash_next : Option ℕ

abbrev pub View : Type 0
View = ℕ → Option Entry

abbrev pub entry : TranslationBlock → Entry
entry t = record { pc = t.pc; flags = t.flags; invalid = t.invalid; hash_next = t.hash_next }

unfoldable pub view : List TranslationBlock → View
view tbs i = elim (get_elem? tbs i) [ none ↦ none | some t ↦ some (entry t) ]

unfoldable pub next_of : View → ℕ → Option (Option ℕ)
next_of v i = elim (v i) [ none ↦ none | some e ↦ some e.hash_next ]

unfoldable pub hits : View → ℕ → ℕ → ℕ → Bool
hits v pc flags i = elim (v i) [
  | none ↦ false
  | some e ↦ not e.invalid && (e.pc == pc && e.flags == flags)
]

unfoldable pub in_bucket : View → ℕ → ℕ → Bool
in_bucket v b i = elim (v i) [
  | none ↦ false
  | some e ↦ not e.invalid && (hash_bucket e.pc e.flags == b)
]

module _ (tbs : List TranslationBlock) where
  pub next_of-view :
      (i : ℕ) (n : Option ℕ)
      → next_of (view tbs) i ≡ some n
      → (t : TranslationBlock) × (get_elem? tbs i ≡ some t) × (t.hash_next ≡ n)
  unfolding next_of view
  next_of-view i n h = elim (Option-cases (get_elem? tbs i)) [
    | inl e ↦ let r : next_of (view tbs) i ≡ none = rw (e, next_of, view) refl in absurd (cc)
    | inr (t, e) ↦
        let r : next_of (view tbs) i ≡ some t.hash_next = rw (e, next_of, view) refl in (t, e, cc)
  ]

  -- A walk with enough fuel finds the first block of the chain that matches.
  pub lookup_from-Chain :
      (pc flags : ℕ) (xs : List ℕ) (cur : Option ℕ) (fuel : ℕ)
      → Chain (next_of (view tbs)) cur xs
      → length xs ≤ fuel
      → lookup_from fuel tbs cur pc flags ≡ some (pick (hits (view tbs) pc flags) xs)
  unfolding lookup_from hits view
  lookup_from-Chain pc flags [] cur fuel c h = rw c refl
  lookup_from-Chain pc flags (i ∷ xs) cur zero c h = absurd (omega arith)
  lookup_from-Chain pc flags (i ∷ xs) cur (suc fuel) (e, n, k, c) h =
      let (t, found, link) = next_of-view i n k in
      let ih = lookup_from-Chain pc flags xs n fuel c (omega arith) in
      elim (Bool-cases (is_match t pc flags)) [
        | inl d ↦ rw (e, lookup_from, found, link, ih, hits, view, d) refl
        | inr d ↦ rw (e, lookup_from, found, link, ih, hits, view, d) refl
      ]

-- What is in front of a block in its chain, behind `prev`.
abbrev pub behind : ℕ → Option ℕ → List ℕ → Option ℕ
behind idx prev [] = prev
behind idx prev (i ∷ xs) = let rest = behind idx (some i) xs in if i == idx then prev else rest

pub remove_from_absent :
    (s : TbStore) (b idx : ℕ) (xs : List ℕ) (cur prev : Option ℕ) (fuel : ℕ)
    → Chain (next_of (view s.tbs)) cur xs
    → length xs ≤ fuel
    → elem idx xs ≡ false
    → remove_from fuel b idx prev cur s ≡ some s
unfolding remove_from
remove_from_absent s b idx [] cur prev fuel c h m = rw c refl
remove_from_absent s b idx (i ∷ xs) cur prev zero c h m = absurd (omega arith)
remove_from_absent s b idx (i ∷ xs) cur prev (suc fuel) (e, n, k, c) h m =
    let (t, found, link) = next_of-view s.tbs i n k in
    elim (Bool-cases (i == idx)) [
      | inl d ↦ let r : elem idx (i ∷ xs) ≡ true = rw d refl in absurd (cc)
      | inr d ↦
          let r : elem idx (i ∷ xs) ≡ elem idx xs = rw d refl in
          rw (e, remove_from, found, link, d)
            (remove_from_absent s b idx xs n (some i) fuel c (omega arith) (sym r ∙ m))
    ]

pub remove_from_present :
    (s : TbStore) (b idx : ℕ) (m : Option ℕ) (xs : List ℕ) (cur prev : Option ℕ) (fuel : ℕ)
    → next_of (view s.tbs) idx ≡ some m
    → Chain (next_of (view s.tbs)) cur xs
    → length xs ≤ fuel
    → elem idx xs ≡ true
    → remove_from fuel b idx prev cur s ≡ splice b idx (behind idx prev xs) m s
unfolding remove_from
remove_from_present s b idx m [] cur prev fuel u c h mem = absurd (cc)
remove_from_present s b idx m (i ∷ xs) cur prev zero u c h mem = absurd (omega arith)
remove_from_present s b idx m (i ∷ xs) cur prev (suc fuel) u (e, n, k, c) h mem =
    let (t, found, link) = next_of-view s.tbs i n k in
    elim (Bool-cases (i == idx)) [
      | inl d ↦
          let same : i ≡ idx = ground arith in
          let eq : n ≡ m =
            let r : some n ≡ some m = sym k ∙ ap (next_of (view s.tbs)) same ∙ u in cc in
          rw (e, remove_from, found, link, d, eq) (ap (λ (z : ℕ). splice b z prev m s) same)
      | inr d ↦
          let r : elem idx (i ∷ xs) ≡ elem idx xs = rw d refl in
          rw (e, remove_from, found, link, d)
            (remove_from_present s b idx m xs n (some i) fuel u c (omega arith) (sym r ∙ mem))
    ]
