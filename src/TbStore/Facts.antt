-- ===== src/TbStore/Facts.antt =====
-- exec/src/tb_store.rs: the writes of the store as changes of its view.
use tcg_rs.Base.{
  ℕ, ◌<◌, ◌≡◌, ◌≢◌, refl, sym, ap, ◌∙◌, List, [], ◌∷◌, ◌++◌, Bool, true, false, not, ◌&&◌, Option,
  none, some, length, get_elem?, get_elem?-modify_self, get_elem?-modify_ne, get_elem?-of_lt,
  get_elem?-append, get_elem?-modify_read, modify, ltb, ◌==◌, arith, inl, inr, Option-cases,
}
use tcg_rs.Tb.{TranslationBlock, hash_bucket}
use tcg_rs.TbStore.{TbStore, write}
use tcg_rs.TbStore.View.{Entry, View, entry, view, next_of, hits, in_bucket}

pub write-some :
    (s : TbStore) (i : ℕ) (f : TranslationBlock → TranslationBlock)
    → i < length s.tbs
    → write s i f ≡ some (record s { tbs = modify s.tbs i f })
unfolding write
write-some s i f h = let e : ltb i (length s.tbs) ≡ true = ground arith in rw e refl

pub view-some :
    (tbs : List TranslationBlock) (i : ℕ) (t : TranslationBlock)
    → get_elem? tbs i ≡ some t
    → view tbs i ≡ some (entry t)
unfolding view
view-some tbs i t e = rw (view, e) refl

pub view-of_lt :
    (tbs : List TranslationBlock) (i : ℕ)
    → i < length tbs
    → (t : TranslationBlock) × (get_elem? tbs i ≡ some t) × (view tbs i ≡ some (entry t))
view-of_lt tbs i h = let (t, e) = get_elem?-of_lt tbs i h in (t, e, view-some tbs i t e)

pub view-modify_self :
    (tbs : List TranslationBlock) (i : ℕ) (f : TranslationBlock → TranslationBlock)
    (t : TranslationBlock)
    → get_elem? tbs i ≡ some t
    → view (modify tbs i f) i ≡ some (entry (f t))
view-modify_self tbs i f t e = view-some (modify tbs i f) i (f t) (get_elem?-modify_self tbs i f e)

pub view-modify_ne :
    (tbs : List TranslationBlock) (i j : ℕ) (f : TranslationBlock → TranslationBlock)
    → j ≢ i
    → view (modify tbs i f) j ≡ view tbs j
unfolding view
view-modify_ne tbs i j f ne = rw (view, get_elem?-modify_ne tbs i j f ne) refl

-- A write that keeps what a lookup reads.
pub view-modify_keep :
    (tbs : List TranslationBlock) (i j : ℕ) (f : TranslationBlock → TranslationBlock)
    → ((t : TranslationBlock) → entry (f t) ≡ entry t)
    → view (modify tbs i f) j ≡ view tbs j
unfolding view
view-modify_keep tbs i j f h =
    get_elem?-modify_read
      (λ (o : Option TranslationBlock). elim o [ none ↦ none | some t ↦ some (entry t) ]) tbs i j f
      (λ t. ap some (h t))

pub view-append :
    (tbs : List TranslationBlock) (t : TranslationBlock) (i : ℕ)
    → i < length tbs
    → view (tbs ++ t ∷ []) i ≡ view tbs i
unfolding view
view-append tbs t i h =
    let (u, e) = get_elem?-of_lt tbs i h in rw (view, e, get_elem?-append tbs (t ∷ []) i e) refl

module _ (v : View) (i : ℕ) (e : Entry) (known : v i ≡ some e) where
  pub next_of-some : next_of v i ≡ some e.hash_next
  unfolding next_of
  next_of-some = rw (next_of, known) refl

  pub in_bucket_some :
      (b : ℕ) → in_bucket v b i ≡ (not e.invalid && (hash_bucket e.pc e.flags == b))
  unfolding in_bucket
  in_bucket_some b = rw (in_bucket, known) refl

  pub hits_some :
      (pc flags : ℕ) → hits v pc flags i ≡ (not e.invalid && (e.pc == pc && e.flags == flags))
  unfolding hits
  hits_some pc flags = rw (hits, known) refl

-- A block that matches is in the bucket of its key.
pub hits-in_bucket :
    (v : View) (pc flags i : ℕ)
    → hits v pc flags i ≡ true
    → in_bucket v (hash_bucket pc flags) i ≡ true
unfolding hits
hits-in_bucket v pc flags i h = elim (Option-cases (v i)) [
  | inl e ↦ let r : hits v pc flags i ≡ false = rw (hits, e) refl in absurd (cc)
  | inr (e, k) ↦
      let known = sym (hits_some v i e k pc flags) ∙ h in
      let valid : not e.invalid ≡ true = ground arith in
      let same : e.pc ≡ pc = ground arith in
      let same' : e.flags ≡ flags = ground arith in
      let eq : hash_bucket e.pc e.flags ≡ hash_bucket pc flags = cc in
      in_bucket_some v i e k (hash_bucket pc flags) ∙ ground (arith, eq)
]

module _ (v v' : View) (i : ℕ) (same : v' i ≡ v i) where
  pub next_of_congr : next_of v' i ≡ next_of v i
  unfolding next_of
  next_of_congr = rw (next_of, same) refl

  pub in_bucket_congr : (b : ℕ) → in_bucket v' b i ≡ in_bucket v b i
  unfolding in_bucket
  in_bucket_congr b = rw (in_bucket, same) refl

  pub hits_congr : (pc flags : ℕ) → hits v' pc flags i ≡ hits v pc flags i
  unfolding hits
  hits_congr pc flags = rw (hits, same) refl

-- A write that keeps a test of what a lookup reads.
pub view-modify_test :
    (P : Option Entry → Bool) (tbs : List TranslationBlock) (i j : ℕ)
    (f : TranslationBlock → TranslationBlock)
    → ((t : TranslationBlock) → P (some (entry (f t))) ≡ P (some (entry t)))
    → P (view (modify tbs i f) j) ≡ P (view tbs j)
unfolding view
view-modify_test P tbs i j f h =
    get_elem?-modify_read
      (λ (o : Option TranslationBlock). P (elim o [ none ↦ none | some t ↦ some (entry t) ])) tbs i
      j f h

abbrev pub link : Option ℕ → TranslationBlock → TranslationBlock
link c t = record t { hash_next = c }

module _ (tbs : List TranslationBlock) (i : ℕ) (c : Option ℕ) where
  pub hits-link : (q f j : ℕ) → hits (view (modify tbs i (link c))) q f j ≡ hits (view tbs) q f j
  unfolding hits
  hits-link q f j =
      view-modify_test
        (λ (o : Option Entry). elim o [
          | none ↦ false
          | some e ↦ not e.invalid && (e.pc == q && e.flags == f)
        ])
        tbs i j (link c) (λ t. refl)

  pub in_bucket-link :
      (b j : ℕ) → in_bucket (view (modify tbs i (link c))) b j ≡ in_bucket (view tbs) b j
  unfolding in_bucket
  in_bucket-link b j =
      view-modify_test
        (λ (o : Option Entry). elim o [
          | none ↦ false
          | some e ↦ not e.invalid && (hash_bucket e.pc e.flags == b)
        ])
        tbs i j (link c) (λ t. refl)

  pub next_of-link_self : i < length tbs → next_of (view (modify tbs i (link c))) i ≡ some c
  next_of-link_self h =
      let (t, e) = get_elem?-of_lt tbs i h in
      next_of-some (view (modify tbs i (link c))) i (entry (link c t))
        (view-modify_self tbs i (link c) t e)

  pub next_of-link_ne :
      (j : ℕ) → j ≢ i → next_of (view (modify tbs i (link c))) j ≡ next_of (view tbs) j
  next_of-link_ne j ne =
      next_of_congr (view tbs) (view (modify tbs i (link c))) j (view-modify_ne tbs i j (link c) ne)

-- A valid block is in one bucket.
pub in_bucket_unique :
    (v : View) (b c i : ℕ) → in_bucket v b i ≡ true → in_bucket v c i ≡ true → b ≡ c
unfolding in_bucket
in_bucket_unique v b c i h k = elim (Option-cases (v i)) [
  | inl e ↦ let r : in_bucket v b i ≡ false = rw (in_bucket, e) refl in absurd (cc)
  | inr (e, known) ↦
      let x = sym (in_bucket_some v i e known b) ∙ h in
      let y = sym (in_bucket_some v i e known c) ∙ k in ground arith
]
