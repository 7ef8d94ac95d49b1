-- ===== src/TbStore/Insert.antt =====
-- exec/src/tb_store.rs: a new block, from its allocation to its place in the hash table.
use tcg_rs.Base.{
  ℕ, suc, ◌<◌, ◌≡◌, refl, sym, ap, ◌∙◌, [], ◌∷◌, ◌++◌, true, false, ◌&&◌, Option, some, length,
  get_elem?, length-modify, length-append, get_elem?-append_length, modify, ltb, ◌==◌,
  if◌then◌else◌, arith, Bool-cases, inl, inr, ◌>>=◌,
}
use tcg_rs.Tb.{TranslationBlock, hash_bucket, new_block}
use tcg_rs.TbStore.{TbStore, max_tbs, alloc, get, insert, set_bucket, lookup}
use tcg_rs.TbStore.Chain.{newest, newest_congr}
use tcg_rs.TbStore.View.{Entry, View, entry, view, hits, in_bucket}
use tcg_rs.TbStore.Facts.{
  write-some, view-modify_self, view-modify_ne, view-append, next_of-some, in_bucket_some,
  hits_some, hits_congr,
}
use tcg_rs.TbStore.Lookup.{Linked, Linked-congr, IsStore, lookup-newest}

module _ (v v' : View) (hash : ℕ → Option ℕ) (idx : ℕ) (e : Entry) where
  Linked-add :
      e.invalid ≡ false
      → v' idx ≡ some (record e { hash_next = hash (hash_bucket e.pc e.flags) })
      → ((i : ℕ) → i < idx → v' i ≡ v i)
      → Linked v hash idx
      → Linked v' (set_bucket hash (hash_bucket e.pc e.flags) (some idx)) (suc idx)
  Linked-add valid now frame l b =
      let home = hash_bucket e.pc e.flags in
      let rest = Linked-congr v v' hash idx frame l b in
      let here = in_bucket_some v' idx (record e { hash_next = hash home }) now b in
      let link = next_of-some v' idx (record e { hash_next = hash home }) now in
      elim (Bool-cases (home == b)) [
        | inl d ↦
            let same : home ≡ b = ground arith in
            let back : (b == home) ≡ true = ground arith in
            let front : in_bucket v' b idx ≡ true = here ∙ rw (valid, d) refl in
            rw (front, back) (refl, hash b, link ∙ ap (λ (z : ℕ). some (hash z)) same, rest)
        | inr d ↦
            let back : (b == home) ≡ false = ground arith in
            let front : in_bucket v' b idx ≡ false = here ∙ rw (valid, d) refl in
            rw (front, back) rest
      ]

-- What the last block adds to a lookup.
newest_add :
    (v v' : View) (idx : ℕ) (e : Entry) (q f : ℕ)
    → e.invalid ≡ false
    → v' idx ≡ some e
    → ((i : ℕ) → i < idx → v' i ≡ v i)
    → newest (hits v' q f) (suc idx)
      ≡ (if e.pc == q && e.flags == f then some idx else newest (hits v q f) idx)
newest_add v v' idx e q f valid now frame =
    let here : hits v' q f idx ≡ (e.pc == q && e.flags == f) =
      hits_some v' idx e now q f ∙ rw valid refl in
    let older =
      newest_congr (hits v' q f) (hits v q f) idx (λ i k. hits_congr v v' i (frame i k) q f) in
    rw (here, older) refl

-- Inserting the last block, where it is valid: the other blocks are linked already.
pub insert_last :
    (s : TbStore) (idx : ℕ) (t : TranslationBlock)
    → length s.tbs ≡ suc idx
    → get_elem? s.tbs idx ≡ some t
    → t.invalid ≡ false
    → Linked (view s.tbs) s.hash idx
    → (s' : TbStore) × (insert s idx ≡ some s')
      × (s'.tbs
          ≡ modify s.tbs idx (λ u. record u { hash_next = s.hash (hash_bucket t.pc t.flags) }))
      × IsStore s'
      × ((q f : ℕ)
          → lookup s' q f
            ≡ some (
                if t.pc == q && t.flags == f then some idx else newest (hits (view s.tbs) q f) idx))
unfolding insert get
insert_last s idx t len found valid l =
    let home = hash_bucket t.pc t.flags in
    let hook : TranslationBlock → TranslationBlock = λ u. record u { hash_next = s.hash home } in
    let tbs' = modify s.tbs idx hook in
    let s' : TbStore = record { tbs = tbs'; hash = set_bucket s.hash home (some idx) } in
    let e' : Entry = record (entry t) { hash_next = s.hash home } in
    let now : view tbs' idx ≡ some e' = view-modify_self s.tbs idx hook t found in
    let frame : (i : ℕ) → i < idx → view tbs' i ≡ view s.tbs i =
      λ i k. view-modify_ne s.tbs idx i hook (λ (q : i ≡ idx). absurd (omega arith)) in
    let len' : length tbs' ≡ suc idx = length-modify s.tbs idx hook ∙ len in
    let store : IsStore s' =
      rw len' (Linked-add (view s.tbs) (view tbs') s.hash idx (entry t) valid now frame l) in
    (
      s',
      rw (found, write-some s idx hook (omega (arith, len))) refl,
      refl,
      store,
      λ q f.
          lookup-newest s' q f store
          ∙ ap (λ (n : ℕ). some (newest (hits (view tbs') q f) n)) len'
          ∙ ap some (newest_add (view s.tbs) (view tbs') idx e' q f valid now frame),
    )

pub alloc-some :
    (s : TbStore) (pc flags cflags : ℕ)
    → length s.tbs < max_tbs
    → alloc s pc flags cflags
      ≡ some (record s { tbs = s.tbs ++ new_block pc flags cflags ∷ [] }, length s.tbs)
unfolding alloc
alloc-some s pc flags cflags h =
    let e : ltb (length s.tbs) max_tbs ≡ true = ground arith in rw e refl

pub Linked-append :
    (s : TbStore) (t : TranslationBlock)
    → IsStore s
    → Linked (view (s.tbs ++ t ∷ [])) s.hash (length s.tbs)
Linked-append s t h =
    Linked-congr (view s.tbs) (view (s.tbs ++ t ∷ [])) s.hash (length s.tbs)
      (λ i k. view-append s.tbs t i k) h

-- While the store is not full, a new block gets the next number, the table's invariant is kept, and
-- a lookup with its guest address and flags now finds it; every other lookup is as it was.
pub insert-alloc :
    (s : TbStore) (pc flags cflags : ℕ)
    → IsStore s
    → length s.tbs < max_tbs
    → (s' : TbStore) × ((alloc s pc flags cflags >>= λ r. insert r.0 r.1) ≡ some s')
      × IsStore s'
      × ((q f : ℕ)
          → lookup s' q f
            ≡ (if pc == q && flags == f then some (some (length s.tbs)) else lookup s q f))
unfolding new_block
insert-alloc s pc flags cflags h room =
    let t = new_block pc flags cflags in
    let s1 : TbStore = record s { tbs = s.tbs ++ t ∷ [] } in
    let idx = length s.tbs in
    let len : length s1.tbs ≡ suc idx = omega (arith, length-append s.tbs (t ∷ [])) in
    let (s', e, tbs', store, found) =
      insert_last s1 idx t len (get_elem?-append_length s.tbs t) refl (Linked-append s t h) in
    let older : (q f : ℕ)
        → newest (hits (view s1.tbs) q f) idx ≡ newest (hits (view s.tbs) q f) idx =
      λ q f.
        newest_congr (hits (view s1.tbs) q f) (hits (view s.tbs) q f) idx
          (λ i k. hits_congr (view s.tbs) (view s1.tbs) i (view-append s.tbs t i k) q f) in
    (
      s',
      rw (alloc-some s pc flags cflags room) e,
      store,
      λ q f. found q f ∙ elim (Bool-cases (pc == q && flags == f)) [
        | inl d ↦ rw d refl
        | inr d ↦ rw (d, older q f) (sym (lookup-newest s q f h))
      ],
    )
