-- ===== src/TbStore/Mark.antt =====
-- exec/src/tb_store.rs: a block marked invalid, still in its chain.
use tcg_rs.Base.{
  ℕ, ◌≡◌, sym, ap, ◌∙◌, List, Bool, true, false, not, ◌&&◌, some, modify, get_elem?, ◌==◌, arith,
  Bool-cases, inl, inr,
}
use tcg_rs.Tb.{TranslationBlock}
use tcg_rs.TbStore.{TbStore}
use tcg_rs.TbStore.View.{View, entry, view, next_of, hits, in_bucket}
use tcg_rs.TbStore.Facts.{
  view-some, view-modify_self, view-modify_ne, next_of-some, next_of_congr, in_bucket_some,
  in_bucket_congr, hits_some, hits_congr,
}

abbrev pub mark : TranslationBlock → TranslationBlock
mark t = record t { invalid = true }

masked : (b : Bool) → (b && false) ≡ false
masked b = ground arith

pub open_mask : (b : Bool) → (b && true) ≡ b
open_mask b = ground arith

module _ (s : TbStore) (idx : ℕ) (t : TranslationBlock) (found : get_elem? s.tbs idx ≡ some t) where
  abbrev pub marked : List TranslationBlock
  marked = modify s.tbs idx mark

  pub was : view s.tbs idx ≡ some (entry t)
  was = view-some s.tbs idx t found

  pub now : view marked idx ≡ some (entry (mark t))
  now = view-modify_self s.tbs idx mark t found

  other : (j : ℕ) → (j == idx) ≡ false → view marked j ≡ view s.tbs j
  other j d = view-modify_ne s.tbs idx j mark (λ (e : j ≡ idx). absurd (ground arith))

  -- What the mark does to anything that is read of one block.
  marked_read :
      {A : Type 0} (read : View → ℕ → A) (j : ℕ) (a : A)
      → ((j == idx) ≡ true → read (view marked) idx ≡ a)
      → ((j == idx) ≡ false → read (view marked) j ≡ a)
      → read (view marked) j ≡ a
  marked_read read j a here there = elim (Bool-cases (j == idx)) [
    | inl d ↦ let same : j ≡ idx = ground arith in ap (read (view marked)) same ∙ here d
    | inr d ↦ there d
  ]

  pub next-mark : (j : ℕ) → next_of (view marked) j ≡ next_of (view s.tbs) j
  next-mark j =
      marked_read next_of j (next_of (view s.tbs) j)
        (λ d.
          let same : idx ≡ j = ground arith in
          next_of-some (view marked) idx (entry (mark t)) now
          ∙ sym (next_of-some (view s.tbs) idx (entry t) was)
          ∙ ap (next_of (view s.tbs)) same)
        (λ d. next_of_congr (view s.tbs) (view marked) j (other j d))

  pub in_bucket-mark :
      (b j : ℕ) → in_bucket (view marked) b j ≡ (in_bucket (view s.tbs) b j && not (j == idx))
  in_bucket-mark b j =
      marked_read (λ v i. in_bucket v b i) j (in_bucket (view s.tbs) b j && not (j == idx))
        (λ d. in_bucket_some (view marked) idx (entry (mark t)) now b ∙ rw d (sym (masked _)))
        (λ d. in_bucket_congr (view s.tbs) (view marked) j (other j d) b ∙ rw d (sym (open_mask _)))

  pub hits-mark :
      (q f j : ℕ) → hits (view marked) q f j ≡ (hits (view s.tbs) q f j && not (j == idx))
  hits-mark q f j =
      marked_read (λ v i. hits v q f i) j (hits (view s.tbs) q f j && not (j == idx))
        (λ d. hits_some (view marked) idx (entry (mark t)) now q f ∙ rw d (sym (masked _)))
        (λ d. hits_congr (view s.tbs) (view marked) j (other j d) q f ∙ rw d (sym (open_mask _)))
