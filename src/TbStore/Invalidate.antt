-- ===== src/TbStore/Invalidate.antt =====
-- exec/src/tb_store.rs: a block invalidated. No lookup finds it, and no edge
-- is recorded that leads to it.
use tcg_rs.Base.{
  List, ℕ, ◌<◌, ◌≡◌, ◌≢◌, refl, sym, ap, ◌∙◌, Bool, true, false, not, ◌&&◌, some, length, modify,
  get_elem?, get_elem?-of_lt, length-modify, All, ◌==◌, arith,
}
use tcg_rs.Tb.{TranslationBlock, hash_bucket}
use tcg_rs.TbStore.{TbStore, Host, invalidate, lookup}
use tcg_rs.TbStore.Chain.{Chain-frame, down_from, All-down_from, newest, newest_congr}
use tcg_rs.TbStore.View.{Entry, entry, view, next_of, hits, in_bucket}
use tcg_rs.TbStore.Facts.{
  write-some, in_bucket_some, next_of_congr, in_bucket_congr, hits_congr, view-some,
}
use tcg_rs.TbStore.Patches.{HasSameResets-modify, restored, restored_congr}
use tcg_rs.TbStore.Links.{dest, incoming, has, dest-write_keep, incoming-write_keep}
use tcg_rs.TbStore.Cut.{IsWired, unlink_edges-some}
use tcg_rs.TbStore.Mark.{mark, marked, next-mark, in_bucket-mark, hits-mark, now, was}
use tcg_rs.TbStore.Remove.{IsMarked, remove_marked}
use tcg_rs.TbStore.Lookup.{IsStore, lookup-newest}

-- The store after the mark and the cuts still has the chains that it had.
still_chained :
    (s s2 : TbStore) (idx : ℕ) (t t2 : TranslationBlock)
    → IsStore s
    → get_elem? s.tbs idx ≡ some t
    → get_elem? s2.tbs idx ≡ some t2
    → length s2.tbs ≡ length s.tbs
    → s2.hash ≡ s.hash
    → ((j : ℕ) → view s2.tbs j ≡ view (modify s.tbs idx mark) j)
    → IsMarked (view s.tbs) s2 idx t2
still_chained s s2 idx t t2 h found found2 size hash views = record {
  found = found2;
  chained = λ b.
      let p = in_bucket (view s.tbs) b in
      let n = length s.tbs in
      rw (size, hash)
        (Chain-frame (next_of (view s.tbs)) (next_of (view s2.tbs)) (down_from p n) (s.hash b)
          (All-down_from p n (λ j k e.
            next_of_congr (view (marked s idx t found)) (view s2.tbs) j (views j)
            ∙ next-mark s idx t found j))
          (h b));
  buckets = λ b j.
      in_bucket_congr (view (marked s idx t found)) (view s2.tbs) j (views j) b
      ∙ in_bucket-mark s idx t found b j;
  home = λ b e.
      let shown : some (entry t2) ≡ some (entry (mark t)) =
        sym (view-some s2.tbs idx t2 found2) ∙ views idx ∙ now s idx t found in
      let same : entry t2 ≡ entry (mark t) = cc in
      let here : hash_bucket t2.pc t2.flags ≡ hash_bucket t.pc t.flags =
        ap (λ (r : Entry). hash_bucket r.pc r.flags) same in
      let there = sym (in_bucket_some (view s.tbs) idx (entry t) (was s idx t found) b) ∙ e in
      here ∙ ground arith;
}

module _ (host : Host) where
  open host use {Code}

  pub record IsInvalidated (idx : ℕ) (s : TbStore) (code : Code) (s' : TbStore) (code' : Code)
      : Type 0 where
    pub done : invalidate host idx (s, code) ≡ some (s', code')
    pub store : IsStore s'
    pub size : length s'.tbs ≡ length s.tbs
    pub same_hits :
        (q f j : ℕ) → hits (view s'.tbs) q f j ≡ (hits (view s.tbs) q f j && not (j == idx))
    pub dests :
        (j k d : ℕ)
        → dest s'.tbs j k ≡ some d
        → (dest s.tbs j k ≡ some d) × (has j k (incoming s.tbs idx) ≡ false) × (j ≢ idx)
    pub spared :
        (j k : ℕ)
        → j ≢ idx
        → has j k (incoming s.tbs idx) ≡ false
        → dest s'.tbs j k ≡ dest s.tbs j k
    pub others :
        (j k d : ℕ) → j ≢ idx → d ≢ idx → has j k (incoming s'.tbs d) ≡ has j k (incoming s.tbs d)
    pub sources :
        (d : ℕ)
        → All (λ e. e.0 < length s.tbs) (incoming s.tbs d)
        → All (λ e. e.0 < length s.tbs) (incoming s'.tbs d)
    pub patched : code' ≡ restored host s.tbs (incoming s.tbs idx) code

  pub invalidate_some :
      (s : TbStore) (idx : ℕ) (code : Code)
      → IsStore s
      → IsWired s.tbs
      → idx < length s.tbs
      → (s' : TbStore) × (code' : Code) × IsInvalidated idx s code s' code'
  unfolding invalidate
  invalidate_some s idx code h wired lt =
      let (t, found) = get_elem?-of_lt s.tbs idx lt in
      let s1 : TbStore = record s { tbs = marked s idx t found } in
      let len1 : length s1.tbs ≡ length s.tbs = length-modify s.tbs idx mark in
      let dest1 = dest-write_keep s idx mark lt (λ u. refl) in
      let list1 = incoming-write_keep s idx mark lt (λ u. refl) in
      let wired1 : IsWired s1.tbs = record {
        back = λ i k d e.
            let (low, inside, member) = wired.back i k d (sym (dest1 i k) ∙ e) in
            (low, rw len1 inside, rw (list1 d) member);
        sources = λ d. rw (len1, list1 d) (wired.sources d);
      } in
      let (s2, code', e2, cut, back) = unlink_edges-some host s1 idx code wired1 (rw len1 lt) in
      let (t2, found2) = get_elem?-of_lt s2.tbs idx (rw (cut.kept.size, len1) lt) in
      let size2 : length s2.tbs ≡ length s.tbs = cut.kept.size ∙ len1 in
      let ready = still_chained s s2 idx t t2 h found found2 size2 cut.kept.hash cut.kept.views in
      let (s3, gone) = remove_marked (view s.tbs) s2 idx t2 ready in
      (
        s3,
        code',
        record {
          done = rw (write-some s idx mark lt, e2, gone.done) refl;
          store = gone.store;
          size = gone.size ∙ size2;
          same_hits = λ q f j.
              gone.same_hits q f j
              ∙ hits_congr (view s1.tbs) (view s2.tbs) j (cut.kept.views j) q f
              ∙ hits-mark s idx t found q f j;
          dests = λ j k d e.
              let (known, out, ne) = cut.dests j k d (sym (gone.same_dest j k) ∙ e) in
              (sym (dest1 j k) ∙ known, ap (has j k) (sym (list1 idx)) ∙ out, ne);
          spared = λ j k ne h.
              gone.same_dest j k ∙ cut.spared j k ne (ap (has j k) (list1 idx) ∙ h) ∙ dest1 j k;
          others = λ j k d ne off.
              ap (has j k) (gone.same_incoming d)
              ∙ cut.others j k d ne off
              ∙ ap (has j k) (list1 d);
          sources =
              λ d a. rw (gone.same_incoming d) (cut.sources (length s.tbs) d (rw (list1 d) a));
          patched =
              back
              ∙ restored_congr host s.tbs s1.tbs
                  (HasSameResets-modify s.tbs idx mark (λ u. refl) (λ u. refl))
                  (incoming s1.tbs idx) code
              ∙ ap (λ (es : List (ℕ × ℕ)). restored host s.tbs es code) (list1 idx);
        },
      )

  -- Invalidating a block of the store ends, without a panic, and keeps the table's invariant. Every
  -- lookup then finds what it would have found without that block: the latest valid block with the
  -- guest address and the flags that is another one.
  pub lookup-invalidate :
      (s : TbStore) (idx : ℕ) (code : Code)
      → IsStore s
      → IsWired s.tbs
      → idx < length s.tbs
      → (s' : TbStore) × (code' : Code) × (invalidate host idx (s, code) ≡ some (s', code'))
        × IsStore s'
        × ((q f : ℕ)
            → lookup s' q f
              ≡ some (newest (λ j. hits (view s.tbs) q f j && not (j == idx)) (length s.tbs)))
  lookup-invalidate s idx code h wired lt =
      let (s', code', r) = invalidate_some s idx code h wired lt in
      let spared : ℕ → ℕ → ℕ → Bool = λ q f j. hits (view s.tbs) q f j && not (j == idx) in
      (
        s',
        code',
        r.done,
        r.store,
        λ q f.
            lookup-newest s' q f r.store
            ∙ ap (λ (n : ℕ). some (newest (hits (view s'.tbs) q f) n)) r.size
            ∙ ap some (
                newest_congr (hits (view s'.tbs) q f) (spared q f) (length s.tbs)
                  (λ i k. r.same_hits q f i)),
      )

  -- Invalidating a block of the store ends, without a panic. In the host code it patches each jump
  -- of the block's list of incoming edges back to its reset offset, in the order of the list, where the
  -- block that the edge starts at has both offsets, and changes nothing else of it. In the records, no
  -- `jmp_dest` names the block and its own two are empty; every other `jmp_dest` that is not of an edge
  -- in that list is as it was, each that still names a block named it before, and the lists of edges
  -- still have them all.
  pub dest-invalidate :
      (s : TbStore) (idx : ℕ) (code : Code)
      → IsStore s
      → IsWired s.tbs
      → idx < length s.tbs
      → (s' : TbStore) × (code' : Code) × (invalidate host idx (s, code) ≡ some (s', code'))
        × IsWired s'.tbs
        × (code' ≡ restored host s.tbs (incoming s.tbs idx) code)
        × ((j k d : ℕ)
            → dest s'.tbs j k ≡ some d
            → (d ≢ idx) × (j ≢ idx) × (dest s.tbs j k ≡ some d))
        × ((j k : ℕ)
            → j ≢ idx
            → has j k (incoming s.tbs idx) ≡ false
            → dest s'.tbs j k ≡ dest s.tbs j k)
  dest-invalidate s idx code h wired lt =
      let (s', code', r) = invalidate_some s idx code h wired lt in
      let elsewhere : (j k d : ℕ) → dest s'.tbs j k ≡ some d → d ≢ idx = λ j k d e q.
        let (known, out, ne) = r.dests j k d e in
        let member = (wired.back j k d known).2 in
        let there : has j k (incoming s.tbs idx) ≡ true =
          ap (λ (z : ℕ). has j k (incoming s.tbs z)) (sym q) ∙ member in
        absurd (cc) in
      (
        s',
        code',
        r.done,
        record {
          back = λ j k d e.
              let (known, out, ne) = r.dests j k d e in
              let (low, inside, member) = wired.back j k d known in
              (low, rw r.size inside, r.others j k d ne (elsewhere j k d e) ∙ member);
          sources = λ d. rw r.size (r.sources d (wired.sources d));
        },
        r.patched,
        λ j k d e. let (known, out, ne) = r.dests j k d e in (elsewhere j k d e, ne, known),
        r.spared,
      )
