-- ===== src/TbStore/Remove.antt =====
-- exec/src/tb_store.rs: a block that is marked invalid is taken out of its chain.
use tcg_rs.Base.{
  ℕ, ◌<◌, ◌≡◌, ◌≢◌, refl, sym, ap, ◌∙◌, Bool, true, false, not, ◌&&◌, Option, none, some, length,
  get_elem?, get_elem?-lt, ◌==◌, if◌then◌else◌, arith, Bool-cases, inl, inr, Option-cases, ==_refl,
}
use mathlib.Core.Path.{subst}
use tcg_rs.Tb.{TranslationBlock, hash_bucket}
use tcg_rs.TbStore.{TbStore, remove_chained, get}
use tcg_rs.TbStore.Chain.{
  Chain, Chain-frame, down_from, down_from-Below, down_from-elem, down_from_congr, length-Below,
  All-down_from, without-down_from,
}
use tcg_rs.TbStore.View.{
  entry, View, view, next_of, hits, in_bucket, behind, remove_from_absent, remove_from_present,
}
use tcg_rs.TbStore.Relink.{
  relink, relink-Chain, relink_other, behind_in, start, start-behind_none, start-behind_some,
}
use tcg_rs.TbStore.Facts.{next_of-some, view-some, in_bucket_unique}
use tcg_rs.TbStore.Splice.{IsSplice, IsSplice-some, front}
use tcg_rs.TbStore.Links.{dest, incoming}
use tcg_rs.TbStore.Lookup.{IsStore}

-- The chains go through the blocks that are valid in `v`; of these, `idx` is now marked invalid.
pub record IsMarked (v : View) (s : TbStore) (idx : ℕ) (t : TranslationBlock) : Type 0 where
  pub found : get_elem? s.tbs idx ≡ some t
  pub chained :
      (b : ℕ) → Chain (next_of (view s.tbs)) (s.hash b) (down_from (in_bucket v b) (length s.tbs))
  pub buckets : (b j : ℕ) → in_bucket (view s.tbs) b j ≡ (in_bucket v b j && not (j == idx))
  pub home : (b : ℕ) → in_bucket v b idx ≡ true → hash_bucket t.pc t.flags ≡ b

pub record IsRemoved (idx : ℕ) (s s' : TbStore) : Type 0 where
  pub done : remove_chained idx s ≡ some s'
  pub store : IsStore s'
  pub size : length s'.tbs ≡ length s.tbs
  pub same_hits : (q f j : ℕ) → hits (view s'.tbs) q f j ≡ hits (view s.tbs) q f j
  pub same_dest : (j k : ℕ) → dest s'.tbs j k ≡ dest s.tbs j k
  pub same_incoming : (j : ℕ) → incoming s'.tbs j ≡ incoming s.tbs j

and_true : (b : Bool) → (b && true) ≡ b
and_true true = refl
and_true false = refl

module _ (v : View) (s : TbStore) (idx : ℕ) (t : TranslationBlock)
    (marked : IsMarked v s idx t) where
  abbrev here : ℕ
  here = hash_bucket t.pc t.flags

  open marked use {found, chained, buckets, home}

  -- A block that was invalid before is in no chain.
  pub remove_unchained : in_bucket v here idx ≡ false → IsRemoved idx s s
  unfolding remove_chained get
  remove_unchained out =
      let n = length s.tbs in
      let xs = down_from (in_bucket v here) n in
      let lt : idx < n = get_elem?-lt s.tbs idx found in
      let same : (b j : ℕ) → in_bucket (view s.tbs) b j ≡ in_bucket v b j = λ b j.
        buckets b j ∙ elim (Bool-cases (j == idx)) [
          | inl d ↦
              let eq : idx ≡ j = ground arith in
              elim (Bool-cases (in_bucket v b j)) [
                | inl e ↦
                    let k : here ≡ b = home b (ap (in_bucket v b) eq ∙ e) in
                    let r : in_bucket v here idx ≡ true =
                      ap (λ (z : ℕ). in_bucket v z idx) k ∙ ap (in_bucket v b) eq ∙ e in
                    absurd (cc)
                | inr e ↦ rw e refl
              ]
          | inr d ↦ rw d (and_true (in_bucket v b j))
        ] in
      record {
        done = rw found (
            remove_from_absent s here idx xs (s.hash here) none n (chained here)
              (length-Below xs n (down_from-Below (in_bucket v here) n))
              (down_from-elem (in_bucket v here) n idx lt ∙ out));
        store = λ b.
            rw (down_from_congr (in_bucket (view s.tbs) b) (in_bucket v b) n (λ i k. same b i))
              (chained b);
        size = refl;
        same_hits = λ q f j. refl;
        same_dest = λ j k. refl;
        same_incoming = λ j. refl;
      }

  abbrev before : Option ℕ
  before = behind idx none (down_from (in_bucket v here) (length s.tbs))

  module _ (s' : TbStore) (cut : IsSplice s here idx before t.hash_next s')
      (valid : in_bucket v here idx ≡ true) where
    cut_hash :
        (b : ℕ)
        → s'.hash b ≡ (
            if b == here
            then start idx t.hash_next (s.hash here) (down_from (in_bucket v here) (length s.tbs))
            else s.hash b)
    cut_hash b =
        let n = length s.tbs in
        let xs = down_from (in_bucket v here) n in
        let lt : idx < n = get_elem?-lt s.tbs idx found in
        let mem = down_from-elem (in_bucket v here) n idx lt ∙ valid in
        let at : s'.hash b ≡ front here s.hash before t.hash_next b =
          ap (λ (h : ℕ → Option ℕ). h b) cut.hash in
        elim (Option-cases before) [
          | inl e ↦
              let first = start-behind_none idx t.hash_next (s.hash here) xs mem e in
              at ∙ rw (e, first) refl
          | inr (p, e) ↦
              let later = start-behind_some idx t.hash_next (s.hash here) xs p e in
              at
              ∙ rw (e, later)
                  (elim (Bool-cases (b == here)) [
                    | inl d ↦ let same : b ≡ here = ground arith in rw d (ap s.hash same)
                    | inr d ↦ rw d refl
                  ])
        ]

    Chain-here :
        Chain
          (next_of (view s'.tbs))
          (s'.hash here)
          (down_from (in_bucket (view s'.tbs) here) (length s.tbs))
    Chain-here =
        let n = length s.tbs in
        let p = in_bucket v here in
        let xs = down_from p n in
        let next1 = next_of (view s.tbs) in
        let m = t.hash_next in
        let lt : idx < n = get_elem?-lt s.tbs idx found in
        let known = next_of-some (view s.tbs) idx (entry t) (view-some s.tbs idx t found) in
        let base =
          relink-Chain next1 idx m known xs n (s.hash here) none (chained here)
            (down_from-Below p n) (down_from-elem p n idx lt ∙ valid) tt in
        let left : ℕ → Bool = λ i. p i && not (i == idx) in
        let cut_list =
          down_from_congr (in_bucket (view s'.tbs) here) left n
            (λ i k. cut.buckets here i ∙ buckets here i) in
        let first : s'.hash here ≡ start idx m (s.hash here) xs =
          cut_hash here ∙ rw (==_refl here) refl in
        rw (first, cut_list)
          (Chain-frame (relink idx m before next1) (next_of (view s'.tbs)) (down_from left n)
            (start idx m (s.hash here) xs) (All-down_from left n (λ j k e. cut.links j))
            (subst (Chain (relink idx m before next1) (start idx m (s.hash here) xs))
              (without-down_from p idx n) base))

    Chain-there :
        (b : ℕ)
        → here ≢ b
        → Chain
            (next_of (view s'.tbs))
            (s'.hash b)
            (down_from (in_bucket (view s'.tbs) b) (length s.tbs))
    Chain-there b ne =
        let n = length s.tbs in
        let p = in_bucket v b in
        let next1 = next_of (view s.tbs) in
        let off : (j : ℕ) → p j ≡ true → j ≢ idx = λ j e q. ne (home b (ap p (sym q) ∙ e)) in
        let front_off : (j : ℕ) → p j ≡ true → before ≢ some j = λ j e q.
          let k =
            behind_in (λ (i : ℕ). in_bucket v here i ≡ true) idx (down_from (in_bucket v here) n)
              none j (All-down_from (in_bucket v here) n (λ i l d. d))
              (λ (w : none ≡ some j). absurd (cc)) q in
          ne (in_bucket_unique v here b j k e) in
        let cut_list : (j : ℕ) → in_bucket (view s'.tbs) b j ≡ p j = λ j.
          cut.buckets b j ∙ buckets b j ∙ elim (Bool-cases (p j)) [
            | inl e ↦ let d : (j == idx) ≡ false = let q = off j e in ground arith in rw (e, d) refl
            | inr e ↦ rw e refl
          ] in
        let d : (b == here) ≡ false = ground arith in
        let same : s'.hash b ≡ s.hash b = cut_hash b ∙ rw d refl in
        rw (same, down_from_congr (in_bucket (view s'.tbs) b) p n (λ i k. cut_list i))
          (Chain-frame next1 (next_of (view s'.tbs)) (down_from p n) (s.hash b)
            (All-down_from p n (λ j k e.
              cut.links j ∙ relink_other idx t.hash_next before next1 j (off j e) (front_off j e)))
            (chained b))

  pub remove_linked : in_bucket v here idx ≡ true → (s' : TbStore) × IsRemoved idx s s'
  unfolding remove_chained get
  remove_linked valid =
      let n = length s.tbs in
      let xs = down_from (in_bucket v here) n in
      let lt : idx < n = get_elem?-lt s.tbs idx found in
      let known = next_of-some (view s.tbs) idx (entry t) (view-some s.tbs idx t found) in
      let (s', cut) = IsSplice-some s here idx before t.hash_next lt (λ p e.
        behind_in (λ (i : ℕ). i < n) idx xs none p (All-down_from (in_bucket v here) n (λ i l d. l))
          (λ (w : none ≡ some p). absurd (cc)) e) in
      (
        s',
        record {
          done = rw found (
              remove_from_present s here idx t.hash_next xs (s.hash here) none n known
                (chained here) (length-Below xs n (down_from-Below (in_bucket v here) n))
                (down_from-elem (in_bucket v here) n idx lt ∙ valid)
              ∙ cut.done);
          store = λ b. rw cut.size (elim (Bool-cases (here == b)) [
            | inl d ↦
                let eq : here ≡ b = ground arith in
                subst
                  (λ (c : ℕ).
                    Chain (next_of (view s'.tbs)) (s'.hash c)
                      (down_from (in_bucket (view s'.tbs) c) (length s.tbs)))
                  eq (Chain-here s' cut valid)
            | inr d ↦ Chain-there s' cut valid b (λ (e : here ≡ b). absurd (ground arith))
          ]);
          size = cut.size;
          same_hits = cut.same_hits;
          same_dest = cut.same_dest;
          same_incoming = cut.same_incoming;
        },
      )

pub remove_marked :
    (v : View) (s : TbStore) (idx : ℕ) (t : TranslationBlock)
    → IsMarked v s idx t
    → (s' : TbStore) × IsRemoved idx s s'
remove_marked v s idx t marked = elim (Bool-cases (in_bucket v (hash_bucket t.pc t.flags) idx)) [
  | inl e ↦ remove_linked v s idx t marked e
  | inr e ↦ (s, remove_unchained v s idx t marked e)
]
