-- ===== src/TbStore/Cut.antt =====
-- exec/src/tb_store.rs: the edges of a block cut, from it and to it.
use tcg_rs.Base.{
  ℕ, zero, suc, ◌<◌, ◌≤◌, ◌≡◌, ◌≢◌, refl, sym, ap, ◌∙◌, List, [], true, false, Option, none, some,
  length, modify, get_elem?-of_lt, All, ◌==◌, if◌then◌else◌, arith, Bool-cases, inl, inr,
}
use tcg_rs.Tb.{TranslationBlock, set_slot}
use tcg_rs.TbStore.{TbStore, Host, get, take_list, take_dests, unlink_edges}
use tcg_rs.TbStore.Facts.{write-some}
use tcg_rs.TbStore.Patches.{HasSameResets-modify, restored, restored_congr}
use tcg_rs.TbStore.Links.{
  dest, incoming, has, IsKept, IsKept-trans, IsKept-write, dest-write, incoming-write_keep,
  dest-write_keep, incoming-write, dest-some, incoming-some,
}
use tcg_rs.TbStore.Unlink.{IsUnlinked, IsDropped, unlink_incoming-some, unlink_outgoing-some}

-- An edge recorded in `jmp_dest` is in the list of the block it leads to, and a list names blocks of
-- the store.
pub record IsWired (tbs : List TranslationBlock) : Type 0 where
  pub back :
      (i slot d : ℕ)
      → dest tbs i slot ≡ some d
      → (slot < 2) × (d < length tbs) × (has i slot (incoming tbs d) ≡ true)
  pub sources : (d : ℕ) → All (λ e. e.0 < length tbs) (incoming tbs d)

-- No edge is recorded that leads to `idx` or from it, and the others are as they were.
pub record IsCutOff (idx : ℕ) (s s' : TbStore) : Type 0 where
  pub kept : IsKept s s'
  pub spared :
      (j slot : ℕ)
      → j ≢ idx
      → has j slot (incoming s.tbs idx) ≡ false
      → dest s'.tbs j slot ≡ dest s.tbs j slot
  pub dests :
      (j slot d : ℕ)
      → dest s'.tbs j slot ≡ some d
      → (dest s.tbs j slot ≡ some d) × (has j slot (incoming s.tbs idx) ≡ false) × (j ≢ idx)
  pub others :
      (j slot d : ℕ)
      → j ≢ idx
      → d ≢ idx
      → has j slot (incoming s'.tbs d) ≡ has j slot (incoming s.tbs d)
  pub sources :
      (n d : ℕ) → All (λ e. e.0 < n) (incoming s.tbs d) → All (λ e. e.0 < n) (incoming s'.tbs d)

abbrev cleared : (ℕ → Option ℕ) → ℕ → Option ℕ
cleared g = set_slot (set_slot g 0 none) 1 none

cleared-some : (g : ℕ → Option ℕ) (k d : ℕ) → cleared g k ≡ some d → (g k ≡ some d) × (2 ≤ k)
cleared-some g zero d e = absurd (cc)
cleared-some g (suc zero) d e = absurd (cc)
cleared-some g (suc (suc k)) d e =
    let c0 : (suc (suc k) == 0) ≡ false = ground arith in
    let c1 : (suc (suc k) == 1) ≡ false = ground arith in
    let r : cleared g (suc (suc k)) ≡ g (suc (suc k)) = rw (c0, c1) refl in (sym r ∙ e, omega arith)

-- The edges to `idx` are gone.
record IsFreed (idx : ℕ) (s s' : TbStore) : Type 0 where
  pub kept : IsKept s s'
  pub spared :
      (j slot : ℕ)
      → has j slot (incoming s.tbs idx) ≡ false
      → dest s'.tbs j slot ≡ dest s.tbs j slot
  pub dests :
      (j slot d : ℕ)
      → dest s'.tbs j slot ≡ some d
      → (dest s.tbs j slot ≡ some d) × (has j slot (incoming s.tbs idx) ≡ false)
  pub lists : (d : ℕ) → incoming s'.tbs d ≡ (if d == idx then [] else incoming s.tbs d)

freed :
    (s s1 s2 : TbStore) (idx : ℕ)
    → IsKept s s1
    → ((j k : ℕ) → dest s1.tbs j k ≡ dest s.tbs j k)
    → ((d : ℕ) → incoming s1.tbs d ≡ (if d == idx then [] else incoming s.tbs d))
    → IsUnlinked (incoming s.tbs idx) s1 s2
    → IsFreed idx s s2
freed s s1 s2 idx kept dest1 list1 un = record {
  kept = IsKept-trans s s1 s2 kept un.kept;
  spared = λ j k h. un.dests j k ∙ rw h (dest1 j k);
  dests = λ j k d e.
      let edges = incoming s.tbs idx in
      elim (Bool-cases (has j k edges)) [
        | inl h ↦ let r : dest s2.tbs j k ≡ none = un.dests j k ∙ rw h refl in absurd (cc)
        | inr h ↦
            let r : dest s2.tbs j k ≡ dest s.tbs j k = un.dests j k ∙ rw h (dest1 j k) in
            (sym r ∙ e, h)
      ];
  lists = λ d. un.lists d ∙ list1 d;
}

cut_off :
    (s s2 s3 s4 s5 : TbStore) (idx : ℕ)
    → IsWired s.tbs
    → IsFreed idx s s2
    → IsKept s2 s3
    → ((j k : ℕ)
        → dest s3.tbs j k ≡ (if j == idx then cleared (dest s2.tbs idx) k else dest s2.tbs j k))
    → ((d : ℕ) → incoming s3.tbs d ≡ incoming s2.tbs d)
    → IsDropped idx s3 s4
    → IsDropped idx s4 s5
    → IsCutOff idx s s5
cut_off s s2 s3 s4 s5 idx wired free kept dest3 list3 drop4 drop5 = record {
  kept =
      IsKept-trans s s2 s5 free.kept
        (IsKept-trans s2 s3 s5 kept (IsKept-trans s3 s4 s5 drop4.kept drop5.kept));
  spared = λ j k ne h.
      let off : (j == idx) ≡ false = ground arith in
      drop5.dests j k ∙ drop4.dests j k ∙ dest3 j k ∙ rw off (free.spared j k h);
  dests = λ j k d e.
      let e3 : dest s3.tbs j k ≡ some d = sym (drop5.dests j k ∙ drop4.dests j k) ∙ e in
      elim (Bool-cases (j == idx)) [
        | inl q ↦
            let r : dest s3.tbs j k ≡ cleared (dest s2.tbs idx) k = dest3 j k ∙ rw q refl in
            let (known, high) = cleared-some (dest s2.tbs idx) k d (sym r ∙ e3) in
            let low = (wired.back idx k d (free.dests idx k d known).0).0 in absurd (omega arith)
        | inr q ↦
            let r : dest s3.tbs j k ≡ dest s2.tbs j k = dest3 j k ∙ rw q refl in
            let (was, gone) = free.dests j k d (sym r ∙ e3) in
            (was, gone, λ (same : j ≡ idx). absurd (ground arith))
      ];
  others = λ j k d ne off.
      let q : (d == idx) ≡ false = ground arith in
      drop5.others j k d ne
      ∙ drop4.others j k d ne
      ∙ ap (has j k) (list3 d ∙ free.lists d ∙ rw q refl);
  sources = λ n d a.
      let list : incoming s3.tbs d ≡ (if d == idx then [] else incoming s.tbs d) =
        list3 d ∙ free.lists d in
      drop5.sources n d (
        drop4.sources n d
          (rw list (elim (Bool-cases (d == idx)) [ inl q ↦ rw q tt | inr q ↦ rw q a ])));
}

module _ (host : Host) where
  open host use {Code}

  pub unlink_edges-some :
      (s : TbStore) (idx : ℕ) (code : Code)
      → IsWired s.tbs
      → idx < length s.tbs
      → (s' : TbStore) × (code' : Code) × (unlink_edges host idx (s, code) ≡ some (s', code'))
        × IsCutOff idx s s'
        × (code' ≡ restored host s.tbs (incoming s.tbs idx) code)
  unfolding unlink_edges get
  unlink_edges-some s idx code wired h =
      let (t, found) = get_elem?-of_lt s.tbs idx h in
      let known = incoming-some s.tbs idx t found in
      let s1 : TbStore = record s { tbs = modify s.tbs idx take_list } in
      let kept1 = IsKept-write s idx take_list h (λ u. refl) in
      let a1 : All (λ e. e.0 < length s1.tbs) (incoming s.tbs idx) =
        rw kept1.size (wired.sources idx) in
      let (s2, code', e2, un, back) = unlink_incoming-some host (incoming s.tbs idx) s1 code a1 in
      let free : IsFreed idx s s2 =
        freed s s1 s2 idx kept1 (dest-write_keep s idx take_list h (λ u. refl))
          (incoming-write s idx take_list h (λ l. []) (λ u. refl)) un in
      let h2 : idx < length s2.tbs = rw free.kept.size h in
      let (t2, found2) = get_elem?-of_lt s2.tbs idx h2 in
      let s3 : TbStore = record s2 { tbs = modify s2.tbs idx take_dests } in
      let kept3 = IsKept-write s2 idx take_dests h2 (λ u. refl) in
      let in3 : (k d : ℕ) → t2.jmp.jmp_dest k ≡ some d → d < length s3.tbs = λ k d e.
        let was = (free.dests idx k d (dest-some s2.tbs idx k t2 found2 ∙ e)).0 in
        rw (kept3.size, free.kept.size) (wired.back idx k d was).1 in
      let (s4, e4, drop4) = unlink_outgoing-some idx 0 (t2.jmp.jmp_dest 0) s3 (in3 0) in
      let in4 : (d : ℕ) → t2.jmp.jmp_dest 1 ≡ some d → d < length s4.tbs =
        λ d e. rw drop4.kept.size (in3 1 d e) in
      let (s5, e5, drop5) = unlink_outgoing-some idx 1 (t2.jmp.jmp_dest 1) s4 in4 in
      (
        s5,
        code',
        rw
            (
              found,
              write-some s idx take_list h,
              sym known,
              e2,
              found2,
              write-some s2 idx take_dests h2,
              e4,
              e5,
            )
            refl,
        cut_off s s2 s3 s4 s5 idx wired free kept3
            (dest-write s2 idx take_dests h2 cleared (λ u k. refl))
            (incoming-write_keep s2 idx take_dests h2 (λ u. refl)) drop4 drop5,
        back
            ∙ restored_congr host s.tbs s1.tbs
                (HasSameResets-modify s.tbs idx take_list (λ u. refl) (λ u. refl))
                (incoming s.tbs idx) code,
      )
