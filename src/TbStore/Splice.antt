-- ===== src/TbStore/Splice.antt =====
-- exec/src/tb_store.rs: the writes that take a block out of its chain.
use tcg_rs.Base.{
  ℕ, ◌<◌, ◌≡◌, refl, sym, ap, ◌∙◌, Option, none, some, length, length-modify, modify, ◌==◌, arith,
  Bool-cases, inl, inr,
}
use tcg_rs.TbStore.{TbStore, splice, set_bucket}
use tcg_rs.TbStore.View.{view, next_of, hits, in_bucket}
use tcg_rs.TbStore.Relink.{relink}
use tcg_rs.TbStore.Facts.{
  write-some, link, hits-link, in_bucket-link, next_of-link_self, next_of-link_ne,
}
use tcg_rs.TbStore.Links.{dest, incoming, dest-write_keep, incoming-write_keep}

abbrev pub front : ℕ → (ℕ → Option ℕ) → Option ℕ → Option ℕ → ℕ → Option ℕ
front b hash none m = set_bucket hash b m
front b hash (some p) m = hash

-- What taking out `idx` does, when `prev` is in front of it and `m` behind it.
pub record IsSplice (s : TbStore) (b idx : ℕ) (prev m : Option ℕ) (s' : TbStore) : Type 0 where
  pub done : splice b idx prev m s ≡ some s'
  pub hash : s'.hash ≡ front b s.hash prev m
  pub size : length s'.tbs ≡ length s.tbs
  pub links : (j : ℕ) → next_of (view s'.tbs) j ≡ relink idx m prev (next_of (view s.tbs)) j
  pub buckets : (c j : ℕ) → in_bucket (view s'.tbs) c j ≡ in_bucket (view s.tbs) c j
  pub same_hits : (q f j : ℕ) → hits (view s'.tbs) q f j ≡ hits (view s.tbs) q f j
  pub same_dest : (j k : ℕ) → dest s'.tbs j k ≡ dest s.tbs j k
  pub same_incoming : (j : ℕ) → incoming s'.tbs j ≡ incoming s.tbs j

IsSplice-first :
    (s : TbStore) (b idx : ℕ) (m : Option ℕ)
    → idx < length s.tbs
    → (s' : TbStore) × IsSplice s b idx none m s'
unfolding splice
IsSplice-first s b idx m h =
    let s1 : TbStore = record s { hash = set_bucket s.hash b m } in
    let tbs' = modify s.tbs idx (link none) in
    (
      record { tbs = tbs'; hash = set_bucket s.hash b m },
      record {
        done = write-some s1 idx (link none) h;
        hash = refl;
        size = length-modify s.tbs idx (link none);
        links = λ j. elim (Bool-cases (j == idx)) [
          | inl d ↦
              let same : idx ≡ j = ground arith in
              rw d (ap (next_of (view tbs')) (sym same) ∙ next_of-link_self s.tbs idx none h)
          | inr d ↦ rw d (next_of-link_ne s.tbs idx none j (λ (e : j ≡ idx). absurd (ground arith)))
        ];
        buckets = λ c j. in_bucket-link s.tbs idx none c j;
        same_hits = λ q f j. hits-link s.tbs idx none q f j;
        same_dest = λ j k. dest-write_keep s idx (link none) h (λ u. refl) j k;
        same_incoming = λ j. incoming-write_keep s idx (link none) h (λ u. refl) j;
      },
    )

IsSplice-later :
    (s : TbStore) (b idx p : ℕ) (m : Option ℕ)
    → idx < length s.tbs
    → p < length s.tbs
    → (s' : TbStore) × IsSplice s b idx (some p) m s'
unfolding splice
IsSplice-later s b idx p m h k =
    let tbs1 = modify s.tbs p (link m) in
    let len1 = length-modify s.tbs p (link m) in
    let h' : idx < length tbs1 = omega (arith, len1) in
    let s1 : TbStore = record s { tbs = tbs1 } in
    let tbs' = modify tbs1 idx (link none) in
    (
      record { tbs = tbs'; hash = s.hash },
      record {
        done = rw (write-some s p (link m) k) (write-some s1 idx (link none) h');
        hash = refl;
        size = length-modify tbs1 idx (link none) ∙ len1;
        links = λ j. elim (Bool-cases (j == idx)) [
          | inl d ↦
              let same : idx ≡ j = ground arith in
              rw d (ap (next_of (view tbs')) (sym same) ∙ next_of-link_self tbs1 idx none h')
          | inr d ↦ rw d (
              next_of-link_ne tbs1 idx none j (λ (e : j ≡ idx). absurd (ground arith))
              ∙ elim (Bool-cases (j == p)) [
                | inl c ↦
                    let same : p ≡ j = ground arith in
                    rw c (ap (next_of (view tbs1)) (sym same) ∙ next_of-link_self s.tbs p m k)
                | inr c ↦ rw c (next_of-link_ne s.tbs p m j (λ (e : j ≡ p). absurd (ground arith)))
              ])
        ];
        buckets = λ c j. in_bucket-link tbs1 idx none c j ∙ in_bucket-link s.tbs p m c j;
        same_hits = λ q f j. hits-link tbs1 idx none q f j ∙ hits-link s.tbs p m q f j;
        same_dest = λ j c.
            dest-write_keep s1 idx (link none) h' (λ u. refl) j c
            ∙ dest-write_keep s p (link m) k (λ u. refl) j c;
        same_incoming = λ j.
            incoming-write_keep s1 idx (link none) h' (λ u. refl) j
            ∙ incoming-write_keep s p (link m) k (λ u. refl) j;
      },
    )

pub IsSplice-some :
    (s : TbStore) (b idx : ℕ) (prev m : Option ℕ)
    → idx < length s.tbs
    → ((p : ℕ) → prev ≡ some p → p < length s.tbs)
    → (s' : TbStore) × IsSplice s b idx prev m s'
IsSplice-some s b idx none m h k = IsSplice-first s b idx m h
IsSplice-some s b idx (some p) m h k = IsSplice-later s b idx p m h (k p refl)
