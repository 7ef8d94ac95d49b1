-- ===== src/TbStore/Unlink.antt =====
-- exec/src/tb_store.rs: the loops over the edges of a block.
use tcg_rs.Base.{
  ℕ, ◌<◌, ◌≡◌, ◌≢◌, refl, ap, ◌∙◌, List, [], ◌∷◌, true, false, not, Option, none, some, length,
  modify, get_elem?-of_lt, filter, All, ◌==◌, if◌then◌else◌, arith, Bool-cases, inl, inr,
}
use mathlib.Core.Path.{subst}
use tcg_rs.Tb.{set_slot}
use tcg_rs.TbStore.{
  TbStore, Host, get, clear_dest, drop_edge, is_edge, unlink_incoming, unlink_outgoing, reset_jump,
}
use tcg_rs.TbStore.Facts.{write-some}
use tcg_rs.TbStore.Patches.{HasSameResets-modify, restored, restored_congr, reset_jump-patch}
use tcg_rs.TbStore.Links.{
  dest, incoming, has, IsKept, IsKept-trans, IsKept-write, dest-write, incoming-write_keep,
  dest-write_keep, incoming-write,
}

-- Every edge in the list is gone from the block that it starts at.
pub record IsUnlinked (edges : List (ℕ × ℕ)) (s s' : TbStore) : Type 0 where
  pub kept : IsKept s s'
  pub dests :
      (j slot : ℕ) → dest s'.tbs j slot ≡ (if has j slot edges then none else dest s.tbs j slot)
  pub lists : (j : ℕ) → incoming s'.tbs j ≡ incoming s.tbs j

first_cleared :
    (src slot j k : ℕ) (here there : Option ℕ)
    → (src ≡ j → slot ≢ k → here ≡ there)
    → (if j == src then (if k == slot then none else here) else there)
      ≡ (if is_edge j k (src, slot) then none else there)
first_cleared src slot j k here there h = elim (Bool-cases (src == j)) [
  | inl d ↦
      let back : (j == src) ≡ true = ground arith in
      elim (Bool-cases (slot == k)) [
        | inl c ↦ let back' : (k == slot) ≡ true = ground arith in rw (d, back, c, back') refl
        | inr c ↦
            let back' : (k == slot) ≡ false = ground arith in
            rw (d, back, c, back') (h (ground arith) (λ (e : slot ≡ k). absurd (ground arith)))
      ]
  | inr d ↦ let back : (j == src) ≡ false = ground arith in rw (d, back) refl
]

module _ (host : Host) where
  open host use {Code}

  pub unlink_incoming-some :
      (edges : List (ℕ × ℕ)) (s : TbStore) (code : Code)
      → All (λ e. e.0 < length s.tbs) edges
      → (s' : TbStore) × (code' : Code) × (unlink_incoming host edges (s, code) ≡ some (s', code'))
        × IsUnlinked edges s s'
        × (code' ≡ restored host s.tbs edges code)
  unfolding unlink_incoming get restored
  unlink_incoming-some [] s code a = (
    s,
    code,
    refl,
    record {
      kept = record { size = refl; hash = refl; views = λ j. refl };
      dests = λ j slot. refl;
      lists = λ j. refl;
    },
    refl,
  )
  unlink_incoming-some ((src, slot) ∷ edges) s code (h, a) =
      let f = clear_dest slot in
      let (t, found) = get_elem?-of_lt s.tbs src h in
      let s1 : TbStore = record s { tbs = modify s.tbs src f } in
      let kept = IsKept-write s src f h (λ u. refl) in
      let a1 : All (λ e. e.0 < length s1.tbs) edges = rw kept.size a in
      let (s', code', e, rest, back) =
        unlink_incoming-some edges s1 (reset_jump host t slot code) a1 in
      let cleared = dest-write s src f h (λ g. set_slot g slot none) (λ u k. refl) in
      (
        s',
        code',
        rw (found, write-some s src f h) e,
        record {
          kept = IsKept-trans s s1 s' kept rest.kept;
          dests = λ j k. rest.dests j k ∙ elim (Bool-cases (has j k edges)) [
            | inl d ↦ rw d (elim (Bool-cases (is_edge j k (src, slot))) [
              | inl c ↦ rw c refl
              | inr c ↦ rw c refl
            ])
            | inr d ↦ rw d (
                cleared j k
                ∙ first_cleared src slot j k (dest s.tbs src k) (dest s.tbs j k)
                    (λ q ne. ap (λ (z : ℕ). dest s.tbs z k) q)
                ∙ elim (Bool-cases (is_edge j k (src, slot))) [
                  | inl c ↦ rw c refl
                  | inr c ↦ rw c refl
                ])
          ];
          lists = λ j. rest.lists j ∙ incoming-write_keep s src f h (λ u. refl) j;
        },
        back
            ∙ restored_congr host s.tbs s1.tbs
                (HasSameResets-modify s.tbs src f (λ u. refl) (λ u. refl)) edges
                (reset_jump host t slot code)
            ∙ ap (restored host s.tbs edges) (reset_jump-patch host s.tbs src slot t code found),
      )

-- An edge of `idx` is gone from the list of the block it leads to; the others are kept.
pub record IsDropped (idx : ℕ) (s s' : TbStore) : Type 0 where
  pub kept : IsKept s s'
  pub dests : (j slot : ℕ) → dest s'.tbs j slot ≡ dest s.tbs j slot
  pub others :
      (j slot d : ℕ) → j ≢ idx → has j slot (incoming s'.tbs d) ≡ has j slot (incoming s.tbs d)
  pub sources :
      (n d : ℕ) → All (λ e. e.0 < n) (incoming s.tbs d) → All (λ e. e.0 < n) (incoming s'.tbs d)

abbrev keep : ℕ → ℕ → List (ℕ × ℕ) → List (ℕ × ℕ)
keep idx slot = filter (λ e. not (is_edge idx slot e))

has-keep :
    (idx slot j k : ℕ) (es : List (ℕ × ℕ)) → j ≢ idx → has j k (keep idx slot es) ≡ has j k es
has-keep idx slot j k [] ne = refl
has-keep idx slot j k (e ∷ es) ne =
    let ih = has-keep idx slot j k es ne in
    elim (Bool-cases (is_edge idx slot e)) [
      | inl d ↦ let off : is_edge j k e ≡ false = ground arith in rw (d, off) ih
      | inr d ↦ rw (d, ih) refl
    ]

All-keep :
    (P : ℕ × ℕ → Type 0) (idx slot : ℕ) (es : List (ℕ × ℕ)) → All P es → All P (keep idx slot es)
All-keep P idx slot [] a = tt
All-keep P idx slot (e ∷ es) (h, a) =
    let ih = All-keep P idx slot es a in
    elim (Bool-cases (is_edge idx slot e)) [ inl d ↦ rw d ih | inr d ↦ rw d (h, ih) ]

pub unlink_outgoing-some :
    (idx slot : ℕ) (o : Option ℕ) (s : TbStore)
    → ((d : ℕ) → o ≡ some d → d < length s.tbs)
    → (s' : TbStore) × (unlink_outgoing idx slot o s ≡ some s') × IsDropped idx s s'
unfolding unlink_outgoing
unlink_outgoing-some idx slot none s h = (
  s,
  refl,
  record {
    kept = record { size = refl; hash = refl; views = λ j. refl };
    dests = λ j k. refl;
    others = λ j k d ne. refl;
    sources = λ n d a. a;
  },
)
unlink_outgoing-some idx slot (some dst) s h =
    let f = drop_edge idx slot in
    let lt = h dst refl in
    let lists = incoming-write s dst f lt (keep idx slot) (λ u. refl) in
    (
      record s { tbs = modify s.tbs dst f },
      write-some s dst f lt,
      record {
        kept = IsKept-write s dst f lt (λ u. refl);
        dests = dest-write_keep s dst f lt (λ u. refl);
        others = λ j k d ne. rw (lists d) (elim (Bool-cases (d == dst)) [
          | inl c ↦
              let same : dst ≡ d = ground arith in
              rw c (
                has-keep idx slot j k (incoming s.tbs dst) ne
                ∙ ap (λ (z : ℕ). has j k (incoming s.tbs z)) same)
          | inr c ↦ rw c refl
        ]);
        sources = λ n d a. rw (lists d) (elim (Bool-cases (d == dst)) [
          | inl c ↦
              let same : d ≡ dst = ground arith in
              rw c (
                All-keep (λ e. e.0 < n) idx slot (incoming s.tbs dst)
                  (subst (λ (z : ℕ). All (λ e. e.0 < n) (incoming s.tbs z)) same a))
          | inr c ↦ rw c a
        ]);
      },
    )
