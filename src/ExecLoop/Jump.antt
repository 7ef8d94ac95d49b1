-- ===== src/ExecLoop/Jump.antt =====
-- exec/src/exec_loop.rs: a jump patched to lead to a block, and the target of an indirect jump kept.
use tcg_rs.Base.{
  ℕ, ◌<◌, ◌≡◌, refl, sym, ap, ◌∙◌, List, [], ◌∷◌, ◌++◌, true, Option, none, some, inl, inr, length,
  get_elem?-of_lt, get_elem?-modify_read, length-modify, modify, All, ◌==◌, if◌then◌else◌, arith,
  Bool-cases, Option-cases, ==_refl,
}
use tcg_rs.Tb.{TranslationBlock, set_slot, exit_target_none}
use tcg_rs.TbStore.{TbStore, get, is_edge}
use tcg_rs.TbStore.Facts.{write-some}
use tcg_rs.TbStore.View.{view}
use tcg_rs.TbStore.Links.{
  dest, incoming, has, IsKept, IsKept-trans, IsKept-write, dest-write, dest-write_keep,
  incoming-write, incoming-write_keep,
}
use tcg_rs.TbStore.Cut.{IsWired}
use tcg_rs.TbStore.Lookup.{Linked-congr}
use tcg_rs.ExecLoop.{Machine, Env, ExecStats, bump, tb_add_jump, jump_to, patch, is_some_of}
use tcg_rs.ExecLoop.Ready.{IsReady, target}

has-append : (i k : ℕ) (es fs : List (ℕ × ℕ)) → has i k es ≡ true → has i k (es ++ fs) ≡ true
has-append i k [] fs h = absurd (cc)
has-append i k (e ∷ es) fs h = elim (Bool-cases (is_edge i k e)) [
  | inl d ↦ rw d refl
  | inr d ↦
      let r : has i k (e ∷ es) ≡ has i k es = rw d refl in rw d (has-append i k es fs (sym r ∙ h))
]

has_last : (i k : ℕ) (es : List (ℕ × ℕ)) → has i k (es ++ (i, k) ∷ []) ≡ true
has_last i k [] = rw (==_refl i, ==_refl k) refl
has_last i k (e ∷ es) =
    let ih = has_last i k es in
    elim (Bool-cases (is_edge i k e)) [ inl d ↦ rw d refl | inr d ↦ rw d ih ]

All-last :
    (P : ℕ × ℕ → Type 0) (es : List (ℕ × ℕ)) (e : ℕ × ℕ) → All P es → P e → All P (es ++ e ∷ [])
All-last P [] e a h = (h, tt)
All-last P (x ∷ es) e (k, a) h = (k, All-last P es e a h)

target-write_keep :
    (tbs : List TranslationBlock) (i j : ℕ) (f : TranslationBlock → TranslationBlock)
    → ((t : TranslationBlock) → (f t).exit_target ≡ t.exit_target)
    → target (modify tbs i f) j ≡ target tbs j
unfolding target
target-write_keep tbs i j f h =
    get_elem?-modify_read
      (λ (o : Option TranslationBlock). elim o [ none ↦ exit_target_none | some t ↦ t.exit_target ])
      tbs i j f h

abbrev lead : ℕ → ℕ → TranslationBlock → TranslationBlock
lead slot dst t = record t {
  jmp = record t.jmp { jmp_dest = set_slot t.jmp.jmp_dest slot (some dst) };
}

abbrev add_edge : ℕ → ℕ → TranslationBlock → TranslationBlock
add_edge src slot t = record t {
  jmp = record t.jmp { jmp_list = t.jmp.jmp_list ++ (src, slot) ∷ [] };
}

module _ (s : TbStore) (src slot dst : ℕ) (h : src < length s.tbs) (k : dst < length s.tbs) where
  abbrev tbs1 : List TranslationBlock
  tbs1 = modify s.tbs src (lead slot dst)

  abbrev pub joined : TbStore
  joined = record s { tbs = modify tbs1 dst (add_edge src slot) }

  inside1 : dst < length tbs1
  inside1 = omega (arith, k, length-modify s.tbs src (lead slot dst))

  pub IsKept-joined : IsKept s joined
  IsKept-joined =
      let s1 : TbStore = record s { tbs = tbs1 } in
      IsKept-trans s s1 joined (IsKept-write s src (lead slot dst) h (λ u. refl))
        (IsKept-write s1 dst (add_edge src slot) inside1 (λ u. refl))

  dest-joined :
      (i c : ℕ)
      → dest joined.tbs i c
        ≡ (if i == src then set_slot (dest s.tbs src) slot (some dst) c else dest s.tbs i c)
  dest-joined i c =
      let s1 : TbStore = record s { tbs = tbs1 } in
      dest-write_keep s1 dst (add_edge src slot) inside1 (λ u. refl) i c
      ∙ dest-write s src (lead slot dst) h (λ g. set_slot g slot (some dst)) (λ u x. refl) i c

  incoming-joined :
      (d : ℕ)
      → incoming joined.tbs d
        ≡ (if d == dst then incoming s.tbs dst ++ (src, slot) ∷ [] else incoming s.tbs d)
  incoming-joined d =
      let s1 : TbStore = record s { tbs = tbs1 } in
      let keep = incoming-write_keep s src (lead slot dst) h (λ u. refl) in
      incoming-write s1 dst (add_edge src slot) inside1 (λ l. l ++ (src, slot) ∷ []) (λ u. refl) d
      ∙ rw (keep dst, keep d) refl

  has-joined :
      (i c d : ℕ) → has i c (incoming s.tbs d) ≡ true → has i c (incoming joined.tbs d) ≡ true
  has-joined i c d e = rw (incoming-joined d) (elim (Bool-cases (d == dst)) [
    | inl q ↦
        let same : d ≡ dst = ground arith in
        rw q (
          has-append i c (incoming s.tbs dst) ((src, slot) ∷ [])
            (ap (λ (z : ℕ). has i c (incoming s.tbs z)) (sym same) ∙ e))
    | inr q ↦ rw q e
  ])

  new_edge : has src slot (incoming joined.tbs dst) ≡ true
  new_edge = rw (incoming-joined dst, ==_refl dst) (has_last src slot (incoming s.tbs dst))

  old_edge :
      (i c d : ℕ)
      → IsWired s.tbs
      → dest s.tbs i c ≡ some d
      → (c < 2) × (d < length joined.tbs) × (has i c (incoming joined.tbs d) ≡ true)
  old_edge i c d wired e =
      let (low, inside, member) = wired.back i c d e in
      (low, rw IsKept-joined.size inside, has-joined i c d member)

  back-joined :
      slot < 2
      → IsWired s.tbs
      → (i c d : ℕ) → dest joined.tbs i c ≡ some d
      → (c < 2) × (d < length joined.tbs) × (has i c (incoming joined.tbs d) ≡ true)
  back-joined low wired i c d e = elim (Bool-cases (i == src)) [
    | inr q ↦ old_edge i c d wired (sym (dest-joined i c ∙ rw q refl) ∙ e)
    | inl q ↦
        let same : i ≡ src = ground arith in
        let r : dest joined.tbs i c ≡ set_slot (dest s.tbs src) slot (some dst) c =
          dest-joined i c ∙ rw q refl in
        elim (Bool-cases (c == slot)) [
          | inr p ↦
              let w : dest s.tbs src c ≡ some d = sym (r ∙ rw p refl) ∙ e in
              old_edge i c d wired (ap (λ (z : ℕ). dest s.tbs z c) same ∙ w)
          | inl p ↦
              let slots : c ≡ slot = ground arith in
              let w : some dst ≡ some d = sym (r ∙ rw p refl) ∙ e in
              let ends : d ≡ dst = cc in
              (
                omega (arith, slots),
                rw (IsKept-joined.size, ends) k,
                rw (same, slots, ends) new_edge,
              )
        ]
  ]

  pub IsWired-joined : slot < 2 → IsWired s.tbs → IsWired joined.tbs
  IsWired-joined low wired = record {
    back = back-joined low wired;
    sources = λ d.
        rw (incoming-joined d, IsKept-joined.size)
          (elim (Bool-cases (d == dst)) [
            | inl q ↦ rw q (
                All-last (λ e. e.0 < length s.tbs) (incoming s.tbs dst) (src, slot)
                  (wired.sources dst) h)
            | inr q ↦ rw q (wired.sources d)
          ]);
  }

module _ (m : Machine) where
  -- The state after a jump is patched, or left as it was.
  pub record IsJumped (e e' : Env m) : Type 0 where
    pub ready : IsReady m e'
    pub kept : IsKept e.store e'.store
    pub cpu : e'.cpu ≡ e.cpu

  stay : (e : Env m) (stats : ExecStats) → IsReady m e → IsJumped e (record e { stats = stats })
  stay e stats ready = record {
    ready = record { store = ready.store; closed = ready.closed };
    kept = record { size = refl; hash = refl; views = λ j. refl };
    cpu = refl;
  }

  patch-some :
      (e : Env m) (src slot dst jmp_off abs_dst : ℕ)
      → IsReady m e
      → src < length e.store.tbs
      → dst < length e.store.tbs
      → slot < 2
      → (e' : Env m) × (patch m e src slot dst jmp_off abs_dst ≡ some e') × IsJumped e e'
  unfolding patch
  patch-some e src slot dst jmp_off abs_dst ready h k low =
      let s1 : TbStore = record e.store { tbs = tbs1 e.store src slot dst h k } in
      let s2 = joined e.store src slot dst h k in
      let kept = IsKept-joined e.store src slot dst h k in
      let inside = inside1 e.store src slot dst h k in
      let same_target : (i : ℕ) → target s2.tbs i ≡ target e.store.tbs i = λ i.
        target-write_keep s1.tbs dst i (add_edge src slot) (λ u. refl)
        ∙ target-write_keep e.store.tbs src i (lead slot dst) (λ u. refl) in
      let stats = record e.stats { chain_patched = bump e.stats.chain_patched } in
      (
        record e { store = s2; code = m.patch_jump e.code jmp_off abs_dst; stats = stats },
        rw (write-some e.store src (lead slot dst) h, write-some s1 dst (add_edge src slot) inside)
            refl,
        record {
          ready = record {
            store = rw kept.size (
                Linked-congr (view e.store.tbs) (view s2.tbs) e.store.hash (length e.store.tbs)
                  (λ i c. kept.views i) ready.store);
            closed = record {
              wired = IsWired-joined e.store src slot dst h k low ready.closed.wired;
              targets = λ i. rw (same_target i, kept.size) (ready.closed.targets i);
              cached = λ a i w. rw kept.size (ready.closed.cached a i w);
            };
          };
          kept = kept;
          cpu = refl;
        },
      )

  pub tb_add_jump-some :
      (e : Env m) (src slot dst : ℕ)
      → IsReady m e
      → src < length e.store.tbs
      → dst < length e.store.tbs
      → slot < 2
      → (e' : Env m) × (tb_add_jump m e src slot dst ≡ some e') × IsJumped e e'
  unfolding tb_add_jump jump_to get
  tb_add_jump-some e src slot dst ready h k low =
      let (t, found) = get_elem?-of_lt e.store.tbs src h in
      let (u, found') = get_elem?-of_lt e.store.tbs dst k in
      elim (Option-cases (t.jmp_insn_offset slot)) [
        | inl o ↦ (e, rw (found, o) refl, stay e e.stats ready)
        | inr (off, o) ↦ elim (Bool-cases u.invalid) [
          | inl v ↦ (e, rw (found, o, found', v) refl, stay e e.stats ready)
          | inr v ↦ elim (Bool-cases (is_some_of dst (t.jmp.jmp_dest slot))) [
            | inl w ↦
                let stats = record e.stats { chain_already = bump e.stats.chain_already } in
                (record e { stats = stats }, rw (found, o, found', v, w) refl, stay e stats ready)
            | inr w ↦
                let (e', done, jumped) =
                  patch-some e src slot dst off u.host_offset ready h k low in
                (e', rw (found, o, found', v, w) done, jumped)
          ]
        ]
      ]
