-- ===== src/ExecLoop/Ready.antt =====
-- exec/src/exec_loop.rs: the invariant of the loop's state, and the writes that keep it.
use tcg_rs.Base.{
  ℕ, ◌<◌, ◌≤◌, ◌≡◌, refl, sym, ap, ◌∙◌, List, [], ◌∷◌, ◌++◌, Option, none, some, ◌⊎◌, inl, inr,
  length, get_elem?, get_elem?-append_read, get_elem?-modify_read_at, length-modify, modify, All,
  arith, Bool-cases, ◌==◌,
}
use tcg_rs.Tb.{
  TranslationBlock, TbJmpState, JumpCache, exit_target_none, new_block, cache_insert, cache_index,
}
use tcg_rs.TbStore.{TbStore}
use tcg_rs.TbStore.View.{view, entry}
use tcg_rs.TbStore.Links.{dest, incoming, IsKept, IsKept-trans}
use tcg_rs.TbStore.Cut.{IsWired}
use tcg_rs.TbStore.Lookup.{IsStore}
use tcg_rs.ExecLoop.{Machine, Env}

-- The block that an indirect jump went to last.
unfoldable pub target : List TranslationBlock → ℕ → ℕ
target tbs i = elim (get_elem? tbs i) [ none ↦ exit_target_none | some t ↦ t.exit_target ]

-- Every block number that the blocks or a jump cache hold is one of the store.
pub record IsClosed (tbs : List TranslationBlock) (cache : JumpCache) : Type 0 where
  pub wired : IsWired tbs
  pub targets : (i : ℕ) → (target tbs i ≡ exit_target_none) ⊎ (target tbs i < length tbs)
  pub cached : (k i : ℕ) → cache k ≡ some i → i < length tbs

pub record IsReady (m : Machine) (e : Env m) : Type 0 where
  pub store : IsStore e.store
  pub closed : IsClosed e.store.tbs e.jump_cache

-- The same edges, in a store that may be longer.
pub record IsAlike (tbs tbs' : List TranslationBlock) : Type 0 where
  pub longer : length tbs ≤ length tbs'
  pub dests : (i k : ℕ) → dest tbs' i k ≡ dest tbs i k
  pub lists : (i : ℕ) → incoming tbs' i ≡ incoming tbs i
  pub targets : (i : ℕ) → target tbs' i ≡ target tbs i

pub IsAlike-trans : (a b c : List TranslationBlock) → IsAlike a b → IsAlike b c → IsAlike a c
IsAlike-trans a b c x y = record {
  longer = omega (arith, x.longer, y.longer);
  dests = λ i k. y.dests i k ∙ x.dests i k;
  lists = λ i. y.lists i ∙ x.lists i;
  targets = λ i. y.targets i ∙ x.targets i;
}

pub All-mono : (m n : ℕ) (es : List (ℕ × ℕ)) → m ≤ n → All (λ e. e.0 < m) es → All (λ e. e.0 < n) es
All-mono m n [] h a = tt
All-mono m n (e ∷ es) h (k, a) = (omega arith, All-mono m n es h a)

pub IsClosed-grow :
    (tbs tbs' : List TranslationBlock) (cache : JumpCache)
    → IsAlike tbs tbs'
    → IsClosed tbs cache
    → IsClosed tbs' cache
IsClosed-grow tbs tbs' cache x c = record {
  wired = record {
    back = λ i k d e.
        let (low, inside, member) = c.wired.back i k d (sym (x.dests i k) ∙ e) in
        (low, omega (arith, x.longer), rw (x.lists d) member);
    sources = λ d.
        rw (x.lists d)
          (All-mono (length tbs) (length tbs') (incoming tbs d) x.longer (c.wired.sources d));
  };
  targets = λ i. elim (c.targets i) [
    | inl e ↦ inl (x.targets i ∙ e)
    | inr k ↦ inr (rw (x.targets i) (omega (arith, x.longer)))
  ];
  cached = λ k i e. omega (arith, x.longer, c.cached k i e);
}

-- A write that keeps what a lookup reads, and the edges.
pub record IsSame (s s' : TbStore) : Type 0 where
  pub kept : IsKept s s'
  pub alike : IsAlike s.tbs s'.tbs

pub IsSame-trans : (a b c : TbStore) → IsSame a b → IsSame b c → IsSame a c
IsSame-trans a b c x y = record {
  kept = IsKept-trans a b c x.kept y.kept;
  alike = IsAlike-trans a.tbs b.tbs c.tbs x.alike y.alike;
}

module _ (s : TbStore) (i : ℕ) (f : TranslationBlock → TranslationBlock) (t : TranslationBlock)
    (found : get_elem? s.tbs i ≡ some t) where
  pub IsAlike-write :
      (f t).jmp ≡ t.jmp → (f t).exit_target ≡ t.exit_target → IsAlike s.tbs (modify s.tbs i f)
  unfolding dest incoming target
  IsAlike-write j x = record {
    longer = omega (arith, length-modify s.tbs i f);
    dests = λ a k.
        get_elem?-modify_read_at
          (λ (o : Option TranslationBlock). elim o [ none ↦ none | some u ↦ u.jmp.jmp_dest k ])
          s.tbs i a f t found (ap (λ (r : TbJmpState). r.jmp_dest k) j);
    lists = λ a.
        get_elem?-modify_read_at
          (λ (o : Option TranslationBlock). elim o [ none ↦ [] | some u ↦ u.jmp.jmp_list ]) s.tbs i
          a f t found (ap (λ (r : TbJmpState). r.jmp_list) j);
    targets = λ a.
        get_elem?-modify_read_at
          (λ (o : Option TranslationBlock). elim o [
            | none ↦ exit_target_none
            | some u ↦ u.exit_target
          ])
          s.tbs i a f t found x;
  }

  pub IsSame-write :
      entry (f t) ≡ entry t
      → (f t).jmp ≡ t.jmp
      → (f t).exit_target ≡ t.exit_target
      → IsSame s (record s { tbs = modify s.tbs i f })
  unfolding view
  IsSame-write v j x = record {
    kept = record {
      size = length-modify s.tbs i f;
      hash = refl;
      views = λ a.
          get_elem?-modify_read_at
            (λ (o : Option TranslationBlock). elim o [ none ↦ none | some u ↦ some (entry u) ])
            s.tbs i a f t found (ap some v);
    };
    alike = IsAlike-write j x;
  }

pub IsAlike-new :
    (tbs : List TranslationBlock) (pc flags cflags : ℕ)
    → length tbs ≤ length (tbs ++ new_block pc flags cflags ∷ [])
    → IsAlike tbs (tbs ++ new_block pc flags cflags ∷ [])
unfolding dest incoming target new_block
IsAlike-new tbs pc flags cflags h =
    let t = new_block pc flags cflags in
    record {
      longer = h;
      dests = λ a k.
          get_elem?-append_read
            (λ (o : Option TranslationBlock). elim o [ none ↦ none | some u ↦ u.jmp.jmp_dest k ])
            tbs t a refl;
      lists = λ a.
          get_elem?-append_read
            (λ (o : Option TranslationBlock). elim o [ none ↦ [] | some u ↦ u.jmp.jmp_list ]) tbs t
            a refl;
      targets = λ a.
          get_elem?-append_read
            (λ (o : Option TranslationBlock). elim o [
              | none ↦ exit_target_none
              | some u ↦ u.exit_target
            ])
            tbs t a refl;
    }

-- The cache takes the number of a block of the store.
pub IsClosed-cache_insert :
    (tbs : List TranslationBlock) (cache : JumpCache) (pc idx : ℕ)
    → IsClosed tbs cache
    → idx < length tbs
    → IsClosed tbs (cache_insert cache pc idx)
unfolding cache_insert
IsClosed-cache_insert tbs cache pc idx c h = record {
  wired = c.wired;
  targets = c.targets;
  cached = λ k i e. elim (Bool-cases (k == cache_index pc)) [
    | inl d ↦
        let r : cache_insert cache pc idx k ≡ some idx = rw d refl in
        let same : idx ≡ i = cc in omega (arith, same)
    | inr d ↦ let r : cache_insert cache pc idx k ≡ cache k = rw d refl in c.cached k i (sym r ∙ e)
  ];
}
