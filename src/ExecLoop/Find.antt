-- ===== src/ExecLoop/Find.antt =====
-- exec/src/exec_loop.rs: the block for a guest address, from the jump cache, from the hash table or
-- translated.
use tcg_rs.Base.{
  ◌⊎◌, ◌≤◌, ℕ, ◌<◌, ◌≡◌, refl, sym, ap, ◌∙◌, true, Option, none, some, length, get_elem?-of_lt, ltb,
  arith, Bool-cases, Option-cases, inl, inr,
}
use tcg_rs.Tb.{JumpCache, cache_insert, cache_lookup, cache_index}
use tcg_rs.TbStore.{lookup, max_tbs, get, is_match}
use tcg_rs.TbStore.Chain.{newest}
use tcg_rs.TbStore.View.{entry, view, hits}
use tcg_rs.TbStore.Facts.{view-some, hits_some}
use tcg_rs.TbStore.Lookup.{lookup-newest, lookup-hits}
use tcg_rs.ExecLoop.{
  Machine, Env, tb_gen_code, min_code_buf_remaining, cached_from, cached, tb_find, bump, ExecStats,
}
use tcg_rs.ExecLoop.Ready.{IsReady, IsClosed, IsClosed-cache_insert}
use tcg_rs.ExecLoop.Generate.{IsMachine, IsFound, gen_block-some}

-- A block that a cache names is taken where it fits.
pub cached_from-some :
    (m : Machine) (e : Env m) (pc flags : ℕ) (o : Option ℕ)
    → ((i : ℕ) → o ≡ some i → i < length e.store.tbs)
    → (r : Option ℕ) × (cached_from m e pc flags o ≡ some r)
      × ((i : ℕ)
          → r ≡ some i
          → (i < length e.store.tbs) × (hits (view e.store.tbs) pc flags i ≡ true))
unfolding cached_from get
cached_from-some m e pc flags none h = (none, refl, λ i w. absurd (cc))
cached_from-some m e pc flags (some idx) h =
    let (t, found) = get_elem?-of_lt e.store.tbs idx (h idx refl) in
    let read =
      hits_some (view e.store.tbs) idx (entry t) (view-some e.store.tbs idx t found) pc flags in
    elim (Bool-cases (is_match t pc flags)) [
      | inl d ↦ (
        some idx,
        rw (found, d) refl,
        λ i w.
            let same : idx ≡ i = cc in
            (
              omega (arith, same, h idx refl),
              ap (hits (view e.store.tbs) pc flags) (sym same) ∙ read ∙ d,
            ),
      )
      | inr d ↦ (none, rw (found, d) refl, λ i w. absurd (cc))
    ]

-- A block that was not there before is made only where no lookup finds one and the code buffer has
-- room; without a block no lookup finds one, the code buffer is full and the store is as it was.
abbrev pub IsAnswer : (m : Machine) → IsMachine m → Env m → ℕ → ℕ → Env m → Option ℕ → Type 0
IsAnswer m law e pc flags e' (some idx) =
    IsFound m law e pc flags e' idx
    × ((e'.store ≡ e.store)
        ⊎ (min_code_buf_remaining ≤ m.remaining e.code) × (lookup e.store pc flags ≡ some none))
IsAnswer m law e pc flags e' none =
    IsReady m e'
    × (e'.store ≡ e.store)
    × (m.remaining e.code < min_code_buf_remaining)
    × (lookup e.store pc flags ≡ some none)

module _ (m : Machine) (law : IsMachine m) where
  -- A state that differs in the cache and the counters, with a block of the store that fits.
  IsFound-known :
      (e : Env m) (pc flags idx : ℕ) (cache : JumpCache) (stats : ExecStats)
      → IsReady m e
      → IsClosed e.store.tbs cache
      → idx < length e.store.tbs
      → hits (view e.store.tbs) pc flags idx ≡ true
      → IsFound m law e pc flags (record e { jump_cache = cache; stats = stats }) idx
  IsFound-known e pc flags idx cache stats ready closed inside fits = record {
    ready = record { store = ready.store; closed = closed };
    longer = omega arith;
    one_more = omega arith;
    inside = inside;
    fits = fits;
    same_pc = refl;
    same_flags = refl;
  }

  -- Where no lookup finds a block, one is made or the buffer is full.
  tb_gen_code-some :
      (e : Env m) (pc flags : ℕ)
      → IsReady m e
      → length e.store.tbs < max_tbs
      → lookup e.store pc flags ≡ some none
      → (e' : Env m) × (r : Option ℕ) × (tb_gen_code m e pc flags ≡ some (e', r))
        × IsAnswer m law e pc flags e' r
  unfolding tb_gen_code
  tb_gen_code-some e pc flags ready room miss =
      elim (Bool-cases (ltb (m.remaining e.code) min_code_buf_remaining)) [
        | inl d ↦ (e, none, rw d refl, (ready, refl, ground arith, miss))
        | inr d ↦
            let (e', made, found) = gen_block-some m law e pc flags ready room in
            (e', some (length e.store.tbs), rw (d, miss) made, (found, inr (ground arith, miss)))
      ]

  same-IsAnswer :
      (e : Env m) (stats : ExecStats) (pc flags : ℕ) (e' : Env m) (r : Option ℕ)
      → IsAnswer m law (record e { stats = stats }) pc flags e' r
      → IsAnswer m law e pc flags e' r
  same-IsAnswer e stats pc flags e' none a = a
  same-IsAnswer e stats pc flags e' (some idx) (a, how) = (
    record {
      ready = a.ready;
      longer = a.longer;
      one_more = a.one_more;
      inside = a.inside;
      fits = a.fits;
      same_pc = a.same_pc;
      same_flags = a.same_flags;
    },
    how,
  )

  -- While the store has room for one block more, `tb_find` does not panic and keeps the invariant of
  -- the state. A block that it gives is a valid block of the store for the guest address and flags
  -- asked for, and at most one block is new: the store is as it was, or no lookup found a block and the
  -- code buffer had at least the minimum of bytes left. It gives none only where no lookup finds a
  -- block and the code buffer has fewer bytes left than the minimum, and then the store is as it was.
  pub tb_find-IsAnswer :
      (e : Env m) (pc flags : ℕ)
      → IsReady m e
      → length e.store.tbs < max_tbs
      → (e' : Env m) × (r : Option ℕ) × (tb_find m e pc flags ≡ some (e', r))
        × IsAnswer m law e pc flags e' r
  unfolding tb_find cached cache_lookup
  tb_find-IsAnswer e pc flags ready room =
      let (fast, hit, fits) =
        cached_from-some m e pc flags (e.jump_cache (cache_index pc))
          (ready.closed.cached (cache_index pc)) in
      elim (Option-cases fast) [
        | inr (idx, k) ↦
            let (inside, good) = fits idx k in
            let stats = record e.stats { jc_hit = bump e.stats.jc_hit } in
            (
              record e { stats = stats },
              some idx,
              rw (hit, k) refl,
              (
                IsFound-known e pc flags idx e.jump_cache stats ready ready.closed inside good,
                inl refl,
              ),
            )
        | inl k ↦
            let known = newest (hits (view e.store.tbs) pc flags) (length e.store.tbs) in
            let answer = lookup-newest e.store pc flags ready.store in
            elim (Option-cases known) [
              | inl miss ↦
                  let e1 : Env m = record e {
                    stats = record e.stats { translate = bump e.stats.translate };
                  } in
                  let ready1 : IsReady m e1 = record {
                    store = ready.store;
                    closed = ready.closed;
                  } in
                  let (e', r, made, found) =
                    tb_gen_code-some e1 pc flags ready1 room (answer ∙ ap some miss) in
                  (
                    e',
                    r,
                    rw (hit, k, answer, miss) made,
                    same-IsAnswer e e1.stats pc flags e' r found,
                  )
              | inr (idx, w) ↦
                  let (inside, good) =
                    lookup-hits e.store pc flags idx ready.store (answer ∙ ap some w) in
                  let cache = cache_insert e.jump_cache pc idx in
                  let stats = record e.stats { ht_hit = bump e.stats.ht_hit } in
                  (
                    record e { jump_cache = cache; stats = stats },
                    some idx,
                    rw (hit, k, answer, w) refl,
                    (
                      IsFound-known e pc flags idx cache stats ready
                          (IsClosed-cache_insert e.store.tbs e.jump_cache pc idx ready.closed
                            inside)
                          inside good,
                      inl refl,
                    ),
                  )
            ]
      ]
