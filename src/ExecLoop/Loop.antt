-- ===== src/ExecLoop/Loop.antt =====
-- exec/src/exec_loop.rs: blocks run one after the other, each with the CPU where the block begins.
use tcg_rs.Base.{
  ℕ, zero, suc, ◌+◌, ◌<◌, ◌≤◌, ◌≡◌, refl, sym, ◌∙◌, true, Option, none, some, inl, inr, length,
  get_elem?-of_lt, modify, ltb, ◌==◌, if◌then◌else◌, arith, Bool-cases, Option-cases,
}
use mathlib.Core.Path.{subst}
use tcg_rs.Tb.{TranslationBlock, decode_tb_exit, exit_target_none, tb_exit_nochain}
use tcg_rs.TbStore.{TbStore, max_tbs, get}
use tcg_rs.TbStore.Facts.{write-some, hits_congr}
use tcg_rs.TbStore.View.{view, hits}
use tcg_rs.TbStore.Links.{IsKept-write, dest-write_keep, incoming-write_keep}
use tcg_rs.TbStore.Lookup.{Linked-congr}
use tcg_rs.ExecLoop.{
  Machine, Env, Outcome, again, leave, bump, exit, cached_target, set_target, nochain_exit, or_else,
  dispatch, run_block, iterate, run_loop, cpu_tb_exec,
}
use tcg_rs.ExecLoop.Ready.{IsReady}
use tcg_rs.ExecLoop.Generate.{IsMachine}
use tcg_rs.ExecLoop.Find.{cached_from-some}
use tcg_rs.ExecLoop.Run.{hits-lt, IsExitKnown, IsGood, Ends, restat, find_then, chain_exit_some}
use tcg_rs.ExecLoop.Target.{targets-write, target_inside}

module _ (m : Machine) (law : IsMachine m) where
  set_target_some :
      (e : Env m) (src dst : ℕ)
      → IsReady m e
      → src < length e.store.tbs
      → dst < length e.store.tbs
      → hits (view e.store.tbs) (m.get_pc e.cpu) (m.get_flags e.cpu) dst ≡ true
      → Ends m (length e.store.tbs) (set_target m e src dst)
  unfolding set_target
  set_target_some e src dst ready h k fits =
      let f : TranslationBlock → TranslationBlock = λ t. record t { exit_target = dst } in
      let s : TbStore = record e.store { tbs = modify e.store.tbs src f } in
      let kept = IsKept-write e.store src f h (λ u. refl) in
      let dests = dest-write_keep e.store src f h (λ u. refl) in
      let lists = incoming-write_keep e.store src f h (λ u. refl) in
      (
        again (record e { store = s }) dst,
        rw (write-some e.store src f h) refl,
        (
          record {
            store = rw kept.size (
                Linked-congr (view e.store.tbs) (view s.tbs) e.store.hash (length e.store.tbs)
                  (λ i c. kept.views i) ready.store);
            closed = record {
              wired = record {
                back = λ i c d w.
                    let (low, inside, member) =
                      ready.closed.wired.back i c d (sym (dests i c) ∙ w) in
                    (low, rw kept.size inside, rw (lists d) member);
                sources = λ d. rw (lists d, kept.size) (ready.closed.wired.sources d);
              };
              targets = λ i.
                  rw kept.size (targets-write e.store.tbs src dst i h k (ready.closed.targets i));
              cached = λ a i w. rw kept.size (ready.closed.cached a i w);
            };
          },
          omega (arith, kept.size),
          hits_congr (view e.store.tbs) (view s.tbs) dst (kept.views dst) (m.get_pc e.cpu)
                (m.get_flags e.cpu)
              ∙ fits,
        ),
      )

  widen : (r : Option (Outcome m)) (a b : ℕ) → a ≤ b → Ends m a r → Ends m b r
  widen r a b h (again e hint, done, (ready, k, fits)) =
      (again e hint, done, (ready, omega arith, fits))
  widen r a b h (leave reason e, done, (ready, k)) = (leave reason e, done, (ready, omega arith))

  nochain_exit_some :
      (e : Env m) (src : ℕ)
      → IsReady m e
      → length e.store.tbs < max_tbs
      → src < length e.store.tbs
      → Ends m (length e.store.tbs + 1) (nochain_exit m e src)
  unfolding nochain_exit cached_target get
  nochain_exit_some e src ready room h =
      let stats = record e.stats { nochain_exit = bump e.stats.nochain_exit } in
      let e1 : Env m = record e { stats = stats } in
      let (t, found) = get_elem?-of_lt e.store.tbs src h in
      let last : Option ℕ =
        if t.exit_target == exit_target_none then none else some t.exit_target in
      let known : (i : ℕ) → last ≡ some i → i < length e.store.tbs =
        target_inside e.store.tbs src t found (ready.closed.targets src) in
      let (r, hit, fits) = cached_from-some m e1 (m.get_pc e.cpu) (m.get_flags e.cpu) last known in
      elim (Option-cases r) [
        | inr (idx, k) ↦ (
          again e1 idx,
          rw (found, hit, k) refl,
          (restat m law e stats ready, omega arith, (fits idx k).1),
        )
        | inl k ↦
            let (o, done, good) =
              find_then m law e1 (λ e2 dst. set_target m e2 src dst) (restat m law e stats ready)
                room
                (λ e2 dst at.
                  widen (set_target m e2 src dst) (length e2.store.tbs) (length e.store.tbs + 1)
                    at.one_more
                    (set_target_some e2 src dst at.ready (omega (arith, at.longer)) at.inside
                      (rw (at.same_pc, at.same_flags) at.fits))) in
            (o, rw (found, hit, k) done, good)
      ]

  dispatch_some :
      (e : Env m) (src exit_code : ℕ)
      → IsReady m e
      → length e.store.tbs < max_tbs
      → src < length e.store.tbs
      → Ends m (length e.store.tbs + 1) (dispatch m e src exit_code)
  unfolding dispatch
  dispatch_some e src exit_code ready room h = elim (Bool-cases (ltb exit_code 2)) [
    | inl d ↦ rw d (chain_exit_some m law e src exit_code ready room h (ground arith))
    | inr d ↦ elim (Bool-cases (exit_code == tb_exit_nochain)) [
      | inl c ↦ rw (d, c) (nochain_exit_some e src ready room h)
      | inr c ↦
          let stats = record e.stats { real_exit = bump e.stats.real_exit } in
          (
            leave (exit exit_code) (record e { stats = stats }),
            rw (d, c) refl,
            (restat m law e stats ready, omega arith),
          )
    ]
  ]

  -- While the store has room for one block more, and the host code of the block comes back from a
  -- block of the store, the second half of an iteration does not panic. It keeps the invariant of the
  -- state and adds at most one block; where the loop goes on, it is with a valid block for the guest
  -- address and the flags that the CPU has then.
  pub run_block-IsGood :
      (e : Env m) (idx : ℕ)
      → IsReady m e
      → length e.store.tbs < max_tbs
      → idx < length e.store.tbs
      → IsExitKnown m e idx
      → (o : Outcome m) × (run_block m e idx ≡ some o) × IsGood m (length e.store.tbs + 1) o
  unfolding run_block cpu_tb_exec get
  run_block-IsGood e idx ready room h known =
      let (t, found) = get_elem?-of_lt e.store.tbs idx h in
      let ran = m.exec e.cpu e.code t.host_offset in
      let e1 : Env m = record e { cpu = ran.0 } in
      let ready1 : IsReady m e1 = record { store = ready.store; closed = ready.closed } in
      let last = decode_tb_exit ran.1 in
      let inside : or_else m last.0 idx < length e.store.tbs = elim (Option-cases last.0) [
        | inl o ↦ rw o h
        | inr (i, o) ↦ rw o (known t i found o)
      ] in
      let (o, done, good) = dispatch_some e1 (or_else m last.0 idx) last.1 ready1 room inside in
      (o, rw found done, good)

  -- Up to `n` iterations, from a valid block for where the CPU is: while the store has room for `n`
  -- blocks, and in each state that is reached the host code comes back from a block of the store, the
  -- loop does not panic, and ends or goes on in a state with the invariant, with a valid block for
  -- where the CPU is then.
  pub run_loop-IsGood :
      (n limit : ℕ) (o : Outcome m)
      → IsGood m limit o
      → limit + n ≤ max_tbs
      → ((k hint : ℕ) (e : Env m) → run_loop m k o ≡ some (again e hint) → IsExitKnown m e hint)
      → (o' : Outcome m) × (run_loop m n o ≡ some o') × IsGood m (limit + n) o'
  unfolding run_loop iterate
  run_loop-IsGood n limit (leave reason e) (ready, h) room known =
      (leave reason e, refl, (ready, omega arith))
  run_loop-IsGood zero limit (again e hint) (ready, h, fits) room known =
      (again e hint, refl, (ready, omega arith, fits))
  run_loop-IsGood (suc n) limit (again e hint) (ready, h, fits) room known =
      let stats = record e.stats {
        loop_iters = bump e.stats.loop_iters;
        hint_used = bump e.stats.hint_used;
      } in
      let e1 : Env m = record e { stats = stats } in
      let inside = hits-lt e.store.tbs (m.get_pc e.cpu) (m.get_flags e.cpu) hint fits in
      let (o, done, good) =
        widen (run_block m e1 hint) (length e.store.tbs + 1) (limit + 1) (omega arith) (
          run_block-IsGood e1 hint (restat m law e stats ready) (omega arith) inside
            (known 0 hint e refl)) in
      let sum : limit + 1 + n ≡ limit + suc n = omega arith in
      let (o', rest, good') =
        run_loop-IsGood n (limit + 1) o good (omega arith)
          (λ k i e' w. known (suc k) i e' (rw done w)) in
      (o', rw done rest, subst (λ (z : ℕ). IsGood m z o') sum good')
