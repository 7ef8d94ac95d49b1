-- ===== src/ExecLoop/Run.antt =====
-- exec/src/exec_loop.rs: what a step of the loop leads to, and the exit through a jump.
use tcg_rs.Base.{
  ℕ, ◌+◌, ◌<◌, ◌≤◌, ◌≡◌, refl, ap, ◌∙◌, List, true, false, Option, none, some, inl, inr, length,
  get_elem?, get_elem?-lt, ◌==◌, if◌then◌else◌, arith, Option-cases, ◌>>=◌,
}
use tcg_rs.Tb.{TranslationBlock, decode_tb_exit}
use tcg_rs.TbStore.{TbStore, max_tbs}
use tcg_rs.TbStore.Facts.{hits_congr}
use tcg_rs.TbStore.View.{view, hits}
use tcg_rs.ExecLoop.{
  Machine, Env, ExecStats, Outcome, again, leave, bump, with_found, chain_exit, tb_find,
  tb_add_jump,
}
use tcg_rs.ExecLoop.Ready.{IsReady}
use tcg_rs.ExecLoop.Generate.{IsMachine, IsFound}
use tcg_rs.ExecLoop.Find.{IsAnswer, tb_find-IsAnswer}
use tcg_rs.ExecLoop.Jump.{tb_add_jump-some}

pub hits-lt :
    (tbs : List TranslationBlock) (pc flags i : ℕ)
    → hits (view tbs) pc flags i ≡ true
    → i < length tbs
unfolding hits view
hits-lt tbs pc flags i h = elim (Option-cases (get_elem? tbs i)) [
  | inl e ↦ let r : hits (view tbs) pc flags i ≡ false = rw (hits, view, e) refl in absurd (cc)
  | inr (t, e) ↦ get_elem?-lt tbs i e
]

-- The host code of a block, run now, comes back from a block of the store.
abbrev pub IsExitKnown : (m : Machine) → Env m → ℕ → Type 0
IsExitKnown m e idx =
    (t : TranslationBlock) (i : ℕ)
    → get_elem? e.store.tbs idx ≡ some t
    → (decode_tb_exit (m.exec e.cpu e.code t.host_offset).1).0 ≡ some i
    → i < length e.store.tbs

-- The loop goes on with a valid block for the guest address and the flags of the CPU.
abbrev pub IsGood : (m : Machine) → ℕ → Outcome m → Type 0
IsGood m limit (again e hint) =
    IsReady m e
    × (length e.store.tbs ≤ limit)
    × (hits (view e.store.tbs) (m.get_pc e.cpu) (m.get_flags e.cpu) hint ≡ true)
IsGood m limit (leave reason e) = IsReady m e × (length e.store.tbs ≤ limit)

abbrev pub Ends : (m : Machine) → ℕ → Option (Outcome m) → Type 0
Ends m limit r = (o : Outcome m) × (r ≡ some o) × IsGood m limit o

module _ (m : Machine) (law : IsMachine m) where
  pub restat :
      (e : Env m) (stats : ExecStats) → IsReady m e → IsReady m (record e { stats = stats })
  restat e stats ready = record { store = ready.store; closed = ready.closed }

  -- What is found is gone on with, and the buffer found full ends the loop.
  with_found_some :
      (e : Env m) (pc flags : ℕ) (next : Env m → ℕ → Option (Outcome m)) (e' : Env m) (r : Option ℕ)
      → IsAnswer m law e pc flags e' r
      → ((idx : ℕ)
          → IsFound m law e pc flags e' idx
          → Ends m (length e.store.tbs + 1) (next e' idx))
      → Ends m (length e.store.tbs + 1) (with_found m next (e', r))
  with_found_some e pc flags next e' none (ready, same, full, miss) k =
      (_, refl, (ready, omega (arith, ap (λ (s : TbStore). length s.tbs) same)))
  with_found_some e pc flags next e' (some idx) (a, how) k = k idx a

  -- A find followed by what is done with the block.
  pub find_then :
      (e : Env m) (next : Env m → ℕ → Option (Outcome m))
      → IsReady m e
      → length e.store.tbs < max_tbs
      → ((e' : Env m) (idx : ℕ)
          → IsFound m law e (m.get_pc e.cpu) (m.get_flags e.cpu) e' idx
          → Ends m (length e.store.tbs + 1) (next e' idx))
      → Ends m
          (length e.store.tbs + 1)
          (tb_find m e (m.get_pc e.cpu) (m.get_flags e.cpu) >>= with_found m next)
  find_then e next ready room k =
      let (e', r, found, answer) =
        tb_find-IsAnswer m law e (m.get_pc e.cpu) (m.get_flags e.cpu) ready room in
      let (o, done, good) =
        with_found_some e (m.get_pc e.cpu) (m.get_flags e.cpu) next e' r answer (k e') in
      (o, rw found done, good)

  pub chain_exit_some :
      (e : Env m) (src slot : ℕ)
      → IsReady m e
      → length e.store.tbs < max_tbs
      → src < length e.store.tbs
      → slot < 2
      → Ends m (length e.store.tbs + 1) (chain_exit m e src slot)
  unfolding chain_exit
  chain_exit_some e src slot ready room h low =
      let count : ℕ → ℕ =
        λ k. if k == slot then bump (e.stats.chain_exit slot) else e.stats.chain_exit k in
      let e1 : Env m = record e { stats = record e.stats { chain_exit = count } } in
      find_then e1 (λ e2 dst. tb_add_jump m e2 src slot dst >>= λ e3. some (again e3 dst))
        (restat e e1.stats ready) room
        (λ e2 dst found.
          let (e3, done, jumped) =
            tb_add_jump-some m e2 src slot dst found.ready (omega (arith, found.longer))
              found.inside low in
          (
            again e3 dst,
            rw done refl,
            (
              jumped.ready,
              omega (arith, jumped.kept.size, found.one_more),
              rw (jumped.cpu, found.same_pc, found.same_flags)
                  (hits_congr (view e2.store.tbs) (view e3.store.tbs) dst (jumped.kept.views dst)
                      (m.get_pc e.cpu) (m.get_flags e.cpu)
                    ∙ found.fits),
            ),
          ))
