-- ===== src/StoreSamples.antt =====
-- The theorems on exec/src at one block: guest code at 4096, which always takes its first jump.
use tcg_rs.Base.{
  false, ℕ, ◌+◌, ◌<◌, ◌≡◌, ◌≢◌, refl, [], ◌∷◌, not, ◌&&◌, Option, none, some, inl, length, ltb,
  ◌==◌, if◌then◌else◌, arith, ◌>>=◌,
}
use tcg_rs.Context.{new_context}
use tcg_rs.Tb.{
  decode_tb_exit, encode_tb_exit, tb_exit_max, hash_bucket, cache_index, tb_hash_size,
  tb_jmp_cache_size, new_cache,
}
use tcg_rs.Tb.Exit.{decode_tb_exit-encode_tb_exit, index_bounds}
use tcg_rs.TbStore.{TbStore, Host, new_store, max_tbs, alloc, insert, invalidate, lookup}
use tcg_rs.TbStore.Chain.{newest}
use tcg_rs.TbStore.View.{view, hits}
use tcg_rs.TbStore.Patches.{restored}
use tcg_rs.TbStore.Links.{dest, incoming, has}
use tcg_rs.TbStore.Lookup.{IsStore, new_store-IsStore, lookup-newest}
use tcg_rs.TbStore.Insert.{insert-alloc}
use tcg_rs.TbStore.Cut.{IsWired}
use tcg_rs.TbStore.Invalidate.{lookup-invalidate, dest-invalidate}
use tcg_rs.ExecLoop.{Machine, Env, Outcome, again, tb_find, run_block, run_loop}
use tcg_rs.ExecLoop.Ready.{IsReady, target}
use tcg_rs.ExecLoop.Generate.{IsMachine, IsFound, gen_block-some}
use tcg_rs.ExecLoop.Find.{IsAnswer, tb_find-IsAnswer}
use tcg_rs.ExecLoop.Run.{IsGood, IsExitKnown}
use tcg_rs.ExecLoop.Loop.{run_block-IsGood, run_loop-IsGood}

-- A CPU is its program counter, and a code buffer the number of bytes that are left.
abbrev machine : Machine
machine = record {
  Cpu = ℕ;
  Code = ℕ;
  get_pc = λ cpu. cpu;
  get_flags = λ cpu. 0;
  gen_code = λ cpu ctx pc n. (cpu, ctx, 4);
  remaining = λ code. code;
  offset = λ code. 164;
  translate = λ ctx code. (ctx, code, 100, (110, 120) ∷ []);
  patch_jump = λ code jmp dst. code;
  exec = λ cpu code at. (cpu + 4, 0);
}

abbrev host : Host
host = record { Code = ℕ; patch_jump = λ code jmp dst. code }

machine-IsMachine : IsMachine machine
machine-IsMachine = record { gen_pc = λ cpu ctx pc n. refl; gen_flags = λ cpu ctx pc n. refl }

abbrev started : Env machine
started = record {
  store = new_store;
  code = 65536;
  ir_ctx = new_context;
  jump_cache = new_cache;
  stats = record {
    loop_iters = 0;
    jc_hit = 0;
    ht_hit = 0;
    translate = 0;
    chain_exit = λ slot. 0;
    nochain_exit = 0;
    real_exit = 0;
    chain_patched = 0;
    chain_already = 0;
    hint_used = 0;
  };
  cpu = 4096;
}

new_store-IsWired : IsWired new_store.tbs
unfolding dest incoming new_store
new_store-IsWired = record { back = λ i slot d e. absurd (cc); sources = λ d. tt }

started-IsReady : IsReady machine started
unfolding target new_cache new_store
started-IsReady = record {
  store = new_store-IsStore;
  closed = record {
    wired = new_store-IsWired;
    targets = λ i. inl refl;
    cached = λ k i e. absurd (cc);
  };
}

room : length started.store.tbs < max_tbs
unfolding new_store
room = omega arith

made :
    (e : Env machine) × IsReady machine e
    × IsFound machine machine-IsMachine started 4096 0 e 0
    × (e.cpu ≡ 4096)
unfolding new_store
made =
    let (e, done, found) =
      gen_block-some machine machine-IsMachine started 4096 0 started-IsReady room in
    (e, found.ready, found, found.same_pc)

abbrev one : Env machine
one = made.0

one-IsReady : IsReady machine one
one-IsReady = made.1

one_inside : 0 < length one.store.tbs
one_inside = made.2.inside

one_room : length one.store.tbs < max_tbs
unfolding new_store
one_room = omega (arith, made.2.one_more)

one_exits : IsExitKnown machine one 0
unfolding decode_tb_exit
one_exits t i found e = absurd (cc)

one-IsGood : IsGood machine 1 (again one 0)
unfolding new_store
one-IsGood = (one-IsReady, omega (arith, made.2.one_more), rw made.3 made.2.fits)

run_loop-IsGood_example :
    (o : Outcome machine) × (run_loop machine 3 (again one 0) ≡ some o) × IsGood machine (1 + 3) o
unfolding decode_tb_exit
run_loop-IsGood_example =
    run_loop-IsGood machine machine-IsMachine 3 1 (again one 0) one-IsGood (omega arith)
      (λ k hint e done t i found last. absurd (cc))

run_block-IsGood_example :
    (o : Outcome machine) × (run_block machine one 0 ≡ some o)
    × IsGood machine (length one.store.tbs + 1) o
run_block-IsGood_example =
    run_block-IsGood machine machine-IsMachine one 0 one-IsReady one_room one_inside one_exits

tb_find-IsAnswer_example :
    (e : Env machine) × (r : Option ℕ) × (tb_find machine started 4096 0 ≡ some (e, r))
    × IsAnswer machine machine-IsMachine started 4096 0 e r
tb_find-IsAnswer_example =
    tb_find-IsAnswer machine machine-IsMachine started 4096 0 started-IsReady room

lookup-newest_example :
    lookup one.store 4096 0
    ≡ some (newest (hits (view one.store.tbs) 4096 0) (length one.store.tbs))
lookup-newest_example = lookup-newest one.store 4096 0 one-IsReady.store

insert-alloc_example :
    (s : TbStore) × ((alloc new_store 4096 1 0 >>= λ r. insert r.0 r.1) ≡ some s)
    × IsStore s
    × ((q f : ℕ)
        → lookup s q f ≡ (
            if 4096 == q && 1 == f
            then some (some (length new_store.tbs))
            else lookup new_store q f))
insert-alloc_example = insert-alloc new_store 4096 1 0 new_store-IsStore room

lookup-invalidate_example :
    (s : TbStore) × (code : ℕ) × (invalidate host 0 (one.store, 0) ≡ some (s, code))
    × IsStore s
    × ((q f : ℕ)
        → lookup s q f
          ≡ some (
              newest (λ j. hits (view one.store.tbs) q f j && not (j == 0)) (length one.store.tbs)))
lookup-invalidate_example =
    lookup-invalidate host one.store 0 0 one-IsReady.store one-IsReady.closed.wired one_inside

dest-invalidate_example :
    (s : TbStore) × (code : ℕ) × (invalidate host 0 (one.store, 0) ≡ some (s, code))
    × IsWired s.tbs
    × (code ≡ restored host one.store.tbs (incoming one.store.tbs 0) 0)
    × ((j k d : ℕ)
        → dest s.tbs j k ≡ some d
        → (d ≢ 0) × (j ≢ 0) × (dest one.store.tbs j k ≡ some d))
    × ((j k : ℕ)
        → j ≢ 0
        → has j k (incoming one.store.tbs 0) ≡ false
        → dest s.tbs j k ≡ dest one.store.tbs j k)
dest-invalidate_example =
    dest-invalidate host one.store 0 0 one-IsReady.store one-IsReady.closed.wired one_inside

decode_tb_exit-encode_tb_exit_example :
    decode_tb_exit (encode_tb_exit 41 1) ≡ (if ltb 1 tb_exit_max then (some 41, 1) else (none, 1))
decode_tb_exit-encode_tb_exit_example =
    decode_tb_exit-encode_tb_exit 41 1 (omega arith) (omega arith)

index_bounds_example : (hash_bucket 4096 0 < tb_hash_size) × (cache_index 4096 < tb_jmp_cache_size)
index_bounds_example = index_bounds 4096 0
