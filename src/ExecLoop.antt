-- ===== src/ExecLoop.antt =====
-- exec/src/exec_loop.rs, with the state of exec/src/lib.rs: blocks found or translated, run, and
-- chained. One thread runs: a lock is its contents. `none` is a panic.
pub mod Ready
pub mod Generate
pub mod Find
pub mod Jump
pub mod Run
pub mod Target
pub mod Loop
use tcg_rs.Base.{
  ℕ, zero, suc, ◌+◌, ◌-◌, ◌%◌, ◌^◌, List, [], ◌∷◌, ◌++◌, Bool, true, false, not, ◌&&◌, Option, none,
  some, take, ltb, ◌==◌, if◌then◌else◌, ◌>>=◌,
}
use tcg_rs.Context.{Context, reset}
use tcg_rs.Tb.{
  TranslationBlock, JumpCache, Slots, set_slot, set_jmp_insn_offset, set_jmp_reset_offset,
  max_insns, decode_tb_exit, exit_target_none, tb_exit_nochain, cache_lookup, cache_insert,
}
use tcg_rs.TbStore.{TbStore, alloc, get, write, insert, lookup, is_match}

-- A counter of `ExecStats`, a u64.
abbrev pub bump : ℕ → ℕ
bump n = (n + 1) % 2 ^ 64

pub record ExecStats : Type 0 where
  pub loop_iters : ℕ
  pub jc_hit : ℕ
  pub ht_hit : ℕ
  pub translate : ℕ
  pub chain_exit : ℕ → ℕ
  pub nochain_exit : ℕ
  pub real_exit : ℕ
  pub chain_patched : ℕ
  pub chain_already : ℕ
  pub hint_used : ℕ

-- The guest CPU, the code buffer and the back end. `translate` also gives what `goto_tb_offsets`
-- says after it; `exec` is the prologue called on a block, up to its return.
pub record Machine : Type 1 where
  pub Cpu : Type 0
  pub Code : Type 0
  pub get_pc : Cpu → ℕ
  pub get_flags : Cpu → ℕ
  pub gen_code : Cpu → Context → ℕ → ℕ → Cpu × Context × ℕ
  pub remaining : Code → ℕ
  pub offset : Code → ℕ
  pub translate : Context → Code → Context × Code × ℕ × List (ℕ × ℕ)
  pub patch_jump : Code → ℕ → ℕ → Code
  pub exec : Cpu → Code → ℕ → Cpu × ℕ

abbrev pub min_code_buf_remaining : ℕ
min_code_buf_remaining = 4096

pub data ExitReason : Type 0 where
  exit : ℕ → ExitReason
  buffer_full : ExitReason

-- The loop over the first two entries of `goto_tb_offsets`.
unfoldable pub set_offsets : ℕ → List (ℕ × ℕ) → TranslationBlock → Option TranslationBlock
unfolding set_jmp_insn_offset set_jmp_reset_offset
set_offsets i [] tb = some tb
set_offsets i ((jmp, reset) ∷ offsets) tb = do
  tb1 ← set_jmp_insn_offset tb i (jmp % 2 ^ 32)
  tb2 ← set_jmp_reset_offset tb1 i (reset % 2 ^ 32)
  set_offsets (suc i) offsets tb2

abbrev pub is_some_of : ℕ → Option ℕ → Bool
is_some_of d none = false
is_some_of d (some i) = i == d

module _ (m : Machine) where
  open m use {
    Cpu, Code, get_pc, get_flags, gen_code, remaining, offset, translate, patch_jump, exec,
  }

  -- `SharedState`, `PerCpuState` and the CPU.
  pub record Env : Type 0 where
    pub store : TbStore
    pub code : Code
    pub ir_ctx : Context
    pub jump_cache : JumpCache
    pub stats : ExecStats
    pub cpu : Cpu

  -- The part of `tb_gen_code` that fills the new block.
  unfoldable pub fill_block : Env → ℕ → ℕ → Option Env
  unfolding get write set_offsets
  fill_block e tb_idx pc = do
    let ctx = record (reset e.ir_ctx) { tb_idx = tb_idx % 2 ^ 32 }
    let (cpu, ctx1, guest_size) = gen_code e.cpu ctx pc (max_insns 0)
    s1 ← write e.store tb_idx (λ t. record t { size = guest_size })
    let (ctx2, code, host_offset, offsets) = translate ctx1 e.code
    let host_size = offset code - host_offset
    s2 ← write s1 tb_idx (λ t. record t { host_offset = host_offset; host_size = host_size })
    tb ← get s2 tb_idx
    tb' ← set_offsets 0 (take 2 offsets) tb
    s3 ← write s2 tb_idx (λ t. tb')
    some (record e { store = s3; code = code; ir_ctx = ctx2; cpu = cpu })

  -- A new block for a guest address, in the store and in the jump cache.
  unfoldable pub gen_block : Env → ℕ → ℕ → Option (Env × Option ℕ)
  unfolding alloc insert fill_block
  gen_block e pc flags = do
    (s1, tb_idx) ← alloc e.store pc flags 0
    e1 ← fill_block (record e { store = s1 }) tb_idx pc
    s2 ← insert e1.store tb_idx
    let cache = cache_insert e1.jump_cache pc tb_idx
    some (record e1 { store = s2; jump_cache = cache }, some tb_idx)

  -- What is done with the answer of the hash table.
  abbrev pub or_gen_block : Env → ℕ → ℕ → Option ℕ → Option (Env × Option ℕ)
  or_gen_block e pc flags (some idx) =
      some (record e { jump_cache = cache_insert e.jump_cache pc idx }, some idx)
  or_gen_block e pc flags none = gen_block e pc flags

  -- The block for a guest address, or `none` inside where the code buffer is full.
  unfoldable pub tb_gen_code : Env → ℕ → ℕ → Option (Env × Option ℕ)
  tb_gen_code e pc flags =
      let found = lookup e.store pc flags >>= or_gen_block e pc flags in
      if ltb (remaining e.code) min_code_buf_remaining then some (e, none) else found

  -- The answer of the jump cache, where it still fits.
  unfoldable pub cached_from : Env → ℕ → ℕ → Option ℕ → Option (Option ℕ)
  unfolding get
  cached_from e pc flags none = some none
  cached_from e pc flags (some idx) = do
    tb ← get e.store idx
    some (if is_match tb pc flags then some idx else none)

  unfoldable pub cached : Env → ℕ → ℕ → Option (Option ℕ)
  unfolding cache_lookup cached_from
  cached e pc flags = cached_from e pc flags (cache_lookup e.jump_cache pc)

  abbrev pub after_table : Env → ℕ → ℕ → Option ℕ → Option (Env × Option ℕ)
  after_table e pc flags (some idx) = some (
    record e {
      jump_cache = cache_insert e.jump_cache pc idx;
      stats = record e.stats { ht_hit = bump e.stats.ht_hit };
    },
    some idx,
  )
  after_table e pc flags none =
      tb_gen_code (record e { stats = record e.stats { translate = bump e.stats.translate } }) pc
        flags

  abbrev pub after_cache : Env → ℕ → ℕ → Option ℕ → Option (Env × Option ℕ)
  after_cache e pc flags (some idx) =
      some (record e { stats = record e.stats { jc_hit = bump e.stats.jc_hit } }, some idx)
  after_cache e pc flags none = lookup e.store pc flags >>= after_table e pc flags

  -- The block for a guest address and flags.
  unfoldable pub tb_find : Env → ℕ → ℕ → Option (Env × Option ℕ)
  tb_find e pc flags = cached e pc flags >>= after_cache e pc flags

  unfoldable pub cpu_tb_exec : Env → ℕ → Option (Env × ℕ)
  unfolding get
  cpu_tb_exec e tb_idx = do
    tb ← get e.store tb_idx
    let (cpu, raw) = exec e.cpu e.code tb.host_offset
    some (record e { cpu = cpu }, raw)

  -- The jump patched, once it is known to be one and its destination to be valid.
  unfoldable pub patch : Env → ℕ → ℕ → ℕ → ℕ → ℕ → Option Env
  unfolding write
  patch e src slot dst jmp_off abs_dst = do
    s1 ← write e.store src (λ t. record t {
      jmp = record t.jmp { jmp_dest = set_slot t.jmp.jmp_dest slot (some dst) };
    })
    s2 ←
        write s1 dst
          (λ t. record t { jmp = record t.jmp { jmp_list = t.jmp.jmp_list ++ (src, slot) ∷ [] } })
    let stats = record e.stats { chain_patched = bump e.stats.chain_patched }
    some (record e { store = s2; code = patch_jump e.code jmp_off abs_dst; stats = stats })

  -- The jump to a block that is there, unless it leads there already.
  unfoldable pub jump_to : Env → ℕ → ℕ → ℕ → TranslationBlock → ℕ → TranslationBlock → Option Env
  unfolding patch
  jump_to e src slot dst src_tb jmp_off dst_tb =
      if dst_tb.invalid
      then some e
      else (if is_some_of dst (src_tb.jmp.jmp_dest slot)
          then some
              (record e { stats = record e.stats { chain_already = bump e.stats.chain_already } })
          else patch e src slot dst jmp_off dst_tb.host_offset)

  abbrev pub jump_from : Env → ℕ → ℕ → ℕ → TranslationBlock → Option ℕ → Option Env
  jump_from e src slot dst src_tb none = some e
  jump_from e src slot dst src_tb (some jmp_off) =
      get e.store dst >>= jump_to e src slot dst src_tb jmp_off

  -- A jump of `src` made to lead to `dst`.
  unfoldable pub tb_add_jump : Env → ℕ → ℕ → ℕ → Option Env
  unfolding get
  tb_add_jump e src slot dst = do
    src_tb ← get e.store src
    jump_from e src slot dst src_tb (src_tb.jmp_insn_offset slot)

  -- What an iteration leads to: another one, with a block in hand, or the end.
  pub data Outcome : Type 0 where
    again : Env → ℕ → Outcome
    leave : ExitReason → Env → Outcome

  -- A block found leads on, and no block to the end.
  abbrev pub with_found : (Env → ℕ → Option Outcome) → Env × Option ℕ → Option Outcome
  with_found next (e, none) = some (leave buffer_full e)
  with_found next (e, some idx) = next e idx

  -- The exit through a jump that may be chained.
  unfoldable pub chain_exit : Env → ℕ → ℕ → Option Outcome
  chain_exit e src_tb slot = do
    let count : ℕ → ℕ =
        λ k. if k == slot then bump (e.stats.chain_exit slot) else e.stats.chain_exit k
    let e1 = record e { stats = record e.stats { chain_exit = count } }
    r ← tb_find e1 (get_pc e1.cpu) (get_flags e1.cpu)
    with_found (λ e2 dst. tb_add_jump e2 src_tb slot dst >>= λ e3. some (again e3 dst)) r

  -- The block that an indirect jump went to before, where it still fits.
  unfoldable pub cached_target : Env → ℕ → ℕ → ℕ → Option (Option ℕ)
  unfolding get cached_from
  cached_target e src_tb pc flags = do
    stb ← get e.store src_tb
    let target = stb.exit_target
    cached_from e pc flags (if target == exit_target_none then none else some target)

  unfoldable pub set_target : Env → ℕ → ℕ → Option Outcome
  unfolding write
  set_target e src_tb dst = do
    s ← write e.store src_tb (λ t. record t { exit_target = dst })
    some (again (record e { store = s }) dst)

  abbrev pub after_target : Env → ℕ → Option ℕ → Option Outcome
  after_target e src_tb (some idx) = some (again e idx)
  after_target e src_tb none =
      tb_find e (get_pc e.cpu) (get_flags e.cpu) >>= with_found (λ e1 dst. set_target e1 src_tb dst)

  -- The exit through an indirect jump.
  unfoldable pub nochain_exit : Env → ℕ → Option Outcome
  nochain_exit e src_tb = do
    let e1 = record e { stats = record e.stats { nochain_exit = bump e.stats.nochain_exit } }
    target ← cached_target e1 src_tb (get_pc e1.cpu) (get_flags e1.cpu)
    after_target e1 src_tb target

  abbrev pub or_else : Option ℕ → ℕ → ℕ
  or_else none d = d
  or_else (some i) d = i

  unfoldable pub dispatch : Env → ℕ → ℕ → Option Outcome
  dispatch e src_tb exit_code =
      if ltb exit_code 2
      then chain_exit e src_tb exit_code
      else (if exit_code == tb_exit_nochain
          then nochain_exit e src_tb
          else some (
              leave (exit exit_code)
                (record e { stats = record e.stats { real_exit = bump e.stats.real_exit } })))

  -- The second half of an iteration: a block runs, and its exit says what comes next.
  unfoldable pub run_block : Env → ℕ → Option Outcome
  unfolding cpu_tb_exec
  run_block e tb_idx = do
    (e1, raw_exit) ← cpu_tb_exec e tb_idx
    let (last_tb, exit_code) = decode_tb_exit raw_exit
    dispatch e1 (or_else last_tb tb_idx) exit_code

  -- One iteration, with the hint of the last one.
  unfoldable pub iterate : Env → Option ℕ → Option Outcome
  iterate e (some idx) =
      let stats = record e.stats {
        loop_iters = bump e.stats.loop_iters;
        hint_used = bump e.stats.hint_used;
      } in
      run_block (record e { stats = stats }) idx
  iterate e none =
      let e1 = record e { stats = record e.stats { loop_iters = bump e.stats.loop_iters } } in
      tb_find e1 (get_pc e1.cpu) (get_flags e1.cpu) >>= with_found (λ e2 idx. run_block e2 idx)

  -- The iterations after the first, up to a number of them.
  unfoldable pub run_loop : ℕ → Outcome → Option Outcome
  run_loop n (leave reason e) = some (leave reason e)
  run_loop zero (again e hint) = some (again e hint)
  run_loop (suc n) (again e hint) = iterate e (some hint) >>= run_loop n

  -- `cpu_exec_loop_mt`, up to a number of iterations after the first.
  unfoldable pub cpu_exec_loop_mt : ℕ → Env → Option Outcome
  cpu_exec_loop_mt n e = iterate e none >>= run_loop n
