-- ===== src/ExecLoop/Generate.antt =====
-- exec/src/exec_loop.rs: a new block generated, or a known one taken.
use tcg_rs.Base.{
  ℕ, suc, ◌+◌, ◌-◌, ◌%◌, ◌^◌, ◌<◌, ◌≤◌, ◌≡◌, refl, sym, ap, ◌∙◌, List, [], ◌∷◌, ◌++◌, true, false,
  some, length, length-append, length-modify, take, modify, get_elem?-of_lt,
  get_elem?-append_length, get_elem?-modify_self, arith, ==_refl,
}
use tcg_rs.Context.{Context, reset}
use tcg_rs.Tb.{
  TranslationBlock, hash_bucket, new_block, set_jmp_insn_offset, set_jmp_reset_offset, max_insns,
  cache_insert,
}
use tcg_rs.TbStore.{TbStore, max_tbs, get, lookup}
use tcg_rs.TbStore.View.{Entry, entry, view, hits}
use tcg_rs.TbStore.Facts.{write-some, view-some}
use tcg_rs.TbStore.Insert.{insert_last, alloc-some, Linked-append}
use tcg_rs.TbStore.Lookup.{Linked-congr, lookup-hits}
use tcg_rs.ExecLoop.{Machine, Env, set_offsets, fill_block, gen_block}
use tcg_rs.ExecLoop.Ready.{
  IsReady, IsClosed-grow, IsAlike, IsAlike-trans, IsAlike-write, IsAlike-new, IsSame, IsSame-trans,
  IsSame-write, IsClosed-cache_insert,
}

-- Translating does not move the guest: the law of `gen_code`.
pub record IsMachine (m : Machine) : Type 0 where
  pub gen_pc :
      (cpu : m.Cpu) (ctx : Context) (pc n : ℕ) → m.get_pc (m.gen_code cpu ctx pc n).0 ≡ m.get_pc cpu
  pub gen_flags :
      (cpu : m.Cpu) (ctx : Context) (pc n : ℕ)
      → m.get_flags (m.gen_code cpu ctx pc n).0 ≡ m.get_flags cpu

set_offsets-some :
    (offsets : List (ℕ × ℕ)) (t : TranslationBlock)
    → (t' : TranslationBlock) × (set_offsets 0 (take 2 offsets) t ≡ some t')
      × (entry t' ≡ entry t)
      × (t'.jmp ≡ t.jmp)
      × (t'.exit_target ≡ t.exit_target)
unfolding set_offsets set_jmp_insn_offset set_jmp_reset_offset
set_offsets-some [] t = (t, refl, refl, refl, refl)
set_offsets-some (a ∷ []) t = (_, refl, refl, refl, refl)
set_offsets-some (a ∷ b ∷ offsets) t = (_, refl, refl, refl, refl)

module _ (m : Machine) (law : IsMachine m) where
  record IsFilled (e e' : Env m) : Type 0 where
    pub same : IsSame e.store e'.store
    pub cache : e'.jump_cache ≡ e.jump_cache
    pub pc : m.get_pc e'.cpu ≡ m.get_pc e.cpu
    pub flags : m.get_flags e'.cpu ≡ m.get_flags e.cpu

  fill_block-some :
      (e : Env m) (idx pc : ℕ)
      → idx < length e.store.tbs
      → (e' : Env m) × (fill_block m e idx pc ≡ some e') × IsFilled e e'
  unfolding fill_block get
  fill_block-some e idx pc h =
      let ctx = record (reset e.ir_ctx) { tb_idx = idx % 2 ^ 32 } in
      let gen = m.gen_code e.cpu ctx pc (max_insns 0) in
      let out = m.translate gen.1 e.code in
      let f1 : TranslationBlock → TranslationBlock = λ t. record t { size = gen.2 } in
      let f2 : TranslationBlock → TranslationBlock =
        λ t. record t { host_offset = out.2; host_size = m.offset out.1 - out.2 } in
      let (t, found) = get_elem?-of_lt e.store.tbs idx h in
      let s1 : TbStore = record e.store { tbs = modify e.store.tbs idx f1 } in
      let found1 = get_elem?-modify_self e.store.tbs idx f1 found in
      let same1 = IsSame-write e.store idx f1 t found refl refl refl in
      let h1 : idx < length s1.tbs = rw same1.kept.size h in
      let s2 : TbStore = record s1 { tbs = modify s1.tbs idx f2 } in
      let found2 = get_elem?-modify_self s1.tbs idx f2 found1 in
      let same2 = IsSame-write s1 idx f2 (f1 t) found1 refl refl refl in
      let h2 : idx < length s2.tbs = rw same2.kept.size h1 in
      let (t', done, same_entry, same_jmp, same_target) = set_offsets-some out.3 (f2 (f1 t)) in
      let f3 : TranslationBlock → TranslationBlock = λ u. t' in
      let s3 : TbStore = record s2 { tbs = modify s2.tbs idx f3 } in
      let same3 = IsSame-write s2 idx f3 (f2 (f1 t)) found2 same_entry same_jmp same_target in
      (
        record e { store = s3; code = out.1; ir_ctx = out.0; cpu = gen.0 },
        rw
            (
              write-some e.store idx f1 h,
              write-some s1 idx f2 h1,
              found2,
              done,
              write-some s2 idx f3 h2,
            )
            refl,
        record {
          same = IsSame-trans e.store s1 s3 same1 (IsSame-trans s1 s2 s3 same2 same3);
          cache = refl;
          pc = law.gen_pc e.cpu ctx pc (max_insns 0);
          flags = law.gen_flags e.cpu ctx pc (max_insns 0);
        },
      )

  -- A block that fits, and a state that is fit to go on with it.
  pub record IsFound (e : Env m) (pc flags : ℕ) (e' : Env m) (idx : ℕ) : Type 0 where
    pub ready : IsReady m e'
    pub longer : length e.store.tbs ≤ length e'.store.tbs
    pub one_more : length e'.store.tbs ≤ length e.store.tbs + 1
    pub inside : idx < length e'.store.tbs
    pub fits : hits (view e'.store.tbs) pc flags idx ≡ true
    pub same_pc : m.get_pc e'.cpu ≡ m.get_pc e.cpu
    pub same_flags : m.get_flags e'.cpu ≡ m.get_flags e.cpu

  pub gen_block-some :
      (e : Env m) (pc flags : ℕ)
      → IsReady m e
      → length e.store.tbs < max_tbs
      → (e' : Env m) × (gen_block m e pc flags ≡ some (e', some (length e.store.tbs)))
        × IsFound e pc flags e' (length e.store.tbs)
  unfolding gen_block new_block
  gen_block-some e pc flags ready room =
      let t = new_block pc flags 0 in
      let idx = length e.store.tbs in
      let s1 : TbStore = record e.store { tbs = e.store.tbs ++ t ∷ [] } in
      let len1 : length s1.tbs ≡ suc idx = omega (arith, length-append e.store.tbs (t ∷ [])) in
      let e0 : Env m = record e { store = s1 } in
      let (e1, filled, full) = fill_block-some e0 idx pc (omega (arith, len1)) in
      let same = full.same in
      let len2 : length e1.store.tbs ≡ suc idx = same.kept.size ∙ len1 in
      let (u, found) = get_elem?-of_lt e1.store.tbs idx (omega (arith, len2)) in
      let shown : some (entry u) ≡ some (entry t) =
        sym (view-some e1.store.tbs idx u found)
        ∙ same.kept.views idx
        ∙ view-some s1.tbs idx t (get_elem?-append_length e.store.tbs t) in
      let known : entry u ≡ entry t = cc in
      let valid : u.invalid ≡ false = ap (λ (r : Entry). r.invalid) known in
      let at_pc : u.pc ≡ pc = ap (λ (r : Entry). r.pc) known in
      let at_flags : u.flags ≡ flags = ap (λ (r : Entry). r.flags) known in
      let linked =
        Linked-congr (view s1.tbs) (view e1.store.tbs) s1.hash idx (λ i k. same.kept.views i)
          (Linked-append e.store t ready.store) in
      let (s2, inserted, hooked, store, finds) =
        insert_last e1.store idx u len2 found valid (rw same.kept.hash linked) in
      let now : lookup s2 pc flags ≡ some (some idx) =
        finds pc flags ∙ rw (at_pc, at_flags, ==_refl pc, ==_refl flags) refl in
      let (inside, fits) = lookup-hits s2 pc flags idx store now in
      let hook : TranslationBlock → TranslationBlock =
        λ b. record b { hash_next = e1.store.hash (hash_bucket u.pc u.flags) } in
      let len3 : length s2.tbs ≡ suc idx =
        ap length hooked ∙ length-modify e1.store.tbs idx hook ∙ len2 in
      let last : IsAlike e1.store.tbs s2.tbs =
        rw hooked (IsAlike-write e1.store idx hook u found refl refl) in
      let alike =
        IsAlike-trans e.store.tbs s1.tbs s2.tbs
          (IsAlike-new e.store.tbs pc flags 0 (omega (arith, len1)))
          (IsAlike-trans s1.tbs e1.store.tbs s2.tbs same.alike last) in
      (
        record e1 { store = s2; jump_cache = cache_insert e1.jump_cache pc idx },
        rw (alloc-some e.store pc flags 0 room, filled, inserted) refl,
        record {
          ready = record {
            store = store;
            closed = rw full.cache (
                IsClosed-cache_insert s2.tbs e.jump_cache pc idx
                  (IsClosed-grow e.store.tbs s2.tbs e.jump_cache alike ready.closed) inside);
          };
          longer = omega (arith, len3);
          one_more = omega (arith, len3);
          inside = inside;
          fits = fits;
          same_pc = full.pc;
          same_flags = full.flags;
        },
      )
