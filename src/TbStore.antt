-- ===== src/TbStore.antt =====
-- exec/src/tb_store.rs: the store of translated blocks, with its hash table and the chained jumps.
-- One thread is modelled: a lock and an atomic cell are their contents. `none` is a panic, or a walk
-- of a chain that is longer than the store.
pub mod Chain
pub mod View
pub mod Relink
pub mod Lookup
pub mod Facts
pub mod Insert
pub mod Splice
pub mod Remove
pub mod Links
pub mod Patches
pub mod Leads
pub mod Unlink
pub mod Cut
pub mod Mark
pub mod Invalidate
use tcg_rs.Base.{
  ℕ, zero, suc, ◌+◌, List, [], ◌∷◌, ◌++◌, Bool, true, false, not, ◌&&◌, Option, none, some, length,
  get_elem?, modify, filter, ltb, ◌==◌, if◌then◌else◌, ◌>>=◌,
}
use tcg_rs.Tb.{TranslationBlock, TbJmpState, Slots, set_slot, new_block, hash_bucket}

abbrev pub max_tbs : ℕ
max_tbs = 65536

-- `hash` is the array of the buckets' first blocks. `len` is the length of `tbs`.
pub record TbStore : Type 0 where
  pub tbs : List TranslationBlock
  pub hash : ℕ → Option ℕ

-- The trait `HostCodeGen` with the code buffer, of which the store calls `patch_jump` alone.
pub record Host : Type 1 where
  pub Code : Type 0
  pub patch_jump : Code → ℕ → ℕ → Code

unfoldable pub new_store : TbStore
new_store = record { tbs = []; hash = λ _. none }

unfoldable pub alloc : TbStore → ℕ → ℕ → ℕ → Option (TbStore × ℕ)
unfolding new_block
alloc s pc flags cflags =
    let idx = length s.tbs in
    if ltb idx max_tbs
    then some (record s { tbs = s.tbs ++ new_block pc flags cflags ∷ [] }, idx)
    else none

unfoldable pub get : TbStore → ℕ → Option TranslationBlock
get s idx = get_elem? s.tbs idx

-- A write through `get_mut`, or through a lock.
unfoldable pub write : TbStore → ℕ → (TranslationBlock → TranslationBlock) → Option TbStore
write s idx f =
    if ltb idx (length s.tbs) then some (record s { tbs = modify s.tbs idx f }) else none

abbrev pub is_match : TranslationBlock → ℕ → ℕ → Bool
is_match tb pc flags = not tb.invalid && (tb.pc == pc && tb.flags == flags)

unfoldable pub lookup_from : ℕ → List TranslationBlock → Option ℕ → ℕ → ℕ → Option (Option ℕ)
lookup_from fuel tbs none pc flags = some none
lookup_from zero tbs (some idx) pc flags = none
lookup_from (suc fuel) tbs (some idx) pc flags = elim (get_elem? tbs idx) [
  | none ↦ none
  | some tb ↦
      let further = lookup_from fuel tbs tb.hash_next pc flags in
      if is_match tb pc flags then some (some idx) else further
]

unfoldable pub lookup : TbStore → ℕ → ℕ → Option (Option ℕ)
unfolding lookup_from
lookup s pc flags = lookup_from (length s.tbs) s.tbs (s.hash (hash_bucket pc flags)) pc flags

abbrev pub set_bucket : (ℕ → Option ℕ) → ℕ → Option ℕ → ℕ → Option ℕ
set_bucket hash b v k = if k == b then v else hash k

unfoldable pub insert : TbStore → ℕ → Option TbStore
unfolding get write
insert s tb_idx = do
  tb ← get s tb_idx
  let bucket = hash_bucket tb.pc tb.flags
  s' ← write s tb_idx (λ t. record t { hash_next = s.hash bucket })
  some (record s' { hash = set_bucket s'.hash bucket (some tb_idx) })

abbrev pub clear_dest : ℕ → TranslationBlock → TranslationBlock
clear_dest slot t = record t { jmp = record t.jmp { jmp_dest = set_slot t.jmp.jmp_dest slot none } }

module _ (host : Host) where
  open host use {Code, patch_jump}

  -- `reset_jump`, with its two optional offsets.
  abbrev pub reset_at : Option ℕ → Option ℕ → Code → Code
  reset_at (some jmp) (some reset) code = patch_jump code jmp reset
  reset_at _ _ code = code

  unfoldable pub reset_jump : TranslationBlock → ℕ → Code → Code
  reset_jump tb slot code = reset_at (tb.jmp_insn_offset slot) (tb.jmp_reset_offset slot) code

  -- The loop over the incoming edges.
  unfoldable pub unlink_incoming : List (ℕ × ℕ) → TbStore × Code → Option (TbStore × Code)
  unfolding get write reset_jump
  unlink_incoming [] s = some s
  unlink_incoming ((src, slot) ∷ edges) (s, code) = do
    tb ← get s src
    s' ← write s src (clear_dest slot)
    unlink_incoming edges (s', reset_jump tb slot code)

abbrev pub is_edge : ℕ → ℕ → ℕ × ℕ → Bool
is_edge src slot e = e.0 == src && e.1 == slot

abbrev pub drop_edge : ℕ → ℕ → TranslationBlock → TranslationBlock
drop_edge src slot t = record t {
  jmp = record t.jmp { jmp_list = filter (λ e. not (is_edge src slot e)) t.jmp.jmp_list };
}

-- One outgoing edge, where there is one: the destination forgets it.
unfoldable pub unlink_outgoing : ℕ → ℕ → Option ℕ → TbStore → Option TbStore
unfolding write
unlink_outgoing src slot none s = some s
unlink_outgoing src slot (some dst) s = write s dst (drop_edge src slot)

-- The block `idx` found behind `prev`: what was behind it comes in its place.
unfoldable pub splice : ℕ → ℕ → Option ℕ → Option ℕ → TbStore → Option TbStore
unfolding write
splice bucket idx none next s =
    write (record s { hash = set_bucket s.hash bucket next }) idx
      (λ t. record t { hash_next = none })
splice bucket idx (some p) next s = do
  s' ← write s p (λ t. record t { hash_next = next })
  write s' idx (λ t. record t { hash_next = none })

-- The walk that removes a block from its chain.
unfoldable pub remove_from : ℕ → ℕ → ℕ → Option ℕ → Option ℕ → TbStore → Option TbStore
unfolding splice
remove_from fuel bucket tb_idx prev none s = some s
remove_from zero bucket tb_idx prev (some idx) s = none
remove_from (suc fuel) bucket tb_idx prev (some idx) s = elim (get_elem? s.tbs idx) [
  | none ↦ none
  | some tb ↦
      let further = remove_from fuel bucket tb_idx (some idx) tb.hash_next s in
      if idx == tb_idx then splice bucket idx prev tb.hash_next s else further
]

unfoldable pub remove_chained : ℕ → TbStore → Option TbStore
unfolding get remove_from
remove_chained tb_idx s = do
  tb ← get s tb_idx
  let bucket = hash_bucket tb.pc tb.flags
  remove_from (length s.tbs) bucket tb_idx none (s.hash bucket) s

abbrev pub take_list : TranslationBlock → TranslationBlock
take_list t = record t { jmp = record t.jmp { jmp_list = [] } }

abbrev pub take_dests : TranslationBlock → TranslationBlock
take_dests t = record t {
  jmp = record t.jmp { jmp_dest = set_slot (set_slot t.jmp.jmp_dest 0 none) 1 none };
}

module _ (host : Host) where
  open host use {Code, patch_jump}

  unfoldable pub unlink_edges : ℕ → TbStore × Code → Option (TbStore × Code)
  unfolding get write unlink_incoming unlink_outgoing
  unlink_edges tb_idx (s, code) = do
    tb ← get s tb_idx
    s1 ← write s tb_idx take_list
    (s2, code') ← unlink_incoming host tb.jmp.jmp_list (s1, code)
    tb' ← get s2 tb_idx
    s3 ← write s2 tb_idx take_dests
    s4 ← unlink_outgoing tb_idx 0 (tb'.jmp.jmp_dest 0) s3
    s5 ← unlink_outgoing tb_idx 1 (tb'.jmp.jmp_dest 1) s4
    some (s5, code')

  unfoldable pub invalidate : ℕ → TbStore × Code → Option (TbStore × Code)
  unfolding write unlink_edges remove_chained
  invalidate tb_idx (s, code) = do
    s1 ← write s tb_idx (λ t. record t { invalid = true })
    (s2, code') ← unlink_edges tb_idx (s1, code)
    s3 ← remove_chained tb_idx s2
    some (s3, code')

unfoldable pub flush : TbStore → TbStore
flush s = record { tbs = []; hash = λ _. none }
