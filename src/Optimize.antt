-- ===== src/Optimize.antt =====
-- backend/src/optimize.rs: what the optimizer knows of each temporary while it walks a block.
pub mod Eval
pub mod Rules
pub mod Fold
pub mod Pass
pub mod Known
pub mod Facts
pub mod Block
pub mod Sound
use tcg_rs.Base.{
  ℕ, zero, suc, ◌+◌, ◌-◌, List, [], ◌∷◌, ◌++◌, map, Bool, true, false, Option, none, some, length,
  get_or, set, replicate, ltb, ◌==◌, ◌&&◌, not, if◌then◌else◌, get_elem?,
}
use tcg_rs.Temp.{Temp, TempIdx, is_const}
use tcg_rs.Op.{Args}
use tcg_rs.Context.{Context}

pub record TempInfo : Type 0 where
  pub is_const : Bool
  pub val : ℕ
  pub copy_of : Option TempIdx

-- `TempInfo::default()`.
abbrev pub default_info : TempInfo
default_info = record { is_const = false; val = 0; copy_of = none }

abbrev pub Info : Type 0
Info = List TempInfo

-- The entry of a temporary, the default one out of range.
unfoldable pub ti : Info → TempIdx → TempInfo
ti info t = get_or info t default_info

unfoldable pub resolve_copy : Info → TempIdx → Option TempIdx
resolve_copy info t = if ltb t (length info) then (get_or info t default_info).copy_of else none

unfoldable pub clear_copy : TempInfo → TempInfo
clear_copy x = record x { copy_of = none }

unfoldable pub reset_copies : Info → Info
unfolding clear_copy
reset_copies info = map clear_copy info

-- Clears an entry that is a copy of `dst`.
unfoldable pub drop_copy_of : TempIdx → TempInfo → TempInfo
drop_copy_of dst x = elim x.copy_of [
  | none ↦ x
  | some s ↦ if s == dst then record x { copy_of = none } else x
]

unfoldable pub ensure_info : Info → TempIdx → Info
ensure_info info i =
    if ltb i (length info) then info else info ++ replicate (i + 1 - length info) default_info

-- The entry of `dst`, changed where it is.
unfoldable pub update_info : Info → TempIdx → (TempInfo → TempInfo) → Info
update_info info dst change = set info dst (change (get_or info dst default_info))

abbrev pub forget : TempInfo → TempInfo
forget x = record x { is_const = false; copy_of = none }

unfoldable pub set_const : Info → TempIdx → ℕ → Info
unfolding ensure_info update_info
set_const info dst v =
    update_info (ensure_info info dst) dst
      (λ x. record { is_const = true; val = v; copy_of = none })

unfoldable pub set_copy : Info → TempIdx → TempIdx → Info
unfolding ensure_info update_info ti
set_copy info dst src =
    let info' = ensure_info info dst in
    let si = ti info' src in
    update_info info' dst (λ x.
      if si.is_const
      then record x { is_const = true; val = si.val; copy_of = none }
      else record x { is_const = false; copy_of = some src })

unfoldable pub invalidate_one : Info → TempIdx → Info
unfolding ensure_info update_info drop_copy_of
invalidate_one info dst = map (drop_copy_of dst) (update_info (ensure_info info dst) dst forget)

-- `ctx.temp(t).is_const()`. Out of range the source panics; here the answer is no.
unfoldable pub is_const_temp : List Temp → TempIdx → Bool
is_const_temp temps t = elim (get_elem? temps t) [ none ↦ false | some tm ↦ is_const tm ]

-- One round of `invalidate_outputs`.
unfoldable pub invalidate_output : List Temp → Info → TempIdx → Info
unfolding is_const_temp update_info drop_copy_of
invalidate_output temps info t =
    if ltb t (length info) && not (is_const_temp temps t)
    then map (drop_copy_of t) (update_info info t forget)
    else info

-- The rounds from slot `i` on.
unfoldable pub invalidate_outputs : List Temp → Args → ℕ → ℕ → Info → Info
unfolding invalidate_output
invalidate_outputs temps args i zero info = info
invalidate_outputs temps args i (suc n) info =
    invalidate_outputs temps args (i + 1) n (invalidate_output temps info (args i))
