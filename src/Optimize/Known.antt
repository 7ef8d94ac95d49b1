-- ===== src/Optimize/Known.antt =====
-- backend/src/optimize.rs: every change of the table of known facts, read entry by entry.
use tcg_rs.Base.{
  ℕ, zero, suc, ◌+◌, ◌-◌, ◌≤◌, ◌<◌, ◌≡◌, refl, sym, ap, ◌∙◌, List, [], ◌∷◌, map, Bool, true, false,
  none, some, length, get_or, replicate, ltb, ◌==◌, ◌&&◌, not, if◌then◌else◌, arith, Bool-cases,
  inl, inr, length-append, length-set, length-replicate, get_or-set_self, get_or-set_ne,
  get_or-append_replicate,
}
use tcg_rs.Temp.{TempIdx, Temp}
use tcg_rs.Optimize.{
  TempInfo, Info, default_info, ti, resolve_copy, clear_copy, reset_copies, drop_copy_of,
  ensure_info, update_info, set_const, set_copy, invalidate_one, is_const_temp, invalidate_output,
  forget,
}

get_or-map :
    (f : TempInfo → TempInfo)
    → f default_info ≡ default_info
    → (info : Info) (t : TempIdx)
    → get_or (map f info) t default_info ≡ f (get_or info t default_info)
get_or-map f e [] t = sym e
get_or-map f e (x ∷ info) zero = refl
get_or-map f e (x ∷ info) (suc t) = get_or-map f e info t

length-map : (f : TempInfo → TempInfo) (info : Info) → length (map f info) ≡ length info
length-map f [] = refl
length-map f (x ∷ info) = ap suc (length-map f info)

pub resolve_copy-ti : (info : Info) (t : TempIdx) → resolve_copy info t ≡ (ti info t).copy_of
unfolding resolve_copy ti
resolve_copy-ti [] t = ground arith
resolve_copy-ti (x ∷ info) zero = ground arith
resolve_copy-ti (x ∷ info) (suc t) = ground (arith, resolve_copy-ti info t)

ti-ensure_info : (info : Info) (i t : TempIdx) → ti (ensure_info info i) t ≡ ti info t
unfolding ti ensure_info
ti-ensure_info info i t = elim (Bool-cases (ltb i (length info))) [
  | inl e ↦ rw e
  | inr e ↦ rw e (get_or-append_replicate info (i + 1 - length info) t default_info)
]

length-ensure_info :
    (info : Info) (i : TempIdx)
    → (i < length (ensure_info info i)) × (length info ≤ length (ensure_info info i))
unfolding ensure_info
length-ensure_info info i = ground (
  arith,
  length-append info (replicate (i + 1 - length info) default_info),
  length-replicate (i + 1 - length info) default_info,
)

ti-update_info :
    (info : Info) (d : TempIdx) (f : TempInfo → TempInfo) (t : TempIdx)
    → d < length info
    → ti (update_info info d f) t ≡ (if t == d then f (ti info d) else ti info t)
unfolding ti update_info
ti-update_info info d f t h = ground (
  arith,
  get_or-set_self info d (f (get_or info d default_info)) default_info,
  get_or-set_ne info d t (f (get_or info d default_info)) default_info,
)

pub ti-update_ensured :
    (info : Info) (d : TempIdx) (f : TempInfo → TempInfo) (t : TempIdx)
    → ti (update_info (ensure_info info d) d f) t ≡ (if t == d then f (ti info d) else ti info t)
ti-update_ensured info d f t = rw (
  ti-update_info (ensure_info info d) d f t (length-ensure_info info d).0,
  ti-ensure_info info d d,
  ti-ensure_info info d t,
)

pub ti-set_const :
    (info : Info) (d : TempIdx) (v : ℕ) (t : TempIdx)
    → ti (set_const info d v) t
      ≡ (if t == d then record { is_const = true; val = v; copy_of = none } else ti info t)
unfolding set_const
ti-set_const info d v t =
    ti-update_ensured info d (λ x. record { is_const = true; val = v; copy_of = none }) t

-- The entry of a copy.
abbrev pub copied : TempInfo → TempIdx → TempInfo → TempInfo
copied si s x =
    if si.is_const
    then record x { is_const = true; val = si.val; copy_of = none }
    else record x { is_const = false; copy_of = some s }

pub ti-set_copy :
    (info : Info) (d s t : TempIdx)
    → ti (set_copy info d s) t ≡ (if t == d then copied (ti info s) s (ti info d) else ti info t)
unfolding set_copy
ti-set_copy info d s t =
    rw (ti-update_ensured info d (copied (ti (ensure_info info d) s) s) t, ti-ensure_info)

drop_default : (d : TempIdx) → drop_copy_of d default_info ≡ default_info
unfolding drop_copy_of
drop_default d = refl

pub ti-map-drop :
    (info : Info) (d t : TempIdx) → ti (map (drop_copy_of d) info) t ≡ drop_copy_of d (ti info t)
unfolding ti
ti-map-drop info d t = get_or-map (drop_copy_of d) (drop_default d) info t

-- What redefining `d` leaves of the entry of `t`.
abbrev pub dropped : TempIdx → Info → TempIdx → TempInfo
dropped d info t =
    if t == d then drop_copy_of d (forget (ti info d)) else drop_copy_of d (ti info t)

push_drop :
    (d : TempIdx) (b : Bool) (x y : TempInfo)
    → drop_copy_of d (if b then x else y) ≡ (if b then drop_copy_of d x else drop_copy_of d y)
push_drop d true x y = refl
push_drop d false x y = refl

pub ti-invalidate_one :
    (info : Info) (d t : TempIdx) → ti (invalidate_one info d) t ≡ dropped d info t
unfolding invalidate_one
ti-invalidate_one info d t =
    ti-map-drop _ d t ∙ (rw (ti-update_ensured info d forget t) (push_drop d (t == d) _ _))

pub ti-reset_copies :
    (info : Info) (t : TempIdx) → ti (reset_copies info) t ≡ clear_copy (ti info t)
unfolding ti reset_copies clear_copy
ti-reset_copies info t = get_or-map clear_copy refl info t

-- An output in range that is no constant is redefined; any other leaves the table alone.
pub ti-invalidate_output :
    (temps : List Temp) (info : Info) (d t : TempIdx)
    → ti (invalidate_output temps info d) t
      ≡ (if ltb d (length info) && not (is_const_temp temps d) then dropped d info t else ti info t)
unfolding invalidate_output
ti-invalidate_output temps info d t = elim (Bool-cases (ltb d (length info))) [
  | inr e ↦ rw e
  | inl e ↦ elim (Bool-cases (is_const_temp temps d)) [
    | inl c ↦ rw (e, c)
    | inr c ↦
        rw (e, c)
          (ti-map-drop _ d t
            ∙ (rw (ti-update_info info d forget t (ground arith)) (push_drop d (t == d) _ _)))
  ]
]

pub length-set_const :
    (info : Info) (d : TempIdx) (v : ℕ) → length info ≤ length (set_const info d v)
unfolding set_const update_info
length-set_const info d v =
    omega (arith, length-ensure_info info d, length-set {0} (ensure_info info d) d)

pub length-update_ensured :
    (info : Info) (d : TempIdx) (f : TempInfo → TempInfo)
    → length info ≤ length (update_info (ensure_info info d) d f)
unfolding update_info
length-update_ensured info d f =
    omega (arith, length-ensure_info info d, length-set {0} (ensure_info info d) d)

pub length-set_copy : (info : Info) (d s : TempIdx) → length info ≤ length (set_copy info d s)
unfolding set_copy
length-set_copy info d s = length-update_ensured info d (copied (ti (ensure_info info d) s) s)

pub length-invalidate_one :
    (info : Info) (d : TempIdx) → length info ≤ length (invalidate_one info d)
unfolding invalidate_one
length-invalidate_one info d =
    rw (length-map (drop_copy_of d)) (length-update_ensured info d forget)

pub length-reset_copies : (info : Info) → length (reset_copies info) ≡ length info
unfolding reset_copies
length-reset_copies info = length-map clear_copy info

pub length-invalidate_output :
    (temps : List Temp) (info : Info) (d : TempIdx)
    → length (invalidate_output temps info d) ≡ length info
unfolding invalidate_output update_info
length-invalidate_output temps info d =
    elim (Bool-cases (ltb d (length info) && not (is_const_temp temps d))) [
      | inl e ↦ rw (e, length-map (drop_copy_of d)) (length-set info d _)
      | inr e ↦ rw e
    ]
