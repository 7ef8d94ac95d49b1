-- ===== src/Optimize/Facts.antt =====
-- backend/src/optimize.rs: when the table of known facts is right about a state, and what keeps it
-- so when one temporary is redefined.
use tcg_rs.Base.{
  ℕ, ◌^◌, ◌<◌, ◌≡◌, ◌≢◌, ◌⊎◌, ap, refl, sym, ◌∙◌, List, true, false, none, some, ◌==◌,
  if◌then◌else◌, arith, inl, inr,
}
use tcg_rs.Temp.{Temp, TempIdx}
use tcg_rs.Semantics.{value, update}
use tcg_rs.Optimize.{TempInfo, Info, ti, reset_copies, clear_copy, drop_copy_of, forget}
use tcg_rs.Optimize.Known.{dropped, ti-reset_copies}

-- `temps` is the list of temporaries by which values are read.
pub record IsRight (temps : List Temp) (info : Info) (env : ℕ → ℕ) : Type 0 where
  pub constants : (t : TempIdx) → (ti info t).is_const ≡ true → value temps env t ≡ (ti info t).val
  pub fits : (t : TempIdx) → (ti info t).is_const ≡ true → (ti info t).val < 2 ^ 64
  pub copies :
      (t s : TempIdx) → (ti info t).copy_of ≡ some s → value temps env t ≡ value temps env s

-- No entry but that of `d` is a copy of `d`.
abbrev pub NoCopyOf : TempIdx → Info → Type 0
NoCopyOf d info = (t s : TempIdx) → (ti info t).copy_of ≡ some s → s ≢ d

-- Only the value of `d` differs.
abbrev pub SameBut : List Temp → TempIdx → (ℕ → ℕ) → (ℕ → ℕ) → Type 0
SameBut temps d env env' = (t : TempIdx) → t ≢ d → value temps env' t ≡ value temps env t

-- The sources of the copies have the values that they had.
abbrev pub Unmoved : List Temp → Info → (ℕ → ℕ) → (ℕ → ℕ) → Type 0
Unmoved temps info env env' =
    (t s : TempIdx) → (ti info t).copy_of ≡ some s → value temps env' s ≡ value temps env s

pub NoCopyOf-Unmoved :
    (temps : List Temp) (info : Info) (d : TempIdx) (env env' : ℕ → ℕ)
    → NoCopyOf d info
    → SameBut temps d env env'
    → Unmoved temps info env env'
NoCopyOf-Unmoved temps info d env env' alone same t s h = same s (alone t s h)

pub SameBut-update :
    (temps : List Temp) (d : TempIdx) (v : ℕ) (env : ℕ → ℕ) → SameBut temps d env (update env d v)
SameBut-update temps d v env t ne = ground arith

drop_copy_of-const :
    (d : TempIdx) (x : TempInfo)
    → ((drop_copy_of d x).is_const ≡ x.is_const) × ((drop_copy_of d x).val ≡ x.val)
unfolding drop_copy_of
drop_copy_of-const d x = (ground arith, ground arith)

drop_copy_of-copy :
    (d s : TempIdx) (x : TempInfo)
    → (drop_copy_of d x).copy_of ≡ some s
    → (x.copy_of ≡ some s) × (s ≢ d)
unfolding drop_copy_of
drop_copy_of-copy d s x h = (ground arith, ground arith)

-- A test of two indices.
pub if-eq : (t d : TempIdx) (x y : TempInfo) → t ≡ d → (if t == d then x else y) ≡ x
if-eq t d x y e = ground arith

pub if-ne : (t d : TempIdx) (x y : TempInfo) → t ≢ d → (if t == d then x else y) ≡ y
if-ne t d x y e = ground arith

pub same_or_not : (t d : TempIdx) → (t ≡ d) ⊎ (t ≢ d)
same_or_not t d = omega arith

forgotten :
    (d : TempIdx) (x : TempInfo)
    → ((drop_copy_of d (forget x)).is_const ≡ false) × ((drop_copy_of d (forget x)).copy_of ≡ none)
unfolding drop_copy_of
forgotten d x = (refl, refl)

-- A copy that is left was there before.
pub dropped-copy :
    (d : TempIdx) (info : Info) (t s : TempIdx)
    → (dropped d info t).copy_of ≡ some s
    → (ti info t).copy_of ≡ some s
dropped-copy d info t s h = elim (same_or_not t d) [
  | inl q ↦ absurd (
      cc (
        rw (if-eq t d (drop_copy_of d (forget (ti info d))) (drop_copy_of d (ti info t)) q) at h,
        (forgotten d (ti info d)).1,
      ))
  | inr ne ↦
      (drop_copy_of-copy d s (ti info t) (
        rw (if-ne t d (drop_copy_of d (forget (ti info d))) (drop_copy_of d (ti info t)) ne) at
          h)).0
]

module _ (temps : List Temp) (info info' : Info) (d : TempIdx) (env env' : ℕ → ℕ)
    (right : IsRight temps info env) (same : SameBut temps d env env') where
  -- Where an entry is as it was, so is what it says.
  kept_const :
      (t : TempIdx)
      → t ≢ d
      → (ti info' t).is_const ≡ (ti info t).is_const
      → (ti info' t).val ≡ (ti info t).val
      → (ti info' t).is_const ≡ true
      → (value temps env' t ≡ (ti info' t).val) × ((ti info' t).val < 2 ^ 64)
  kept_const t ne e f h =
      (same t ne ∙ right.constants t (sym e ∙ h) ∙ sym f, rw f (right.fits t (sym e ∙ h)))

  kept_copy :
      (t s : TempIdx)
      → t ≢ d
      → s ≢ d
      → (ti info t).copy_of ≡ some s
      → value temps env' t ≡ value temps env' s
  kept_copy t s ne ne' h = same t ne ∙ right.copies t s h ∙ sym (same s ne')

  module _ (e : (t : TempIdx) → ti info' t ≡ dropped d info t) where
    dropped_self :
        (t : TempIdx) → t ≡ d → ((ti info' t).is_const ≡ false) × ((ti info' t).copy_of ≡ none)
    dropped_self t q = rw (e t, if-eq t d _ _ q) (forgotten d (ti info d))

    dropped_other : (t : TempIdx) → t ≢ d → ti info' t ≡ drop_copy_of d (ti info t)
    dropped_other t ne = e t ∙ if-ne t d _ _ ne

    dropped_const :
        (t : TempIdx)
        → (ti info' t).is_const ≡ true
        → (value temps env' t ≡ (ti info' t).val) × ((ti info' t).val < 2 ^ 64)
    dropped_const t h = elim (same_or_not t d) [
      | inl q ↦ absurd (cc (dropped_self t q).0)
      | inr ne ↦
          let q = drop_copy_of-const d (ti info t) in
          kept_const t ne (ap (λ (x : TempInfo). x.is_const) (dropped_other t ne) ∙ q.0)
            (ap (λ (x : TempInfo). x.val) (dropped_other t ne) ∙ q.1) h
    ]

    dropped_copy :
        (t s : TempIdx) → (ti info' t).copy_of ≡ some s → value temps env' t ≡ value temps env' s
    dropped_copy t s h = elim (same_or_not t d) [
      | inl q ↦ absurd (cc (dropped_self t q).1)
      | inr ne ↦
          let q =
            drop_copy_of-copy d s (ti info t)
              (sym (ap (λ (x : TempInfo). x.copy_of) (dropped_other t ne)) ∙ h) in
          kept_copy t s ne q.1 q.0
    ]

    -- Nothing is known of `d` afterwards, and no copy of it is left.
    pub IsRight-dropped : IsRight temps info' env'
    IsRight-dropped = record {
      constants = λ t h. (dropped_const t h).0;
      fits = λ t h. (dropped_const t h).1;
      copies = dropped_copy;
    }

  module _ (alone : Unmoved temps info env env') (x : TempInfo)
      (e : (t : TempIdx) → ti info' t ≡ (if t == d then x else ti info t)) where
    set_self : (t : TempIdx) → t ≡ d → ti info' t ≡ x
    set_self t q = e t ∙ if-eq t d _ _ q

    set_other : (t : TempIdx) → t ≢ d → ti info' t ≡ ti info t
    set_other t ne = e t ∙ if-ne t d _ _ ne

    -- What the new entry of `d` says is right.
    pub IsRight-set :
        (x.is_const ≡ true → (value temps env' d ≡ x.val) × (x.val < 2 ^ 64))
        → ((s : TempIdx) → x.copy_of ≡ some s → value temps env' d ≡ value temps env' s)
        → IsRight temps info' env'
    IsRight-set new_const new_copy = record {
      constants = λ t h. (set_const_at t h).0;
      fits = λ t h. (set_const_at t h).1;
      copies = set_copy_at;
    }
      where
        set_const_at :
            (t : TempIdx)
            → (ti info' t).is_const ≡ true
            → (value temps env' t ≡ (ti info' t).val) × ((ti info' t).val < 2 ^ 64)
        set_const_at t h = elim (same_or_not t d) [
          | inl q ↦
              let r = new_const (sym (ap (λ (y : TempInfo). y.is_const) (set_self t q)) ∙ h) in
              rw (set_self t q, q) r
          | inr ne ↦
              kept_const t ne (ap (λ (y : TempInfo). y.is_const) (set_other t ne))
                (ap (λ (y : TempInfo). y.val) (set_other t ne)) h
        ]

        set_copy_at :
            (t s : TempIdx)
            → (ti info' t).copy_of ≡ some s
            → value temps env' t ≡ value temps env' s
        set_copy_at t s h = elim (same_or_not t d) [
          | inl q ↦ rw q (new_copy s (sym (ap (λ (y : TempInfo). y.copy_of) (set_self t q)) ∙ h))
          | inr ne ↦
              let c = sym (ap (λ (y : TempInfo). y.copy_of) (set_other t ne)) ∙ h in
              same t ne ∙ right.copies t s c ∙ sym (alone t s c)
        ]

-- Forgetting all copies.
pub IsRight-reset_copies :
    (temps : List Temp) (info : Info) (env : ℕ → ℕ)
    → IsRight temps info env
    → IsRight temps (reset_copies info) env
unfolding clear_copy
IsRight-reset_copies temps info env right = record {
  constants =
      λ t h. rw (ti-reset_copies info t) (right.constants t (rw (ti-reset_copies info t) at h));
  fits = λ t h. rw (ti-reset_copies info t) (right.fits t (rw (ti-reset_copies info t) at h));
  copies = λ t s h. absurd (cc (rw (ti-reset_copies info t) at h));
}
