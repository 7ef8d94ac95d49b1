-- ===== src/Context/Consts.antt =====
-- core/src/context.rs: constants are shared, and a new temporary leaves the others as they are.
use tcg_rs.Base.{
  ℕ, zero, suc, ltb, ap, ◌∙◌, ◌≤◌, get_elem?-lt, get_elem?-of_lt, ◌≡◌, ◌⊎◌, refl, sym, List, [],
  ◌∷◌, ◌++◌, true, none, some, length, get_elem?, ◌==◌, arith, get_elem?-append,
  get_elem?-append_length, Option-cases, Bool-cases, inl, inr, ==_iff,
}
use tcg_rs.IrType.{IrType, type_idx}
use tcg_rs.Temp
use tcg_rs.Temp.{Temp, TempIdx, is_const}
use tcg_rs.Context.{Context, get, new_const, add_const}

-- Every temporary of the first list is one of the second, under the same index.
abbrev pub Extends : List Temp → List Temp → Type 0
Extends ts us = (t : TempIdx) (x : Temp) → get_elem? ts t ≡ some x → get_elem? us t ≡ some x

pub Extends-refl : (ts : List Temp) → Extends ts ts
Extends-refl ts t x h = h

pub Extends-trans : (ts us vs : List Temp) → Extends ts us → Extends us vs → Extends ts vs
Extends-trans ts us vs h g t x e = g t x (h t x e)

-- The second list is the first with constants behind it.
pub record AddsConsts (ts us : List Temp) : Type 0 where
  pub extends : Extends ts us
  pub added : (t : TempIdx) (x : Temp) → length ts ≤ t → get_elem? us t ≡ some x → is_const x ≡ true

pub AddsConsts-refl : (ts : List Temp) → AddsConsts ts ts
AddsConsts-refl ts = record {
  extends = Extends-refl ts;
  added = λ t x h e. let inside = get_elem?-lt ts t e in absurd (omega arith);
}

pub AddsConsts-trans :
    (ts us vs : List Temp) → AddsConsts ts us → AddsConsts us vs → AddsConsts ts vs
AddsConsts-trans ts us vs h g = record {
  extends = Extends-trans ts us vs h.extends g.extends;
  added = λ t x l e. elim (Bool-cases (ltb t (length us))) [
    | inr d ↦ g.added t x (ground arith) e
    | inl d ↦
        let (y, found) = get_elem?-of_lt us t (ground arith) in
        let shown : some y ≡ some x = sym (g.extends t y found) ∙ e in
        let same : y ≡ x = cc in rw (sym same) (h.added t y l found)
  ];
}

-- `t` is a constant of the list with the value `v`.
abbrev pub IsConstant : List Temp → TempIdx → ℕ → Type 0
IsConstant ts t v = (x : Temp) × (get_elem? ts t ≡ some x) × (is_const x ≡ true) × (x.val ≡ v)

pub IsConstant-Extends :
    (ts us : List Temp) (t : TempIdx) (v : ℕ)
    → Extends ts us
    → IsConstant ts t v
    → IsConstant us t v
IsConstant-Extends ts us t v h c = (c.0, h t c.0 c.1, c.2, c.3)

-- Each entry of the tables of constants names a constant of that value.
abbrev pub HasConsts : Context → Type 0
HasConsts c = (k v : ℕ) (t : TempIdx) → get (c.const_table k) v ≡ some t → IsConstant c.temps t v

temps-add_const :
    (c : Context) (ty : IrType) (v : ℕ)
    → (add_const c ty v).0.temps ≡ c.temps ++ Temp.new_const (length c.temps) ty v ∷ []
unfolding add_const
temps-add_const c ty v = refl

-- What stands behind the temporaries `ts` once a constant is put there is that constant.
is_const-append :
    (ts : List Temp) (n : ℕ) (ty : IrType) (v t : ℕ) (x : Temp)
    → length ts ≤ t
    → get_elem? (ts ++ Temp.new_const n ty v ∷ []) t ≡ some x
    → is_const x ≡ true
unfolding Temp.new_const
is_const-append [] n ty v zero x l e =
    let same : Temp.new_const n ty v ≡ x = cc in rw (sym same) refl
is_const-append [] n ty v (suc t) x l e = absurd (cc)
is_const-append (y ∷ ts) n ty v zero x l e = absurd (omega arith)
is_const-append (y ∷ ts) n ty v (suc t) x l e = is_const-append ts n ty v t x (omega arith) e

add_const-IsConstant :
    (c : Context) (ty : IrType) (v : ℕ)
    → IsConstant (add_const c ty v).0.temps (add_const c ty v).1 v
unfolding add_const
add_const-IsConstant c ty v =
    (Temp.new_const (length c.temps) ty v, get_elem?-append_length c.temps _, refl, refl)

add_const-Extends : (c : Context) (ty : IrType) (v : ℕ) → Extends c.temps (add_const c ty v).0.temps
unfolding add_const
add_const-Extends c ty v t x h = get_elem?-append c.temps _ t h

get-add_const :
    (c : Context) (ty : IrType) (v k w : ℕ) (t : TempIdx)
    → get ((add_const c ty v).0.const_table k) w ≡ some t
    → ((w ≡ v) × (t ≡ (add_const c ty v).1)) ⊎ (get (c.const_table k) w ≡ some t)
unfolding add_const get
get-add_const c ty v k w t h = elim (Bool-cases (k == type_idx ty)) [
  | inr e ↦ inr (ground arith)
  | inl e ↦ elim (Bool-cases (v == w)) [
    | inl f ↦ inl (sym ((==_iff v w).0 f), ground arith)
    | inr f ↦ inr (ground arith)
  ]
]

add_const-HasConsts :
    (c : Context) (ty : IrType) (v : ℕ) → HasConsts c → HasConsts (add_const c ty v).0
add_const-HasConsts c ty v h k w t e = elim (get-add_const c ty v k w t e) [
  | inl p ↦ rw (p.0, p.1) (add_const-IsConstant c ty v)
  | inr g ↦ IsConstant-Extends c.temps _ t w (add_const-Extends c ty v) (h k w t g)
]

-- What allocating a constant does, whether it is new or shared.
pub record IsAllocated (c : Context) (v : ℕ) (r : Context × TempIdx) : Type 0 where
  pub table : HasConsts r.0
  pub constant : IsConstant r.0.temps r.1 v
  pub extends : Extends c.temps r.0.temps
  pub same_ops : r.0.ops ≡ c.ops

new_const-hit :
    (c : Context) (ty : IrType) (v : ℕ) {t : TempIdx}
    → get (c.const_table (type_idx ty)) v ≡ some t
    → new_const c ty v ≡ (c, t)
unfolding new_const
new_const-hit c ty v e = rw (e, new_const)

new_const-miss :
    (c : Context) (ty : IrType) (v : ℕ)
    → get (c.const_table (type_idx ty)) v ≡ none
    → new_const c ty v ≡ add_const c ty v
unfolding new_const
new_const-miss c ty v e = rw (e, new_const)

-- Where the tables hold constants of the values under which they are found, they do so after
-- `new_const`; it gives a constant of the value asked for, keeps every temporary and its index, and
-- changes no operation.
pub new_const-IsAllocated :
    (c : Context) (ty : IrType) (v : ℕ) → HasConsts c → IsAllocated c v (new_const c ty v)
new_const-IsAllocated c ty v h = elim (Option-cases (get (c.const_table (type_idx ty)) v)) [
  | inr (t, e) ↦ rw (new_const-hit c ty v e) (record {
    table = h;
    constant = h (type_idx ty) v t e;
    extends = Extends-refl c.temps;
    same_ops = refl;
  })
  | inl e ↦ rw (new_const-miss c ty v e) (record {
    table = add_const-HasConsts c ty v h;
    constant = add_const-IsConstant c ty v;
    extends = add_const-Extends c ty v;
    same_ops = unfold add_const in refl;
  })
]

add_const-AddsConsts :
    (c : Context) (ty : IrType) (v : ℕ) → AddsConsts c.temps (add_const c ty v).0.temps
add_const-AddsConsts c ty v = record {
  extends = add_const-Extends c ty v;
  added = λ t x l e.
      let shown = sym (ap (λ (us : List Temp). get_elem? us t) (temps-add_const c ty v)) ∙ e in
      is_const-append c.temps (length c.temps) ty v t x l shown;
}

pub new_const-AddsConsts :
    (c : Context) (ty : IrType) (v : ℕ) → AddsConsts c.temps (new_const c ty v).0.temps
new_const-AddsConsts c ty v = elim (Option-cases (get (c.const_table (type_idx ty)) v)) [
  | inr (t, e) ↦ rw (new_const-hit c ty v e) (AddsConsts-refl c.temps)
  | inl e ↦ rw (new_const-miss c ty v e) (add_const-AddsConsts c ty v)
]

get-add_const_self :
    (c : Context) (ty : IrType) (v : ℕ)
    → get ((add_const c ty v).0.const_table (type_idx ty)) v ≡ some (add_const c ty v).1
unfolding add_const get
get-add_const_self c ty v = ground arith

-- Asking for the same constant of a type again gives the same temporary and changes nothing.
pub new_const-new_const :
    (c : Context) (ty : IrType) (v : ℕ) → new_const (new_const c ty v).0 ty v ≡ new_const c ty v
new_const-new_const c ty v = elim (Option-cases (get (c.const_table (type_idx ty)) v)) [
  | inr (t, e) ↦ rw (new_const-hit c ty v e) (new_const-hit c ty v e)
  | inl e ↦
      rw (new_const-miss c ty v e)
        (new_const-hit (add_const c ty v).0 ty v (get-add_const_self c ty v))
]

pub new_const-ops : (c : Context) (ty : IrType) (v : ℕ) → (new_const c ty v).0.ops ≡ c.ops
new_const-ops c ty v = elim (Option-cases (get (c.const_table (type_idx ty)) v)) [
  | inr (t, e) ↦ rw (new_const-hit c ty v e) refl
  | inl e ↦ rw (new_const-miss c ty v e) (unfold add_const in refl)
]
