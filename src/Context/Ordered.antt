-- ===== src/Context/Ordered.antt =====
-- core/src/context.rs: a temporary's index is its place in the list, and the globals come first.
use tcg_rs.Base.{
  ℕ, zero, suc, ◌+◌, ◌≤◌, ◌<◌, ◌≡◌, ◌⊎◌, refl, ap, sym, ◌∙◌, List, [], ◌∷◌, ◌++◌, map, true, false,
  Option, none, some, length, get_elem?, take, ltb, ◌==◌, if◌then◌else◌, arith, Bool-cases,
  Option-cases, inl, inr, length-append, get_elem?-lt, ==_iff,
}
use mathlib.Core.Path.{subst}
use tcg_rs.IrType.{IrType, type_idx}
use tcg_rs.Temp
use tcg_rs.Temp.{Temp, TempIdx, TempKind, is_global_or_fixed}
use tcg_rs.Context.{
  Context, get, push_temp, new_temp, new_temp_tb, add_const, new_const, new_global, new_fixed,
  reset, reset_temp,
}

pub record IsOrdered (c : Context) : Type 0 where
  pub numbered : (t : TempIdx) (x : Temp) → get_elem? c.temps t ≡ some x → x.idx ≡ t
  pub first :
      (t : TempIdx) (x : Temp)
      → get_elem? c.temps t ≡ some x
      → is_global_or_fixed x ≡ ltb t c.nb_globals
  pub room : c.nb_globals ≤ length c.temps

-- What a list with one more temporary holds.
elem-pushed :
    (xs : List Temp) (x : Temp) (t : TempIdx) {y : Temp}
    → get_elem? (xs ++ x ∷ []) t ≡ some y
    → (get_elem? xs t ≡ some y) ⊎ ((t ≡ length xs) × (x ≡ y))
elem-pushed [] x zero e = inr (refl, cc)
elem-pushed [] x (suc t) e = absurd (cc)
elem-pushed (z ∷ xs) x zero e = inl e
elem-pushed (z ∷ xs) x (suc t) e = elim (elem-pushed xs x t e) [
  | inl h ↦ inl h
  | inr (h, q) ↦ inr (ap suc h, q)
]

module _ (c : Context) (h : IsOrdered c) (x : Temp) (numbered : x.idx ≡ length c.temps) where
  pushed_numbered : (t : TempIdx) (y : Temp) → get_elem? (c.temps ++ x ∷ []) t ≡ some y → y.idx ≡ t
  pushed_numbered t y e = elim (elem-pushed c.temps x t e) [
    | inl f ↦ h.numbered t y f
    | inr (q, f) ↦ sym (ap (λ (z : Temp). z.idx) f) ∙ numbered ∙ sym q
  ]

  pushed_room : length (c.temps ++ x ∷ []) ≡ suc (length c.temps)
  pushed_room = length-append c.temps (x ∷ []) ∙ omega arith

  -- A local goes behind the globals.
  local-IsOrdered : is_global_or_fixed x ≡ false → IsOrdered (push_temp c x)
  unfolding push_temp
  local-IsOrdered k = record {
    numbered = pushed_numbered;
    first = λ t y e. elim (elem-pushed c.temps x t e) [
      | inl f ↦ h.first t y f
      | inr (q, f) ↦
          sym (ap is_global_or_fixed f) ∙ k ∙ sym (not_below t c.nb_globals (omega (arith, h.room)))
    ];
    room = omega (arith, h.room, pushed_room);
  }
    where
      not_below : (t n : ℕ) → n ≤ t → ltb t n ≡ false
      not_below t n p = ground arith

  -- A global goes behind the globals, where there is no local yet.
  global-IsOrdered :
      is_global_or_fixed x ≡ true
      → length c.temps ≡ c.nb_globals
      → IsOrdered (record (push_temp c x) { nb_globals = c.nb_globals + 1 })
  unfolding push_temp
  global-IsOrdered k all = record {
    numbered = pushed_numbered;
    first = λ t y e. elim (elem-pushed c.temps x t e) [
      | inl f ↦
          h.first t y f
          ∙ below t c.nb_globals (omega (arith, get_elem?-lt c.temps t f))
          ∙ sym (below t (c.nb_globals + 1) (omega (arith, get_elem?-lt c.temps t f)))
      | inr (q, f) ↦
          sym (ap is_global_or_fixed f) ∙ k ∙ sym (below t (c.nb_globals + 1) (omega arith))
    ];
    room = omega (arith, pushed_room);
  }
    where
      below : (t n : ℕ) → t < n → ltb t n ≡ true
      below t n p = ground arith

-- A new local, in a block or in the whole translation block, keeps the temporaries numbered and the
-- globals first; so does a constant, new or shared.
pub locals-IsOrdered :
    (c : Context) (ty : IrType) (v : ℕ)
    → IsOrdered c
    → IsOrdered (new_temp c ty).0 × IsOrdered (new_temp_tb c ty).0 × IsOrdered (new_const c ty v).0
unfolding new_temp new_temp_tb new_const add_const Temp.new_ebb Temp.new_tb Temp.new_const
    is_global_or_fixed
locals-IsOrdered c ty v h = (
  local-IsOrdered c h (Temp.new_ebb (length c.temps) ty) refl refl,
  local-IsOrdered c h (Temp.new_tb (length c.temps) ty) refl refl,
  elim (Option-cases (get (c.const_table (type_idx ty)) v)) [
    | inr (t, e) ↦ rw (e, new_const) h
    | inl e ↦ rw (e, new_const) added
  ],
)
  where
    added : IsOrdered (add_const c ty v).0
    added =
        let r = local-IsOrdered c h (Temp.new_const (length c.temps) ty v) refl refl in
        record { numbered = r.numbered; first = r.first; room = r.room }

-- A temporary is added where all temporaries are globals.
abbrev asserted : Context → Temp → Option (Context × TempIdx)
asserted c x =
    if length c.temps == c.nb_globals
    then some (record (push_temp c x) { nb_globals = c.nb_globals + 1 }, length c.temps)
    else none

-- Where a global or fixed temporary is accepted, the temporaries stay numbered and the globals first.
pub globals-IsOrdered :
    (c : Context) (ty : IrType) (base offset reg : ℕ)
    → IsOrdered c
    → ((c' : Context) (i : TempIdx) → new_global c ty base offset ≡ some (c', i) → IsOrdered c')
      × ((c' : Context) (i : TempIdx) → new_fixed c ty reg ≡ some (c', i) → IsOrdered c')
unfolding new_global new_fixed Temp.new_global Temp.new_fixed is_global_or_fixed
globals-IsOrdered c ty base offset reg h = (
  λ c' i e. made (Temp.new_global (length c.temps) ty base offset) refl refl c' i e,
  λ c' i e. made (Temp.new_fixed (length c.temps) ty reg) refl refl c' i e,
)
  where
    made :
        (x : Temp)
        → x.idx ≡ length c.temps
        → is_global_or_fixed x ≡ true
        → (c' : Context) (i : TempIdx) → asserted c x ≡ some (c', i)
        → IsOrdered c'
    made x n k c' i e = elim (Bool-cases (length c.temps == c.nb_globals)) [
      | inr f ↦ absurd (cc (rw f at e))
      | inl f ↦
          let q : (record (push_temp c x) { nb_globals = c.nb_globals + 1 }, length c.temps)
              ≡ (c', i) =
            cc (rw f at e) in
          subst (λ (r : Context × TempIdx). IsOrdered r.0) q
            (global-IsOrdered c h x n k ((==_iff (length c.temps) c.nb_globals).0 f))
    ]

elem-taken :
    (n : ℕ) (f : Temp → Temp) (xs : List Temp) (t : TempIdx) {y : Temp}
    → get_elem? (map f (take n xs)) t ≡ some y
    → (x : Temp) × (get_elem? xs t ≡ some x) × (f x ≡ y) × (t < n)
elem-taken zero f xs t e = absurd (cc)
elem-taken (suc n) f [] t e = absurd (cc)
elem-taken (suc n) f (x ∷ xs) zero e = (x, refl, cc, omega arith)
elem-taken (suc n) f (x ∷ xs) (suc t) e =
    let r = elem-taken n f xs t e in (r.0, r.1, r.2, omega (arith, r.3))

length-taken :
    (n : ℕ) (f : Temp → Temp) (xs : List Temp) → n ≤ length xs → length (map f (take n xs)) ≡ n
length-taken zero f xs h = refl
length-taken (suc n) f [] h = absurd (omega arith)
length-taken (suc n) f (x ∷ xs) h = ap suc (length-taken n f xs (omega arith))

reset_temp-kept :
    (x : Temp)
    → ((reset_temp x.kind x).idx ≡ x.idx)
      × (is_global_or_fixed (reset_temp x.kind x) ≡ is_global_or_fixed x)
unfolding reset_temp is_global_or_fixed
reset_temp-kept x = kept x.kind
  where
    kept :
        (k : TempKind)
        → ((reset_temp k x).idx ≡ x.idx)
          × (is_global_or_fixed (reset_temp k x) ≡ is_global_or_fixed x)
    kept TempKind.fixed = (refl, refl)
    kept TempKind.global = (refl, refl)
    kept _ = (refl, refl)

-- `reset` of an ordered context leaves as many temporaries as there are globals, and these are ordered.
pub reset-IsOrdered :
    (c : Context) → IsOrdered c → IsOrdered (reset c) × (length (reset c).temps ≡ c.nb_globals)
unfolding reset
reset-IsOrdered c h =
    let f : Temp → Temp = λ t. reset_temp t.kind t in
    (
      record {
        numbered = λ t y e.
            let r = elem-taken c.nb_globals f c.temps t e in
            sym (ap (λ (z : Temp). z.idx) r.2) ∙ (reset_temp-kept r.0).0 ∙ h.numbered t r.0 r.1;
        first = λ t y e.
            let r = elem-taken c.nb_globals f c.temps t e in
            sym (ap is_global_or_fixed r.2) ∙ (reset_temp-kept r.0).1 ∙ h.first t r.0 r.1;
        room = omega (arith, length-taken c.nb_globals f c.temps h.room);
      },
      length-taken c.nb_globals f c.temps h.room,
    )
