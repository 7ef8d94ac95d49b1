-- ===== src/Context/Frame.antt =====
-- core/src/context.rs: the stack frame's slots.
use tcg_rs.Base.{
  ℕ, zero, suc, ◌+◌, ◌%◌, ◌≤◌, ◌≡◌, refl, List, [], ◌∷◌, true, some, get_elem?, set, leb, arith,
  Bool-cases, Option-cases, inl, inr,
}
use mathlib.Core.Path.{subst}
use tcg_rs.IrType.{IrType, size_bytes}
use tcg_rs.Temp.{Temp, TempIdx}
use tcg_rs.Context.{Context, align_up, alloc_slot, alloc_temp_frame}

align_up-le : (x : ℕ) (ty : IrType) → x ≤ align_up x (size_bytes ty)
unfolding align_up size_bytes
align_up-le x IrType.i32 = omega arith
align_up-le x IrType.i128 = omega arith
align_up-le x IrType.v128 = omega arith
align_up-le x IrType.v256 = omega arith
align_up-le x _ = omega arith

align_up-mod : (x : ℕ) (ty : IrType) → align_up x (size_bytes ty) % size_bytes ty ≡ 0
unfolding align_up size_bytes
align_up-mod x IrType.i32 = omega arith
align_up-mod x IrType.i128 = omega arith
align_up-mod x IrType.v128 = omega arith
align_up-mod x IrType.v256 = omega arith
align_up-mod x _ = omega arith

-- The offset of a slot between the context before and the context after.
pub record IsSlot (c c' : Context) (ty : IrType) (offset : ℕ) : Type 0 where
  pub behind : c.frame_alloc_end ≤ offset
  pub inside : offset + size_bytes ty ≤ c.frame_end
  pub aligned : offset % size_bytes ty ≡ 0
  pub next : c'.frame_alloc_end ≡ offset + size_bytes ty
  pub same_end : c'.frame_end ≡ c.frame_end

leb→le : (a b : ℕ) → leb a b ≡ true → a ≤ b
leb→le a b h = ground arith

-- Where `alloc_slot` puts the slot, and the context that it leaves.
abbrev place : Context → Temp → ℕ
place c t = align_up c.frame_alloc_end (size_bytes t.ty)

abbrev placed : Context → Temp → Temp
placed c t = record t { mem_allocated = true; mem_offset = place c t }

abbrev grown : Context → TempIdx → Temp → Context
grown c i t = record c {
  frame_alloc_end = place c t + size_bytes t.ty;
  temps = set c.temps i (placed c t);
}

-- Where a slot is given it lies behind the slots given before and inside the frame, it is aligned to
-- the size of the type, and the next slot starts behind it.
pub alloc_slot-IsSlot :
    (c : Context) (i : TempIdx) (t : Temp) {c' : Context} {offset : ℕ}
    → alloc_slot c i t ≡ some (c', offset)
    → IsSlot c c' t.ty offset
unfolding alloc_slot
alloc_slot-IsSlot c i t {c'} {offset} e =
    elim (Bool-cases
      (leb (align_up c.frame_alloc_end (size_bytes t.ty) + size_bytes t.ty) c.frame_end)) [
        | inr f ↦ absurd (cc (rw f at e))
        | inl f ↦
            let q : (grown c i t, place c t) ≡ (c', offset) = cc (rw f at e) in
            subst (λ (r : Context × ℕ). IsSlot c r.0 t.ty r.1) q
              (record {
                behind = align_up-le c.frame_alloc_end t.ty;
                inside = leb→le _ _ f;
                aligned = align_up-mod c.frame_alloc_end t.ty;
                next = refl;
                same_end = refl;
              })
      ]

get_elem?-set :
    {A : Type 0} (xs : List A) (i : ℕ) (v : A) {x : A}
    → get_elem? xs i ≡ some x
    → get_elem? (set xs i v) i ≡ some v
get_elem?-set [] i v e = absurd (cc)
get_elem?-set (y ∷ xs) zero v e = refl
get_elem?-set (y ∷ xs) (suc i) v e = get_elem?-set xs i v e

-- A temporary keeps the slot that it was given: asking again gives the same offset and changes
-- nothing.
pub alloc_temp_frame-alloc_temp_frame :
    (c : Context) (i : TempIdx) {c' : Context} {offset : ℕ}
    → alloc_temp_frame c i ≡ some (c', offset)
    → alloc_temp_frame c' i ≡ some (c', offset)
unfolding alloc_temp_frame alloc_slot
alloc_temp_frame-alloc_temp_frame c i {c'} {offset} e = elim (Option-cases (get_elem? c.temps i)) [
  | inl n ↦ absurd (cc (rw (n, alloc_temp_frame) at e))
  | inr (t, f) ↦ elim (Bool-cases t.mem_allocated) [
    | inl a ↦
        let q : (c, t.mem_offset) ≡ (c', offset) = cc (rw (f, alloc_temp_frame, a) at e) in
        subst (λ (r : Context × ℕ). alloc_temp_frame r.0 i ≡ some r) q
          (rw (f, alloc_temp_frame, a) refl)
    | inr a ↦ elim (Bool-cases (leb (place c t + size_bytes t.ty) c.frame_end)) [
      | inr g ↦ absurd (cc (rw (f, alloc_temp_frame, a, alloc_slot, g) at e))
      | inl g ↦
          let q : (grown c i t, place c t) ≡ (c', offset) =
            cc (rw (f, alloc_temp_frame, a, alloc_slot, g) at e) in
          subst (λ (r : Context × ℕ). alloc_temp_frame r.0 i ≡ some r) q
            (rw (get_elem?-set c.temps i (placed c t) f, alloc_temp_frame) refl)
    ]
  ]
]
