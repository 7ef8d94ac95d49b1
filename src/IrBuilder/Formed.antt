-- ===== src/IrBuilder/Formed.antt =====
-- core/src/ir_builder.rs: whatever methods are called, the operations carry their own positions and
-- as many arguments as the table counts for their opcodes.
use tcg_rs.Base.{
  ℕ, zero, suc, ◌≡◌, ◌⊎◌, refl, ap, sym, ◌∙◌, List, [], ◌∷◌, ◌++◌, some, length, get_elem?, arith,
  inl, inr,
}
use tcg_rs.IrType.{IrType}
use tcg_rs.Temp.{TempIdx}
use tcg_rs.Opcode.{Opcode}
use tcg_rs.OpFlags.{nb_args}
use tcg_rs.OpTable.{def}
use tcg_rs.OpTable.Bounds.{def-IsInTable}
use tcg_rs.Op.{Op, with_args}
use tcg_rs.Context.{Context, new_const}
use tcg_rs.Context.Consts.{new_const-ops}
use tcg_rs.IrBuilder.{emit}
use tcg_rs.IrBuilder.Calls.{Call}
use tcg_rs.IrBuilder.Perform.{perform, perform_all}

pub record IsFormed (ctx : Context) : Type 0 where
  pub numbered : (i : ℕ) (op : Op) → get_elem? ctx.ops i ≡ some op → op.idx ≡ i
  pub arity : (i : ℕ) (op : Op) → get_elem? ctx.ops i ≡ some op → op.nargs ≡ nb_args (def op.opc)

elem-pushed :
    (xs : List Op) (x : Op) (i : ℕ) {y : Op}
    → get_elem? (xs ++ x ∷ []) i ≡ some y
    → (get_elem? xs i ≡ some y) ⊎ ((i ≡ length xs) × (x ≡ y))
elem-pushed [] x zero e = inr (refl, cc)
elem-pushed [] x (suc i) e = absurd (cc)
elem-pushed (z ∷ xs) x zero e = inl e
elem-pushed (z ∷ xs) x (suc i) e = elim (elem-pushed xs x i e) [
  | inl h ↦ inl h
  | inr (h, q) ↦ inr (ap suc h, q)
]

-- One operation is appended, which carries its position and the arguments that the table counts.
abbrev pub Appends : Context → Context → Type 0
Appends ctx ctx' =
    (op : Op) × (ctx'.ops ≡ ctx.ops ++ op ∷ [])
    × (op.idx ≡ length ctx.ops)
    × (op.nargs ≡ nb_args (def op.opc))

nargs-with_args :
    (n : ℕ) (opc : Opcode) (ty : IrType) (args : List TempIdx)
    → length args ≡ nb_args (def opc)
    → (with_args n opc ty args).nargs ≡ nb_args (def opc)
unfolding with_args
nargs-with_args n opc ty args e = omega (arith, def-IsInTable opc)

emit-Appends :
    (ctx : Context) (opc : Opcode) (ty : IrType) (args : List TempIdx)
    → length args ≡ nb_args (def opc)
    → Appends ctx (emit ctx opc ty args)
unfolding emit with_args
emit-Appends ctx opc ty args e = (
  with_args (length ctx.ops) opc ty args,
  refl,
  refl,
  nargs-with_args (length ctx.ops) opc ty args e,
)

-- A constant may be allocated before.
call-Appends :
    (ctx : Context) (args : List TempIdx)
    → length args ≡ nb_args (def Opcode.call)
    → Appends ctx (emit (new_const ctx IrType.i64 0).0 Opcode.call IrType.i64 args)
call-Appends ctx args e =
    let h = emit-Appends (new_const ctx IrType.i64 0).0 Opcode.call IrType.i64 args e in
    let same = new_const-ops ctx IrType.i64 0 in (h.0, rw same at h.1, rw same at h.2, h.3)

-- Every method appends one operation, which carries its position in the list and as many arguments
-- as the table counts for its opcode.
pub perform-Appends : (k : Call) (ctx : Context) → Appends ctx (perform k ctx)
unfolding perform def nb_args
perform-Appends (Call.call dst helper args) ctx = call-Appends ctx _ refl
perform-Appends _ ctx = emit-Appends ctx _ _ _ refl

Appends-IsFormed : (ctx ctx' : Context) → Appends ctx ctx' → IsFormed ctx → IsFormed ctx'
Appends-IsFormed ctx ctx' a h = record {
  numbered = λ i op e. elim (elem-pushed ctx.ops a.0 i (rw a.1 at e)) [
    | inl f ↦ h.numbered i op f
    | inr (q, f) ↦ sym (ap (λ (o : Op). o.idx) f) ∙ a.2 ∙ sym q
  ];
  arity = λ i op e. elim (elem-pushed ctx.ops a.0 i (rw a.1 at e)) [
    | inl f ↦ h.arity i op f
    | inr (q, f) ↦ sym (ap (λ (o : Op). o.nargs) f) ∙ a.3 ∙ ap (λ (o : Op). nb_args (def o.opc)) f
  ];
}

-- Whatever methods are called in whatever order, every operation of the context carries its position
-- and has the number of arguments that the table gives for its opcode.
pub perform_all-IsFormed :
    (calls : List Call) (ctx : Context) → IsFormed ctx → IsFormed (perform_all calls ctx)
unfolding perform_all
perform_all-IsFormed [] ctx h = h
perform_all-IsFormed (k ∷ calls) ctx h =
    perform_all-IsFormed calls (perform k ctx)
      (Appends-IsFormed ctx (perform k ctx) (perform-Appends k ctx) h)
