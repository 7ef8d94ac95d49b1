-- ===== src/Optimize/Block.antt =====
-- What the optimizer asks of a block: operations whose arguments are temporaries of the context,
-- outputs of the operation's type, and no overwriting of a temporary that a copy may refer to.
use tcg_rs.Base.{
  ℕ, ◌^◌, ◌<◌, ◌≡◌, ◌⊎◌, List, [], ◌∷◌, Bool, true, false, ◌||◌, ◌&&◌, not, some, length, get_elem?,
  ◌==◌, if◌then◌else◌, All,
}
use tcg_rs.IrType.{IrType, size_bits}
use tcg_rs.Temp.{Temp, TempIdx, is_const}
use tcg_rs.Cond.{is_signed}
use tcg_rs.Opcode.{Opcode}
use tcg_rs.OpTable.{def}
use tcg_rs.Op.{Op, Args, slots}
use tcg_rs.Semantics.{read_as}
use tcg_rs.Optimize.Eval.{cond_from_carg}
use tcg_rs.Optimize.Eval.Sound.{IsInt}

-- `d` is a temporary of the type, and no constant.
abbrev pub IsDst : List Temp → IrType → TempIdx → Type 0
IsDst temps ty d = (x : Temp) × (get_elem? temps d ≡ some x) × (is_const x ≡ false) × (x.ty ≡ ty)

-- The values of `s` fit the type.
abbrev pub IsSrc : List Temp → IrType → TempIdx → Type 0
IsSrc temps ty s =
    (x : Temp) × (get_elem? temps s ≡ some x) × ((v : ℕ) → read_as x v < 2 ^ size_bits ty)

abbrev pub HasResult : List Temp → IrType → Args → Type 0
HasResult temps ty args = IsInt ty × IsDst temps ty (args 0)

-- What the operations that the optimizer evaluates ask of their types. A br_cond with a signed
-- condition at i32 is left out: `eval_cond` compares the zero-extended words there.
abbrev pub IsTyped : List Temp → Opcode → IrType → Args → Type 0
IsTyped temps Opcode.mov ty args = HasResult temps ty args × IsSrc temps ty (args 1)
IsTyped temps Opcode.neg ty args = HasResult temps ty args
IsTyped temps Opcode.not ty args = HasResult temps ty args
IsTyped temps Opcode.ext_i32_i64 ty args = (ty ≡ IrType.i64) × HasResult temps ty args
IsTyped temps Opcode.ext_ui32_i64 ty args = (ty ≡ IrType.i64) × HasResult temps ty args
IsTyped temps Opcode.extrl_i64_i32 ty args = (ty ≡ IrType.i32) × HasResult temps ty args
IsTyped temps Opcode.extrh_i64_i32 ty args = (ty ≡ IrType.i32) × HasResult temps ty args
IsTyped temps Opcode.add ty args = HasResult temps ty args
IsTyped temps Opcode.sub ty args = HasResult temps ty args
IsTyped temps Opcode.mul ty args = HasResult temps ty args
IsTyped temps Opcode.and ty args = HasResult temps ty args
IsTyped temps Opcode.or ty args = HasResult temps ty args
IsTyped temps Opcode.xor ty args = HasResult temps ty args
IsTyped temps Opcode.and_c ty args = HasResult temps ty args
IsTyped temps Opcode.shl ty args = HasResult temps ty args
IsTyped temps Opcode.shr ty args = HasResult temps ty args
IsTyped temps Opcode.sar ty args = HasResult temps ty args
IsTyped temps Opcode.rot_l ty args = HasResult temps ty args
IsTyped temps Opcode.rot_r ty args = HasResult temps ty args
IsTyped temps Opcode.br_cond ty args =
    IsInt ty × ((ty ≡ IrType.i64) ⊎ (is_signed (cond_from_carg (args 2)) ≡ false))
IsTyped temps _ ty args = Unit

-- The outputs and inputs of an operation are temporaries of the context.
abbrev pub IsInRange : List Temp → Op → Type 0
IsInRange temps op =
    All (λ t. t < length temps) (slots op.args 0 (def op.opc).nb_oargs)
    × All (λ t. t < length temps) (slots op.args (def op.opc).nb_oargs (def op.opc).nb_iargs)

abbrev pub IsBlock : List Temp → List Op → Type 0
IsBlock temps = All (λ op. IsInRange temps op × IsTyped temps op.opc op.op_type op.args)

-- Whether the optimizer may come to know the operation's output as a constant or a copy.
unfoldable pub may_fold : Opcode → Bool
may_fold Opcode.mov = true
may_fold Opcode.neg = true
may_fold Opcode.not = true
may_fold Opcode.ext_i32_i64 = true
may_fold Opcode.ext_ui32_i64 = true
may_fold Opcode.extrl_i64_i32 = true
may_fold Opcode.extrh_i64_i32 = true
may_fold Opcode.add = true
may_fold Opcode.sub = true
may_fold Opcode.mul = true
may_fold Opcode.and = true
may_fold Opcode.or = true
may_fold Opcode.xor = true
may_fold Opcode.and_c = true
may_fold Opcode.shl = true
may_fold Opcode.shr = true
may_fold Opcode.sar = true
may_fold Opcode.rot_l = true
may_fold Opcode.rot_r = true
may_fold _ = false

unfoldable pub is_mov : Opcode → Bool
is_mov Opcode.mov = true
is_mov _ = false

unfoldable pub member : List TempIdx → TempIdx → Bool
member [] t = false
member (s ∷ ss) t = t == s || member ss t

-- The sources of the moves so far, after this operation.
unfoldable pub sources_after : List TempIdx → Op → List TempIdx
sources_after srcs op = if is_mov op.opc then op.args 1 ∷ srcs else srcs

-- No operation that may be folded overwrites the source of an earlier move. Operations that are
-- never folded may: the optimizer drops the copies then.
unfoldable pub is_stable : List TempIdx → List Op → Bool
unfolding may_fold is_mov member sources_after
is_stable srcs [] = true
is_stable srcs (op ∷ ops) =
    not (may_fold op.opc && member srcs (op.args 0)) && is_stable (sources_after srcs op) ops
