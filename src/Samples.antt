-- ===== src/Samples.antt =====
-- The theorems applied to concrete inputs, and runs of the definitions.
use tcg_rs.Base.{
  ◌||◌, ◌==◌, ◌%◌, ◌^◌, ◌<◌, ◌≤◌, map, not, length, ◌≡◌, refl, List, [], ◌∷◌, true, some, none, inl,
  arith,
}
use tcg_rs.IrType.{IrType, size_bytes}
use tcg_rs.Cond.{Cond, encode, invert, swap}
use tcg_rs.Cond.Laws.{holds-invert, holds-swap, cond_from_carg-encode}
use tcg_rs.Temp
use tcg_rs.Temp.{Temp}
use tcg_rs.Opcode.{Opcode, index}
use tcg_rs.OpFlags.{nb_args}
use tcg_rs.OpTable.{opcode_defs, def}
use tcg_rs.OpTable.Bounds.{def-IsInTable}
use tcg_rs.Op.{Op, with_args, max_op_args, is_dead, is_sync, set_dead, set_sync}
use tcg_rs.Op.Life.{marked-IsMarked}
use tcg_rs.Context.{
  Context, new_context, new_const, get, set_frame, align_up, alloc_slot, alloc_temp_frame,
}
use tcg_rs.Context.Frame.{IsSlot, alloc_slot-IsSlot, alloc_temp_frame-alloc_temp_frame}
use tcg_rs.Context.Consts.{
  AddsConsts, HasConsts, IsAllocated, new_const-IsAllocated, new_const-new_const,
}
use tcg_rs.Semantics.{Machine, State, goes, run, binary, pure, holds, trunc}
use tcg_rs.Optimize.{TempInfo, default_info}
use tcg_rs.Optimize.Eval.{eval_binary, eval_cond, cond_from_carg}
use tcg_rs.Optimize.Eval.Sound.{
  IsInt, eval_binary-binary, eval_cond-holds, unary_value-pure, ext_value-pure,
}
use tcg_rs.Optimize.Rules.{Rule, right_rule, left_rule}
use tcg_rs.Optimize.Rules.Sound.{rule_value}
use tcg_rs.Optimize.Fold.{binary_rule, unary_value, ext_value}
use tcg_rs.Optimize.Fold.Found.{binary_rule-Keeps}
use tcg_rs.Optimize.Pass.{optimize, optimize_ops, seed}
use tcg_rs.Optimize.Sound.Grows.{optimize_ops-AddsConsts}
use tcg_rs.Optimize.Block.{IsBlock, is_stable}
use tcg_rs.Optimize.Sound.Whole.{AreWords}
use tcg_rs.Optimize.Sound.Reading.{optimize-run_original}

-- Two temporaries and the constant 5.
abbrev empty : Context
empty = record new_context { temps = Temp.new_ebb 0 IrType.i64 ∷ Temp.new_ebb 1 IrType.i64 ∷ [] }

empty-HasConsts : HasConsts empty
unfolding new_context get
empty-HasConsts k v t e = absurd (cc)

-- `mov t0, 5; add t1, t0, t0; add t1, t1, t0`.
abbrev block : List Op
block =
    with_args 0 Opcode.mov IrType.i64 (0 ∷ 2 ∷ [])
    ∷ with_args 1 Opcode.add IrType.i64 (1 ∷ 0 ∷ 0 ∷ [])
    ∷ with_args 2 Opcode.add IrType.i64 (1 ∷ 1 ∷ 0 ∷ [])
    ∷ []

abbrev sample : Context
sample = record (new_const empty IrType.i64 5).0 { ops = block }

-- A machine that has no memory and gives no outputs.
abbrev machine : Machine
machine = record { Mem = Unit; exec = λ o ty p q ins consts mem. goes [] mem }

abbrev start : State Unit
start = record { env = λ t. t; mem = tt }

sample-IsBlock : IsBlock sample.temps sample.ops
unfolding with_args def new_const new_context Temp.new_ebb Temp.new_const
sample-IsBlock = (
  (
    ((omega arith, tt), (omega arith, tt)),
    (
      (tt, (Temp.new_ebb 0 IrType.i64, refl, refl, refl)),
      (Temp.new_const 2 IrType.i64 5, refl, λ v. omega arith),
    ),
  ),
  (
    (
      ((omega arith, tt), (omega arith, (omega arith, tt))),
      (tt, (Temp.new_ebb 1 IrType.i64, refl, refl, refl)),
    ),
    (
      (
        ((omega arith, tt), (omega arith, (omega arith, tt))),
        (tt, (Temp.new_ebb 1 IrType.i64, refl, refl, refl)),
      ),
      tt,
    ),
  ),
)

sample-is_stable : is_stable [] sample.ops ≡ true
unfolding is_stable with_args
sample-is_stable = refl

sample-AreWords : AreWords sample.temps
unfolding new_const new_context Temp.new_ebb Temp.new_const
sample-AreWords = (λ c. omega arith, (λ c. omega arith, (λ c. omega arith, tt)))

optimize-run_original_example :
    run machine (optimize sample).temps (optimize sample).ops start
    ≡ run machine sample.temps sample.ops start
optimize-run_original_example =
    optimize-run_original machine sample start sample-IsBlock sample-is_stable
      (new_const-IsAllocated empty IrType.i64 5 empty-HasConsts).table sample-AreWords

-- Rotating 0x80000001 left by 33 at 32 bits.
eval_binary-binary_example :
    eval_binary Opcode.rot_l 0x80000001 33 IrType.i32 ≡ binary Opcode.rot_l 32 0x80000001 33
eval_binary-binary_example =
    eval_binary-binary Opcode.rot_l IrType.i32 0x80000001 33 tt (omega arith) (omega arith)

-- `0 - t0` where `t0` is not known.
abbrev zero_known : TempInfo
zero_known = record { is_const = true; val = 0; copy_of = none }

binary_rule-Keeps_example :
    binary Opcode.sub 32 0 7 ≡ some (rule_value IrType.i32 (λ t. t) (Rule.to_neg 7))
binary_rule-Keeps_example =
    binary_rule-Keeps Opcode.sub IrType.i32 (λ t. t % 2 ^ 32) 0 7 zero_known default_info tt
      (λ t. omega arith) (λ e. refl) (λ e. absurd (cc)) (Rule.to_neg 7) negated
  where
    negated : binary_rule Opcode.sub IrType.i32 0 7 zero_known default_info ≡ some (Rule.to_neg 7)
    negated = unfold binary_rule eval_binary right_rule left_rule in refl

-- -1 < 0 at 64 bits.
eval_cond-holds_example :
    eval_cond 0xFFFF_FFFF_FFFF_FFFF 0 Cond.lt IrType.i64
    ≡ holds 64 Cond.lt (trunc IrType.i64 0xFFFF_FFFF_FFFF_FFFF) (trunc IrType.i64 0)
eval_cond-holds_example = eval_cond-holds 0xFFFF_FFFF_FFFF_FFFF 0 Cond.lt IrType.i64 tt (inl refl)

unary_value-pure_example : pure Opcode.neg IrType.i32 5 0 ≡ some 0xFFFF_FFFB
unary_value-pure_example =
    unary_value-pure Opcode.neg IrType.i32 5 0 tt (omega arith) (unfold unary_value in refl)

ext_value-pure_example :
    (pure Opcode.ext_i32_i64 IrType.i64 0x8000_0000 0 ≡ some 0xFFFF_FFFF_8000_0000)
    × (0xFFFF_FFFF_8000_0000 < 2 ^ 64)
    × IsInt IrType.i64
ext_value-pure_example =
    ext_value-pure Opcode.ext_i32_i64 IrType.i64 0x8000_0000 0 {out = IrType.i64}
      (unfold ext_value in refl)

new_const-IsAllocated_example : IsAllocated empty 5 (new_const empty IrType.i64 5)
new_const-IsAllocated_example = new_const-IsAllocated empty IrType.i64 5 empty-HasConsts

new_const-new_const_example :
    new_const (new_const empty IrType.i64 5).0 IrType.i64 5 ≡ new_const empty IrType.i64 5
new_const-new_const_example = new_const-new_const empty IrType.i64 5

holds-invert_example : holds 32 (invert Cond.lt) 3 4 ≡ not (holds 32 Cond.lt 3 4)
holds-invert_example = holds-invert 32 Cond.lt 3 4

holds-swap_example : holds 32 (swap Cond.leu) 4 3 ≡ holds 32 Cond.leu 3 4
holds-swap_example = holds-swap 32 Cond.leu 3 4

cond_from_carg-encode_example : cond_from_carg (encode Cond.geu) ≡ Cond.geu
cond_from_carg-encode_example = cond_from_carg-encode Cond.geu

def-IsInTable_example :
    (index Opcode.call < length opcode_defs) × (nb_args (def Opcode.call) ≤ max_op_args)
def-IsInTable_example = def-IsInTable Opcode.call

-- A frame of 64 bytes in which 4 are in use: an i64 slot goes to offset 8.
abbrev framed : Context
framed = record (set_frame empty 5 0 64) { frame_alloc_end = 4 }

abbrev framed_after : Context
framed_after = record framed {
  frame_alloc_end = 16;
  temps =
      record (Temp.new_ebb 0 IrType.i64) { mem_allocated = true; mem_offset = 8 }
      ∷ Temp.new_ebb 1 IrType.i64
      ∷ [];
}

alloc_slot-IsSlot_example : IsSlot framed framed_after IrType.i64 8
unfolding Temp.new_ebb
alloc_slot-IsSlot_example =
    alloc_slot-IsSlot framed 0 (Temp.new_ebb 0 IrType.i64)
      (unfold alloc_slot align_up size_bytes set_frame new_context in refl)

alloc_temp_frame-alloc_temp_frame_example : alloc_temp_frame framed_after 0 ≡ some (framed_after, 8)
alloc_temp_frame-alloc_temp_frame_example = alloc_temp_frame-alloc_temp_frame framed 0 (
    unfold alloc_temp_frame alloc_slot align_up size_bytes set_frame new_context Temp.new_ebb in
    refl)

optimize_ops-AddsConsts_example :
    AddsConsts sample.temps (optimize_ops sample (map seed sample.temps) sample.ops).0.temps
optimize_ops-AddsConsts_example = optimize_ops-AddsConsts sample (map seed sample.temps) sample.ops

-- The fourth argument of an operation whose first is dead.
marked-IsMarked_example :
    (is_dead (set_dead 1 3) 2 ≡ (2 == 3 || is_dead 1 2))
    × (is_sync (set_dead 1 3) 2 ≡ is_sync 1 2)
    × (is_sync (set_sync 1 3) 2 ≡ (2 == 3 || is_sync 1 2))
    × (is_dead (set_sync 1 3) 2 ≡ is_dead 1 2)
marked-IsMarked_example = marked-IsMarked 1 3 2 (omega arith) (omega arith)
