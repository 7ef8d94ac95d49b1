-- ===== src/IrSamples.antt =====
-- The theorems on core/src/ir_builder.rs and backend/src/liveness.rs at a short block: an addition and an exit.
use tcg_rs.Base.{true, ℕ, suc, ◌+◌, ◌≡◌, [], ◌∷◌, some, false, length, get_elem?}
use tcg_rs.Temp
use tcg_rs.Op.{Op, LifeData}
use tcg_rs.Liveness.{liveness_analysis, is_nop, set_life}
use tcg_rs.Liveness.Needed.{IsLast, needed}
use tcg_rs.Liveness.Walk.{liveness_analysis-IsLast}
use tcg_rs.IrType.{IrType}
use tcg_rs.Context.{Context, new_context}
use tcg_rs.IrBuilder.Calls.{Call}
use tcg_rs.IrBuilder.Perform.{perform, perform_all}
use tcg_rs.IrBuilder.Formed.{Appends, IsFormed, perform-Appends, perform_all-IsFormed}

perform-Appends_example : Appends new_context (perform (Call.add IrType.i64 0 1 2) new_context)
perform-Appends_example = perform-Appends (Call.add IrType.i64 0 1 2) new_context

new_context-IsFormed : IsFormed new_context
unfolding new_context
new_context-IsFormed = record { numbered = λ i op e. absurd (cc); arity = λ i op e. absurd (cc) }

perform_all-IsFormed_example :
    IsFormed (perform_all (Call.add IrType.i64 0 1 2 ∷ Call.exit_tb 0 ∷ []) new_context)
perform_all-IsFormed_example =
    perform_all-IsFormed (Call.add IrType.i64 0 1 2 ∷ Call.exit_tb 0 ∷ []) new_context
      new_context-IsFormed

-- `t2 = t0 + t1` and the exit, with three temporaries.
abbrev short : Context
short = record (perform_all (Call.add IrType.i64 2 0 1 ∷ Call.exit_tb 0 ∷ []) new_context) {
  temps = Temp.new_ebb 0 IrType.i64 ∷ Temp.new_ebb 1 IrType.i64 ∷ Temp.new_ebb 2 IrType.i64 ∷ [];
}

short-IsFormed : IsFormed short
short-IsFormed =
    let built =
      perform_all-IsFormed (Call.add IrType.i64 2 0 1 ∷ Call.exit_tb 0 ∷ []) new_context
        new_context-IsFormed in
    record { numbered = built.numbered; arity = built.arity }

liveness_analysis-IsLast_example :
    (ctx' : Context) × (liveness_analysis short ≡ some ctx')
    × (ctx' ≡ record short { ops = ctx'.ops })
    × (length ctx'.ops ≡ length short.ops)
    × ((i : ℕ) (op : Op)
        → get_elem? short.ops i ≡ some op
        → is_nop op.opc ≡ true
        → get_elem? ctx'.ops i ≡ some op)
    × ((i j : ℕ) (op : Op)
        → suc i + j ≡ length short.ops
        → get_elem? short.ops i ≡ some op
        → is_nop op.opc ≡ false
        → (life : LifeData) × (get_elem? ctx'.ops i ≡ some (set_life life op))
          × IsLast short.temps short.nb_globals op
              (needed short.nb_globals short.ops j (suc i))
              life)
liveness_analysis-IsLast_example = liveness_analysis-IsLast short short-IsFormed
