-- ===== src/ContextSamples.antt =====
-- The theorems on the order of temporaries applied to small contexts.
use tcg_rs.Base.{◌≡◌, refl, [], ◌∷◌, some, length, arith}
use tcg_rs.IrType.{IrType}
use tcg_rs.Temp
use tcg_rs.Temp.{TempIdx}
use tcg_rs.Context.{
  Context, new_context, new_const, new_temp, new_temp_tb, new_global, new_fixed, push_temp, reset,
}
use tcg_rs.Context.Ordered.{IsOrdered, locals-IsOrdered, globals-IsOrdered, reset-IsOrdered}

-- No temporaries, then a fixed one, then a global.
empty-IsOrdered : IsOrdered new_context
unfolding new_context
empty-IsOrdered = record {
  numbered = λ t x e. absurd (cc);
  first = λ t x e. absurd (cc);
  room = omega arith;
}

abbrev with_fixed : Context
with_fixed = record new_context { temps = Temp.new_fixed 0 IrType.i64 5 ∷ []; nb_globals = 1 }

abbrev with_global : Context
with_global = record new_context {
  temps = Temp.new_fixed 0 IrType.i64 5 ∷ Temp.new_global 1 IrType.i64 0 8 ∷ [];
  nb_globals = 2;
}

fixed-IsOrdered : IsOrdered with_fixed
fixed-IsOrdered =
    (globals-IsOrdered new_context IrType.i64 0 8 5 empty-IsOrdered).1 with_fixed 0
      (unfold new_fixed push_temp new_context in refl)

global-IsOrdered : IsOrdered with_global
global-IsOrdered =
    (globals-IsOrdered with_fixed IrType.i64 0 8 5 fixed-IsOrdered).0 with_global 1
      (unfold new_global push_temp new_context in refl)

globals-IsOrdered_example :
    ((c' : Context) (i : TempIdx)
      → new_global with_fixed IrType.i64 0 8 ≡ some (c', i)
      → IsOrdered c')
    × ((c' : Context) (i : TempIdx)
        → new_fixed with_fixed IrType.i64 5 ≡ some (c', i)
        → IsOrdered c')
globals-IsOrdered_example = globals-IsOrdered with_fixed IrType.i64 0 8 5 fixed-IsOrdered

locals-IsOrdered_example :
    IsOrdered (new_temp with_global IrType.i64).0
    × IsOrdered (new_temp_tb with_global IrType.i64).0
    × IsOrdered (new_const with_global IrType.i64 7).0
locals-IsOrdered_example = locals-IsOrdered with_global IrType.i64 7 global-IsOrdered

reset-IsOrdered_example :
    IsOrdered (reset with_global) × (length (reset with_global).temps ≡ with_global.nb_globals)
reset-IsOrdered_example = reset-IsOrdered with_global global-IsOrdered
