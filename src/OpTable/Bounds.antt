-- ===== src/OpTable/Bounds.antt =====
-- core/src/opcode.rs: the table has an entry for every opcode, and its argument counts fit the slots
-- of an operation.
use tcg_rs.Base.{ℕ, ◌≤◌, ◌<◌, ◌≡◌, refl, true, ◌&&◌, ltb, leb, length, arith}
use tcg_rs.Opcode.{Opcode, index}
use tcg_rs.OpFlags.{nb_args}
use tcg_rs.OpTable.{opcode_defs, def}
use tcg_rs.Op.{max_op_args}

-- The two tests, which the entry of every opcode passes.
tested :
    (o : Opcode) → (ltb (index o) (length opcode_defs) && leb (nb_args (def o)) max_op_args) ≡ true
unfolding opcode_defs def nb_args
tested Opcode.mov = refl
tested _ = refl

-- The opcode's number is an index of the table, and the arguments that its entry counts fit the
-- ten slots.
pub def-IsInTable : (o : Opcode) → (index o < length opcode_defs) × (nb_args (def o) ≤ max_op_args)
def-IsInTable o = tests (index o) (length opcode_defs) (nb_args (def o)) (tested o)
  where
    tests : (a b c : ℕ) → (ltb a b && leb c max_op_args) ≡ true → (a < b) × (c ≤ max_op_args)
    tests a b c h = (ground arith, ground arith)
