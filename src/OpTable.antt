-- ===== src/OpTable.antt =====
-- The definition table `OPCODE_DEFS`, one list for each group of opcodes that the enumeration names,
-- joined in the order of the discriminants.
pub mod Bounds
use tcg_rs.Base.{ℕ, List, [], ◌∷◌, ◌++◌, get_or, bit_or}
use tcg_rs.Opcode.{Opcode, index}
use tcg_rs.OpFlags.{
  OpDef, f, bb_exit, bb_end, call_clobber, side_effects, int, not_present, vector, cond_branch,
  carry_out, carry_in, none_flags,
}

abbrev pub op_def : ℕ → ℕ → ℕ → ℕ → OpDef
op_def o i c flags = record { nb_oargs = o; nb_iargs = i; nb_cargs = c; flags = flags }

unfoldable pub movement_defs : List OpDef
movement_defs =
    op_def 1 1 0 (f int not_present) ∷ op_def 1 2 1 int ∷ op_def 1 2 1 int ∷ op_def 1 4 1 int ∷ []

unfoldable pub arithmetic_defs : List OpDef
arithmetic_defs =
    op_def 1 2 0 int
    ∷ op_def 1 2 0 int
    ∷ op_def 1 2 0 int
    ∷ op_def 1 1 0 int
    ∷ op_def 1 2 0 int
    ∷ op_def 1 2 0 int
    ∷ op_def 1 2 0 int
    ∷ op_def 1 2 0 int
    ∷ op_def 2 3 0 int
    ∷ op_def 2 3 0 int
    ∷ []

unfoldable pub widening_defs : List OpDef
widening_defs = op_def 1 2 0 int ∷ op_def 1 2 0 int ∷ op_def 2 2 0 int ∷ op_def 2 2 0 int ∷ []

unfoldable pub carry_defs : List OpDef
carry_defs =
    op_def 1 2 0 (f int carry_out)
    ∷ op_def 1 2 0 (f int carry_in)
    ∷ op_def 1 2 0 (bit_or (bit_or int carry_in) carry_out)
    ∷ op_def 1 2 0 (f int carry_out)
    ∷ op_def 1 2 0 (f int carry_out)
    ∷ op_def 1 2 0 (f int carry_in)
    ∷ op_def 1 2 0 (bit_or (bit_or int carry_in) carry_out)
    ∷ op_def 1 2 0 (f int carry_out)
    ∷ []

unfoldable pub logic_defs : List OpDef
logic_defs =
    op_def 1 2 0 int
    ∷ op_def 1 2 0 int
    ∷ op_def 1 2 0 int
    ∷ op_def 1 1 0 int
    ∷ op_def 1 2 0 int
    ∷ op_def 1 2 0 int
    ∷ op_def 1 2 0 int
    ∷ op_def 1 2 0 int
    ∷ op_def 1 2 0 int
    ∷ []

unfoldable pub shift_defs : List OpDef
shift_defs =
    op_def 1 2 0 int
    ∷ op_def 1 2 0 int
    ∷ op_def 1 2 0 int
    ∷ op_def 1 2 0 int
    ∷ op_def 1 2 0 int
    ∷ []

unfoldable pub bit_field_defs : List OpDef
bit_field_defs = op_def 1 1 2 int ∷ op_def 1 1 2 int ∷ op_def 1 2 2 int ∷ op_def 1 2 1 int ∷ []

unfoldable pub byte_swap_defs : List OpDef
byte_swap_defs = op_def 1 1 1 int ∷ op_def 1 1 1 int ∷ op_def 1 1 1 int ∷ []

unfoldable pub bit_count_defs : List OpDef
bit_count_defs = op_def 1 2 0 int ∷ op_def 1 2 0 int ∷ op_def 1 1 0 int ∷ []

unfoldable pub paired_defs : List OpDef
paired_defs = op_def 0 4 2 (bit_or bb_end cond_branch) ∷ op_def 1 4 1 none_flags ∷ []

unfoldable pub conversion_defs : List OpDef
conversion_defs =
    op_def 1 1 0 none_flags
    ∷ op_def 1 1 0 none_flags
    ∷ op_def 1 1 0 none_flags
    ∷ op_def 1 1 0 none_flags
    ∷ []

unfoldable pub host_memory_defs : List OpDef
host_memory_defs =
    op_def 1 1 1 int
    ∷ op_def 1 1 1 int
    ∷ op_def 1 1 1 int
    ∷ op_def 1 1 1 int
    ∷ op_def 1 1 1 int
    ∷ op_def 1 1 1 int
    ∷ op_def 1 1 1 int
    ∷ op_def 0 2 1 int
    ∷ op_def 0 2 1 int
    ∷ op_def 0 2 1 int
    ∷ op_def 0 2 1 int
    ∷ []

unfoldable pub guest_memory_defs : List OpDef
guest_memory_defs =
    op_def 1 1 1 (bit_or (bit_or call_clobber side_effects) int)
    ∷ op_def 0 2 1 (bit_or (bit_or call_clobber side_effects) int)
    ∷ op_def 2 1 1 (bit_or (bit_or call_clobber side_effects) int)
    ∷ op_def 0 3 1 (bit_or (bit_or call_clobber side_effects) int)
    ∷ []

unfoldable pub control_defs : List OpDef
control_defs =
    op_def 0 0 1 (f bb_end not_present)
    ∷ op_def 0 2 2 (bit_or (bit_or bb_end cond_branch) int)
    ∷ op_def 0 0 1 (f bb_end not_present)
    ∷ op_def 0 0 1 (bit_or (bit_or bb_exit bb_end) not_present)
    ∷ op_def 0 0 1 (bit_or (bit_or bb_exit bb_end) not_present)
    ∷ op_def 0 1 0 (f bb_exit bb_end)
    ∷ op_def 0 0 1 not_present
    ∷ []

unfoldable pub call_defs : List OpDef
call_defs = op_def 1 6 2 (f call_clobber not_present) ∷ []

unfoldable pub plugin_defs : List OpDef
plugin_defs = op_def 0 0 1 not_present ∷ op_def 0 1 1 not_present ∷ []

unfoldable pub misc_defs : List OpDef
misc_defs = op_def 0 0 0 not_present ∷ op_def 1 0 0 not_present ∷ op_def 0 0 2 not_present ∷ []

unfoldable pub vec_movement_defs : List OpDef
vec_movement_defs =
    op_def 1 1 0 (f vector not_present)
    ∷ op_def 1 1 0 vector
    ∷ op_def 1 2 0 vector
    ∷ op_def 1 1 1 vector
    ∷ op_def 0 2 1 vector
    ∷ op_def 1 1 1 vector
    ∷ []

unfoldable pub vec_arithmetic_defs : List OpDef
vec_arithmetic_defs =
    op_def 1 2 0 vector
    ∷ op_def 1 2 0 vector
    ∷ op_def 1 2 0 vector
    ∷ op_def 1 1 0 vector
    ∷ op_def 1 1 0 vector
    ∷ op_def 1 2 0 vector
    ∷ op_def 1 2 0 vector
    ∷ op_def 1 2 0 vector
    ∷ op_def 1 2 0 vector
    ∷ op_def 1 2 0 vector
    ∷ op_def 1 2 0 vector
    ∷ op_def 1 2 0 vector
    ∷ op_def 1 2 0 vector
    ∷ []

unfoldable pub vec_logic_defs : List OpDef
vec_logic_defs =
    op_def 1 2 0 vector
    ∷ op_def 1 2 0 vector
    ∷ op_def 1 2 0 vector
    ∷ op_def 1 2 0 vector
    ∷ op_def 1 2 0 vector
    ∷ op_def 1 2 0 vector
    ∷ op_def 1 2 0 vector
    ∷ op_def 1 2 0 vector
    ∷ op_def 1 1 0 vector
    ∷ []

unfoldable pub vec_shift_imm_defs : List OpDef
vec_shift_imm_defs =
    op_def 1 1 1 vector ∷ op_def 1 1 1 vector ∷ op_def 1 1 1 vector ∷ op_def 1 1 1 vector ∷ []

unfoldable pub vec_shift_scalar_defs : List OpDef
vec_shift_scalar_defs =
    op_def 1 2 0 vector ∷ op_def 1 2 0 vector ∷ op_def 1 2 0 vector ∷ op_def 1 2 0 vector ∷ []

unfoldable pub vec_shift_vector_defs : List OpDef
vec_shift_vector_defs =
    op_def 1 2 0 vector
    ∷ op_def 1 2 0 vector
    ∷ op_def 1 2 0 vector
    ∷ op_def 1 2 0 vector
    ∷ op_def 1 2 0 vector
    ∷ []

unfoldable pub vec_select_defs : List OpDef
vec_select_defs = op_def 1 2 1 vector ∷ op_def 1 3 0 vector ∷ op_def 1 4 1 vector ∷ []

unfoldable pub opcode_defs : List OpDef
unfolding movement_defs arithmetic_defs widening_defs carry_defs logic_defs shift_defs
    bit_field_defs byte_swap_defs bit_count_defs paired_defs conversion_defs host_memory_defs
    guest_memory_defs control_defs call_defs plugin_defs misc_defs vec_movement_defs
    vec_arithmetic_defs vec_logic_defs vec_shift_imm_defs vec_shift_scalar_defs
    vec_shift_vector_defs vec_select_defs
opcode_defs =
    movement_defs
    ++ (arithmetic_defs
        ++ (widening_defs
            ++ (carry_defs
                ++ (logic_defs
                    ++ (shift_defs
                        ++ (bit_field_defs
                            ++ (byte_swap_defs
                                ++ (bit_count_defs
                                    ++ (paired_defs
                                        ++ (conversion_defs
                                            ++ (host_memory_defs
                                                ++ (guest_memory_defs
                                                    ++ (control_defs
                                                        ++ (call_defs
                                                            ++ (plugin_defs
                                                            ++ (misc_defs
                                                            ++ (vec_movement_defs
                                                            ++ (vec_arithmetic_defs
                                                            ++ (vec_logic_defs
                                                            ++ (vec_shift_imm_defs
                                                            ++ (vec_shift_scalar_defs
                                                            ++ (vec_shift_vector_defs
                                                            ++ (vec_select_defs)))))))))))))))))))))))

-- `Opcode::def`: the entry at the opcode's number. Every number is in range, so the entry that
-- stands here for a fault is not read.
unfoldable pub def : Opcode → OpDef
unfolding opcode_defs
def opc = get_or opcode_defs (index opc) (op_def 0 0 0 none_flags)
