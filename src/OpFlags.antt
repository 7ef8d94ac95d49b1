-- ===== src/OpFlags.antt =====
-- core/src/opcode.rs: the flags of an opcode, a bit set in a u16, and the definition record.
use tcg_rs.Base.{ℕ, ◌+◌, bit_and, bit_or, Bool, ◌==◌}

abbrev pub OpFlags : Type 0
OpFlags = ℕ

abbrev pub none_flags : OpFlags
none_flags = 0

abbrev pub bb_exit : OpFlags
bb_exit = 0x01

abbrev pub bb_end : OpFlags
bb_end = 0x02

abbrev pub call_clobber : OpFlags
call_clobber = 0x04

abbrev pub side_effects : OpFlags
side_effects = 0x08

abbrev pub int : OpFlags
int = 0x10

abbrev pub not_present : OpFlags
not_present = 0x20

abbrev pub vector : OpFlags
vector = 0x40

abbrev pub cond_branch : OpFlags
cond_branch = 0x80

abbrev pub carry_out : OpFlags
carry_out = 0x100

abbrev pub carry_in : OpFlags
carry_in = 0x200

unfoldable pub contains : OpFlags → OpFlags → Bool
contains self other = bit_and self other == other

unfoldable pub union : OpFlags → OpFlags → OpFlags
union self other = bit_or self other

-- The helper of the table, which combines two flags.
abbrev pub f : OpFlags → OpFlags → OpFlags
f a b = bit_or a b

-- The field `name` is used by dumps alone and left out.
pub record OpDef : Type 0 where
  pub nb_oargs : ℕ
  pub nb_iargs : ℕ
  pub nb_cargs : ℕ
  pub flags : OpFlags

unfoldable pub nb_args : OpDef → ℕ
nb_args d = d.nb_oargs + d.nb_iargs + d.nb_cargs
