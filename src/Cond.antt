-- ===== src/Cond.antt =====
-- core/src/types.rs: the comparison conditions of branches and of setcond.
pub mod Laws
use tcg_rs.Base.{ℕ, Bool, true, false}

pub data Cond : Type 0 where
  never always eq ne : Cond
  lt ge le gt : Cond
  ltu geu leu gtu : Cond
  tst_eq tst_ne : Cond

-- `cond as u8`.
abbrev pub encode : Cond → ℕ
encode Cond.never = 0
encode Cond.always = 1
encode Cond.eq = 8
encode Cond.ne = 9
encode Cond.lt = 10
encode Cond.ge = 11
encode Cond.le = 12
encode Cond.gt = 13
encode Cond.ltu = 14
encode Cond.geu = 15
encode Cond.leu = 16
encode Cond.gtu = 17
encode Cond.tst_eq = 18
encode Cond.tst_ne = 19

unfoldable pub invert : Cond → Cond
invert Cond.never = Cond.always
invert Cond.always = Cond.never
invert Cond.eq = Cond.ne
invert Cond.ne = Cond.eq
invert Cond.lt = Cond.ge
invert Cond.ge = Cond.lt
invert Cond.le = Cond.gt
invert Cond.gt = Cond.le
invert Cond.ltu = Cond.geu
invert Cond.geu = Cond.ltu
invert Cond.leu = Cond.gtu
invert Cond.gtu = Cond.leu
invert Cond.tst_eq = Cond.tst_ne
invert Cond.tst_ne = Cond.tst_eq

unfoldable pub swap : Cond → Cond
swap Cond.lt = Cond.gt
swap Cond.ge = Cond.le
swap Cond.le = Cond.ge
swap Cond.gt = Cond.lt
swap Cond.ltu = Cond.gtu
swap Cond.geu = Cond.leu
swap Cond.leu = Cond.geu
swap Cond.gtu = Cond.ltu
swap c = c

abbrev pub is_signed : Cond → Bool
is_signed Cond.lt = true
is_signed Cond.ge = true
is_signed Cond.le = true
is_signed Cond.gt = true
is_signed _ = false

abbrev pub is_unsigned : Cond → Bool
is_unsigned Cond.ltu = true
is_unsigned Cond.geu = true
is_unsigned Cond.leu = true
is_unsigned Cond.gtu = true
is_unsigned _ = false

abbrev pub is_tst : Cond → Bool
is_tst Cond.tst_eq = true
is_tst Cond.tst_ne = true
is_tst _ = false
