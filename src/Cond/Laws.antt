-- ===== src/Cond/Laws.antt =====
-- core/src/types.rs: what `invert` and `swap` do to a condition's meaning, and the numbers by which
-- a branch names its condition.
use tcg_rs.Base.{ℕ, ◌≡◌, refl, ap, sym, bit_and, Bool, true, false, not, ltb, leb, ◌==◌, arith}
use tcg_rs.Base.Bits.{bit_and_comm}
use tcg_rs.Cond.{Cond, encode, invert, swap}
use tcg_rs.Semantics.{holds}
use tcg_rs.Optimize.Eval.{cond_from_carg}

not_not : (b : Bool) → not (not b) ≡ b
not_not true = refl
not_not false = refl

leb_not : (x y : ℕ) → leb y x ≡ not (ltb x y)
leb_not x y = ground arith

ltb_not : (x y : ℕ) → ltb x y ≡ not (leb y x)
ltb_not x y = ground arith

-- The inverted condition holds where the condition does not, at every width.
pub holds-invert : (w : ℕ) (c : Cond) (a b : ℕ) → holds w (invert c) a b ≡ not (holds w c a b)
unfolding holds invert
holds-invert w Cond.never a b = refl
holds-invert w Cond.always a b = refl
holds-invert w Cond.eq a b = refl
holds-invert w Cond.ne a b = sym (not_not (a == b))
holds-invert w Cond.lt a b = leb_not _ _
holds-invert w Cond.ge a b = ltb_not _ _
holds-invert w Cond.le a b = ltb_not _ _
holds-invert w Cond.gt a b = leb_not _ _
holds-invert w Cond.ltu a b = ground arith
holds-invert w Cond.geu a b = ground arith
holds-invert w Cond.leu a b = ground arith
holds-invert w Cond.gtu a b = ground arith
holds-invert w Cond.tst_eq a b = refl
holds-invert w Cond.tst_ne a b = sym (not_not (bit_and a b == 0))

-- The swapped condition holds of the swapped operands where the condition does.
pub holds-swap : (w : ℕ) (c : Cond) (a b : ℕ) → holds w (swap c) b a ≡ holds w c a b
unfolding holds swap
holds-swap w Cond.eq a b = ground arith
holds-swap w Cond.ne a b = ground arith
holds-swap w Cond.tst_eq a b = ap (λ (x : ℕ). x == 0) (bit_and_comm b a)
holds-swap w Cond.tst_ne a b = ap (λ (x : ℕ). not (x == 0)) (bit_and_comm b a)
holds-swap w _ a b = refl

-- A condition that a branch carries as a number is read back.
pub cond_from_carg-encode : (c : Cond) → cond_from_carg (encode c) ≡ c
unfolding cond_from_carg
cond_from_carg-encode Cond.never = refl
cond_from_carg-encode _ = refl
