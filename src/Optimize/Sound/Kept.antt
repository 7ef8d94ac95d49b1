-- ===== src/Optimize/Sound/Kept.antt =====
-- backend/src/optimize.rs: the operations that stay, with their outputs forgotten: those at the
-- end of a basic block, those that are skipped, and those that are not folded.
use tcg_rs.Base.{ℕ, suc, zero, ◌+◌, ◌≤◌, ◌<◌, ◌≡◌, refl, ◌∙◌, List, ◌∷◌, length, All, arith}
use mathlib.Core.Path.{ap₂}
use tcg_rs.Temp.{Temp, TempIdx}
use tcg_rs.OpTable.{def}
use tcg_rs.Op.{Op, Args, slots}
use tcg_rs.Context.Consts.{Extends}
use tcg_rs.Semantics.{Machine, State, step}
use tcg_rs.Optimize.{reset_copies, clear_copy}
use tcg_rs.Optimize.Known.{ti-reset_copies, length-reset_copies}
use tcg_rs.Optimize.Facts.{IsRight, IsRight-reset_copies}
use tcg_rs.Optimize.Fold.{Folding}
use tcg_rs.Optimize.Pass.{forget_outputs}
use tcg_rs.Optimize.Sound.{IsTracked, IsSound}
use tcg_rs.Optimize.Sound.Outputs.{forgotten-IsRight, IsFrom-outputs, length-invalidate_outputs}

-- Arguments in range of a list are in range of the table.
pub slots-room :
    (args : Args) (i n k l : ℕ)
    → k ≤ l
    → All (λ t. t < k) (slots args i n)
    → All (λ t. t < l) (slots args i n)
slots-room args i zero k l h a = tt
slots-room args i (suc n) k l h a = (omega (arith, a.0), slots-room args (i + 1) n k l h a.1)

pub slots-equal :
    (a b : Args) (i n : ℕ) → ((j : ℕ) → j < i + n → a j ≡ b j) → slots a i n ≡ slots b i n
slots-equal a b i zero h = refl
slots-equal a b i (suc n) h =
    ap₂ ◌∷◌ (h i (omega arith)) (slots-equal a b (i + 1) n (λ j p. h j (omega arith)))

module _ (m : Machine) (start temps : List Temp) (srcs : List TempIdx) (op : Op) (s : Folding)
    (st : State m.Mem) (tracked : IsTracked start srcs s.ctx s.info)
    (right : IsRight temps s.info st.env) (grows : Extends s.ctx.temps temps)
    (range : All (λ t. t < length start) (slots s.op.args 0 (def s.op.opc).nb_oargs))
    (same : step m temps s.op st ≡ step m temps op st) where
  forgotten-IsTracked : IsTracked start srcs s.ctx (forget_outputs s).info
  unfolding forget_outputs
  forgotten-IsTracked = record {
    table = tracked.table;
    grown = tracked.grown;
    room =
        rw (length-invalidate_outputs s.ctx.temps s.op.args 0 (def s.op.opc).nb_oargs s.info)
          tracked.room;
    sources =
        IsFrom-outputs s.ctx.temps srcs s.op.args 0 (def s.op.opc).nb_oargs s.info
          (slots-room s.op.args 0 _ _ _ tracked.room range) tracked.sources;
  }

  -- An operation with the meaning of the original, whose outputs are forgotten.
  pub forget_outputs-IsSound : IsSound m start temps srcs op st (forget_outputs s)
  unfolding forget_outputs
  forget_outputs-IsSound = record {
    same = same;
    tracked = forgotten-IsTracked;
    right = λ st' e.
        forgotten-IsRight m s.ctx.temps temps s.op s.info st st' grows
          (slots-room s.op.args 0 _ _ _ tracked.room range) right (same ∙ e);
  }

-- Forgetting the copies as well.
pub reset_copies-IsSound :
    (m : Machine) (start temps : List Temp) (srcs : List TempIdx) (op : Op) (st : State m.Mem)
    (s : Folding)
    → IsSound m start temps srcs op st s
    → IsSound m start temps srcs op st (record s { info = reset_copies s.info })
unfolding clear_copy
reset_copies-IsSound m start temps srcs op st s h = record {
  same = h.same;
  tracked = record {
    table = h.tracked.table;
    grown = h.tracked.grown;
    room = rw (length-reset_copies s.info) h.tracked.room;
    sources = λ t u e. absurd (cc (rw (ti-reset_copies s.info t) at e));
  };
  right = λ st' e. IsRight-reset_copies temps s.info st'.env (h.right st' e);
}
