-- ===== src/Optimize/Sound.antt =====
-- backend/src/optimize.rs: the pass keeps the meaning of a block. This file states what one step
-- of the pass carries along; the children prove it for each kind of operation.
pub mod Outputs
pub mod Inputs
pub mod Kept
pub mod Assign
pub mod Move
pub mod Folded
pub mod Folds
pub mod Branch
pub mod Each
pub mod Grows
pub mod Whole
pub mod Reading
use tcg_rs.Base.{ℕ, ◌≤◌, ◌≡◌, List, Bool, true, Option, some, length}
use tcg_rs.Temp.{Temp, TempIdx}
use tcg_rs.Op.{Op}
use tcg_rs.Context.{Context}
use tcg_rs.Context.Consts.{HasConsts, Extends}
use tcg_rs.Semantics.{Machine, State, Outcome, next, step}
use tcg_rs.Optimize.{Info, ti}
use tcg_rs.Optimize.Facts.{IsRight}
use tcg_rs.Optimize.Block.{member}
use tcg_rs.Optimize.Fold.{Folding}

-- The copies known are of sources of moves.
abbrev pub IsFrom : List TempIdx → Info → Type 0
IsFrom srcs info = (t s : TempIdx) → (ti info t).copy_of ≡ some s → member srcs s ≡ true

-- What holds between two operations, whatever the state of the program: `start` is the list of
-- temporaries that the block was written with.
pub record IsTracked (start : List Temp) (srcs : List TempIdx) (ctx : Context) (info : Info)
    : Type 0 where
  pub table : HasConsts ctx
  pub grown : Extends start ctx.temps
  pub room : length start ≤ length info
  pub sources : IsFrom srcs info

-- The operation that a step leaves does what the one before did, and the facts are right after it.
-- Values are read by `temps`, which holds all constants that the pass comes to allocate.
pub record IsSound (m : Machine) (start temps : List Temp) (srcs : List TempIdx) (op : Op)
    (st : State m.Mem) (s : Folding) : Type 0 where
  pub same : step m temps s.op st ≡ step m temps op st
  pub tracked : IsTracked start srcs s.ctx s.info
  pub right : (st' : State m.Mem) → step m temps op st ≡ next st' → IsRight temps s.info st'.env
