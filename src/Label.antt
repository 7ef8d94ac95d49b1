-- ===== src/Label.antt =====
-- core/src/label.rs: branch targets inside a translation block.
use tcg_rs.Base.{ℕ, Bool, true, false, List, [], ◌∷◌, ◌++◌, ◌&&◌, not}

pub data RelocKind : Type 0 where
  rel32 : RelocKind

pub record LabelUse : Type 0 where
  pub offset : ℕ
  pub kind : RelocKind

pub record Label : Type 0 where
  pub id : ℕ
  pub present : Bool
  pub has_value : Bool
  pub value : ℕ
  pub uses : List LabelUse

unfoldable pub new_label : ℕ → Label
new_label i = record { id = i; present = false; has_value = false; value = 0; uses = [] }

unfoldable pub add_use : Label → ℕ → RelocKind → Label
add_use l at k = record l { uses = l.uses ++ record { offset = at; kind = k } ∷ [] }

unfoldable pub set_value : Label → ℕ → Label
set_value l at = record l { present = true; has_value = true; value = at }

abbrev is_empty : List LabelUse → Bool
is_empty [] = true
is_empty _ = false

unfoldable pub has_pending_uses : Label → Bool
has_pending_uses l = not (is_empty l.uses) && not l.has_value
