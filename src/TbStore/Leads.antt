-- ===== src/TbStore/Leads.antt =====
-- exec/src/tb_store.rs: where the host jumps to a block lead once the block is invalidated.
use tcg_rs.Base.{ℕ, ◌+◌, ◌≤◌, ◌≡◌, List, Option, none, some, ◌⊎◌, All}
use tcg_rs.Tb.{TranslationBlock}
use tcg_rs.TbStore.{TbStore, Host}
use tcg_rs.TbStore.Patches.{reset_patch}

-- A way to read where the jump at an offset leads. A jump is five bytes, and `patch_jump` changes no
-- other: a jump that lies wholly before or behind it leads where it led.
pub record IsJumpCode (host : Host) (leads : host.Code → ℕ → ℕ) : Type 0 where
  pub patched : (code : host.Code) (jmp dst : ℕ) → leads (host.patch_jump code jmp dst) jmp ≡ dst
  pub apart :
      (code : host.Code) (jmp dst place : ℕ)
      → (jmp + 5 ≤ place) ⊎ (place + 5 ≤ jmp)
      → leads (host.patch_jump code jmp dst) place ≡ leads code place

-- A jump is the one at `jmp` that is reset to `reset`, or does not overlap it.
abbrev pub IsApart : ℕ → ℕ → Option (ℕ × ℕ) → Type 0
IsApart jmp reset none = Unit
IsApart jmp reset (some p) = ((p.0 ≡ jmp) × (p.1 ≡ reset)) ⊎ ((p.0 + 5 ≤ jmp) ⊎ (jmp + 5 ≤ p.0))

abbrev pub AreApart : List TranslationBlock → ℕ → ℕ → List (ℕ × ℕ) → Type 0
AreApart tbs jmp reset = All (λ e. IsApart jmp reset (reset_patch tbs e.0 e.1))
