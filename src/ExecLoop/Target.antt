-- ===== src/ExecLoop/Target.antt =====
-- exec/src/exec_loop.rs: the targets of indirect jumps, which a block keeps.
use tcg_rs.Base.{
  ℕ, ◌<◌, ◌≡◌, refl, sym, ap, ◌∙◌, List, true, Option, none, some, ◌⊎◌, inl, inr, length, get_elem?,
  get_elem?-of_lt, get_elem?-modify_self, get_elem?-modify_ne, modify, ◌==◌, if◌then◌else◌, arith,
  Bool-cases,
}
use tcg_rs.Tb.{TranslationBlock, exit_target_none}
use tcg_rs.ExecLoop.Ready.{target}

-- The target of an indirect jump kept: a block of the store.
pub targets-write :
    (tbs : List TranslationBlock) (src dst i : ℕ)
    → src < length tbs
    → dst < length tbs
    → (target tbs i ≡ exit_target_none) ⊎ (target tbs i < length tbs)
    → (target (modify tbs src (λ t. record t { exit_target = dst })) i ≡ exit_target_none)
      ⊎ (target (modify tbs src (λ t. record t { exit_target = dst })) i < length tbs)
unfolding target
targets-write tbs src dst i h k a =
    let f : TranslationBlock → TranslationBlock = λ t. record t { exit_target = dst } in
    elim (Bool-cases (i == src)) [
      | inl d ↦
          let same : i ≡ src = ground arith in
          let (t, found) = get_elem?-of_lt tbs src h in
          let now : target (modify tbs src f) i ≡ dst =
            ap (target (modify tbs src f)) same
            ∙ rw (target, get_elem?-modify_self tbs src f found) refl in
          inr (rw now k)
      | inr d ↦
          let same : target (modify tbs src f) i ≡ target tbs i =
            rw (target, get_elem?-modify_ne tbs src i f (λ (e : i ≡ src). absurd (ground arith)))
              refl in
          rw same a
    ]

-- What `exit_target` has is a block, unless it is the mark that there is none.
pub target_inside :
    (tbs : List TranslationBlock) (src : ℕ) (t : TranslationBlock)
    → get_elem? tbs src ≡ some t
    → (target tbs src ≡ exit_target_none) ⊎ (target tbs src < length tbs)
    → (i : ℕ) → (if t.exit_target == exit_target_none then none else some t.exit_target) ≡ some i
    → i < length tbs
unfolding target
target_inside tbs src t found a i e =
    let shown : target tbs src ≡ t.exit_target = rw (target, found) refl in
    let last : Option ℕ = if t.exit_target == exit_target_none then none else some t.exit_target in
    elim (Bool-cases (t.exit_target == exit_target_none)) [
      | inl d ↦ let r : last ≡ none = rw d refl in absurd (cc)
      | inr d ↦
          let r : last ≡ some t.exit_target = rw d refl in
          let same : t.exit_target ≡ i = cc in
          elim a [
            | inl q ↦
                let w : t.exit_target ≡ exit_target_none = sym shown ∙ q in
                let yes : (t.exit_target == exit_target_none) ≡ true = rw w refl in absurd (cc)
            | inr q ↦ omega (arith, shown, same)
          ]
    ]
