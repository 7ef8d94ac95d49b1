-- ===== src/TbStore/Relink.antt =====
-- exec/src/tb_store.rs: a block taken out of its chain, on the links alone.
use tcg_rs.Base.{
  ℕ, ◌<◌, ◌≤◌, ◌≡◌, ◌≢◌, refl, sym, ap, ◌∙◌, List, [], ◌∷◌, true, false, Option, none, some, All,
  ◌==◌, if◌then◌else◌, arith, Bool-cases, inl, inr,
}
use tcg_rs.TbStore.Chain.{Chain, Chain-frame, Below, Below-absent, elem, without, without_absent}
use mathlib.Core.Path.{subst}
use tcg_rs.TbStore.View.{behind}

abbrev pub Links : Type 0
Links = ℕ → Option (Option ℕ)

-- The links when `idx`, with `n` behind it and `prev` in front of it, is taken out.
abbrev pub relink : ℕ → Option ℕ → Option ℕ → Links → Links
relink idx n none next j = if j == idx then some none else next j
relink idx n (some p) next j = if j == idx then some none else (if j == p then some n else next j)

-- The first block of what is left.
abbrev pub start : ℕ → Option ℕ → Option ℕ → List ℕ → Option ℕ
start idx n cur [] = cur
start idx n cur (i ∷ xs) = if i == idx then n else cur

abbrev pub Above : ℕ → Option ℕ → Type 0
Above m none = Unit
Above m (some p) = m ≤ p

pub relink_off :
    (idx : ℕ) (n prev : Option ℕ) (next : Links) (j m : ℕ)
    → j ≢ idx
    → j < m
    → Above m prev
    → relink idx n prev next j ≡ next j
relink_off idx n none next j m ne h a = let e : (j == idx) ≡ false = ground arith in rw e refl
relink_off idx n (some p) next j m ne h a =
    let e : (j == idx) ≡ false = ground arith in
    let d : (j == p) ≡ false = ground arith in rw (e, d) refl

relink_frame :
    (idx : ℕ) (n prev : Option ℕ) (next : Links) (m : ℕ) (xs : List ℕ) (bound : ℕ)
    → Below bound xs
    → bound ≤ idx
    → bound ≤ m
    → Above m prev
    → All (λ j. relink idx n prev next j ≡ next j) xs
relink_frame idx n prev next m [] bound b h k a = tt
relink_frame idx n prev next m (i ∷ xs) bound (l, b) h k a = (
  relink_off idx n prev next i m (λ (e : i ≡ idx). absurd (omega arith)) (omega arith) a,
  relink_frame idx n prev next m xs i b (omega arith) (omega arith) a,
)

behind_le :
    (idx : ℕ) (xs : List ℕ) (j : ℕ)
    → Below j xs
    → (q : ℕ) × (behind idx (some j) xs ≡ some q) × (q ≤ j)
behind_le idx [] j b = (j, refl, omega arith)
behind_le idx (i ∷ xs) j (l, b) = elim (Bool-cases (i == idx)) [
  | inl d ↦ (j, rw d refl, omega arith)
  | inr d ↦ let (q, e, k) = behind_le idx xs i b in (q, rw d e, omega arith)
]

relink_at :
    (idx : ℕ) (n : Option ℕ) (next : Links) (i : ℕ) (c : Option ℕ) (xs : List ℕ)
    → elem idx xs ≡ true
    → i ≢ idx
    → Below i xs
    → next i ≡ some c
    → relink idx n (behind idx (some i) xs) next i ≡ some (start idx n c xs)
relink_at idx n next i c [] m ne b e = absurd (cc)
relink_at idx n next i c (j ∷ xs) m ne (l, b) e =
    let off : (i == idx) ≡ false = ground arith in
    let same : (i == i) ≡ true = ground arith in
    elim (Bool-cases (j == idx)) [
      | inl d ↦ rw (d, off, same) refl
      | inr d ↦
          let (q, k, h) = behind_le idx xs j b in
          let far : (i == q) ≡ false = ground arith in rw (d, k, off, far) e
    ]

module _ (next : Links) (idx : ℕ) (n : Option ℕ) (known : next idx ≡ some n) where
  pub relink-Chain :
      (xs : List ℕ) (bound : ℕ) (cur prev : Option ℕ)
      → Chain next cur xs
      → Below bound xs
      → elem idx xs ≡ true
      → Above bound prev
      → Chain (relink idx n (behind idx prev xs) next) (start idx n cur xs) (without idx xs)
  relink-Chain [] bound cur prev c b m a = absurd (cc)
  relink-Chain (i ∷ xs) bound cur prev (e, ni, k, c) (l, b) m a = elim (Bool-cases (i == idx)) [
    | inl d ↦
        let same : i ≡ idx = ground arith in
        let eq : ni ≡ n = let r : some ni ≡ some n = sym k ∙ ap next same ∙ known in cc in
        let gone : without idx xs ≡ xs =
          without_absent idx xs (sym (ap (λ (z : ℕ). elem z xs) same) ∙ Below-absent xs i b) in
        rw (d, gone)
          (Chain-frame next (relink idx n prev next) xs n
            (relink_frame idx n prev next bound xs i b (omega (arith, same)) (omega arith) a)
            (subst (λ (z : Option ℕ). Chain next z xs) eq c))
    | inr d ↦
        let r : elem idx (i ∷ xs) ≡ elem idx xs = rw d refl in
        let mem = sym r ∙ m in
        rw d (
          e,
          start idx n ni xs,
          relink_at idx n next i ni xs mem (λ (q : i ≡ idx). absurd (ground arith)) b k,
          relink-Chain xs i ni (some i) c b mem (omega arith),
        )
  ]

-- What is in front of a block has what every block of its chain has.
pub behind_in :
    (P : ℕ → Type 0) (idx : ℕ) (xs : List ℕ) (prev : Option ℕ) (p : ℕ)
    → All P xs
    → (prev ≡ some p → P p)
    → behind idx prev xs ≡ some p
    → P p
behind_in P idx [] prev p a h e = h e
behind_in P idx (i ∷ xs) prev p (k, a) h e = elim (Bool-cases (i == idx)) [
  | inl d ↦ let r : behind idx prev (i ∷ xs) ≡ prev = rw d refl in h (sym r ∙ e)
  | inr d ↦
      let r : behind idx prev (i ∷ xs) ≡ behind idx (some i) xs = rw d refl in
      behind_in P idx xs (some i) p a
        (λ (q : some i ≡ some p). let same : i ≡ p = cc in subst P same k) (sym r ∙ e)
]

pub relink_other :
    (idx : ℕ) (n prev : Option ℕ) (next : Links) (j : ℕ)
    → j ≢ idx
    → prev ≢ some j
    → relink idx n prev next j ≡ next j
relink_other idx n none next j ne h = let e : (j == idx) ≡ false = ground arith in rw e refl
relink_other idx n (some p) next j ne h =
    let e : (j == idx) ≡ false = ground arith in
    elim (Bool-cases (j == p)) [
      | inl d ↦ let same : p ≡ j = ground arith in absurd (h (ap some same))
      | inr d ↦ rw (e, d) refl
    ]

behind_some : (idx : ℕ) (xs : List ℕ) (j : ℕ) → behind idx (some j) xs ≢ none
behind_some idx [] j e = absurd (cc)
behind_some idx (i ∷ xs) j e = elim (Bool-cases (i == idx)) [
  | inl d ↦ let r : behind idx (some j) (i ∷ xs) ≡ some j = rw d refl in absurd (cc)
  | inr d ↦
      let r : behind idx (some j) (i ∷ xs) ≡ behind idx (some i) xs = rw d refl in
      behind_some idx xs i (sym r ∙ e)
]

-- Without a block in front of it, a block is the first of its chain.
pub start-behind_none :
    (idx : ℕ) (n cur : Option ℕ) (xs : List ℕ)
    → elem idx xs ≡ true
    → behind idx none xs ≡ none
    → start idx n cur xs ≡ n
start-behind_none idx n cur [] m e = absurd (cc)
start-behind_none idx n cur (i ∷ xs) m e = elim (Bool-cases (i == idx)) [
  | inl d ↦ rw d refl
  | inr d ↦
      let r : behind idx none (i ∷ xs) ≡ behind idx (some i) xs = rw d refl in
      absurd (behind_some idx xs i (sym r ∙ e))
]

pub start-behind_some :
    (idx : ℕ) (n cur : Option ℕ) (xs : List ℕ) (p : ℕ)
    → behind idx none xs ≡ some p
    → start idx n cur xs ≡ cur
start-behind_some idx n cur [] p e = refl
start-behind_some idx n cur (i ∷ xs) p e = elim (Bool-cases (i == idx)) [
  | inl d ↦ let r : behind idx none (i ∷ xs) ≡ none = rw d refl in absurd (cc)
  | inr d ↦ rw d refl
]
