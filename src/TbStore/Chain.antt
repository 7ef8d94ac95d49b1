-- ===== src/TbStore/Chain.antt =====
-- exec/src/tb_store.rs: the blocks of one bucket, as the list that its links go through. A chain
-- descends: a block comes before every older one.
use tcg_rs.Base.{
  ℕ, zero, suc, ◌<◌, ◌≤◌, ◌≡◌, ◌≢◌, refl, sym, ap, ◌∙◌, List, [], ◌∷◌, Bool, true, false, not, ◌&&◌,
  Option, none, some, length, filter, All, ◌==◌, if◌then◌else◌, arith, Bool-cases, inl, inr,
}

-- The numbers below `n` with the property, the largest first.
abbrev pub down_from : (ℕ → Bool) → ℕ → List ℕ
down_from p zero = []
down_from p (suc n) = let rest = down_from p n in if p n then n ∷ rest else rest

abbrev pub newest : (ℕ → Bool) → ℕ → Option ℕ
newest p zero = none
newest p (suc n) = let older = newest p n in if p n then some n else older

abbrev pub pick : (ℕ → Bool) → List ℕ → Option ℕ
pick q [] = none
pick q (i ∷ xs) = let rest = pick q xs in if q i then some i else rest

abbrev pub elem : ℕ → List ℕ → Bool
elem a [] = false
elem a (i ∷ xs) = let rest = elem a xs in if i == a then true else rest

abbrev pub without : ℕ → List ℕ → List ℕ
without a = filter (λ i. not (i == a))

abbrev pub Below : ℕ → List ℕ → Type 0
Below n [] = Unit
Below n (i ∷ xs) = (i < n) × Below i xs

-- From `cur`, the links go through `xs` and end there.
abbrev pub Chain : (ℕ → Option (Option ℕ)) → Option ℕ → List ℕ → Type 0
Chain next cur [] = cur ≡ none
Chain next cur (i ∷ xs) = (cur ≡ some i) × (n : Option ℕ) × (next i ≡ some n) × Chain next n xs

pub Chain-frame :
    (next next' : ℕ → Option (Option ℕ)) (xs : List ℕ) (cur : Option ℕ)
    → All (λ i. next' i ≡ next i) xs
    → Chain next cur xs
    → Chain next' cur xs
Chain-frame next next' [] cur a c = c
Chain-frame next next' (i ∷ xs) cur (s, a) (e, n, h, c) =
    (e, n, s ∙ h, Chain-frame next next' xs n a c)

Below-mono : (xs : List ℕ) (m n : ℕ) → m ≤ n → Below m xs → Below n xs
Below-mono [] m n h b = tt
Below-mono (i ∷ xs) m n h (k, b) = (omega arith, b)

pub down_from-Below : (p : ℕ → Bool) (n : ℕ) → Below n (down_from p n)
down_from-Below p zero = tt
down_from-Below p (suc n) =
    let ih = down_from-Below p n in
    elim (Bool-cases (p n)) [
      | inl e ↦ rw e (omega arith, ih)
      | inr e ↦ rw e (Below-mono (down_from p n) n (suc n) (omega arith) ih)
    ]

pub length-Below : (xs : List ℕ) (n : ℕ) → Below n xs → length xs ≤ n
length-Below [] n b = omega arith
length-Below (i ∷ xs) n (k, b) = omega (arith, length-Below xs i b)

pub All-down_from :
    {P : ℕ → Type 0} (p : ℕ → Bool) (n : ℕ)
    → ((i : ℕ) → i < n → p i ≡ true → P i)
    → All P (down_from p n)
All-down_from p zero h = tt
All-down_from p (suc n) h =
    let ih = All-down_from p n (λ i k. h i (omega arith)) in
    elim (Bool-cases (p n)) [ inl e ↦ rw e (h n (omega arith) e, ih) | inr e ↦ rw e ih ]

pub pick-down_from :
    (q p : ℕ → Bool) (n : ℕ)
    → ((i : ℕ) → q i ≡ true → p i ≡ true)
    → pick q (down_from p n) ≡ newest q n
pick-down_from q p zero h = refl
pick-down_from q p (suc n) h =
    let ih = pick-down_from q p n h in
    elim (Bool-cases (q n)) [
      | inl e ↦ rw (h n e, e) refl
      | inr e ↦ elim (Bool-cases (p n)) [ inl d ↦ rw (d, e) ih | inr d ↦ rw (d, e) ih ]
    ]

pub down_from_congr :
    (p q : ℕ → Bool) (n : ℕ) → ((i : ℕ) → i < n → p i ≡ q i) → down_from p n ≡ down_from q n
down_from_congr p q zero h = refl
down_from_congr p q (suc n) h =
    let ih = down_from_congr p q n (λ i k. h i (omega arith)) in rw (h n (omega arith), ih) refl

pub newest_congr :
    (p q : ℕ → Bool) (n : ℕ) → ((i : ℕ) → i < n → p i ≡ q i) → newest p n ≡ newest q n
newest_congr p q zero h = refl
newest_congr p q (suc n) h =
    let ih = newest_congr p q n (λ i k. h i (omega arith)) in rw (h n (omega arith), ih) refl

pub newest-eq-some : (p : ℕ → Bool) (n : ℕ) {i : ℕ} → newest p n ≡ some i → (i < n) × (p i ≡ true)
newest-eq-some p zero e = absurd (cc)
newest-eq-some p (suc n) {i} e = elim (Bool-cases (p n)) [
  | inl d ↦
      let same : n ≡ i = let r : newest p (suc n) ≡ some n = rw d refl in cc in
      (omega (arith, same), ap p (sym same) ∙ d)
  | inr d ↦
      let r : newest p (suc n) ≡ newest p n = rw d refl in
      let ih = newest-eq-some p n (sym r ∙ e) in (omega (arith, ih.0), ih.1)
]

pub without-down_from :
    (p : ℕ → Bool) (a n : ℕ) → without a (down_from p n) ≡ down_from (λ i. p i && not (i == a)) n
without-down_from p a zero = refl
without-down_from p a (suc n) =
    let ih = without-down_from p a n in
    elim (Bool-cases (p n)) [
      | inl e ↦ elim (Bool-cases (n == a)) [
        | inl d ↦ rw (e, d, ih) refl
        | inr d ↦ rw (e, d, ih) refl
      ]
      | inr e ↦ rw (e, ih) refl
    ]

pub without_absent : (a : ℕ) (xs : List ℕ) → elem a xs ≡ false → without a xs ≡ xs
without_absent a [] h = refl
without_absent a (i ∷ xs) h = elim (Bool-cases (i == a)) [
  | inl e ↦ let r : elem a (i ∷ xs) ≡ true = rw e refl in absurd (cc)
  | inr e ↦
      let r : elem a (i ∷ xs) ≡ elem a xs = rw e refl in
      rw (e, without_absent a xs (sym r ∙ h)) refl
]

-- What a descending list has below its bound is not the bound.
pub Below-All_ne : (xs : List ℕ) (n : ℕ) → Below n xs → All (λ i. i ≢ n) xs
Below-All_ne [] n b = tt
Below-All_ne (i ∷ xs) n (k, b) =
    (λ (e : i ≡ n). absurd (omega arith), Below-All_ne xs n (Below-mono xs i n (omega arith) b))

pub Below-absent : (xs : List ℕ) (n : ℕ) → Below n xs → elem n xs ≡ false
Below-absent [] n b = refl
Below-absent (i ∷ xs) n (k, b) =
    let ne : (i == n) ≡ false = ground arith in
    rw (ne, Below-absent xs n (Below-mono xs i n (omega arith) b)) refl

pub down_from-elem : (p : ℕ → Bool) (n a : ℕ) → a < n → elem a (down_from p n) ≡ p a
down_from-elem p zero a h = absurd (omega arith)
down_from-elem p (suc n) a h = elim (Bool-cases (n == a)) [
  | inl d ↦
      let same : n ≡ a = ground arith in
      elim (Bool-cases (p n)) [
        | inl e ↦ rw (e, d) (sym e ∙ ap p same)
        | inr e ↦ rw e (
            ap (λ (z : ℕ). elem z (down_from p n)) (sym same)
            ∙ Below-absent (down_from p n) n (down_from-Below p n)
            ∙ sym e
            ∙ ap p same)
      ]
  | inr d ↦
      let ih = down_from-elem p n a (ground arith) in
      elim (Bool-cases (p n)) [ inl e ↦ rw (e, d) ih | inr e ↦ rw e ih ]
]
