-- ===== src/Liveness/Marks.antt =====
-- backend/src/liveness.rs: the loops over the arguments of one operation.
use tcg_rs.Base.{
  ℕ, zero, suc, ◌+◌, ◌<◌, ◌≤◌, ◌≡◌, ◌≢◌, refl, sym, ap, ◌∙◌, List, Bool, true, false, not, ◌&&◌,
  ◌||◌, length, ltb, ◌==◌, if◌then◌else◌, arith, Bool-cases, inl, inr, ◌⊎◌,
}
use tcg_rs.Temp.{Temp}
use tcg_rs.Op.Life.{set_dead_other, set_sync_other}
use tcg_rs.Op.{Args, LifeData, is_dead, set_dead, set_sync}
use tcg_rs.Liveness.{
  TempState, set_state, output_arg, output_args, input_arg, input_args, is_global_at,
}

-- `t` is one of `n` arguments from the argument `i` on.
abbrev pub among : Args → ℕ → ℕ → ℕ → Bool
among args zero i t = false
among args (suc n) i t = let rest = among args n (suc i) t in if t == args i then true else rest

was_false : (s : TempState) (t x : ℕ) → set_state s t true x ≡ false → s x ≡ false
was_false s t x h = elim (Bool-cases (x == t)) [
  | inl c ↦ let r : set_state s t true x ≡ true = rw c refl in absurd (cc)
  | inr c ↦ let r : set_state s t true x ≡ s x = rw c refl in sym r ∙ h
]

module _ (nb_temps : ℕ) (args : Args) where
  pub output_args_state :
      (n i life : ℕ) (s : TempState) (x : ℕ)
      → x < nb_temps
      → (output_args nb_temps args n i (life, s)).1 x ≡ (s x && not (among args n i x))
  unfolding output_args
  output_args_state zero i life s x h = ground arith
  output_args_state (suc n) i life s x h =
      let t = args i in
      let go : LifeData × TempState → Bool = λ r. (output_args nb_temps args n (suc i) r).1 x in
      let life' = if s t then life else set_dead life i in
      elim (Bool-cases (ltb t nb_temps)) [
        | inl d ↦
            let step : output_arg nb_temps args i (life, s) ≡ (life', set_state s t false) =
              rw d refl in
            ap go step
            ∙ output_args_state n (suc i) life' (set_state s t false) x h
            ∙ elim (Bool-cases (x == t)) [ inl c ↦ rw c (ground arith) | inr c ↦ rw c refl ]
        | inr d ↦
            let step : output_arg nb_temps args i (life, s) ≡ (life, s) = rw d refl in
            let off : (x == t) ≡ false = ground arith in
            ap go step ∙ output_args_state n (suc i) life s x h ∙ rw off refl
      ]

  pub output_args_dead :
      (n i life : ℕ) (s : TempState) (p : ℕ)
      → i + n ≤ p
      → p < 16
      → is_dead (output_args nb_temps args n i (life, s)).0 p ≡ is_dead life p
  unfolding output_args
  output_args_dead zero i life s p h k = refl
  output_args_dead (suc n) i life s p h k =
      let t = args i in
      let go : LifeData × TempState → Bool =
        λ r. is_dead (output_args nb_temps args n (suc i) r).0 p in
      let life' = if s t then life else set_dead life i in
      let kept = set_dead_other life p i k (omega arith) (λ (e : p ≡ i). absurd (omega arith)) in
      elim (Bool-cases (ltb t nb_temps)) [
        | inl d ↦
            let step : output_arg nb_temps args i (life, s) ≡ (life', set_state s t false) =
              rw d refl in
            ap go step
            ∙ output_args_dead n (suc i) life' (set_state s t false) p (omega arith) k
            ∙ elim (Bool-cases (s t)) [ inl c ↦ rw c refl | inr c ↦ rw c kept ]
        | inr d ↦
            let step : output_arg nb_temps args i (life, s) ≡ (life, s) = rw d refl in
            ap go step ∙ output_args_dead n (suc i) life s p (omega arith) k
      ]

module _ (temps : List Temp) (args : Args) where
  abbrev last_use : LifeData → ℕ → LifeData
  last_use life i =
      let dead = set_dead life i in if is_global_at temps (args i) then set_sync dead i else dead

  last_use_other :
      (life p i : ℕ) → p < 16 → i < 16 → p ≢ i → is_dead (last_use life i) p ≡ is_dead life p
  last_use_other life p i h k ne =
      let dead = set_dead_other life p i h k ne in
      elim (Bool-cases (is_global_at temps (args i))) [
        | inl c ↦ rw c (set_sync_other (set_dead life i) p i h k ∙ dead)
        | inr c ↦ rw c dead
      ]

  pub input_args_state :
      (n i life : ℕ) (s : TempState) (x : ℕ)
      → x < length temps
      → (input_args temps args n i (life, s)).1 x ≡ (s x || among args n i x)
  unfolding input_args
  input_args_state zero i life s x h = ground arith
  input_args_state (suc n) i life s x h =
      let t = args i in
      let go : LifeData × TempState → Bool = λ r. (input_args temps args n (suc i) r).1 x in
      let life' = if s t then life else last_use life i in
      elim (Bool-cases (ltb t (length temps))) [
        | inl d ↦
            let step : input_arg temps args i (life, s) ≡ (life', set_state s t true) = rw d refl in
            ap go step
            ∙ input_args_state n (suc i) life' (set_state s t true) x h
            ∙ elim (Bool-cases (x == t)) [ inl c ↦ rw c (ground arith) | inr c ↦ rw c refl ]
        | inr d ↦
            let step : input_arg temps args i (life, s) ≡ (life, s) = rw d refl in
            let off : (x == t) ≡ false = ground arith in
            ap go step ∙ input_args_state n (suc i) life s x h ∙ rw off refl
      ]

  -- An argument that the loop marks dead was not live when the loop began.
  pub input_args_dead :
      (n i life : ℕ) (s : TempState) (p : ℕ)
      → p < 16
      → i + n ≤ 16
      → is_dead (input_args temps args n i (life, s)).0 p ≡ true
      → (is_dead life p ≡ true) ⊎ (s (args p) ≡ false)
  unfolding input_args
  input_args_dead zero i life s p h k e = inl e
  input_args_dead (suc n) i life s p h k e =
      let t = args i in
      let go : LifeData × TempState → Bool = λ r. is_dead (input_args temps args n (suc i) r).0 p in
      let life' = if s t then life else last_use life i in
      elim (Bool-cases (ltb t (length temps))) [
        | inr d ↦
            let step : input_arg temps args i (life, s) ≡ (life, s) = rw d refl in
            input_args_dead n (suc i) life s p h (omega arith) (sym (ap go step) ∙ e)
        | inl d ↦
            let step : input_arg temps args i (life, s) ≡ (life', set_state s t true) = rw d refl in
            let ih =
              input_args_dead n (suc i) life' (set_state s t true) p h (omega arith)
                (sym (ap go step) ∙ e) in
            elim ih [
              | inr w ↦ inr (was_false s t (args p) w)
              | inl w ↦ elim (Bool-cases (s t)) [
                | inl c ↦
                    let same : life' ≡ life = rw c refl in
                    inl (ap (λ (z : ℕ). is_dead z p) (sym same) ∙ w)
                | inr c ↦
                    let same : life' ≡ last_use life i = rw c refl in
                    elim (Bool-cases (p == i)) [
                      | inl q ↦
                          let at : p ≡ i = ground arith in inr (ap (λ (z : ℕ). s (args z)) at ∙ c)
                      | inr q ↦ inl (
                          sym (
                            last_use_other life p i h (omega arith)
                              (λ (z : p ≡ i). absurd (ground arith)))
                          ∙ ap (λ (z : ℕ). is_dead z p) (sym same)
                          ∙ w)
                    ]
              ]
            ]
      ]
