-- ===== src/Optimize/Sound/Outputs.antt =====
-- backend/src/optimize.rs: an operation that is left alone and whose outputs are forgotten.
use tcg_rs.Base.{
  ℕ, zero, suc, ◌+◌, ◌<◌, ◌≡◌, refl, sym, ◌∙◌, List, true, false, some, length, get_elem?, ltb,
  arith, Bool-cases, Option-cases, inl, inr, All,
}
use tcg_rs.Temp.{Temp, TempIdx, is_const}
use tcg_rs.OpTable.{def}
use tcg_rs.Op.{Op, Args, slots}
use tcg_rs.Context.Consts.{Extends}
use tcg_rs.Semantics.{Machine, State, next, step, write, update, value, head_or_zero, rest}
use tcg_rs.Semantics.Laws.{step-writes, WritesOutputs, nothing, outputs}
use tcg_rs.Optimize.{Info, ti, invalidate_output, invalidate_outputs, is_const_temp}
use tcg_rs.Optimize.Known.{dropped, ti-invalidate_output, length-invalidate_output}
use tcg_rs.Optimize.Facts.{
  IsRight, SameBut, SameBut-update, IsRight-dropped, same_or_not, dropped-copy,
}
use tcg_rs.Optimize.Sound.{IsFrom}

-- Two tables with the same entries are right together.
IsRight-ext :
    (temps : List Temp) (info info' : Info) (env env' : ℕ → ℕ)
    → IsRight temps info env
    → ((t : TempIdx) → ti info' t ≡ ti info t)
    → ((t : TempIdx) → value temps env' t ≡ value temps env t)
    → IsRight temps info' env'
IsRight-ext temps info info' env env' r e h = record {
  constants = λ t p. h t ∙ (rw (e t) (r.constants t (rw (e t) at p)));
  fits = λ t p. rw (e t) (r.fits t (rw (e t) at p));
  copies = λ t s p. h t ∙ r.copies t s (rw (e t) at p) ∙ sym (h s);
}

is_const_temp-some :
    (temps : List Temp) (d : TempIdx)
    → is_const_temp temps d ≡ true
    → (x : Temp) × (get_elem? temps d ≡ some x) × (is_const x ≡ true)
unfolding is_const_temp
is_const_temp-some temps d h = elim (Option-cases (get_elem? temps d)) [
  | inl e ↦ absurd (cc (rw (e, is_const_temp) at h))
  | inr (x, e) ↦ (x, e, rw (e, is_const_temp) at h)
]

is_const_temp-of :
    (temps : List Temp) (d : TempIdx) (x : Temp)
    → get_elem? temps d ≡ some x
    → is_const_temp temps d ≡ is_const x
unfolding is_const_temp
is_const_temp-of temps d x e = rw (e, is_const_temp)

pub value-constant :
    (temps : List Temp) (env : ℕ → ℕ) (t : TempIdx) (x : Temp)
    → get_elem? temps t ≡ some x
    → is_const x ≡ true
    → value temps env t ≡ x.val
value-constant temps env t x e c = rw (e, c)

-- Writing to a constant changes no value.
value-update_const :
    (temps : List Temp) (env : ℕ → ℕ) (d v : ℕ)
    → is_const_temp temps d ≡ true
    → (t : ℕ) → value temps (update env d v) t ≡ value temps env t
value-update_const temps env d v h t = elim (same_or_not t d) [
  | inr ne ↦ SameBut-update temps d v env t ne
  | inl q ↦
      let c = is_const_temp-some temps d h in
      rw q (
        value-constant temps (update env d v) d c.0 c.1 c.2
        ∙ sym (value-constant temps env d c.0 c.1 c.2))
]

is_const_temp-Extends :
    (ts us : List Temp) (d : TempIdx)
    → Extends ts us
    → is_const_temp ts d ≡ true
    → is_const_temp us d ≡ true
is_const_temp-Extends ts us d h e =
    let c = is_const_temp-some ts d e in is_const_temp-of us d c.0 (h d c.0 c.1) ∙ c.2

small_and_free :
    (now : List Temp) (info : Info) (d : TempIdx)
    → d < length info
    → is_const_temp now d ≡ false
    → (t : TempIdx) → ti (invalidate_output now info d) t ≡ dropped d info t
small_and_free now info d h c t =
    let lt : ltb d (length info) ≡ true = ground arith in
    ti-invalidate_output now info d t ∙ (rw (lt, c))

constant_stays :
    (now : List Temp) (info : Info) (d : TempIdx)
    → is_const_temp now d ≡ true
    → (t : TempIdx) → ti (invalidate_output now info d) t ≡ ti info t
constant_stays now info d c t = elim (Bool-cases (ltb d (length info))) [
  | inl e ↦ ti-invalidate_output now info d t ∙ (rw (e, c))
  | inr e ↦ ti-invalidate_output now info d t ∙ (rw e)
]

module _ (now temps : List Temp) (grows : Extends now temps) where
  -- One output, whether something is written to it or not.
  output-IsRight :
      (info : Info) (env env' : ℕ → ℕ) (d : TempIdx)
      → d < length info
      → SameBut temps d env env'
      → (is_const_temp temps d ≡ true → (t : TempIdx) → value temps env' t ≡ value temps env t)
      → IsRight temps info env
      → IsRight temps (invalidate_output now info d) env'
  output-IsRight info env env' d small same const right = elim (Bool-cases (is_const_temp now d)) [
    | inl c ↦
        IsRight-ext temps info (invalidate_output now info d) env env' right
          (constant_stays now info d c) (const (is_const_temp-Extends now temps d grows c))
    | inr c ↦
        IsRight-dropped temps info (invalidate_output now info d) d env env' right same
          (small_and_free now info d small c)
  ]

  outputs-IsRight :
      (args : Args) (i n : ℕ) (vs : List ℕ) (info : Info) (env : ℕ → ℕ)
      → All (λ t. t < length info) (slots args i n)
      → IsRight temps info env
      → IsRight temps (invalidate_outputs now args i n info) (write args i n vs env)
  unfolding invalidate_outputs write
  outputs-IsRight args i zero vs info env h right = right
  outputs-IsRight args i (suc n) vs info env h right =
      outputs-IsRight args (i + 1) n (rest vs) (invalidate_output now info (args i))
        (update env (args i) (head_or_zero vs))
        (rw (length-invalidate_output now info (args i)) h.1)
        (output-IsRight info env (update env (args i) (head_or_zero vs)) (args i) h.0
          (SameBut-update temps (args i) _ env) (value-update_const temps env (args i) _) right)

  untouched-IsRight :
      (args : Args) (i n : ℕ) (info : Info) (env : ℕ → ℕ)
      → All (λ t. t < length info) (slots args i n)
      → IsRight temps info env
      → IsRight temps (invalidate_outputs now args i n info) env
  unfolding invalidate_outputs
  untouched-IsRight args i zero info env h right = right
  untouched-IsRight args i (suc n) info env h right =
      untouched-IsRight args (i + 1) n (invalidate_output now info (args i)) env
        (rw (length-invalidate_output now info (args i)) h.1)
        (output-IsRight info env env (args i) h.0 (λ t ne. refl) (λ c t. refl) right)

IsFrom-output :
    (now : List Temp) (srcs : List TempIdx) (info : Info) (d : TempIdx)
    → d < length info
    → IsFrom srcs info
    → IsFrom srcs (invalidate_output now info d)
IsFrom-output now srcs info d small h t s p = elim (Bool-cases (is_const_temp now d)) [
  | inl c ↦ h t s (rw (constant_stays now info d c t) at p)
  | inr c ↦ h t s (dropped-copy d info t s (rw (small_and_free now info d small c t) at p))
]

pub IsFrom-outputs :
    (now : List Temp) (srcs : List TempIdx) (args : Args) (i n : ℕ) (info : Info)
    → All (λ t. t < length info) (slots args i n)
    → IsFrom srcs info
    → IsFrom srcs (invalidate_outputs now args i n info)
unfolding invalidate_outputs
IsFrom-outputs now srcs args i zero info h f = f
IsFrom-outputs now srcs args i (suc n) info h f =
    IsFrom-outputs now srcs args (i + 1) n (invalidate_output now info (args i))
      (rw (length-invalidate_output now info (args i)) h.1)
      (IsFrom-output now srcs info (args i) h.0 f)

pub length-invalidate_outputs :
    (now : List Temp) (args : Args) (i n : ℕ) (info : Info)
    → length (invalidate_outputs now args i n info) ≡ length info
unfolding invalidate_outputs
length-invalidate_outputs now args i zero info = refl
length-invalidate_outputs now args i (suc n) info =
    length-invalidate_outputs now args (i + 1) n (invalidate_output now info (args i))
    ∙ length-invalidate_output now info (args i)

-- After an operation whose outputs are forgotten the facts are right.
pub forgotten-IsRight :
    (m : Machine) (now temps : List Temp) (op : Op) (info : Info) (st st' : State m.Mem)
    → Extends now temps
    → All (λ t. t < length info) (slots op.args 0 (def op.opc).nb_oargs)
    → IsRight temps info st.env
    → step m temps op st ≡ next st'
    → IsRight temps (invalidate_outputs now op.args 0 (def op.opc).nb_oargs info) st'.env
forgotten-IsRight m now temps op info st st' grows small right e =
    forgotten_by (step-writes m temps op st st' e)
  where
    forgotten_by :
        WritesOutputs m temps op st.env st'.env
        → IsRight temps (invalidate_outputs now op.args 0 (def op.opc).nb_oargs info) st'.env
    forgotten_by (nothing e') =
        rw e' (
          untouched-IsRight now temps grows op.args 0 (def op.opc).nb_oargs info st.env small right)
    forgotten_by (outputs vs e') =
        rw e' (
          outputs-IsRight now temps grows op.args 0 (def op.opc).nb_oargs vs info st.env small
            right)
