-- ===== src/Liveness/Needed.antt =====
-- backend/src/liveness.rs: what the walk marks, against a definition of what is needed later.
use tcg_rs.Base.{
  ℕ, zero, suc, ◌+◌, ◌*◌, ◌<◌, ◌≤◌, ◌≡◌, refl, sym, ◌∙◌, List, Bool, true, false, not, ◌&&◌, ◌||◌,
  none, some, length, get_elem?, ltb, if◌then◌else◌, arith, Bool-cases, inl, inr,
}
use tcg_rs.Base.Digits.{digit-zero}
use tcg_rs.Opcode.{Opcode}
use tcg_rs.OpFlags.{contains, bb_end, nb_args}
use tcg_rs.OpTable.{def}
use tcg_rs.OpTable.Bounds.{def-IsInTable}
use tcg_rs.Temp.{Temp}
use tcg_rs.Op.{Op, LifeData, is_dead}
use tcg_rs.Liveness.{TempState, is_nop, output_args, bb_end_state, op_life}
use tcg_rs.Op.Life.{is_dead-digit}
use tcg_rs.Liveness.Marks.{
  among, output_args_state, output_args_dead, input_args_state, input_args_dead,
}

-- What is needed behind an operation: by the globals at the end of a basic block, or later.
abbrev pub behind : ℕ → Op → (ℕ → Bool) → ℕ → Bool
behind nb_globals op later t = contains (def op.opc).flags bb_end && ltb t nb_globals || later t

abbrev pub reads : Op → ℕ → Bool
reads op t = among op.args (def op.opc).nb_iargs (def op.opc).nb_oargs t

abbrev pub writes : Op → ℕ → Bool
writes op t = among op.args (def op.opc).nb_oargs 0 t

-- A temporary is needed by the `k` operations from `i` on where one of them reads it before another
-- writes it; at the end of a basic block the globals are needed.
abbrev pub needed : ℕ → List Op → ℕ → ℕ → ℕ → Bool
needed nb_globals ops zero i t = ltb t nb_globals
needed nb_globals ops (suc k) i t =
    let later = needed nb_globals ops k (suc i) in
    elim (get_elem? ops i) [
      | none ↦ false
      | some op ↦
          if is_nop op.opc
          then behind nb_globals op later t
          else reads op t || (behind nb_globals op later t && not (writes op t))
    ]

-- An input that is marked dead is written by the operation, or not needed behind it.
abbrev pub IsLast : List Temp → ℕ → Op → (ℕ → Bool) → LifeData → Type 0
IsLast temps nb_globals op later life =
    (p : ℕ)
    → (def op.opc).nb_oargs ≤ p
    → p < (def op.opc).nb_oargs + (def op.opc).nb_iargs
    → op.args p < length temps
    → is_dead life p ≡ true
    → (behind nb_globals op later (op.args p) && not (writes op (op.args p))) ≡ false

few_args : (o : Opcode) → (def o).nb_oargs + (def o).nb_iargs ≤ 10
unfolding nb_args
few_args o = omega (arith, def-IsInTable o)

swap : (a b : Bool) → (a || b) ≡ (b || a)
swap a b = ground arith

module _ (temps : List Temp) (nb_globals : ℕ) (op : Op) (later : ℕ → Bool) (s : TempState) where
  pub behind-state :
      (x : ℕ) → s x ≡ later x → bb_end_state nb_globals op s x ≡ behind nb_globals op later x
  unfolding bb_end_state
  behind-state x e = elim (Bool-cases (contains (def op.opc).flags bb_end)) [
    | inl c ↦
        rw (bb_end_state, c, sym e)
          (elim (Bool-cases (ltb x nb_globals)) [ inl d ↦ rw d refl | inr d ↦ rw d refl ])
    | inr c ↦ rw (bb_end_state, c) e
  ]

  pub op_life-state :
      ((x : ℕ) → x < length temps → s x ≡ later x)
      → (x : ℕ) → x < length temps
      → (op_life temps op (bb_end_state nb_globals op s)).1 x
        ≡ (reads op x || (behind nb_globals op later x && not (writes op x)))
  unfolding op_life
  op_life-state e x h =
      let s1 = bb_end_state nb_globals op s in
      let d = def op.opc in
      let mid = output_args (length temps) op.args d.nb_oargs 0 (0, s1) in
      input_args_state temps op.args d.nb_iargs d.nb_oargs mid.0 mid.1 x h
      ∙ rw (output_args_state (length temps) op.args d.nb_oargs 0 0 s1 x h, behind-state x (e x h))
          (swap (behind nb_globals op later x && not (writes op x)) (reads op x))

  pub op_life-IsLast :
      ((x : ℕ) → x < length temps → s x ≡ later x)
      → IsLast temps nb_globals op later (op_life temps op (bb_end_state nb_globals op s)).0
  unfolding op_life
  op_life-IsLast e p h k inside dead =
      let s1 = bb_end_state nb_globals op s in
      let d = def op.opc in
      let mid = output_args (length temps) op.args d.nb_oargs 0 (0, s1) in
      let few = few_args op.opc in
      let low : p < 16 = omega (arith, few) in
      elim (input_args_dead temps op.args d.nb_iargs d.nb_oargs mid.0 mid.1 p low
        (omega (arith, few)) dead) [
          | inl w ↦
              let fresh : is_dead mid.0 p ≡ is_dead 0 p =
                output_args_dead (length temps) op.args d.nb_oargs 0 0 s1 p (omega arith) low in
              let off : is_dead 0 p ≡ false =
                is_dead-digit 0 p low ∙ rw (digit-zero (p * 2)) refl in
              absurd (cc)
          | inr w ↦ rw (sym (behind-state (op.args p) (e (op.args p) inside))) (
              sym (output_args_state (length temps) op.args d.nb_oargs 0 0 s1 (op.args p) inside)
              ∙ w)
        ]
