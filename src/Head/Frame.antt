-- ===== src/Head/Frame.antt =====
-- About BR_G04 to BR_G06 (app/lib/indexer.ts): the frame against the number of issuers.
use duniter.Base.{
  ℕ, ◌+◌, ◌*◌, ◌<◌, ◌≡◌, ◌⊎◌, refl, ap, inl, inr, Bool, true, map, uniq, length, ltb→lt, ==_iff,
  arith, ◌==◌, if◌then◌else◌, Bool-cases,
}
use duniter.Base.Int.{ℤ, pos, pos_part, neg_part, ◌+ℤ◌, ◌-ℤ◌, ◌≤ℤ◌, ltb_ℤ, five_times, int_laws}
use duniter.Head.{DbHead}
use duniter.Head.Issuers.{
  Ranger, prepare_issuers_count, prepare_issuers_frame, prepare_issuers_frame_var,
}

-- What the code computes for the frame, in the order in which it computes it.
abbrev pub prepare_frame : DbHead → Ranger → DbHead → DbHead
prepare_frame head range head_1 =
    let counted = prepare_issuers_count head range head_1 in
    let framed = prepare_issuers_frame counted head_1 in prepare_issuers_frame_var framed head_1

-- The frame and its pending variation add up to one more than five times the issuers.
abbrev pub IsBalanced : DbHead → Type 0
IsBalanced h =
    (h.issuers_frame +ℤ h.issuers_frame_var ≡ pos (1 + 5 * h.issuers_count))
    × (pos 1 ≤ℤ h.issuers_frame)

-- The same equation between natural numbers.
abbrev Adds : ℤ → ℤ → ℕ → Type 0
Adds x y n = pos_part x + pos_part y ≡ n + neg_part x + neg_part y

Adds-of_eq : (x y : ℤ) (n : ℕ) → x +ℤ y ≡ pos n → Adds x y n
Adds-of_eq x y n h = omega (int_laws, ap pos_part h, ap neg_part h)

eq-of_Adds : (x y : ℤ) (n : ℕ) → Adds x y n → x +ℤ y ≡ pos n
eq-of_Adds x y n h = omega int_laws

module _ (frame var : ℤ) (old new : ℕ) (h : Adds frame var (1 + 5 * old)) where
  abbrev change : ℤ
  change = five_times (pos new -ℤ pos old)

  grown : Adds (frame +ℤ pos 1) (var +ℤ change -ℤ pos 1) (1 + 5 * new)
  grown = omega int_laws

  shrunk : Adds (frame -ℤ pos 1) (var +ℤ change +ℤ pos 1) (1 + 5 * new)
  shrunk = omega int_laws

  kept : Adds frame (var +ℤ change) (1 + 5 * new)
  kept = omega int_laws

module _ (frame var : ℤ) (old counted : ℕ) (root : Bool) where
  abbrev new_count : ℕ
  new_count = if root then 0 else counted

  abbrev new_frame : ℤ
  new_frame =
      if root
      then pos 1
      else if ltb_ℤ (pos 0) var
      then frame +ℤ pos 1
      else if ltb_ℤ var (pos 0)
      then frame -ℤ pos 1
      else frame

  abbrev new_var : ℤ
  new_var =
      let change = pos new_count -ℤ pos old in
      if root
      then pos 0
      else if ltb_ℤ (pos 0) var
      then var +ℤ five_times change -ℤ pos 1
      else if ltb_ℤ var (pos 0)
      then var +ℤ five_times change +ℤ pos 1
      else var +ℤ five_times change

  -- The computation on the four numbers that it reads.
  frame_stays_balanced :
      (root ≡ true) ⊎ ((frame +ℤ var ≡ pos (1 + 5 * old)) × (pos 1 ≤ℤ frame))
      → (new_frame +ℤ new_var ≡ pos (1 + 5 * new_count)) × (pos 1 ≤ℤ new_frame)
  frame_stays_balanced h = elim (Bool-cases root) [
    | inl e ↦ rw e (unfold ◌+ℤ◌ in (refl, omega arith))
    | inr e ↦
        let b : (frame +ℤ var ≡ pos (1 + 5 * old)) × (pos 1 ≤ℤ frame) = elim h [
          | inl r ↦ cc
          | inr b ↦ b
        ] in
        let before = Adds-of_eq frame var (1 + 5 * old) b.0 in
        elim (Bool-cases (ltb_ℤ (pos 0) var)) [
          | inl up ↦
              rw (e, up) (eq-of_Adds _ _ _ (grown frame var old counted before), omega int_laws)
          | inr flat ↦ elim (Bool-cases (ltb_ℤ var (pos 0))) [
            | inl down ↦
                let negative : pos_part var + 0 < 0 + neg_part var = ltb→lt _ _ down in
                rw (e, flat, down)
                  (eq-of_Adds _ _ _ (shrunk frame var old counted before), omega int_laws)
            | inr still ↦
                rw (e, flat, still) (eq-of_Adds _ _ _ (kept frame var old counted before), b.1)
          ]
        ]
  ]

-- At the root, and wherever the previous HEAD is in balance, the computed frame and its variation
-- are in balance, whatever the range that is counted: their sum is one more than five times the
-- issuers, and the frame is at least 1.
pub prepare_frame-IsBalanced :
    (head head_1 : DbHead) (range : Ranger)
    → (head.number ≡ 0) ⊎ IsBalanced head_1
    → IsBalanced (prepare_frame head range head_1)
unfolding prepare_issuers_count prepare_issuers_frame prepare_issuers_frame_var
prepare_frame-IsBalanced head head_1 range h =
    frame_stays_balanced head_1.issuers_frame head_1.issuers_frame_var head_1.issuers_count
      (length (uniq (map (λ (b : DbHead). b.issuer) (range (pos 1) head_1.issuers_frame))))
      (head.number == 0) (elim h [ inl root ↦ inl ((==_iff head.number 0).1 root) | inr b ↦ inr b ])
