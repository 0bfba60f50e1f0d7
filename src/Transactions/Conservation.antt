-- ===== src/Transactions/Conservation.antt =====
-- What `checkTxAmountsValidity` accepts: sums of amounts by unit base.
use mathlib.Core.List.{foldl-append}
use native.Mathlib.Nat.{sub-zero}
use native.Mathlib.Decide.{ℕ_discrete, dec_le}
use duniter.Base.{
  ℕ, zero, suc, ◌+◌, ◌-◌, ◌*◌, ◌^◌, ◌≤◌, ◌<◌, min, max, ◌≡◌, refl, ◌↔◌, inl, inr, Bool, false, ◌&&◌,
  some, List, [], ◌∷◌, ◌++◌, foldl, arith, ltb, ◌==◌, if◌then◌else◌, Bool-cases, ==_iff,
}
use duniter.Base.Int.{ℤ, pos, ◌-ℤ◌, ltb_ℤ, sub_ℕ}
use duniter.Base.Outcome.{Succeeds}
use duniter.Transactions.{TransactionDto}
use duniter.Transactions.Amounts.{
  Based, input_amounts, output_amounts, min_base, common_base, sum_common_base, max_base, base_sum,
  sum_up_to_base, check_deltas, check_amounts, check_tx_amounts_validity,
}

-- The value of a list of amounts.
abbrev pub total : List Based → ℕ
total [] = 0
total ((a, b) ∷ xs) = a * 10 ^ b + total xs

-- The value of the amounts whose base is below `i`.
abbrev pub below : ℕ → List Based → ℕ
below i [] = 0
below i ((a, b) ∷ xs) = (if ltb b i then a * 10 ^ b else 0) + below i xs

abbrev at_base : ℕ → List Based → ℕ
at_base i [] = 0
at_base i ((a, b) ∷ xs) = (if b == i then a * 10 ^ b else 0) + at_base i xs

below-suc : (i : ℕ) (xs : List Based) → below (suc i) xs ≡ below i xs + at_base i xs
below-suc i [] = omega arith
below-suc i ((a, b) ∷ xs) = ground (arith, below-suc i xs)

below-zero : (xs : List Based) → below 0 xs ≡ 0
below-zero [] = refl
below-zero ((a, b) ∷ xs) = ground (arith, below-zero xs)

below_mono : (i j : ℕ) (xs : List Based) → i ≤ j → below i xs ≤ below j xs
below_mono i j [] h = omega arith
below_mono i j ((a, b) ∷ xs) h = ground (arith, below_mono i j xs)

below-le-total : (i : ℕ) (xs : List Based) → below i xs ≤ total xs
below-le-total i [] = omega arith
below-le-total i ((a, b) ∷ xs) = ground (arith, below-le-total i xs)

common_base_of-eq-zero : (xs : List Based) → foldl min_base (some 0) xs ≡ some 0
unfolding min_base
common_base_of-eq-zero [] = refl
common_base_of-eq-zero ((a, b) ∷ xs) =
    let e : min 0 b ≡ 0 = omega arith in rw e (common_base_of-eq-zero xs)

common_base-eq-zero : (xs ys : List Based) → common_base xs ys ≡ 0
unfolding common_base
common_base-eq-zero xs ys = rw (common_base_of-eq-zero (xs ++ ys))

sum_common_base-from :
    (acc : ℕ) (xs : List Based)
    → foldl (λ sum x. sum + x.0 * 10 ^ (x.1 - 0)) acc xs ≡ acc + total xs
sum_common_base-from acc [] = omega arith
sum_common_base-from acc ((a, b) ∷ xs) =
    rw sub-zero (omega (arith, sum_common_base-from (acc + a * 10 ^ b) xs))

sum_common_base-eq-total : (xs : List Based) → sum_common_base 0 xs ≡ total xs
unfolding sum_common_base
sum_common_base-eq-total xs = omega (arith, sum_common_base-from 0 xs)

base_sum-from :
    (acc i : ℕ) (xs : List Based)
    → foldl (λ sum x. if x.1 == i then sum + x.0 * 10 ^ (x.1 - 0) else sum) acc xs
      ≡ acc + at_base i xs
base_sum-from acc i [] = omega arith
base_sum-from acc i ((a, b) ∷ xs) = rw sub-zero (elim (Bool-cases (b == i)) [
  | inl e ↦ rw e (omega (arith, base_sum-from (acc + a * 10 ^ b) i xs))
  | inr e ↦ rw e (omega (arith, base_sum-from acc i xs))
])

base_sum-eq-at_base : (i : ℕ) (xs : List Based) → base_sum 0 i xs ≡ at_base i xs
unfolding base_sum
base_sum-eq-at_base i xs = omega (arith, base_sum-from 0 i xs)

sum_up_to_base-snoc : (ds : List ℤ) (d : ℤ) → sum_up_to_base (ds ++ d ∷ []) ≡ sum_up_to_base ds -ℤ d
unfolding sum_up_to_base
sum_up_to_base-snoc ds d = foldl-append (λ (s e : ℤ). s -ℤ e) (pos 0) ds (d ∷ [])

module _ (ins outs : List Based) where
  -- At each base in a range, the outputs up to that base are covered by the inputs up to it.
  abbrev Covered : ℕ → Type 0
  Covered i = below i outs ≤ below i ins

  abbrev InDebt : ℕ → List ℤ → Type 0
  InDebt i deltas = sum_up_to_base deltas ≡ sub_ℕ (below i ins) (below i outs)

  abbrev delta_at : ℕ → ℤ
  delta_at i = sub_ℕ (base_sum 0 i outs) (base_sum 0 i ins)

  abbrev refused : ℕ → List ℤ → Bool
  refused i deltas = ltb_ℤ (pos 0) (delta_at i) && ltb_ℤ (sum_up_to_base deltas) (delta_at i)

  -- One round keeps the sum of the deltas, and refuses exactly the first base that is not covered.
  round_sum :
      (i : ℕ) (deltas : List ℤ) → InDebt i deltas → InDebt (suc i) (deltas ++ delta_at i ∷ [])
  unfolding ◌-ℤ◌
  round_sum i deltas h = ground (
    arith,
    sum_up_to_base-snoc deltas (delta_at i),
    below-suc i ins,
    below-suc i outs,
    base_sum-eq-at_base i ins,
    base_sum-eq-at_base i outs,
  )

  round_test :
      (i : ℕ) (deltas : List ℤ)
      → InDebt i deltas
      → Covered i
      → (refused i deltas ≡ false) ↔ Covered (suc i)
  round_test i deltas h c = ground (
    arith,
    below-suc i ins,
    below-suc i outs,
    base_sum-eq-at_base i ins,
    base_sum-eq-at_base i outs,
  )

  CoveredUpTo : ℕ → Type 0
  CoveredUpTo n = (j : ℕ) → j ≤ n → Covered j

  up_to_suc : (n : ℕ) → CoveredUpTo n → Covered (suc n) → CoveredUpTo (suc n)
  unfolding CoveredUpTo
  up_to_suc n h c j le = elim (ℕ_discrete j (suc n)) [ yes e ↦ rw e c | no ne ↦ h j (omega arith) ]

  check_deltas_iff :
      (rounds i : ℕ) (deltas : List ℤ)
      → InDebt i deltas
      → CoveredUpTo i
      → Succeeds (check_deltas 0 ins outs rounds i deltas) ↔ CoveredUpTo (i + rounds)
  unfolding check_deltas CoveredUpTo
  check_deltas_iff zero i deltas h c = (λ _ j le. c j (omega arith), λ _. tt)
  check_deltas_iff (suc rounds) i deltas h c =
      let test = round_test i deltas h (c i (omega arith)) in
      elim (Bool-cases (refused i deltas)) [
        | inl e ↦
            rw e
              (λ bad. absurd bad, λ all. absurd (let q = test.1 (all (suc i) (omega arith)) in cc))
        | inr e ↦
            let next =
              check_deltas_iff rounds (suc i) (deltas ++ delta_at i ∷ []) (round_sum i deltas h)
                (up_to_suc i c (test.0 e)) in
            rw e (
              λ good j le. next.0 good j (omega arith),
              λ all. next.1 (λ j le. all j (omega arith)),
            )
      ]

max_from-ge : (m : ℕ) (xs : List Based) → m ≤ foldl (λ (n : ℕ) (x : Based). max n x.1) m xs
max_from-ge m [] = omega arith
max_from-ge m ((a, b) ∷ xs) = omega (arith, max_from-ge (max m b) xs)

below-eq-total :
    (i m : ℕ) (xs : List Based)
    → foldl (λ (n : ℕ) (x : Based). max n x.1) m xs < i
    → below i xs ≡ total xs
below-eq-total i m [] h = refl
below-eq-total i m ((a, b) ∷ xs) h =
    let later : below i xs ≡ total xs = below-eq-total i (max m b) xs h in
    let small : b < i = omega (arith, max_from-ge (max m b) xs) in ground arith

below_from_max : (j : ℕ) (xs : List Based) → max_base xs < j → below j xs ≡ total xs
unfolding max_base
below_from_max j xs h = below-eq-total j 0 xs h

-- Covered up to the largest base of the outputs is covered everywhere, where the values agree.
covered_everywhere :
    (ins outs : List Based)
    → total ins ≡ total outs
    → ((j : ℕ) → j ≤ max_base outs + 1 → below j outs ≤ below j ins)
    → (j : ℕ) → below j outs ≤ below j ins
covered_everywhere ins outs same h j = elim (dec_le j (max_base outs + 1)) [
  | yes le ↦ h j le
  | no gt ↦
      let top : below (max_base outs + 1) outs ≤ below (max_base outs + 1) ins =
        h (max_base outs + 1) (omega arith) in
      omega (
        arith,
        below_from_max (max_base outs + 1) outs (omega arith),
        below-le-total (max_base outs + 1) ins,
        below_mono (max_base outs + 1) j ins (omega arith),
        below-le-total j outs,
      )
]

check_amounts_iff :
    (ins outs : List Based)
    → Succeeds (check_amounts ins outs)
      ↔ ((total ins ≡ total outs) × ((i : ℕ) → below i outs ≤ below i ins))
unfolding check_amounts CoveredUpTo
check_amounts_iff ins outs =
    rw (common_base-eq-zero ins outs, sum_common_base-eq-total ins, sum_common_base-eq-total outs)
      (elim (Bool-cases (total ins == total outs)) [
        | inl e ↦
            let loop =
              check_deltas_iff ins outs (max_base outs + 1 - 0) 0 []
                (unfold sum_up_to_base in ground (arith, below-zero ins, below-zero outs))
                (λ j le. ground (arith, below-zero ins, below-zero outs)) in
            let same = (==_iff (total ins) (total outs)).0 e in
            rw e (
              λ good.
                  (same, covered_everywhere ins outs same (λ j le. loop.0 good j (omega arith))),
              λ h. loop.1 (λ j le. h.1 j),
            )
        | inr e ↦ rw e (λ bad. absurd bad, λ h. absurd (ground arith))
      ])

-- A transaction passes exactly when its inputs and outputs have the same value, and at every unit
-- base the outputs up to that base are worth no more than the inputs up to it: value moves only
-- from a smaller base to a larger one.
pub check_tx_amounts_validity_iff :
    (tx : TransactionDto)
    → Succeeds (check_tx_amounts_validity tx) ↔ (
        (total (input_amounts tx) ≡ total (output_amounts tx))
        × ((i : ℕ) → below i (output_amounts tx) ≤ below i (input_amounts tx)))
unfolding check_tx_amounts_validity
check_tx_amounts_validity_iff tx = check_amounts_iff (input_amounts tx) (output_amounts tx)
