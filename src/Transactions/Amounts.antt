-- ===== src/Transactions/Amounts.antt =====
-- app/lib/rules/local_rules.ts, `checkTxAmountsValidity`: the rule of money conservation and the
-- rule of unit base transformation.
use duniter.Base.{
  ℕ, zero, suc, ◌+◌, ◌-◌, ◌*◌, ◌^◌, min, max, ◌&&◌, Option, none, some, List, [], ◌∷◌, ◌++◌, map,
  foldl, ◌==◌, if◌then◌else◌,
}
use duniter.Base.Int.{ℤ, pos, ◌-ℤ◌, ltb_ℤ, sub_ℕ}
use duniter.Base.Outcome.{Outcome, done, throw, ◌>>◌, require}
use duniter.Transactions.{TransactionDto}

-- An amount and its unit base: what inputs and outputs share.
abbrev pub Based : Type 0
Based = ℕ × ℕ

abbrev pub input_amounts : TransactionDto → List Based
input_amounts tx = map (λ i. (i.amount, i.base)) tx.inputs

abbrev pub output_amounts : TransactionDto → List Based
output_amounts tx = map (λ o. (o.amount, o.base)) tx.outputs

-- One round of the `reduce` that looks for the smallest base; `none` is `null`.
unfoldable pub min_base : Option ℕ → Based → Option ℕ
min_base none (_, b) = some b
min_base (some m) (_, b) = some (min m b)

-- The `reduce` starts at 0.
unfoldable pub common_base_of : List Based → Option ℕ
unfolding min_base
common_base_of = foldl min_base (some 0)

number_or_zero : Option ℕ → ℕ
number_or_zero none = 0
number_or_zero (some b) = b

unfoldable pub common_base : List Based → List Based → ℕ
unfolding common_base_of number_or_zero
common_base inputs outputs = number_or_zero (common_base_of (inputs ++ outputs))

unfoldable pub sum_common_base : ℕ → List Based → ℕ
sum_common_base common = foldl (λ sum x. sum + x.0 * 10 ^ (x.1 - common)) 0

unfoldable pub max_base : List Based → ℕ
max_base = foldl (λ m x. max m x.1) 0

-- The sum of the amounts of one base, in units of the common base.
unfoldable pub base_sum : ℕ → ℕ → List Based → ℕ
base_sum common i = foldl (λ sum x. if x.1 == i then sum + x.0 * 10 ^ (x.1 - common) else sum) 0

-- `sumUpToBase`, over the deltas of the bases below.
unfoldable pub sum_up_to_base : List ℤ → ℤ
sum_up_to_base = foldl (λ sum d. sum -ℤ d) (pos 0)

-- The loop over the bases from `i`, with the rounds left; `deltas` are those of the bases below.
unfoldable pub check_deltas : ℕ → List Based → List Based → ℕ → ℕ → List ℤ → Outcome (Unit {0})
check_deltas common inputs outputs zero i deltas = done tt
check_deltas common inputs outputs (suc rounds) i deltas =
    let delta = sub_ℕ (base_sum common i outputs) (base_sum common i inputs) in
    let rest = check_deltas common inputs outputs rounds (suc i) (deltas ++ delta ∷ []) in
    if ltb_ℤ (pos 0) delta && ltb_ℤ (sum_up_to_base deltas) delta
    then throw "TX_OUTPUT_SUM_NOT_EQUALS_PREV_DELTAS"
    else rest

unfoldable pub check_amounts : List Based → List Based → Outcome (Unit {0})
unfolding common_base
check_amounts inputs outputs =
    let common = common_base inputs outputs in
    do
      require (sum_common_base common inputs == sum_common_base common outputs)
          "TX_INPUTS_OUTPUTS_NOT_EQUAL"
      check_deltas common inputs outputs (max_base outputs + 1 - common) common []

unfoldable pub check_tx_amounts_validity : TransactionDto → Outcome (Unit {0})
check_tx_amounts_validity tx = check_amounts (input_amounts tx) (output_amounts tx)
