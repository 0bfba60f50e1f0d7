-- ===== src/Index/Sources.antt =====
-- The sources that a block consumes and creates, against the rule of money conservation.
use duniter.Base.{
  ℕ, ◌+◌, ◌*◌, ◌^◌, ◌≡◌, refl, Bool, String, List, [], ◌∷◌, ◌++◌, map, arith, All, if◌then◌else◌,
}
use duniter.Base.Outcome.{Succeeds}
use duniter.Block.{BlockDto}
use duniter.Index.{is_create, is_update, SindexEntry}
use duniter.Index.Local.{
  input_row, output_row, input_rows, output_rows, with_currency, tx_rows, local_sindex_from,
  local_sindex,
}
use duniter.Transactions.{InputDto, OutputDto, TransactionDto}
use duniter.Transactions.Amounts.{input_amounts, output_amounts, check_tx_amounts_validity}
use duniter.Transactions.Conservation.{total, check_tx_amounts_validity_iff}

-- The value of the rows that a test keeps.
abbrev pub worth : (SindexEntry → Bool) → List SindexEntry → ℕ
worth p [] = 0
worth p (e ∷ rows) = (if p e then e.amount * 10 ^ e.base else 0) + worth p rows

abbrev pub created : List SindexEntry → ℕ
created = worth (λ e. is_create e.op)

abbrev pub consumed : List SindexEntry → ℕ
consumed = worth (λ e. is_update e.op)

worth-append :
    (p : SindexEntry → Bool) (xs ys : List SindexEntry)
    → worth p (xs ++ ys) ≡ worth p xs + worth p ys
worth-append p [] ys = omega arith
worth-append p (x ∷ xs) ys = omega (arith, worth-append p xs ys)

module _ (hash_of_tx : TransactionDto → String) (block : BlockDto) where
  input_rows_worth :
      (tx : TransactionDto) (k : ℕ) (is : List InputDto)
      → (consumed (input_rows hash_of_tx block tx k is) ≡ total (map (λ i. (i.amount, i.base)) is))
        × (created (input_rows hash_of_tx block tx k is) ≡ 0)
  unfolding input_rows input_row
  input_rows_worth tx k [] = (refl, refl)
  input_rows_worth tx k (i ∷ is) = omega (arith, input_rows_worth tx (k + 1) is)

  output_rows_worth :
      (tx : TransactionDto) (k : ℕ) (os : List OutputDto)
      → (created (output_rows hash_of_tx block tx k os) ≡ total (map (λ o. (o.amount, o.base)) os))
        × (consumed (output_rows hash_of_tx block tx k os) ≡ 0)
  unfolding output_rows output_row
  output_rows_worth tx k [] = (refl, refl)
  output_rows_worth tx k (o ∷ os) = omega (arith, output_rows_worth tx (k + 1) os)

  tx_rows_worth :
      (tx : TransactionDto)
      → (consumed (tx_rows hash_of_tx block tx) ≡ total (input_amounts tx))
        × (created (tx_rows hash_of_tx block tx) ≡ total (output_amounts tx))
  unfolding tx_rows
  tx_rows_worth tx =
      let tx' = with_currency hash_of_tx block tx in
      let ins = input_rows hash_of_tx block tx' 0 tx.inputs in
      let outs = output_rows hash_of_tx block tx' 0 tx.outputs in
      let i = input_rows_worth tx' 0 tx.inputs in
      let o = output_rows_worth tx' 0 tx.outputs in
      (
        omega (arith, worth-append (λ e. is_update e.op) ins outs),
        omega (arith, worth-append (λ e. is_create e.op) ins outs),
      )

  local_sindex_from-conserves :
      (txs : List TransactionDto)
      → All (λ tx. Succeeds (check_tx_amounts_validity tx)) txs
      → consumed (local_sindex_from hash_of_tx block txs)
        ≡ created (local_sindex_from hash_of_tx block txs)
  unfolding local_sindex_from
  local_sindex_from-conserves [] h = refl
  local_sindex_from-conserves (tx ∷ txs) h =
      let rest = local_sindex_from hash_of_tx block txs in
      let here = tx_rows hash_of_tx block tx in
      let same = ((check_tx_amounts_validity_iff tx).0 h.0).0 in
      let rows = tx_rows_worth tx in
      omega (
        arith,
        worth-append (λ e. is_update e.op) here rest,
        worth-append (λ e. is_create e.op) here rest,
        local_sindex_from-conserves txs h.1,
      )

  -- If every transaction of the block passes the rule of amounts, the source rows of the block
  -- consume exactly the value that they create.
  pub local_sindex-conserves :
      All (λ tx. Succeeds (check_tx_amounts_validity tx)) block.transactions
      → consumed (local_sindex hash_of_tx block) ≡ created (local_sindex hash_of_tx block)
  unfolding local_sindex
  local_sindex-conserves h = local_sindex_from-conserves block.transactions h
