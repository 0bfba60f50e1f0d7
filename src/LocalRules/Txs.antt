-- ===== src/LocalRules/Txs.antt =====
-- app/lib/rules/local_rules.ts, the rules on the transactions of a block.
use duniter.Base.{
  ℕ, Bool, true, false, not, ◌&&◌, ◌||◌, String, List, [], ◌∷◌, map, filter_by, every, some_of,
  ◌==◌, str_eq, if◌then◌else◌,
}
use duniter.Base.Outcome.{Outcome, done, throw, ◌>>=◌, ◌>>◌, require}
use duniter.Block.{BlockDto}
use duniter.Index.{SindexEntry, is_create, is_update}
use duniter.Index.Local.{local_sindex}
use duniter.Transactions.{TransactionDto}
use duniter.Transactions.Amounts.{check_tx_amounts_validity}
use duniter.GlobalRules.ProofOfWork.{codes}

-- `for (const tx of txs)`, where the body may throw.
unfoldable pub for_each :
    (TransactionDto → Outcome (Unit {0})) → List TransactionDto → Outcome (Unit {0})
for_each body [] = done tt
for_each body (tx ∷ txs) = let rest = for_each body txs in body tx >> rest

unfoldable pub check_tx_version : BlockDto → Outcome (Unit {0})
check_tx_version block =
    require (every (λ tx. tx.version == 10) block.transactions)
      "A transaction must have the version 10"

abbrev pub is_empty : {A : Type 0} → List A → Bool
is_empty [] = true
is_empty (x ∷ xs) = false

unfoldable pub check_tx_issuers : BlockDto → Outcome (Unit {0})
check_tx_issuers block =
    require (every (λ tx. not (is_empty tx.issuers)) block.transactions)
      "A transaction must have at least 1 issuer"

-- A source; the texts `[op, identifier, pos].join("-")` are equal when these are, for one op.
abbrev pub Source : Type 0
Source = String × ℕ

abbrev pub has_source : Source → List Source → Bool
has_source (identifier, pos) = some_of (λ (s : Source). str_eq s.0 identifier && s.1 == pos)

-- `inputs.length === Underscore.uniq(inputs).length`
abbrev pub all_sources_differ : List Source → Bool
all_sources_differ [] = true
all_sources_differ (s ∷ ss) = not (has_source s ss) && all_sources_differ ss

abbrev pub sources_of : (SindexEntry → Bool) → List SindexEntry → List Source
sources_of p rows = map (λ e. (e.identifier, e.pos)) (filter_by p rows)

unfoldable pub check_tx_sources : (TransactionDto → String) → BlockDto → Outcome (Unit {0})
check_tx_sources hash_of_tx block = do
  require (every (λ tx. not (is_empty tx.inputs)) block.transactions)
      "A transaction must have at least 1 source"
  require (all_sources_differ (sources_of (λ e. is_update e.op) (local_sindex hash_of_tx block)))
      "It cannot exist 2 identical sources for transactions inside a given block"
  require (all_sources_differ (sources_of (λ e. is_create e.op) (local_sindex hash_of_tx block)))
      "It cannot exist 2 identical sources for transactions inside a given block"

unfoldable pub check_tx_amounts : BlockDto → Outcome (Unit {0})
unfolding for_each
check_tx_amounts block = for_each check_tx_amounts_validity block.transactions

abbrev pub starts_with : List ℕ → List ℕ → Bool
starts_with [] cs = true
starts_with (d ∷ ds) [] = false
starts_with (d ∷ ds) (c ∷ cs) = d == c && starts_with ds cs

abbrev pub contains : List ℕ → List ℕ → Bool
contains ds [] = starts_with ds []
contains ds (c ∷ cs) = starts_with ds (c ∷ cs) || contains ds cs

-- `conditions.match(/(SIG|XHX)/)`
unfoldable pub names_a_lock : String → Bool
names_a_lock conditions =
    contains (codes "SIG") (codes conditions) || contains (codes "XHX") (codes conditions)

unfoldable pub check_recipients : TransactionDto → Outcome (Unit {0})
unfolding names_a_lock
check_recipients tx =
    if is_empty tx.outputs
    then throw "A transaction must have at least 1 recipient"
    else require (every (λ o. names_a_lock o.conditions) tx.outputs)
        "Empty conditions are forbidden"

unfoldable pub check_tx_recipients : BlockDto → Outcome (Unit {0})
unfolding for_each check_recipients
check_tx_recipients block = for_each check_recipients block.transactions

-- How a signature is verified is a parameter: the text of the transaction, a signature, a key.
module _ (verify : TransactionDto → String → String → Bool) where
  -- `getTransactionSigResult().allMatching`, from the issuers and the signatures that are left. A
  -- signature without an issuer is an error, an issuer without a signature does not match.
  unfoldable pub all_matching : TransactionDto → List String → List String → Outcome Bool
  all_matching tx [] [] = done true
  all_matching tx (key ∷ keys) [] = done false
  all_matching tx [] (sig ∷ sigs) = throw "Cannot set property 'ok' of undefined"
  all_matching tx (key ∷ keys) (sig ∷ sigs) =
      let rest = all_matching tx keys sigs in if verify tx sig key then rest else done false

  unfoldable pub check_signatures : TransactionDto → Outcome Bool
  unfolding all_matching
  check_signatures tx = all_matching tx tx.issuers tx.signatures

  unfoldable pub check_tx_signature : BlockDto → Outcome (Unit {0})
  unfolding for_each check_signatures
  check_tx_signature block =
      for_each
        (λ tx. check_signatures tx >>= λ ok. require ok "Signature from a transaction must match")
        block.transactions
