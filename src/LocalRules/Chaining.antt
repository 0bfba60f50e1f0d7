-- ===== src/LocalRules/Chaining.antt =====
-- `getTransactionDepth`, `getMaxTransactionDepth` and `checkMaxTransactionChainingDepth`
-- (app/lib/rules/local_rules.ts): how far the transactions of a block consume one another.
use duniter.Base.{
  ℕ, zero, suc, ◌+◌, ◌-◌, max, Bool, ◌&&◌, String, Option, none, some, List, [], ◌∷◌, filter_by,
  ltb, leb, ◌==◌, str_eq, if◌then◌else◌,
}
use duniter.Base.Outcome.{Outcome, require}
use duniter.Block.{BlockDto}
use duniter.Index.{is_create, is_update, SindexEntry, IndexEntry, sindex}
use duniter.GlobalRules.Context.{same_text}

-- `_.findWhere`
abbrev pub find_first : (SindexEntry → Bool) → List SindexEntry → Option SindexEntry
find_first p [] = none
find_first p (e ∷ rows) = if p e then some e else find_first p rows

-- The output of the block that an input consumes.
abbrev pub consumed_output : List SindexEntry → SindexEntry → Option SindexEntry
consumed_output rows input =
    find_first (λ s. is_create s.op && (str_eq s.identifier input.identifier && s.pos == input.pos))
      rows

abbrev pub inputs_of_tx : List SindexEntry → Option String → List SindexEntry
inputs_of_tx rows tx = filter_by (λ s. is_update s.op && same_text s.tx tx) rows

-- One round of the loop over the inputs. `deeper` is the recursive call on the transaction that
-- made the consumed output, or none at the bottom, where the depth is only counted up.
unfoldable pub deepen : List SindexEntry → Option (Option String → ℕ) → ℕ → SindexEntry → ℕ
deepen rows deeper depth input = elim (consumed_output rows input) [
  | none ↦ depth
  | some output ↦ elim deeper [ none ↦ depth + 1 | some f ↦ max depth (f output.tx) ]
]

unfoldable pub deepen_all : List SindexEntry → Option (Option String → ℕ) → ℕ → List SindexEntry → ℕ
unfolding deepen
deepen_all rows deeper depth [] = depth
deepen_all rows deeper depth (i ∷ inputs) =
    deepen_all rows deeper (deepen rows deeper depth i) inputs

-- `getTransactionDepth` with `left` levels left: `localDepth` is 5 - left, and the recursive call
-- is made while `localDepth < 5`.
unfoldable pub get_transaction_depth : List SindexEntry → ℕ → Option String → ℕ
get_transaction_depth rows zero tx = deepen_all rows none 5 (inputs_of_tx rows tx)
get_transaction_depth rows (suc left) tx =
    deepen_all rows (some (get_transaction_depth rows left)) (5 - suc left) (inputs_of_tx rows tx)

-- The hashes of the rows; `_.uniq` only saves repeated work, the maximum is the same.
unfoldable pub max_depth_over : List SindexEntry → ℕ → List SindexEntry → ℕ
max_depth_over rows depth [] = depth
max_depth_over rows depth (e ∷ es) =
    max_depth_over rows (max depth (get_transaction_depth rows 5 e.tx)) es

unfoldable pub get_max_transaction_depth : List SindexEntry → ℕ
unfolding max_depth_over
get_max_transaction_depth rows = max_depth_over rows 0 rows

-- BLOCK_TX_CHAINING_ACTIVATION_MT and BLOCK_MAX_TX_CHAINING_DEPTH.
abbrev pub allowed_depth : BlockDto → ℕ
allowed_depth block = if ltb 1519862400 block.median_time then 5 else 0

unfoldable pub check_max_transaction_chaining_depth :
    BlockDto → List IndexEntry → Outcome (Unit {0})
check_max_transaction_chaining_depth block index =
    require (leb (get_max_transaction_depth (sindex index)) (allowed_depth block))
      "The maximum transaction chaining length per block is 5"
