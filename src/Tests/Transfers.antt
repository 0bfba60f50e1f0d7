-- ===== src/Tests/Transfers.antt =====
-- Transactions and the rows of their sources.
use duniter.Base.{map, ℕ, ◌≤◌, ◌≡◌, refl, ◌↔◌}
use duniter.Base.Int.{◌-ℤ◌}
use duniter.Base.Outcome.{Succeeds}
use duniter.Index.Local.{local_sindex}
use duniter.Index.Sources.{consumed, created, local_sindex-conserves}
use duniter.Transactions.{get_len, TransactionDto, transaction}
use duniter.Transactions.Amounts.{
  input_amounts, output_amounts, sum_common_base, max_base, base_sum, sum_up_to_base, check_deltas,
  check_amounts, check_tx_amounts_validity,
}
use duniter.Transactions.Conservation.{total, below, check_tx_amounts_validity_iff}
use duniter.Tests.Sample.{transfer, busy_block, no_hash}

transfer_passes : Succeeds (check_tx_amounts_validity transfer)
unfolding check_tx_amounts_validity check_amounts check_deltas max_base base_sum sum_up_to_base
    sum_common_base ◌-ℤ◌
transfer_passes = tt

-- The other way round, from the larger base to the smaller, is refused.
abbrev backwards : TransactionDto
backwards = record transfer {
  inputs =
      map
        (λ o. record {
          amount = o.amount;
          base = o.base;
          src_type = transaction;
          identifier = "T";
          pos = 0;
        })
        transfer.outputs;
  outputs =
      map (λ i. record { amount = i.amount; base = i.base; conditions = "SIG(bob)" })
        transfer.inputs;
}

backwards_is_refused : Succeeds (check_tx_amounts_validity backwards) → ⊥
unfolding check_tx_amounts_validity check_amounts check_deltas max_base base_sum sum_up_to_base
    sum_common_base
backwards_is_refused h = h

get_len-transfer : get_len transfer ≡ 10
unfolding get_len
get_len-transfer = refl

check_tx_amounts_validity_iff_example : Succeeds (check_tx_amounts_validity transfer) ↔ (
    (total (input_amounts transfer) ≡ total (output_amounts transfer))
    × ((i : ℕ) → below i (output_amounts transfer) ≤ below i (input_amounts transfer)))
check_tx_amounts_validity_iff_example = check_tx_amounts_validity_iff transfer

local_sindex-conserves_example :
    consumed (local_sindex no_hash busy_block) ≡ created (local_sindex no_hash busy_block)
local_sindex-conserves_example = local_sindex-conserves no_hash busy_block (transfer_passes, tt)
