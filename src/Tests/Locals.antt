-- ===== src/Tests/Locals.antt =====
-- A root block that passes the local rules.
use duniter.Base.{String, ◌≡◌, refl, arith, ◌↔◌, true, some, [], ◌∷◌, inr}
use duniter.Base.Int.{pos}
use duniter.Base.Outcome.{Succeeds}
use duniter.Block.{BlockDto}
use duniter.LocalRules.Context.{
  check_parameters, check_inner_hash, check_previous_hash, check_previous_issuer, check_unit_base,
  check_block_times,
}
use duniter.LocalRules.Documents.{
  check_identities_signature, check_identities_user_id_conflict, check_identities_pubkey_conflict,
  check_identities_match_join, check_certification_isnt_for_leaver_or_excluded,
  check_certification_one_by_issuer, check_certification_unicity, check_membership_unicity,
  check_memberships_signature, check_pubkey_unicity, check_revoked_are_excluded,
  check_revoked_unicity, scan_pubkeys,
}
use duniter.Index.{iindex_create, iindex, mindex_create, mindex, cindex, sindex}
use duniter.Index.Local.{
  local_index, push_joiners, identity_row, local_sindex, certification_row, input_row, output_row,
}
use duniter.LocalRules.Chaining.{
  check_max_transaction_chaining_depth, get_max_transaction_depth, get_transaction_depth,
  deepen_all,
}
use duniter.LocalRules.Txs.{
  check_tx_amounts, check_tx_issuers, check_tx_recipients, check_tx_signature, check_tx_sources,
  check_tx_version,
}
use duniter.Transactions.Amounts.{
  base_sum, check_amounts, check_deltas, check_tx_amounts_validity, max_base, sum_common_base,
  sum_up_to_base,
}
use duniter.Base.Int.{◌-ℤ◌}
use duniter.LocalRules.All.{
  Crypto, all_local_but_pow_and_signature, IsLocallyValid, all_local-IsLocallyValid,
}
use duniter.LocalRules.Depth.{SomeLongChain, check_max_transaction_chaining_depth_iff}
use duniter.Transactions.{TransactionDto}
use duniter.Tests.Sample.{input, output, whole_numbers, root_block, transfer, conf, no_hash}

-- Every signature is accepted, and the inner hash is a constant.
abbrev pub trusting : Crypto whole_numbers
trusting = record {
  growth = pos 1;
  inner_hash = λ b. "F";
  block_signed = λ b. true;
  identity_signed = λ i. true;
  membership_in_signed = λ ms. true;
  membership_out_signed = λ ms. true;
  verify = λ tx sig key. true;
  hash_of_tx = no_hash;
}

abbrev first_block : BlockDto
first_block = record root_block { parameters = some "p"; transactions = transfer ∷ [] }

first_block_passes : Succeeds (
    all_local_but_pow_and_signature whole_numbers trusting first_block conf
      (local_index no_hash no_hash first_block conf))
unfolding all_local_but_pow_and_signature certification_row input_row output_row deepen_all
    check_parameters check_inner_hash check_previous_hash check_previous_issuer check_unit_base
    check_block_times check_identities_signature check_identities_user_id_conflict
    check_identities_pubkey_conflict check_identities_match_join
    check_certification_isnt_for_leaver_or_excluded check_certification_one_by_issuer
    check_certification_unicity check_membership_unicity check_memberships_signature
    check_pubkey_unicity check_revoked_are_excluded check_revoked_unicity scan_pubkeys iindex_create
    iindex mindex_create mindex cindex sindex local_index push_joiners identity_row local_sindex
    check_max_transaction_chaining_depth get_max_transaction_depth get_transaction_depth
    check_tx_amounts check_tx_issuers check_tx_recipients check_tx_signature check_tx_sources
    check_tx_version base_sum check_amounts check_deltas check_tx_amounts_validity max_base
    sum_common_base sum_up_to_base ◌-ℤ◌
first_block_passes = tt

all_local-IsLocallyValid_example : IsLocallyValid whole_numbers trusting first_block
all_local-IsLocallyValid_example =
    all_local-IsLocallyValid whole_numbers trusting no_hash first_block conf
      (inr first_block_passes)

-- A second transaction that spends the first output of the first one; texts name transactions.
abbrev second_transfer : TransactionDto
second_transfer = record transfer {
  comment = "second";
  inputs = input 15 0 "" ∷ [];
  outputs = output 15 0 "SIG(carol)" ∷ [];
}

abbrev comment_of : TransactionDto → String
comment_of tx = tx.comment

abbrev chained_block : BlockDto
chained_block = record first_block {
  median_time = 1600000000;
  transactions = transfer ∷ second_transfer ∷ [];
}

check_max_transaction_chaining_depth_iff_example :
    let rows = local_index no_hash comment_of chained_block conf in
    Succeeds (check_max_transaction_chaining_depth chained_block rows)
    ↔ ¬ SomeLongChain (sindex rows) (sindex rows)
check_max_transaction_chaining_depth_iff_example =
    check_max_transaction_chaining_depth_iff chained_block
      (local_index no_hash comment_of chained_block conf) (omega arith)

chained_depth :
    get_max_transaction_depth (sindex (local_index no_hash comment_of chained_block conf)) ≡ 1
unfolding get_max_transaction_depth get_transaction_depth deepen_all sindex local_index push_joiners
    identity_row local_sindex certification_row input_row output_row
chained_depth = refl
