-- ===== src/Tests/Whole.antt =====
-- A block after the root that passes the whole check, with a certification between stored members and
-- a transaction that spends a stored source.
use duniter.LocalRules.All.{all_local_but_pow_and_signature}
use duniter.LocalRules.Context.{
  check_parameters, check_inner_hash, check_previous_hash, check_previous_issuer, check_unit_base,
  check_block_times, max_acceleration,
}
use duniter.LocalRules.Documents.{
  check_identities_signature, check_identities_user_id_conflict, check_identities_pubkey_conflict,
  check_identities_match_join, check_membership_unicity, check_revoked_unicity,
  check_revoked_are_excluded, check_memberships_signature, check_pubkey_unicity,
  check_certification_one_by_issuer, check_certification_unicity,
  check_certification_isnt_for_leaver_or_excluded,
}
use duniter.Index.{iindex_create, iindex, mindex_create, mindex, cindex, sindex}
use duniter.Index.Local.{
  local_index, push_joiners, identity_row, local_sindex, certification_row, input_row, output_row,
}
use duniter.LocalRules.Txs.{
  check_tx_version, check_tx_issuers, check_tx_sources, check_tx_recipients, check_tx_amounts,
  check_tx_signature,
}
use duniter.Transactions.Amounts.{
  check_tx_amounts_validity, check_amounts, sum_common_base, check_deltas, max_base, base_sum,
  sum_up_to_base,
}
use duniter.Base.Int.{five_times}
use duniter.LocalRules.Chaining.{
  check_max_transaction_chaining_depth, get_max_transaction_depth, get_transaction_depth,
  deepen_all,
}
use duniter.Head.Complete.{complete_head, complete_from, new_head}
use duniter.Head.Issuers.{prepare_number, average}
use duniter.Unlock.{eval_param}
use duniter.GlobalRules.Check.{check_block}
use duniter.Base.{ℕ, true, false, none, some, [], ◌∷◌}
use duniter.Base.Int.{pos, ◌-ℤ◌, ◌+ℤ◌, ◌*ℤ◌}
use duniter.Base.Outcome.{Succeeds, done, map_all}
use duniter.Unlock.{UnlockEngine, sig_of, sig, param, unlock}
use duniter.Enrichment.{IndexDal}
use duniter.Enrichment.Complete.{Outside, NodeView, check_whole_block, scope_of, rows_of_block}
use duniter.Enrichment.Facts.{IsSound}
use duniter.Enrichment.Accepted.{check_whole_block-IsSound}
use duniter.LocalRules.All.{IsLocallyValid}
use duniter.Block.{BlockDto, special_block}
use duniter.Transactions.{TransactionDto}
use duniter.Head.Complete.{HeadView}
use duniter.Tests.Heads.{root_head}
use duniter.Tests.Sample.{
  whole_numbers, conf, no_hash, empty_view, root_block, certification, transfer, input, output,
}
use duniter.Tests.Locals.{trusting}

abbrev pub small_engine : UnlockEngine
small_engine = record {
  func_of = λ p. sig_of (some 0);
  parse_int = λ s. some 0;
  hashf = λ s. s;
  parse = λ s. some (sig (param "alice"));
}

abbrev after_root : HeadView
after_root = record empty_view {
  head_1 = some root_head;
  range = λ n m. root_head ∷ [];
  old_head = λ n. root_head;
  stored_member = λ key. true;
}

abbrev payment : TransactionDto
payment = record transfer { inputs = input 25 0 "T1" ∷ []; outputs = output 25 0 "SIG(bob)" ∷ [] }

abbrev paying_block : BlockDto
paying_block = record root_block {
  number = 1;
  previous_hash = some root_head.hash;
  previous_issuer = some root_head.issuer;
  identities = [];
  joiners = [];
  certifications = certification "alice" "bob" ∷ [];
  transactions = payment ∷ [];
  issuers_count = 1;
  issuers_frame_var = pos 5;
  members_count = pos 0;
}

-- Members who may certify, and a source that is not spent.
abbrev small_dal : IndexDal
small_dal = record {
  find_by_uid = λ uid. [];
  find_by_pub = λ key. [];
  iindex_reducable = λ key. record { member = some true; kick = none } ∷ [];
  mindex_reducable = λ key. [];
  find_by_pub_and_chainable_on_gt = λ key t. [];
  find_by_receiver_and_expired_on = λ key t. [];
  find_by_issuer_and_chainable_on_gt = λ key t. [];
  find_by_issuer_and_receiver = λ issuer receiver. [];
  get_valid_links_from = λ key. [];
  find_by_identifier_pos_amount_base = λ identifier n amount base is_dividend.
      record {
        conditions = "SIG(alice)";
        consumed = false;
        written_time = 0;
        amount = amount;
        base = base;
      }
      ∷ [];
  get_block_by_blockstamp =
      λ stamp. some (record { number = stamp.number; hash = stamp.hash; median_time = 900 });
  get_block_by_text = λ s. some (record { number = 0; hash = "AB"; median_time = 900 });
  get_tristamp_of = λ n. some (record { number = n; hash = "AB"; median_time = 900 });
  get_current_block = none;
  get_written_idty = λ key. some (record {
    pub_key = key;
    uid = key;
    sig = "s";
    created_on = special_block;
    is_revoked = false;
  });
  get_wotb_id = λ key. done 0;
  get_to_be_kicked_pubkeys = [];
  is_member = λ key. true;
}

-- Every signature is accepted, and no one is far from the others.
abbrev small_world : Outside whole_numbers ℕ
small_world = record {
  growth = pos 1;
  percent_rot = pos 0;
  ud_growth = pos 1;
  margin = pos 1;
  crypto = trusting;
  hash_of_identity = no_hash;
  hash_of_block = λ block. block.hash;
  revocation_signed = λ currency idty s key. true;
  certification_signed = λ currency idty stamp s key. true;
  source_engine = record {
    engine = small_engine;
    verify = λ tx s key. true;
    source_is_unlockable = λ time issuers unlock written conditions. true;
    stamp_text = λ n h. "0-AB";
  };
  wotb = record {
    add_node = λ n. (n, n);
    set_enabled = λ b n w. w;
    set_max_cert = λ n w. w;
    add_link = λ from to w. w;
    is_outdistanced = λ w n d. false;
    d_sen = λ n. 1;
  };
}

abbrev small_node : NodeView ℕ
small_node = record { dal = small_dal; heads = after_root; wot = 0; bsize = 100 }

paying_block_is_accepted :
    Succeeds (check_whole_block small_world small_node paying_block conf false false)
unfolding check_whole_block all_local_but_pow_and_signature check_parameters check_inner_hash
    check_previous_hash check_previous_issuer check_unit_base check_block_times
    check_identities_signature check_identities_user_id_conflict iindex_create iindex local_index
    push_joiners identity_row local_sindex check_identities_pubkey_conflict
    check_identities_match_join mindex_create mindex check_membership_unicity check_revoked_unicity
    check_revoked_are_excluded check_memberships_signature check_pubkey_unicity
    check_certification_one_by_issuer check_certification_unicity cindex certification_row
    check_certification_isnt_for_leaver_or_excluded check_tx_version check_tx_issuers
    check_tx_sources input_row output_row check_tx_recipients check_tx_amounts
    check_tx_amounts_validity check_amounts sum_common_base check_deltas max_base base_sum
    sum_up_to_base ◌-ℤ◌ check_tx_signature check_max_transaction_chaining_depth
    get_max_transaction_depth sindex get_transaction_depth deepen_all map_all complete_head
    complete_from prepare_number new_head unlock eval_param check_block max_acceleration ◌*ℤ◌
    average ◌+ℤ◌ five_times
paying_block_is_accepted = tt

check_whole_block-IsSound_example :
    IsLocallyValid whole_numbers trusting paying_block
    × IsSound small_world small_dal
        (scope_of small_world small_node paying_block conf)
        (rows_of_block small_world paying_block conf)
check_whole_block-IsSound_example =
    check_whole_block-IsSound small_world small_node paying_block conf false false
      paying_block_is_accepted
