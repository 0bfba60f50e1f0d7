-- ===== src/Tests/Blocks.antt =====
-- The rows of a block and the rules on them.
use duniter.Base.{◌-◌, ◌≡◌, ◌↔◌, refl, true, false, none, some, [], ◌∷◌, ◌++◌, map, arith, Distinct}
use duniter.Base.Int.{pos, ◌*ℤ◌}
use duniter.Base.Outcome.{Succeeds}
use duniter.Block.{BlockDto}
use duniter.Index.{iindex, mindex, cindex, sindex, s_index, update, SindexEntry}
use duniter.Index.Local.{local_index}
use duniter.Index.Counts.{
  keys_of, created_keys, keys_of-mindex-local_index, created_keys-iindex-local_index,
}
use duniter.GlobalRules.Check.{Checked, check_block}
use duniter.GlobalRules.ProofOfWork.{codes, rule_proof_of_work, BeginsWith, rule_proof_of_work_iff}
use duniter.GlobalRules.Accepted.{IsAccepted, check_block-IsAccepted}
use duniter.LocalRules.Documents.{
  check_membership_unicity, check_identities_pubkey_conflict, check_pubkey_unicity,
}
use duniter.LocalRules.Unicity.{
  changed_keys, check_membership_unicity_iff, check_identities_pubkey_conflict_iff,
  check_pubkey_unicity_iff,
}
use duniter.Transactions.{transaction}
use duniter.Tests.Sample.{whole_numbers, root_block, busy_block, conf, some_head, no_hash, transfer}

keys_of-mindex-local_index_example :
    keys_of (mindex (local_index no_hash no_hash busy_block conf))
    ≡ map (λ ms. ms.issuer) busy_block.joiners
      ++ (map (λ ms. ms.issuer) busy_block.actives
          ++ (map (λ ms. ms.issuer) busy_block.leavers ++ map (λ r. r.pubkey) busy_block.revoked))
keys_of-mindex-local_index_example = keys_of-mindex-local_index no_hash no_hash busy_block conf

created_keys-iindex-local_index_example :
    created_keys (iindex (local_index no_hash no_hash busy_block conf))
    ≡ map (λ i. i.pubkey) busy_block.identities
created_keys-iindex-local_index_example =
    created_keys-iindex-local_index no_hash no_hash busy_block conf

check_membership_unicity_iff_example :
    Succeeds (check_membership_unicity (local_index no_hash no_hash busy_block conf))
    ↔ Distinct (changed_keys busy_block)
check_membership_unicity_iff_example = check_membership_unicity_iff no_hash no_hash busy_block conf

check_identities_pubkey_conflict_iff_example :
    Succeeds (check_identities_pubkey_conflict (local_index no_hash no_hash busy_block conf))
    ↔ Distinct (map (λ i. i.pubkey) busy_block.identities)
check_identities_pubkey_conflict_iff_example =
    check_identities_pubkey_conflict_iff no_hash no_hash busy_block conf

check_pubkey_unicity_iff_example :
    Succeeds (check_pubkey_unicity busy_block)
    ↔ Distinct (
        map (λ ms. ms.issuer) busy_block.joiners
        ++ (map (λ ms. ms.issuer) busy_block.actives
            ++ (map (λ ms. ms.issuer) busy_block.leavers ++ busy_block.excluded)))
check_pubkey_unicity_iff_example = check_pubkey_unicity_iff busy_block

rule_proof_of_work_iff_example :
    (rule_proof_of_work some_head ≡ true) ↔ BeginsWith 2 (15 - 1) (codes "00B7")
rule_proof_of_work_iff_example = rule_proof_of_work_iff some_head 2 1 refl refl (omega arith)

-- Block 7, which spends one available source of base 0.
abbrev spending_block : BlockDto
spending_block = record root_block {
  number = 7;
  hash = "00B7";
  previous_hash = some "00A9";
  previous_issuer = some "bob";
  issuers_count = 2;
  issuers_frame = pos 4;
  issuers_frame_var = pos 7;
  joiners = [];
  identities = [];
  certifications = [];
}

abbrev spent : SindexEntry
spent = record {
  op = update;
  src_type = transaction;
  tx = some "H";
  identifier = "T1";
  pos = 0;
  created_on = none;
  written_on = record { number = 7; hash = "00B7" };
  written_time = 1000;
  locktime = 0;
  unlock = some "SIG(0)";
  amount = 25;
  base = 0;
  conditions = "SIG(alice)";
  consumed = true;
  tx_obj = transfer;
  age = pos 60;
  available = true;
  is_locked = false;
  is_time_locked = false;
}

abbrev accepted : Checked
accepted = record {
  block = spending_block;
  index = s_index spent ∷ [];
  head = some_head;
  head_1 = some some_head;
  to_be_kicked = [];
  issuer_is_stored_member = true;
}

accepted_passes : Succeeds (check_block whole_numbers (pos 1) conf accepted true false)
unfolding check_block ◌*ℤ◌ rule_proof_of_work iindex mindex cindex sindex
accepted_passes = tt

check_block-IsAccepted_example : IsAccepted whole_numbers (pos 1) conf accepted 2 1
check_block-IsAccepted_example =
    check_block-IsAccepted whole_numbers (pos 1) conf accepted 2 1 refl refl (omega arith)
      accepted_passes
