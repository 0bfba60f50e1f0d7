-- ===== src/GlobalRules/Check.antt =====
-- `DuniterBlockchain.checkBlock` (app/lib/blockchain/DuniterBlockchain.ts), once the HEAD and the
-- rows are completed: the rules in the order of the source, each with the name that it throws.
use duniter.Base.{
  Bool, true, not, ◌&&◌, ◌||◌, String, Option, none, some, List, [], ◌∷◌, ◌==◌, str_eq, some_of,
  if◌then◌else◌,
}
use duniter.Base.Floats.{Floats}
use duniter.Base.Outcome.{Outcome, done, throw, ◌>>◌, require}
use duniter.Block.{BlockDto}
use duniter.Head.{DbHead, ConfDto}
use duniter.Index.{IndexEntry, iindex, mindex, cindex, sindex}
use duniter.GlobalRules.Context.{
  rule_version, rule_block_size, rule_currency, rule_number, rule_previous_hash,
  rule_previous_issuer, rule_issuer_is_member, rule_issuers_count, rule_issuers_frame,
  rule_issuers_frame_var, rule_median_time, rule_dividend, rule_unit_base, rule_members_count,
  rule_pow_min,
}
use duniter.GlobalRules.ProofOfWork.{rule_proof_of_work}
use duniter.GlobalRules.Rows.{
  rule_identity_writability, rule_membership_writability, rule_membership_period,
  rule_certification_writability, rule_certification_stock, rule_certification_period,
  rule_certification_from_member, rule_certification_to_member_or_newcomer,
  rule_certification_to_leaver, rule_certification_replay, rule_certification_signature,
  rule_identity_uid_unicity, rule_identity_pubkey_unicity, rule_membership_succession,
  rule_membership_distance, rule_membership_on_revoked, rule_membership_joins_twice,
  rule_membership_enough_certs, rule_membership_leaver_is_member, rule_membership_active_is_member,
  rule_membership_revoked_is_member, rule_membership_revoked_singleton,
  rule_membership_revocation_signature, rule_membership_excluded_is_member,
  rule_to_be_kicked_are_present, rule_tx_writability, rule_input_is_available,
  rule_input_is_unlocked, rule_input_is_time_unlocked, rule_output_base,
}

-- A test and the message of the error if it fails.
abbrev pub Rule : Type 0
Rule = String × Bool

-- `if (rule === false) throw Error(name)`, rule after rule.
unfoldable pub run_rules : List Rule → Outcome (Unit {0})
run_rules [] = done tt
run_rules ((name, ok) ∷ rules) = let rest = run_rules rules in require ok name >> rest

-- What `checkBlock` has at hand: the completed HEAD and rows, the previous HEAD, the stored keys to
-- be kicked, and whether the issuer is a stored member.
pub record Checked : Type 0 where
  pub block : BlockDto
  pub index : List IndexEntry
  pub head : DbHead
  pub head_1 : Option DbHead
  pub to_be_kicked : List String
  pub issuer_is_stored_member : Bool

module _ (f : Floats) (margin : f.Number) (conf : ConfDto) where
  -- BR_G49 reads the previous HEAD only after the root.
  unfoldable pub version_rule : Checked → Bool
  version_rule c = elim c.head_1 [ none ↦ true | some h ↦ rule_version c.head h ]

  unfoldable pub context_rules : Checked → Bool → List Rule
  unfolding version_rule rule_version rule_block_size rule_currency rule_number rule_previous_hash
      rule_previous_issuer rule_issuer_is_member rule_issuers_count rule_issuers_frame
      rule_issuers_frame_var rule_median_time rule_dividend rule_unit_base rule_members_count
      rule_pow_min
  context_rules c ignore_issuer =
      ("ruleVersion", version_rule c)
      ∷ ("ruleBlockSize", rule_block_size f margin c.head)
      ∷ ("ruleCurrency", rule_currency c.block c.head)
      ∷ ("ruleNumber", rule_number c.block c.head)
      ∷ ("rulePreviousHash", rule_previous_hash c.block c.head)
      ∷ ("rulePreviousIssuer", rule_previous_issuer c.block c.head)
      ∷ ("ruleIssuerIsMember", ignore_issuer || rule_issuer_is_member c.head)
      ∷ ("ruleIssuersCount", rule_issuers_count c.block c.head)
      ∷ ("ruleIssuersFrame", rule_issuers_frame c.block c.head)
      ∷ ("ruleIssuersFrameVar", rule_issuers_frame_var c.block c.head)
      ∷ ("ruleMedianTime", rule_median_time c.block c.head)
      ∷ ("ruleDividend", rule_dividend c.block c.head)
      ∷ ("ruleUnitBase", rule_unit_base c.block c.head)
      ∷ ("ruleMembersCount", rule_members_count c.block c.head)
      ∷ ("rulePowMin", rule_pow_min c.block c.head)
      ∷ []

  unfoldable pub row_rules : Checked → List Rule
  unfolding rule_identity_writability rule_membership_writability rule_membership_period
      rule_certification_writability rule_certification_stock rule_certification_period
      rule_certification_from_member rule_certification_to_member_or_newcomer
      rule_certification_to_leaver rule_certification_replay rule_certification_signature
      rule_identity_uid_unicity rule_identity_pubkey_unicity rule_membership_succession
      rule_membership_distance rule_membership_on_revoked rule_membership_joins_twice
      rule_membership_enough_certs rule_membership_leaver_is_member rule_membership_active_is_member
      rule_membership_revoked_is_member rule_membership_revoked_singleton
      rule_membership_revocation_signature rule_membership_excluded_is_member
      rule_to_be_kicked_are_present rule_tx_writability rule_input_is_available
      rule_input_is_unlocked rule_input_is_time_unlocked rule_output_base
  row_rules c =
      let is = iindex c.index in
      let ms = mindex c.index in
      let cs = cindex c.index in
      let ss = sindex c.index in
      ("ruleIdentityWritability", rule_identity_writability is conf)
      ∷ ("ruleMembershipWritability", rule_membership_writability ms conf)
      ∷ ("ruleMembershipPeriod", rule_membership_period ms)
      ∷ ("ruleCertificationWritability", rule_certification_writability cs conf)
      ∷ ("ruleCertificationStock", rule_certification_stock cs conf)
      ∷ ("ruleCertificationPeriod", rule_certification_period cs)
      ∷ ("ruleCertificationFromMember", rule_certification_from_member c.head cs)
      ∷ ("ruleCertificationToMemberOrNewcomer", rule_certification_to_member_or_newcomer cs)
      ∷ ("ruleCertificationToLeaver", rule_certification_to_leaver cs)
      ∷ ("ruleCertificationReplay", rule_certification_replay cs)
      ∷ ("ruleCertificationSignature", rule_certification_signature cs)
      ∷ ("ruleIdentityUIDUnicity", rule_identity_uid_unicity is)
      ∷ ("ruleIdentityPubkeyUnicity", rule_identity_pubkey_unicity is)
      ∷ ("ruleMembershipSuccession", rule_membership_succession ms)
      ∷ ("ruleMembershipDistance", rule_membership_distance c.head ms)
      ∷ ("ruleMembershipOnRevoked", rule_membership_on_revoked ms)
      ∷ ("ruleMembershipJoinsTwice", rule_membership_joins_twice ms)
      ∷ ("ruleMembershipEnoughCerts", rule_membership_enough_certs ms)
      ∷ ("ruleMembershipLeaverIsMember", rule_membership_leaver_is_member ms)
      ∷ ("ruleMembershipActiveIsMember", rule_membership_active_is_member ms)
      ∷ ("ruleMembershipRevokedIsMember", rule_membership_revoked_is_member ms)
      ∷ ("ruleMembershipRevokedSingleton", rule_membership_revoked_singleton ms)
      ∷ ("ruleMembershipRevocationSignature", rule_membership_revocation_signature ms)
      ∷ ("ruleMembershipExcludedIsMember", rule_membership_excluded_is_member is)
      ∷ ("ruleToBeKickedArePresent", rule_to_be_kicked_are_present is c.to_be_kicked)
      ∷ ("ruleTxWritability", rule_tx_writability ss)
      ∷ ("ruleInputIsAvailable", rule_input_is_available ss)
      ∷ ("ruleInputIsUnlocked", rule_input_is_unlocked ss)
      ∷ ("ruleInputIsTimeUnlocked", rule_input_is_time_unlocked ss)
      ∷ ("ruleOutputBase", rule_output_base ss c.head_1)
      ∷ []

  -- The last test, on the issuer: at the root it must be one of the joiners.
  unfoldable pub check_issuer : Checked → Bool → Outcome (Unit {0})
  check_issuer c ignore_issuer =
      if not ignore_issuer && not c.issuer_is_stored_member
      then (if c.block.number == 0
          then require (some_of (λ ms. str_eq ms.issuer c.block.issuer) c.block.joiners)
              "Block not signed by the root members"
          else throw "Block must be signed by an existing member")
      else done tt

  -- The block and the rows are as `localIndex`, the local rules and `completeGlobalScope` left them.
  unfoldable pub check_block : Checked → Bool → Bool → Outcome (Unit {0})
  unfolding run_rules context_rules row_rules check_issuer
  check_block c with_pow ignore_issuer =
      run_rules (context_rules c ignore_issuer)
      >> (require (not with_pow || rule_proof_of_work c.head) "ruleProofOfWork"
          >> (run_rules (row_rules c) >> check_issuer c ignore_issuer))
