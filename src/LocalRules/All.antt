-- ===== src/LocalRules/All.antt =====
-- app/lib/rules/index.ts: `ALL_LOCAL` and `ALL_LOCAL_BUT_POW_AND_SIGNATURE`, the local rules in their
-- order, and what a block that passes them satisfies.
use duniter.Base.{
  ℕ, zero, suc, ◌≡◌, Bool, true, String, Option, none, some, List, [], ◌∷◌, ◌++◌, map, arith, All,
  Distinct, get_elem?, ◌⊎◌, inl, inr,
}
use duniter.Base.Floats.{Floats}
use duniter.Base.Outcome.{Outcome, done, ◌>>=◌, ◌>>◌, require, Succeeds, Succeeds->>}
use duniter.Block.{BlockDto, IdentityDto, MembershipDto}
use duniter.Head.{ConfDto}
use duniter.Index.{IndexEntry}
use duniter.Index.Local.{local_index, local_sindex}
use duniter.Index.Sources.{consumed, created, local_sindex-conserves}
use duniter.Transactions.{TransactionDto}
use duniter.LocalRules.Context.{
  check_parameters, check_proof_of_work, check_inner_hash, check_previous_hash,
  check_previous_issuer, check_unit_base, check_block_signature, check_block_times,
}
use duniter.LocalRules.Documents.{
  check_identities_signature, check_identities_user_id_conflict, check_identities_pubkey_conflict,
  check_identities_match_join, check_membership_unicity, check_revoked_unicity,
  check_revoked_are_excluded, check_memberships_signature, check_pubkey_unicity,
  check_certification_one_by_issuer, check_certification_unicity,
  check_certification_isnt_for_leaver_or_excluded,
}
use duniter.LocalRules.Chaining.{check_max_transaction_chaining_depth}
use duniter.LocalRules.Txs.{
  for_each, check_tx_version, check_tx_issuers, check_tx_sources, check_tx_recipients,
  check_tx_amounts, check_tx_signature, check_signatures, all_matching,
}
use duniter.LocalRules.Unicity.{
  changed_keys, check_membership_unicity_iff, check_identities_pubkey_conflict_iff,
  check_pubkey_unicity_iff,
}

-- What the rules take from outside: the growth factor of the difficulty, the hashes, and the
-- verification of each kind of signature.
pub record Crypto (f : Floats) : Type 0 where
  pub growth : f.Number
  pub inner_hash : BlockDto → String
  pub block_signed : BlockDto → Bool
  pub identity_signed : IdentityDto → Bool
  pub membership_in_signed : MembershipDto → Bool
  pub membership_out_signed : MembershipDto → Bool
  pub verify : TransactionDto → String → String → Bool
  pub hash_of_tx : TransactionDto → String

-- `await` after `await`: the first error ends the sequence.
unfoldable pub run_all : List (Outcome (Unit {0})) → Outcome (Unit {0})
run_all [] = done tt
run_all (r ∷ rs) = let rest = run_all rs in r >> rest

run_all-Succeeds : (rs : List (Outcome (Unit {0}))) → Succeeds (run_all rs) → All Succeeds rs
unfolding run_all
run_all-Succeeds [] h = tt
run_all-Succeeds (r ∷ rs) h =
    let (first, rest) = (Succeeds->> r (run_all rs)).0 h in (first, run_all-Succeeds rs rest)

All-append : (xs ys : List (Outcome (Unit {0}))) → All Succeeds (xs ++ ys) → All Succeeds ys
All-append [] ys h = h
All-append (x ∷ xs) ys h = All-append xs ys h.1

later_rules : (xs ys : List (Outcome (Unit {0}))) → Succeeds (run_all (xs ++ ys)) → All Succeeds ys
later_rules xs ys h = All-append xs ys (run_all-Succeeds (xs ++ ys) h)

abbrev SucceedsAt : Option (Outcome (Unit {0})) → Type 0
SucceedsAt none = Unit
SucceedsAt (some r) = Succeeds r

-- The rule at a position of a sequence that passes.
rule_at : (rs : List (Outcome (Unit {0}))) (k : ℕ) → All Succeeds rs → SucceedsAt (get_elem? rs k)
rule_at [] k h = tt
rule_at (r ∷ rs) zero h = h.0
rule_at (r ∷ rs) (suc k) h = rule_at rs k h.1

for_each-Succeeds :
    (body : TransactionDto → Outcome (Unit {0})) (txs : List TransactionDto)
    → Succeeds (for_each body txs)
    → All (λ tx. Succeeds (body tx)) txs
unfolding for_each
for_each-Succeeds body [] h = tt
for_each-Succeeds body (tx ∷ txs) h =
    let (first, rest) = (Succeeds->> (body tx) (for_each body txs)).0 h in
    (first, for_each-Succeeds body txs rest)

module _ (f : Floats) (crypto : Crypto f) where
  -- The rules from `checkInnerHash` to `checkUnitBase`.
  abbrev pub header_rules : BlockDto → List (Outcome (Unit {0}))
  header_rules block =
      check_inner_hash crypto.inner_hash block
      ∷ check_previous_hash block
      ∷ check_previous_issuer block
      ∷ check_unit_base block
      ∷ []

  -- The rules from `checkIdentitiesSignature` on.
  abbrev pub document_rules : BlockDto → ConfDto → List IndexEntry → List (Outcome (Unit {0}))
  document_rules block conf index =
      check_identities_signature crypto.identity_signed block
      ∷ check_identities_user_id_conflict index
      ∷ check_identities_pubkey_conflict index
      ∷ check_identities_match_join index
      ∷ check_membership_unicity index
      ∷ check_revoked_unicity index
      ∷ check_revoked_are_excluded index
      ∷ check_memberships_signature crypto.membership_in_signed crypto.membership_out_signed block
      ∷ check_pubkey_unicity block
      ∷ check_certification_one_by_issuer block index
      ∷ check_certification_unicity index
      ∷ check_certification_isnt_for_leaver_or_excluded index
      ∷ check_tx_version block
      ∷ check_tx_issuers block
      ∷ check_tx_sources crypto.hash_of_tx block
      ∷ check_tx_recipients block
      ∷ check_tx_amounts block
      ∷ check_tx_signature crypto.verify block
      ∷ check_max_transaction_chaining_depth block index
      ∷ []

  unfoldable pub all_local : BlockDto → ConfDto → List IndexEntry → Outcome (Unit {0})
  unfolding run_all
  all_local block conf index = run_all (
      (check_parameters block ∷ check_proof_of_work block ∷ header_rules block)
      ++ (check_block_signature crypto.block_signed block
          ∷ check_block_times f crypto.growth block conf
          ∷ document_rules block conf index))

  unfoldable pub all_local_but_pow_and_signature :
      BlockDto → ConfDto → List IndexEntry → Outcome (Unit {0})
  unfolding run_all
  all_local_but_pow_and_signature block conf index = run_all (
      (check_parameters block ∷ header_rules block)
      ++ (check_block_times f crypto.growth block conf ∷ document_rules block conf index))

  -- Each issuer has a signature that is verified, and there is no other signature.
  abbrev pub IsSignedBy : TransactionDto → List String → List String → Type 0
  IsSignedBy tx [] [] = Unit
  IsSignedBy tx (key ∷ keys) [] = ⊥
  IsSignedBy tx [] (sig ∷ sigs) = ⊥
  IsSignedBy tx (key ∷ keys) (sig ∷ sigs) =
      (crypto.verify tx sig key ≡ true) × IsSignedBy tx keys sigs

  IsSignedBy-all_matching :
      (tx : TransactionDto) (keys sigs : List String) (e : String)
      → Succeeds (all_matching crypto.verify tx keys sigs >>= λ ok. require ok e)
      → IsSignedBy tx keys sigs
  unfolding all_matching
  IsSignedBy-all_matching tx [] [] e h = tt
  IsSignedBy-all_matching tx (key ∷ keys) [] e h = h
  IsSignedBy-all_matching tx [] (sig ∷ sigs) e h = h
  IsSignedBy-all_matching tx (key ∷ keys) (sig ∷ sigs) e h =
      ground (arith, IsSignedBy-all_matching tx keys sigs e)

  signed_of_all :
      (txs : List TransactionDto) (e : String)
      → All (λ tx. Succeeds (check_signatures crypto.verify tx >>= λ ok. require ok e)) txs
      → All (λ tx. IsSignedBy tx tx.issuers tx.signatures) txs
  unfolding check_signatures
  signed_of_all [] e h = tt
  signed_of_all (tx ∷ txs) e h =
      (IsSignedBy-all_matching tx tx.issuers tx.signatures e h.0, signed_of_all txs e h.1)

  -- What is known of a block that passes the local rules.
  pub record IsLocallyValid (block : BlockDto) : Type 0 where
    pub identities_differ : Distinct (map (λ i. i.pubkey) block.identities)
    pub memberships_differ : Distinct (changed_keys block)
    pub keys_differ : Distinct (
        map (λ ms. ms.issuer) block.joiners
        ++ (map (λ ms. ms.issuer) block.actives
            ++ (map (λ ms. ms.issuer) block.leavers ++ block.excluded)))
    pub signed : All (λ tx. IsSignedBy tx tx.issuers tx.signatures) block.transactions
    pub conserves :
        consumed (local_sindex crypto.hash_of_tx block)
        ≡ created (local_sindex crypto.hash_of_tx block)

  module _ (hash_of_identity : IdentityDto → String) (block : BlockDto) (conf : ConfDto) where
    abbrev index : List IndexEntry
    index = local_index hash_of_identity crypto.hash_of_tx block conf

    document_rules-IsLocallyValid :
        All Succeeds (document_rules block conf index) → IsLocallyValid block
    unfolding check_tx_amounts check_tx_signature
    document_rules-IsLocallyValid h =
        let rules = document_rules block conf index in
        record {
          identities_differ =
              (check_identities_pubkey_conflict_iff hash_of_identity crypto.hash_of_tx block conf).0
                (rule_at rules 2 h);
          memberships_differ =
              (check_membership_unicity_iff hash_of_identity crypto.hash_of_tx block conf).0
                (rule_at rules 4 h);
          keys_differ = (check_pubkey_unicity_iff block).0 (rule_at rules 8 h);
          signed =
              signed_of_all block.transactions _
                (for_each-Succeeds _ block.transactions (rule_at rules 17 h));
          conserves =
              local_sindex-conserves crypto.hash_of_tx block
                (for_each-Succeeds _ block.transactions (rule_at rules 16 h));
        }

    -- A block whose own rows pass the local rules, with the proof of work and the signature or
    -- without, has different identities, no public key twice among its membership changes or among
    -- its joiners, actives, leavers and excluded, transactions that are signed by all their issuers,
    -- and sources that consume exactly what they create.
    pub all_local-IsLocallyValid :
        Succeeds (all_local block conf index)
          ⊎ Succeeds (all_local_but_pow_and_signature block conf index)
        → IsLocallyValid block
    unfolding all_local all_local_but_pow_and_signature
    all_local-IsLocallyValid (inl h) =
        document_rules-IsLocallyValid
          (later_rules (check_parameters block ∷ check_proof_of_work block ∷ header_rules block)
            (check_block_signature crypto.block_signed block
              ∷ check_block_times f crypto.growth block conf
              ∷ document_rules block conf index)
            h).1.1
    all_local-IsLocallyValid (inr h) =
        document_rules-IsLocallyValid
          (later_rules (check_parameters block ∷ header_rules block)
            (check_block_times f crypto.growth block conf ∷ document_rules block conf index) h).1
