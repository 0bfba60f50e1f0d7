-- ===== src/Enrichment/Complete.antt =====
-- `completeGlobalScope` of app/lib/indexer.ts as a whole, and `checkBlock` of
-- app/lib/blockchain/DuniterBlockchain.ts from the block on: the local rows, the local rules, the HEAD,
-- the completed rows, the rules on them.
use duniter.Base.{ℕ, Bool, String, List, ◌++◌, map, if◌then◌else◌}
use duniter.Base.Floats.{Floats}
use duniter.Base.Outcome.{Outcome, done, ◌>>=◌, ◌>>◌}
use duniter.Block.{Blockstamp, BlockDto, IdentityDto}
use duniter.Head.{DbHead, ConfDto}
use duniter.Head.Complete.{HeadView, complete_head}
use duniter.Index.{IndexEntry, i_index, m_index, c_index, s_index, iindex, mindex, cindex, sindex}
use duniter.Index.Local.{local_index}
use duniter.GlobalRules.Check.{Checked, check_block}
use duniter.LocalRules.All.{Crypto, all_local, all_local_but_pow_and_signature}
use duniter.Enrichment.{IndexDal, Scope, WrittenIdty}
use duniter.Enrichment.Identities.{complete_iindex}
use duniter.Enrichment.Memberships.{complete_mindex}
use duniter.Enrichment.Distance.{Wotb, one_is_outdistanced}
use duniter.Enrichment.Certifications.{CertifiedIdty, complete_cindex}
use duniter.Enrichment.Sources.{SourceEngine, complete_sindex}

-- What the check takes from outside the repository.
pub record Outside (f : Floats) (W : Type 0) : Type 0 where
  pub growth : f.Number
  pub percent_rot : f.Number
  pub ud_growth : f.Number
  pub margin : f.Number
  pub crypto : Crypto f
  pub hash_of_identity : IdentityDto → String
  pub hash_of_block : BlockDto → String
  pub revocation_signed : String → WrittenIdty → String → String → Bool
  pub certification_signed : String → CertifiedIdty → Blockstamp → String → String → Bool
  pub source_engine : SourceEngine
  pub wotb : Wotb W

-- What the check reads of the node: the store, the HEADs, the web of trust, and the length of the
-- documents of the block.
pub record NodeView (W : Type 0) : Type 0 where
  pub dal : IndexDal
  pub heads : HeadView
  pub wot : W
  pub bsize : ℕ

module _ {f : Floats} {W : Type 0} (x : Outside f W) where
  -- The second part of `completeGlobalScope`. BR_G36 reads what BR_G34 has set in the mindex.
  unfoldable pub complete_index : NodeView W → Scope → List IndexEntry → Outcome (List IndexEntry)
  unfolding complete_iindex complete_mindex complete_cindex complete_sindex one_is_outdistanced
  complete_index v s index = do
    let dal = v.dal
    far ← one_is_outdistanced x.wotb v.wot dal s (iindex index) (mindex index) (cindex index)
    let ms = complete_mindex x.revocation_signed dal s far (cindex index) (mindex index)
    let is = complete_iindex dal s ms (iindex index)
    cs ← complete_cindex x.certification_signed dal s is (cindex index)
    ss ← complete_sindex x.source_engine dal s (sindex index)
    done (map i_index is ++ (map m_index ms ++ (map c_index cs ++ map s_index ss)))

  abbrev pub rows_of_block : BlockDto → ConfDto → List IndexEntry
  rows_of_block block conf = local_index x.hash_of_identity x.crypto.hash_of_tx block conf

  abbrev pub head_of_block : NodeView W → BlockDto → ConfDto → DbHead
  head_of_block v block conf =
      complete_head f x.growth x.percent_rot x.ud_growth conf block (x.hash_of_block block) v.bsize
        v.heads (iindex (rows_of_block block conf))

  abbrev pub scope_of : NodeView W → BlockDto → ConfDto → Scope
  scope_of v block conf = record {
    block = block;
    head = head_of_block v block conf;
    head_1 = v.heads.head_1;
    conf = conf;
  }

  abbrev pub checked_of : NodeView W → BlockDto → ConfDto → List IndexEntry → Checked
  checked_of v block conf completed = record {
    block = block;
    index = completed;
    head = head_of_block v block conf;
    head_1 = v.heads.head_1;
    to_be_kicked = v.dal.get_to_be_kicked_pubkeys;
    issuer_is_stored_member = v.dal.is_member block.issuer;
  }

  unfoldable pub check_whole_block :
      NodeView W → BlockDto → ConfDto → Bool → Bool → Outcome (Unit {0})
  unfolding complete_index
  check_whole_block v block conf with_pow ignore_issuer = do
    let index = rows_of_block block conf
    (if with_pow
        then all_local f x.crypto block conf index
        else all_local_but_pow_and_signature f x.crypto block conf index)
    completed ← complete_index v (scope_of v block conf) index
    check_block f x.margin conf (checked_of v block conf completed) with_pow ignore_issuer
