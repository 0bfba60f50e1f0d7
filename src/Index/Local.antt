-- ===== src/Index/Local.antt =====
-- app/lib/indexer.ts, `localIndex` and `localSIndex`: the rows that a block writes, from the block
-- alone. `hash_of_identity` and `hash_of_tx` stand for the digests that the DTOs compute.
use duniter.Base.{
  ℕ, ◌+◌, ◌*◌, String, Bool, true, false, Option, none, some, List, [], ◌∷◌, ◌++◌, map, str_eq,
  if◌then◌else◌, some_of, get_elem?,
}
use duniter.Base.Int.{pos}
use duniter.Block.{
  Blockstamp, IdentityDto, MembershipDto, RevocationDto, CertificationDto, BlockDto, stamp_of,
}
use duniter.Head.{ConfDto}
use duniter.Transactions.{SourceType, InputDto, OutputDto, TransactionDto}
use duniter.Index.{
  Op, create, update, MembershipType, join, active, leave, IindexEntry, MindexEntry, CindexEntry,
  SindexEntry, IndexEntry, i_index, m_index, c_index, s_index,
}

-- An IINDEX row of an update: only the membership is said.
abbrev pub iindex_update : BlockDto → String → Bool → Option Bool → IindexEntry
iindex_update block key member kick = record {
  op = update;
  uid = none;
  pub_key = key;
  hash = none;
  sig = none;
  created_on = none;
  written_on = stamp_of block;
  age = pos 0;
  member = some member;
  was_member = none;
  kick = kick;
  wotb_id = none;
  pub_unique = false;
  uid_unique = false;
  excluded_is_member = false;
  is_being_kicked = false;
  has_to_be_excluded = false;
}

unfoldable pub identity_row : (IdentityDto → String) → BlockDto → IdentityDto → IindexEntry
identity_row hash_of_identity block idty = record {
  op = create;
  uid = some idty.uid;
  pub_key = idty.pubkey;
  hash = some (hash_of_identity idty);
  sig = some idty.sig;
  created_on = some idty.buid;
  written_on = stamp_of block;
  age = pos 0;
  member = some true;
  was_member = some true;
  kick = some false;
  wotb_id = none;
  pub_unique = false;
  uid_unique = false;
  excluded_is_member = false;
  is_being_kicked = false;
  has_to_be_excluded = false;
}

-- What the MINDEX rows of one block share; 2 is REVOCATION_FACTOR.
abbrev pub mindex_row :
    BlockDto
    → ConfDto
    → Op
    → String
    → Blockstamp
    → Option MembershipType
    → Option ℕ
    → Option ℕ
    → Option ℕ
    → Option Bool
    → MindexEntry
mindex_row block conf op key created_on type expires_on expired_on revokes_on leaving = record {
  op = op;
  pub_key = key;
  created_on = created_on;
  written_on = stamp_of block;
  ms_type = type;
  expires_on = expires_on;
  expired_on = expired_on;
  revocation = none;
  revokes_on = revokes_on;
  chainable_on = block.median_time + conf.ms_period;
  revoked_on = none;
  leaving = leaving;
  age = pos 0;
  unchainables = 0;
  is_being_revoked = false;
  number_following = false;
  distance_ok = false;
  on_revoked = false;
  joins_twice = false;
  enough_certs = false;
  leaver_is_member = false;
  active_is_member = false;
  revoked_is_member = false;
  already_revoked = false;
  revocation_sig_ok = false;
}

abbrev pub ms_stamp : MembershipDto → Blockstamp
ms_stamp ms = record { number = ms.number; hash = ms.fpr }

-- `row.index == constants.I_INDEX && row.pub == ms.issuer`
abbrev pub is_iindex_of : String → IndexEntry → Bool
is_iindex_of key (i_index e) = str_eq e.pub_key key
is_iindex_of key (m_index e) = false
is_iindex_of key (c_index e) = false
is_iindex_of key (s_index e) = false

abbrev pub newcomer_row : BlockDto → ConfDto → MembershipDto → MindexEntry
newcomer_row block conf ms =
    mindex_row block conf create ms.issuer (ms_stamp ms) (some join) (some conf.ms_validity) none
      (some (conf.ms_validity * 2)) (some false)

abbrev pub join_back_row : BlockDto → ConfDto → MembershipDto → MindexEntry
join_back_row block conf ms =
    mindex_row block conf update ms.issuer (ms_stamp ms) (some join) (some conf.ms_validity)
      (some 0) (some (conf.ms_validity * 2)) none

-- One joiner: a newcomer if the index so far has an identity row for it, else a join back.
unfoldable pub joiner_rows : BlockDto → ConfDto → List IndexEntry → MembershipDto → List IndexEntry
joiner_rows block conf index ms =
    if some_of (is_iindex_of ms.issuer) index
    then m_index (newcomer_row block conf ms) ∷ []
    else m_index (join_back_row block conf ms)
      ∷ i_index (iindex_update block ms.issuer true none)
      ∷ []

-- The loop over the joiners, which reads the rows that it has pushed.
unfoldable pub push_joiners :
    BlockDto → ConfDto → List IndexEntry → List MembershipDto → List IndexEntry
unfolding joiner_rows
push_joiners block conf index [] = index
push_joiners block conf index (ms ∷ mss) =
    push_joiners block conf (index ++ joiner_rows block conf index ms) mss

unfoldable pub active_row : BlockDto → ConfDto → MembershipDto → MindexEntry
active_row block conf ms =
    mindex_row block conf update ms.issuer (ms_stamp ms) (some active) (some conf.ms_validity) none
      (some (conf.ms_validity * 2)) none

unfoldable pub leaver_row : BlockDto → ConfDto → MembershipDto → MindexEntry
leaver_row block conf ms =
    mindex_row block conf update ms.issuer (ms_stamp ms) (some leave) none none none (some true)

unfoldable pub revoked_row : BlockDto → ConfDto → RevocationDto → MindexEntry
revoked_row block conf r =
    let row =
      mindex_row block conf update r.pubkey (stamp_of block) none none none none (some false) in
    record row { revocation = some r.revocation; revoked_on = some (stamp_of block) }

unfoldable pub excluded_row : BlockDto → String → IindexEntry
excluded_row block key = iindex_update block key false (some false)

unfoldable pub certification_row : BlockDto → ConfDto → CertificationDto → CindexEntry
certification_row block conf cert = record {
  op = create;
  issuer = cert.issuer;
  receiver = cert.receiver;
  created_on = cert.block_number;
  written_on = stamp_of block;
  sig = cert.sig;
  chainable_on = block.median_time + conf.sig_period;
  replayable_on = block.median_time + conf.sig_replay;
  expires_on = conf.sig_validity;
  expired_on = 0;
  unchainables = 0;
  age = pos 0;
  stock = conf.sig_stock;
  from_member = false;
  to_member = false;
  to_newcomer = false;
  to_leaver = false;
  is_replay = false;
  is_replayable = false;
  sig_ok = false;
}

module _ (hash_of_tx : TransactionDto → String) (block : BlockDto) where
  unfoldable pub input_row : TransactionDto → ℕ → InputDto → SindexEntry
  input_row tx k i = record {
    op = update;
    src_type = i.src_type;
    tx = some (hash_of_tx tx);
    identifier = i.identifier;
    pos = i.pos;
    created_on = some tx.blockstamp;
    written_on = stamp_of block;
    written_time = block.median_time;
    locktime = tx.locktime;
    unlock = get_elem? tx.unlocks k;
    amount = i.amount;
    base = i.base;
    conditions = "";
    consumed = true;
    tx_obj = tx;
    age = pos 0;
    available = false;
    is_locked = false;
    is_time_locked = false;
  }

  unfoldable pub output_row : TransactionDto → ℕ → OutputDto → SindexEntry
  output_row tx i o = record {
    op = create;
    src_type = SourceType.transaction;
    tx = some (hash_of_tx tx);
    identifier = hash_of_tx tx;
    pos = i;
    created_on = none;
    written_on = stamp_of block;
    written_time = block.median_time;
    locktime = tx.locktime;
    unlock = none;
    amount = o.amount;
    base = o.base;
    conditions = o.conditions;
    consumed = false;
    tx_obj = tx;
    age = pos 0;
    available = false;
    is_locked = false;
    is_time_locked = false;
  }

  unfoldable pub input_rows : TransactionDto → ℕ → List InputDto → List SindexEntry
  input_rows tx k [] = []
  input_rows tx k (i ∷ is) = input_row tx k i ∷ input_rows tx (k + 1) is

  unfoldable pub output_rows : TransactionDto → ℕ → List OutputDto → List SindexEntry
  output_rows tx i [] = []
  output_rows tx i (o ∷ os) = output_row tx i o ∷ output_rows tx (i + 1) os

  -- `tx.currency = block.currency || tx.currency`
  unfoldable pub with_currency : TransactionDto → TransactionDto
  with_currency tx = record tx {
    currency = if str_eq block.currency "" then tx.currency else block.currency;
  }

  unfoldable pub tx_rows : TransactionDto → List SindexEntry
  unfolding input_rows output_rows with_currency
  tx_rows tx =
      input_rows (with_currency tx) 0 tx.inputs ++ output_rows (with_currency tx) 0 tx.outputs

  unfoldable pub local_sindex_from : List TransactionDto → List SindexEntry
  unfolding tx_rows
  local_sindex_from [] = []
  local_sindex_from (tx ∷ txs) = tx_rows tx ++ local_sindex_from txs

  unfoldable pub local_sindex : List SindexEntry
  unfolding local_sindex_from
  local_sindex = local_sindex_from block.transactions

module _ (hash_of_identity : IdentityDto → String) (hash_of_tx : TransactionDto → String) where
  unfoldable pub local_index : BlockDto → ConfDto → List IndexEntry
  local_index block conf =
      push_joiners block conf
        (map (λ i. i_index (identity_row hash_of_identity block i)) block.identities) block.joiners
      ++ (map (λ ms. m_index (active_row block conf ms)) block.actives
          ++ (map (λ ms. m_index (leaver_row block conf ms)) block.leavers
              ++ (map (λ r. m_index (revoked_row block conf r)) block.revoked
                  ++ (map (λ key. i_index (excluded_row block key)) block.excluded
                      ++ (map (λ c. c_index (certification_row block conf c)) block.certifications
                          ++ map s_index (local_sindex hash_of_tx block))))))
