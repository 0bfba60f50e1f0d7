-- ===== src/Enrichment.antt =====
-- app/lib/indexer.ts, the second part of `completeGlobalScope` (BR_G19 to BR_G48, BR_G102, BR_G107):
-- what the rows of a block are told by the store. Each rule goes through the rows of one index and
-- sets fields of each; here a rule is a function of a row, and the rules that follow one another on
-- the same rows are composed.
pub mod Identities
pub mod Memberships
pub mod Distance
pub mod Certifications
pub mod Sources
pub mod Complete
pub mod Facts
pub mod Accepted
use duniter.Base.{
  ℕ, ◌+◌, Bool, true, false, String, Option, none, some, List, [], ◌∷◌, ◌==◌, ◌&&◌, if◌then◌else◌,
}
use duniter.Base.Int.{ℤ, pos, ◌-ℤ◌}
use duniter.Base.Outcome.{Outcome, done, ◌>>=◌}
use duniter.Block.{Blockstamp, stamp_eq, special_block, BlockDto}
use duniter.Head.{DbHead, ConfDto}

-- What the rules read of the stored rows; a field that a row leaves null or undefined is none.
pub record StoredIdty : Type 0 where
  pub member : Option Bool
  pub kick : Option Bool

pub record StoredMs : Type 0 where
  pub created_on : Option Blockstamp
  pub revoked_on : Option Blockstamp
  pub leaving : Option Bool

pub record StoredCert : Type 0 where
  pub issuer : String
  pub expired_on : Option ℕ
  pub replayable_on : Option ℕ

pub record SimpleTxInput : Type 0 where
  pub conditions : String
  pub consumed : Bool
  pub written_time : ℕ
  pub amount : ℕ
  pub base : ℕ

pub record Tristamp : Type 0 where
  pub number : ℕ
  pub hash : String
  pub median_time : ℕ

-- A written identity, as the checks of signatures read it.
pub record WrittenIdty : Type 0 where
  pub pub_key : String
  pub uid : String
  pub sig : String
  pub created_on : Blockstamp
  pub is_revoked : Bool

pub record CurrentBlock : Type 0 where
  pub median_time : ℕ
  pub members_count : ℕ

-- The store, as far as the rules ask it. A lookup of a node may throw. A block is found by its
-- blockstamp, or by the text of one.
pub record IndexDal : Type 0 where
  pub find_by_uid : String → List StoredIdty
  pub find_by_pub : String → List StoredIdty
  pub iindex_reducable : String → List StoredIdty
  pub mindex_reducable : String → List StoredMs
  pub find_by_pub_and_chainable_on_gt : String → ℕ → List StoredMs
  pub find_by_receiver_and_expired_on : String → ℕ → List StoredCert
  pub find_by_issuer_and_chainable_on_gt : String → ℕ → List StoredCert
  pub find_by_issuer_and_receiver : String → String → List StoredCert
  pub get_valid_links_from : String → List StoredCert
  pub find_by_identifier_pos_amount_base : String → ℕ → ℕ → ℕ → Bool → List SimpleTxInput
  pub get_block_by_blockstamp : Blockstamp → Option Tristamp
  pub get_block_by_text : String → Option Tristamp
  pub get_tristamp_of : ℕ → Option Tristamp
  pub get_current_block : Option CurrentBlock
  pub get_written_idty : String → Option WrittenIdty
  pub get_wotb_id : String → Outcome ℕ
  pub get_to_be_kicked_pubkeys : List String
  pub is_member : String → Bool

-- `reduce(rows).field`: the last row that gives it.
abbrev pub last_given {ℓ κ} : {A : Type ℓ} {B : Type κ} → (A → Option B) → List A → Option B
last_given field [] = none
last_given field (r ∷ rs) =
    let later = last_given field rs in elim later [ none ↦ field r | some b ↦ some b ]

-- `!!x`
abbrev pub truthy : Option Bool → Bool
truthy none = false
truthy (some b) = b

abbrev pub is_given {ℓ} : {A : Type ℓ} → Option A → Bool
is_given none = false
is_given (some a) = true

-- `!!reduce(await dal.iindexDAL.reducable(key)).member`
abbrev pub is_stored_member : IndexDal → String → Bool
is_stored_member dal key = truthy (last_given (λ r. r.member) (dal.iindex_reducable key))

-- What a block's rules have at hand once its HEAD is complete. The previous HEAD is read after the
-- root only.
pub record Scope : Type 0 where
  pub block : BlockDto
  pub head : DbHead
  pub head_1 : Option DbHead
  pub conf : ConfDto

abbrev pub time_1 : Scope → ℕ
time_1 s = elim s.head_1 [ none ↦ 0 | some h ↦ h.median_time ]

abbrev pub is_special : Blockstamp → Bool
is_special stamp = stamp_eq stamp special_block

-- The age of a document by the block that it refers to; `late` if that is no block of the chain.
unfoldable pub age_of : IndexDal → Scope → ℕ → Blockstamp → ℤ
age_of dal s late stamp =
    if s.head.number == 0 && is_special stamp
    then pos 0
    else elim (dal.get_block_by_blockstamp stamp) [
      | none ↦ pos late
      | some r ↦
          if stamp_eq (record { number = r.number; hash = r.hash }) stamp
          then pos (time_1 s) -ℤ pos r.median_time
          else pos late
    ]
