-- ===== src/Index.antt =====
-- app/lib/indexer.ts, the rows of the four indexes. A field that the source leaves undefined until
-- a rule sets it starts as false, which its readers treat alike.
pub mod Local
pub mod Counts
pub mod Sources
use duniter.Base.{ℕ, String, Bool, true, false, Option, none, some, List, [], ◌∷◌, filter_by, map}
use duniter.Base.Int.{ℤ}
use duniter.Block.{Blockstamp}
use duniter.Transactions.{SourceType, TransactionDto}

pub data Op : Type 0 where
  create update : Op

abbrev pub is_create : Op → Bool
is_create create = true
is_create update = false

abbrev pub is_update : Op → Bool
is_update create = false
is_update update = true

pub data MembershipType : Type 0 where
  join active leave : MembershipType

pub record IindexEntry : Type 0 where
  pub op : Op
  pub uid : Option String
  pub pub_key : String
  pub hash : Option String
  pub sig : Option String
  pub created_on : Option Blockstamp
  pub written_on : Blockstamp
  pub age : ℤ
  pub member : Option Bool
  pub was_member : Option Bool
  pub kick : Option Bool
  pub wotb_id : Option ℕ
  pub pub_unique : Bool
  pub uid_unique : Bool
  pub excluded_is_member : Bool
  pub is_being_kicked : Bool
  pub has_to_be_excluded : Bool

pub record MindexEntry : Type 0 where
  pub op : Op
  pub pub_key : String
  pub created_on : Blockstamp
  pub written_on : Blockstamp
  pub ms_type : Option MembershipType
  pub expires_on : Option ℕ
  pub expired_on : Option ℕ
  pub revocation : Option String
  pub revokes_on : Option ℕ
  pub chainable_on : ℕ
  pub revoked_on : Option Blockstamp
  pub leaving : Option Bool
  pub age : ℤ
  pub unchainables : ℕ
  pub is_being_revoked : Bool
  pub number_following : Bool
  pub distance_ok : Bool
  pub on_revoked : Bool
  pub joins_twice : Bool
  pub enough_certs : Bool
  pub leaver_is_member : Bool
  pub active_is_member : Bool
  pub revoked_is_member : Bool
  pub already_revoked : Bool
  pub revocation_sig_ok : Bool

pub record CindexEntry : Type 0 where
  pub op : Op
  pub issuer : String
  pub receiver : String
  pub created_on : ℕ
  pub written_on : Blockstamp
  pub sig : String
  pub chainable_on : ℕ
  pub replayable_on : ℕ
  pub expires_on : ℕ
  pub expired_on : ℕ
  pub unchainables : ℕ
  pub age : ℤ
  pub stock : ℕ
  pub from_member : Bool
  pub to_member : Bool
  pub to_newcomer : Bool
  pub to_leaver : Bool
  pub is_replay : Bool
  pub is_replayable : Bool
  pub sig_ok : Bool

pub record SindexEntry : Type 0 where
  pub op : Op
  pub src_type : SourceType
  pub tx : Option String
  pub identifier : String
  pub pos : ℕ
  pub created_on : Option String
  pub written_on : Blockstamp
  pub written_time : ℕ
  pub locktime : ℕ
  pub unlock : Option String
  pub amount : ℕ
  pub base : ℕ
  pub conditions : String
  pub consumed : Bool
  pub tx_obj : TransactionDto
  pub age : ℤ
  pub available : Bool
  pub is_locked : Bool
  pub is_time_locked : Bool

-- A row, with the index that it belongs to.
pub data IndexEntry : Type 0 where
  i_index : IindexEntry → IndexEntry
  m_index : MindexEntry → IndexEntry
  c_index : CindexEntry → IndexEntry
  s_index : SindexEntry → IndexEntry

unfoldable pub iindex : List IndexEntry → List IindexEntry
iindex [] = []
iindex (i_index e ∷ rows) = e ∷ iindex rows
iindex (m_index e ∷ rows) = iindex rows
iindex (c_index e ∷ rows) = iindex rows
iindex (s_index e ∷ rows) = iindex rows

unfoldable pub mindex : List IndexEntry → List MindexEntry
mindex [] = []
mindex (i_index e ∷ rows) = mindex rows
mindex (m_index e ∷ rows) = e ∷ mindex rows
mindex (c_index e ∷ rows) = mindex rows
mindex (s_index e ∷ rows) = mindex rows

unfoldable pub cindex : List IndexEntry → List CindexEntry
cindex [] = []
cindex (i_index e ∷ rows) = cindex rows
cindex (m_index e ∷ rows) = cindex rows
cindex (c_index e ∷ rows) = e ∷ cindex rows
cindex (s_index e ∷ rows) = cindex rows

unfoldable pub sindex : List IndexEntry → List SindexEntry
sindex [] = []
sindex (i_index e ∷ rows) = sindex rows
sindex (m_index e ∷ rows) = sindex rows
sindex (c_index e ∷ rows) = sindex rows
sindex (s_index e ∷ rows) = e ∷ sindex rows

unfoldable pub iindex_create : List IndexEntry → List IindexEntry
iindex_create rows = filter_by (λ e. is_create e.op) (iindex rows)

unfoldable pub mindex_create : List IndexEntry → List MindexEntry
mindex_create rows = filter_by (λ e. is_create e.op) (mindex rows)
