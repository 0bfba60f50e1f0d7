-- ===== src/Transactions.antt =====
-- app/lib/dto/TransactionDTO.ts: a transaction with its inputs and outputs as the objects that
-- `inputsAsObjects` and `outputsAsObjects` give; amounts and bases are exact numbers.
pub mod Amounts
pub mod Conservation
use duniter.Base.{ℕ, ◌+◌, ◌*◌, Bool, true, false, String, List, length, if◌then◌else◌, not, str_eq}

-- "T" or "D": an output of a transaction, or a universal dividend.
pub data SourceType : Type 0 where
  transaction dividend : SourceType

pub record InputDto : Type 0 where
  pub amount : ℕ
  pub base : ℕ
  pub src_type : SourceType
  pub identifier : String
  pub pos : ℕ

pub record OutputDto : Type 0 where
  pub amount : ℕ
  pub base : ℕ
  pub conditions : String

pub record TransactionDto : Type 0 where
  pub version : ℕ
  pub currency : String
  pub locktime : ℕ
  pub blockstamp : String
  pub issuers : List String
  pub inputs : List InputDto
  pub outputs : List OutputDto
  pub unlocks : List String
  pub signatures : List String
  pub comment : String

-- The number of lines of the compact form.
unfoldable pub get_len : TransactionDto → ℕ
get_len tx =
    2
    + length tx.issuers * 2
    + length tx.inputs * 2
    + (if str_eq tx.comment "" then 0 else 1)
    + length tx.outputs
