-- ===== src/Block.antt =====
-- app/lib/dto/BlockDTO.ts with the documents that it carries, each as the object that the
-- `fromInline` of its DTO gives (IdentityDTO, MembershipDTO, RevocationDTO, CertificationDTO).
use duniter.Base.{ℕ, String, Bool, ◌&&◌, Option, List, ◌==◌, str_eq}
use duniter.Base.Int.{ℤ}
use duniter.Transactions.{TransactionDto}

-- `[number, hash].join("-")`
pub record Blockstamp : Type 0 where
  pub number : ℕ
  pub hash : String

-- `==` on the joined texts: a hash holds no dash.
abbrev pub stamp_eq : Blockstamp → Blockstamp → Bool
stamp_eq s t = s.number == t.number && str_eq s.hash t.hash

-- The block before the root: "0-E3B0C44298FC1C149AFBF4C8996FB92427AE41E4649B934CA495991B7852B855".
abbrev pub special_block : Blockstamp
special_block = record {
  number = 0;
  hash = "E3B0C44298FC1C149AFBF4C8996FB92427AE41E4649B934CA495991B7852B855";
}

pub record IdentityDto : Type 0 where
  pub pubkey : String
  pub uid : String
  pub sig : String
  pub buid : Blockstamp

pub record MembershipDto : Type 0 where
  pub issuer : String
  pub signature : String
  pub number : ℕ
  pub fpr : String

pub record RevocationDto : Type 0 where
  pub pubkey : String
  pub revocation : String

-- `issuer` is the DTO's `pubkey`, `receiver` its `to`.
pub record CertificationDto : Type 0 where
  pub issuer : String
  pub receiver : String
  pub block_number : ℕ
  pub sig : String

pub record BlockDto : Type 0 where
  pub version : ℕ
  pub number : ℕ
  pub currency : String
  pub hash : String
  pub inner_hash : String
  pub previous_hash : Option String
  pub previous_issuer : Option String
  pub issuer : String
  pub signature : String
  pub time : ℕ
  pub median_time : ℕ
  pub pow_min : ℕ
  pub unitbase : ℕ
  pub members_count : ℤ
  pub dividend : Option ℤ
  pub issuers_count : ℕ
  pub issuers_frame : ℤ
  pub issuers_frame_var : ℤ
  pub parameters : Option String
  pub identities : List IdentityDto
  pub joiners : List MembershipDto
  pub actives : List MembershipDto
  pub leavers : List MembershipDto
  pub revoked : List RevocationDto
  pub excluded : List String
  pub certifications : List CertificationDto
  pub transactions : List TransactionDto

abbrev pub stamp_of : BlockDto → Blockstamp
stamp_of b = record { number = b.number; hash = b.hash }
