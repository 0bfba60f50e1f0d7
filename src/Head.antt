-- ===== src/Head.antt =====
-- app/lib/db/DBHead.ts, and the parts of app/lib/dto/ConfDTO.ts that the computation of a HEAD
-- reads. Whole JavaScript numbers that may be negative are ℤ, the others ℕ.
pub mod Issuers
pub mod Difficulty
pub mod Dividend
pub mod Complete
pub mod Frame
pub mod Handicap
pub mod Evaluation
pub mod Money
use duniter.Base.{ℕ, String, Bool, Option}
use duniter.Base.Int.{ℤ}

-- `quantity / elapsed` is kept as its two numbers until it is compared.
pub data Speed : Type 0 where
  fixed : ℕ → Speed
  ratio : ℕ → ℤ → Speed

pub record DbHead : Type 0 where
  pub version : ℕ
  pub currency : Option String
  pub bsize : ℕ
  pub avg_block_size : ℕ
  pub ud_time : ℕ
  pub ud_reeval_time : ℕ
  pub mass_reeval : ℤ
  pub mass : ℤ
  pub hash : String
  pub previous_hash : Option String
  pub previous_issuer : Option String
  pub issuer : String
  pub time : ℕ
  pub median_time : ℕ
  pub number : ℕ
  pub pow_min : ℕ
  pub diff_number : ℕ
  pub issuers_count : ℕ
  pub issuers_frame : ℤ
  pub issuers_frame_var : ℤ
  pub issuer_diff : ℤ
  pub pow_zeros : ℤ
  pub pow_remainder : ℤ
  pub speed : Speed
  pub unit_base : ℕ
  pub members_count : ℤ
  pub dividend : ℤ
  pub new_dividend : Option ℤ
  pub issuer_is_member : Bool

-- The whole-number parameters of the currency.
pub record ConfDto : Type 0 where
  pub currency : String
  pub dt : ℕ
  pub ud0 : ℤ
  pub dt_reeval : ℕ
  pub ud_time0 : ℕ
  pub ud_reeval_time0 : ℕ
  pub dt_diff_eval : ℕ
  pub avg_gen_time : ℕ
  pub median_time_blocks : ℕ
  pub sig_period : ℕ
  pub sig_replay : ℕ
  pub sig_stock : ℕ
  pub sig_window : ℕ
  pub sig_validity : ℕ
  pub sig_qty : ℕ
  pub idty_window : ℕ
  pub ms_window : ℕ
  pub ms_validity : ℕ
  pub ms_period : ℕ
