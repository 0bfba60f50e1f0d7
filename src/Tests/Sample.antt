-- ===== src/Tests/Sample.antt =====
-- A transaction, a root block, a configuration and number operations to run the code on.
use duniter.Base.{ℕ, ◌+◌, ◌/◌, true, false, if◌then◌else◌, String, none, some, [], ◌∷◌}
use duniter.Base.Int.{ℤ, pos, negsuc, ◌+ℤ◌, ◌-ℤ◌, ◌*ℤ◌, leb_ℤ, ltb_ℤ}
use duniter.Base.Floats.{Floats}
use duniter.Block.{BlockDto, IdentityDto, MembershipDto, CertificationDto, special_block}
use duniter.Head.{DbHead, ConfDto, fixed}
use duniter.Head.Complete.{HeadView}
use duniter.Transactions.{InputDto, OutputDto, TransactionDto, transaction}

-- Whole numbers in place of floating-point numbers, and 0 for every logarithm.
abbrev pub whole_numbers : Floats
whole_numbers = record {
  Number = ℤ;
  of_int = λ n. n;
  add = λ a b. a +ℤ b;
  sub = λ a b. a -ℤ b;
  mul = λ a b. a *ℤ b;
  div = λ a b. elim a [
    | pos m ↦ elim b [ pos n ↦ pos (m / n) | negsuc n ↦ negsuc (m / (n + 1)) ]
    | negsuc m ↦ negsuc m
  ];
  square = λ a. a *ℤ a;
  log = λ a. pos 0;
  max_of = λ a b. if ltb_ℤ a b then b else a;
  ge = λ a b. leb_ℤ b a;
  ceil = λ a. a;
  floor = λ a. a;
}

abbrev pub input : ℕ → ℕ → String → InputDto
input amount base identifier = record {
  amount = amount;
  base = base;
  src_type = transaction;
  identifier = identifier;
  pos = 0;
}

abbrev pub output : ℕ → ℕ → String → OutputDto
output amount base owner = record { amount = amount; base = base; conditions = owner }

-- 25 units of base 0 and 2 of base 1 become 15 of base 0 and 3 of base 1.
abbrev pub transfer : TransactionDto
transfer = record {
  version = 10;
  currency = "g1";
  locktime = 0;
  blockstamp = "0-AB";
  issuers = "alice" ∷ [];
  inputs = input 25 0 "T1" ∷ input 2 1 "T2" ∷ [];
  outputs = output 15 0 "SIG(bob)" ∷ output 3 1 "SIG(alice)" ∷ [];
  unlocks = "0:SIG(0)" ∷ "1:SIG(0)" ∷ [];
  signatures = "s" ∷ [];
  comment = "";
}

abbrev identity : String → String → IdentityDto
identity key name = record { pubkey = key; uid = name; sig = "s"; buid = special_block }

abbrev membership : String → MembershipDto
membership key = record { issuer = key; signature = "s"; number = 0; fpr = "E3B0" }

abbrev pub certification : String → String → CertificationDto
certification key to = record { issuer = key; receiver = to; block_number = 0; sig = "s" }

-- A block with documents of each kind.
abbrev pub busy_block : BlockDto
busy_block = record {
  version = 10;
  number = 0;
  currency = "g1";
  hash = "00A9";
  inner_hash = "F";
  previous_hash = none;
  previous_issuer = none;
  issuer = "alice";
  signature = "s";
  time = 1000;
  median_time = 1000;
  pow_min = 33;
  unitbase = 0;
  members_count = pos 2;
  dividend = none;
  issuers_count = 0;
  issuers_frame = pos 1;
  issuers_frame_var = pos 0;
  parameters = none;
  identities = identity "alice" "a" ∷ identity "bob" "b" ∷ [];
  joiners = membership "alice" ∷ membership "bob" ∷ [];
  actives = membership "carol" ∷ [];
  leavers = membership "dave" ∷ [];
  revoked = record { pubkey = "erin"; revocation = "r" } ∷ [];
  excluded = "erin" ∷ [];
  certifications = certification "alice" "bob" ∷ certification "bob" "alice" ∷ [];
  transactions = transfer ∷ [];
}

-- The root of the chain: two members found it.
abbrev pub root_block : BlockDto
root_block = record busy_block {
  actives = [];
  leavers = [];
  revoked = [];
  excluded = [];
  transactions = [];
}

abbrev pub conf : ConfDto
conf = record {
  currency = "g1";
  dt = 100;
  ud0 = pos 1000;
  dt_reeval = 200;
  ud_time0 = 1100;
  ud_reeval_time0 = 1200;
  dt_diff_eval = 12;
  avg_gen_time = 300;
  median_time_blocks = 24;
  sig_period = 10;
  sig_replay = 20;
  sig_stock = 100;
  sig_window = 500;
  sig_validity = 1000;
  sig_qty = 1;
  idty_window = 500;
  ms_window = 500;
  ms_validity = 1000;
  ms_period = 100;
}

abbrev pub no_hash : {A : Type 0} → A → String
no_hash x = "H"

-- A HEAD some way after the root, with a frame that still grows.
abbrev pub some_head : DbHead
some_head = record {
  version = 10;
  currency = some "g1";
  bsize = 10;
  avg_block_size = 5;
  ud_time = 1100;
  ud_reeval_time = 1200;
  mass_reeval = pos 2000;
  mass = pos 2000;
  hash = "00B7";
  previous_hash = some "00A9";
  previous_issuer = some "bob";
  issuer = "alice";
  time = 1010;
  median_time = 1000;
  number = 7;
  pow_min = 33;
  diff_number = 8;
  issuers_count = 2;
  issuers_frame = pos 4;
  issuers_frame_var = pos 7;
  issuer_diff = pos 33;
  pow_zeros = pos 2;
  pow_remainder = pos 1;
  speed = fixed 100;
  unit_base = 0;
  members_count = pos 2;
  dividend = pos 1000;
  new_dividend = none;
  issuer_is_member = true;
}

abbrev pub next_head : DbHead
next_head = record some_head { number = 8; median_time = 1050; time = 1060; issuer = "bob" }

-- The view before the root: nothing is stored.
abbrev pub empty_view : HeadView
empty_view = record {
  head_1 = none;
  range = λ n m. [];
  old_head = λ n. some_head;
  stored_member = λ key. false;
  local_member = λ rows key. true;
}
