-- ===== src/Dividends.antt =====
-- app/lib/dal/indexDAL/common/DividendDaoHandler.ts: the dividends of a member, as parallel arrays.
-- `indexOf` is none where the source answers -1, and an array read there is undefined.
pub mod Table
pub mod Spent
pub mod Unconsumed
pub mod Reverted
pub mod Paid
pub mod Blocks
use Prim.Native.String.{◌++◌ as text_append}
use duniter.Base.{
  ℕ, zero, suc, Bool, true, false, String, Option, none, some, List, [], ◌∷◌, ◌++◌, map, ltb, ◌==◌,
  if◌then◌else◌, get_elem?, length, some_of,
}
use duniter.Base.Outcome.{Outcome, done, throw, ◌>>=◌}
use duniter.Transactions.{SourceType}
use duniter.Transactions.Amounts.{Based}
use duniter.Index.{Op, SindexEntry}

-- SimpleUdEntryForWallet: a created dividend.
pub record UdEntry : Type 0 where
  pub src_type : SourceType
  pub op : Op
  pub conditions : String
  pub amount : ℕ
  pub base : ℕ
  pub identifier : String
  pub pos : ℕ

-- `dividend` is none where the source stores an undefined one.
pub record ConsumedUd : Type 0 where
  pub dividend_number : ℕ
  pub dividend : Option Based
  pub tx_created_on : Option String
  pub tx_locktime : ℕ
  pub tx_hash : Option String

pub record DividendEntry : Type 0 where
  pub pub_key : String
  pub member : Bool
  pub availables : List ℕ
  pub dividends : List Based
  pub consumed : List ℕ
  pub consumed_uds : List ConsumedUd

abbrev pub get_new_dividend_entry : String → DividendEntry
get_new_dividend_entry key = record {
  pub_key = key;
  member = true;
  availables = [];
  dividends = [];
  consumed = [];
  consumed_uds = [];
}

abbrev pub sig_condition : String → String
sig_condition key = text_append (text_append "SIG(" key) ")"

-- `indexOf` on numbers.
abbrev pub index_of : ℕ → List ℕ → Option ℕ
index_of n [] = none
index_of n (m ∷ ms) =
    let later = index_of n ms in
    if m == n then some 0 else elim later [ none ↦ none | some i ↦ some (suc i) ]

-- `splice(i, 1)`; at -1 it removes the last element.
abbrev pub remove_at {ℓ} : {A : Type ℓ} → ℕ → List A → List A
remove_at i [] = []
remove_at zero (x ∷ xs) = xs
remove_at (suc i) (x ∷ xs) = x ∷ remove_at i xs

abbrev pub remove_last {ℓ} : {A : Type ℓ} → List A → List A
remove_last [] = []
remove_last (x ∷ []) = []
remove_last (x ∷ y ∷ xs) = x ∷ remove_last (y ∷ xs)

abbrev pub splice_one {ℓ} : {A : Type ℓ} → Option ℕ → List A → List A
splice_one none xs = remove_last xs
splice_one (some i) xs = remove_at i xs

abbrev pub element_at {ℓ} : {A : Type ℓ} → List A → Option ℕ → Option A
element_at xs none = none
element_at xs (some i) = get_elem? xs i

abbrev pub created_ud : String → ℕ → Based → UdEntry
created_ud key n ud = record {
  src_type = SourceType.dividend;
  op = Op.create;
  conditions = sig_condition key;
  amount = ud.0;
  base = ud.1;
  identifier = key;
  pos = n;
}

unfoldable pub produce_dividend :
    DividendEntry → ℕ → ℕ → ℕ → List UdEntry → DividendEntry × List UdEntry
produce_dividend r block_number dividend unitbase dividends = (
  record r {
    availables = r.availables ++ block_number ∷ [];
    dividends = r.dividends ++ (dividend, unitbase) ∷ [];
  },
  dividends ++ created_ud r.pub_key block_number (dividend, unitbase) ∷ [],
)

unfoldable pub consume : DividendEntry → SindexEntry → DividendEntry
consume m row =
    let index = index_of row.pos m.availables in
    record m {
      consumed = m.consumed ++ row.written_on.number ∷ [];
      consumed_uds =
          m.consumed_uds
          ++ record {
            dividend_number = row.pos;
            dividend = element_at m.dividends index;
            tx_created_on = row.created_on;
            tx_locktime = row.locktime;
            tx_hash = row.tx;
          }
            ∷ [];
      availables = splice_one index m.availables;
      dividends = splice_one index m.dividends;
    }

unfoldable pub to_ud_source : DividendEntry → ℕ → Option Based
to_ud_source entry pos = element_at entry.dividends (index_of pos entry.availables)

-- The source of `src.amount` where `src` may be undefined.
abbrev pub defined {ℓ} : {A : Type ℓ} → Option A → Outcome A
defined none = throw "TypeError"
defined (some a) = done a

unfoldable pub remove_dividends_produced :
    DividendEntry → ℕ → List UdEntry → Outcome (DividendEntry × List UdEntry)
remove_dividends_produced m number destroyed =
    let index = index_of number m.availables in
    defined (element_at m.dividends index) >>= λ src. done (
      record m {
        availables = splice_one index m.availables;
        dividends = splice_one index m.dividends;
      },
      destroyed ++ created_ud m.pub_key number src ∷ [],
    )

-- One round of the loop, at the index found.
unfoldable pub unconsume_one :
    DividendEntry → ℕ → List UdEntry → Outcome (DividendEntry × List UdEntry)
unconsume_one m index recovered = do
  ud ← defined (get_elem? m.consumed_uds index)
  src ← defined ud.dividend
  done (
    record m {
      availables = m.availables ++ ud.dividend_number ∷ [];
      dividends = m.dividends ++ src ∷ [];
      consumed = remove_at index m.consumed;
      consumed_uds = remove_at index m.consumed_uds;
    },
    recovered ++ created_ud m.pub_key ud.dividend_number src ∷ [],
  )

unfoldable pub unconsume_loop :
    ℕ → DividendEntry → ℕ → List UdEntry → Outcome (DividendEntry × List UdEntry)
unconsume_loop zero m number recovered = done (m, recovered)
unconsume_loop (suc rounds) m number recovered = elim (index_of number m.consumed) [
  | none ↦ done (m, recovered)
  | some index ↦ unconsume_one m index recovered >>= λ r. unconsume_loop rounds r.0 number r.1
]

-- Each round removes a consumption: one more round than there are suffices.
unfoldable pub unconsume_dividends :
    DividendEntry → ℕ → List UdEntry → Outcome (DividendEntry × List UdEntry)
unconsume_dividends m number recovered = unconsume_loop (suc (length m.consumed)) m number recovered

-- The loop of `trimConsumed`, which keeps the two arrays in step.
abbrev pub keep_from {ℓ} : {A : Type ℓ} → ℕ → List ℕ → List A → List A
keep_from below [] xs = xs
keep_from below (n ∷ ns) [] = []
keep_from below (n ∷ ns) (x ∷ xs) =
    let rest = keep_from below ns xs in if ltb n below then rest else x ∷ rest

unfoldable pub trim_consumed : DividendEntry → ℕ → DividendEntry × Bool
trim_consumed m below_number = (
  record m {
    consumed = keep_from below_number m.consumed m.consumed;
    consumed_uds = keep_from below_number m.consumed m.consumed_uds;
  },
  some_of (λ n. ltb n below_number) m.consumed,
)
