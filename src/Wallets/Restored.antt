-- ===== src/Wallets/Restored.antt =====
-- About `revertBlock` after `saveBlockData`: the money that the node stores, before and after.
use mathlib.Core.List.{append-nil}
use duniter.Base.{
  ℕ, ◌+◌, ◌*◌, ◌^◌, ◌≡◌, refl, ap, sym, ◌∙◌, Bool, true, false, not, String, Option, List, [], ◌∷◌,
  ◌++◌, map, str_eq, str_eq_iff, arith, if◌then◌else◌, filter_by, includes, Distinct, Bool-cases,
  inl, inr, All, All-filter_by, filter_by-append,
}
use duniter.Base.Int.{int_laws, eq_of_parts}
use duniter.Base.Outcome.{done}
use duniter.Block.{Blockstamp}
use duniter.Transactions.Amounts.{Based}
use duniter.Transactions.Conservation.{total}
use duniter.Index.{Op, SindexEntry, is_create, is_update}
use duniter.Dividends.{UdEntry, sig_condition}
use duniter.Dividends.Table.{DividendTable, update_dividend}
use duniter.Dividends.Unconsumed.{ud_back}
use duniter.Dividends.Blocks.{IsReady, SameTable, revert_uds-consume_all}
use duniter.Dividends.Paid.{keys, rows_of, given_back}
use duniter.Wallets.{
  WalletTable, MoneyDal, is_tx, is_written_on, save_money, revert_money, flush_sindex,
  update_wallets, creates_of, uds_of_key,
}
use duniter.Wallets.Balances.{balance_of, debit, update_wallets-credit}

-- The rows of a block that spend dividends.
abbrev pub ud_rows : List SindexEntry → List SindexEntry
ud_rows sindex = filter_by (λ e. not (is_tx e)) sindex

-- A row that spends a dividend is an update under the conditions of its member.
abbrev pub SpendsOwn : SindexEntry → Type 0
SpendsOwn row = (is_update row.op ≡ true) × (row.conditions ≡ sig_condition row.identifier)

total-append : (xs ys : List Based) → total (xs ++ ys) ≡ total xs + total ys
total-append [] ys = omega arith
total-append ((a, b) ∷ xs) ys = omega (arith, total-append xs ys)

uds_of_key-append :
    (c : String) (xs ys : List UdEntry)
    → total (uds_of_key c (xs ++ ys)) ≡ total (uds_of_key c xs) + total (uds_of_key c ys)
uds_of_key-append c [] ys = omega arith
uds_of_key-append c (x ∷ xs) ys = ground (arith, uds_of_key-append c xs ys)

-- The value of a row under the conditions.
abbrev own_value : String → SindexEntry → ℕ
own_value c row = if str_eq row.conditions c then row.amount * 10 ^ row.base else 0

own_ud :
    (c key : String) (row : SindexEntry) (uds : List UdEntry)
    → row.conditions ≡ sig_condition key
    → total (uds_of_key c (ud_back key row ∷ uds)) ≡ own_value c row + total (uds_of_key c uds)
own_ud c key row uds h = ground (arith, h)

given_back-cons :
    (c : String) (row : SindexEntry) (rows : List SindexEntry) (t : DividendTable)
    → SpendsOwn row
    → Distinct (keys t)
    → total (uds_of_key c (given_back (row ∷ rows) t))
      ≡ (if includes row.identifier (keys t) then own_value c row else 0)
        + total (uds_of_key c (given_back rows t))
given_back-cons c row rows [] h d = refl
given_back-cons c row rows (m ∷ t) h d =
    let rest = given_back-cons c row rows t h d.1 in
    let old = uds_of_key-append c (map (ud_back m.pub_key) (rows_of m rows)) (given_back rows t) in
    elim (Bool-cases (str_eq row.identifier m.pub_key)) [
      | inl e ↦
          let same : row.identifier ≡ m.pub_key = (str_eq_iff row.identifier m.pub_key).0 e in
          let out : includes row.identifier (keys t) ≡ false = rw same d.0 in
          let turned : str_eq m.pub_key row.identifier ≡ true =
            (str_eq_iff m.pub_key row.identifier).1 (sym same) in
          let cond : row.conditions ≡ sig_condition m.pub_key = h.1 ∙ ap sig_condition same in
          let new =
            uds_of_key-append c (ud_back m.pub_key row ∷ map (ud_back m.pub_key) (rows_of m rows))
              (given_back (row ∷ rows) t) in
          let own = own_ud c m.pub_key row (map (ud_back m.pub_key) (rows_of m rows)) cond in
          let rest' = rw out at rest in rw (e, turned) (omega (arith, old, new, rest', own))
      | inr e ↦
          let turned : str_eq m.pub_key row.identifier ≡ false =
            ground (
              arith,
              e,
              str_eq_iff row.identifier m.pub_key,
              str_eq_iff m.pub_key row.identifier,
            ) in
          let new =
            uds_of_key-append c (map (ud_back m.pub_key) (rows_of m rows))
              (given_back (row ∷ rows) t) in
          rw (e, turned) (omega (arith, old, new, rest))
    ]

given_back-nil : (t : DividendTable) → given_back [] t ≡ []
given_back-nil [] = refl
given_back-nil (m ∷ t) = given_back-nil t

given_back-total :
    (c : String) (rows : List SindexEntry) (t : DividendTable)
    → Distinct (keys t)
    → All SpendsOwn rows
    → All (λ (row : SindexEntry). includes row.identifier (keys t) ≡ true) rows
    → total (uds_of_key c (given_back rows t)) ≡ debit c rows
given_back-total c [] t d h k = rw (given_back-nil t) refl
given_back-total c (row ∷ rows) t d h k =
    let step = given_back-cons c row rows t h.0 d in
    let rest = given_back-total c rows t d h.1 k.1 in ground (arith, step, rest, k.0, (h.0).0)

-- The rows on dividends and the others.
debit-split :
    (c : String) (sindex : List SindexEntry)
    → debit c sindex ≡ debit c (filter_by is_tx sindex) + debit c (ud_rows sindex)
debit-split c [] = refl
debit-split c (e ∷ sindex) = ground (arith, debit-split c sindex)

op_apart : (op : Op) → is_update op ≡ true → is_create op ≡ false
op_apart Op.create h = absurd (cc)
op_apart Op.update h = refl

credit-split :
    (c : String) (sindex : List SindexEntry)
    → All SpendsOwn (ud_rows sindex)
    → total (creates_of c sindex) ≡ total (creates_of c (filter_by is_tx sindex))
credit-split c [] h = refl
credit-split c (e ∷ sindex) h =
    elim (is_tx e)
        as (λ b.
          All SpendsOwn (if not b then e ∷ ud_rows sindex else ud_rows sindex)
          → total (creates_of c (e ∷ sindex))
            ≡ total
                (creates_of c (if b then e ∷ filter_by is_tx sindex else filter_by is_tx sindex))) [
                  | true ↦ λ k. ground (arith, credit-split c sindex k)
                  | false ↦ λ k. ground (arith, op_apart e.op k.0.0, credit-split c sindex k.1)
                ]
      h

-- The balances once the wallets moved for a block and moved back.
balances_return :
    (c : String) (sindex : List SindexEntry) (created recovered : List UdEntry) (ws : WalletTable)
    → All SpendsOwn (ud_rows sindex)
    → total (uds_of_key c recovered) ≡ debit c (ud_rows sindex)
    → balance_of c (
        update_wallets (filter_by is_tx sindex) [] true (
          update_wallets [] recovered false
            (update_wallets [] created true (update_wallets sindex created false ws))))
      ≡ balance_of c ws
balances_return c sindex created recovered ws own total_back =
    let w₁ = update_wallets sindex created false ws in
    let w₂ = update_wallets [] created true w₁ in
    let w₃ = update_wallets [] recovered false w₂ in
    let b₁ = (update_wallets-credit sindex created ws c).0 in
    let b₂ = (update_wallets-credit [] created w₁ c).1 in
    let b₃ = (update_wallets-credit [] recovered w₂ c).0 in
    let b₄ = (update_wallets-credit (filter_by is_tx sindex) [] w₃ c).1 in
    rw (b₄, b₃, b₂, b₁)
      (eq_of_parts _ _
        (omega (int_laws, debit-split c sindex, credit-split c sindex own, total_back)))

keep_all :
    (p : SindexEntry → Bool) (xs : List SindexEntry)
    → All (λ (x : SindexEntry). p x ≡ true) xs
    → filter_by p xs ≡ xs
keep_all p [] h = refl
keep_all p (x ∷ xs) h = rw (h.0) (ap (λ ys. x ∷ ys) (keep_all p xs h.1))

keep_none :
    (p : SindexEntry → Bool) (xs : List SindexEntry)
    → All (λ (x : SindexEntry). p x ≡ false) xs
    → filter_by p xs ≡ []
keep_none p [] h = refl
keep_none p (x ∷ xs) h = rw (h.0) (keep_none p xs h.1)

not_written :
    (b : Blockstamp) (xs : List SindexEntry)
    → All (λ (x : SindexEntry). is_written_on b x ≡ false) xs
    → filter_by (λ x. not (is_written_on b x)) xs ≡ xs
not_written b [] h = refl
not_written b (x ∷ xs) h = rw (h.0) (ap (λ ys. x ∷ ys) (not_written b xs h.1))

all_written :
    (b : Blockstamp) (xs : List SindexEntry)
    → All (λ (x : SindexEntry). is_written_on b x ≡ true) xs
    → filter_by (λ x. not (is_written_on b x)) xs ≡ []
all_written b [] h = refl
all_written b (x ∷ xs) h = rw (h.0) (all_written b xs h.1)

-- The rows of a block are found again behind those that were there.
split_stored :
    (b : Blockstamp) (old rows : List SindexEntry)
    → All (λ (x : SindexEntry). is_written_on b x ≡ false) old
    → All (λ (x : SindexEntry). is_written_on b x ≡ true) rows
    → (filter_by (is_written_on b) (old ++ rows) ≡ rows)
      × (filter_by (λ x. not (is_written_on b x)) (old ++ rows) ≡ old)
split_stored b old rows h k = (
  filter_by-append (is_written_on b) old rows
      ∙ rw (keep_none (is_written_on b) old h) (keep_all (is_written_on b) rows k),
  filter_by-append (λ x. not (is_written_on b x)) old rows
      ∙ rw (not_written b old h, all_written b rows k) (append-nil old),
)

-- What the node must hold for a block with these rows: nothing of the block yet, a table of dividends
-- that is ready for the rows that spend dividends, and rows of the block only, of which those on
-- dividends are updates under the conditions of the member who has them.
pub record CanSave (blockstamp : Blockstamp) (sindex : List SindexEntry) (dal : MoneyDal)
    : Type 0 where
  pub ready : IsReady blockstamp.number (ud_rows sindex) dal.dividend_dal
  pub new : All (λ (e : SindexEntry). is_written_on blockstamp e ≡ false) dal.sindex_dal
  pub of_block : All (λ (e : SindexEntry). is_written_on blockstamp e ≡ true) sindex
  pub own : All SpendsOwn (ud_rows sindex)

-- Where the node can save a block: saving what it does to the money succeeds, reverting the block
-- then succeeds too, and afterwards every member has the dividends of before, in some order, and
-- the same history, the stored rows are those of before, and so is the balance of every wallet.
pub revert_money-save_money :
    (blockstamp : Blockstamp) (dividend : Option ℕ) (unitbase : ℕ) (sindex : List SindexEntry)
    (dal : MoneyDal)
    → CanSave blockstamp sindex dal
    → (saved back : MoneyDal) × (save_money blockstamp.number dividend unitbase sindex dal
        ≡ done saved)
      × (revert_money blockstamp saved ≡ done back)
      × SameTable dal.dividend_dal back.dividend_dal
      × (back.sindex_dal ≡ dal.sindex_dal)
      × ((c : String) → balance_of c back.wallet_dal ≡ balance_of c dal.wallet_dal)
unfolding save_money revert_money flush_sindex
revert_money-save_money stamp dividend unitbase sindex dal ok =
    let n = stamp.number in
    let paid = update_dividend n dividend unitbase dal.dividend_dal in
    let rows = ud_rows sindex in
    let txs = filter_by is_tx sindex in
    let r = revert_uds-consume_all n dividend unitbase rows dal.dividend_dal ok.ready in
    let recovered = given_back rows dal.dividend_dal in
    let saved : MoneyDal = record {
      dividend_dal = r.0;
      sindex_dal = dal.sindex_dal ++ txs;
      wallet_dal = update_wallets sindex paid.1 false dal.wallet_dal;
    } in
    let back : MoneyDal = record {
      dividend_dal = r.1;
      sindex_dal = dal.sindex_dal;
      wallet_dal =
          update_wallets txs [] true
            (update_wallets [] recovered false (update_wallets [] paid.1 true saved.wallet_dal));
    } in
    let parts = split_stored stamp dal.sindex_dal txs ok.new (
      All-filter_by (λ (e : SindexEntry). is_written_on stamp e ≡ true) is_tx sindex ok.of_block) in
    (
      saved,
      back,
      rw r.2 refl,
      rw (revert_money, r.3, parts.0, parts.1) refl,
      r.4,
      refl,
      λ c.
          balances_return c sindex paid.1 recovered dal.wallet_dal ok.own
            (given_back-total c rows dal.dividend_dal ok.ready.distinct ok.own ok.ready.known),
    )
