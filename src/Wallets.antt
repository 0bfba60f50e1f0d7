-- ===== src/Wallets.antt =====
-- `updateWallets` of app/lib/blockchain/DuniterBlockchain.ts over the wallets of
-- app/lib/dal/indexDAL/leveldb/LevelDBWallet.ts, and what a block does to the money that the node
-- stores: as `saveBlockData` writes it and as `revertBlock` takes it back. The traces of balances
-- are left out.
pub mod Balances
pub mod Restored
use duniter.Base.{
  ℕ, ◌+◌, ◌*◌, ◌^◌, Bool, true, false, String, Option, none, some, List, [], ◌∷◌, ◌++◌, map, foldl,
  str_eq, ◌&&◌, not, if◌then◌else◌, filter_by, uniq,
}
use duniter.Base.Int.{ℤ, pos, negsuc, ◌+ℤ◌, ◌-ℤ◌, ◌*ℤ◌}
use duniter.Base.Outcome.{Outcome, done, throw, ◌>>=◌}
use duniter.Block.{Blockstamp, stamp_eq}
use duniter.Transactions.{SourceType}
use duniter.Transactions.Amounts.{Based}
use duniter.Index.{SindexEntry, is_create, is_update}
use duniter.Dividends.{UdEntry}
use duniter.Dividends.Table.{DividendTable, update_dividend, consume_all, revert_uds}

pub record DbWallet : Type 0 where
  pub conditions : String
  pub balance : ℤ

-- The wallets, each under its conditions.
abbrev pub WalletTable : Type 0
WalletTable = List DbWallet

abbrev pub find_wallet : String → WalletTable → Option DbWallet
find_wallet c [] = none
find_wallet c (w ∷ ws) = if str_eq w.conditions c then some w else find_wallet c ws

-- `getWallet` of app/lib/dal/fileDAL.ts.
unfoldable pub get_wallet : String → WalletTable → DbWallet
get_wallet c ws = elim (find_wallet c ws) [
  | none ↦ record { conditions = c; balance = pos 0 }
  | some w ↦ w
]

abbrev pub save_wallet : DbWallet → WalletTable → WalletTable
save_wallet w [] = w ∷ []
save_wallet w (v ∷ vs) = if str_eq v.conditions w.conditions then w ∷ vs else v ∷ save_wallet w vs

-- `reduce((sum, src) => sum + src.amount * Math.pow(10, src.base), 0)`
unfoldable pub sum_amounts : List Based → ℕ
sum_amounts xs = foldl (λ sum src. sum + src.0 * 10 ^ src.1) 0 xs

abbrev pub row_amount : SindexEntry → Based
row_amount e = (e.amount, e.base)

abbrev pub ud_amount : UdEntry → Based
ud_amount d = (d.amount, d.base)

abbrev pub creates_of : String → List SindexEntry → List Based
creates_of c sindex =
    map row_amount (filter_by (λ (e : SindexEntry). str_eq e.conditions c && is_create e.op) sindex)

abbrev pub updates_of : String → List SindexEntry → List Based
updates_of c sindex =
    map row_amount (filter_by (λ (e : SindexEntry). str_eq e.conditions c && is_update e.op) sindex)

abbrev pub uds_of_key : String → List UdEntry → List Based
uds_of_key c dividends =
    map ud_amount (filter_by (λ (d : UdEntry). str_eq d.conditions c) dividends)

-- What the rows change in the balance of a wallet.
unfoldable pub variation_of : String → List SindexEntry → List UdEntry → Bool → ℤ
variation_of c sindex dividends reverse =
    let positives = sum_amounts (creates_of c sindex ++ uds_of_key c dividends) in
    let negatives = sum_amounts (updates_of c sindex) in
    let variation = pos positives -ℤ pos negatives in
    if reverse then variation *ℤ negsuc 0 else variation

unfoldable pub update_wallet :
    List SindexEntry → List UdEntry → Bool → WalletTable → String → WalletTable
update_wallet sindex dividends reverse ws c =
    let wallet = get_wallet c ws in
    save_wallet
      (record wallet { balance = wallet.balance +ℤ variation_of c sindex dividends reverse }) ws

abbrev pub different_conditions : List SindexEntry → List UdEntry → List String
different_conditions sindex dividends = uniq (
    map (λ (e : SindexEntry). e.conditions) sindex ++ map (λ (d : UdEntry). d.conditions) dividends)

unfoldable pub update_wallets : List SindexEntry → List UdEntry → Bool → WalletTable → WalletTable
update_wallets sindex dividends reverse ws =
    foldl (update_wallet sindex dividends reverse) ws (different_conditions sindex dividends)

-- The money that the node stores: the dividends of the members, the rows of the sources that
-- transactions moved, and the wallets.
pub record MoneyDal : Type 0 where
  pub dividend_dal : DividendTable
  pub sindex_dal : List SindexEntry
  pub wallet_dal : WalletTable

abbrev pub is_tx : SindexEntry → Bool
is_tx e = elim e.src_type [ SourceType.transaction ↦ true | SourceType.dividend ↦ false ]

-- `flushIndexes` on the sindex: rows on transactions are stored, rows on dividends consume them.
unfoldable pub flush_sindex : List SindexEntry → MoneyDal → Outcome MoneyDal
flush_sindex sindex dal =
    consume_all (filter_by (λ e. not (is_tx e)) sindex) dal.dividend_dal >>= λ dividends.
    done (record dal {
      dividend_dal = dividends;
      sindex_dal = dal.sindex_dal ++ filter_by is_tx sindex;
    })

-- The steps of `saveBlockData` on the money: `generateIndexes` pays the dividend, `flushIndexes`
-- stores the rows, `updateWallets` moves the balances.
unfoldable pub save_money : ℕ → Option ℕ → ℕ → List SindexEntry → MoneyDal → Outcome MoneyDal
save_money number dividend unitbase sindex dal = do
  let paid = update_dividend number dividend unitbase dal.dividend_dal
  stored ← flush_sindex sindex (record dal { dividend_dal = paid.0 })
  done (record stored { wallet_dal = update_wallets sindex paid.1 false stored.wallet_dal })

abbrev pub is_written_on : Blockstamp → SindexEntry → Bool
is_written_on blockstamp e = stamp_eq e.written_on blockstamp

-- The steps of `revertBlock` on the money.
unfoldable pub revert_money : Blockstamp → MoneyDal → Outcome MoneyDal
revert_money blockstamp dal = do
  let sindex_of_block = filter_by (is_written_on blockstamp) dal.sindex_dal
  uds ← revert_uds blockstamp.number dal.dividend_dal [] []
  let destroyed = update_wallets [] uds.1 true dal.wallet_dal
  let recovered = update_wallets [] uds.2 false destroyed
  done (record {
    dividend_dal = uds.0;
    sindex_dal = filter_by (λ e. not (is_written_on blockstamp e)) dal.sindex_dal;
    wallet_dal = update_wallets sindex_of_block [] true recovered;
  })
