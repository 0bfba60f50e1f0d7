-- ===== src/Tests/Money.antt =====
-- A block that pays a dividend, spends one and moves a source between wallets, and its revert.
use duniter.Base.{String, ◌≡◌, refl, true, false, none, some, List, [], ◌∷◌}
use duniter.Base.Int.{pos, ◌+ℤ◌, ◌-ℤ◌}
use duniter.Base.Outcome.{done}
use duniter.Block.{Blockstamp}
use duniter.Index.{SindexEntry, Op, create, update}
use duniter.Transactions.{transaction, dividend}
use duniter.Dividends.{DividendEntry, to_ud_source}
use duniter.Dividends.Table.{DividendTable, update_dividend, consume_all, revert_uds}
use duniter.Dividends.Blocks.{IsReady, SameTable, revert_uds-consume_all}
use duniter.Dividends.Paid.{given_back}
use duniter.Wallets.{MoneyDal, save_money, revert_money, update_wallets}
use duniter.Wallets.Balances.{balance_of, credit, debit, update_wallets-credit}
use duniter.Wallets.Restored.{CanSave, ud_rows, revert_money-save_money}
use duniter.Tests.Sample.{transfer}

abbrev member : String → DividendEntry
member key = record {
  pub_key = key;
  member = true;
  availables = 3 ∷ 5 ∷ [];
  dividends = (1000, 0) ∷ (1010, 0) ∷ [];
  consumed = 4 ∷ [];
  consumed_uds =
      record {
        dividend_number = 1;
        dividend = some (990, 0);
        tx_created_on = none;
        tx_locktime = 0;
        tx_hash = none;
      }
      ∷ [];
}

abbrev stamp : Blockstamp
stamp = record { number = 7; hash = "00B7" }

abbrev row : Op → String → SindexEntry
row op conditions = record {
  op = op;
  src_type = transaction;
  tx = some "H";
  identifier = "T1";
  pos = 0;
  created_on = none;
  written_on = stamp;
  written_time = 1000;
  locktime = 0;
  unlock = some "SIG(0)";
  amount = 25;
  base = 0;
  conditions = conditions;
  consumed = false;
  tx_obj = transfer;
  age = pos 60;
  available = true;
  is_locked = false;
  is_time_locked = false;
}

-- Alice spends the dividend of block 5.
abbrev spent_ud : SindexEntry
spent_ud = record (row update "SIG(alice)") {
  src_type = dividend;
  identifier = "alice";
  pos = 5;
  amount = 1010;
}

abbrev moves : List SindexEntry
moves = spent_ud ∷ row update "SIG(bob)" ∷ row create "SIG(carol)" ∷ []

abbrev table : DividendTable
table = member "alice" ∷ member "bob" ∷ []

abbrev money : MoneyDal
money = record {
  dividend_dal = table;
  sindex_dal = [];
  wallet_dal =
      record { conditions = "SIG(alice)"; balance = pos 2010 }
      ∷ record { conditions = "SIG(bob)"; balance = pos 2035 }
      ∷ [];
}

table-IsReady : IsReady 7 (ud_rows moves) table
unfolding to_ud_source
table-IsReady = record {
  distinct = (refl, (refl, tt));
  known = (refl, tt);
  here = (refl, tt);
  before = (
    record {
      wf = record { aligned = refl; paired = refl };
      not_paid = refl;
      not_consumed = refl;
      spendable = (refl, tt, tt);
    },
    (
      record {
        wf = record { aligned = refl; paired = refl };
        not_paid = refl;
        not_consumed = refl;
        spendable = tt;
      },
      tt,
    ),
  );
}

money-CanSave : CanSave stamp moves money
money-CanSave = record {
  ready = table-IsReady;
  new = tt;
  of_block = (refl, (refl, (refl, tt)));
  own = ((refl, refl), tt);
}

revert_uds-consume_all_example :
    (after back : DividendTable) × (consume_all
        (ud_rows moves)
        (update_dividend 7 (some 1020) 0 table).0
      ≡ done after)
    × (revert_uds 7 after [] []
        ≡ done (back, (update_dividend 7 (some 1020) 0 table).1, given_back (ud_rows moves) table))
    × SameTable table back
revert_uds-consume_all_example =
    revert_uds-consume_all 7 (some 1020) 0 (ud_rows moves) table table-IsReady

revert_money-save_money_example :
    (saved back : MoneyDal) × (save_money 7 (some 1020) 0 moves money ≡ done saved)
    × (revert_money stamp saved ≡ done back)
    × SameTable table back.dividend_dal
    × (back.sindex_dal ≡ [])
    × ((c : String) → balance_of c back.wallet_dal ≡ balance_of c money.wallet_dal)
revert_money-save_money_example =
    revert_money-save_money stamp (some 1020) 0 moves money money-CanSave

update_wallets-credit_example :
    (balance_of "SIG(bob)" (update_wallets moves [] false money.wallet_dal)
      ≡ balance_of "SIG(bob)" money.wallet_dal
        +ℤ pos (credit "SIG(bob)" moves [])
        -ℤ pos (debit "SIG(bob)" moves))
    × (balance_of "SIG(bob)" (update_wallets moves [] true money.wallet_dal)
        ≡ balance_of "SIG(bob)" money.wallet_dal
          +ℤ pos (debit "SIG(bob)" moves)
          -ℤ pos (credit "SIG(bob)" moves []))
update_wallets-credit_example = update_wallets-credit moves [] money.wallet_dal "SIG(bob)"
