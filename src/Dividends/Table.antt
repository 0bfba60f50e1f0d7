-- ===== src/Dividends/Table.antt =====
-- app/lib/dal/indexDAL/leveldb/LevelDBDividend.ts: the table of the members' dividends, listed in
-- the order in which it is read; the index kept for trimming is left out, as no read depends on it.
use duniter.Base.{
  ℕ, Bool, true, false, String, Option, none, some, List, [], ◌∷◌, str_eq, ◌==◌, if◌then◌else◌,
}
use duniter.Base.Outcome.{Outcome, done, throw, ◌>>=◌}
use duniter.Index.{SindexEntry}
use duniter.Dividends.{
  DividendEntry, UdEntry, get_new_dividend_entry, produce_dividend, consume, index_of,
  remove_dividends_produced, unconsume_dividends,
}

abbrev pub DividendTable : Type 0
DividendTable = List DividendEntry

abbrev pub get_or_null : String → DividendTable → Option DividendEntry
get_or_null key [] = none
get_or_null key (m ∷ ms) = if str_eq m.pub_key key then some m else get_or_null key ms

-- `get`, which rejects a key that is not there.
unfoldable pub get : String → DividendTable → Outcome DividendEntry
get key t = elim (get_or_null key t) [ none ↦ throw "NotFoundError" | some m ↦ done m ]

abbrev pub put : DividendEntry → DividendTable → DividendTable
put e [] = e ∷ []
put e (m ∷ ms) = if str_eq m.pub_key e.pub_key then e ∷ ms else m ∷ put e ms

unfoldable pub set_member : Bool → String → DividendTable → Outcome DividendTable
set_member member key t = get key t >>= λ e. done (put (record e { member = member }) t)

unfoldable pub create_member : String → DividendTable → Outcome DividendTable
create_member key t = elim (get_or_null key t) [
  | none ↦ done (put (get_new_dividend_entry key) t)
  | some m ↦ set_member true key t
]

abbrev pub delete_member : String → DividendTable → DividendTable
delete_member key [] = []
delete_member key (m ∷ ms) = if str_eq m.pub_key key then ms else m ∷ delete_member key ms

unfoldable pub consume_all : List SindexEntry → DividendTable → Outcome DividendTable
consume_all [] t = done t
consume_all (row ∷ rows) t = get row.identifier t >>= λ m. consume_all rows (put (consume m row) t)

unfoldable pub produce_all : ℕ → ℕ → ℕ → List UdEntry → DividendTable → DividendTable × List UdEntry
produce_all block_number dividend unitbase out [] = ([], out)
produce_all block_number dividend unitbase out (m ∷ ms) =
    let made =
      if m.member then produce_dividend m block_number dividend unitbase out else (m, out) in
    let rest = produce_all block_number dividend unitbase made.1 ms in (made.0 ∷ rest.0, rest.1)

-- `updateDividend` of app/lib/dal/fileDAL.ts: no dividend, or one of 0, is not paid.
unfoldable pub update_dividend : ℕ → Option ℕ → ℕ → DividendTable → DividendTable × List UdEntry
update_dividend block_number none unitbase t = (t, [])
update_dividend block_number (some dividend) unitbase t =
    if dividend == 0 then (t, []) else produce_all block_number dividend unitbase [] t

abbrev pub is_in : ℕ → List ℕ → Bool
is_in n ns = elim (index_of n ns) [ none ↦ false | some i ↦ true ]

-- What a revert does to the row of a member: the member's dividend of the block goes, and what the
-- block consumed comes back.
unfoldable pub revert_entry :
    ℕ
    → DividendEntry
    → List UdEntry
    → List UdEntry
    → Outcome (DividendEntry × List UdEntry × List UdEntry)
revert_entry number m destroyed recovered = do
  a ←
      (if is_in number m.availables
        then remove_dividends_produced m number destroyed
        else done (m, destroyed))
  b ←
      (if is_in number (a.0).consumed
        then unconsume_dividends a.0 number recovered
        else done (a.0, recovered))
  done (b.0, a.1, b.1)

unfoldable pub revert_uds :
    ℕ
    → DividendTable
    → List UdEntry
    → List UdEntry
    → Outcome (DividendTable × List UdEntry × List UdEntry)
revert_uds number [] destroyed recovered = done ([], destroyed, recovered)
revert_uds number (m ∷ ms) destroyed recovered = do
  a ← revert_entry number m destroyed recovered
  rest ← revert_uds number ms a.1 a.2
  done (a.0 ∷ rest.0, rest.1, rest.2)
