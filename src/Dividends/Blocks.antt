-- ===== src/Dividends/Blocks.antt =====
-- About the table of dividends over a whole block: `produceDividend` and `consume` as a block is
-- written, `revertUDs` as it is reverted.
use mathlib.Core.List.{append-nil, append_assoc}
use duniter.Base.{
  ℕ, zero, suc, ◌≡◌, ◌≢◌, refl, ◌∙◌, Bool, true, false, ◌&&◌, Option, none, some, List, [], ◌∷◌,
  ◌++◌, map, arith, if◌then◌else◌, length-append, All, All-filter_by, Option-cases, inl, inr,
  includes, Distinct, get_elem?,
}
use duniter.Base.Outcome.{done}
use duniter.Transactions.Amounts.{Based}
use duniter.Index.{SindexEntry}
use duniter.Dividends.{DividendEntry, UdEntry, index_of, created_ud, to_ud_source}
use duniter.Dividends.Table.{DividendTable, consume_all, update_dividend, revert_entry, revert_uds}
use duniter.Dividends.Spent.{IsAligned, Spendable, consume_rows, consume_rows-IsSpent, number_of}
use duniter.Dividends.Unconsumed.{consume_rows-others, ud_back, index_of-skip, get_elem?-middle}
use duniter.Dividends.Reverted.{SameDividends, pay, paid_entry, unpaid_entry}
use duniter.Dividends.Paid.{
  keys, is_of, rows_of, consume_table, consume_all_lem, paid_if, dividends_of, given_back, is_due,
  amount_due, update_dividend_lem,
}

-- A member's row before block `n`: nothing of the block is in it yet, and the rows spend what it has.
pub record IsBefore (n : ℕ) (rows : List SindexEntry) (m : DividendEntry) : Type 0 where
  pub wf : IsAligned m
  pub not_paid : index_of n m.availables ≡ none
  pub not_consumed : index_of n m.consumed ≡ none
  pub spendable : Spendable m (rows_of m rows)

-- The same members in the same order, each with the same dividends.
abbrev pub SameTable : DividendTable → DividendTable → Type 0
SameTable [] [] = Unit
SameTable [] (m' ∷ t') = ⊥
SameTable (m ∷ t) [] = ⊥
SameTable (m ∷ t) (m' ∷ t') = SameDividends m m' × SameTable t t'

pay-IsAligned : (m : DividendEntry) (n : ℕ) (v : Based) → IsAligned m → IsAligned (pay m n v)
pay-IsAligned m n v w = record {
  aligned =
      omega
        (arith, length-append m.availables (n ∷ []), length-append m.dividends (v ∷ []), w.aligned);
  paired = w.paired;
}

index_of-append :
    (p n : ℕ) (ns : List ℕ) (i : ℕ) → index_of p ns ≡ some i → index_of p (ns ++ n ∷ []) ≡ some i
index_of-append p n [] i h = absurd (cc)
index_of-append p n (m ∷ ns) i h = elim (Option-cases (index_of p ns)) [
  | inl e ↦ ground (arith, e, Option-cases (index_of p (ns ++ n ∷ [])))
  | inr (j, e) ↦ ground (arith, e, index_of-append p n ns j e)
]

get_elem?-append :
    (ds : List Based) (v w : Based) (i : ℕ)
    → get_elem? ds i ≡ some w
    → get_elem? (ds ++ v ∷ []) i ≡ some w
get_elem?-append [] v w i h = absurd (cc)
get_elem?-append (d ∷ ds) v w zero h = h
get_elem?-append (d ∷ ds) v w (suc i) h = get_elem?-append ds v w i h

source-pay :
    (m : DividendEntry) (n p : ℕ) (v w : Based)
    → to_ud_source m p ≡ some w
    → to_ud_source (pay m n v) p ≡ some w
unfolding to_ud_source
source-pay m n p v w h = elim (Option-cases (index_of p m.availables)) [
  | inl e ↦ absurd (let k = h in ground arith)
  | inr (i, e) ↦
      rw (index_of-append p n m.availables i e)
        (get_elem?-append m.dividends v w i (let k = h in ground arith))
]

Spendable-pay :
    (m : DividendEntry) (n : ℕ) (v : Based) (rows : List SindexEntry)
    → Spendable m rows
    → Spendable (pay m n v) rows
Spendable-pay m n v [] s = tt
Spendable-pay m n v (row ∷ rows) s =
    (source-pay m n row.pos v (row.amount, row.base) s.0, s.1, Spendable-pay m n v rows s.2)

rows_avoid :
    (m : DividendEntry) (n : ℕ) (rows : List SindexEntry)
    → index_of n m.availables ≡ none
    → Spendable m rows
    → All (λ (row : SindexEntry). row.pos ≢ n) rows
unfolding to_ud_source
rows_avoid m n [] h s = tt
rows_avoid m n (row ∷ rows) h s =
    (λ e. let k = s.0 in absurd (ground arith), rows_avoid m n rows h s.2)

module _ (due : Bool) (n : ℕ) (v : Based) (rows : List SindexEntry)
    (here : All (λ (row : SindexEntry). number_of row ≡ n) rows) where
  own_source : (m : DividendEntry) → IsBefore n rows m → to_ud_source (pay m n v) n ≡ some v
  unfolding to_ud_source
  own_source m b =
      rw (index_of-skip n m.availables [] b.not_paid, b.wf.aligned)
        (get_elem?-middle m.dividends v [])

  no_source : (m : DividendEntry) → IsBefore n rows m → to_ud_source m n ≡ none
  unfolding to_ud_source
  no_source m b = rw b.not_paid refl

  one_member :
      (paid : Bool) (m : DividendEntry) (d r : List UdEntry)
      → IsBefore n rows m
      → let before : DividendEntry = if paid then pay m n v else m in
        (back : DividendEntry) × (revert_entry n (consume_rows before (rows_of before rows)) d r
          ≡ done (
            back,
            d ++ (if paid then created_ud m.pub_key n v ∷ [] else []),
            r ++ map (ud_back m.pub_key) (rows_of m rows),
          ))
        × SameDividends m back
  one_member true m d r b =
      let spent = Spendable-pay m n v (rows_of m rows) b.spendable in
      paid_entry n m (rows_of m rows) b.wf b.not_consumed
        (All-filter_by (λ (row : SindexEntry). number_of row ≡ n) (is_of m) rows here) v
        (consume_rows (pay m n v) (rows_of m rows)) d r
        (consume_rows-IsSpent (pay m n v) (rows_of m rows) (pay-IsAligned m n v b.wf) spent)
        (consume_rows-others (pay m n v) (rows_of m rows) n spent
            (rows_avoid m n (rows_of m rows) b.not_paid b.spendable)
          ∙ own_source m b)
  one_member false m d r b =
      let back =
        unpaid_entry n m (rows_of m rows) b.wf b.not_consumed
          (All-filter_by (λ (row : SindexEntry). number_of row ≡ n) (is_of m) rows here) v
          (consume_rows m (rows_of m rows)) d r
          (consume_rows-IsSpent m (rows_of m rows) b.wf b.spendable)
          (consume_rows-others m (rows_of m rows) n b.spendable
              (rows_avoid m n (rows_of m rows) b.not_paid b.spendable)
            ∙ no_source m b) in
      (back.0, rw (append-nil d) back.1, back.2)

  all_members :
      (t : DividendTable) (d r : List UdEntry)
      → All (IsBefore n rows) t
      → (back : DividendTable) × (revert_uds n (consume_table rows (map (paid_if due n v) t)) d r
          ≡ done (back, d ++ dividends_of due n v t, r ++ given_back rows t))
        × SameTable t back
  unfolding revert_uds
  all_members [] d r h = ([], rw (append-nil d, append-nil r) refl, tt)
  all_members (m ∷ t) d r h =
      let one = one_member (due && m.member) m d r h.0 in
      let own : List UdEntry = if due && m.member then created_ud m.pub_key n v ∷ [] else [] in
      let rest = all_members t (d ++ own) (r ++ map (ud_back m.pub_key) (rows_of m rows)) h.1 in
      (one.0 ∷ rest.0, rw (one.1, rest.1) (simp append_assoc), (one.2, rest.2))

keys-paid_if :
    (due : Bool) (n : ℕ) (v : Based) (t : DividendTable) → keys (map (paid_if due n v) t) ≡ keys t
keys-paid_if due n v [] = refl
keys-paid_if due n v (m ∷ t) = ground (arith, keys-paid_if due n v t)

-- What the table must be for a block to be written and reverted: the keys differ, the rows are all
-- under the number of the block, of which the table holds nothing yet, and each spends another
-- dividend of a member that the table lists.
pub record IsReady (n : ℕ) (rows : List SindexEntry) (t : DividendTable) : Type 0 where
  pub distinct : Distinct (keys t)
  pub known : All (λ (row : SindexEntry). includes row.identifier (keys t) ≡ true) rows
  pub here : All (λ (row : SindexEntry). number_of row ≡ n) rows
  pub before : All (IsBefore n rows) t

-- Where the table is ready for the rows: paying the dividend of the block, if it has one, and
-- consuming the rows succeeds; reverting the number then succeeds too, gives back the dividends
-- that were paid and those of the rows, and leaves each member with the dividends of before, in
-- some order, and with the same history.
pub revert_uds-consume_all :
    (n : ℕ) (dividend : Option ℕ) (base : ℕ) (rows : List SindexEntry) (t : DividendTable)
    → IsReady n rows t
    → (after back : DividendTable) × (consume_all rows (update_dividend n dividend base t).0
        ≡ done after)
      × (revert_uds n after [] []
          ≡ done (back, (update_dividend n dividend base t).1, given_back rows t))
      × SameTable t back
revert_uds-consume_all n dividend base rows t r =
    let due = is_due dividend in
    let v : Based = (amount_due dividend, base) in
    let paid = update_dividend_lem n dividend base t in
    let k = keys-paid_if due n v t in
    let spent = consume_all_lem rows (map (paid_if due n v) t) (rw k r.distinct) (rw k r.known) in
    let back = all_members due n v rows r.here t [] [] r.before in
    (consume_table rows (map (paid_if due n v) t), back.0, rw paid spent, rw paid back.1, back.2)
