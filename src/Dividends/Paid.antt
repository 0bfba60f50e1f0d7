-- ===== src/Dividends/Paid.antt =====
-- About the table of the dividends: what `consume` and `produceDividend` do to every row of it.
use mathlib.Core.List.{append-nil, append_assoc}
use duniter.Base.{
  ℕ, ◌≡◌, refl, ap, sym, subst, Bool, true, false, ◌&&◌, not, ◌==◌, Option, none, some, String,
  List, [], ◌∷◌, ◌++◌, map, arith, if◌then◌else◌, All, Bool-cases, inl, inr, includes, Distinct,
  str_eq, str_eq_iff, filter_by,
}
use duniter.Base.Outcome.{done}
use duniter.Transactions.Amounts.{Based}
use duniter.Index.{SindexEntry}
use duniter.Dividends.{DividendEntry, UdEntry, created_ud, consume, produce_dividend}
use duniter.Dividends.Table.{
  DividendTable, get_or_null, get, put, consume_all, produce_all, update_dividend,
}
use duniter.Dividends.Spent.{consume_rows}
use duniter.Dividends.Unconsumed.{ud_back}
use duniter.Dividends.Reverted.{pay}

abbrev pub keys : DividendTable → List String
keys t = map (λ (m : DividendEntry). m.pub_key) t

abbrev pub is_of : DividendEntry → SindexEntry → Bool
is_of m row = str_eq row.identifier m.pub_key

-- The rows that spend a member's dividends.
abbrev pub rows_of : DividendEntry → List SindexEntry → List SindexEntry
rows_of m rows = filter_by (is_of m) rows

abbrev consume_if : SindexEntry → DividendEntry → DividendEntry
consume_if row m = if is_of m row then consume m row else m

other_rows_stay :
    (row : SindexEntry) (t : DividendTable)
    → includes row.identifier (keys t) ≡ false
    → map (consume_if row) t ≡ t
other_rows_stay row [] h = refl
other_rows_stay row (m ∷ t) h = ground (
  arith,
  str_eq_iff row.identifier m.pub_key,
  str_eq_iff m.pub_key row.identifier,
  other_rows_stay row t,
)

one_row :
    (row : SindexEntry) (t : DividendTable)
    → Distinct (keys t)
    → includes row.identifier (keys t) ≡ true
    → (m : DividendEntry) × (get_or_null row.identifier t ≡ some m)
      × (m.pub_key ≡ row.identifier)
      × (put (consume m row) t ≡ map (consume_if row) t)
unfolding consume
one_row row [] d h = absurd (cc)
one_row row (m ∷ t) d h = elim (Bool-cases (str_eq m.pub_key row.identifier)) [
  | inl e ↦
      let same : m.pub_key ≡ row.identifier = (str_eq_iff m.pub_key row.identifier).0 e in
      let turned : str_eq row.identifier m.pub_key ≡ true =
        (str_eq_iff row.identifier m.pub_key).1 (sym same) in
      let self : str_eq m.pub_key m.pub_key ≡ true = (str_eq_iff m.pub_key m.pub_key).1 refl in
      (
        m,
        rw e refl,
        same,
        rw (self, turned)
            (ap (λ xs. consume m row ∷ xs)
              (sym (other_rows_stay row t (subst (λ s. includes s (keys t) ≡ false) same d.0)))),
      )
  | inr e ↦
      let rest = one_row row t d.1 (let k = h in ground arith) in
      let turned : str_eq row.identifier m.pub_key ≡ false =
        ground
          (arith, e, str_eq_iff row.identifier m.pub_key, str_eq_iff m.pub_key row.identifier) in
      (rest.0, rw e rest.1, rest.2, rw (rest.2, e, turned) (ap (λ xs. m ∷ xs) rest.3))
]

keys-consume_if : (row : SindexEntry) (t : DividendTable) → keys (map (consume_if row) t) ≡ keys t
unfolding consume
keys-consume_if row [] = refl
keys-consume_if row (m ∷ t) = ground (arith, keys-consume_if row t)

-- Each member's row is what the rows of that member make of it.
abbrev pub consume_table : List SindexEntry → DividendTable → DividendTable
consume_table rows t = map (λ m. consume_rows m (rows_of m rows)) t

consume_table-cons :
    (row : SindexEntry) (rows : List SindexEntry) (t : DividendTable)
    → consume_table rows (map (consume_if row) t) ≡ consume_table (row ∷ rows) t
unfolding consume
consume_table-cons row rows [] = refl
consume_table-cons row rows (m ∷ t) = elim (Bool-cases (is_of m row)) [
  | inl e ↦ rw e (
      ap (λ xs. consume_rows (consume m row) (rows_of m rows) ∷ xs) (consume_table-cons row rows t))
  | inr e ↦ rw e (ap (λ xs. consume_rows m (rows_of m rows) ∷ xs) (consume_table-cons row rows t))
]

consume_table-nil : (t : DividendTable) → consume_table [] t ≡ t
consume_table-nil [] = refl
consume_table-nil (m ∷ t) = ap (λ xs. m ∷ xs) (consume_table-nil t)

pub consume_all_lem :
    (rows : List SindexEntry) (t : DividendTable)
    → Distinct (keys t)
    → All (λ (row : SindexEntry). includes row.identifier (keys t) ≡ true) rows
    → consume_all rows t ≡ done (consume_table rows t)
unfolding consume_all get
consume_all_lem [] t d h = ap done (sym (consume_table-nil t))
consume_all_lem (row ∷ rows) t d h =
    let one = one_row row t d h.0 in
    let k = keys-consume_if row t in
    let rest = consume_all_lem rows (map (consume_if row) t) (rw k d) (rw k h.1) in
    rw (get, one.1, one.3, rest) (ap done (consume_table-cons row rows t))

-- A member whom a block with a dividend pays.
abbrev pub paid_if : Bool → ℕ → Based → DividendEntry → DividendEntry
paid_if due n v m = if due && m.member then pay m n v else m

abbrev pub dividends_of : Bool → ℕ → Based → DividendTable → List UdEntry
dividends_of due n v [] = []
dividends_of due n v (m ∷ t) =
    (if due && m.member then created_ud m.pub_key n v ∷ [] else []) ++ dividends_of due n v t

-- The dividends that the rows spent, as a revert gives them back, member by member.
abbrev pub given_back : List SindexEntry → DividendTable → List UdEntry
given_back rows [] = []
given_back rows (m ∷ t) = map (ud_back m.pub_key) (rows_of m rows) ++ given_back rows t

produce_one :
    (paid : Bool) (m : DividendEntry) (n : ℕ) (v : Based) (out : List UdEntry)
    → (if paid then produce_dividend m n v.0 v.1 out else (m, out))
      ≡ (if paid then pay m n v else m, out ++ (if paid then created_ud m.pub_key n v ∷ [] else []))
unfolding produce_dividend
produce_one true m n v out = refl
produce_one false m n v out = ap (λ (xs : List UdEntry). (m, xs)) (sym (append-nil out))

produce_all_lem :
    (n : ℕ) (v : Based) (out : List UdEntry) (t : DividendTable)
    → produce_all n v.0 v.1 out t ≡ (map (paid_if true n v) t, out ++ dividends_of true n v t)
unfolding produce_all
produce_all_lem n v out [] = ap (λ (xs : List UdEntry). ([], xs)) (sym (append-nil out))
produce_all_lem n v out (m ∷ t) =
    let made : List UdEntry = if m.member then created_ud m.pub_key n v ∷ [] else [] in
    rw (produce_one m.member m n v out, produce_all_lem n v (out ++ made) t)
      (ap (λ (xs : List UdEntry). (paid_if true n v m ∷ map (paid_if true n v) t, xs))
        (append_assoc out made (dividends_of true n v t)))

nobody_paid :
    (n : ℕ) (v : Based) (t : DividendTable)
    → ◌≡◌ {A = DividendTable × List UdEntry}
        (t, [])
        (map (paid_if false n v) t, dividends_of false n v t)
nobody_paid n v [] = refl
nobody_paid n v (m ∷ t) =
    ap (λ (r : DividendTable × List UdEntry). (m ∷ r.0, r.1)) (nobody_paid n v t)

-- Whether a block pays a dividend, and the amount.
abbrev pub is_due : Option ℕ → Bool
is_due none = false
is_due (some d) = not (d == 0)

abbrev pub amount_due : Option ℕ → ℕ
amount_due none = 0
amount_due (some d) = d

pub update_dividend_lem :
    (n : ℕ) (o : Option ℕ) (base : ℕ) (t : DividendTable)
    → update_dividend n o base t ≡ (
      map (paid_if (is_due o) n (amount_due o, base)) t,
      dividends_of (is_due o) n (amount_due o, base) t,
    )
unfolding update_dividend
update_dividend_lem n none base t = nobody_paid n (0, base) t
update_dividend_lem n (some d) base t = elim (Bool-cases (d == 0)) [
  | inl e ↦ rw e (nobody_paid n (d, base) t)
  | inr e ↦ rw e (produce_all_lem n (d, base) [] t)
]
