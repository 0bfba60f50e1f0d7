-- ===== src/Dividends/Spent.antt =====
-- About `DividendDaoHandler`: the dividends of one member as a bag of pairs, a block and a value,
-- and what consuming rows does to it.
use mathlib.Core.List.{Perm, append_assoc, append-nil}
use mathlib.Core.List.Perm as Perm
use duniter.Base.{
  ℕ, zero, suc, ◌≡◌, ◌≢◌, refl, ap, sym, ◌∙◌, none, some, List, [], ◌∷◌, ◌++◌, map, arith, ◌==◌,
  if◌then◌else◌, get_elem?, length, All, length-append, Option-cases, inl, inr,
}
use duniter.Transactions.Amounts.{Based}
use duniter.Index.{SindexEntry}
use duniter.Dividends.{
  DividendEntry, ConsumedUd, index_of, remove_at, element_at, consume, to_ud_source,
}

abbrev pub stock_of : List ℕ → List Based → List (ℕ × Based)
stock_of [] ds = []
stock_of (n ∷ ns) [] = []
stock_of (n ∷ ns) (d ∷ ds) = (n, d) ∷ stock_of ns ds

-- The dividends available to a member.
abbrev pub stock : DividendEntry → List (ℕ × Based)
stock m = stock_of m.availables m.dividends

-- The parallel arrays have the same length.
pub record IsAligned (m : DividendEntry) : Type 0 where
  pub aligned : length m.availables ≡ length m.dividends
  pub paired : length m.consumed ≡ length m.consumed_uds

abbrev pub source_of : SindexEntry → ℕ × Based
source_of row = (row.pos, (row.amount, row.base))

-- The history that consuming a row leaves.
abbrev pub ud_of : SindexEntry → ConsumedUd
ud_of row = record {
  dividend_number = row.pos;
  dividend = some (row.amount, row.base);
  tx_created_on = row.created_on;
  tx_locktime = row.locktime;
  tx_hash = row.tx;
}

abbrev pub number_of : SindexEntry → ℕ
number_of row = row.written_on.number

index_of-zero : (p n : ℕ) (ns : List ℕ) → index_of p (n ∷ ns) ≡ some 0 → n ≡ p
index_of-zero p n ns h =
    elim (index_of p ns)
        as (λ o.
          (if n == p then some 0 else elim o [ none ↦ none | some i ↦ some (suc i) ]) ≡ some 0
          → n ≡ p) [ none ↦ λ e. ground arith | some i ↦ λ e. ground arith ]
      h

index_of-suc :
    (p n i : ℕ) (ns : List ℕ) → index_of p (n ∷ ns) ≡ some (suc i) → index_of p ns ≡ some i
index_of-suc p n i ns h =
    elim (index_of p ns)
        as (λ o.
          (if n == p then some 0 else elim o [ none ↦ none | some j ↦ some (suc j) ]) ≡ some (suc i)
          → o ≡ some i) [ none ↦ λ e. ground arith | some j ↦ λ e. ground arith ]
      h

pub take_out :
    (i p : ℕ) (ns : List ℕ) (ds : List Based) (v : Based)
    → length ns ≡ length ds
    → index_of p ns ≡ some i
    → get_elem? ds i ≡ some v
    → Perm (stock_of ns ds) ((p, v) ∷ stock_of (remove_at i ns) (remove_at i ds))
      × (length (remove_at i ns) ≡ length (remove_at i ds))
take_out i p [] ds v e h k = absurd (cc)
take_out i p (n ∷ ns) [] v e h k = absurd (omega arith)
take_out zero p (n ∷ ns) (d ∷ ds) v e h k =
    let e' : n ≡ p = index_of-zero p n ns h in
    let v' : d ≡ v = cc in rw (e', v') (Perm.refl _, omega arith)
take_out (suc i) p (n ∷ ns) (d ∷ ds) v e h k =
    let rest = take_out i p ns ds v (omega arith) (index_of-suc p n i ns h) k in
    (Perm.trans (Perm.cons (n, d) rest.0) (Perm.swap (p, v) (n, d) _), omega (arith, rest.1))

-- Taking one dividend out leaves the others where a read finds them.
others_stay :
    (i p q : ℕ) (ns : List ℕ) (ds : List Based)
    → p ≢ q
    → index_of p ns ≡ some i
    → element_at (remove_at i ds) (index_of q (remove_at i ns)) ≡ element_at ds (index_of q ns)
others_stay i p q [] ds ne h = absurd (cc)
others_stay zero p q (n ∷ ns) [] ne h =
    ground (arith, Option-cases (index_of q ns), Option-cases (index_of q (n ∷ ns)))
others_stay zero p q (n ∷ ns) (d ∷ ds) ne h =
    ground (arith, index_of-zero p n ns h, Option-cases (index_of q ns))
others_stay (suc i) p q (n ∷ ns) [] ne h =
    ground (arith, Option-cases (index_of q (n ∷ ns)), Option-cases (index_of q (remove_at i ns)))
others_stay (suc i) p q (n ∷ ns) (d ∷ ds) ne h = ground (
  arith,
  others_stay i p q ns ds ne (index_of-suc p n i ns h),
  Option-cases (index_of q ns),
  Option-cases (index_of q (remove_at i ns)),
)

-- Consuming a row takes its dividend out of the bag and adds its history.
pub consume_lem :
    (m : DividendEntry) (row : SindexEntry)
    → IsAligned m
    → to_ud_source m row.pos ≡ some (row.amount, row.base)
    → IsAligned (consume m row)
      × Perm (stock m) (source_of row ∷ stock (consume m row))
      × ((consume m row).consumed_uds ≡ m.consumed_uds ++ ud_of row ∷ [])
unfolding consume to_ud_source
consume_lem m row w h = elim (Option-cases (index_of row.pos m.availables)) [
  | inl e ↦ absurd (let k = h in ground arith)
  | inr (i, e) ↦
      let k : get_elem? m.dividends i ≡ some (row.amount, row.base) = ground arith in
      let out = take_out i row.pos m.availables m.dividends (row.amount, row.base) w.aligned e k in
      rw (e, element_at, k)
        (
          record {
            aligned = out.1;
            paired = omega (
              arith,
              length-append m.consumed (row.written_on.number ∷ []),
              length-append m.consumed_uds (ud_of row ∷ []),
              w.paired,
            );
          },
          out.0,
          refl,
        )
]

pub consume-others :
    (m : DividendEntry) (row : SindexEntry) (q : ℕ)
    → to_ud_source m row.pos ≡ some (row.amount, row.base)
    → row.pos ≢ q
    → to_ud_source (consume m row) q ≡ to_ud_source m q
unfolding consume to_ud_source
consume-others m row q h ne = elim (Option-cases (index_of row.pos m.availables)) [
  | inl e ↦ absurd (let k = h in ground arith)
  | inr (i, e) ↦ rw e (others_stay i row.pos q m.availables m.dividends ne e)
]

-- Each row spends a dividend that the member has, and no two rows spend the same.
abbrev pub Spendable : DividendEntry → List SindexEntry → Type 0
Spendable m [] = Unit
Spendable m (row ∷ rows) =
    (to_ud_source m row.pos ≡ some (row.amount, row.base))
    × All (λ (r : SindexEntry). row.pos ≢ r.pos) rows
    × Spendable m rows

pub Spendable-consume :
    (m : DividendEntry) (row : SindexEntry) (rows : List SindexEntry)
    → to_ud_source m row.pos ≡ some (row.amount, row.base)
    → All (λ (r : SindexEntry). row.pos ≢ r.pos) rows
    → Spendable m rows
    → Spendable (consume m row) rows
Spendable-consume m row [] h ne s = tt
Spendable-consume m row (r ∷ rows) h ne s =
    (consume-others m row r.pos h ne.0 ∙ s.0, s.1, Spendable-consume m row rows h ne.1 s.2)

abbrev pub consume_rows : DividendEntry → List SindexEntry → DividendEntry
consume_rows m [] = m
consume_rows m (row ∷ rows) = consume_rows (consume m row) rows

-- What consuming rows leaves of a member's row.
pub record IsSpent (m : DividendEntry) (rows : List SindexEntry) (after : DividendEntry)
    : Type 0 where
  pub same_key : after.pub_key ≡ m.pub_key
  pub same_member : after.member ≡ m.member
  pub numbers : after.consumed ≡ m.consumed ++ map number_of rows
  pub uds : after.consumed_uds ≡ m.consumed_uds ++ map ud_of rows
  pub bag : Perm (stock m) (map source_of rows ++ stock after)
  pub wf : IsAligned after

pub consume_rows-IsSpent :
    (m : DividendEntry) (rows : List SindexEntry)
    → IsAligned m
    → Spendable m rows
    → IsSpent m rows (consume_rows m rows)
unfolding consume
consume_rows-IsSpent m [] w s = record {
  same_key = refl;
  same_member = refl;
  numbers = sym (append-nil m.consumed);
  uds = sym (append-nil m.consumed_uds);
  bag = Perm.refl _;
  wf = w;
}
consume_rows-IsSpent m (row ∷ rows) w s =
    let one = consume_lem m row w s.0 in
    let rest =
      consume_rows-IsSpent (consume m row) rows one.0 (Spendable-consume m row rows s.0 s.1 s.2) in
    record {
      same_key = rest.same_key;
      same_member = rest.same_member;
      numbers = rest.numbers ∙ append_assoc m.consumed (number_of row ∷ []) (map number_of rows);
      uds =
          rest.uds
          ∙ ap (λ (us : List ConsumedUd). us ++ map ud_of rows) one.2
          ∙ append_assoc m.consumed_uds (ud_of row ∷ []) (map ud_of rows);
      bag = Perm.trans one.1 (Perm.cons (source_of row) rest.bag);
      wf = rest.wf;
    }
