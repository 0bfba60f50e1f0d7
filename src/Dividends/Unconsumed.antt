-- ===== src/Dividends/Unconsumed.antt =====
-- About `unconsumeDividends` on a member's dividends: it gives back what a block consumed.
use mathlib.Core.List.{append_assoc, append-nil}
use duniter.Base.{
  ℕ, zero, suc, String, ◌<◌, ◌≡◌, ◌≢◌, refl, ap, ap₂, ◌∙◌, none, some, List, [], ◌∷◌, ◌++◌, map,
  arith, get_elem?, length, All, length-append, length-map, Option-cases,
}
use duniter.Base.Outcome.{done}
use duniter.Transactions.Amounts.{Based}
use duniter.Index.{SindexEntry}
use duniter.Dividends.{
  DividendEntry, ConsumedUd, UdEntry, index_of, remove_at, element_at, created_ud, consume,
  to_ud_source, unconsume_one, unconsume_loop, unconsume_dividends,
}
use duniter.Dividends.Spent.{
  stock_of, source_of, ud_of, number_of, consume-others, Spendable, Spendable-consume, consume_rows,
}

-- The loop of `unconsumeDividends` on what the rows of one block left.
pub index_of-skip :
    (n : ℕ) (old rest : List ℕ)
    → index_of n old ≡ none
    → index_of n (old ++ n ∷ rest) ≡ some (length old)
index_of-skip n [] rest h = ground arith
index_of-skip n (o ∷ old) rest h =
    ground (arith, index_of-skip n old rest, Option-cases (index_of n old))

pub get_elem?-middle :
    {A : Type 0} (old : List A) (x : A) (rest : List A)
    → get_elem? (old ++ x ∷ rest) (length old) ≡ some x
get_elem?-middle [] x rest = refl
get_elem?-middle (o ∷ old) x rest = get_elem?-middle old x rest

remove_at-middle :
    {A : Type 0} (old : List A) (x : A) (rest : List A)
    → remove_at (length old) (old ++ x ∷ rest) ≡ old ++ rest
remove_at-middle [] x rest = refl
remove_at-middle (o ∷ old) x rest = ap (λ xs. o ∷ xs) (remove_at-middle old x rest)

-- What the entries that a revert gives back say of the rows.
abbrev pub ud_back : String → SindexEntry → UdEntry
ud_back key row = created_ud key row.pos (row.amount, row.base)

loop_stop :
    (k n : ℕ) (m : DividendEntry) (out : List UdEntry)
    → index_of n m.consumed ≡ none
    → unconsume_loop (suc k) m n out ≡ done (m, out)
unfolding unconsume_loop
loop_stop k n m out h = rw (unconsume_loop, h) refl

loop_step :
    (k n i : ℕ) (m : DividendEntry) (row : SindexEntry) (out : List UdEntry) (ns : List ℕ)
    (uds : List ConsumedUd)
    → index_of n m.consumed ≡ some i
    → get_elem? m.consumed_uds i ≡ some (ud_of row)
    → remove_at i m.consumed ≡ ns
    → remove_at i m.consumed_uds ≡ uds
    → unconsume_loop (suc k) m n out
      ≡ unconsume_loop k
          (record m {
            availables = m.availables ++ row.pos ∷ [];
            dividends = m.dividends ++ (row.amount, row.base) ∷ [];
            consumed = ns;
            consumed_uds = uds;
          })
          n
          (out ++ ud_back m.pub_key row ∷ [])
unfolding unconsume_loop unconsume_one
loop_step k n i m row out ns uds h g c u = rw (unconsume_loop, h, unconsume_one, g, c, u) refl

unconsume_rows :
    (rounds n : ℕ) (m : DividendEntry) (old : List ℕ) (olds : List ConsumedUd) (ns : List ℕ)
    (ds : List Based) (rows : List SindexEntry) (out : List UdEntry)
    → length rows < rounds
    → index_of n old ≡ none
    → length old ≡ length olds
    → All (λ (row : SindexEntry). number_of row ≡ n) rows
    → unconsume_loop rounds
        (record m {
          availables = ns;
          dividends = ds;
          consumed = old ++ map number_of rows;
          consumed_uds = olds ++ map ud_of rows;
        })
        n
        out
      ≡ done (
        record m {
          availables = ns ++ map (λ row. row.pos) rows;
          dividends = ds ++ map (λ (row : SindexEntry). (row.amount, row.base)) rows;
          consumed = old;
          consumed_uds = olds;
        },
        out ++ map (ud_back m.pub_key) rows,
      )
unconsume_rows zero n m old olds ns ds rows out f h e all = absurd (omega arith)
unconsume_rows (suc k) n m old olds ns ds [] out f h e all =
    let stop =
      loop_stop k n
        (record m { availables = ns; dividends = ds; consumed = old; consumed_uds = olds }) out h in
    simp (append-nil, stop)
unconsume_rows (suc k) n m old olds ns ds (row ∷ rows) out f h e all =
    let rest =
      unconsume_rows k n m old olds (ns ++ row.pos ∷ []) (ds ++ (row.amount, row.base) ∷ []) rows
        (out ++ ud_back m.pub_key row ∷ []) (omega arith) h e all.1 in
    let step =
      loop_step k n (length old)
        (record m {
          availables = ns;
          dividends = ds;
          consumed = old ++ n ∷ map number_of rows;
          consumed_uds = olds ++ ud_of row ∷ map ud_of rows;
        })
        row out (old ++ map number_of rows) (olds ++ map ud_of rows)
        (index_of-skip n old (map number_of rows) h)
        (rw e (get_elem?-middle olds (ud_of row) (map ud_of rows)))
        (remove_at-middle old n (map number_of rows))
        (rw e (remove_at-middle olds (ud_of row) (map ud_of rows))) in
    rw all.0 (step ∙ rest ∙ simp append_assoc)

-- What a block consumed comes back at the end of the member's arrays.
pub unconsume_dividends-rows :
    (n : ℕ) (e : DividendEntry) (old : List ℕ) (olds : List ConsumedUd) (rows : List SindexEntry)
    (out : List UdEntry)
    → e.consumed ≡ old ++ map number_of rows
    → e.consumed_uds ≡ olds ++ map ud_of rows
    → index_of n old ≡ none
    → length old ≡ length olds
    → All (λ (row : SindexEntry). number_of row ≡ n) rows
    → unconsume_dividends e n out
      ≡ done (
        record e {
          availables = e.availables ++ map (λ row. row.pos) rows;
          dividends = e.dividends ++ map (λ (row : SindexEntry). (row.amount, row.base)) rows;
          consumed = old;
          consumed_uds = olds;
        },
        out ++ map (ud_back e.pub_key) rows,
      )
unfolding unconsume_dividends
unconsume_dividends-rows n e old olds rows out c u h l all =
    ap₂
      (λ (ns : List ℕ) (uds : List ConsumedUd).
        unconsume_loop (suc (length ns)) (record e { consumed = ns; consumed_uds = uds }) n out)
      c u
    ∙ unconsume_rows (suc (length (old ++ map number_of rows))) n e old olds e.availables
        e.dividends rows out
        (omega (arith, length-append old (map number_of rows), length-map number_of rows)) h l all

pub unconsume_dividends-none :
    (n : ℕ) (e : DividendEntry) (out : List UdEntry)
    → index_of n e.consumed ≡ none
    → unconsume_dividends e n out ≡ done (e, out)
unfolding unconsume_dividends
unconsume_dividends-none n e out h = loop_stop (length e.consumed) n e out h

-- Reading a dividend that no row spends.
pub consume_rows-others :
    (m : DividendEntry) (rows : List SindexEntry) (n : ℕ)
    → Spendable m rows
    → All (λ (row : SindexEntry). row.pos ≢ n) rows
    → to_ud_source (consume_rows m rows) n ≡ to_ud_source m n
consume_rows-others m [] n s ne = refl
consume_rows-others m (row ∷ rows) n s ne =
    consume_rows-others (consume m row) rows n (Spendable-consume m row rows s.0 s.1 s.2) ne.1
    ∙ consume-others m row n s.0 ne.0

-- In aligned arrays a dividend that is not read is not there.
pub absent :
    (n : ℕ) (ns : List ℕ) (ds : List Based)
    → length ns ≡ length ds
    → element_at ds (index_of n ns) ≡ none
    → index_of n ns ≡ none
absent n [] ds e h = refl
absent n (m ∷ ns) [] e h = absurd (omega arith)
absent n (m ∷ ns) (d ∷ ds) e h = ground (arith, absent n ns ds, Option-cases (index_of n ns))

pub stock_of-append :
    (ns ns' : List ℕ) (ds ds' : List Based)
    → length ns ≡ length ds
    → stock_of (ns ++ ns') (ds ++ ds') ≡ stock_of ns ds ++ stock_of ns' ds'
stock_of-append [] ns' [] ds' e = refl
stock_of-append [] ns' (d ∷ ds) ds' e = absurd (omega arith)
stock_of-append (n ∷ ns) ns' [] ds' e = absurd (omega arith)
stock_of-append (n ∷ ns) ns' (d ∷ ds) ds' e =
    ap (λ xs. (n, d) ∷ xs) (stock_of-append ns ns' ds ds' (omega arith))

pub stock_of-rows :
    (rows : List SindexEntry)
    → stock_of
        (map (λ row. row.pos) rows)
        (map (λ (row : SindexEntry). (row.amount, row.base)) rows)
      ≡ map source_of rows
stock_of-rows [] = refl
stock_of-rows (row ∷ rows) = ap (λ xs. source_of row ∷ xs) (stock_of-rows rows)
