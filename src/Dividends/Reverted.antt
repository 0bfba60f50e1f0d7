-- ===== src/Dividends/Reverted.antt =====
-- About `revertUDs` on the row of one member: the block that paid a dividend and spent some rows is
-- undone.
use mathlib.Core.List.{Perm, perm_append_singleton, perm_append_comm, perm_middle}
use mathlib.Core.List.Perm as Perm
use duniter.Base.{
  ℕ, ◌≡◌, refl, ap, sym, ◌∙◌, none, some, List, [], ◌∷◌, ◌++◌, map, arith, if◌then◌else◌, get_elem?,
  length, All, Option-cases, inl, inr,
}
use duniter.Base.Outcome.{done}
use duniter.Transactions.Amounts.{Based}
use duniter.Index.{SindexEntry}
use duniter.Dividends.{
  DividendEntry, UdEntry, index_of, remove_at, created_ud, to_ud_source, remove_dividends_produced,
  unconsume_dividends,
}
use duniter.Dividends.Table.{is_in, revert_entry}
use duniter.Dividends.Spent.{stock, IsAligned, IsSpent, source_of, ud_of, number_of, take_out}
use duniter.Dividends.Unconsumed.{
  ud_back, absent, unconsume_dividends-rows, stock_of-append, stock_of-rows,
  unconsume_dividends-none,
}

-- The same member, with the same dividends in any order and the same history.
pub record SameDividends (m after : DividendEntry) : Type 0 where
  pub same_key : after.pub_key ≡ m.pub_key
  pub same_member : after.member ≡ m.member
  pub same_consumed : after.consumed ≡ m.consumed
  pub same_uds : after.consumed_uds ≡ m.consumed_uds
  pub bag : Perm (stock m) (stock after)

-- A member's row once a dividend is paid.
abbrev pub pay : DividendEntry → ℕ → Based → DividendEntry
pay m n v = record m { availables = m.availables ++ n ∷ []; dividends = m.dividends ++ v ∷ [] }

-- A row that got its spent dividends back.
abbrev give_back : DividendEntry → DividendEntry → List SindexEntry → DividendEntry
give_back m e rows = record e {
  availables = e.availables ++ map (λ row. row.pos) rows;
  dividends = e.dividends ++ map (λ (row : SindexEntry). (row.amount, row.base)) rows;
  consumed = m.consumed;
  consumed_uds = m.consumed_uds;
}

optional_unconsume :
    (n : ℕ) (e : DividendEntry) (out : List UdEntry)
    → (if is_in n e.consumed then unconsume_dividends e n out else done (e, out))
      ≡ unconsume_dividends e n out
optional_unconsume n e out = elim (Option-cases (index_of n e.consumed)) [
  | inl h ↦ rw (is_in, h) (sym (unconsume_dividends-none n e out h))
  | inr (i, h) ↦ rw (is_in, h) refl
]

two_parts :
    (n : ℕ) (m e back : DividendEntry) (d d' r r' : List UdEntry)
    → (if is_in n m.availables then remove_dividends_produced m n d else done (m, d)) ≡ done (e, d')
    → (if is_in n e.consumed then unconsume_dividends e n r else done (e, r)) ≡ done (back, r')
    → revert_entry n m d r ≡ done (back, d', r')
unfolding revert_entry
two_parts n m e back d d' r r' h k = rw (h, k) refl

-- The bag of the row that got its dividends back, whose own arrays are aligned.
give_back_bag :
    (m e : DividendEntry) (rows : List SindexEntry)
    → length e.availables ≡ length e.dividends
    → stock e ++ map source_of rows ≡ stock (give_back m e rows)
give_back_bag m e rows l = sym (
    stock_of-append e.availables (map (λ row. row.pos) rows) e.dividends
      (map (λ (row : SindexEntry). (row.amount, row.base)) rows) l
    ∙ ap (λ xs. stock e ++ xs) (stock_of-rows rows))

paid_bag :
    {A : Type 0} (x : A) (before left spent after : List A)
    → Perm (before ++ x ∷ []) (spent ++ after)
    → Perm after (x ∷ left)
    → Perm before (left ++ spent)
paid_bag x before left spent after h k = Perm.cons_inv (
    Perm.trans (Perm.symm (perm_append_singleton x before)) (
      Perm.trans h (
        Perm.trans (Perm.append_left spent k)
          (Perm.trans (perm_middle spent left) (Perm.cons x (perm_append_comm spent left))))))

module _ (n : ℕ) (m : DividendEntry) (rows : List SindexEntry) (w : IsAligned m)
    (unused : index_of n m.consumed ≡ none)
    (here : All (λ (row : SindexEntry). number_of row ≡ n) rows) where
  recovered_rows :
      (e : DividendEntry) (out : List UdEntry)
      → e.consumed ≡ m.consumed ++ map number_of rows
      → e.consumed_uds ≡ m.consumed_uds ++ map ud_of rows
      → (if is_in n e.consumed then unconsume_dividends e n out else done (e, out))
        ≡ done (give_back m e rows, out ++ map (ud_back e.pub_key) rows)
  recovered_rows e out c u =
      optional_unconsume n e out
      ∙ unconsume_dividends-rows n e m.consumed m.consumed_uds rows out c u unused w.paired here

  module _ (v : Based) (after : DividendEntry) (d r : List UdEntry) where
    -- The row of a member whom the block paid.
    pub paid_entry :
        IsSpent (pay m n v) rows after
        → to_ud_source after n ≡ some v
        → (back : DividendEntry) × (revert_entry n after d r
            ≡ done (back, d ++ created_ud m.pub_key n v ∷ [], r ++ map (ud_back m.pub_key) rows))
          × SameDividends m back
    unfolding revert_entry to_ud_source remove_dividends_produced
    paid_entry s h = elim (Option-cases (index_of n after.availables)) [
      | inl e ↦ absurd (let k = h in ground arith)
      | inr (i, e) ↦
          let k : get_elem? after.dividends i ≡ some v = ground arith in
          let out = take_out i n after.availables after.dividends v s.wf.aligned e k in
          let less : DividendEntry = record after {
            availables = remove_at i after.availables;
            dividends = remove_at i after.dividends;
          } in
          (
            give_back m less rows,
            two_parts n after less (give_back m less rows) d (d ++ created_ud m.pub_key n v ∷ []) r
                (r ++ map (ud_back m.pub_key) rows) (rw (is_in, e, k, s.same_key) refl)
                (rw (← s.same_key) (recovered_rows less r s.numbers s.uds)),
            record {
              same_key = s.same_key;
              same_member = s.same_member;
              same_consumed = refl;
              same_uds = refl;
              bag = rw (← give_back_bag m less rows out.1) (
                  paid_bag (n, v) (stock m) (stock less) (map source_of rows) (stock after)
                    (rw (← stock_of-append m.availables (n ∷ []) m.dividends (v ∷ []) w.aligned)
                      s.bag)
                    out.0);
            },
          )
    ]

    -- The row of one whom it did not pay.
    pub unpaid_entry :
        IsSpent m rows after
        → to_ud_source after n ≡ none
        → (back : DividendEntry) × (revert_entry n after d r
            ≡ done (back, d, r ++ map (ud_back m.pub_key) rows))
          × SameDividends m back
    unfolding revert_entry to_ud_source
    unpaid_entry s h =
        let e = absent n after.availables after.dividends s.wf.aligned h in
        (
          give_back m after rows,
          two_parts n after after (give_back m after rows) d d r (r ++ map (ud_back m.pub_key) rows)
              (rw (is_in, e) refl) (rw (← s.same_key) (recovered_rows after r s.numbers s.uds)),
          record {
            same_key = s.same_key;
            same_member = s.same_member;
            same_consumed = refl;
            same_uds = refl;
            bag =
                rw (← give_back_bag m after rows s.wf.aligned)
                  (Perm.trans s.bag (perm_append_comm (map source_of rows) (stock after)));
          },
        )
