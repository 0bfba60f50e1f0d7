-- ===== src/Wallets/Balances.antt =====
-- About `updateWallets`: the balance of each wallet after it, in terms of the rows alone.
use duniter.Base.{
  ℕ, ◌+◌, ◌*◌, ◌^◌, ◌≡◌, refl, ◌∙◌, Bool, true, false, String, some, List, [], ◌∷◌, ◌++◌, map,
  foldl, str_eq, str_eq_iff, arith, if◌then◌else◌, includes, Distinct, Bool-cases, Option-cases,
  inl, inr,
}
use duniter.Base.Uniq.{uniq-Distinct, includes-uniq, includes-append}
use duniter.Base.Int.{
  ℤ, pos, negsuc, ◌+ℤ◌, ◌-ℤ◌, ◌*ℤ◌, pos_part, neg_part, int_laws, eq_of_parts, +ℤ_parts,
}
use duniter.Transactions.Amounts.{Based}
use duniter.Transactions.Conservation.{total}
use duniter.Index.{SindexEntry}
use duniter.Dividends.{UdEntry}
use duniter.Wallets.{
  DbWallet, WalletTable, find_wallet, get_wallet, save_wallet, sum_amounts, creates_of, updates_of,
  uds_of_key, variation_of, update_wallet, update_wallets, different_conditions,
}

-- The balance of a wallet, 0 for one that is not stored.
abbrev pub balance_of : String → WalletTable → ℤ
balance_of c ws = (get_wallet c ws).balance

find_wallet-key :
    (c : String) (ws : WalletTable) (w : DbWallet) → find_wallet c ws ≡ some w → w.conditions ≡ c
find_wallet-key c [] w h = absurd (cc)
find_wallet-key c (v ∷ ws) w h = ground (arith, find_wallet-key c ws w, str_eq_iff v.conditions c)

get_wallet-key : (c : String) (ws : WalletTable) → (get_wallet c ws).conditions ≡ c
unfolding get_wallet
get_wallet-key c ws = elim (Option-cases (find_wallet c ws)) [
  | inl e ↦ rw (get_wallet, e) refl
  | inr (w, e) ↦ rw (get_wallet, e) (find_wallet-key c ws w e)
]

find_wallet-save :
    (c : String) (w : DbWallet) (ws : WalletTable)
    → find_wallet c (save_wallet w ws)
      ≡ (if str_eq w.conditions c then some w else find_wallet c ws)
find_wallet-save c w [] = refl
find_wallet-save c w (v ∷ ws) = ground (
  arith,
  find_wallet-save c w ws,
  str_eq_iff v.conditions w.conditions,
  str_eq_iff v.conditions c,
  str_eq_iff w.conditions c,
)

get_wallet-save :
    (d : String) (w : DbWallet) (ws : WalletTable)
    → balance_of d (save_wallet w ws)
      ≡ (if str_eq w.conditions d then w.balance else balance_of d ws)
unfolding get_wallet
get_wallet-save d w ws = ground (arith, find_wallet-save d w ws)

module _ (sindex : List SindexEntry) (dividends : List UdEntry) (reverse : Bool) where
  update_wallet-balance :
      (ws : WalletTable) (c d : String)
      → balance_of d (update_wallet sindex dividends reverse ws c) ≡ (
          if str_eq c d
          then balance_of d ws +ℤ variation_of d sindex dividends reverse
          else balance_of d ws)
  unfolding update_wallet
  update_wallet-balance ws c d =
      let wallet = get_wallet c ws in
      get_wallet-save d
        (record wallet { balance = wallet.balance +ℤ variation_of c sindex dividends reverse }) ws
      ∙ rw (get_wallet-key c ws) (elim (Bool-cases (str_eq c d)) [
        | inl e ↦ rw (e, (str_eq_iff c d).0 e) refl
        | inr e ↦ rw e refl
      ])

  -- A loop over different conditions changes each of their wallets once.
  update_all-balance :
      (cs : List String) (ws : WalletTable) (d : String)
      → Distinct cs
      → balance_of d (foldl (update_wallet sindex dividends reverse) ws cs) ≡ (
          if includes d cs
          then balance_of d ws +ℤ variation_of d sindex dividends reverse
          else balance_of d ws)
  update_all-balance [] ws d h = refl
  update_all-balance (c ∷ cs) ws d h =
      let one = update_wallet-balance ws c d in
      let rest = update_all-balance cs (update_wallet sindex dividends reverse ws c) d h.1 in
      elim (Bool-cases (str_eq c d)) [
        | inl e ↦
            let same : c ≡ d = (str_eq_iff c d).0 e in
            let out : includes d cs ≡ false = rw (← same) h.0 in rest ∙ rw (out, e, one, e) refl
        | inr e ↦ rest ∙ rw (one, e) refl
      ]

total-append : (xs ys : List Based) → total (xs ++ ys) ≡ total xs + total ys
total-append [] ys = omega arith
total-append ((a, b) ∷ xs) ys = omega (arith, total-append xs ys)

sum_from :
    (acc : ℕ) (xs : List Based)
    → foldl (λ sum src. sum + src.0 * 10 ^ src.1) acc xs ≡ acc + total xs
sum_from acc [] = omega arith
sum_from acc ((a, b) ∷ xs) = omega (arith, sum_from (acc + a * 10 ^ b) xs)

sum_amounts-eq-total : (xs : List Based) → sum_amounts xs ≡ total xs
unfolding sum_amounts
sum_amounts-eq-total xs = omega (arith, sum_from 0 xs)

-- What rows bring to a wallet, and what they take from it.
abbrev pub credit : String → List SindexEntry → List UdEntry → ℕ
credit c sindex dividends = total (creates_of c sindex) + total (uds_of_key c dividends)

abbrev pub debit : String → List SindexEntry → ℕ
debit c sindex = total (updates_of c sindex)

minus_one : (x : ℤ) → pos_part (x *ℤ negsuc 0) + pos_part x ≡ neg_part (x *ℤ negsuc 0) + neg_part x
unfolding ◌*ℤ◌
minus_one x = ground arith

module _ (c : String) (sindex : List SindexEntry) (dividends : List UdEntry) where
  abbrev positives : ℕ
  positives = sum_amounts (creates_of c sindex ++ uds_of_key c dividends)

  positives_lem : positives ≡ credit c sindex dividends
  positives_lem =
      sum_amounts-eq-total (creates_of c sindex ++ uds_of_key c dividends)
      ∙ total-append (creates_of c sindex) (uds_of_key c dividends)

  pub variation_of-forward :
      pos_part (variation_of c sindex dividends false) + debit c sindex
      ≡ neg_part (variation_of c sindex dividends false) + credit c sindex dividends
  unfolding variation_of
  variation_of-forward =
      let p = positives_lem in let n = sum_amounts-eq-total (updates_of c sindex) in omega int_laws

  pub variation_of-reverse :
      pos_part (variation_of c sindex dividends true) + credit c sindex dividends
      ≡ neg_part (variation_of c sindex dividends true) + debit c sindex
  unfolding variation_of
  variation_of-reverse =
      let p = positives_lem in
      let n = sum_amounts-eq-total (updates_of c sindex) in
      let m = minus_one (pos positives -ℤ pos (sum_amounts (updates_of c sindex))) in omega int_laws

nothing_created :
    (c : String) (sindex : List SindexEntry)
    → includes c (map (λ (e : SindexEntry). e.conditions) sindex) ≡ false
    → (creates_of c sindex ≡ []) × (updates_of c sindex ≡ [])
nothing_created c [] h = (refl, refl)
nothing_created c (e ∷ sindex) h = ground (arith, nothing_created c sindex)

no_dividend :
    (c : String) (dividends : List UdEntry)
    → includes c (map (λ (d : UdEntry). d.conditions) dividends) ≡ false
    → uds_of_key c dividends ≡ []
no_dividend c [] h = refl
no_dividend c (d ∷ dividends) h = ground (arith, no_dividend c dividends)

nothing_named :
    (c : String) (sindex : List SindexEntry) (dividends : List UdEntry)
    → includes c (different_conditions sindex dividends) ≡ false
    → (credit c sindex dividends ≡ 0) × (debit c sindex ≡ 0)
nothing_named c sindex dividends h =
    let rows : List String = map (λ (e : SindexEntry). e.conditions) sindex in
    let uds : List String = map (λ (d : UdEntry). d.conditions) dividends in
    let apart : (includes c rows ≡ false) × (includes c uds ≡ false) =
      ground (arith, includes-uniq (rows ++ uds) c, includes-append c rows uds) in
    let none_created = nothing_created c sindex apart.0 in
    rw (none_created.0, none_created.1, no_dividend c dividends apart.1) (refl, refl)

-- Conditions that no row names vary by nothing.
unnamed_conditions :
    (c : String) (sindex : List SindexEntry) (dividends : List UdEntry) (reverse : Bool)
    → includes c (different_conditions sindex dividends) ≡ false
    → variation_of c sindex dividends reverse ≡ pos 0
unnamed_conditions c sindex dividends false h =
    let z = nothing_named c sindex dividends h in
    eq_of_parts _ _ (omega (arith, variation_of-forward c sindex dividends))
unnamed_conditions c sindex dividends true h =
    let z = nothing_named c sindex dividends h in
    eq_of_parts _ _ (omega (arith, variation_of-reverse c sindex dividends))

pub update_wallets-balance :
    (sindex : List SindexEntry) (dividends : List UdEntry) (reverse : Bool) (ws : WalletTable)
    (c : String)
    → balance_of c (update_wallets sindex dividends reverse ws)
      ≡ balance_of c ws +ℤ variation_of c sindex dividends reverse
unfolding update_wallets
update_wallets-balance sindex dividends reverse ws c =
    let names : List String =
      map (λ (e : SindexEntry). e.conditions) sindex
      ++ map (λ (d : UdEntry). d.conditions) dividends in
    update_all-balance sindex dividends reverse (different_conditions sindex dividends) ws c
      (uniq-Distinct names)
    ∙ elim (Bool-cases (includes c (different_conditions sindex dividends))) [
      | inl e ↦ rw e refl
      | inr e ↦
          rw (e, unnamed_conditions c sindex dividends reverse e)
            (eq_of_parts _ _ (omega (arith, +ℤ_parts (balance_of c ws) (pos 0))))
    ]

-- After `updateWallets` the balance under any conditions is the one of before, plus the value of the
-- created rows and of the dividends with these conditions, less the value of the updated rows with
-- them; in reverse, less the former and plus the latter.
pub update_wallets-credit :
    (sindex : List SindexEntry) (dividends : List UdEntry) (ws : WalletTable) (c : String)
    → (balance_of c (update_wallets sindex dividends false ws)
        ≡ balance_of c ws +ℤ pos (credit c sindex dividends) -ℤ pos (debit c sindex))
      × (balance_of c (update_wallets sindex dividends true ws)
          ≡ balance_of c ws +ℤ pos (debit c sindex) -ℤ pos (credit c sindex dividends))
update_wallets-credit sindex dividends ws c =
    let on = variation_of-forward c sindex dividends in
    let back = variation_of-reverse c sindex dividends in
    (
      update_wallets-balance sindex dividends false ws c ∙ eq_of_parts _ _ (omega int_laws),
      update_wallets-balance sindex dividends true ws c ∙ eq_of_parts _ _ (omega int_laws),
    )
