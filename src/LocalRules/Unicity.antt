-- ===== src/LocalRules/Unicity.antt =====
-- The rules of unicity, on the documents of the block.
use duniter.Base.{
  ◌≡◌, refl, sym, ◌∙◌, ◌↔◌, inl, inr, Bool, true, false, not, String, List, [], ◌∷◌, ◌++◌, map,
  arith, includes, Distinct, str_eq_iff, ==_iff, Bool-cases,
}
use duniter.Base.Uniq.{includes-append, length-uniq_iff, Fresh, Fresh-nil}
use duniter.Base.Outcome.{require, Succeeds, Succeeds-require}
use duniter.Block.{BlockDto, IdentityDto}
use duniter.Head.{ConfDto}
use duniter.Transactions.{TransactionDto}
use duniter.Index.{iindex_create}
use duniter.Index.Local.{local_index}
use duniter.Index.Counts.{keys_of-mindex-local_index, created_keys-iindex-local_index}
use duniter.LocalRules.Documents.{
  all_distinct, check_identities_pubkey_conflict, check_membership_unicity, scan_pubkeys,
  check_pubkey_unicity,
}

all_distinct_iff : (ts : List String) → (all_distinct ts ≡ true) ↔ Distinct ts
all_distinct_iff ts = (
  λ h. (length-uniq_iff ts).0 (sym ((==_iff _ _).0 h)),
  λ d. (==_iff _ _).1 (sym ((length-uniq_iff ts).1 d)),
)

require-Distinct_iff :
    (ts : List String) (e : String) → Succeeds (require (all_distinct ts) e) ↔ Distinct ts
require-Distinct_iff ts e =
    let outer = Succeeds-require (all_distinct ts) e in
    let inner = all_distinct_iff ts in (λ h. inner.0 (outer.0 h), λ d. outer.1 (inner.1 d))

abbrev pub changed_keys : BlockDto → List String
changed_keys block =
    map (λ ms. ms.issuer) block.joiners
    ++ (map (λ ms. ms.issuer) block.actives
        ++ (map (λ ms. ms.issuer) block.leavers ++ map (λ r. r.pubkey) block.revoked))

module _ (hash_of_identity : IdentityDto → String) (hash_of_tx : TransactionDto → String)
    (block : BlockDto) (conf : ConfDto) where
  -- On the rows of a block, the rule of membership unicity holds exactly when no public key occurs
  -- twice among its joiners, actives, leavers and revocations taken together.
  pub check_membership_unicity_iff :
      Succeeds (check_membership_unicity (local_index hash_of_identity hash_of_tx block conf))
      ↔ Distinct (changed_keys block)
  unfolding check_membership_unicity
  check_membership_unicity_iff =
      rw (keys_of-mindex-local_index hash_of_identity hash_of_tx block conf)
        (require-Distinct_iff (changed_keys block) _)

  -- On the rows of a block, the rule of public keys holds exactly when its identities have
  -- different public keys.
  pub check_identities_pubkey_conflict_iff :
      Succeeds
        (check_identities_pubkey_conflict (local_index hash_of_identity hash_of_tx block conf))
      ↔ Distinct (map (λ i. i.pubkey) block.identities)
  unfolding check_identities_pubkey_conflict iindex_create
  check_identities_pubkey_conflict_iff =
      rw (created_keys-iindex-local_index hash_of_identity hash_of_tx block conf)
        (require-Distinct_iff (map (λ i. i.pubkey) block.identities) _)

scan_pubkeys-append :
    (seen : List String) (c : Bool) (xs ys : List String)
    → scan_pubkeys seen c (xs ++ ys)
      ≡ scan_pubkeys (scan_pubkeys seen c xs).0 (scan_pubkeys seen c xs).1 ys
unfolding scan_pubkeys
scan_pubkeys-append seen c [] ys = refl
scan_pubkeys-append seen true (x ∷ xs) [] = refl
scan_pubkeys-append seen true (x ∷ xs) (y ∷ ys) = refl
scan_pubkeys-append seen false (x ∷ xs) ys =
    scan_pubkeys-append (seen ++ x ∷ []) (includes x seen) xs ys

Fresh-snoc :
    (y : String) (seen xs : List String)
    → Fresh (seen ++ y ∷ []) xs ↔ (Fresh seen xs × (includes y xs ≡ false))
Fresh-snoc y seen [] = ground arith
Fresh-snoc y seen (x ∷ xs) =
    ground
      (arith, str_eq_iff y x, str_eq_iff x y, includes-append x seen (y ∷ []), Fresh-snoc y seen xs)

scan_pubkeys-stopped : (seen xs : List String) → (scan_pubkeys seen true xs).1 ≡ true
unfolding scan_pubkeys
scan_pubkeys-stopped seen [] = refl
scan_pubkeys-stopped seen (x ∷ xs) = refl

scan_pubkeys_iff :
    (seen xs : List String)
    → ((scan_pubkeys seen false xs).1 ≡ false) ↔ (Distinct xs × Fresh seen xs)
unfolding scan_pubkeys
scan_pubkeys_iff seen [] = ground arith
scan_pubkeys_iff seen (x ∷ xs) = elim (Bool-cases (includes x seen)) [
  | inl old ↦ rw old (ground (arith, scan_pubkeys-stopped (seen ++ x ∷ []) xs))
  | inr new ↦ rw new (ground (arith, scan_pubkeys_iff (seen ++ x ∷ []) xs, Fresh-snoc x seen xs))
]

abbrev scan_after : List String × Bool → List String → List String × Bool
scan_after (seen, c) xs = scan_pubkeys seen c xs

four_loops :
    (joiners actives leavers excluded : List String)
    → scan_after (scan_after (scan_after (scan_after ([], false) joiners) actives) leavers) excluded
      ≡ scan_pubkeys [] false (joiners ++ (actives ++ (leavers ++ excluded)))
four_loops js acts ls es =
    let first = scan_pubkeys [] false js in
    let second = scan_pubkeys first.0 first.1 acts in
    sym (
      scan_pubkeys-append [] false js (acts ++ (ls ++ es))
      ∙ scan_pubkeys-append first.0 first.1 acts (ls ++ es)
      ∙ scan_pubkeys-append second.0 second.1 ls es)

-- The four loops on the public keys stop without a conflict exactly when no key occurs twice among
-- the joiners, actives, leavers and excluded of the block taken together.
pub check_pubkey_unicity_iff :
    (block : BlockDto)
    → Succeeds (check_pubkey_unicity block)
      ↔ Distinct (
          map (λ ms. ms.issuer) block.joiners
          ++ (map (λ ms. ms.issuer) block.actives
              ++ (map (λ ms. ms.issuer) block.leavers ++ block.excluded)))
unfolding check_pubkey_unicity
check_pubkey_unicity_iff block =
    let js = map (λ ms. ms.issuer) block.joiners in
    let as' = map (λ ms. ms.issuer) block.actives in
    let ls = map (λ ms. ms.issuer) block.leavers in
    let all = js ++ (as' ++ (ls ++ block.excluded)) in
    rw (four_loops js as' ls block.excluded) (
      ground (
        arith,
        Succeeds-require (not (scan_pubkeys [] false all).1)
            "Block cannot contain a same pubkey more than once in joiners, actives, leavers and excluded",
        scan_pubkeys_iff [] all,
        Fresh-nil all,
      ))
