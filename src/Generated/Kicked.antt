-- ===== src/Generated/Kicked.antt =====
-- About BR_G95, the exclusion of the members who have too few certifications left.
use duniter.Base.{
  ◌≡◌, refl, sym, ◌∙◌, ap, Bool, true, false, not, ◌&&◌, ◌||◌, inl, inr, String, str_eq, str_eq_iff,
  List, [], ◌∷◌, ◌++◌, map, filter_by, includes, uniq_from, uniq, All, arith, Bool-cases,
  some_of-append, if◌then◌else◌,
}
use mathlib.Core.Bool.{or-false}
use mathlib.Core.List.{append-nil, append_assoc}
use duniter.Base.Outcome.{done}
use duniter.Head.{DbHead, ConfDto}
use duniter.Generated.{
  GenerationDal, CertView, IdtyView, Exclusion, exclusion_of, is_expired, is_excluded, is_kicked,
  has_too_few, exclude_one, exclude_all, gen_exclusion_by_certificatons,
}

module _ (dal : GenerationDal) (head : DbHead) (conf : ConfDto) (cindex : List CertView)
    (iindex : List IdtyView) (member : String → Bool) where
  -- The members whose certifications do not suffice any more, and whom the block does not exclude.
  abbrev pub is_dismissed : String → Bool
  is_dismissed key = has_too_few dal conf cindex key && (not (is_excluded iindex key) && member key)

  abbrev pub IsStored : CertView → Type 0
  IsStored c = dal.member_of_full c.receiver ≡ done (member c.receiver)

  abbrev dismissed_from : List String → List CertView → List Exclusion
  dismissed_from seen certs =
      map (exclusion_of head)
        (filter_by is_dismissed (uniq_from seen (map (λ c. c.receiver) certs)))

  abbrev Recorded : List Exclusion → List String → Type 0
  Recorded exclusions seen =
      (key : String) → is_kicked exclusions key ≡ (includes key seen && is_dismissed key)

  exclude_one-lem :
      (exclusions : List Exclusion) (seen : List String) (key : String)
      → Recorded exclusions seen
      → dal.member_of_full key ≡ done (member key)
      → exclude_one dal head conf cindex iindex exclusions key
        ≡ done (
            if not (includes key seen) && is_dismissed key
            then exclusions ++ exclusion_of head key ∷ []
            else exclusions)
  unfolding exclude_one
  exclude_one-lem exclusions seen key recorded stored = rw stored (ground (arith, recorded key))

  is_kicked-snoc :
      (exclusions : List Exclusion) (x key : String)
      → is_kicked (exclusions ++ exclusion_of head x ∷ []) key
        ≡ (is_kicked exclusions key || str_eq x key)
  is_kicked-snoc exclusions x key =
      ground
        (arith, some_of-append (λ e. str_eq e.pub_key key) exclusions (exclusion_of head x ∷ []))

  record_kicked :
      (exclusions : List Exclusion) (seen : List String) (x : String)
      → Recorded exclusions seen
      → is_dismissed x ≡ true
      → Recorded (exclusions ++ exclusion_of head x ∷ []) (x ∷ seen)
  record_kicked exclusions seen x recorded out key =
      is_kicked-snoc exclusions x key
      ∙ (rw (recorded key) (elim (Bool-cases (str_eq x key)) [
        | inl same ↦
            rw same (rw (sym (ap is_dismissed ((str_eq_iff x key).0 same)) ∙ out) (ground arith))
        | inr other ↦ rw other (or-false _)
      ]))

  record_kept :
      (exclusions : List Exclusion) (seen : List String) (x : String)
      → Recorded exclusions seen
      → is_dismissed x ≡ false
      → Recorded exclusions (x ∷ seen)
  record_kept exclusions seen x recorded kept key =
      rw (recorded key) (elim (Bool-cases (str_eq x key)) [
        | inl same ↦
            rw same (rw (sym (ap is_dismissed ((str_eq_iff x key).0 same)) ∙ kept) (ground arith))
        | inr other ↦ rw other refl
      ])

  -- The loop, after certifications of the keys seen.
  exclude_all_from :
      (exclusions : List Exclusion) (seen : List String) (certs : List CertView)
      → Recorded exclusions seen
      → All IsStored certs
      → exclude_all dal head conf cindex iindex exclusions certs
        ≡ done (exclusions ++ dismissed_from seen certs)
  unfolding exclude_all
  exclude_all_from exclusions seen [] recorded stored = ap done (sym (append-nil exclusions))
  exclude_all_from exclusions seen (c ∷ certs) recorded stored =
      let x = c.receiver in
      rw (exclude_one-lem exclusions seen x recorded stored.0)
        (elim (Bool-cases (includes x seen)) [
          | inl old ↦ rw old (exclude_all_from exclusions seen certs recorded stored.1)
          | inr new ↦ rw new (elim (Bool-cases (is_dismissed x)) [
            | inl out ↦ rw out (
                exclude_all_from (exclusions ++ exclusion_of head x ∷ []) (x ∷ seen) certs
                  (record_kicked exclusions seen x recorded out) stored.1
                ∙ ap done (append_assoc exclusions (exclusion_of head x ∷ []) _))
            | inr kept ↦ rw kept (
                exclude_all_from exclusions (x ∷ seen) certs
                  (record_kept exclusions seen x recorded kept) stored.1)
          ])
        ])

  -- When the store holds the receivers of the expired certifications of the block, the loop gives
  -- exactly one exclusion for each of those receivers that is a member, that the block does not
  -- exclude already and that has too few certifications left, in the order of their first one.
  pub gen_exclusion_by_certificatons-lem :
      All IsStored (filter_by is_expired cindex)
      → gen_exclusion_by_certificatons dal head conf cindex iindex
        ≡ done (
            map
              (exclusion_of head)
              (filter_by is_dismissed (uniq (map (λ c. c.receiver) (filter_by is_expired cindex)))))
  unfolding gen_exclusion_by_certificatons
  gen_exclusion_by_certificatons-lem stored =
      exclude_all_from [] [] (filter_by is_expired cindex) (λ key. refl) stored
