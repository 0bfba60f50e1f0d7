-- ===== src/LocalRules/Documents.antt =====
-- The rules on identities, memberships and certifications (app/lib/rules/local_rules.ts).
use Prim.Native.String
use duniter.Base.{
  Bool, true, false, not, ◌&&◌, ◌||◌, String, Option, none, some, List, [], ◌∷◌, ◌++◌, map,
  filter_by, every, some_of, length, includes, uniq, ltb, ◌==◌, str_eq, if◌then◌else◌,
}
use duniter.Base.Outcome.{Outcome, done, throw, require}
use duniter.Block.{BlockDto, IdentityDto, MembershipDto}
use duniter.Index.{
  is_update, IndexEntry, IindexEntry, MindexEntry, iindex, mindex, cindex, iindex_create,
  mindex_create,
}
use duniter.GlobalRules.Rows.{leaves}

-- The loop throws at the first identity whose signature does not match.
unfoldable pub check_identities_signature : (IdentityDto → Bool) → BlockDto → Outcome (Unit {0})
check_identities_signature verified block =
    require (every verified block.identities) "Identity's signature must match"

-- `texts.length !== uniq(texts).length`
abbrev pub all_distinct : List String → Bool
all_distinct ts = length ts == length (uniq ts)

abbrev pub text_or_empty : Option String → String
text_or_empty none = ""
text_or_empty (some s) = s

-- A created identity has a uid.
unfoldable pub check_identities_user_id_conflict : List IndexEntry → Outcome (Unit {0})
check_identities_user_id_conflict index =
    require (all_distinct (map (λ e. text_or_empty e.uid) (iindex_create index)))
      "Block must not contain twice same identity uid"

unfoldable pub check_identities_pubkey_conflict : List IndexEntry → Outcome (Unit {0})
check_identities_pubkey_conflict index =
    require (all_distinct (map (λ e. e.pub_key) (iindex_create index)))
      "Block must not contain twice same identity pubkey"

unfoldable pub check_identities_match_join : List IndexEntry → Outcome (Unit {0})
check_identities_match_join index =
    require
      (every (λ i. some_of (λ m. str_eq m.pub_key i.pub_key) (mindex_create index))
        (iindex_create index))
      "Each identity must match a newcomer line with same userid and certts"

abbrev pub is_revocation : MindexEntry → Bool
is_revocation e = is_update e.op && elim e.revoked_on [ none ↦ false | some s ↦ true ]

-- `where(iindex, { op: UPDATE, member: false, pub })` finds a row.
abbrev pub is_excluded : List IindexEntry → String → Bool
is_excluded rows key = some_of (λ e. is_update e.op && (leaves e && str_eq e.pub_key key)) rows

unfoldable pub check_revoked_are_excluded : List IndexEntry → Outcome (Unit {0})
check_revoked_are_excluded index =
    require
      (every (is_excluded (iindex index))
        (map (λ e. e.pub_key) (filter_by is_revocation (mindex index))))
      "A revoked member must be excluded"

unfoldable pub check_membership_unicity : List IndexEntry → Outcome (Unit {0})
check_membership_unicity index =
    require (all_distinct (map (λ e. e.pub_key) (mindex index)))
      "Unicity constraint PUBLIC_KEY on MINDEX is not respected"

-- The error of `checkMembershipUnicity` is caught and another one thrown.
unfoldable pub check_revoked_unicity : List IndexEntry → Outcome (Unit {0})
check_revoked_unicity index = elim (check_membership_unicity index) [
  | done u ↦ done u
  | throw e ↦ throw "A single revocation per member is allowed"
]

-- The three loops share the flag that stops them.
unfoldable pub check_memberships_signature :
    (MembershipDto → Bool) → (MembershipDto → Bool) → BlockDto → Outcome (Unit {0})
check_memberships_signature verified_in verified_out block =
    require
      (every verified_in block.joiners
        && (every verified_in block.actives && every verified_out block.leavers))
      "Membership's signature must match"

-- A loop of `checkPubkeyUnicity`: the keys seen so far, and whether a conflict has stopped it.
unfoldable pub scan_pubkeys : List String → Bool → List String → List String × Bool
scan_pubkeys seen conflict [] = (seen, conflict)
scan_pubkeys seen true (key ∷ keys) = (seen, true)
scan_pubkeys seen false (key ∷ keys) = scan_pubkeys (seen ++ key ∷ []) (includes key seen) keys

unfoldable pub check_pubkey_unicity : BlockDto → Outcome (Unit {0})
unfolding scan_pubkeys
check_pubkey_unicity block =
    let (s1, c1) = scan_pubkeys [] false (map (λ ms. ms.issuer) block.joiners) in
    let (s2, c2) = scan_pubkeys s1 c1 (map (λ ms. ms.issuer) block.actives) in
    let (s3, c3) = scan_pubkeys s2 c2 (map (λ ms. ms.issuer) block.leavers) in
    let (s4, c4) = scan_pubkeys s3 c3 block.excluded in
    require (not c4)
      "Block cannot contain a same pubkey more than once in joiners, actives, leavers and excluded"

unfoldable pub check_certification_one_by_issuer : BlockDto → List IndexEntry → Outcome (Unit {0})
check_certification_one_by_issuer block index =
    if ltb 0 block.number
    then require (all_distinct (map (λ e. e.issuer) (cindex index)))
        "Block cannot contain two certifications from same issuer"
    else done tt

unfoldable pub check_certification_unicity : List IndexEntry → Outcome (Unit {0})
check_certification_unicity index =
    require (all_distinct (map (λ e. String.◌++◌ e.issuer e.receiver) (cindex index)))
      "Block cannot contain identical certifications (A -> B)"

abbrev pub is_leaving : List MindexEntry → String → Bool
is_leaving rows key =
    some_of
      (λ e.
        is_update e.op && (elim e.leaving [ none ↦ false | some l ↦ l ] && str_eq e.pub_key key))
      rows

unfoldable pub check_certification_isnt_for_leaver_or_excluded :
    List IndexEntry → Outcome (Unit {0})
check_certification_isnt_for_leaver_or_excluded index =
    require
      (every
        (λ c. not (is_excluded (iindex index) c.receiver || is_leaving (mindex index) c.receiver))
        (cindex index))
      "Block cannot contain certifications concerning leavers or excluded members"
