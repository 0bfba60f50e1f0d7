-- ===== src/Generated.antt =====
-- app/lib/indexer.ts, the rows on identities, memberships and certifications that a block generates
-- by itself: BR_G92 to BR_G96, in the order of `generateIndexes` of app/lib/dal/fileDAL.ts. A
-- generated row holds the fields that the source gives it; the rules read the views below.
pub mod Kicked
use duniter.Base.{
  ℕ, ◌+◌, ◌==◌, leb, ltb, Bool, true, false, not, ◌&&◌, Option, none, some, String, str_eq, List,
  [], ◌∷◌, ◌++◌, filter_by, map, length, if◌then◌else◌, some_of,
}
use duniter.Base.Int.{pos, ◌+ℤ◌, ◌-ℤ◌, ltb_ℤ}
use duniter.Base.Outcome.{Outcome, done, throw, ◌>>=◌}
use duniter.Block.{Blockstamp}
use duniter.Head.{DbHead, ConfDto}
use duniter.Index.{Op, update, IindexEntry, MindexEntry, CindexEntry}

pub record CertExpiry : Type 0 where
  pub op : Op
  pub issuer : String
  pub receiver : String
  pub created_on : ℕ
  pub written_on : Blockstamp
  pub expired_on : ℕ

pub record MsExpiry : Type 0 where
  pub op : Op
  pub pub_key : String
  pub created_on : Blockstamp
  pub written_on : Blockstamp
  pub expired_on : ℕ

pub record Exclusion : Type 0 where
  pub op : Op
  pub pub_key : String
  pub written_on : Blockstamp
  pub kick : Bool

pub record ImplicitRevocation : Type 0 where
  pub op : Op
  pub pub_key : String
  pub created_on : Blockstamp
  pub written_on : Blockstamp
  pub revoked_on : Blockstamp

-- The reduced rows that the rules ask the store for.
pub record ReducedCert : Type 0 where
  pub issuer : String
  pub receiver : String
  pub created_on : ℕ

pub record ReducedMs : Type 0 where
  pub pub_key : String
  pub created_on : Blockstamp
  pub revokes_on : ℕ
  pub revoked_on : Option Blockstamp

-- The store: `getFullFromPubkey` rejects a key that it does not hold, and gives the `member` of
-- the identity; the reduced membership may be null.
pub record GenerationDal : Type 0 where
  pub find_expires_on_lte_not_expired_yet : ℕ → List ReducedCert
  pub find_pubkeys_that_should_expire : ℕ → List ReducedMs
  pub member_of_full : String → Outcome Bool
  pub get_valid_links_to : String → List ReducedCert
  pub find_revokes_on_lte_and_revoked_on_is_null : ℕ → List String
  pub get_reduced_ms : String → Option ReducedMs

-- What the exclusions read of the rows.
pub record CertView : Type 0 where
  pub receiver : String
  pub expired_on : ℕ

pub record MsView : Type 0 where
  pub pub_key : String
  pub expired_on : Option ℕ

pub record IdtyView : Type 0 where
  pub pub_key : String
  pub member : Option Bool

abbrev pub stamp_of : DbHead → Blockstamp
stamp_of head = record { number = head.number; hash = head.hash }

-- BR_G92
unfoldable pub gen_certification_expiry : GenerationDal → DbHead → List CertExpiry
gen_certification_expiry dal head =
    map
      (λ (c : ReducedCert). record {
        op = update;
        issuer = c.issuer;
        receiver = c.receiver;
        created_on = c.created_on;
        written_on = stamp_of head;
        expired_on = head.median_time;
      })
      (dal.find_expires_on_lte_not_expired_yet head.median_time)

-- BR_G93
unfoldable pub gen_membership_expiry : GenerationDal → DbHead → List MsExpiry
gen_membership_expiry dal head =
    map
      (λ (ms : ReducedMs). record {
        op = update;
        pub_key = ms.pub_key;
        created_on = ms.created_on;
        written_on = stamp_of head;
        expired_on = head.median_time;
      })
      (dal.find_pubkeys_that_should_expire head.median_time)

abbrev pub exclusion_of : DbHead → String → Exclusion
exclusion_of head key = record {
  op = update;
  pub_key = key;
  written_on = stamp_of head;
  kick = true;
}

-- BR_G94
abbrev pub has_expired_ms : MsView → Bool
has_expired_ms ms = elim ms.expired_on [ none ↦ false | some time ↦ not (time == 0) ]

unfoldable pub exclude_members : GenerationDal → DbHead → List MsView → Outcome (List Exclusion)
exclude_members dal head [] = done []
exclude_members dal head (ms ∷ rows) = do
  member ← dal.member_of_full ms.pub_key
  rest ← exclude_members dal head rows
  done (if member then exclusion_of head ms.pub_key ∷ rest else rest)

unfoldable pub gen_exclusion_by_membership :
    GenerationDal → DbHead → List MsView → Outcome (List Exclusion)
unfolding exclude_members
gen_exclusion_by_membership dal head mindex =
    exclude_members dal head (filter_by has_expired_ms mindex)

-- BR_G95
abbrev pub is_expired : CertView → Bool
is_expired c = ltb 0 c.expired_on

abbrev pub is_excluded : List IdtyView → String → Bool
is_excluded iindex key =
    some_of
      (λ (i : IdtyView). elim i.member [ none ↦ false | some m ↦ not m && str_eq i.pub_key key ])
      iindex

abbrev pub is_kicked : List Exclusion → String → Bool
is_kicked exclusions key = some_of (λ (e : Exclusion). str_eq e.pub_key key) exclusions

-- The certifications left are compared as integers: more may expire than the store counts.
unfoldable pub has_too_few : GenerationDal → ConfDto → List CertView → String → Bool
has_too_few dal conf cindex key =
    let just_expired = filter_by (λ c. str_eq c.receiver key && is_expired c) cindex in
    let just_received = filter_by (λ c. str_eq c.receiver key && c.expired_on == 0) cindex in
    ltb_ℤ
      (pos (length (dal.get_valid_links_to key))
        -ℤ pos (length just_expired)
        +ℤ pos (length just_received))
      (pos conf.sig_qty)

module _ (dal : GenerationDal) (head : DbHead) (conf : ConfDto) (cindex : List CertView)
    (iindex : List IdtyView) where
  unfoldable pub exclude_one : List Exclusion → String → Outcome (List Exclusion)
  exclude_one exclusions key =
      if has_too_few dal conf cindex key
      then (dal.member_of_full key >>= λ member. done (
          if not (is_excluded iindex key) && not (is_kicked exclusions key) && member
          then exclusions ++ exclusion_of head key ∷ []
          else exclusions))
      else done exclusions

  unfoldable pub exclude_all : List Exclusion → List CertView → Outcome (List Exclusion)
  unfolding exclude_one
  exclude_all exclusions [] = done exclusions
  exclude_all exclusions (c ∷ certs) =
      exclude_one exclusions c.receiver >>= λ more. exclude_all more certs

  unfoldable pub gen_exclusion_by_certificatons : Outcome (List Exclusion)
  unfolding exclude_all
  gen_exclusion_by_certificatons = exclude_all [] (filter_by is_expired cindex)

-- BR_G96
unfoldable pub gen_implicit_revocation :
    GenerationDal → DbHead → List String → Outcome (List ImplicitRevocation)
gen_implicit_revocation dal head [] = done []
gen_implicit_revocation dal head (key ∷ keys) = elim (dal.get_reduced_ms key) [
  | none ↦ throw "Cannot read property 'revokes_on' of null"
  | some ms ↦ gen_implicit_revocation dal head keys >>= λ rest. done (
      if leb ms.revokes_on head.median_time
        && elim ms.revoked_on [ none ↦ true | some stamp ↦ false ]
      then record {
        op = update;
        pub_key = key;
        created_on = ms.created_on;
        written_on = stamp_of head;
        revoked_on = stamp_of head;
      }
        ∷ rest
      else rest)
]

abbrev pub ms_view : MindexEntry → MsView
ms_view ms = record { pub_key = ms.pub_key; expired_on = ms.expired_on }

abbrev pub expired_ms_view : MsExpiry → MsView
expired_ms_view ms = record { pub_key = ms.pub_key; expired_on = some ms.expired_on }

abbrev pub cert_view : CindexEntry → CertView
cert_view c = record { receiver = c.receiver; expired_on = c.expired_on }

abbrev pub expired_cert_view : CertExpiry → CertView
expired_cert_view c = record { receiver = c.receiver; expired_on = c.expired_on }

abbrev pub idty_view : IindexEntry → IdtyView
idty_view i = record { pub_key = i.pub_key; member = i.member }

abbrev pub kicked_view : Exclusion → IdtyView
kicked_view e = record { pub_key = e.pub_key; member = none }

-- The rows that `generateIndexes` adds to the iindex, the mindex and the cindex.
pub record GeneratedRows : Type 0 where
  pub cert_expiries : List CertExpiry
  pub ms_expiries : List MsExpiry
  pub exclusions : List Exclusion
  pub revocations : List ImplicitRevocation

unfoldable pub generate_rows :
    GenerationDal
    → DbHead
    → ConfDto
    → List MindexEntry
    → List IindexEntry
    → List CindexEntry
    → Outcome GeneratedRows
unfolding gen_exclusion_by_membership gen_exclusion_by_certificatons gen_implicit_revocation
generate_rows dal head conf mindex iindex cindex = do
  let certs = gen_certification_expiry dal head
  let mss = gen_membership_expiry dal head
  late ← gen_exclusion_by_membership dal head (map ms_view mindex ++ map expired_ms_view mss)
  short ←
      gen_exclusion_by_certificatons dal head conf
        (map cert_view cindex ++ map expired_cert_view certs)
        (map idty_view iindex ++ map kicked_view late)
  revoked ←
      gen_implicit_revocation dal head
        (dal.find_revokes_on_lte_and_revoked_on_is_null head.median_time)
  done (record {
    cert_expiries = certs;
    ms_expiries = mss;
    exclusions = late ++ short;
    revocations = revoked;
  })
