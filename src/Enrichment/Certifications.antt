-- ===== src/Enrichment/Certifications.antt =====
-- app/lib/indexer.ts, the rules that complete the cindex: BR_G37 (`prepareCertificationsAge`), BR_G38 to
-- BR_G45, with `checkCertificationIsValid` and `getInlineIdentity` of app/lib/dto/BlockDTO.ts.
use duniter.Base.{
  ℕ, ◌+◌, Bool, false, not, ◌&&◌, ◌||◌, String, Option, none, some, List, [], ◌∷◌, ◌==◌, str_eq,
  ltb, if◌then◌else◌, length, filter_by,
}
use duniter.Base.Int.{pos, ◌-ℤ◌}
use duniter.Base.Outcome.{Outcome, done, throw, ◌>>=◌, map_all}
use duniter.Block.{Blockstamp, special_block, BlockDto, IdentityDto}
use duniter.Head.{DbHead}
use duniter.Index.{IindexEntry, CindexEntry}
use duniter.GlobalRules.ProofOfWork.{codes}
use duniter.LocalRules.Txs.{starts_with}
use duniter.Enrichment.{IndexDal, Scope, Tristamp, last_given, truthy, is_stored_member, time_1}

-- BR_G37
unfoldable pub prepare_certification_age : IndexDal → Scope → CindexEntry → CindexEntry
prepare_certification_age dal s e = record e {
  age = if s.head.number == 0 then pos 0 else elim (dal.get_tristamp_of e.created_on) [
    | none ↦ pos (s.conf.sig_window + 1)
    | some r ↦ pos (time_1 s) -ℤ pos r.median_time
  ];
}

-- BR_G38
unfoldable pub set_cert_unchainables : IndexDal → Scope → CindexEntry → CindexEntry
set_cert_unchainables dal s e = record e {
  unchainables =
      if ltb 0 s.head.number
      then length (dal.find_by_issuer_and_chainable_on_gt e.issuer (time_1 s))
      else e.unchainables;
}

-- BR_G39
unfoldable pub set_stock : IndexDal → CindexEntry → CindexEntry
set_stock dal e = record e { stock = length (dal.get_valid_links_from e.issuer) }

-- BR_G40, BR_G41
unfoldable pub set_from_member : IndexDal → CindexEntry → CindexEntry
set_from_member dal e = record e { from_member = is_stored_member dal e.issuer }

unfoldable pub set_to_member : IndexDal → CindexEntry → CindexEntry
set_to_member dal e = record e { to_member = is_stored_member dal e.receiver }

-- BR_G42
unfoldable pub set_to_newcomer : List IindexEntry → CindexEntry → CindexEntry
set_to_newcomer iindex e = record e {
  to_newcomer = ltb 0 (
      length
        (filter_by (λ (i : IindexEntry). truthy i.member && str_eq i.pub_key e.receiver) iindex));
}

-- BR_G43
unfoldable pub set_to_leaver : IndexDal → CindexEntry → CindexEntry
set_to_leaver dal e = record e {
  to_leaver = truthy (last_given (λ r. r.leaving) (dal.mindex_reducable e.receiver));
}

abbrev is_zero : Option ℕ → Bool
is_zero none = false
is_zero (some n) = n == 0

-- A comparison with an undefined field is false.
abbrev is_before : ℕ → Option ℕ → Bool
is_before bound none = false
is_before bound (some n) = ltb n bound

abbrev pub is_above_10 : Option DbHead → Bool
is_above_10 none = false
is_above_10 (some h) = ltb 10 h.version

-- BR_G44 and BR_G44.2
unfoldable pub set_replay : IndexDal → Scope → CindexEntry → CindexEntry
set_replay dal s e =
    let reducable = dal.find_by_issuer_and_receiver e.issuer e.receiver in
    record e {
      is_replay = ltb 0 (length reducable) && is_zero (last_given (λ r. r.expired_on) reducable);
      is_replayable =
          if ltb 0 s.head.number && is_above_10 s.head_1
          then length reducable == 0
            || is_before (time_1 s) (last_given (λ r. r.replayable_on) reducable)
          else false;
    }

-- The first identity of the block whose line begins with the key.
unfoldable pub get_inline_identity : List IdentityDto → String → Option IdentityDto
get_inline_identity [] key = none
get_inline_identity (i ∷ is) key =
    if starts_with (codes key) (codes i.pubkey) then some i else get_inline_identity is key

-- What the check of a certification reads of an identity.
pub record CertifiedIdty : Type 0 where
  pub pubkey : String
  pub uid : String
  pub buid : Blockstamp
  pub sig : String

unfoldable pub find_idty : IndexDal → BlockDto → String → Option CertifiedIdty
unfolding get_inline_identity
find_idty dal block key = elim (get_inline_identity block.identities key) [
  | some i ↦ some (record { pubkey = i.pubkey; uid = i.uid; buid = i.buid; sig = i.sig })
  | none ↦ elim (dal.get_written_idty key) [
    | none ↦ none
    | some i ↦ some (record { pubkey = i.pub_key; uid = i.uid; buid = i.created_on; sig = i.sig })
  ]
]

abbrev special_tristamp : Tristamp
special_tristamp = record { number = 0; hash = special_block.hash; median_time = 0 }

-- Whether the current block is later than the certification remains valid.
unfoldable pub has_expired : IndexDal → Scope → Tristamp → Bool
has_expired dal s based = if s.block.number == 0 then false else elim dal.get_current_block [
  | none ↦ false
  | some current ↦ ltb (based.median_time + s.conf.sig_validity) current.median_time
]

-- The verification of the signature of a certification is a parameter: the currency, the identity
-- that is certified, the block that the certification refers to, its signature, its issuer.
module _ (certification_signed : String → CertifiedIdty → Blockstamp → String → String → Bool) where
  -- The checks inside the `try`.
  unfoldable pub is_certified : IndexDal → Scope → CindexEntry → Tristamp → Bool
  unfolding find_idty has_expired
  is_certified dal s cert based = elim (find_idty dal s.block cert.receiver) [
    | none ↦ false
    | some idty ↦
        not (has_expired dal s based)
        && not (str_eq cert.issuer idty.pubkey)
        && certification_signed s.conf.currency idty
            (record { number = cert.created_on; hash = based.hash }) cert.sig cert.issuer
  ]

  unfoldable pub check_certification_is_valid : IndexDal → Scope → CindexEntry → Outcome Bool
  unfolding is_certified
  check_certification_is_valid dal s cert =
      if s.block.number == 0
      then (if cert.created_on == 0
          then done (is_certified dal s cert special_tristamp)
          else throw "Number must be 0 for root block's certifications")
      else elim (dal.get_tristamp_of cert.created_on) [
        | none ↦ done false
        | some based ↦ done (is_certified dal s cert based)
      ]

  -- BR_G45 after the other rules, on one row.
  unfoldable pub complete_certification :
      IndexDal → Scope → List IindexEntry → CindexEntry → Outcome CindexEntry
  unfolding prepare_certification_age set_cert_unchainables set_stock set_from_member set_to_member
      set_to_newcomer set_to_leaver set_replay check_certification_is_valid
  complete_certification dal s iindex e =
      let e₁ = set_cert_unchainables dal s (prepare_certification_age dal s e) in
      let e₂ = set_to_member dal (set_from_member dal (set_stock dal e₁)) in
      let e₃ = set_replay dal s (set_to_leaver dal (set_to_newcomer iindex e₂)) in
      check_certification_is_valid dal s e₃ >>= λ ok. done (record e₃ { sig_ok = ok })

  unfoldable pub complete_cindex :
      IndexDal → Scope → List IindexEntry → List CindexEntry → Outcome (List CindexEntry)
  unfolding complete_certification
  complete_cindex dal s iindex rows = map_all (complete_certification dal s iindex) rows
