-- ===== src/Enrichment/Memberships.antt =====
-- app/lib/indexer.ts, the rules that complete the mindex: BR_G34, BR_G107, BR_G22
-- (`prepareMembershipsAge`), BR_G23, BR_G25 to BR_G32, with `sigCheckRevoke`. BR_G24 is told whether
-- a member of the block is too far from the others.
use duniter.Base.{
  ℕ, ◌+◌, Bool, true, false, not, ◌&&◌, String, Option, none, some, List, ◌++◌, ◌==◌, str_eq, ltb,
  leb, if◌then◌else◌, length, filter_by, map, uniq,
}
use duniter.Index.{MindexEntry, CindexEntry, MembershipType, is_update}
use duniter.Enrichment.{
  IndexDal, Scope, StoredCert, WrittenIdty, last_given, is_given, is_stored_member, age_of, time_1,
}

-- BR_G34
unfoldable pub set_is_being_revoked : MindexEntry → MindexEntry
set_is_being_revoked e = record e { is_being_revoked = is_given e.revoked_on }

-- BR_G107, in force since a date
unfoldable pub set_ms_unchainables : IndexDal → Scope → MindexEntry → MindexEntry
set_ms_unchainables dal s e = record e {
  unchainables =
      if ltb 0 s.head.number && not (is_given e.revocation) && leb 1498860000 s.head.median_time
      then length (dal.find_by_pub_and_chainable_on_gt e.pub_key (time_1 s))
      else e.unchainables;
}

-- BR_G22
unfoldable pub prepare_membership_age : IndexDal → Scope → MindexEntry → MindexEntry
unfolding age_of
prepare_membership_age dal s e = record e {
  age = if is_given e.revoked_on then e.age else age_of dal s (s.conf.ms_window + 1) e.created_on;
}

-- BR_G23
unfoldable pub set_number_following : IndexDal → MindexEntry → MindexEntry
set_number_following dal e = record e {
  number_following =
      if is_given e.revoked_on
      then true
      else elim (last_given (λ r. r.created_on) (dal.mindex_reducable e.pub_key)) [
        | none ↦ true
        | some stamp ↦ ltb stamp.number e.created_on.number
      ];
}

-- `if (x)` on a number that may be null
abbrev pub is_nonzero : Option ℕ → Bool
is_nonzero none = false
is_nonzero (some n) = ltb 0 n

-- BR_G24
unfoldable pub set_distance_ok : Bool → MindexEntry → MindexEntry
set_distance_ok one_is_outdistanced e = record e {
  distance_ok = if is_nonzero e.expires_on then not one_is_outdistanced else true;
}

-- BR_G25
unfoldable pub set_on_revoked : IndexDal → MindexEntry → MindexEntry
set_on_revoked dal e = record e {
  on_revoked = is_given (last_given (λ r. r.revoked_on) (dal.mindex_reducable e.pub_key));
}

abbrev is_zero : Option ℕ → Bool
is_zero none = false
is_zero (some n) = n == 0

-- BR_G26
unfoldable pub set_joins_twice : IndexDal → MindexEntry → MindexEntry
set_joins_twice dal e = record e {
  joins_twice =
      if is_update e.op && is_zero e.expired_on
      then is_stored_member dal e.pub_key
      else e.joins_twice;
}

abbrev pub is_join_or_active : Option MembershipType → Bool
is_join_or_active none = false
is_join_or_active (some t) = elim t [
  | MembershipType.leave ↦ false
  | MembershipType.join ↦ true
  | MembershipType.active ↦ true
]

abbrev pub is_leave : Option MembershipType → Bool
is_leave none = false
is_leave (some t) = elim t [
  | MembershipType.leave ↦ true
  | MembershipType.join ↦ false
  | MembershipType.active ↦ false
]

abbrev pub is_active : Option MembershipType → Bool
is_active none = false
is_active (some t) = elim t [
  | MembershipType.leave ↦ false
  | MembershipType.join ↦ false
  | MembershipType.active ↦ true
]

-- Those who certify a key, in the store and in the block, each once.
unfoldable pub certifiers_of : IndexDal → List CindexEntry → String → List String
certifiers_of dal cindex key =
    let existing = map (λ (c : StoredCert). c.issuer) (dal.find_by_receiver_and_expired_on key 0) in
    let pending =
      map (λ (c : CindexEntry). c.issuer)
        (filter_by (λ (c : CindexEntry). str_eq c.receiver key && c.expired_on == 0) cindex) in
    uniq (existing ++ pending)

-- BR_G27
unfoldable pub set_enough_certs : IndexDal → Scope → List CindexEntry → MindexEntry → MindexEntry
unfolding certifiers_of
set_enough_certs dal s cindex e = record e {
  enough_certs =
      if is_join_or_active e.ms_type
      then leb s.conf.sig_qty (length (certifiers_of dal cindex e.pub_key))
      else true;
}

-- BR_G28, BR_G29
unfoldable pub set_leaver_is_member : IndexDal → MindexEntry → MindexEntry
set_leaver_is_member dal e = record e {
  leaver_is_member = if is_leave e.ms_type then is_stored_member dal e.pub_key else true;
}

unfoldable pub set_active_is_member : IndexDal → MindexEntry → MindexEntry
set_active_is_member dal e = record e {
  active_is_member = if is_active e.ms_type then is_stored_member dal e.pub_key else true;
}

-- BR_G30, BR_G31
unfoldable pub set_revoked_is_member : IndexDal → MindexEntry → MindexEntry
set_revoked_is_member dal e = record e {
  revoked_is_member = if is_given e.revoked_on then is_stored_member dal e.pub_key else true;
}

unfoldable pub set_already_revoked : IndexDal → MindexEntry → MindexEntry
set_already_revoked dal e = record e {
  already_revoked =
      if is_given e.revoked_on
      then is_given (last_given (λ r. r.revoked_on) (dal.mindex_reducable e.pub_key))
      else false;
}

abbrev or_empty : Option String → String
or_empty none = ""
or_empty (some t) = t

-- How the text of a document is made and its signature verified is a parameter: for a revocation,
-- the currency, the identity and the signature; the key is the one of the row.
module _ (revocation_signed : String → WrittenIdty → String → String → Bool) where
  -- Every error is caught and answers false.
  unfoldable pub sig_check_revoke : IndexDal → String → MindexEntry → Bool
  sig_check_revoke dal currency e = elim (dal.get_written_idty e.pub_key) [
    | none ↦ false
    | some idty ↦
        if idty.is_revoked
        then false
        else revocation_signed currency idty (or_empty e.revocation) e.pub_key
  ]

  -- BR_G32
  unfoldable pub set_revocation_sig_ok : IndexDal → Scope → MindexEntry → MindexEntry
  unfolding sig_check_revoke
  set_revocation_sig_ok dal s e = record e {
    revocation_sig_ok =
        if is_given e.revoked_on then sig_check_revoke dal s.block.currency e else true;
  }

  -- The rules in their order, on one row.
  unfoldable pub complete_membership :
      IndexDal → Scope → Bool → List CindexEntry → MindexEntry → MindexEntry
  unfolding set_is_being_revoked set_ms_unchainables prepare_membership_age set_number_following
      set_distance_ok set_on_revoked set_joins_twice set_enough_certs set_leaver_is_member
      set_active_is_member set_revoked_is_member set_already_revoked set_revocation_sig_ok
  complete_membership dal s one_is_outdistanced cindex e =
      let e₁ = set_ms_unchainables dal s (set_is_being_revoked e) in
      let e₂ = set_number_following dal (prepare_membership_age dal s e₁) in
      let e₃ = set_on_revoked dal (set_distance_ok one_is_outdistanced e₂) in
      let e₄ = set_enough_certs dal s cindex (set_joins_twice dal e₃) in
      let e₅ = set_active_is_member dal (set_leaver_is_member dal e₄) in
      set_revocation_sig_ok dal s (set_already_revoked dal (set_revoked_is_member dal e₅))

  unfoldable pub complete_mindex :
      IndexDal → Scope → Bool → List CindexEntry → List MindexEntry → List MindexEntry
  unfolding complete_membership
  complete_mindex dal s one_is_outdistanced cindex rows =
      map (complete_membership dal s one_is_outdistanced cindex) rows
