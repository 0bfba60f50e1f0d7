-- ===== src/Enrichment/Identities.antt =====
-- app/lib/indexer.ts, the rules that complete the iindex: BR_G19 (`prepareIdentitiesAge`), BR_G20,
-- BR_G21, BR_G33, BR_G35 and BR_G36.
use duniter.Base.{
  ◌+◌, Bool, true, false, not, ◌&&◌, ◌||◌, Option, none, some, List, ◌==◌, str_eq, if◌then◌else◌,
  length, filter_by, map,
}
use duniter.Base.Int.{pos}
use duniter.Index.{IindexEntry, MindexEntry, is_create}
use duniter.Enrichment.{IndexDal, Scope, last_given, truthy, is_stored_member, age_of}

-- BR_G19
unfoldable pub prepare_identity_age : IndexDal → Scope → IindexEntry → IindexEntry
unfolding age_of
prepare_identity_age dal s e = record e {
  age =
      if is_create e.op
      then (elim e.created_on [
        | none ↦ pos (s.conf.idty_window + 1)
        | some stamp ↦ age_of dal s (s.conf.idty_window + 1) stamp
      ])
      else e.age;
}

-- BR_G20
unfoldable pub set_uid_unique : IndexDal → IindexEntry → IindexEntry
set_uid_unique dal e = record e {
  uid_unique =
      if is_create e.op
      then elim e.uid [ none ↦ true | some uid ↦ length (dal.find_by_uid uid) == 0 ]
      else true;
}

-- BR_G21
unfoldable pub set_pub_unique : IndexDal → IindexEntry → IindexEntry
set_pub_unique dal e = record e {
  pub_unique = if is_create e.op then length (dal.find_by_pub e.pub_key) == 0 else true;
}

abbrev is_false : Option Bool → Bool
is_false none = false
is_false (some b) = not b

-- BR_G33
unfoldable pub set_excluded_is_member : IndexDal → IindexEntry → IindexEntry
set_excluded_is_member dal e = record e {
  excluded_is_member = if is_false e.member then is_stored_member dal e.pub_key else true;
}

-- BR_G35
unfoldable pub set_is_being_kicked : IindexEntry → IindexEntry
set_is_being_kicked e = record e { is_being_kicked = is_false e.member }

-- BR_G36, with the mindex that BR_G34 completed
unfoldable pub set_has_to_be_excluded : IndexDal → List MindexEntry → IindexEntry → IindexEntry
set_has_to_be_excluded dal mindex e = record e {
  has_to_be_excluded =
      truthy (last_given (λ r. r.kick) (dal.iindex_reducable e.pub_key))
      || length
          (filter_by (λ (m : MindexEntry). m.is_being_revoked && str_eq m.pub_key e.pub_key) mindex)
        == 1;
}

-- The rules in their order, on one row.
unfoldable pub complete_identity : IndexDal → Scope → List MindexEntry → IindexEntry → IindexEntry
unfolding prepare_identity_age set_uid_unique set_pub_unique set_excluded_is_member
    set_is_being_kicked set_has_to_be_excluded
complete_identity dal s mindex e = set_has_to_be_excluded dal mindex (
    set_is_being_kicked (
      set_excluded_is_member dal
        (set_pub_unique dal (set_uid_unique dal (prepare_identity_age dal s e)))))

unfoldable pub complete_iindex :
    IndexDal → Scope → List MindexEntry → List IindexEntry → List IindexEntry
unfolding complete_identity
complete_iindex dal s mindex rows = map (complete_identity dal s mindex) rows
