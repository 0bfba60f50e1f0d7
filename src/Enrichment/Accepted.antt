-- ===== src/Enrichment/Accepted.antt =====
-- About `checkBlock` from the block on: what an accepted block's own rows say against the store.
use duniter.Base.{
  ◌≡◌, sym, subst, ◌∙◌, Bool, true, false, not, ◌⊎◌, List, ◌++◌, map, lt→ltb, if◌then◌else◌, All,
  every_iff, inl, inr,
}
use duniter.Base.Floats.{Floats}
use duniter.Base.Outcome.{done, Succeeds, Succeeds->>, >>=-eq-done, map_all-eq-done}
use duniter.Block.{BlockDto}
use duniter.Head.{ConfDto}
use duniter.Index.{
  IndexEntry, IindexEntry, MindexEntry, CindexEntry, SindexEntry, i_index, m_index, c_index,
  s_index, iindex, mindex, cindex, sindex, is_update,
}
use duniter.GlobalRules.Rows.{inputs_of}
use duniter.GlobalRules.Check.{row_rules}
use duniter.GlobalRules.Passed.{Passes, rule_at}
use duniter.GlobalRules.Accepted.{check_block-row_rules}
use duniter.LocalRules.All.{
  all_local, all_local_but_pow_and_signature, IsLocallyValid, all_local-IsLocallyValid,
}
use duniter.Enrichment.{Scope}
use duniter.Enrichment.Identities.{complete_identity, complete_iindex}
use duniter.Enrichment.Memberships.{complete_membership, complete_mindex}
use duniter.Enrichment.Distance.{one_is_outdistanced}
use duniter.Enrichment.Certifications.{complete_certification, complete_cindex}
use duniter.Enrichment.Sources.{complete_row, complete_sindex}
use duniter.Enrichment.Facts.{
  IsSplit-i, All-map, All-imp, All-both, All-filtered, bind_parts, enough, cert_fact, row_fact,
  uid_fact, key_fact, certs_fact, IsUsable, IsSound,
}
use duniter.Enrichment.Complete.{
  Outside, NodeView, complete_index, rows_of_block, scope_of, checked_of, check_whole_block,
}

module _ {f : Floats} {W : Type 0} (x : Outside f W) (v : NodeView W) (block : BlockDto)
    (conf : ConfDto) where
  abbrev own_rows : List IndexEntry
  own_rows = rows_of_block x block conf

  abbrev scope : Scope
  scope = scope_of x v block conf

  -- The lists of a completed index.
  record IsCompleted (completed : List IndexEntry) : Type 0 where
    far : Bool
    cs : List CindexEntry
    ss : List SindexEntry
    identities :
        iindex completed
        ≡ complete_iindex v.dal scope
            (complete_mindex x.revocation_signed v.dal scope far
              (cindex own_rows)
              (mindex own_rows))
            (iindex own_rows)
    memberships :
        mindex completed
        ≡ complete_mindex x.revocation_signed v.dal scope far (cindex own_rows) (mindex own_rows)
    certifications :
        complete_cindex x.certification_signed v.dal scope (iindex completed) (cindex own_rows)
        ≡ done cs
    cs_are : cindex completed ≡ cs
    sources : complete_sindex x.source_engine v.dal scope (sindex own_rows) ≡ done ss
    ss_are : sindex completed ≡ ss

  IsCompleted-lists :
      (completed : List IndexEntry)
      → complete_index x v scope own_rows ≡ done completed
      → IsCompleted completed
  unfolding complete_index
  IsCompleted-lists completed h =
      let a =
        >>=-eq-done
          (one_is_outdistanced x.wotb v.wot v.dal scope (iindex own_rows) (mindex own_rows)
            (cindex own_rows))
          _ h in
      let ms =
        complete_mindex x.revocation_signed v.dal scope a.0 (cindex own_rows) (mindex own_rows) in
      let is = complete_iindex v.dal scope ms (iindex own_rows) in
      let b =
        >>=-eq-done (complete_cindex x.certification_signed v.dal scope is (cindex own_rows)) _
          a.2 in
      let c = >>=-eq-done (complete_sindex x.source_engine v.dal scope (sindex own_rows)) _ b.2 in
      let all = IsSplit-i is ms b.0 c.0 in
      let same : map i_index is ++ (map m_index ms ++ (map c_index b.0 ++ map s_index c.0))
          ≡ completed =
        cc (c.2) in
      rw (← same) (record {
        far = a.0;
        cs = b.0;
        ss = c.0;
        identities = all.0;
        memberships = all.1;
        certifications = rw all.0 b.1;
        cs_are = all.2;
        sources = c.1;
        ss_are = all.3;
      })

  IsUsable-rows :
      (rows : List SindexEntry)
      → All (λ e. e.available ≡ true) (inputs_of rows)
      → All (λ e. not e.is_locked ≡ true) (inputs_of rows)
      → All (IsUsable x v.dal scope) rows
  IsUsable-rows rows a l =
      All-both _ _ _ rows (λ e p q u. (p u, q u))
        (All-filtered (λ (e : SindexEntry). e.available ≡ true) (λ e. is_update e.op) rows a)
        (All-filtered (λ (e : SindexEntry). not e.is_locked ≡ true) (λ e. is_update e.op) rows l)

  either_check :
      (with_pow : Bool)
      → Succeeds (
          if with_pow
          then all_local f x.crypto block conf own_rows
          else all_local_but_pow_and_signature f x.crypto block conf own_rows)
      → Succeeds (all_local f x.crypto block conf own_rows)
        ⊎ Succeeds (all_local_but_pow_and_signature f x.crypto block conf own_rows)
  either_check true h = inl h
  either_check false h = inr h

  completed-IsSound :
      (completed : List IndexEntry)
      → IsCompleted completed
      → All Passes (row_rules f x.margin conf (checked_of x v block conf completed))
      → IsSound x v.dal scope own_rows
  unfolding row_rules complete_iindex complete_mindex complete_cindex complete_sindex
  completed-IsSound completed c p =
      let rs = row_rules f x.margin conf (checked_of x v block conf completed) in
      let ms =
        complete_mindex x.revocation_signed v.dal scope c.far (cindex own_rows) (mindex own_rows) in
      let uids = (every_iff (λ (e : IindexEntry). e.uid_unique) _).0 (rule_at rs 11 p) in
      let keys = (every_iff (λ (e : IindexEntry). e.pub_unique) _).0 (rule_at rs 12 p) in
      let certs = (every_iff (λ (e : MindexEntry). e.enough_certs) _).0 (rule_at rs 17 p) in
      record {
        new_uids =
            All-imp _ _ (iindex own_rows) (λ e. uid_fact x v.dal scope ms e)
              (All-map (λ (e : IindexEntry). e.uid_unique ≡ true) (complete_identity v.dal scope ms)
                (iindex own_rows)
                (subst (All (λ (e : IindexEntry). e.uid_unique ≡ true)) c.identities uids));
        new_keys =
            All-imp _ _ (iindex own_rows) (λ e. key_fact x v.dal scope ms e)
              (All-map (λ (e : IindexEntry). e.pub_unique ≡ true) (complete_identity v.dal scope ms)
                (iindex own_rows)
                (subst (All (λ (e : IindexEntry). e.pub_unique ≡ true)) c.identities keys));
        enough_certs =
            All-imp _ _ (mindex own_rows) (λ e. certs_fact x v.dal scope c.far (cindex own_rows) e)
              (All-map (λ (e : MindexEntry). e.enough_certs ≡ true)
                (complete_membership x.revocation_signed v.dal scope c.far (cindex own_rows))
                (mindex own_rows)
                (subst (All (λ (e : MindexEntry). e.enough_certs ≡ true)) c.memberships certs));
        valid_certs =
            All-imp _ _ (cindex own_rows)
              (λ e r. (cert_fact x v.dal scope (iindex completed) e r.0 r.1).0 r.2)
              (map_all-eq-done (λ (row : CindexEntry). row.sig_ok ≡ true)
                (complete_certification x.certification_signed v.dal scope (iindex completed))
                (cindex own_rows) c.cs c.certifications
                (subst (All (λ (row : CindexEntry). row.sig_ok ≡ true)) c.cs_are
                  ((every_iff (λ (row : CindexEntry). row.sig_ok) _).0 (rule_at rs 10 p))));
        certifiers_are_members = λ after_root.
            All-imp _ _ (cindex own_rows)
              (λ e r. sym (cert_fact x v.dal scope (iindex completed) e r.0 r.1).1 ∙ r.2)
              (map_all-eq-done (λ (row : CindexEntry). row.from_member ≡ true)
                (complete_certification x.certification_signed v.dal scope (iindex completed))
                (cindex own_rows) c.cs c.certifications
                (subst (All (λ (row : CindexEntry). row.from_member ≡ true)) c.cs_are (
                  (every_iff (λ (row : CindexEntry). row.from_member) _).0
                    (enough _ _ (lt→ltb _ _ after_root) (rule_at rs 6 p)))));
        spent = All-imp _ _ (sindex own_rows) (row_fact x v.dal scope (sindex own_rows)) (
            map_all-eq-done (IsUsable x v.dal scope)
              (complete_row x.source_engine v.dal scope (sindex own_rows)) (sindex own_rows) c.ss
              c.sources
              (subst (All (IsUsable x v.dal scope)) c.ss_are (
                IsUsable-rows (sindex completed)
                  ((every_iff (λ (row : SindexEntry). row.available) _).0 (rule_at rs 26 p))
                  ((every_iff (λ (row : SindexEntry). not row.is_locked) _).0 (rule_at rs 27 p)))));
      }

  -- A block that passes the whole check, with the proof of work and its signature or without, its
  -- issuer ignored or not, is locally valid; its new identities have a name and a key that the
  -- store does not hold, whoever joins or renews is certified by at least the required number of
  -- keys, its certifications are valid and, after the root, made by members of the store, and each
  -- source that it spends is found where the rows say, not consumed, and unlocked.
  pub check_whole_block-IsSound :
      (with_pow ignore_issuer : Bool)
      → Succeeds (check_whole_block x v block conf with_pow ignore_issuer)
      → IsLocallyValid f x.crypto block × IsSound x v.dal scope own_rows
  unfolding check_whole_block
  check_whole_block-IsSound with_pow ignore_issuer h =
      let parts =
        (Succeeds->>
            (if with_pow
              then all_local f x.crypto block conf own_rows
              else all_local_but_pow_and_signature f x.crypto block conf own_rows)
            _).0
          h in
      let completed = bind_parts (complete_index x v scope own_rows) _ parts.1 in
      (
        all_local-IsLocallyValid f x.crypto x.hash_of_identity block conf
            (either_check with_pow parts.0),
        completed-IsSound completed.0 (IsCompleted-lists completed.0 completed.1) (
            check_block-row_rules f x.margin conf (checked_of x v block conf completed.0) with_pow
              ignore_issuer completed.2),
      )
