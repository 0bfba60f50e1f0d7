-- ===== src/Records/Groups.antt =====
-- About `reduceBy` (app/lib/indexer.ts): the groups that it reduces.
use mathlib.Core.List.{append-nil, append_assoc, map-append, map-map}
use duniter.Base.{
  ◌≡◌, refl, ap, ◌∙◌, sym, inl, inr, false, String, List, [], ◌∷◌, ◌++◌, map, arith, str_eq,
  str_eq_iff, includes, uniq, filter_by, filter_by-append, Distinct, Bool-cases, if◌then◌else◌,
}
use duniter.Base.Uniq.{uniq-snoc, includes-uniq, uniq-Distinct}
use duniter.Records.{Row, Field, reduce, id_of, push_to_group, groups_from, reduce_by}

module _ (key : Row → String) where
  -- The rows of a group, in order.
  abbrev pub members : List Row → String → List Row
  members rs i = filter_by (λ r. str_eq (key r) i) rs

  no_members : (i : String) (rs : List Row) → includes i (map key rs) ≡ false → members rs i ≡ []
  no_members i [] h = refl
  no_members i (r ∷ rs) h = ground (arith, no_members i rs)

  members-snoc :
      (rs : List Row) (r : Row) (i : String)
      → members (rs ++ r ∷ []) i
        ≡ (if str_eq i (key r) then members rs i ++ r ∷ [] else members rs i)
  members-snoc rs r i = ground (
    arith,
    str_eq_iff i (key r),
    str_eq_iff (key r) i,
    filter_by-append (λ (s : Row). str_eq (key s) i) rs (r ∷ []),
    append-nil (members rs i),
  )

  abbrev groups : List Row → List String → List (String × List Row)
  groups rs ids = map (λ i. (i, members rs i)) ids

  groups_untouched :
      (rs : List Row) (r : Row) (ids : List String)
      → includes (key r) ids ≡ false
      → groups (rs ++ r ∷ []) ids ≡ groups rs ids
  groups_untouched rs r [] h = refl
  groups_untouched rs r (i ∷ ids) h = ground (arith, groups_untouched rs r ids, members-snoc rs r i)

  push_to_group-groups :
      (rs : List Row) (r : Row) (ids : List String)
      → Distinct ids
      → push_to_group (key r) r (groups rs ids)
        ≡ groups (rs ++ r ∷ []) ids ++ (if includes (key r) ids then [] else (key r, r ∷ []) ∷ [])
  unfolding push_to_group
  push_to_group-groups rs r [] h = refl
  push_to_group-groups rs r (i ∷ ids) h = elim (Bool-cases (str_eq i (key r))) [
    | inl same ↦ ground (
      arith,
      members-snoc rs r i,
      groups_untouched rs r ids,
      append-nil (groups rs ids),
      str_eq_iff i (key r),
    )
    | inr other ↦ ground (arith, members-snoc rs r i, push_to_group-groups rs r ids h.1)
  ]

  abbrev view : List Row → List (String × List Row)
  view rs = groups rs (uniq (map key rs))

  push_to_group-view :
      (rs : List Row) (r : Row) → push_to_group (key r) r (view rs) ≡ view (rs ++ r ∷ [])
  push_to_group-view rs r =
      let ks = map key rs in
      let pushed = push_to_group-groups rs r (uniq ks) (uniq-Distinct ks) in
      elim (Bool-cases (includes (key r) ks)) [
        | inl old ↦
            rw (map-append key rs (r ∷ []), uniq-snoc ks (key r), old, append-nil (uniq ks))
              (rw (includes-uniq ks (key r), old, append-nil (groups (rs ++ r ∷ []) (uniq ks))) at
                pushed)
        | inr new ↦
            rw (map-append key rs (r ∷ []), uniq-snoc ks (key r), new)
              ((rw (includes-uniq ks (key r), new) at pushed)
                ∙ ap (λ g. groups (rs ++ r ∷ []) (uniq ks) ++ (key r, g) ∷ []) (sym (alone new))
                ∙ sym (map-append (λ i. (i, members (rs ++ r ∷ []) i)) (uniq ks) (key r ∷ [])))
      ]
    where
      alone : includes (key r) (map key rs) ≡ false → members (rs ++ r ∷ []) (key r) ≡ r ∷ []
      alone new =
          ground (
            arith,
            members-snoc rs r (key r),
            no_members (key r) rs new,
            str_eq_iff (key r) (key r),
          )

module _ (join_fields : List Field → String) (properties : List String) where
  groups_from-view :
      (seen rs : List Row)
      → groups_from join_fields properties (view (id_of join_fields properties) seen) rs
        ≡ view (id_of join_fields properties) (seen ++ rs)
  unfolding groups_from
  groups_from-view seen [] = rw (append-nil seen)
  groups_from-view seen (r ∷ rs) =
      ap (λ m. groups_from join_fields properties m rs)
        (push_to_group-view (id_of join_fields properties) seen r)
      ∙ groups_from-view (seen ++ r ∷ []) rs
      ∙ ap (view (id_of join_fields properties)) (append_assoc seen (r ∷ []) rs)

  -- One row for each identifier, in the order of first occurrence: what the rows with that
  -- identifier reduce to.
  pub reduce_by-members :
      (rs : List Row)
      → reduce_by join_fields properties rs
        ≡ map
            (λ i. reduce (members (id_of join_fields properties) rs i))
            (uniq (map (id_of join_fields properties) rs))
  unfolding reduce_by
  reduce_by-members rs = ap (map (λ g. reduce g.1)) (groups_from-view [] rs) ∙ map-map _ _ _
