-- ===== src/GlobalRules/ValidRows.antt =====
-- About the rules on the rows of a block that pass.
use duniter.Base.{
  ◌≤◌, ◌*◌, filter_by, length, ℕ, ◌≡◌, true, false, not, ◌||◌, Option, none, some, List, [], ◌∷◌,
  leb, ◌==◌, every, every_iff, All, ==_iff, &&_iff, ◌&&◌, ◌⊎◌, inl, inr, arith, ltb, str_eq,
  Bool-cases,
}
use duniter.Base.Int.{pos, leb_ℤ}
use duniter.Base.Floats.{Floats}
use duniter.Head.{DbHead, ConfDto}
use duniter.Index.{iindex, mindex, cindex, sindex}
use duniter.GlobalRules.Rows.{inputs_of}
use duniter.GlobalRules.Check.{Checked, row_rules}
use duniter.GlobalRules.Passed.{Passes, rule_at, after_root}
use duniter.Index.{MindexEntry, SindexEntry, is_create}
use duniter.GlobalRules.Rows.{is_gtest, leaves, rule_membership_distance}

-- The base of an output is not above the one of the previous HEAD, which must exist.
abbrev pub HasBase : SindexEntry → Option DbHead → Type 0
HasBase e none = ⊥
HasBase e (some h) = e.base ≤ h.unit_base

-- What the rules on the rows test: the ages, the periods and the stocks, the ends of certifications,
-- unique identities, the states of members, the keys to be kicked, the inputs and the outputs.
pub record HasValidRows (conf : ConfDto) (c : Checked) : Type 0 where
  pub identity_ages : All (λ e. leb_ℤ e.age (pos conf.idty_window) ≡ true) (iindex c.index)
  pub membership_ages : All (λ e. leb_ℤ e.age (pos conf.ms_window) ≡ true) (mindex c.index)
  pub membership_periods : All (λ e. not (ltb 0 e.unchainables) ≡ true) (mindex c.index)
  pub certification_ages : All (λ e. leb_ℤ e.age (pos conf.sig_window) ≡ true) (cindex c.index)
  pub stocks : All (λ e. leb e.stock conf.sig_stock ≡ true) (cindex c.index)
  pub certification_periods : All (λ e. not (ltb 0 e.unchainables) ≡ true) (cindex c.index)
  pub from_members : (c.head.number ≡ 0) ⊎ All (λ e. e.from_member ≡ true) (cindex c.index)
  pub to_members : All (λ e. (e.to_member || e.to_newcomer) ≡ true) (cindex c.index)
  pub not_to_leavers : All (λ e. not e.to_leaver ≡ true) (cindex c.index)
  pub no_replays : All (λ e. not (e.is_replay && not e.is_replayable) ≡ true) (cindex c.index)
  pub signed : All (λ e. e.sig_ok ≡ true) (cindex c.index)
  pub uids : All (λ e. e.uid_unique ≡ true) (iindex c.index)
  pub keys : All (λ e. e.pub_unique ≡ true) (iindex c.index)
  pub followed : All (λ e. e.number_following ≡ true) (mindex c.index)
  pub not_revoked : All (λ e. not e.on_revoked ≡ true) (mindex c.index)
  pub joins_once : All (λ e. not e.joins_twice ≡ true) (mindex c.index)
  pub certified : All (λ e. e.enough_certs ≡ true) (mindex c.index)
  pub leavers : All (λ e. e.leaver_is_member ≡ true) (mindex c.index)
  pub actives : All (λ e. e.active_is_member ≡ true) (mindex c.index)
  pub revoked : All (λ e. e.revoked_is_member ≡ true) (mindex c.index)
  pub revoked_once : All (λ e. not e.already_revoked ≡ true) (mindex c.index)
  pub revocations_signed : All (λ e. e.revocation_sig_ok ≡ true) (mindex c.index)
  pub excluded : All (λ e. e.excluded_is_member ≡ true) (iindex c.index)
  pub transaction_ages : All (λ e. leb_ℤ e.age (pos (3600 * 24 * 7)) ≡ true) (sindex c.index)
  pub available : All (λ e. e.available ≡ true) (inputs_of (sindex c.index))
  pub unlocked : All (λ e. not e.is_locked ≡ true) (inputs_of (sindex c.index))
  pub time_unlocked : All (λ e. not e.is_time_locked ≡ true) (inputs_of (sindex c.index))
  pub near : (is_gtest c.head ≡ true) ⊎ All (λ e. e.distance_ok ≡ true) (mindex c.index)
  pub kicked :
      All
        (λ key.
          length (filter_by (λ e. str_eq e.pub_key key && e.is_being_kicked) (iindex c.index)) ≡ 1)
        c.to_be_kicked
  pub due : All (λ e. e.has_to_be_excluded ≡ true) (filter_by leaves (iindex c.index))
  pub outputs : All (λ e. HasBase e c.head_1) (filter_by (λ e. is_create e.op) (sindex c.index))

all_near :
    (head : DbHead) (rows : List MindexEntry)
    → rule_membership_distance head rows ≡ true
    → (is_gtest head ≡ true) ⊎ All (λ e. e.distance_ok ≡ true) rows
unfolding rule_membership_distance
all_near head [] h = inr tt
all_near head (e ∷ rows) h = elim (Bool-cases (is_gtest head)) [
  | inl gtest ↦ inl gtest
  | inr other ↦ elim (all_near head rows (ground arith)) [
    | inl gtest ↦ inl gtest
    | inr far ↦ inr (ground arith, far)
  ]
]

based :
    (head_1 : Option DbHead) (e : SindexEntry)
    → (elim head_1 [ none ↦ false | some h ↦ leb e.base h.unit_base ]) ≡ true
    → HasBase e head_1
based none e r = absurd (cc)
based (some h) e r = ground arith

all_based :
    (head_1 : Option DbHead) (rows : List SindexEntry)
    → every (λ e. elim head_1 [ none ↦ false | some h ↦ leb e.base h.unit_base ]) rows ≡ true
    → All (λ e. HasBase e head_1) rows
all_based head_1 [] h = tt
all_based head_1 (e ∷ rows) h =
    let (first, rest) = (&&_iff _ _).0 h in (based head_1 e first, all_based head_1 rows rest)

every_one :
    {A : Type 0} (count : A → ℕ) (xs : List A)
    → every (λ x. count x == 1) xs ≡ true
    → All (λ x. count x ≡ 1) xs
every_one count [] h = tt
every_one count (x ∷ xs) h =
    ((==_iff (count x) 1).0 ((&&_iff _ _).0 h).0, every_one count xs ((&&_iff _ _).0 h).1)

pub HasValidRows-row_rules :
    (f : Floats) (margin : f.Number) (conf : ConfDto) (c : Checked)
    → All Passes (row_rules f margin conf c)
    → HasValidRows conf c
unfolding row_rules
HasValidRows-row_rules f margin conf c rows =
    let rs = row_rules f margin conf c in
    record {
      identity_ages = (every_iff _ _).0 (rule_at rs 0 rows);
      membership_ages = (every_iff _ _).0 (rule_at rs 1 rows);
      membership_periods = (every_iff _ _).0 (rule_at rs 2 rows);
      certification_ages = (every_iff _ _).0 (rule_at rs 3 rows);
      stocks = (every_iff _ _).0 (rule_at rs 4 rows);
      certification_periods = (every_iff _ _).0 (rule_at rs 5 rows);
      from_members = elim (after_root c.head.number _ (rule_at rs 6 rows)) [
        | inl root ↦ inl root
        | inr all ↦ inr ((every_iff _ _).0 all)
      ];
      to_members = (every_iff _ _).0 (rule_at rs 7 rows);
      not_to_leavers = (every_iff _ _).0 (rule_at rs 8 rows);
      no_replays = (every_iff _ _).0 (rule_at rs 9 rows);
      signed = (every_iff _ _).0 (rule_at rs 10 rows);
      uids = (every_iff _ _).0 (rule_at rs 11 rows);
      keys = (every_iff _ _).0 (rule_at rs 12 rows);
      followed = (every_iff _ _).0 (rule_at rs 13 rows);
      not_revoked = (every_iff _ _).0 (rule_at rs 15 rows);
      joins_once = (every_iff _ _).0 (rule_at rs 16 rows);
      certified = (every_iff _ _).0 (rule_at rs 17 rows);
      leavers = (every_iff _ _).0 (rule_at rs 18 rows);
      actives = (every_iff _ _).0 (rule_at rs 19 rows);
      revoked = (every_iff _ _).0 (rule_at rs 20 rows);
      revoked_once = (every_iff _ _).0 (rule_at rs 21 rows);
      revocations_signed = (every_iff _ _).0 (rule_at rs 22 rows);
      excluded = (every_iff _ _).0 (rule_at rs 23 rows);
      transaction_ages = (every_iff _ _).0 (rule_at rs 25 rows);
      available = (every_iff _ _).0 (rule_at rs 26 rows);
      unlocked = (every_iff _ _).0 (rule_at rs 27 rows);
      time_unlocked = (every_iff _ _).0 (rule_at rs 28 rows);
      near = all_near c.head (mindex c.index) (rule_at rs 14 rows);
      kicked = every_one _ _ ((&&_iff _ _).0 (rule_at rs 24 rows)).0;
      due = (every_iff _ _).0 ((&&_iff _ _).0 (rule_at rs 24 rows)).1;
      outputs = all_based c.head_1 _ (rule_at rs 29 rows);
    }
