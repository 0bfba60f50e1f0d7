-- ===== src/GlobalRules/Rows.antt =====
-- The rules over the completed rows (app/lib/indexer.ts); `every` is the loop that returns false at
-- the first row that breaks the rule.
use duniter.Base.{
  ℕ, ◌*◌, Bool, true, false, not, ◌&&◌, ◌||◌, String, Option, none, some, List, ltb, leb, ◌==◌,
  str_eq, if◌then◌else◌, every, filter_by, length,
}
use duniter.Base.Int.{ℤ, pos, leb_ℤ}
use duniter.Head.{DbHead, ConfDto}
use duniter.Index.{is_create, is_update, IindexEntry, MindexEntry, CindexEntry, SindexEntry}

abbrev within : ℤ → ℕ → Bool
within age window = leb_ℤ age (pos window)

-- BR_G63
unfoldable pub rule_identity_writability : List IindexEntry → ConfDto → Bool
rule_identity_writability rows conf = every (λ e. within e.age conf.idty_window) rows

-- BR_G64
unfoldable pub rule_membership_writability : List MindexEntry → ConfDto → Bool
rule_membership_writability rows conf = every (λ e. within e.age conf.ms_window) rows

-- BR_G108
unfoldable pub rule_membership_period : List MindexEntry → Bool
rule_membership_period rows = every (λ e. not (ltb 0 e.unchainables)) rows

-- BR_G65
unfoldable pub rule_certification_writability : List CindexEntry → ConfDto → Bool
rule_certification_writability rows conf = every (λ e. within e.age conf.sig_window) rows

-- BR_G66
unfoldable pub rule_certification_stock : List CindexEntry → ConfDto → Bool
rule_certification_stock rows conf = every (λ e. leb e.stock conf.sig_stock) rows

-- BR_G67
unfoldable pub rule_certification_period : List CindexEntry → Bool
rule_certification_period rows = every (λ e. not (ltb 0 e.unchainables)) rows

-- BR_G68
unfoldable pub rule_certification_from_member : DbHead → List CindexEntry → Bool
rule_certification_from_member head rows =
    if ltb 0 head.number then every (λ e. e.from_member) rows else true

-- BR_G69
unfoldable pub rule_certification_to_member_or_newcomer : List CindexEntry → Bool
rule_certification_to_member_or_newcomer rows = every (λ e. e.to_member || e.to_newcomer) rows

-- BR_G70
unfoldable pub rule_certification_to_leaver : List CindexEntry → Bool
rule_certification_to_leaver rows = every (λ e. not e.to_leaver) rows

-- BR_G71
unfoldable pub rule_certification_replay : List CindexEntry → Bool
rule_certification_replay rows = every (λ e. not (e.is_replay && not e.is_replayable)) rows

-- BR_G72
unfoldable pub rule_certification_signature : List CindexEntry → Bool
rule_certification_signature rows = every (λ e. e.sig_ok) rows

-- BR_G73
unfoldable pub rule_identity_uid_unicity : List IindexEntry → Bool
rule_identity_uid_unicity rows = every (λ e. e.uid_unique) rows

-- BR_G74
unfoldable pub rule_identity_pubkey_unicity : List IindexEntry → Bool
rule_identity_pubkey_unicity rows = every (λ e. e.pub_unique) rows

-- BR_G75
unfoldable pub rule_membership_succession : List MindexEntry → Bool
rule_membership_succession rows = every (λ e. e.number_following) rows

abbrev pub is_gtest : DbHead → Bool
is_gtest head = elim head.currency [ none ↦ false | some c ↦ str_eq c "gtest" ]

-- BR_G76
unfoldable pub rule_membership_distance : DbHead → List MindexEntry → Bool
rule_membership_distance head rows =
    every
      (λ e.
        if is_gtest head && (not e.distance_ok && ltb head.number 11512)
        then false
        else if not (is_gtest head) && not e.distance_ok
        then false
        else true)
      rows

-- BR_G77
unfoldable pub rule_membership_on_revoked : List MindexEntry → Bool
rule_membership_on_revoked rows = every (λ e. not e.on_revoked) rows

-- BR_G78
unfoldable pub rule_membership_joins_twice : List MindexEntry → Bool
rule_membership_joins_twice rows = every (λ e. not e.joins_twice) rows

-- BR_G79
unfoldable pub rule_membership_enough_certs : List MindexEntry → Bool
rule_membership_enough_certs rows = every (λ e. e.enough_certs) rows

-- BR_G80
unfoldable pub rule_membership_leaver_is_member : List MindexEntry → Bool
rule_membership_leaver_is_member rows = every (λ e. e.leaver_is_member) rows

-- BR_G81
unfoldable pub rule_membership_active_is_member : List MindexEntry → Bool
rule_membership_active_is_member rows = every (λ e. e.active_is_member) rows

-- BR_G82
unfoldable pub rule_membership_revoked_is_member : List MindexEntry → Bool
rule_membership_revoked_is_member rows = every (λ e. e.revoked_is_member) rows

-- BR_G83
unfoldable pub rule_membership_revoked_singleton : List MindexEntry → Bool
rule_membership_revoked_singleton rows = every (λ e. not e.already_revoked) rows

-- BR_G84
unfoldable pub rule_membership_revocation_signature : List MindexEntry → Bool
rule_membership_revocation_signature rows = every (λ e. e.revocation_sig_ok) rows

-- BR_G85
unfoldable pub rule_membership_excluded_is_member : List IindexEntry → Bool
rule_membership_excluded_is_member rows = every (λ e. e.excluded_is_member) rows

abbrev pub leaves : IindexEntry → Bool
leaves e = elim e.member [ none ↦ false | some m ↦ not m ]

-- BR_G86; `to_be_kicked` are the stored public keys that are marked to be excluded.
unfoldable pub rule_to_be_kicked_are_present : List IindexEntry → List String → Bool
rule_to_be_kicked_are_present rows to_be_kicked =
    every (λ key. length (filter_by (λ e. str_eq e.pub_key key && e.is_being_kicked) rows) == 1)
      to_be_kicked
    && every (λ e. e.has_to_be_excluded) (filter_by leaves rows)

-- BR_G103; TX_WINDOW is a week.
unfoldable pub rule_tx_writability : List SindexEntry → Bool
rule_tx_writability rows = every (λ e. within e.age (3600 * 24 * 7)) rows

abbrev pub inputs_of : List SindexEntry → List SindexEntry
inputs_of rows = filter_by (λ e. is_update e.op) rows

-- BR_G87
unfoldable pub rule_input_is_available : List SindexEntry → Bool
rule_input_is_available rows = every (λ e. e.available) (inputs_of rows)

-- BR_G88
unfoldable pub rule_input_is_unlocked : List SindexEntry → Bool
rule_input_is_unlocked rows = every (λ e. not e.is_locked) (inputs_of rows)

-- BR_G89
unfoldable pub rule_input_is_time_unlocked : List SindexEntry → Bool
rule_input_is_time_unlocked rows = every (λ e. not e.is_time_locked) (inputs_of rows)

-- BR_G90; without a previous HEAD the comparison throws, which refuses the block as false does.
unfoldable pub rule_output_base : List SindexEntry → Option DbHead → Bool
rule_output_base rows head_1 =
    every (λ e. elim head_1 [ none ↦ false | some h ↦ leb e.base h.unit_base ])
      (filter_by (λ e. is_create e.op) rows)
