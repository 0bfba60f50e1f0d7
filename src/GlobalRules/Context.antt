-- ===== src/GlobalRules/Context.antt =====
-- The rules that compare a block with its HEAD (app/lib/indexer.ts).
use duniter.Base.{
  ℕ, ◌+◌, Bool, true, false, ◌&&◌, ◌||◌, String, Option, none, some, ltb, ◌==◌, str_eq,
  if◌then◌else◌, max,
}
use duniter.Base.Int.{ℤ, pos, pos_part, eqb_ℤ}
use duniter.Base.Floats.{Floats}
use duniter.Block.{BlockDto}
use duniter.Head.{DbHead}

-- `==` between values that may be null.
abbrev pub same_text : Option String → Option String → Bool
same_text none none = true
same_text none (some t) = false
same_text (some s) none = false
same_text (some s) (some t) = str_eq s t

-- `!x`, of a text that may be null or empty.
abbrev pub is_missing : Option String → Bool
is_missing none = true
is_missing (some s) = str_eq s ""

abbrev pub same_amount : Option ℤ → Option ℤ → Bool
same_amount none none = true
same_amount none (some y) = false
same_amount (some x) none = false
same_amount (some x) (some y) = eqb_ℤ x y

-- BR_G49
unfoldable pub rule_version : DbHead → DbHead → Bool
rule_version head head_1 =
    if ltb 0 head.number
    then head.version == head_1.version || head.version == head_1.version + 1
    else true

-- `Math.max(500, Math.ceil(1.1 * HEAD.avgBlockSize))`; `margin` is 1.1.
unfoldable pub get_max_block_size : (f : Floats) → f.Number → DbHead → ℕ
get_max_block_size f margin head =
    max 500 (pos_part (f.ceil (f.mul margin (f.of_int (pos head.avg_block_size)))))

-- BR_G50
unfoldable pub rule_block_size : (f : Floats) → f.Number → DbHead → Bool
unfolding get_max_block_size
rule_block_size f margin head =
    if ltb 0 head.number then ltb head.bsize (get_max_block_size f margin head) else true

-- BR_G98
unfoldable pub rule_currency : BlockDto → DbHead → Bool
rule_currency block head =
    if ltb 0 head.number then same_text (some block.currency) head.currency else true

-- BR_G51
unfoldable pub rule_number : BlockDto → DbHead → Bool
rule_number block head = block.number == head.number

-- BR_G52
unfoldable pub rule_previous_hash : BlockDto → DbHead → Bool
rule_previous_hash block head =
    same_text block.previous_hash head.previous_hash
    || (is_missing block.previous_hash && is_missing head.previous_hash)

-- BR_G53
unfoldable pub rule_previous_issuer : BlockDto → DbHead → Bool
rule_previous_issuer block head =
    same_text block.previous_issuer head.previous_issuer
    || (is_missing block.previous_issuer && is_missing head.previous_issuer)

-- BR_G101
unfoldable pub rule_issuer_is_member : DbHead → Bool
rule_issuer_is_member head = head.issuer_is_member

-- BR_G54
unfoldable pub rule_issuers_count : BlockDto → DbHead → Bool
rule_issuers_count block head = block.issuers_count == head.issuers_count

-- BR_G55
unfoldable pub rule_issuers_frame : BlockDto → DbHead → Bool
rule_issuers_frame block head = eqb_ℤ block.issuers_frame head.issuers_frame

-- BR_G56
unfoldable pub rule_issuers_frame_var : BlockDto → DbHead → Bool
rule_issuers_frame_var block head = eqb_ℤ block.issuers_frame_var head.issuers_frame_var

-- BR_G57
unfoldable pub rule_median_time : BlockDto → DbHead → Bool
rule_median_time block head = block.median_time == head.median_time

-- BR_G58
unfoldable pub rule_dividend : BlockDto → DbHead → Bool
rule_dividend block head = same_amount block.dividend head.new_dividend

-- BR_G59
unfoldable pub rule_unit_base : BlockDto → DbHead → Bool
rule_unit_base block head = block.unitbase == head.unit_base

-- BR_G60
unfoldable pub rule_members_count : BlockDto → DbHead → Bool
rule_members_count block head = eqb_ℤ block.members_count head.members_count

-- BR_G61
unfoldable pub rule_pow_min : BlockDto → DbHead → Bool
rule_pow_min block head = if ltb 0 head.number then block.pow_min == head.pow_min else true
