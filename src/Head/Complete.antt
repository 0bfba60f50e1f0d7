-- ===== src/Head/Complete.antt =====
-- app/lib/indexer.ts, `completeGlobalScope`: the HEAD of a block (its first part, BR_G01 to BR_G18).
pub mod Sound
use duniter.Base.{
  ℕ, zero, suc, ◌+◌, ◌%◌, ◌^◌, ◌<◌, ◌≡◌, ◌≢◌, min, max, Bool, true, false, String, Option, none,
  some, List, [], ◌∷◌, map, length, filter_by, ltb, ◌==◌, str_eq, if◌then◌else◌,
}
use duniter.Base.Int.{ℤ, pos, ◌+ℤ◌, ◌-ℤ◌}
use duniter.Base.Floats.{Floats}
use duniter.Block.{BlockDto}
use duniter.Head.{DbHead, ConfDto, fixed}
use duniter.Head.Issuers.{
  Ranger, prepare_number, prepare_issuers_count, prepare_issuers_frame, prepare_issuers_frame_var,
  average, prepare_avg_block_size,
}
use duniter.Head.Difficulty.{
  prepare_diff_number, prepare_speed, prepare_pow_min, personalize, prepare_personalized_pow,
}
use duniter.Head.Dividend.{prepare_money}
use duniter.Index.{IindexEntry}

-- `new DBHead()` with what is read of the block; `bsize` is the length of its documents, and `hash`
-- what `BlockDTO.getHash` computes again from them, with the native hash function. The fields that a rule below sets before any rule reads them start from a default.
unfoldable pub new_head : BlockDto → String → ℕ → DbHead
new_head block hash bsize = record {
  version = block.version;
  currency = none;
  bsize = bsize;
  avg_block_size = 0;
  ud_time = 0;
  ud_reeval_time = 0;
  mass_reeval = pos 0;
  mass = pos 0;
  hash = hash;
  previous_hash = none;
  previous_issuer = none;
  issuer = block.issuer;
  time = block.time;
  median_time = 0;
  number = 0;
  pow_min = block.pow_min;
  diff_number = 0;
  issuers_count = 0;
  issuers_frame = pos 0;
  issuers_frame_var = pos 0;
  issuer_diff = pos 0;
  pow_zeros = pos 0;
  pow_remainder = pos 0;
  speed = fixed 0;
  unit_base = 0;
  members_count = pos 0;
  dividend = pos 0;
  new_dividend = none;
  issuer_is_member = false;
}

-- BR_G02, BR_G99 and BR_G03: what is inherited from the previous HEAD; its currency is the one of
-- the configuration.
unfoldable pub inherit : DbHead → DbHead → ConfDto → DbHead
inherit head head_1 conf = record head {
  previous_hash = if ltb 0 head.number then some head_1.hash else none;
  currency = if ltb 0 head.number then some conf.currency else none;
  previous_issuer = if ltb 0 head.number then some head_1.issuer else none;
}

abbrev pub says_member : IindexEntry → Bool
says_member e = elim e.member [ none ↦ false | some m ↦ m ]

abbrev pub says_excluded : IindexEntry → Bool
says_excluded e = elim e.member [ none ↦ false | some m ↦ if m then false else true ]

-- BR_G03, the membership of the issuer; `reduced_member` is the `member` of a reduced identity:
-- of the stored rows, or at the root of the rows of the block.
unfoldable pub prepare_issuer_is_member :
    DbHead → (String → Bool) → (List IindexEntry → String → Bool) → List IindexEntry → DbHead
prepare_issuer_is_member head stored_member local_member rows = record head {
  issuer_is_member =
      if ltb 0 head.number then stored_member head.issuer else local_member rows head.issuer;
}

-- BR_G08
unfoldable pub prepare_median_time : DbHead → DbHead → Ranger → ConfDto → DbHead
prepare_median_time head head_1 range conf = record head {
  median_time =
      if ltb 0 head.number
      then max head_1.median_time (
          average
            (map (λ h. h.time) (range (pos 1) (pos (min conf.median_time_blocks head.number)))))
      else head.time;
}

-- BR_G10
unfoldable pub prepare_members_count : DbHead → DbHead → List IindexEntry → DbHead
prepare_members_count head head_1 rows =
    let joined = pos (length (filter_by says_member rows)) in
    let gone = pos (length (filter_by says_excluded rows)) in
    record head {
      members_count = if head.number == 0 then joined else head_1.members_count +ℤ joined -ℤ gone;
    }

-- What the computation reads outside the block: the stored HEADs and identities.
pub record HeadView : Type 0 where
  pub head_1 : Option DbHead
  pub range : Ranger
  pub old_head : ℕ → DbHead
  pub stored_member : String → Bool
  pub local_member : List IindexEntry → String → Bool

module _ (f : Floats) (growth percent_rot c : f.Number) (conf : ConfDto) where
  -- The steps from BR_G02 to BR_G16, with a previous HEAD at hand; at number 0 none reads it.
  unfoldable pub complete_until_speed : DbHead → DbHead → HeadView → List IindexEntry → DbHead
  unfolding inherit prepare_issuer_is_member prepare_issuers_count prepare_issuers_frame
      prepare_issuers_frame_var prepare_avg_block_size prepare_median_time prepare_diff_number
      prepare_members_count prepare_money prepare_speed
  complete_until_speed numbered head_1 view rows =
      let inherited = inherit numbered head_1 conf in
      let h3 = prepare_issuer_is_member inherited view.stored_member view.local_member rows in
      let h4 = prepare_issuers_count h3 view.range head_1 in
      let h5 = prepare_issuers_frame h4 head_1 in
      let h6 = prepare_issuers_frame_var h5 head_1 in
      let h7 = prepare_avg_block_size h6 view.range in
      let h8 = prepare_median_time h7 head_1 view.range conf in
      let h9 = prepare_diff_number h8 head_1 conf in
      let h10 = prepare_members_count h9 head_1 rows in
      let h15 = prepare_money f c h10 head_1 conf in prepare_speed h15 view.old_head conf

  -- BR_G17 and BR_G18 come last.
  unfoldable pub complete_from : DbHead → DbHead → HeadView → List IindexEntry → DbHead
  unfolding complete_until_speed prepare_pow_min prepare_personalized_pow personalize
  complete_from numbered head_1 view rows =
      let h16 = complete_until_speed numbered head_1 view rows in
      let h17 = prepare_pow_min f growth percent_rot h16 head_1 conf in
      prepare_personalized_pow f growth percent_rot h17 head_1 view.range

  unfoldable pub complete_after : DbHead → Option DbHead → HeadView → List IindexEntry → DbHead
  complete_after head none view rows =
      let numbered = prepare_number head none in complete_from numbered numbered view rows
  complete_after head (some head_1) view rows =
      let numbered = prepare_number head (some head_1) in complete_from numbered head_1 view rows

  unfoldable pub complete_head : BlockDto → String → ℕ → HeadView → List IindexEntry → DbHead
  unfolding complete_after
  complete_head block hash bsize view rows =
      complete_after (new_head block hash bsize) view.head_1 view rows

  -- The HEADs that the code can compute, from a root block on. A range is an array, which has fewer
  -- than 2^32 elements.
  pub data Computed : DbHead → Type 0 where
    root :
        (block : BlockDto) (hash : String) (bsize : ℕ) (view : HeadView) (rows : List IindexEntry)
        → view.head_1 ≡ none
        → block.pow_min % 16 ≢ 15
        → Computed (complete_head block hash bsize view rows)
    next :
        (block : BlockDto) (hash : String) (bsize : ℕ) (view : HeadView) (rows : List IindexEntry)
        {head_1 : DbHead}
        → view.head_1 ≡ some head_1
        → ((n m : ℤ) → length (view.range n m) < 2 ^ 32)
        → Computed head_1
        → Computed (complete_head block hash bsize view rows)
