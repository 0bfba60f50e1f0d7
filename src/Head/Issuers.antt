-- ===== src/Head/Issuers.antt =====
-- app/lib/indexer.ts, BR_G01 and BR_G04 to BR_G07: the number of the block, the count of issuers,
-- the frame that it is counted in, and the average block size.
use duniter.Base.{
  ℕ, ◌+◌, ◌/◌, Option, none, some, List, [], ◌∷◌, map, foldl, length, uniq, ◌==◌, if◌then◌else◌,
}
use duniter.Base.Int.{ℤ, pos, ◌+ℤ◌, ◌-ℤ◌, ltb_ℤ, five_times}
use duniter.Head.{DbHead}

-- `range(n, m)`: the n-th to the m-th last HEADs; the functions take it from their caller.
abbrev pub Ranger : Type 0
Ranger = ℤ → ℤ → List DbHead

-- BR_G01
unfoldable pub prepare_number : DbHead → Option DbHead → DbHead
prepare_number head none = record head { number = 0 }
prepare_number head (some head_1) = record head { number = head_1.number + 1 }

-- BR_G04
unfoldable pub prepare_issuers_count : DbHead → Ranger → DbHead → DbHead
prepare_issuers_count head range head_1 = record head {
  issuers_count =
      if head.number == 0
      then 0
      else length (uniq (map (λ h. h.issuer) (range (pos 1) head_1.issuers_frame)));
}

-- BR_G05
unfoldable pub prepare_issuers_frame : DbHead → DbHead → DbHead
prepare_issuers_frame head head_1 = record head {
  issuers_frame =
      if head.number == 0
      then pos 1
      else if ltb_ℤ (pos 0) head_1.issuers_frame_var
      then head_1.issuers_frame +ℤ pos 1
      else if ltb_ℤ head_1.issuers_frame_var (pos 0)
      then head_1.issuers_frame -ℤ pos 1
      else head_1.issuers_frame;
}

-- BR_G06
unfoldable pub prepare_issuers_frame_var : DbHead → DbHead → DbHead
prepare_issuers_frame_var head head_1 =
    let issuers_var = pos head.issuers_count -ℤ pos head_1.issuers_count in
    record head {
      issuers_frame_var =
          if head.number == 0
          then pos 0
          else if ltb_ℤ (pos 0) head_1.issuers_frame_var
          then head_1.issuers_frame_var +ℤ five_times issuers_var -ℤ pos 1
          else if ltb_ℤ head_1.issuers_frame_var (pos 0)
          then head_1.issuers_frame_var +ℤ five_times issuers_var +ℤ pos 1
          else head_1.issuers_frame_var +ℤ five_times issuers_var;
    }

-- `Math.floor` of the mean, 0 for no values.
unfoldable pub average : List ℕ → ℕ
average [] = 0
average (v ∷ vs) = foldl (λ sum x. sum + x) 0 (v ∷ vs) / length (v ∷ vs)

-- BR_G07
unfoldable pub prepare_avg_block_size : DbHead → Ranger → DbHead
prepare_avg_block_size head range = record head {
  avg_block_size = average (map (λ h. h.bsize) (range (pos 1) (pos head.issuers_count)));
}
