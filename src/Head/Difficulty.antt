-- ===== src/Head/Difficulty.antt =====
-- app/lib/indexer.ts, BR_G09 and BR_G16 to BR_G18: when the difficulty is evaluated, the speed of
-- the chain, the common difficulty and the personalized one.
use duniter.Base.{
  ℕ, ◌+◌, ◌-◌, ◌*◌, ◌/◌, ◌%◌, min, max, Bool, not, ◌&&◌, Option, none, some, List, [], ◌∷◌, map,
  length, uniq, filter_by, get_elem?, leb, ◌==◌, str_eq, if◌then◌else◌,
}
use duniter.Base.Int.{ℤ, pos, negsuc, ◌+ℤ◌, ◌-ℤ◌, ◌*ℤ◌, eqb_ℤ, ltb_ℤ}
use duniter.Base.Floats.{Floats}
use duniter.Head.{DbHead, ConfDto, Speed, fixed, ratio}
use duniter.Head.Issuers.{Ranger}

-- BR_G09
unfoldable pub prepare_diff_number : DbHead → DbHead → ConfDto → DbHead
prepare_diff_number head head_1 conf = record head {
  diff_number =
      if head.number == 0
      then head.number + conf.dt_diff_eval
      else if leb head_1.diff_number head.number
      then head_1.diff_number + conf.dt_diff_eval
      else head_1.diff_number;
}

-- BR_G16; `old_head` is `head(n)`, the n-th last HEAD.
unfoldable pub prepare_speed : DbHead → (ℕ → DbHead) → ConfDto → DbHead
prepare_speed head old_head conf =
    let quantity = min conf.dt_diff_eval head.number in
    let elapsed = pos head.median_time -ℤ pos (old_head quantity).median_time in
    record head {
      speed =
          if head.number == 0
          then fixed 0
          else if eqb_ℤ elapsed (pos 0)
          then fixed 100
          else ratio quantity elapsed;
    }

-- `values.sort(…)`, in increasing order.
insert_sorted : ℕ → List ℕ → List ℕ
insert_sorted v [] = v ∷ []
insert_sorted v (x ∷ xs) = if leb v x then v ∷ x ∷ xs else x ∷ insert_sorted v xs

sort_values : List ℕ → List ℕ
unfolding insert_sorted
sort_values [] = []
sort_values (v ∷ vs) = insert_sorted v (sort_values vs)

abbrev value_or_zero : Option ℕ → ℕ
value_or_zero none = 0
value_or_zero (some v) = v

-- Twice what `median` returns: of an even number of values it is half a sum, and is not rounded.
unfoldable pub twice_median : List ℕ → ℕ
unfolding sort_values
twice_median values =
    let vs = sort_values values in
    let n = length vs in
    if n == 0
    then 0
    else if n % 2 == 0
    then value_or_zero (get_elem? vs (n / 2)) + value_or_zero (get_elem? vs (n / 2 - 1))
    else 2 * value_or_zero (get_elem? vs ((n + 1) / 2 - 1))

-- What BR_G18 reads in the frame: the issuer's blocks, twice the median of the blocks per issuer
-- (at least 2), the issuers before the last block of this issuer, and the blocks since.
pub record FrameStats : Type 0 where
  pub personal_blocks : ℕ
  pub twice_median_blocks : ℕ
  pub previous_issuers : ℕ
  pub blocks_since : ℕ

unfoldable pub frame_stats : DbHead → DbHead → Ranger → FrameStats
unfolding twice_median
frame_stats head head_1 range =
    let blocks_in_frame =
      filter_by (λ b. leb b.number head_1.number) (range (pos 1) head_1.issuers_frame) in
    let blocks_of_issuer = filter_by (λ b. str_eq b.issuer head.issuer) blocks_in_frame in
    let issuers = uniq (map (λ b. b.issuer) blocks_in_frame) in
    let counts =
      map (λ i. length (filter_by (λ (b : DbHead). str_eq b.issuer i) blocks_in_frame)) issuers in
    let last = get_elem? blocks_of_issuer 0 in
    if head.number == 0
    then record {
      personal_blocks = 0;
      twice_median_blocks = 2;
      previous_issuers = 0;
      blocks_since = 0;
    }
    else record {
      personal_blocks = length blocks_of_issuer;
      twice_median_blocks = max 2 (twice_median counts);
      previous_issuers = elim last [ none ↦ 0 | some b ↦ b.issuers_count ];
      blocks_since = elim last [ none ↦ 0 | some b ↦ head_1.number - b.number ];
    }

-- `x % 16`, which has the sign of `x`, and `(x - x % 16) / 16`.
abbrev pub remainder_16 : ℤ → ℤ
remainder_16 (pos n) = pos (n % 16)
remainder_16 (negsuc n) = pos 0 -ℤ pos ((n + 1) % 16)

abbrev pub quotient_16 : ℤ → ℤ
quotient_16 (pos n) = pos ((n - n % 16) / 16)
quotient_16 (negsuc n) = pos 0 -ℤ pos ((n + 1 - (n + 1) % 16) / 16)

abbrev pub max_ℤ : ℤ → ℤ → ℤ
max_ℤ x y = if ltb_ℤ x y then y else x

-- `growth` is POW_DIFFICULTY_RANGE_RATIO, 1.189, and `percent_rot` the parameter of the currency.
module _ (f : Floats) (growth percent_rot : f.Number) where
  abbrev int : ℕ → f.Number
  int n = f.of_int (pos n)

  abbrev speed_value : Speed → f.Number
  speed_value (fixed n) = int n
  speed_value (ratio n z) = f.div (int n) (f.of_int z)

  -- `HEAD.speed >= 1 / minGenTime`
  unfoldable pub too_fast : Speed → ConfDto → Bool
  too_fast speed conf =
      f.ge (speed_value speed)
        (f.div (int 1) (f.of_int (f.floor (f.div (int conf.avg_gen_time) growth))))

  -- `HEAD.speed <= 1 / maxGenTime`
  unfoldable pub too_slow : Speed → ConfDto → Bool
  too_slow speed conf =
      f.ge (f.div (int 1) (f.of_int (f.ceil (f.mul (int conf.avg_gen_time) growth))))
        (speed_value speed)

  -- BR_G17
  unfoldable pub prepare_pow_min : DbHead → DbHead → ConfDto → DbHead
  prepare_pow_min head head_1 conf =
      let evaluated = not (head.diff_number == head_1.diff_number) in
      let fast = too_fast head.speed conf in
      let slow = too_slow head.speed conf in
      record head {
        pow_min =
            if head.number == 0
            then head.pow_min
            else if evaluated && fast && (head_1.pow_min + 2) % 16 == 0
            then head_1.pow_min + 2
            else if evaluated && fast
            then head_1.pow_min + 1
            else if evaluated && slow && head_1.pow_min % 16 == 0
            then head_1.pow_min - 2
            else if evaluated && slow
            then head_1.pow_min - 1
            else head_1.pow_min;
      }

  unfoldable pub personal_handicap : FrameStats → ℤ
  personal_handicap s =
      let median = f.div (int s.twice_median_blocks) (int 2) in
      let excess = f.max_of (int 0) (f.sub (f.div (int (s.personal_blocks + 1)) median) (int 1)) in
      f.floor (f.div (f.log (f.add (int 1) excess)) (f.log growth))

  unfoldable pub personal_factor : FrameStats → ℤ
  personal_factor s =
      f.floor (f.div (f.mul percent_rot (int s.previous_issuers)) (int (1 + s.blocks_since)))

  -- BR_G18, from the statistics of the frame.
  unfoldable pub personalize : FrameStats → DbHead → DbHead
  personalize s head =
      let common = pos head.pow_min in
      let level = max_ℤ common (common *ℤ personal_factor s) +ℤ personal_handicap s in
      let diff = if eqb_ℤ (remainder_16 (level +ℤ pos 1)) (pos 0) then level +ℤ pos 1 else level in
      record head {
        issuer_diff = diff;
        pow_remainder = remainder_16 diff;
        pow_zeros = quotient_16 diff;
      }

  unfoldable pub prepare_personalized_pow : DbHead → DbHead → Ranger → DbHead
  prepare_personalized_pow head head_1 range = personalize (frame_stats head head_1 range) head
