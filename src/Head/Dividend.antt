-- ===== src/Head/Dividend.antt =====
-- app/lib/indexer.ts, BR_G11 and BR_G13 to BR_G15: the times of the universal dividend, its amount,
-- the unit base and the monetary mass.
use duniter.Base.{◌+◌, ◌^◌, not, none, some, leb, ◌==◌, if◌then◌else◌}
use duniter.Base.Int.{ℤ, pos, ◌+ℤ◌, ◌*ℤ◌, leb_ℤ}
use duniter.Base.Floats.{Floats}
use duniter.Head.{DbHead, ConfDto}

-- BR_G11
unfoldable pub prepare_ud_time : DbHead → DbHead → ConfDto → DbHead
prepare_ud_time head head_1 conf = record head {
  ud_time =
      if head.number == 0
      then conf.ud_time0
      else if leb head_1.ud_time head.median_time
      then head_1.ud_time + conf.dt
      else head_1.ud_time;
  ud_reeval_time =
      if head.number == 0
      then conf.ud_reeval_time0
      else if leb head_1.ud_reeval_time head.median_time
      then head_1.ud_reeval_time + conf.dt_reeval
      else head_1.ud_reeval_time;
}

-- BR_G12
unfoldable pub inherit_unit_base : DbHead → DbHead → DbHead
inherit_unit_base head head_1 = record head {
  unit_base = if head.number == 0 then 0 else head_1.unit_base;
}

-- The formula of the re-evaluated dividend, with `c` the growth parameter of the currency.
unfoldable pub reevaluated : (f : Floats) → f.Number → DbHead → DbHead → ConfDto → ℤ
reevaluated f c head head_1 conf =
    let based =
      f.ceil (f.div (f.of_int head_1.mass_reeval) (f.of_int (pos (10 ^ head_1.unit_base)))) in
    f.ceil (
      f.add (f.of_int head_1.dividend) (
        f.div (f.div (f.mul (f.square c) (f.of_int based)) (f.of_int head.members_count))
          (f.div (f.of_int (pos conf.dt_reeval)) (f.of_int (pos conf.dt)))))

-- BR_G13
unfoldable pub prepare_dividend : (f : Floats) → f.Number → DbHead → DbHead → ConfDto → DbHead
prepare_dividend f c head head_1 conf =
    let dividend =
      if head.number == 0
      then conf.ud0
      else if not (head.ud_reeval_time == head_1.ud_reeval_time)
      then reevaluated f c head head_1 conf
      else head_1.dividend in
    record head {
      dividend = dividend;
      new_dividend =
          if head.number == 0
          then none
          else if not (head.ud_time == head_1.ud_time)
          then some dividend
          else none;
    }

-- BR_G14; 4 is NB_DIGITS_UD.
unfoldable pub prepare_unit_base : Floats → DbHead → DbHead
prepare_unit_base f head =
    let too_long = leb_ℤ (pos (10 ^ 4)) head.dividend in
    let tenth = f.ceil (f.div (f.of_int head.dividend) (f.of_int (pos 10))) in
    record head {
      dividend = if too_long then tenth else head.dividend;
      new_dividend = if too_long then some tenth else head.new_dividend;
      unit_base = if too_long then head.unit_base + 1 else head.unit_base;
    }

-- BR_G15
unfoldable pub prepare_mass : DbHead → DbHead → DbHead
prepare_mass head head_1 = record head {
  mass =
      if head.number == 0
      then pos 0
      else if not (head.ud_time == head_1.ud_time)
      then head_1.mass +ℤ head.dividend *ℤ pos (10 ^ head.unit_base) *ℤ head.members_count
      else head_1.mass;
  mass_reeval =
      if head.number == 0
      then pos 0
      else if not (head.ud_reeval_time == head_1.ud_reeval_time)
      then head_1.mass
      else head_1.mass_reeval;
}

-- BR_G11 to BR_G15, in the order of the source.
unfoldable pub prepare_money : (f : Floats) → f.Number → DbHead → DbHead → ConfDto → DbHead
unfolding prepare_ud_time inherit_unit_base prepare_dividend prepare_unit_base prepare_mass
prepare_money f c head head_1 conf =
    let timed = prepare_ud_time head head_1 conf in
    let based = inherit_unit_base timed head_1 in
    let paid = prepare_dividend f c based head_1 conf in
    prepare_mass (prepare_unit_base f paid) head_1
