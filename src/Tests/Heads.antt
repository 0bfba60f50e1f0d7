-- ===== src/Tests/Heads.antt =====
-- HEADs computed from a root block on, and the dividend.
use duniter.Base.{
  true, if◌then◌else◌, ℕ, ◌/◌, ◌+◌, ◌%◌, ◌^◌, ◌≤◌, ◌<◌, ◌≡◌, ◌≢◌, ◌↔◌, refl, inl, inr, some, [],
  ◌∷◌, arith,
}
use duniter.Base.Int.{ℤ, negsuc, leb_ℤ, ltb_ℤ, pos, ◌+ℤ◌, ◌*ℤ◌, ◌≤ℤ◌}
use duniter.Base.Floats.{Floats}
use duniter.Head.{DbHead}
use duniter.Head.Issuers.{Ranger}
use duniter.Head.Difficulty.{FrameStats, prepare_diff_number, prepare_pow_min, personalize}
use duniter.Head.Dividend.{
  prepare_ud_time, inherit_unit_base, reevaluated, prepare_dividend, prepare_money,
}
use duniter.Head.Complete.{HeadView, complete_head, root, next}
use duniter.Head.Complete.Sound.{IsSound, Computed-IsSound}
use duniter.Head.Evaluation.{prepare_diff_number_bounds, prepare_pow_min_levels}
use duniter.Head.Handicap.{EngineLaws, IsPersonal, personalize_levels}
use duniter.Head.Frame.{prepare_frame, IsBalanced, prepare_frame-IsBalanced}
use duniter.Head.Money.{money_created, raw_dividend, mass_follows_dividend, unrecorded_dividend}
use duniter.Block.{BlockDto}
use duniter.Tests.Sample.{whole_numbers, root_block, conf, some_head, next_head, empty_view}

abbrev pub root_head : DbHead
root_head =
    complete_head whole_numbers (pos 1) (pos 0) (pos 1) conf root_block root_block.hash 100
      empty_view []

abbrev second_block : BlockDto
second_block = record root_block { number = 1; issuer = "bob"; hash = "00B1" }

-- Whole numbers, each its own logarithm.
abbrev logarithms : Floats
logarithms = record whole_numbers { log = λ a. a }

abbrev first_head : DbHead
first_head =
    complete_head logarithms (pos 2) (pos 0) (pos 1) conf root_block "00A0" 100 empty_view []

abbrev second_view : HeadView
second_view = record empty_view {
  head_1 = some first_head;
  range = λ n m. first_head ∷ [];
  old_head = λ n. first_head;
}

half_of : (n : ℕ) → 2 ≤ n → leb_ℤ (pos 1) (pos (n / 2)) ≡ true
half_of n h = ground arith

max_of : (a b : ℤ) → leb_ℤ a (if ltb_ℤ a b then b else a) ≡ true
max_of a b = ground arith

next_of : (a : ℤ) → leb_ℤ (pos 0) a ≡ true → leb_ℤ (pos 0) (pos 1 +ℤ a) ≡ true
unfolding ◌+ℤ◌
next_of a h = ground arith

share_of :
    (a b : ℤ)
    → leb_ℤ (pos 0) a ≡ true
    → leb_ℤ (pos 0) b ≡ true
    → leb_ℤ (pos 0) (whole_numbers.div a b) ≡ true
share_of (pos m) (pos n) h k = ground arith
share_of (negsuc m) b h k = absurd (ground arith)
share_of (pos m) (negsuc n) h k = absurd (ground arith)

floor_of : (a : ℤ) → leb_ℤ (pos 0) a ≡ true → pos 0 ≤ℤ a
floor_of a h = ground arith

logarithms-EngineLaws : EngineLaws logarithms (pos 2)
logarithms-EngineLaws = record {
  IsFinite = λ a. Unit;
  whole_finite = λ n h. tt;
  half_large = half_of;
  quotient_finite = λ a b h k. tt;
  less_one_finite = λ a h. tt;
  max_finite = λ a b h k. tt;
  max_large = λ a b h k. max_of a b;
  log_finite = λ a h k. tt;
  log_large = λ a h k. next_of a k;
  quotient_large = λ a b h k l m. share_of a b k l;
  floor_large = floor_of;
  growth_large = refl;
  growth_above = refl;
}

Computed-IsSound_example :
    IsSound conf
      (complete_head logarithms (pos 2) (pos 0) (pos 1) conf second_block "00B1" 50 second_view [])
Computed-IsSound_example =
    Computed-IsSound logarithms (pos 2) (pos 0) (pos 1) conf (ground arith) logarithms-EngineLaws (
      next second_block "00B1" 50 second_view [] refl (λ n m. omega arith)
        (root root_block "00A0" 100 empty_view [] refl (ground arith)))

some_head-IsBalanced : IsBalanced some_head
unfolding ◌+ℤ◌
some_head-IsBalanced = (refl, omega arith)

abbrev two_heads : Ranger
two_heads n m = some_head ∷ next_head ∷ []

prepare_frame-IsBalanced_example : IsBalanced (prepare_frame next_head two_heads some_head)
prepare_frame-IsBalanced_example =
    prepare_frame-IsBalanced next_head some_head two_heads (inr some_head-IsBalanced)

abbrev pub due_head : DbHead
due_head = record next_head { median_time = 1150 }

mass_follows_dividend_example :
    (prepare_money whole_numbers (pos 1) due_head some_head conf).mass
    ≡ some_head.mass +ℤ money_created (prepare_money whole_numbers (pos 1) due_head some_head conf)
mass_follows_dividend_example =
    mass_follows_dividend whole_numbers (pos 1) due_head some_head conf (omega arith) (omega arith)
      (inl (omega arith))

-- The re-evaluation is due at 1040, the next dividend only at 1100.
abbrev rich_head : DbHead
rich_head = record some_head { dividend = pos 9990; ud_reeval_time = 1040 }

grown_dividend : raw_dividend whole_numbers (pos 1) next_head rich_head conf ≡ pos 10490
unfolding reevaluated prepare_dividend prepare_ud_time inherit_unit_base ◌+ℤ◌ ◌*ℤ◌
grown_dividend = refl

grown_dividend_is_long : pos (10 ^ 4) ≤ℤ raw_dividend whole_numbers (pos 1) next_head rich_head conf
unfolding reevaluated prepare_dividend prepare_ud_time inherit_unit_base ◌+ℤ◌ ◌*ℤ◌
grown_dividend_is_long = omega arith

unrecorded_dividend_example :
    ((prepare_money whole_numbers (pos 1) next_head rich_head conf).mass ≡ rich_head.mass)
    × ((prepare_money whole_numbers (pos 1) next_head rich_head conf).new_dividend
        ≡ some (
            whole_numbers.ceil (
              whole_numbers.div
                (raw_dividend whole_numbers (pos 1) next_head rich_head conf)
                (pos 10))))
unrecorded_dividend_example =
    unrecorded_dividend whole_numbers (pos 1) next_head rich_head conf (omega arith)
      (λ early. absurd (omega arith)) grown_dividend_is_long

prepare_diff_number_bounds_example :
    let after = prepare_diff_number next_head some_head conf in
    (after.number < after.diff_number)
    × (after.diff_number ≤ after.number + conf.dt_diff_eval)
    × ((after.diff_number ≢ some_head.diff_number) ↔ (next_head.number ≡ some_head.diff_number))
prepare_diff_number_bounds_example =
    prepare_diff_number_bounds next_head some_head conf (omega arith) refl (omega arith)
      (omega arith)

-- An evaluation on the lowest remainder: a slow chain would drop two levels.
abbrev evaluated_head : DbHead
evaluated_head = record next_head { diff_number = 20 }

abbrev low_head : DbHead
low_head = record some_head { pow_min = 48 }

prepare_pow_min_levels_example :
    let after = prepare_pow_min whole_numbers (pos 1) (pos 0) evaluated_head low_head conf in
    (after.pow_min % 16 ≢ 15)
    × (after.pow_min ≤ low_head.pow_min + 2)
    × (low_head.pow_min ≤ after.pow_min + 2)
    × (evaluated_head.diff_number ≡ low_head.diff_number → after.pow_min ≡ low_head.pow_min)
prepare_pow_min_levels_example =
    prepare_pow_min_levels whole_numbers (pos 1) (pos 0) evaluated_head low_head conf (omega arith)
      (ground arith)

abbrev stats : FrameStats
stats = record {
  personal_blocks = 3;
  twice_median_blocks = 4;
  previous_issuers = 5;
  blocks_since = 1;
}

personalize_levels_example : IsPersonal 33 (personalize logarithms (pos 2) (pos 1) stats some_head)
personalize_levels_example =
    personalize_levels logarithms (pos 2) (pos 1) logarithms-EngineLaws stats some_head
      (omega arith) (omega arith)
