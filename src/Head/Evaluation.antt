-- ===== src/Head/Evaluation.antt =====
-- When the difficulty is evaluated, and the levels that it can take.
use duniter.Base.{◌+◌, ◌%◌, ◌≤◌, ◌<◌, ◌≡◌, ◌≢◌, ◌↔◌, arith}
use duniter.Base.Floats.{Floats}
use duniter.Head.{DbHead, ConfDto}
use duniter.Head.Difficulty.{prepare_diff_number, prepare_pow_min}

-- If `dtDiffEval` is not 0, the HEAD has the number after the previous one, and the evaluation of
-- that one lies ahead by at most `dtDiffEval` blocks, then so does the next evaluation; it moves
-- exactly when the block that was due is reached.
pub prepare_diff_number_bounds :
    (head head_1 : DbHead) (conf : ConfDto)
    → 0 < conf.dt_diff_eval
    → head.number ≡ head_1.number + 1
    → head_1.number < head_1.diff_number
    → head_1.diff_number ≤ head_1.number + conf.dt_diff_eval
    → let next = prepare_diff_number head head_1 conf in
      (next.number < next.diff_number)
      × (next.diff_number ≤ next.number + conf.dt_diff_eval)
      × ((next.diff_number ≢ head_1.diff_number) ↔ (head.number ≡ head_1.diff_number))
unfolding prepare_diff_number
prepare_diff_number_bounds head head_1 conf dt n lt le = ground arith

module _ (f : Floats) (growth percent_rot : f.Number) where
  -- After the root, from a level whose remainder is not 15, the common difficulty moves by two
  -- levels at most, only at an evaluation, and never comes to
  -- rest on a level whose remainder is 15, for which no hexadecimal digit is left.
  pub prepare_pow_min_levels :
      (head head_1 : DbHead) (conf : ConfDto)
      → 0 < head.number
      → head_1.pow_min % 16 ≢ 15
      → let next = prepare_pow_min f growth percent_rot head head_1 conf in
        (next.pow_min % 16 ≢ 15)
        × (next.pow_min ≤ head_1.pow_min + 2)
        × (head_1.pow_min ≤ next.pow_min + 2)
        × (head.diff_number ≡ head_1.diff_number → next.pow_min ≡ head_1.pow_min)
  unfolding prepare_pow_min
  prepare_pow_min_levels head head_1 conf n h = ground arith

  pub prepare_pow_min_root :
      (head head_1 : DbHead) (conf : ConfDto)
      → head.number ≡ 0
      → (prepare_pow_min f growth percent_rot head head_1 conf).pow_min ≡ head.pow_min
  unfolding prepare_pow_min
  prepare_pow_min_root head head_1 conf n = ground arith
