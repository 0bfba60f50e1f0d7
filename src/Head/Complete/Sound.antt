-- ===== src/Head/Complete/Sound.antt =====
-- About the HEADs that `completeGlobalScope` computes (app/lib/indexer.ts).
use duniter.Base.{
  ◌+◌, ◌^◌, ◌%◌, ◌≤◌, ◌<◌, ◌≡◌, ◌≢◌, refl, sym, subst, inl, inr, List, arith, length,
}
use duniter.Base.Floats.{Floats}
use duniter.Head.{DbHead, ConfDto}
use duniter.Head.Complete.{
  new_head, HeadView, complete_until_speed, complete_from, complete_after, complete_head, Computed,
  root, next, prepare_median_time,
}
use duniter.Head.Issuers.{prepare_number}
use duniter.Head.Difficulty.{frame_stats, prepare_pow_min}
use duniter.Head.Frame.{IsBalanced, prepare_frame-IsBalanced}
use duniter.Head.Evaluation.{
  prepare_pow_min_root, prepare_diff_number_bounds, prepare_pow_min_levels,
}
use duniter.Head.Handicap.{EngineLaws, IsPersonal, personalize_levels, frame_stats-IsSmall}
use duniter.Base.Int.{ℤ, pos}
use duniter.Index.{IindexEntry}

pub record IsSound (conf : ConfDto) (h : DbHead) : Type 0 where
  pub balanced : IsBalanced h
  pub evaluation_ahead : h.number < h.diff_number
  pub evaluation_near : h.diff_number ≤ h.number + conf.dt_diff_eval
  pub level : h.pow_min % 16 ≢ 15
  pub personal : IsPersonal h.pow_min h

module _ (f : Floats) (growth percent_rot c : f.Number) (conf : ConfDto)
    (dt : 0 < conf.dt_diff_eval) (laws : EngineLaws f growth) where
  median_grows :
      (numbered head_1 : DbHead) (view : HeadView)
      → 0 < numbered.number
      → head_1.median_time ≤ (prepare_median_time numbered head_1 view.range conf).median_time
  unfolding prepare_median_time
  median_grows numbered head_1 view n = ground arith

  -- From a sound HEAD the next one is sound, bears the next number, and its median time is not
  -- earlier.
  pub complete_from-IsSound :
      (numbered head_1 : DbHead) (view : HeadView) (rows : List IindexEntry)
      → numbered.number ≡ head_1.number + 1
      → ((n m : ℤ) → length (view.range n m) < 2 ^ 32)
      → IsSound conf head_1
      → let next = complete_from f growth percent_rot c conf numbered head_1 view rows in
        IsSound conf next × (head_1.median_time ≤ next.median_time)
  unfolding complete_from
  complete_from-IsSound numbered head_1 view rows n array s =
      let h16 = complete_until_speed f growth percent_rot c conf numbered head_1 view rows in
      let h17 = prepare_pow_min f growth percent_rot h16 head_1 conf in
      let ahead =
        prepare_diff_number_bounds numbered head_1 conf dt n s.evaluation_ahead s.evaluation_near in
      let levels =
        prepare_pow_min_levels f growth percent_rot h16 head_1 conf (omega arith) s.level in
      let small =
        frame_stats-IsSmall h17 head_1 view.range (inr (array (pos 1) head_1.issuers_frame)) in
      let personal =
        personalize_levels f growth percent_rot laws (frame_stats h17 head_1 view.range) h17 small.0
          small.1 in
      (
        record {
          balanced = prepare_frame-IsBalanced numbered head_1 view.range (inr s.balanced);
          evaluation_ahead = ahead.0;
          evaluation_near = ahead.1;
          level = levels.0;
          personal = personal;
        },
        median_grows numbered head_1 view (omega arith),
      )

  complete_from-IsSound_root :
      (numbered head_1 : DbHead) (view : HeadView) (rows : List IindexEntry)
      → numbered.number ≡ 0
      → numbered.pow_min % 16 ≢ 15
      → IsSound conf (complete_from f growth percent_rot c conf numbered head_1 view rows)
  unfolding complete_from
  complete_from-IsSound_root numbered head_1 view rows n level =
      let h16 = complete_until_speed f growth percent_rot c conf numbered head_1 view rows in
      let h17 = prepare_pow_min f growth percent_rot h16 head_1 conf in
      let small = frame_stats-IsSmall h17 head_1 view.range (inl n) in
      let personal =
        personalize_levels f growth percent_rot laws (frame_stats h17 head_1 view.range) h17 small.0
          small.1 in
      record {
        balanced = prepare_frame-IsBalanced numbered head_1 view.range (inl n);
        evaluation_ahead = ground arith;
        evaluation_near = ground arith;
        level = rw (prepare_pow_min_root f growth percent_rot h16 head_1 conf n) level;
        personal = personal;
      }

  -- If `dtDiffEval` is not 0, the numbers of the engine keep their laws, and the root announces a
  -- difficulty whose remainder by 16 is not 15, every computed HEAD is sound, whatever the blocks and
  -- the stored data say: its issuers frame is in balance, its next evaluation lies ahead by at most
  -- `dtDiffEval`, its difficulty is a level in use, and its personalized difficulty is at least that
  -- and split into zeros and a remainder below 15.
  pub Computed-IsSound : {h : DbHead} → Computed f growth percent_rot c conf h → IsSound conf h
  unfolding complete_head new_head prepare_number
  Computed-IsSound (root block hash bsize view rows e level) =
      subst
        (λ o.
          IsSound conf
            (complete_after f growth percent_rot c conf (new_head block hash bsize) o view rows))
        (sym e) (complete_from-IsSound_root _ _ view rows refl level)
  Computed-IsSound (next block hash bsize view rows e array r) =
      subst
        (λ o.
          IsSound conf
            (complete_after f growth percent_rot c conf (new_head block hash bsize) o view rows))
        (sym e) (complete_from-IsSound _ _ view rows refl array (Computed-IsSound r)).0
