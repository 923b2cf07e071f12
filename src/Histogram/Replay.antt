-- ===== src/Histogram/Replay.antt =====
-- The run of the former histogram over what is recorded: `simulatePlay` and `genSimCharts`
-- (new-web-test/js/old_/histogram/player.js), one call per timer.
use inc_visage.Common.{
  ℤ, true, false, not, ◌&&◌, Option, none, some, List, ◌∷◌, inc, dec, ltb_ℤ, leb_ℤ, if◌then◌else◌,
}
use inc_visage.Js.{Flow, next, thrown, ◌>>=◌}
use inc_visage.Refine.{Part, splice_parts}
use inc_visage.Former.{Timer}
use inc_visage.Histogram.{HistogramPage, Bar, undo_two, show}
use inc_visage.Histogram.Play.{reset, play_next}

module _ {F : Type 0} where
  -- The iteration whose array `segmentArr` is taken to be.
  unfoldable pub sim_iter_of : HistogramPage F → ℤ
  sim_iter_of s = if leb_ℤ s.iteration s.x_max then dec s.iteration else s.x_max

  -- The answer of the iteration alone is undone, in the last array, and its parts are spliced in.
  unfoldable pub put_again :
      Option (List (Bar F)) → Option (List (Part (Bar F))) → Option (List (Bar F))
  put_again (some arr) (some ps) = some (splice_parts 0 ps arr)
  put_again _ _ = none

  unfoldable pub replayed : HistogramPage F → Option (List (Bar F))
  replayed s =
      put_again (undo_two 1 s.play_iter s.segment_backward_chain s.segment_arr)
        (s.segment_forward_chain s.play_iter)

  unfoldable pub draw_again : Option (List (Bar F)) → HistogramPage F → Flow (HistogramPage F)
  draw_again none s = thrown s
  draw_again (some arr) s = if s.play_noviz then next s else show s.play_iter (some arr) s

  -- `genSimCharts`. Where the replay has passed what is recorded it ends.
  unfoldable pub gen_sim_charts : HistogramPage F → Flow (HistogramPage F)
  gen_sim_charts s =
      if s.reset_flag
      then next (reset s)
      else if ltb_ℤ (sim_iter_of s) s.play_iter
      then next (record s { simplay_flag = false })
      else (do
        t ← draw_again (replayed s) s
        next (
            if t.simplay_flag && not t.pause_flag
            then record t { timers = Timer.simulate_play ∷ t.timers }
            else t))

  -- The end of a replay at the last iteration.
  unfoldable pub end_replay : HistogramPage F → HistogramPage F
  end_replay s = record s {
    back_flag = true;
    backward_iter = if s.pause_flag then s.backward_iter else s.x_max;
    play_lit = false;
    forward_lit = false;
    back_lit = true;
    forward_iter = s.x_max;
    play_flag = false;
  }

  -- `simulatePlay`
  unfoldable pub simulate : HistogramPage F → Flow (HistogramPage F)
  simulate s =
      let t = record s { play_iter = inc s.play_iter } in
      if s.reset_flag
      then next (reset s)
      else if leb_ℤ t.play_iter t.x_max
      then gen_sim_charts t
      else next (end_replay t)

  -- A timer runs off.
  unfoldable pub fire : Timer → HistogramPage F → Flow (HistogramPage F)
  fire Timer.play s = next (play_next s)
  fire Timer.simulate_play s = simulate s
