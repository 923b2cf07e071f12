-- ===== src/Former/Replay.antt =====
-- The run of the former heatmap over what is recorded: `simulatePlay` and `genSimCharts`
-- (new-web-test/js/old_/heatmap/player.js), one call per timer.
use inc_visage.Common.{
  true, false, not, ◌&&◌, Option, none, some, List, ◌∷◌, inc, ltb_ℤ, leb_ℤ, if◌then◌else◌,
}
use inc_visage.Js.{Flow, next, thrown, ◌>>=◌}
use inc_visage.Refine.{Part, splice_parts}
use inc_visage.Former.{FormerPage, Shape, Timer, current_iter_of, rebuild, show}
use inc_visage.Former.Play.{reset, play_next}

module _ {F : Type 0} where
  -- The parts of the iteration are spliced into the array that was rebuilt for it.
  unfoldable pub put_again :
      Option (List (Shape F)) → Option (List (Part (Shape F))) → Option (List (Shape F))
  put_again (some arr) (some ps) = some (splice_parts 0 ps arr)
  put_again _ _ = none

  unfoldable pub draw_again : Option (List (Shape F)) → FormerPage F → Flow (FormerPage F)
  draw_again none s = thrown s
  draw_again (some arr) s = if s.play_noviz then next s else show s.play_iter (some arr) s

  -- `genSimCharts`. Where the replay has passed what is recorded it ends.
  unfoldable pub gen_sim_charts : FormerPage F → Flow (FormerPage F)
  gen_sim_charts s =
      let current = current_iter_of s in
      if s.reset_flag
      then next (reset s)
      else if ltb_ℤ current s.play_iter
      then next (record s { simplay_flag = false })
      else (do
        t ←
            draw_again
              (put_again (rebuild current s.play_iter s) (s.segment_forward_chain s.play_iter)) s
        next (
            if t.simplay_flag && not t.pause_flag
            then record t { timers = Timer.simulate_play ∷ t.timers }
            else t))

  -- The end of a replay at the last iteration.
  unfoldable pub end_replay : FormerPage F → FormerPage F
  end_replay s = record s {
    back_flag = true;
    backward_iter = if s.pause_flag then s.backward_iter else s.max_iteration;
    play_lit = false;
    forward_lit = false;
    back_lit = true;
    forward_iter = s.max_iteration;
    play_flag = false;
  }

  -- `simulatePlay`
  unfoldable pub simulate : FormerPage F → Flow (FormerPage F)
  simulate s =
      let t = record s { play_iter = inc s.play_iter } in
      if s.reset_flag
      then next (reset s)
      else if leb_ℤ t.play_iter t.max_iteration
      then gen_sim_charts t
      else next (end_replay t)

  -- A timer runs off.
  unfoldable pub fire : Timer → FormerPage F → Flow (FormerPage F)
  fire Timer.play s = next (play_next s)
  fire Timer.simulate_play s = simulate s
