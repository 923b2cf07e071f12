-- ===== src/Histogram/Toggle.antt =====
-- The handlers of the former histogram for the button that plays and pauses, `#repeat` and `#save`
-- (new-web-test/js/old_/histogram/player.js).
use inc_visage.Common.{
  ℤ, true, false, ◌&&◌, Option, none, some, List, dec, ltb_ℤ, leb_ℤ, if◌then◌else◌,
}
use inc_visage.Js.{Flow, next, thrown, ◌>>=◌}
use inc_visage.Trend.State.{Icon, graph, snapshot}
use inc_visage.Histogram.{HistogramPage, Bar, render, kept_iter_of, rebuild}
use inc_visage.Histogram.Play.{play_next, reset}
use inc_visage.Histogram.Replay.{simulate}

module _ {F : Type 0} where
  -- Where the run is paused.
  unfoldable pub freeze : HistogramPage F → Flow (HistogramPage F)
  freeze s = if s.simplay_flag then next (record s { pause_iter = s.play_iter }) else (do
    let i = dec s.iteration
    t ← render graph i s.segment_arr (some s.estimate_arr) (record s { pause_iter = i })
    next (record t { seekbar_value = i; simplay_flag = true }))

  -- The rest of the branch of a click on "pause".
  unfoldable pub settle : HistogramPage F → HistogramPage F
  settle s =
      let i = if ltb_ℤ s.x_max s.pause_iter then s.x_max else s.pause_iter in
      record s {
        seekbar_max = if ltb_ℤ s.seekbar_max s.pause_iter then s.pause_iter else s.seekbar_max;
        pause_flag = true;
        play_flag = false;
        play_noviz = true;
        back_flag = true;
        forward_flag = true;
        pause_iter = i;
        icon = Icon.play;
        play_lit = true;
        back_lit = true;
        forward_lit = true;
        forward_iter = i;
        backward_iter = i;
        play_iter = i;
        max_pause = if ltb_ℤ s.max_pause i then i else s.max_pause;
      }

  unfoldable pub pause_run : HistogramPage F → Flow (HistogramPage F)
  pause_run s = do t ← freeze s; next (settle t)

  abbrev pub dim_steps : HistogramPage F → HistogramPage F
  dim_steps s = record s { forward_lit = false; back_lit = false }

  unfoldable pub replay : HistogramPage F → Flow (HistogramPage F)
  replay s = simulate (dim_steps (record s { play_iter = dec s.play_iter }))

  unfoldable pub show_last : HistogramPage F → Flow (HistogramPage F)
  show_last s = do
    t ← render graph s.x_max s.segment_arr (some s.estimate_arr) (record s { back_lit = true })
    next (record t { seekbar_value = s.x_max })

  -- The branch of a click on "play", after its assignments.
  unfoldable pub start_run : HistogramPage F → Flow (HistogramPage F)
  start_run s =
      if leb_ℤ s.x_max s.iteration
      then if ltb_ℤ s.play_iter s.x_max && leb_ℤ s.x_min s.play_iter
        then replay (record s { simplay_flag = true })
        else show_last s
      else if s.simplay_flag
      then replay s
      else next (play_next (dim_steps s))

  unfoldable pub click_icon : Icon → HistogramPage F → Flow (HistogramPage F)
  click_icon Icon.pause s = pause_run s
  click_icon Icon.play s = start_run (record s {
    icon = Icon.pause;
    forward_flag = false;
    back_flag = false;
    pause_flag = false;
    play_flag = true;
    play_noviz = false;
    reset_flag = false;
  })

  -- The handler of `#play`; a dim button does nothing.
  unfoldable pub click_play : HistogramPage F → Flow (HistogramPage F)
  click_play s = if s.play_lit then click_icon s.icon s else next s

  -- The handler of `#repeat`.
  unfoldable pub click_repeat : HistogramPage F → HistogramPage F
  click_repeat s = reset (record s { reset_flag = true })

  unfoldable pub snap_iter : HistogramPage F → ℤ
  snap_iter s =
      if s.back_flag
      then s.backward_iter
      else if s.forward_flag
      then s.forward_iter
      else if s.simplay_flag
      then s.play_iter
      else s.iteration

  -- The array that was rebuilt is drawn into the snapshot and once more into the graph.
  unfoldable pub snap : ℤ → Option (List (Bar F)) → HistogramPage F → Flow (HistogramPage F)
  snap i none s = thrown s
  snap i (some arr) s = do
    t ← render snapshot i arr (s.estimate_chain i) s
    render graph i arr (t.estimate_chain i) t

  -- The handler of `#save`.
  unfoldable pub click_save : HistogramPage F → Flow (HistogramPage F)
  click_save s = let i = snap_iter s in snap i (rebuild (kept_iter_of s) i s) s
