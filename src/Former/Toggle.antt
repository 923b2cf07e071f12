-- ===== src/Former/Toggle.antt =====
-- The handlers of the former heatmap for the button that plays and pauses, `#repeat` and `#save`
-- (new-web-test/js/old_/heatmap/player.js).
use inc_visage.Common.{
  ℤ, true, false, ◌&&◌, Option, none, some, List, dec, ltb_ℤ, leb_ℤ, if◌then◌else◌,
}
use inc_visage.Js.{Flow, next, thrown, ◌>>=◌}
use inc_visage.Trend.State.{Icon, graph, snapshot}
use inc_visage.Former.{FormerPage, Shape, render, kept_iter_of, rebuild}
use inc_visage.Former.Play.{play_next, reset}
use inc_visage.Former.Replay.{simulate}

module _ {F : Type 0} where
  -- Where the run is paused.
  unfoldable pub freeze : FormerPage F → Flow (FormerPage F)
  freeze s = if s.simplay_flag then next (record s { pause_iter = s.play_iter }) else (do
    let i = dec s.iteration
    t ← render graph i s.segment_arr (record s { pause_iter = i })
    next (record t { seekbar_value = i; simplay_flag = true }))

  -- The rest of the branch of a click on "pause".
  unfoldable pub settle : FormerPage F → FormerPage F
  settle s =
      let i = if ltb_ℤ s.max_iteration s.pause_iter then s.max_iteration else s.pause_iter in
      record s {
        seekbar_max = if ltb_ℤ s.seekbar_max s.pause_iter then s.pause_iter else s.seekbar_max;
        pause_flag = true;
        play_flag = false;
        play_noviz = true;
        back_flag = true;
        forward_flag = true;
        pause_iter = i;
        icon = Icon.play;
        play_lit = true;
        back_lit = true;
        forward_lit = true;
        forward_iter = i;
        backward_iter = i;
        play_iter = i;
        max_pause = if ltb_ℤ s.max_pause i then i else s.max_pause;
      }

  unfoldable pub pause_run : FormerPage F → Flow (FormerPage F)
  pause_run s = do t ← freeze s; next (settle t)

  abbrev pub dim_steps : FormerPage F → FormerPage F
  dim_steps s = record s { forward_lit = false; back_lit = false }

  unfoldable pub replay : FormerPage F → Flow (FormerPage F)
  replay s = simulate (dim_steps (record s { play_iter = dec s.play_iter }))

  unfoldable pub show_last : FormerPage F → Flow (FormerPage F)
  show_last s = do
    t ← render graph s.max_iteration s.segment_arr (record s { back_lit = true })
    next (record t { seekbar_value = s.max_iteration })

  -- The branch of a click on "play", after its assignments.
  unfoldable pub start_run : FormerPage F → Flow (FormerPage F)
  start_run s =
      if leb_ℤ s.max_iteration s.iteration
      then if ltb_ℤ s.play_iter s.max_iteration && leb_ℤ s.iteration_low s.play_iter
        then replay (record s { simplay_flag = true })
        else show_last s
      else if s.simplay_flag
      then replay s
      else next (play_next (dim_steps s))

  unfoldable pub click_icon : Icon → FormerPage F → Flow (FormerPage F)
  click_icon Icon.pause s = pause_run s
  click_icon Icon.play s = start_run (record s {
    icon = Icon.pause;
    forward_flag = false;
    back_flag = false;
    pause_flag = false;
    play_flag = true;
    play_noviz = false;
    reset_flag = false;
  })

  -- The handler of `#play`; a dim button does nothing.
  unfoldable pub click_play : FormerPage F → Flow (FormerPage F)
  click_play s = if s.play_lit then click_icon s.icon s else next s

  -- The handler of `#repeat`.
  unfoldable pub click_repeat : FormerPage F → FormerPage F
  click_repeat s = reset (record s { reset_flag = true })

  unfoldable pub snap_iter : FormerPage F → ℤ
  snap_iter s =
      if s.back_flag
      then s.backward_iter
      else if s.forward_flag
      then s.forward_iter
      else if s.simplay_flag
      then s.play_iter
      else s.iteration

  -- The array that was rebuilt is drawn into the snapshot and once more into the graph.
  unfoldable pub snap : ℤ → Option (List (Shape F)) → FormerPage F → Flow (FormerPage F)
  snap i none s = thrown s
  snap i (some arr) s = do t ← render snapshot i arr s; render graph i arr t

  -- The handler of `#save`.
  unfoldable pub click_save : FormerPage F → Flow (FormerPage F)
  click_save s = let i = snap_iter s in snap i (rebuild (kept_iter_of s) i s) s
