-- ===== src/Trend/Toggle.antt =====
-- The handler of the button that plays and pauses, and that of `#repeat`.
use inc_visage.Common.{true, false, ◌&&◌, dec, ltb_ℤ, leb_ℤ, if◌then◌else◌}
use inc_visage.Js.{Flow, next}
use inc_visage.Trend.State.{State, Icon, graph, draw_segments, reset}
use inc_visage.Trend.Play.{play_next}
use inc_visage.Trend.Replay.{simulate_play, rounds}

module _ {F : Type 0} where
  -- Where the run is paused. The iteration that was asked for last is not there yet.
  unfoldable pub freeze : State F → State F
  freeze s =
      if s.simplay_flag
      then record s { pause_iter = s.play_iter }
      else let t = draw_segments graph (dec s.iteration) s.segment_arr s in
        record t {
          pause_iter = dec s.iteration;
          seekbar_value = dec s.iteration;
          simplay_flag = true;
        }

  -- The rest of the branch of a click on "pause".
  unfoldable pub settle : State F → State F
  settle s =
      let i = if ltb_ℤ s.x_max s.pause_iter then s.x_max else s.pause_iter in
      record s {
        seekbar_max = if ltb_ℤ s.seekbar_max s.pause_iter then s.pause_iter else s.seekbar_max;
        pause_flag = true;
        play_flag = false;
        play_noviz = true;
        back_flag = true;
        forward_flag = true;
        pause_iter = i;
        icon = Icon.play;
        play_lit = true;
        back_lit = true;
        forward_iter = i;
        backward_iter = i;
        play_iter = i;
        forward_lit = ltb_ℤ i s.iteration;
        max_pause = if ltb_ℤ s.max_pause i then i else s.max_pause;
      }

  unfoldable pub pause_run : State F → State F
  pause_run s = settle (freeze s)

  abbrev pub dim_steps : State F → State F
  dim_steps s = record s { forward_lit = false; back_lit = false }

  unfoldable pub replay : State F → Flow (State F)
  replay s = simulate_play (rounds s) (dim_steps s)

  unfoldable pub show_last : State F → State F
  show_last s =
      let t = draw_segments graph s.x_max s.segment_arr (record s { back_lit = true }) in
      record t { seekbar_value = s.x_max }

  -- The branch of a click on "play", after its assignments.
  unfoldable pub start_run : State F → Flow (State F)
  start_run s =
      if leb_ℤ s.x_max s.iteration
      then if ltb_ℤ s.play_iter s.x_max && leb_ℤ s.x_min s.play_iter
        then replay (record s { simplay_flag = true; play_iter = dec s.play_iter })
        else next (show_last s)
      else if s.simplay_flag
      then replay s
      else next (play_next (dim_steps s))

  unfoldable pub click_icon : Icon → State F → Flow (State F)
  click_icon Icon.pause s = next (pause_run s)
  click_icon Icon.play s = start_run (record s {
    icon = Icon.pause;
    forward_flag = false;
    back_flag = false;
    pause_flag = false;
    play_flag = true;
    play_noviz = false;
    reset_flag = false;
  })

  -- The handler of `#play`; a dim button does nothing.
  unfoldable pub click_play : State F → Flow (State F)
  click_play s = if s.play_lit then click_icon s.icon s else next s

  -- The handler of `#repeat`.
  unfoldable pub click_repeat : State F → State F
  click_repeat s = reset (record s { reset_flag = true })
