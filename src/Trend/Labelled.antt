-- ===== src/Trend/Labelled.antt =====
-- The handlers of new-web-test/js/trendline/player.js on a page whose x axis has labels of months or
-- of days of the week. There `drawAxes` (trendline.js) reads `heightWin`, which no script of the page
-- declares, so that each drawing into the graph throws before the line is drawn.
use inc_visage.Common.{
  ℕ, zero, suc, ℤ, Bool, true, false, not, ◌&&◌, ◌||◌, inc, dec, leb_ℤ, ltb_ℤ, eqb_ℤ, if◌then◌else◌,
}
use inc_visage.Js.{Flow, next, thrown, diverged, ◌>>=◌}
use inc_visage.Trend.State.{State, Icon, graph, snapshot, announce, render, cleared}
use inc_visage.Trend.Play.{Margins, Output, play_next, first_range, set_range, take_segments}
use inc_visage.Trend.Replay.{rounds}
use inc_visage.Trend.Toggle.{settle, dim_steps}
use inc_visage.Trend.Step.{
  forward_init, set_cursors, step_forward, forward_buttons, set_back, back_buttons,
}
use inc_visage.Trend.Seek.{clip, move_to, paused_buttons, light_if, end_buttons}
use inc_visage.Trend.Save.{snap_iter}

module _ {F : Type 0} where
  -- `render` into the graph: the captions and the range of the bar come before the axes.
  unfoldable pub render_labelled : ℤ → State F → Flow (State F)
  render_labelled itr s = thrown (announce graph itr s)

  unfoldable pub reset_labelled : State F → Flow (State F)
  reset_labelled s = render_labelled (dec s.x_min) (cleared s)

  unfoldable pub play_labelled : State F → Flow (State F)
  play_labelled s = if s.reset_flag then reset_labelled s else next (play_next s)

  unfoldable pub show_labelled : State F → Flow (State F)
  show_labelled s =
      if s.play_noviz || (s.simplay_flag || s.reset_flag)
      then next s
      else render_labelled s.iteration s

  unfoldable pub play_on_labelled : State F → Flow (State F)
  play_on_labelled s =
      if leb_ℤ s.iteration s.x_max && not s.reset_flag
      then play_labelled (if s.forward_flag then record s { play_noviz = true } else s)
      else next s

  unfoldable pub resume_labelled : State F → Flow (State F)
  resume_labelled s = play_labelled (record s {
    play_flag = true;
    iteration = dec s.iteration;
    play_noviz = false;
    simplay_flag = false;
  })

  unfoldable pub draw_recorded_labelled : State F → Flow (State F)
  draw_recorded_labelled s =
      if s.play_noviz
      then next s
      else render_labelled s.play_iter (record s { seekbar_value = s.play_iter })

  unfoldable pub gen_sim_charts_labelled : (State F → Flow (State F)) → State F → Flow (State F)
  gen_sim_charts_labelled again s = if s.reset_flag then reset_labelled s else do
    t ← draw_recorded_labelled s
    elim (t.simplay_flag && not t.pause_flag) [ true ↦ again t | false ↦ next t ]

  unfoldable pub simulate_labelled : ℕ → State F → Flow (State F)
  simulate_labelled zero s = diverged
  simulate_labelled (suc fuel) s =
      let t = record s { play_iter = inc s.play_iter } in
      let again = λ (u : State F). simulate_labelled fuel u in
      if s.reset_flag
      then reset_labelled s
      else if ltb_ℤ t.play_iter t.iteration
      then gen_sim_charts_labelled again t
      else resume_labelled t

  unfoldable pub freeze_labelled : State F → Flow (State F)
  freeze_labelled s =
      if s.simplay_flag
      then next (record s { pause_iter = s.play_iter })
      else render_labelled (dec s.iteration) (record s { pause_iter = dec s.iteration })

  unfoldable pub replay_labelled : State F → Flow (State F)
  replay_labelled s = simulate_labelled (rounds s) (dim_steps s)

  unfoldable pub start_labelled : State F → Flow (State F)
  start_labelled s =
      if leb_ℤ s.x_max s.iteration
      then if ltb_ℤ s.play_iter s.x_max && leb_ℤ s.x_min s.play_iter
        then replay_labelled (record s { simplay_flag = true; play_iter = dec s.play_iter })
        else render_labelled s.x_max (record s { back_lit = true })
      else if s.simplay_flag
      then replay_labelled s
      else play_labelled (dim_steps s)

  unfoldable pub click_icon_labelled : Icon → State F → Flow (State F)
  click_icon_labelled Icon.pause s = do t ← freeze_labelled s; next (settle t)
  click_icon_labelled Icon.play s = start_labelled (record s {
    icon = Icon.pause;
    forward_flag = false;
    back_flag = false;
    pause_flag = false;
    play_flag = true;
    play_noviz = false;
    reset_flag = false;
  })

  unfoldable pub click_play_labelled : State F → Flow (State F)
  click_play_labelled s = if s.play_lit then click_icon_labelled s.icon s else next s

  unfoldable pub click_repeat_labelled : State F → Flow (State F)
  click_repeat_labelled s = reset_labelled (record s { reset_flag = true })

  unfoldable pub draw_forward_labelled : State F → Flow (State F)
  draw_forward_labelled s =
      if ltb_ℤ s.forward_iter s.x_max || eqb_ℤ s.forward_iter s.x_max
      then render_labelled s.forward_iter (record s { seekbar_value = s.forward_iter })
      else next s

  unfoldable pub forward_move_labelled : State F → Flow (State F)
  forward_move_labelled s =
      if s.forward_flag && (not s.play_flag && s.pause_flag)
      then (do t ← draw_forward_labelled (step_forward s); next (set_cursors t))
      else next s

  unfoldable pub click_forward_labelled : State F → Flow (State F)
  click_forward_labelled s =
      if s.forward_lit
      then (do t ← forward_init s; u ← forward_move_labelled t; next (forward_buttons u))
      else next s

  unfoldable pub draw_back_labelled : State F → Flow (State F)
  draw_back_labelled s =
      if leb_ℤ s.x_min s.backward_iter
      then render_labelled s.backward_iter (record s { seekbar_value = s.backward_iter })
      else next s

  unfoldable pub back_move_labelled : State F → Flow (State F)
  back_move_labelled s =
      if not s.play_flag && s.back_flag
      then (do
        t ←
            draw_back_labelled
              (record s { forward_flag = true; backward_iter = dec s.backward_iter })
        next (set_back t))
      else next s

  unfoldable pub back_first_labelled : State F → Flow (State F)
  back_first_labelled s = render_labelled s.iteration (record s {
    back_flag = false;
    back_lit = false;
    forward_lit = true;
    seekbar_value = s.iteration;
  })

  unfoldable pub click_back_labelled : State F → Flow (State F)
  click_back_labelled s =
      if s.back_lit
      then if eqb_ℤ s.iteration s.x_min
        then back_first_labelled s
        else (do t ← back_move_labelled s; next (back_buttons t))
      else next s

  unfoldable pub seek_paused_labelled : State F → Flow (State F)
  seek_paused_labelled s =
      if s.pause_flag
      then (do
        let i = if ltb_ℤ s.seekbar_max s.seekbar_iter then s.seekbar_max else s.seekbar_iter
        t ← render_labelled i (move_to i s)
        next (paused_buttons t))
      else next s

  unfoldable pub seek_stopped_labelled : State F → Flow (State F)
  seek_stopped_labelled s =
      if not s.play_flag && not s.pause_flag
      then (do
        let i = clip s.x_min s.x_max s.iteration s.seekbar_iter
        t ← render_labelled i (move_to i s)
        next (light_if true true true true t))
      else next s

  unfoldable pub seek_labelled : ℤ → State F → Flow (State F)
  seek_labelled v s = do
    t ← seek_paused_labelled (record s { seekbar_iter = v; seekbar_value = v })
    u ← seek_stopped_labelled t
    next (end_buttons u)

  -- The snapshot has no axes, and is drawn before the graph.
  unfoldable pub click_save_labelled : State F → Flow (State F)
  click_save_labelled s = do
    t ← render snapshot (snap_iter s) (s.segment_chain (snap_iter s)) s
    render_labelled (snap_iter s) t

  unfoldable pub gen_charts_labelled : ⦃m : Margins F⦄ → Bool → Output F → State F → Flow (State F)
  gen_charts_labelled is_sensor o s = if s.reset_flag then reset_labelled s else (do
    t ← take_segments o (first_range o.y (set_range is_sensor o.y s))
    u ← show_labelled t
    play_on_labelled u)
