-- ===== src/Heat/Toggle.antt =====
-- The handlers of the button that plays and pauses and of `#repeat` (new-web-test/js/heatmap/player.js), and the run
-- over the recorded iterations, `simulatePlay` and `genSimCharts`.
use inc_visage.Common.{
  ℕ, zero, suc, ◌+◌, ◌-◌, pos_part, neg_part, true, false, not, ◌&&◌, inc, dec, ltb_ℤ, leb_ℤ,
  if◌then◌else◌, some,
}
use inc_visage.Js.{Flow, next, diverged, ◌>>=◌}
use inc_visage.Trend.State.{Icon, graph}
use inc_visage.Heat.{Page, render}
use inc_visage.Heat.Play.{play_next, reset}

module _ {F : Type 0} where
  -- The end of a replay: the run against the server goes on with the iteration it stopped at.
  unfoldable pub resume : Page F → Page F
  resume s = play_next (record s {
    play_flag = true;
    iteration = dec s.iteration;
    play_noviz = false;
    simplay_flag = false;
  })

  -- The drawing in `genSimCharts`.
  unfoldable pub draw_recorded : Page F → Flow (Page F)
  draw_recorded s =
      if s.play_noviz
      then next s
      else render graph s.play_iter (s.segment_chain s.play_iter)
          (record s { seekbar_value = s.play_iter })

  -- `genSimCharts`, whose last call is `again`.
  unfoldable pub gen_sim_charts : (Page F → Flow (Page F)) → Page F → Flow (Page F)
  gen_sim_charts again s = if s.reset_flag then next (reset s) else do
    t ← draw_recorded s
    elim (t.simplay_flag && not t.pause_flag) [ true ↦ again t | false ↦ next t ]

  -- `simulatePlay`, with fuel for the rounds.
  unfoldable pub simulate_play : ℕ → Page F → Flow (Page F)
  simulate_play zero s = diverged
  simulate_play (suc fuel) s =
      let t = record s { play_iter = inc s.play_iter } in
      let again = λ (u : Page F). simulate_play fuel u in
      if s.reset_flag
      then next (reset s)
      else if ltb_ℤ t.play_iter t.iteration
      then gen_sim_charts again t
      else next (resume t)

  -- Each round moves `playIter` towards `iteration`, so that one more than their distance is enough.
  abbrev pub rounds : Page F → ℕ
  rounds s =
      suc (
        pos_part s.iteration + neg_part s.play_iter - (neg_part s.iteration + pos_part s.play_iter))

  -- Where the run is paused. The iteration that was asked for last is not there yet.
  unfoldable pub freeze : Page F → Flow (Page F)
  freeze s = if s.simplay_flag then next (record s { pause_iter = s.play_iter }) else (do
    let i = dec s.iteration
    t ← render graph i (some s.segment_arr) (record s { pause_iter = i })
    next (record t { seekbar_value = i; simplay_flag = true }))

  -- The rest of the branch of a click on "pause".
  unfoldable pub settle : Page F → Page F
  settle s =
      let i = if ltb_ℤ s.max_iteration s.pause_iter then s.max_iteration else s.pause_iter in
      record s {
        seekbar_max = if ltb_ℤ s.seekbar_max s.pause_iter then s.pause_iter else s.seekbar_max;
        pause_flag = true;
        play_flag = false;
        play_noviz = true;
        back_flag = true;
        forward_flag = true;
        pause_iter = i;
        icon = Icon.play;
        play_lit = true;
        back_lit = true;
        forward_iter = i;
        backward_iter = i;
        play_iter = i;
        forward_lit = ltb_ℤ i s.iteration;
        max_pause = if ltb_ℤ s.max_pause i then i else s.max_pause;
      }

  unfoldable pub pause_run : Page F → Flow (Page F)
  pause_run s = do t ← freeze s; next (settle t)

  abbrev dim_steps : Page F → Page F
  dim_steps s = record s { forward_lit = false; back_lit = false }

  unfoldable pub replay : Page F → Flow (Page F)
  replay s = simulate_play (rounds s) (dim_steps s)

  unfoldable pub show_last : Page F → Flow (Page F)
  show_last s = do
    t ← render graph s.max_iteration (some s.segment_arr) (record s { back_lit = true })
    next (record t { seekbar_value = s.max_iteration })

  -- The branch of a click on "play", after its assignments.
  unfoldable pub start_run : Page F → Flow (Page F)
  start_run s =
      if leb_ℤ s.max_iteration s.iteration
      then if ltb_ℤ s.play_iter s.max_iteration && leb_ℤ s.iteration_low s.play_iter
        then replay (record s { simplay_flag = true; play_iter = dec s.play_iter })
        else show_last s
      else if s.simplay_flag
      then replay s
      else next (play_next (dim_steps s))

  unfoldable pub click_icon : Icon → Page F → Flow (Page F)
  click_icon Icon.pause s = pause_run s
  click_icon Icon.play s = start_run (record s {
    icon = Icon.pause;
    forward_flag = false;
    back_flag = false;
    pause_flag = false;
    play_flag = true;
    play_noviz = false;
    reset_flag = false;
  })

  -- The handler of `#play`; a dim button does nothing.
  unfoldable pub click_play : Page F → Flow (Page F)
  click_play s = if s.play_lit then click_icon s.icon s else next s

  -- The handler of `#repeat`.
  unfoldable pub click_repeat : Page F → Page F
  click_repeat s = reset (record s { reset_flag = true })
