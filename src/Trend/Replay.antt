-- ===== src/Trend/Replay.antt =====
-- The run over the iterations that are recorded already: `simulatePlay` and `genSimCharts`, which
-- call one another until the replay meets the run against the server.
use inc_visage.Common.{
  ℕ, zero, suc, ◌+◌, ◌-◌, pos_part, neg_part, true, false, not, ◌&&◌, inc, dec, ltb_ℤ,
  if◌then◌else◌,
}
use inc_visage.Js.{Flow, next, diverged, ◌>>=◌}
use inc_visage.Trend.State.{State, graph, render, reset}
use inc_visage.Trend.Play.{play_next}

module _ {F : Type 0} where
  -- The end of a replay: the run against the server goes on with the iteration it stopped at.
  unfoldable pub resume : State F → State F
  resume s = play_next (record s {
    play_flag = true;
    iteration = dec s.iteration;
    play_noviz = false;
    simplay_flag = false;
  })

  -- The drawing in `genSimCharts`.
  unfoldable pub draw_recorded : State F → Flow (State F)
  draw_recorded s =
      if s.play_noviz
      then next s
      else render graph s.play_iter (s.segment_chain s.play_iter)
          (record s { seekbar_value = s.play_iter })

  -- `genSimCharts`, whose last call is `again`.
  unfoldable pub gen_sim_charts : (State F → Flow (State F)) → State F → Flow (State F)
  gen_sim_charts again s = if s.reset_flag then next (reset s) else do
    t ← draw_recorded s
    elim (t.simplay_flag && not t.pause_flag) [ true ↦ again t | false ↦ next t ]

  -- `simulatePlay`, with fuel for the rounds.
  unfoldable pub simulate_play : ℕ → State F → Flow (State F)
  simulate_play zero s = diverged
  simulate_play (suc fuel) s =
      let t = record s { play_iter = inc s.play_iter } in
      let again = λ (u : State F). simulate_play fuel u in
      if s.reset_flag
      then next (reset s)
      else if ltb_ℤ t.play_iter t.iteration
      then gen_sim_charts again t
      else next (resume t)

  -- Each round moves `playIter` towards `iteration`, so that one more than their distance is enough.
  abbrev pub rounds : State F → ℕ
  rounds s =
      suc (
        pos_part s.iteration + neg_part s.play_iter - (neg_part s.iteration + pos_part s.play_iter))
