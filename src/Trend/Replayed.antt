-- ===== src/Trend/Replayed.antt =====
-- A click on "play" after a pause: the recorded iterations are drawn again, and the run goes on.
pub mod Rounds
pub mod Resumed
use inc_visage.Common.{
  ℕ, zero, suc, ◌<◌, pos, inc, dec, inc-dec, inc_parts, ◌+ℤ◌, +ℤ_parts, eq_of_parts, ◌≤ℤ◌, ◌<ℤ◌,
  ltb_ℤ, leb_ℤ, ◌≡◌, refl, sym, ◌∙◌, ap, Bool, true, false, not, ◌&&◌, if_of_true, if_of_false,
  some, List, [], ◌∷◌, ◌++◌, arith, append_assoc,
}
use inc_visage.Js.{Flow, next, ◌>>=◌}
use inc_visage.Trend.Segment.{Segment}
use inc_visage.Trend.State.{State, Icon, request, graph, draw_segments, announce}
use inc_visage.Trend.Play.{play_next}
use inc_visage.Trend.Replay.{simulate_play, gen_sim_charts, draw_recorded, resume, rounds}
use inc_visage.Trend.Toggle.{click_play, click_icon, start_run, replay}
use inc_visage.Trend.Live.{IsLive, requested, drawn, history}
use inc_visage.Trend.Rest.{IsRecordedFrom, IsSameRun, render-recorded}

elim-true : {A : Type 0} (b : Bool) (x y : A) → b ≡ true → elim b [ true ↦ x | false ↦ y ] ≡ x
elim-true b x y h = ap (λ c. elim c [ true ↦ x | false ↦ y ]) h

module _ {F : Type 0} where
  pub record IsReplaying (s : State F) : Type 0 where
    pub no_reset : s.reset_flag ≡ false
    pub replaying : s.simplay_flag ≡ true
    pub no_pause : s.pause_flag ≡ false
    pub shown : s.play_noviz ≡ false
    pub no_flags : (s.forward_flag ≡ false) × (s.back_flag ≡ false)

  -- The page after it has drawn the iteration that comes next in the replay.
  abbrev pub redrawn : State F → List (Segment F) → State F
  redrawn s arr =
      draw_segments graph (inc s.play_iter) arr
        (record s { play_iter = inc s.play_iter; seekbar_value = inc s.play_iter })

  module _ (s : State F) (r : IsReplaying s) where
    pub redrawn-IsReplaying : (arr : List (Segment F)) → IsReplaying (redrawn s arr)
    unfolding draw_segments announce
    redrawn-IsReplaying arr = record {
      no_reset = r.no_reset;
      replaying = r.replaying;
      no_pause = r.no_pause;
      shown = r.shown;
      no_flags = r.no_flags;
    }

    gen_sim_charts-more :
        (again : State F → Flow (State F)) (arr : List (Segment F))
        → s.segment_chain (inc s.play_iter) ≡ some arr
        → gen_sim_charts again (record s { play_iter = inc s.play_iter }) ≡ again (redrawn s arr)
    unfolding gen_sim_charts draw_recorded draw_segments announce
    gen_sim_charts-more again arr h =
        let t = record s { play_iter = inc s.play_iter } in
        let m = redrawn-IsReplaying arr in
        let go = λ (u : State F).
          let f : Flow (State F) = elim (u.simplay_flag && not u.pause_flag) [
            | true ↦ again u
            | false ↦ next u
          ] in
          f in
        if_of_false s.reset_flag _ _ r.no_reset
        ∙ ap (λ f. f >>= go) (if_of_false s.play_noviz _ _ r.shown)
        ∙ ap (λ f. f >>= go)
            (render-recorded (record t { seekbar_value = inc s.play_iter }) (inc s.play_iter) arr h)
        ∙ elim-true (s.simplay_flag && not s.pause_flag) (again (redrawn s arr))
            (next (redrawn s arr)) (ground (arith, r.replaying, r.no_pause))

    pub simulate_play-more :
        (fuel : ℕ) (arr : List (Segment F))
        → inc s.play_iter <ℤ s.iteration
        → s.segment_chain (inc s.play_iter) ≡ some arr
        → simulate_play (suc fuel) s ≡ simulate_play fuel (redrawn s arr)
    unfolding simulate_play
    simulate_play-more fuel arr lt h =
        if_of_false s.reset_flag _ _ r.no_reset
        ∙ if_of_true (ltb_ℤ (inc s.play_iter) s.iteration) _ _ (ground arith)
        ∙ gen_sim_charts-more (λ u. simulate_play fuel u) arr h

    pub simulate_play-last :
        (fuel : ℕ)
        → s.iteration ≤ℤ inc s.play_iter
        → simulate_play (suc fuel) s ≡ next (resume (record s { play_iter = inc s.play_iter }))
    unfolding simulate_play
    simulate_play-last fuel le =
        if_of_false s.reset_flag _ _ r.no_reset
        ∙ if_of_false (ltb_ℤ (inc s.play_iter) s.iteration) _ _ (ground arith)
