-- ===== src/Trend/Replayed/Resumed.antt =====
-- A click on "play" after a pause, from the replay to the request that follows it.
use inc_visage.Common.{
  ℕ, pos, inc, dec, inc-dec, inc_parts, ◌+ℤ◌, +ℤ_parts, ◌≤ℤ◌, ◌<ℤ◌, leb_ℤ, ◌≡◌, refl, ◌∙◌, ap, true,
  false, ◌&&◌, if_of_true, if_of_false, ◌∷◌, ◌++◌, arith,
}
use inc_visage.Js.{next}
use inc_visage.Trend.State.{State, Icon, request}
use inc_visage.Trend.Play.{play_next}
use inc_visage.Trend.Replay.{simulate_play, resume, rounds}
use inc_visage.Trend.Toggle.{click_play, click_icon, start_run, replay}
use inc_visage.Trend.Live.{IsLive, requested, drawn, history}
use inc_visage.Trend.Rest.{IsRecordedFrom}
use inc_visage.Trend.Replayed.{IsReplaying}
use inc_visage.Trend.Replayed.Rounds.{replay_all}

module _ {F : Type 0} where
  -- The page after the replay, which asks for the iteration it was paused before.
  abbrev asking_again : State F → State F
  asking_again u = record u {
    play_flag = true;
    iteration = inc (dec u.iteration);
    play_noviz = false;
    simplay_flag = false;
    log = request (inc (dec u.iteration)) ∷ u.log;
  }

  resume-asks : (u : State F) → IsReplaying u → u.iteration ≤ℤ u.x_max → resume u ≡ asking_again u
  unfolding resume play_next
  resume-asks u r le =
      if_of_false u.reset_flag _ _ r.no_reset
      ∙ if_of_true (leb_ℤ (inc (dec u.iteration)) u.x_max && true) _ _
          (rw (inc-dec u.iteration) (ground (arith, le)))

  asking_again-IsLive :
      (u : State F) → IsReplaying u → u.iteration ≤ℤ u.x_max → IsLive (asking_again u)
  asking_again-IsLive u r le = record {
    no_reset = r.no_reset;
    playing = refl;
    no_pause = r.no_pause;
    no_replay = refl;
    no_forward = r.no_flags.0;
    no_back = r.no_flags.1;
    shown = refl;
    within = rw (inc-dec u.iteration) le;
  }

  -- The page after the assignments of a click on "play", before its replay.
  abbrev replaying : State F → State F
  replaying s = record s {
    icon = Icon.pause;
    forward_flag = false;
    back_flag = false;
    pause_flag = false;
    play_flag = true;
    play_noviz = false;
    reset_flag = false;
    forward_lit = false;
    back_lit = false;
  }

  replaying-IsReplaying : (s : State F) → s.simplay_flag ≡ true → IsReplaying (replaying s)
  replaying-IsReplaying s h = record {
    no_reset = refl;
    replaying = h;
    no_pause = refl;
    shown = refl;
    no_flags = (refl, refl);
  }

  click_play-replay :
      (s : State F)
      → s.play_lit ≡ true
      → s.icon ≡ Icon.play
      → s.simplay_flag ≡ true
      → s.iteration <ℤ s.x_max
      → click_play s ≡ simulate_play (rounds s) (replaying s)
  unfolding click_play click_icon start_run replay
  click_play-replay s lit icon sim lt =
      if_of_true s.play_lit (click_icon s.icon s) (next s) lit
      ∙ ap (λ i. click_icon i s) icon
      ∙ if_of_false (leb_ℤ s.x_max s.iteration) _ _ (ground arith)
      ∙ if_of_true s.simplay_flag _ _ sim

  -- A click on "play" of a page that was paused short of its last iteration, where the `n`
  -- iterations from the one after `playIter` to the one before `iteration` are recorded, ends with
  -- no exception and in the rounds that are given. It draws exactly these iterations, in order,
  -- and asks the server for `iteration` once, for which the page then waits.
  pub replay_then_live :
      (n : ℕ) (s : State F)
      → (s.play_lit ≡ true) × (s.icon ≡ Icon.play)
      → s.simplay_flag ≡ true
      → s.iteration <ℤ s.x_max
      → inc s.play_iter +ℤ pos n ≡ s.iteration
      → IsRecordedFrom (inc s.play_iter) s.iteration s.segment_chain
      → (t : State F) × (click_play s ≡ next t)
        × IsLive t
        × (t.iteration ≡ s.iteration)
        × (requested t.log ≡ s.iteration ∷ requested s.log)
        × (drawn t.log ≡ history (inc s.play_iter) n ++ drawn s.log)
  replay_then_live n s (lit, icon) sim lt e chain =
      let (u, run, q) =
        replay_all (rounds s) n (replaying s) (replaying-IsReplaying s sim)
          (ground (arith, +ℤ_parts (inc s.play_iter) (pos n), inc_parts s.play_iter)) e chain in
      let (same, _, end) = q.same in
      let le : u.iteration ≤ℤ u.x_max = rw (same, end) (ground arith) in
      let at : inc (dec u.iteration) ≡ s.iteration = inc-dec u.iteration ∙ same in
      (
        asking_again u,
        click_play-replay s lit icon sim lt ∙ run ∙ ap next (resume-asks u q.kept le),
        asking_again-IsLive u q.kept le,
        at,
        ap (λ i. i ∷ requested u.log) at ∙ ap (λ l. s.iteration ∷ l) q.asked,
        q.shown_all,
      )
