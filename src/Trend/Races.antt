-- ===== src/Trend/Races.antt =====
-- What the handlers do between a request and its answer, where the code does not wait.
use inc_visage.Common.{
  ℤ, inc, dec, inc-dec, dec_parts, ◌≤ℤ◌, ◌<ℤ◌, ltb_ℤ, leb_ℤ, eqb_ℤ, ◌≡◌, sym, ◌∙◌, ap, subst, true,
  false, ◌&&◌, ◌||◌, if◌then◌else◌, if_of_true, if_of_false, none, ◌∷◌, arith,
}
use inc_visage.Js.{next, thrown, ◌>>=◌}
use inc_visage.Trend.State.{
  State, Icon, Viz, request, graph, snapshot, draw_segments, announce, render,
}
use inc_visage.Trend.Play.{play_next}
use inc_visage.Trend.Replay.{simulate_play, resume}
use inc_visage.Trend.Toggle.{click_play, click_icon, start_run, replay, settle}
use inc_visage.Trend.Step.{
  click_forward, forward_init, forward_move, step_forward, draw_forward, set_cursors,
  forward_buttons,
}
use inc_visage.Trend.Save.{click_save, snap_iter}
use inc_visage.Trend.Live.{IsLive, requested}
use inc_visage.Trend.Pause.{ShowsPause, paused, click_play-paused}

module _ {F : Type 0} where
  pub render-missing :
      (viz : Viz) (i : ℤ) (s : State F)
      → s.segment_chain i ≡ none
      → render viz i (s.segment_chain i) s ≡ thrown (announce viz i s)
  unfolding render
  render-missing viz i s h = ap (λ o. render viz i o s) h

  -- "save" while the page waits for an answer reads the iteration that is under way, and throws if
  -- no earlier run has recorded it.
  pub click_save-live :
      (s : State F)
      → IsLive s
      → s.segment_chain s.iteration ≡ none
      → click_save s ≡ thrown (announce snapshot s.iteration s)
  unfolding click_save snap_iter
  click_save-live s l h =
      let e : snap_iter s ≡ s.iteration =
        if_of_false s.back_flag _ _ l.no_back
        ∙ (if_of_false s.forward_flag _ _ l.no_forward
            ∙ if_of_false s.simplay_flag _ _ l.no_replay) in
      subst
        (λ i.
          (render snapshot i (s.segment_chain i) s >>= λ t. render graph i (t.segment_chain i) t)
          ≡ thrown (announce snapshot s.iteration s))
        (sym e)
        (ap (λ f. f >>= λ t. render graph s.iteration (t.segment_chain s.iteration) t)
          (render-missing snapshot s.iteration s h))

  module _ (s : State F) (l : IsLive s) (p : ShowsPause s) where
    abbrev cursor_at : ℤ
    cursor_at = if ltb_ℤ s.x_max (dec s.iteration) then s.x_max else dec s.iteration

    cursor :
        (if ltb_ℤ s.x_max (dec s.iteration) then s.x_max else dec s.iteration) ≡ dec s.iteration
    cursor =
        if_of_false (ltb_ℤ s.x_max (dec s.iteration)) _ _
          (ground (arith, l.within, dec_parts s.iteration))

    next_cursor : inc cursor_at ≡ s.iteration
    next_cursor = ap inc cursor ∙ inc-dec s.iteration

    draws_up_to_end : (i : ℤ) → i ≤ℤ s.x_max → (ltb_ℤ i s.x_max || eqb_ℤ i s.x_max) ≡ true
    draws_up_to_end i h = ground arith

    abbrev stepped : State F
    stepped = record (step_forward (paused s l p)) { seekbar_value = inc cursor_at }

    draw_forward-paused :
        s.segment_chain s.iteration ≡ none
        → draw_forward (step_forward (paused s l p))
          ≡ thrown (announce graph (inc cursor_at) stepped)
    unfolding draw_forward step_forward settle draw_segments
    draw_forward-paused h =
        if_of_true (ltb_ℤ (inc cursor_at) s.x_max || eqb_ℤ (inc cursor_at) s.x_max) _ _
          (draws_up_to_end (inc cursor_at) (subst (λ i. i ≤ℤ s.x_max) (sym next_cursor) l.within))
        ∙ render-missing graph (inc cursor_at) stepped
            (subst (λ i. s.segment_chain i ≡ none) (sym next_cursor) h)

    forward_lit-paused : ltb_ℤ cursor_at s.iteration ≡ true
    forward_lit-paused =
        subst (λ i. ltb_ℤ i s.iteration ≡ true) (sym cursor) (ground (arith, dec_parts s.iteration))

    click_forward-paused :
        s.x_min ≤ℤ s.iteration
        → s.segment_chain s.iteration ≡ none
        → click_forward (paused s l p) ≡ thrown (announce graph (inc cursor_at) stepped)
    unfolding click_forward forward_init forward_move settle draw_segments
    click_forward-paused lo h =
        if_of_true (ltb_ℤ cursor_at s.iteration) _ _ forward_lit-paused
        ∙ (ap (λ f. f >>= λ t. forward_move t >>= λ u. next (forward_buttons u))
              (if_of_false (ltb_ℤ s.iteration s.x_min) _ _ (ground arith))
            ∙ ap (λ f. f >>= (λ t. next (set_cursors t)) >>= λ u. next (forward_buttons u))
                (draw_forward-paused h))

    -- A click on "forward" at once after one on "pause" in the range of a run, before the answer
    -- that is under way, goes to the iteration of that answer, and throws if no earlier run has
    -- recorded it.
    pub pause_then_forward :
        s.x_min ≤ℤ s.iteration
        → s.segment_chain s.iteration ≡ none
        → (t : State F) × ((click_play s >>= click_forward) ≡ thrown t)
          × (t.forward_iter ≡ s.iteration)
    unfolding announce step_forward settle draw_segments
    pause_then_forward lo h = (
      announce graph (inc cursor_at) stepped,
      ap (λ f. f >>= click_forward) (click_play-paused s l p) ∙ click_forward-paused lo h,
      next_cursor,
    )

    abbrev resumed : State F
    resumed = record (paused s l p) {
      icon = Icon.pause;
      forward_flag = false;
      back_flag = false;
      pause_flag = false;
      play_flag = true;
      play_noviz = false;
      reset_flag = false;
      simplay_flag = false;
      forward_lit = false;
      back_lit = false;
      play_iter = inc cursor_at;
      iteration = inc (dec s.iteration);
      log = request (inc (dec s.iteration)) ∷ (paused s l p).log;
    }

    click_play-resumed : s.iteration <ℤ s.x_max → click_play (paused s l p) ≡ next resumed
    unfolding click_play click_icon start_run replay simulate_play resume play_next settle
        draw_segments
    click_play-resumed lt =
        if_of_false (leb_ℤ s.x_max s.iteration) _ _ (ground arith)
        ∙ (if_of_false (ltb_ℤ (inc cursor_at) s.iteration) _ _
              (subst (λ i. ltb_ℤ i s.iteration ≡ false) (sym next_cursor) (ground arith))
            ∙ ap next (
                if_of_true (leb_ℤ (inc (dec s.iteration)) s.x_max && true) _ _
                  (rw (inc-dec s.iteration) (ground (arith, l.within)))))

    -- A click on "play" at once after one on "pause", before the answer that is under way and
    -- short of the last iteration: the same iteration is asked for a second time.
    pub pause_then_play :
        s.iteration <ℤ s.x_max
        → (t : State F) × ((click_play s >>= click_play) ≡ next t)
          × (requested t.log ≡ s.iteration ∷ requested s.log)
          × (t.iteration ≡ s.iteration)
    unfolding settle draw_segments announce
    pause_then_play lt = (
      resumed,
      ap (λ f. f >>= click_play) (click_play-paused s l p) ∙ click_play-resumed lt,
      ap (λ i. i ∷ requested s.log) (inc-dec s.iteration),
      inc-dec s.iteration,
    )
