-- ===== src/Trend/Live/Start.antt =====
-- From the click on "play" of a page that was reset to the end of the run.
use inc_visage.Common.{
  ℕ, suc, ℤ, pos, ◌+ℤ◌, +ℤ_parts, ◌≡◌, refl, ◌∙◌, Bool, true, false, some, ◌&&◌, List, [], ◌∷◌,
  ◌++◌, arith, leb_ℤ, inc, dec, inc_parts, dec_parts, inc-dec, ◌≤ℤ◌, All, length, if_of_true,
  if_of_false, sym, ap, append_assoc,
}
use inc_visage.Js.{next, ◌>>=◌}
use inc_visage.Trend.Segment.{Segment}
use inc_visage.Trend.State.{State, Icon, request, reset, draw_segments, announce}
use inc_visage.Trend.Play.{Margins, Output, play_next}
use inc_visage.Trend.Toggle.{click_play, click_icon, start_run}
use inc_visage.Trend.Live.{IsFinished, requested, drawn, history}
use inc_visage.Trend.Live.Answered.{IsAnswer, IsAt, answer_all}
use inc_visage.Trend.Live.Run.{answer_all-live}

module _ {F : Type 0} where
  -- A page on which nothing has run yet.
  pub record IsReady (s : State F) : Type 0 where
    pub can_play : s.play_lit ≡ true
    pub shows_play : s.icon ≡ Icon.play
    pub before_first : s.iteration ≡ dec s.x_min
    pub no_replay : s.simplay_flag ≡ false

  pub reset-IsReady : (s : State F) → IsReady (reset s)
  unfolding reset draw_segments announce
  reset-IsReady s = ground arith

  -- The page after the click: the first iteration is asked for.
  abbrev pub asking : State F → State F
  asking s = record s {
    icon = Icon.pause;
    forward_flag = false;
    back_flag = false;
    pause_flag = false;
    play_flag = true;
    play_noviz = false;
    reset_flag = false;
    forward_lit = false;
    back_lit = false;
    iteration = inc s.iteration;
    log = request (inc s.iteration) ∷ s.log;
  }

  click_play-ready : (s : State F) → IsReady s → s.x_min ≤ℤ s.x_max → click_play s ≡ next (asking s)
  unfolding click_play click_icon start_run play_next
  click_play-ready s r h =
      if_of_true s.play_lit (click_icon s.icon s) (next s) r.can_play
      ∙ (ap (λ i. click_icon i s) r.shows_play
          ∙ (if_of_false (leb_ℤ s.x_max s.iteration) _ _ early
              ∙ (if_of_false s.simplay_flag _ _ r.no_replay
                  ∙ ap next (if_of_true (leb_ℤ (inc s.iteration) s.x_max && true) _ _ fits))))
    where
      early : leb_ℤ s.x_max s.iteration ≡ false
      early = ground (arith, r.before_first, dec_parts s.x_min)

      fits : (leb_ℤ (inc s.iteration) s.x_max && true) ≡ true
      fits = ground (arith, r.before_first, dec_parts s.x_min, inc_parts s.iteration)

  asking-IsAt :
      (s : State F) → IsReady s → s.x_min ≤ℤ s.x_max → IsAt s.x_min s.x_max s.x_min (asking s)
  asking-IsAt s r h =
      let e : inc s.iteration ≡ s.x_min = ap inc r.before_first ∙ inc-dec s.x_min in
      record { live = ground (arith, e); low = refl; high = refl; at = e }

  -- From a page that was reset, a click on "play" and one answer with parts for each iteration from
  -- `xMin` to `xMax` end with no exception: exactly these iterations are asked for and drawn, once
  -- each and in this order; all of them are recorded; and the page stops with only "back" lit.
  pub play_to_end :
      ⦃m : Margins F⦄
      → (n : ℕ) (b : Bool) (os : List (Output F)) (s : State F) → IsReady s
      → All (IsAnswer s.x_min s.x_max) os
      → length os ≡ suc n
      → s.x_min +ℤ pos n ≡ s.x_max
      → (t : State F) × ((click_play s >>= answer_all b os) ≡ next t)
        × IsFinished t
        × (t.x_max ≡ s.x_max)
        × (requested t.log ≡ history s.x_min (suc n) ++ requested s.log)
        × (drawn t.log ≡ history s.x_min (suc n) ++ drawn s.log)
        × ((j : ℤ)
            → s.x_min ≤ℤ j
            → j ≤ℤ s.x_max
            → (arr : List (Segment F)) × (t.segment_chain j ≡ some arr))
  play_to_end n b os s r a l e =
      let le : s.x_min ≤ℤ s.x_max = ground (arith, +ℤ_parts s.x_min (pos n)) in
      let first : inc s.iteration ≡ s.x_min = ap inc r.before_first ∙ inc-dec s.x_min in
      let (t, run, k) =
        answer_all-live s.x_min s.x_max s.x_min n b os (asking s) (asking-IsAt s r le) a l e in
      (
        t,
        ap (λ f. f >>= answer_all b os) (click_play-ready s r le) ∙ run,
        k.finished,
        k.same_end,
        k.asked
            ∙ rw first
                (sym (append_assoc (history (inc s.x_min) n) (s.x_min ∷ []) (requested s.log))),
        k.shown,
        k.recorded,
      )
