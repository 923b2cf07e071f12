-- ===== src/Trend/Edges.antt =====
-- What the handlers do at the edges of what is recorded, and a reset while an answer is under way.
use inc_visage.Common.{
  ℤ, inc, inc_parts, ◌≤ℤ◌, ltb_ℤ, eqb_ℤ, ◌≡◌, refl, ◌∙◌, ap, Bool, true, not, ◌&&◌, ◌||◌,
  if◌then◌else◌, if_of_true, if_of_false, none, some, List, [], ◌∷◌, arith,
}
use inc_visage.Js.{next, thrown, ◌>>=◌}
use inc_visage.Trend.Segment.{Segment}
use inc_visage.Trend.State.{State, reset, graph, draw_segments, announce}
use inc_visage.Trend.Play.{Margins, Output, gen_charts}
use inc_visage.Trend.Toggle.{click_repeat}
use inc_visage.Trend.Step.{
  click_forward, forward_init, forward_move, step_forward, draw_forward, set_cursors,
  forward_buttons,
}
use inc_visage.Trend.Seek.{seek, move_to, paused_buttons, end_buttons}
use inc_visage.Trend.Live.{requested}
use inc_visage.Trend.Live.Answered.{answer_all}
use inc_visage.Trend.Live.Start.{IsReady, reset-IsReady}
use inc_visage.Trend.Races.{render-missing}
use inc_visage.Trend.Rest.{IsRest}
use inc_visage.Trend.Rest.Seek.{shown, seek-shown}

module _ {F : Type 0} (w : State F) where
  -- A step forward that reads an iteration which is not recorded.
  abbrev stepped_past : State F
  stepped_past = record (step_forward w) { seekbar_value = inc w.forward_iter }

  draw_forward-missing :
      inc w.forward_iter ≤ℤ w.x_max
      → w.segment_chain (inc w.forward_iter) ≡ none
      → draw_forward (step_forward w) ≡ thrown (announce graph (inc w.forward_iter) stepped_past)
  unfolding draw_forward step_forward
  draw_forward-missing le h =
      if_of_true (ltb_ℤ (inc w.forward_iter) w.x_max || eqb_ℤ (inc w.forward_iter) w.x_max) _ _
        (ground arith)
      ∙ render-missing graph (inc w.forward_iter) stepped_past h

  click_forward-missing :
      w.forward_lit ≡ true
      → (w.forward_flag && (not w.play_flag && w.pause_flag)) ≡ true
      → w.x_min ≤ℤ w.iteration
      → inc w.forward_iter ≤ℤ w.x_max
      → w.segment_chain (inc w.forward_iter) ≡ none
      → click_forward w ≡ thrown (announce graph (inc w.forward_iter) stepped_past)
  unfolding click_forward forward_init forward_move
  click_forward-missing lit moves lo le h =
      if_of_true w.forward_lit _ _ lit
      ∙ ap (λ f. f >>= λ t. forward_move t >>= λ u. next (forward_buttons u))
          (if_of_false (ltb_ℤ w.iteration w.x_min) _ _ (ground arith))
      ∙ ap (λ f. f >>= λ u. next (forward_buttons u))
          (if_of_true (w.forward_flag && (not w.play_flag && w.pause_flag)) _ _ moves)
      ∙ ap (λ f. f >>= (λ t. next (set_cursors t)) >>= λ u. next (forward_buttons u))
          (draw_forward-missing le h)

module _ {F : Type 0} (s : State F) (v : ℤ) (r : IsRest s) (last : inc v ≡ s.iteration)
    (reached : v ≤ℤ s.seekbar_max) (within : s.iteration ≤ℤ s.x_max) where
  -- The page after the bar was put to the last recorded iteration.
  abbrev at_last : List (Segment F) → State F
  at_last arr = end_buttons (paused_buttons (shown s v arr))

  target-last : (if ltb_ℤ s.seekbar_max v then s.seekbar_max else v) ≡ v
  target-last = if_of_false (ltb_ℤ s.seekbar_max v) _ _ (ground (arith, reached))

  last_recorded : (arr : List (Segment F)) × (s.segment_chain v ≡ some arr)
  last_recorded =
      let step : inc v ≡ s.iteration = last in
      r.recorded v (ground (arith, r.two_recorded, step, inc_parts v, inc_parts s.x_min))
        (ground (arith, step, inc_parts v))

  at_last-fields :
      (arr : List (Segment F))
      → ((at_last arr).forward_lit ≡ true)
        × ((at_last arr).forward_iter ≡ v)
        × ((at_last arr).forward_flag ≡ true)
        × ((at_last arr).iteration ≡ s.iteration)
        × ((at_last arr).segment_chain ≡ s.segment_chain)
  unfolding end_buttons paused_buttons move_to draw_segments announce
  at_last-fields arr = (
    ground (arith, target-last, reached, within, r.two_recorded, inc_parts v, inc_parts s.x_min),
    target-last,
    ground (arith, r.can_step),
    refl,
    refl,
  )

  at_last-moves :
      (arr : List (Segment F))
      → ((at_last arr).forward_flag && (not (at_last arr).play_flag && (at_last arr).pause_flag))
        ≡ true
  unfolding end_buttons paused_buttons move_to draw_segments announce
  at_last-moves arr = ground (arith, r.can_step, r.stopped, r.paused)

  at_last-range :
      (arr : List (Segment F)) → ((at_last arr).x_min ≡ s.x_min) × ((at_last arr).x_max ≡ s.x_max)
  unfolding end_buttons paused_buttons move_to draw_segments announce
  at_last-range arr = (refl, refl)

  -- On a page at rest while more iterations are to come, the seek bar put to the last recorded
  -- one, as far as it has come, lights "forward", and a click on it goes to the next iteration and
  -- throws if no earlier run has recorded it.
  pub seek_then_forward :
      s.segment_chain s.iteration ≡ none
      → (t : State F) × ((seek v s >>= click_forward) ≡ thrown t) × (t.forward_iter ≡ s.iteration)
  unfolding announce step_forward
  seek_then_forward h =
      let (arr, e) = last_recorded in
      let w = at_last arr in
      let (lit, at, _, same, chain) = at_last-fields arr in
      let (lo, hi) = at_last-range arr in
      let next_iter : inc w.forward_iter ≡ s.iteration = ap inc at ∙ last in
      (
        announce graph (inc w.forward_iter) (stepped_past w),
        ap (λ f. f >>= click_forward) (seek-shown s v r arr (ap s.segment_chain target-last ∙ e))
            ∙ click_forward-missing w lit (at_last-moves arr)
                (rw (same, lo) (ground (arith, r.two_recorded, inc_parts s.x_min)))
                (rw (next_iter, hi) within)
                (ap w.segment_chain next_iter ∙ ap (λ c. c s.iteration) chain ∙ h),
        next_iter,
      )

module _ {F : Type 0} (s : State F) where
  reset-flag : s.reset_flag ≡ true → (reset s).reset_flag ≡ true
  unfolding reset draw_segments announce
  reset-flag h = h

  requested-reset_page : requested (reset s).log ≡ requested s.log
  unfolding reset draw_segments announce
  requested-reset_page = refl

  chain-reset_page : (reset s).segment_chain ≡ s.segment_chain
  unfolding reset draw_segments announce
  chain-reset_page = refl

module _ {F : Type 0} ⦃m : Margins F⦄ where
  -- Answers that come after a reset, and what they ask for.
  answer_all-reset :
      (b : Bool) (os : List (Output F)) (s : State F)
      → s.reset_flag ≡ true
      → IsReady s
      → (t : State F) × (answer_all b os s ≡ next t)
        × IsReady t
        × (requested t.log ≡ requested s.log)
        × (t.segment_chain ≡ s.segment_chain)
  unfolding answer_all gen_charts
  answer_all-reset b [] s h r = (s, refl, r, refl, refl)
  answer_all-reset b (o ∷ os) s h r =
      let (t, run, ready, asked, chain) =
        answer_all-reset b os (reset s) (reset-flag s h) (reset-IsReady s) in
      (
        t,
        ap (λ f. f >>= answer_all b os) (if_of_true s.reset_flag _ _ h) ∙ run,
        ready,
        asked ∙ requested-reset_page s,
        chain ∙ chain-reset_page s,
      )

  -- A click on "repeat" on any page, and the answers to its open requests after it: none is taken
  -- in or followed by a request, nothing throws, and the page is ready to play.
  pub repeat_then_answers :
      (b : Bool) (os : List (Output F)) (s : State F)
      → (t : State F) × (answer_all b os (click_repeat s) ≡ next t)
        × IsReady t
        × (requested t.log ≡ requested s.log)
        × (t.segment_chain ≡ s.segment_chain)
  unfolding click_repeat
  repeat_then_answers b os s =
      let u : State F = record s { reset_flag = true } in
      let (t, run, ready, asked, chain) =
        answer_all-reset b os (reset u) (reset-flag u refl) (reset-IsReady u) in
      (t, run, ready, asked ∙ requested-reset_page u, chain ∙ chain-reset_page u)
