-- ===== src/Heat/Rest/Forward.antt =====
-- "forward" on a page at rest.
use inc_visage.Common.{
  ℤ, inc, dec, inc_parts, dec_parts, ◌≤ℤ◌, ◌<ℤ◌, ltb_ℤ, leb_ℤ, eqb_ℤ, ◌≡◌, refl, ◌∙◌, ap, inl, inr,
  true, not, ◌&&◌, ◌||◌, Bool-cases, if_of_true, if_of_false, List, arith,
}
use inc_visage.Js.{next, ◌>>=◌}
use inc_visage.Trend.State.{graph}
use inc_visage.Heat.{Page, Quad, draw_quads, announce}
use inc_visage.Heat.Step.{
  click_forward, forward_move, step_forward, draw_forward, set_cursors, forward_buttons,
}
use inc_visage.Heat.Rest.{IsRest, IsSameRun, Seen, render-recorded}

inc-lt_of_dec : (i k : ℤ) → ltb_ℤ i (dec k) ≡ true → inc i <ℤ k
inc-lt_of_dec i k h = ground (arith, inc_parts i, dec_parts k)

module _ {F : Type 0} (s : Page F) (r : IsRest s) where
  forward_move-rest : forward_move s ≡ (draw_forward (step_forward s) >>= λ t. next (set_cursors t))
  unfolding forward_move
  forward_move-rest =
      if_of_true (s.forward_flag && not s.play_flag) _ _
        (ground (arith, r.can_step, r.stopped, r.paused))

  pub click_forward-move :
      s.forward_lit ≡ true
      → (u : Page F) → draw_forward (step_forward s) ≡ next u
      → click_forward s ≡ next (forward_buttons (set_cursors u))
  unfolding click_forward
  click_forward-move lit u h =
      if_of_true s.forward_lit _ _ lit
      ∙ if_of_false (ltb_ℤ s.iteration s.iteration_low) _ _
          (ground (arith, r.two_recorded, inc_parts s.iteration_low))
      ∙ ap (λ f. f >>= λ v. next (forward_buttons v))
          (forward_move-rest ∙ ap (λ f. f >>= λ t. next (set_cursors t)) h)

  -- The state that the drawing of the next iteration leads to, and that without a drawing.
  abbrev pub drawn_next : List (Quad F) → Page F
  drawn_next arr =
      draw_quads graph (inc s.forward_iter) arr
        (record (step_forward s) { seekbar_value = inc s.forward_iter })

  pub draw_forward-recorded :
      (arr : List (Quad F))
      → inc s.forward_iter ≤ℤ s.max_iteration
      → Seen s (inc s.forward_iter) arr
      → draw_forward (step_forward s) ≡ next (drawn_next arr)
  unfolding draw_forward step_forward
  draw_forward-recorded arr le h =
      if_of_true
        (ltb_ℤ (inc s.forward_iter) s.max_iteration || eqb_ℤ (inc s.forward_iter) s.max_iteration) _
        _ (ground arith)
      ∙ render-recorded _ (inc s.forward_iter) arr h

  pub draw_forward-past :
      s.max_iteration <ℤ inc s.forward_iter → draw_forward (step_forward s) ≡ next (step_forward s)
  unfolding draw_forward step_forward
  draw_forward-past lt =
      if_of_false
        (ltb_ℤ (inc s.forward_iter) s.max_iteration || eqb_ℤ (inc s.forward_iter) s.max_iteration) _
        _ (ground arith)

  pub drawn_next-IsRest :
      (arr : List (Quad F))
      → inc s.forward_iter ≤ℤ s.max_iteration
      → inc s.forward_iter <ℤ s.iteration
      → IsRest (forward_buttons (set_cursors (drawn_next arr)))
  unfolding forward_buttons set_cursors draw_quads announce step_forward
  drawn_next-IsRest arr le lt = record {
    paused = r.paused;
    stopped = r.stopped;
    can_step = ground (arith, r.can_step);
    can_return = refl;
    two_recorded = r.two_recorded;
    in_range = r.in_range;
    from_first = ground (arith, r.from_first, inc_parts s.forward_iter);
    before_run = ground arith;
    behind = ground arith;
    seek_first = ground (arith, r.seek_first);
    seek_before_run = λ h. ground (arith, r.seek_before_run h);
    recorded = r.recorded;
    lit_forward = λ e _. inc-lt_of_dec _ s.iteration e;
  }

  pub past-IsRest :
      s.max_iteration <ℤ inc s.forward_iter
      → IsRest (forward_buttons (set_cursors (step_forward s)))
  unfolding forward_buttons set_cursors step_forward
  past-IsRest lt = record {
    paused = r.paused;
    stopped = r.stopped;
    can_step = ground (arith, r.can_step);
    can_return = refl;
    two_recorded = r.two_recorded;
    in_range = r.in_range;
    from_first = ground (
      arith,
      r.two_recorded,
      r.in_range,
      r.from_first,
      inc_parts s.iteration_low,
      inc_parts s.max_iteration,
      inc_parts s.forward_iter,
    );
    before_run = ground (arith, r.before_run, inc_parts s.forward_iter);
    behind = ground arith;
    seek_first = ground (arith, r.seek_first);
    seek_before_run =
        λ h. ground (arith, r.seek_before_run h, r.before_run, inc_parts s.forward_iter);
    recorded = r.recorded;
    lit_forward = λ e _. inc-lt_of_dec _ s.iteration e;
  }

  -- "forward" on a page at rest never throws, and leaves it at rest.
  pub forward-IsRest :
      s.forward_lit ≡ true → (t : Page F) × (click_forward s ≡ next t) × IsRest t × IsSameRun s t
  unfolding forward_buttons set_cursors draw_quads announce step_forward
  forward-IsRest lit = elim (Bool-cases (leb_ℤ (inc s.forward_iter) s.max_iteration)) [
    | inl e ↦
        let le : inc s.forward_iter ≤ℤ s.max_iteration = ground (arith, e) in
        let lt : inc s.forward_iter <ℤ s.iteration = r.lit_forward lit le in
        let (arr, h) =
          r.recorded (inc s.forward_iter) (ground (arith, r.from_first, inc_parts s.forward_iter))
            lt in
        (
          _,
          click_forward-move lit (drawn_next arr) (draw_forward-recorded arr le h),
          drawn_next-IsRest arr le lt,
          (refl, refl, refl),
        )
    | inr e ↦
        let lt : s.max_iteration <ℤ inc s.forward_iter = ground (arith, e) in
        (
          _,
          click_forward-move lit (step_forward s) (draw_forward-past lt),
          past-IsRest lt,
          (refl, refl, refl),
        )
  ]
