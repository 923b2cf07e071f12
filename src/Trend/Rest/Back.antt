-- ===== src/Trend/Rest/Back.antt =====
-- "back" on a page at rest.
use inc_visage.Common.{
  inc, dec, inc-dec, inc_parts, dec_parts, ◌≤ℤ◌, ◌<ℤ◌, ltb_ℤ, leb_ℤ, eqb_ℤ, ◌≡◌, refl, ◌∙◌, ap, inl,
  inr, true, not, ◌&&◌, Bool-cases, if◌then◌else◌, if_of_true, if_of_false, some, List, arith,
}
use inc_visage.Js.{next, ◌>>=◌}
use inc_visage.Trend.Segment.{Segment}
use inc_visage.Trend.State.{State, graph, draw_segments, announce}
use inc_visage.Trend.Step.{click_back, back_move, draw_back, set_back, back_buttons}
use inc_visage.Trend.Rest.{IsRest, IsSameRun, render-recorded}

module _ {F : Type 0} (s : State F) (r : IsRest s) where
  abbrev pub stepped_back : State F
  stepped_back = record s { forward_flag = true; backward_iter = dec s.backward_iter }

  back_move-rest : back_move s ≡ (draw_back stepped_back >>= λ t. next (set_back t))
  unfolding back_move
  back_move-rest =
      if_of_true (not s.play_flag && s.back_flag) _ _ (ground (arith, r.stopped, r.can_return))

  pub click_back-move :
      s.back_lit ≡ true
      → (u : State F) → draw_back stepped_back ≡ next u
      → click_back s ≡ next (back_buttons (set_back u))
  unfolding click_back
  click_back-move lit u h =
      if_of_true s.back_lit _ _ lit
      ∙ (if_of_false (eqb_ℤ s.iteration s.x_min) _ _
            (ground (arith, r.two_recorded, inc_parts s.x_min))
          ∙ ap (λ f. f >>= λ v. next (back_buttons v))
              (back_move-rest ∙ ap (λ f. f >>= λ t. next (set_back t)) h))

  abbrev pub drawn_back : List (Segment F) → State F
  drawn_back arr =
      draw_segments graph (dec s.backward_iter) arr
        (record stepped_back { seekbar_value = dec s.backward_iter })

  pub draw_back-recorded :
      (arr : List (Segment F))
      → s.x_min ≤ℤ dec s.backward_iter
      → s.segment_chain (dec s.backward_iter) ≡ some arr
      → draw_back stepped_back ≡ next (drawn_back arr)
  unfolding draw_back
  draw_back-recorded arr le h =
      if_of_true (leb_ℤ s.x_min (dec s.backward_iter)) _ _ (ground arith)
      ∙ render-recorded _ (dec s.backward_iter) arr h

  draw_back-before : dec s.backward_iter <ℤ s.x_min → draw_back stepped_back ≡ next stepped_back
  unfolding draw_back
  draw_back-before lt = if_of_false (leb_ℤ s.x_min (dec s.backward_iter)) _ _ (ground arith)

  back_next :
      inc (if ltb_ℤ (dec s.backward_iter) s.x_min then s.x_min else dec s.backward_iter)
      <ℤ s.iteration
  back_next = elim (Bool-cases (ltb_ℤ (dec s.backward_iter) s.x_min)) [
    | inl e ↦ rw e r.two_recorded
    | inr e ↦ rw (e, inc-dec s.backward_iter) (ground (arith, r.before_run, r.behind))
  ]

  pub drawn_back-IsRest :
      (arr : List (Segment F))
      → s.x_min ≤ℤ dec s.backward_iter
      → IsRest (back_buttons (set_back (drawn_back arr)))
  unfolding back_buttons set_back draw_segments announce
  drawn_back-IsRest arr le = record {
    paused = r.paused;
    stopped = r.stopped;
    can_step = refl;
    can_return = r.can_return;
    two_recorded = r.two_recorded;
    in_range = r.in_range;
    from_first = ground arith;
    before_run = ground (
      arith,
      r.before_run,
      r.behind,
      r.two_recorded,
      dec_parts s.backward_iter,
      inc_parts s.x_min,
    );
    behind = ground arith;
    seek_first = r.seek_first;
    seek_before_run = r.seek_before_run;
    recorded = r.recorded;
    lit_forward = λ _ _. back_next;
  }

  before-IsRest : dec s.backward_iter <ℤ s.x_min → IsRest (back_buttons (set_back stepped_back))
  unfolding back_buttons set_back
  before-IsRest lt = record {
    paused = r.paused;
    stopped = r.stopped;
    can_step = refl;
    can_return = r.can_return;
    two_recorded = r.two_recorded;
    in_range = r.in_range;
    from_first = ground arith;
    before_run = ground (
      arith,
      r.before_run,
      r.behind,
      r.two_recorded,
      dec_parts s.backward_iter,
      inc_parts s.x_min,
    );
    behind = ground arith;
    seek_first = r.seek_first;
    seek_before_run = r.seek_before_run;
    recorded = r.recorded;
    lit_forward = λ _ _. back_next;
  }

  -- "back" on a page at rest never throws, and leaves it at rest.
  pub back-IsRest :
      s.back_lit ≡ true → (t : State F) × (click_back s ≡ next t) × IsRest t × IsSameRun s t
  unfolding back_buttons set_back draw_segments announce
  back-IsRest lit = elim (Bool-cases (leb_ℤ s.x_min (dec s.backward_iter))) [
    | inl e ↦
        let le : s.x_min ≤ℤ dec s.backward_iter = ground (arith, e) in
        let (arr, h) =
          r.recorded (dec s.backward_iter) le
            (ground (arith, r.before_run, r.behind, dec_parts s.backward_iter)) in
        (
          _,
          click_back-move lit (drawn_back arr) (draw_back-recorded arr le h),
          drawn_back-IsRest arr le,
          (refl, refl, refl),
        )
    | inr e ↦
        let lt : dec s.backward_iter <ℤ s.x_min = ground (arith, e) in
        (
          _,
          click_back-move lit stepped_back (draw_back-before lt),
          before-IsRest lt,
          (refl, refl, refl),
        )
  ]
