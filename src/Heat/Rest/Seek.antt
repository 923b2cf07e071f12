-- ===== src/Heat/Rest/Seek.antt =====
-- The seek bar on a page at rest.
use inc_visage.Common.{
  ℤ, ◌∷◌, some, inc, inc_parts, ◌≤ℤ◌, ◌<ℤ◌, ltb_ℤ, ◌≡◌, refl, ◌∙◌, ap, true, not, ◌&&◌,
  if◌then◌else◌, if_of_true, if_of_false, List, arith,
}
use inc_visage.Js.{next, ◌>>=◌}
use inc_visage.Trend.State.{graph}
use inc_visage.Heat.{draw, Page, Quad, draw_quads, announce}
use inc_visage.Heat.Seek.{seek, seek_paused, seek_stopped, move_to, paused_buttons, end_buttons}
use inc_visage.Heat.Rest.{IsRest, IsSameRun, Seen, render-recorded}

-- The bar lies in its range, and short of the last recorded iteration while more are to come.
pub record IsTarget {F : Type 0} (s : Page F) (v : ℤ) : Type 0 where
  pub from_first : s.iteration_low ≤ℤ v
  pub to_last : v ≤ℤ s.max_iteration
  pub short : s.iteration ≤ℤ s.max_iteration → inc v <ℤ s.iteration

module _ {F : Type 0} (s : Page F) (v : ℤ) where
  -- The bar comes no further than what was seen.
  abbrev pub target : ℤ
  target = if ltb_ℤ s.seekbar_max v then s.seekbar_max else v

  abbrev moved : Page F
  moved = record s { seekbar_iter = v; seekbar_value = v }

  abbrev pub shown : List (Quad F) → Page F
  shown arr = draw_quads graph target arr (move_to s.pause_iter target moved)

  module _ (r : IsRest s) where
    seek_paused-rest :
        (arr : List (Quad F))
        → Seen s target arr
        → seek_paused moved ≡ next (paused_buttons (shown arr))
    unfolding seek_paused move_to
    seek_paused-rest arr e =
        if_of_true s.pause_flag _ _ r.paused
        ∙ ap (λ f. f >>= λ t. next (paused_buttons t))
            (render-recorded (move_to s.pause_iter target moved) target arr e)

    seek_stopped-paused : (u : Page F) → u.pause_flag ≡ true → seek_stopped u ≡ next u
    unfolding seek_stopped
    seek_stopped-paused u p =
        if_of_false (not u.play_flag && not u.pause_flag) _ _ (ground (arith, p))

    pub seek-shown :
        (arr : List (Quad F))
        → Seen s target arr
        → seek v s ≡ next (end_buttons (paused_buttons (shown arr)))
    unfolding seek paused_buttons move_to draw_quads
    seek-shown arr e =
        ap (λ f. f >>= λ t. seek_stopped t >>= λ u. next (end_buttons u)) (seek_paused-rest arr e)
        ∙ ap (λ f. f >>= λ u. next (end_buttons u))
            (seek_stopped-paused (paused_buttons (shown arr)) r.paused)

    module _ (h : IsTarget s v) where
      pub target-recorded : (arr : List (Quad F)) × (Seen s target arr)
      target-recorded =
          r.recorded target (ground (arith, r.seek_first, h.from_first))
            (ground (arith, r.seek_before_run, h.to_last, h.short, inc_parts v))

      pub shown-IsRest : (arr : List (Quad F)) → IsRest (end_buttons (paused_buttons (shown arr)))
      unfolding end_buttons paused_buttons move_to draw_quads announce
      shown-IsRest arr = record {
        paused = r.paused;
        stopped = r.stopped;
        can_step = ground (arith, r.can_step);
        can_return = ground (arith, r.can_return);
        two_recorded = r.two_recorded;
        in_range = r.in_range;
        from_first = ground (arith, r.seek_first, h.from_first);
        before_run = ground (arith, r.seek_before_run, h.to_last, h.short, inc_parts v);
        behind = ground arith;
        seek_first = r.seek_first;
        seek_before_run = r.seek_before_run;
        recorded = r.recorded;
        lit_forward = λ _ le. next_in le;
      }
        where
          next_in : inc target ≤ℤ s.max_iteration → inc target <ℤ s.iteration
          next_in le =
              let k : target ≤ℤ v = ground arith in
              ground (arith, h.short, inc_parts v, inc_parts target)

      -- The seek bar on a page at rest never throws, draws the iteration that it was put to, or the
      -- last one seen if that is earlier, and leaves the page at rest.
      pub seek-IsRest :
          (t : Page F) × (seek v s ≡ next t) × IsRest t × IsSameRun s t × (t.forward_iter ≡ target)
      unfolding end_buttons paused_buttons move_to draw_quads announce
      seek-IsRest =
          let (arr, e) = target-recorded in
          (_, seek-shown arr e, shown-IsRest arr, (refl, refl, refl), refl)

      -- The array that the bar draws, within the run.
      pub seek-draws :
          (arr : List (Quad F)) × (t : Page F) × (seek v s ≡ next t)
          × (s.segment_chain target ≡ some arr)
          × (t.log ≡ draw graph target arr ∷ s.log)
          × (t.forward_iter ≡ target)
          × (s.iteration_low ≤ℤ target)
          × (target <ℤ s.iteration)
      unfolding end_buttons paused_buttons move_to draw_quads announce
      seek-draws =
          let (arr, e) = target-recorded in
          (
            arr,
            _,
            seek-shown arr e,
            e.kept,
            refl,
            refl,
            ground (arith, r.seek_first, h.from_first),
            ground (arith, r.seek_before_run, h.to_last, h.short, inc_parts v),
          )
