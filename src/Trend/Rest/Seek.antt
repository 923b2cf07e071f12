-- ===== src/Trend/Rest/Seek.antt =====
-- The seek bar on a page at rest.
use inc_visage.Common.{
  ℤ, inc, inc_parts, ◌≤ℤ◌, ◌<ℤ◌, ltb_ℤ, ◌≡◌, refl, ◌∙◌, ap, true, not, ◌&&◌, if◌then◌else◌,
  if_of_true, if_of_false, some, List, arith,
}
use inc_visage.Js.{next, ◌>>=◌}
use inc_visage.Trend.Segment.{Segment}
use inc_visage.Trend.State.{State, graph, draw_segments, announce}
use inc_visage.Trend.Seek.{seek, seek_paused, seek_stopped, move_to, paused_buttons, end_buttons}
use inc_visage.Trend.Rest.{IsRest, IsSameRun, render-recorded}

-- The bar lies in its range, and short of the last recorded iteration while more are to come.
pub record IsTarget {F : Type 0} (s : State F) (v : ℤ) : Type 0 where
  pub from_first : s.x_min ≤ℤ v
  pub to_last : v ≤ℤ s.x_max
  pub short : s.iteration ≤ℤ s.x_max → inc v <ℤ s.iteration

module _ {F : Type 0} (s : State F) (v : ℤ) where
  -- The bar comes no further than what was seen.
  abbrev pub target : ℤ
  target = if ltb_ℤ s.seekbar_max v then s.seekbar_max else v

  abbrev moved : State F
  moved = record s { seekbar_iter = v; seekbar_value = v }

  abbrev pub shown : List (Segment F) → State F
  shown arr = draw_segments graph target arr (move_to target moved)

  module _ (r : IsRest s) where
    seek_paused-rest :
        (arr : List (Segment F))
        → s.segment_chain target ≡ some arr
        → seek_paused moved ≡ next (paused_buttons (shown arr))
    unfolding seek_paused move_to
    seek_paused-rest arr e =
        if_of_true s.pause_flag _ _ r.paused
        ∙ ap (λ f. f >>= λ t. next (paused_buttons t))
            (render-recorded (move_to target moved) target arr e)

    seek_stopped-paused : (u : State F) → u.pause_flag ≡ true → seek_stopped u ≡ next u
    unfolding seek_stopped
    seek_stopped-paused u p =
        if_of_false (not u.play_flag && not u.pause_flag) _ _ (ground (arith, p))

    pub seek-shown :
        (arr : List (Segment F))
        → s.segment_chain target ≡ some arr
        → seek v s ≡ next (end_buttons (paused_buttons (shown arr)))
    unfolding seek paused_buttons move_to draw_segments
    seek-shown arr e =
        ap (λ f. f >>= λ t. seek_stopped t >>= λ u. next (end_buttons u)) (seek_paused-rest arr e)
        ∙ ap (λ f. f >>= λ u. next (end_buttons u))
            (seek_stopped-paused (paused_buttons (shown arr)) r.paused)

    module _ (h : IsTarget s v) where
      pub target-recorded : (arr : List (Segment F)) × (s.segment_chain target ≡ some arr)
      target-recorded =
          r.recorded target (ground (arith, r.seek_first, h.from_first))
            (ground (arith, r.seek_before_run, h.to_last, h.short, inc_parts v))

      pub shown-IsRest :
          (arr : List (Segment F)) → IsRest (end_buttons (paused_buttons (shown arr)))
      unfolding end_buttons paused_buttons move_to draw_segments announce
      shown-IsRest arr = record {
        paused = r.paused;
        stopped = r.stopped;
        can_step = ground (arith, r.can_step);
        can_return = ground (arith, r.can_return);
        two_recorded = r.two_recorded;
        in_range = r.in_range;
        from_first = ground (arith, r.seek_first, h.from_first);
        before_run = ground (arith, r.seek_before_run, h.to_last, h.short, inc_parts v);
        behind = ground arith;
        seek_first = r.seek_first;
        seek_before_run = r.seek_before_run;
        recorded = r.recorded;
        lit_forward = λ _ le. next_in le;
      }
        where
          next_in : inc target ≤ℤ s.x_max → inc target <ℤ s.iteration
          next_in le =
              let k : target ≤ℤ v = ground arith in
              ground (arith, h.short, inc_parts v, inc_parts target)

      -- The seek bar on a page at rest never throws, draws the iteration that it was put to, or the
      -- last one seen if that is earlier, and leaves the page at rest.
      pub seek-IsRest :
          (t : State F) × (seek v s ≡ next t) × IsRest t × IsSameRun s t × (t.forward_iter ≡ target)
      unfolding end_buttons paused_buttons move_to draw_segments announce
      seek-IsRest =
          let (arr, e) = target-recorded in
          (_, seek-shown arr e, shown-IsRest arr, (refl, refl, refl), refl)
