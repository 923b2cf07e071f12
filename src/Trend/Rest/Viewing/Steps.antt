-- ===== src/Trend/Rest/Viewing/Steps.antt =====
-- The moves on a page that shows the recording at its cursor.
use inc_visage.Common.{
  ℤ, inc, dec, inc_parts, dec_parts, eq_of_parts, ◌≤ℤ◌, ◌<ℤ◌, ltb_ℤ, ◌≡◌, refl, ◌∙◌, ap, sym, subst,
  inl, inr, true, Bool-cases, if◌then◌else◌, if_of_true, if_of_false, some, List, arith,
}
use inc_visage.Viewer.{forward, back, to, at, move}
use inc_visage.Trend.Segment.{Segment}
use inc_visage.Trend.State.{State, draw_segments, announce}
use inc_visage.Trend.Step.{step_forward, set_cursors, forward_buttons, set_back, back_buttons}
use inc_visage.Trend.Seek.{move_to, paused_buttons, end_buttons}
use inc_visage.Trend.Rest.{IsRest}
use inc_visage.Trend.Rest.Forward.{drawn_next, drawn_next-IsRest, past-IsRest}
use inc_visage.Trend.Rest.Back.{drawn_back, drawn_back-IsRest}
use inc_visage.Trend.Rest.Seek.{IsTarget, target, shown, shown-IsRest}
use inc_visage.Trend.Rest.Viewing.{IsViewing, IsMoved, viewer}

-- The furthest iteration, cut at the end of the range, after a step within it.
seen_of :
    (hi seen i : ℤ)
    → i ≤ℤ hi
    → (if ltb_ℤ hi (if ltb_ℤ seen i then i else seen) then hi else if ltb_ℤ seen i then i else seen)
      ≡ (if ltb_ℤ (if ltb_ℤ hi seen then hi else seen) i
          then i
          else if ltb_ℤ hi seen
          then hi
          else seen)
seen_of hi seen i le = ground arith

module _ {F : Type 0} (s : State F) where
  module _ (w : IsViewing s) where
    abbrev pub clean : State F → ℤ → State F
    clean u i = record u { forward_iter = i; backward_iter = i; play_iter = i; pause_iter = i }

    pub set_cursors-within :
        (u : State F) → u.forward_iter ≤ℤ u.x_max → set_cursors u ≡ clean u u.forward_iter
    unfolding set_cursors
    set_cursors-within u le =
        ap (clean u) (if_of_false (ltb_ℤ u.x_max u.forward_iter) _ _ (ground arith))

    pub forward-drawn :
        (arr : List (Segment F))
        → inc s.forward_iter ≤ℤ s.x_max
        → inc s.forward_iter <ℤ s.iteration
        → s.segment_chain (inc s.forward_iter) ≡ some arr
        → IsMoved s forward (forward_buttons (clean (drawn_next s w.rest arr) (inc s.forward_iter)))
    unfolding forward_buttons set_cursors draw_segments announce step_forward move
    forward-drawn arr le lt h = record {
      viewing = record {
        rest =
            subst IsRest (ap forward_buttons (set_cursors-within (drawn_next s w.rest arr) le))
              (drawn_next-IsRest s w.rest arr le lt);
        synced = refl;
        lit_back = sym (ground (arith, w.rest.from_first, inc_parts s.forward_iter));
        dim_forward = λ e. ground (arith, e, dec_parts s.iteration, inc_parts (inc s.forward_iter));
        covered = ground arith;
        showing = record {
          frame = arr;
          recorded = h;
          before = s.log;
          drawn = refl;
          captioned = refl;
          barred = refl;
        };
      };
      same = (refl, refl, refl);
      chain = refl;
      moved =
          ap
            (λ e. record {
              low = s.x_min;
              last = dec s.iteration;
              seen = e;
              cursor = inc s.forward_iter;
            })
            (seen_of s.x_max s.seekbar_max (inc s.forward_iter) le)
          ∙ sym (
              if_of_true (ltb_ℤ s.forward_iter (dec s.iteration)) _ _
                (ground (arith, inc_parts s.forward_iter, dec_parts s.iteration)));
    }

    module _ (lt : s.x_max <ℤ inc s.forward_iter) where
      at_last : s.x_max ≡ s.forward_iter
      at_last = eq_of_parts _ _ (
          ground (
            arith,
            lt,
            inc_parts s.forward_iter,
            w.rest.before_run,
            w.rest.in_range,
            inc_parts s.x_max,
          ))

      pub set_cursors-past : set_cursors (step_forward s) ≡ clean (step_forward s) s.forward_iter
      unfolding set_cursors step_forward
      set_cursors-past =
          ap (clean (step_forward s))
            (if_of_true (ltb_ℤ s.x_max (inc s.forward_iter)) _ _ (ground arith) ∙ at_last)

      all_seen : (if ltb_ℤ s.x_max s.seekbar_max then s.x_max else s.seekbar_max) ≡ s.x_max
      all_seen = elim (Bool-cases (ltb_ℤ s.x_max s.seekbar_max)) [
        | inl e ↦ if_of_true _ _ _ e
        | inr e ↦
            if_of_false _ _ _ e
            ∙ eq_of_parts _ _ (ground (arith, e, lt, inc_parts s.forward_iter, w.covered))
      ]

      -- Past the end "forward" draws nothing, and the cursor stays on the last iteration.
      pub forward-past : IsMoved s forward (forward_buttons (clean (step_forward s) s.forward_iter))
      unfolding forward_buttons set_cursors step_forward move
      forward-past = record {
        viewing = record {
          rest = subst IsRest (ap forward_buttons set_cursors-past) (past-IsRest s w.rest lt);
          synced = refl;
          lit_back = sym (
              ground (
                arith,
                w.rest.two_recorded,
                w.rest.in_range,
                inc_parts s.x_min,
                inc_parts s.x_max,
                inc_parts s.forward_iter,
              ));
          dim_forward = λ e. ground (arith, e, dec_parts s.iteration, inc_parts s.forward_iter);
          covered = ground (arith, w.covered);
          showing = record {
            frame = w.showing.frame;
            recorded = w.showing.recorded;
            before = w.showing.before;
            drawn = w.showing.drawn;
            captioned = w.showing.captioned;
            barred = w.showing.barred;
          };
        };
        same = (refl, refl, refl);
        chain = refl;
        moved =
            ap
              (λ e. record {
                low = s.x_min;
                last = dec s.iteration;
                seen = e;
                cursor = s.forward_iter;
              })
              (if_of_true
                  (ltb_ℤ s.x_max (
                    if ltb_ℤ s.seekbar_max (inc s.forward_iter)
                    then inc s.forward_iter
                    else s.seekbar_max))
                  _ _ (ground arith)
                ∙ sym all_seen)
            ∙ sym (
                if_of_false (ltb_ℤ s.forward_iter (dec s.iteration)) _ _ (
                  ground (
                    arith,
                    w.rest.in_range,
                    inc_parts s.forward_iter,
                    inc_parts s.x_max,
                    dec_parts s.iteration,
                  )));
      }

    pub set_back-within :
        (u : State F)
        → u.x_min ≤ℤ u.backward_iter
        → set_back u ≡ record u {
          forward_iter = u.backward_iter;
          play_iter = u.backward_iter;
          pause_iter = u.backward_iter;
        }
    unfolding set_back
    set_back-within u le =
        ap (λ i. record u { forward_iter = i; play_iter = i; pause_iter = i })
          (if_of_false (ltb_ℤ u.backward_iter u.x_min) _ _ (ground arith))

    pub back-drawn :
        s.back_lit ≡ true
        → (arr : List (Segment F)) → s.x_min <ℤ s.forward_iter
        → s.segment_chain (dec s.backward_iter) ≡ some arr
        → IsMoved s back (
            back_buttons (record (drawn_back s w.rest arr) {
              forward_iter = dec s.backward_iter;
              play_iter = dec s.backward_iter;
              pause_iter = dec s.backward_iter;
            }))
    unfolding back_buttons set_back draw_segments announce move
    back-drawn lit arr lt h = record {
      viewing = record {
        rest =
            subst IsRest (ap back_buttons (set_back-within (drawn_back s w.rest arr) within))
              (drawn_back-IsRest s w.rest arr within);
        synced = refl;
        lit_back = ground (arith, lit);
        dim_forward = λ e. ground (arith, e);
        covered = ground (arith, w.synced, w.covered, dec_parts s.backward_iter);
        showing = record {
          frame = arr;
          recorded = h;
          before = s.log;
          drawn = refl;
          captioned = refl;
          barred = refl;
        };
      };
      same = (refl, refl, refl);
      chain = refl;
      moved =
          ap (λ i. at (viewer s) (dec i)) w.synced
          ∙ sym (if_of_true (ltb_ℤ s.x_min s.forward_iter) _ _ (ground arith));
    }
      where
        within : s.x_min ≤ℤ dec s.backward_iter
        within = ground (arith, lt, w.synced, dec_parts s.backward_iter)

  module _ (r : IsRest s) where
    pub seek-drawn :
        (v : ℤ) (k : IsTarget s v) (arr : List (Segment F))
        → s.segment_chain (target s v) ≡ some arr
        → IsMoved s (to v) (end_buttons (paused_buttons (shown s v arr)))
    unfolding end_buttons paused_buttons move_to draw_segments announce move
    seek-drawn v k arr h = record {
      viewing = record {
        rest = shown-IsRest s v r k arr;
        synced = refl;
        lit_back = ground (arith, r.two_recorded, r.in_range, inc_parts s.x_min, inc_parts s.x_max);
        dim_forward = λ e. ground (arith, e, r.in_range, inc_parts s.x_max, inc_parts (target s v));
        covered = ground arith;
        showing = record {
          frame = arr;
          recorded = h;
          before = s.log;
          drawn = refl;
          captioned = refl;
          barred = refl;
        };
      };
      same = (refl, refl, refl);
      chain = refl;
      moved = ap (at (viewer s)) (ground (arith, k.to_last));
    }
