-- ===== src/Base/Trend/Run.antt =====
-- The run of new-web-test/js/trendline/playerBase.js to the answer that says it is the last.
pub mod End
pub mod Over
use inc_visage.Common.{
  ℤ, pos, inc, eqb_ℤ, Bool-cases, inl, inr, Bool, true, false, not, ◌&&◌, ◌||◌, if◌then◌else◌,
  if_of_true, if_of_false, some, List, [], ◌∷◌, ◌≡◌, refl, ap, ◌∙◌, arith,
}
use inc_visage.Js.{Flow, next, ◌>>=◌, update}
use inc_visage.Refine.{Part, overwrite, shapes}
use inc_visage.Trend.Segment.{Segment, trend}
use inc_visage.Trend.State.{State, request, draw, graph, draw_segments, announce}
use inc_visage.Trend.Play.{Margins, take_whole, show_segments, first_range, stop}
use inc_visage.Base.Trend.{
  BasePage, BaseOutput, Timer, play_base, with_timers, play_base_next, finish, take_continued,
  play_on_base, set_base_range, take_base, gen_charts_base, fire, call,
}

module _ {F : Type 0} where
  -- The page waits for the answer for its iteration, and no timer is set.
  pub record IsWaiting (b : BasePage F) : Type 0 where
    pub no_reset : b.state.reset_flag ≡ false
    pub playing : b.state.play_flag ≡ true
    pub no_pause : b.state.pause_flag ≡ false
    pub no_replay : b.state.simplay_flag ≡ false
    pub no_forward : b.state.forward_flag ≡ false
    pub draws : b.state.play_noviz ≡ false
    pub no_timer : b.timers ≡ []

  module _ ⦃m : Margins F⦄ where
    -- An answer, and then the timers that it has set.
    unfoldable pub answer_base : Bool → BaseOutput F → BasePage F → Flow (BasePage F)
    answer_base is_sensor o b = gen_charts_base is_sensor o b >>= fire

    -- `first_range` by the fields that it may set.
    abbrev pub ranged : Bool → BaseOutput F → State F → State F
    ranged is_sensor o s =
        let first = eqb_ℤ s.iteration (pos 1) in
        record (set_base_range is_sensor o.y s) {
          x_max = if first then o.y.x_max else s.x_max;
          x_min = if first then o.y.x_min else s.x_min;
        }

    first_range-ranged :
        (is_sensor : Bool) (o : BaseOutput F) (s : State F)
        → first_range o.y (set_base_range is_sensor o.y s) ≡ ranged is_sensor o s
    unfolding first_range set_base_range
    first_range-ranged is_sensor o s = elim (Bool-cases (eqb_ℤ s.iteration (pos 1))) [
      | inl e ↦ rw e refl
      | inr e ↦ rw e refl
    ]

    module _ (is_sensor : Bool) (o : BaseOutput F) (gl : List (Part (Segment F))) where
      -- The state with the answer taken in, and drawn.
      abbrev pub taken : State F → State F
      taken s =
          let w = ranged is_sensor o s in
          record w {
            segment_arr = overwrite gl w.segment_arr;
            segment_chain = update w.segment_chain w.iteration (shapes gl);
          }

      abbrev pub shown : State F → State F
      shown s =
          let t = taken s in
          record (draw_segments graph t.iteration t.segment_arr t) { seekbar_value = t.iteration }

      show_segments-shown :
          (s : State F)
          → (s.play_noviz || (s.simplay_flag || s.reset_flag)) ≡ false
          → show_segments (taken s) ≡ shown s
      unfolding show_segments set_base_range draw_segments
      show_segments-shown s v = if_of_false (s.play_noviz || (s.simplay_flag || s.reset_flag)) _ _ v

      play_on_base-shown :
          (ts : List Timer) (s : State F)
          → s.reset_flag ≡ false
          → s.forward_flag ≡ false
          → play_on_base ts (shown s) ≡ record { state = shown s; timers = play_base ∷ ts }
      unfolding play_on_base set_base_range draw_segments announce
      play_on_base-shown ts s r f = rw (r, f) refl

      pub take_base-shown :
          (b : BasePage F)
          → o.gl ≡ some gl
          → b.state.reset_flag ≡ false
          → (b.state.play_noviz || (b.state.simplay_flag || b.state.reset_flag)) ≡ false
          → b.state.forward_flag ≡ false
          → take_base is_sensor o b
            ≡ next (record { state = shown b.state; timers = play_base ∷ b.timers })
      unfolding take_base take_whole
      take_base-shown b g r v f =
          if_of_false b.state.reset_flag _ _ r
          ∙ ap
              (λ w. with_timers b.timers (take_whole o.gl w) >>= λ u.
                next (play_on_base u.timers (show_segments u.state)))
              (first_range-ranged is_sensor o b.state)
          ∙ ap
              (λ x. with_timers b.timers (take_whole x (ranged is_sensor o b.state)) >>= λ u.
                next (play_on_base u.timers (show_segments u.state)))
              g
          ∙ ap (λ u. next (play_on_base b.timers u)) (show_segments-shown b.state v)
          ∙ ap next (play_on_base-shown b.timers b.state r f)
