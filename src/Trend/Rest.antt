-- ===== src/Trend/Rest.antt =====
-- The page at rest: paused, with the answer to the last request taken in. The handlers of "forward",
-- "back" and the seek bar move the cursor over the iterations that are recorded.
pub mod Forward
pub mod Back
pub mod Seek
pub mod Session
pub mod Viewing
use inc_visage.Common.{
  ℤ, inc, dec, inc_parts, dec_parts, eq_of_parts, ◌≤ℤ◌, ◌<ℤ◌, ltb_ℤ, leb_ℤ, eqb_ℤ, ◌≡◌, refl, ◌∙◌,
  ap, sym, subst, ◌⊎◌, inl, inr, Bool, true, false, not, ◌&&◌, ◌||◌, Bool-cases, if◌then◌else◌,
  if_of_true, if_of_false, Option, none, some, List, [], ◌∷◌, arith,
}
use inc_visage.Js.{Flow, next, thrown, ◌>>=◌, Sparse}
use inc_visage.Trend.Segment.{Segment, trend}
use inc_visage.Trend.State.{State, Icon, draw, graph, render, draw_segments, announce}
use inc_visage.Trend.Step.{
  click_forward, forward_init, forward_move, step_forward, draw_forward, set_cursors,
  forward_buttons, click_back, back_move, draw_back, set_back, back_buttons,
}

module _ {F : Type 0} where
  -- The iterations from `lo` on and below `bound` are recorded.
  abbrev pub IsRecordedFrom : ℤ → ℤ → Sparse (List (Segment F)) → Type 0
  IsRecordedFrom lo bound chain =
      (j : ℤ) → lo ≤ℤ j → j <ℤ bound → (arr : List (Segment F)) × (chain j ≡ some arr)

  pub record IsRest (s : State F) : Type 0 where
    pub paused : s.pause_flag ≡ true
    pub stopped : s.play_flag ≡ false
    pub can_step : s.forward_flag ≡ true
    pub can_return : s.back_flag ≡ true
    pub two_recorded : inc s.x_min <ℤ s.iteration
    pub in_range : s.iteration ≤ℤ inc s.x_max
    pub from_first : s.x_min ≤ℤ s.forward_iter
    pub before_run : s.forward_iter <ℤ s.iteration
    pub behind : s.backward_iter ≤ℤ s.forward_iter
    pub seek_first : s.x_min ≤ℤ s.seekbar_max
    pub seek_before_run : s.iteration ≤ℤ s.x_max → s.seekbar_max <ℤ s.iteration
    pub recorded : IsRecordedFrom s.x_min s.iteration s.segment_chain
    -- Where "forward" is lit the next iteration is recorded, or past the end.
    pub lit_forward :
        s.forward_lit ≡ true → inc s.forward_iter ≤ℤ s.x_max → inc s.forward_iter <ℤ s.iteration

  -- The run and its range stay where they are.
  abbrev pub IsSameRun : State F → State F → Type 0
  IsSameRun s t = (t.iteration ≡ s.iteration) × (t.x_min ≡ s.x_min) × (t.x_max ≡ s.x_max)

  -- A drawing of an iteration that is recorded goes through.
  pub render-recorded :
      (s : State F) (i : ℤ) (arr : List (Segment F))
      → s.segment_chain i ≡ some arr
      → render graph i (s.segment_chain i) s ≡ next (draw_segments graph i arr s)
  unfolding render
  render-recorded s i arr h = ap (λ o. render graph i o s) h
