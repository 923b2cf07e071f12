-- ===== src/Heat/Rest.antt =====
-- The page at rest: paused, with the answer to the last request taken in. The handlers of "forward",
-- "back" and the seek bar move the cursor over the iterations that are recorded.
pub mod Forward
pub mod Back
pub mod Seek
pub mod Session
pub mod Viewing
use inc_visage.Common.{
  ℤ, inc, dec, inc_parts, dec_parts, eq_of_parts, ◌≤ℤ◌, ◌<ℤ◌, ltb_ℤ, leb_ℤ, eqb_ℤ, ◌≡◌, refl, ◌∙◌,
  ap, sym, subst, ◌⊎◌, inl, inr, Bool, true, false, not, ◌&&◌, ◌||◌, Bool-cases, if◌then◌else◌,
  if_of_true, if_of_false, Option, none, some, List, [], ◌∷◌, arith,
}
use inc_visage.Js.{Flow, next, thrown, ◌>>=◌, Sparse}
use inc_visage.Trend.State.{Icon, graph}
use inc_visage.Heat.{Page, Quad, Cell, legend, render, draw_quads, announce}

module _ {F : Type 0} where
  -- The iteration is recorded with the averages of its legend, and the cells are known.
  pub record IsSeen (chain : Sparse (List (Quad F))) (lo hi : Sparse F) (cells : Option (List Cell))
      (i : ℤ) (arr : List (Quad F)) : Type 0 where
    pub kept : chain i ≡ some arr
    pub min : F
    pub has_min : lo i ≡ some min
    pub max : F
    pub has_max : hi i ≡ some max
    pub valid : List Cell
    pub has_cells : cells ≡ some valid

  abbrev pub Seen : Page F → ℤ → List (Quad F) → Type 0
  Seen s i arr = IsSeen s.segment_chain s.avg_min s.avg_max s.valid_cells i arr

  -- The iterations from `lo` on and below `bound` can be drawn.
  abbrev pub IsRecordedFrom : ℤ → ℤ → Page F → Type 0
  IsRecordedFrom lo bound s = (j : ℤ) → lo ≤ℤ j → j <ℤ bound → (arr : List (Quad F)) × Seen s j arr

  pub record IsRest (s : Page F) : Type 0 where
    pub paused : s.pause_flag ≡ true
    pub stopped : s.play_flag ≡ false
    pub can_step : s.forward_flag ≡ true
    pub can_return : s.back_flag ≡ true
    pub two_recorded : inc s.iteration_low <ℤ s.iteration
    pub in_range : s.iteration ≤ℤ inc s.max_iteration
    pub from_first : s.iteration_low ≤ℤ s.forward_iter
    pub before_run : s.forward_iter <ℤ s.iteration
    pub behind : s.backward_iter ≤ℤ s.forward_iter
    pub seek_first : s.iteration_low ≤ℤ s.seekbar_max
    pub seek_before_run : s.iteration ≤ℤ s.max_iteration → s.seekbar_max <ℤ s.iteration
    pub recorded : IsRecordedFrom s.iteration_low s.iteration s
    -- Where "forward" is lit the next iteration is recorded, or past the end.
    pub lit_forward :
        s.forward_lit ≡ true
        → inc s.forward_iter ≤ℤ s.max_iteration
        → inc s.forward_iter <ℤ s.iteration

  -- The run and its range stay where they are.
  abbrev pub IsSameRun : Page F → Page F → Type 0
  IsSameRun s t =
      (t.iteration ≡ s.iteration)
      × (t.iteration_low ≡ s.iteration_low)
      × (t.max_iteration ≡ s.max_iteration)

  -- A drawing of an iteration that is recorded goes through.
  pub render-recorded :
      (s : Page F) (i : ℤ) (arr : List (Quad F))
      → Seen s i arr
      → render graph i (s.segment_chain i) s ≡ next (draw_quads graph i arr s)
  unfolding render legend
  render-recorded s i arr h =
      ap (λ o. render graph i o s) h.kept ∙ elim (Bool-cases (leb_ℤ s.iteration_low i)) [
        | inl e ↦
            if_of_true (leb_ℤ s.iteration_low i) _ _ e ∙ rw (h.has_min, h.has_max, h.has_cells)
        | inr e ↦ if_of_false (leb_ℤ s.iteration_low i) _ _ e
      ]
