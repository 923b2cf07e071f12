-- ===== src/Former/Answers.antt =====
-- How `genCharts` of the former heatmap takes in an answer that splits one quad.
use Prim.Native.String.{String}
use inc_visage.Common.{
  leb_ℤ, true, false, ◌||◌, Bool-cases, inl, inr, if_of_true, if_of_false, some, List, ◌∷◌, ◌≡◌,
  refl, ap, ◌∙◌, arith,
}
use inc_visage.Js.{next, ◌>>=◌, update, update_self}
use inc_visage.Refine.{Part, splice_parts}
use inc_visage.Trend.State.{graph}
use inc_visage.Heat.{Cell}
use inc_visage.Former.{FormerPage, Shape, all_defined, render, legend, draw_shapes}
use inc_visage.Former.Play.{
  Output, gen_charts, take_answer, take_parts, show_shapes, play_on, set_averages, first_axes,
  shape_at,
}

module _ {F : Type 0} where
  -- The arrays, the place in the run and what a reset would stop are left as they are.
  pub record IsSameRun (s t : FormerPage F) : Type 0 where
    pub arr : t.segment_arr ≡ s.segment_arr
    pub back : t.segment_backward_chain ≡ s.segment_backward_chain
    pub forward : t.segment_forward_chain ≡ s.segment_forward_chain
    pub iteration : t.iteration ≡ s.iteration
    pub max_iteration : t.max_iteration ≡ s.max_iteration

  -- What an answer with parts leaves of the page.
  pub record IsTaken (p : Part (Shape F)) (ps : List (Part (Shape F))) (s t : FormerPage F)
      : Type 0 where
    pub arr : t.segment_arr ≡ splice_parts 0 (p ∷ ps) s.segment_arr
    pub back :
        t.segment_backward_chain
        ≡ update s.segment_backward_chain s.iteration
            (record { n = p.n; s = shape_at s.segment_arr p.n })
    pub forward : t.segment_forward_chain ≡ update s.segment_forward_chain s.iteration (p ∷ ps)
    pub iteration : t.iteration ≡ s.iteration
    pub max_iteration : t.max_iteration ≡ s.max_iteration

  render-known :
      (s : FormerPage F) (lo hi : F) (cells : List Cell)
      → all_defined s.segment_arr ≡ true
      → s.avg_min s.iteration ≡ some lo
      → s.avg_max s.iteration ≡ some hi
      → s.valid_cells ≡ some cells
      → render graph s.iteration s.segment_arr s
        ≡ next (draw_shapes graph s.iteration s.segment_arr s)
  unfolding render legend
  render-known s lo hi cells d l h c =
      if_of_true (all_defined s.segment_arr) _ _ d
      ∙ elim (Bool-cases (leb_ℤ s.iteration_low s.iteration)) [
        | inl e ↦ if_of_true (leb_ℤ s.iteration_low s.iteration) _ _ e ∙ rw (l, h, c)
        | inr e ↦ if_of_false (leb_ℤ s.iteration_low s.iteration) _ _ e
      ]

  show_shapes-IsSameRun :
      (s : FormerPage F) (lo hi : F) (cells : List Cell)
      → all_defined s.segment_arr ≡ true
      → s.avg_min s.iteration ≡ some lo
      → s.avg_max s.iteration ≡ some hi
      → s.valid_cells ≡ some cells
      → (t : FormerPage F) × (show_shapes s ≡ next t) × IsSameRun s t
  unfolding show_shapes draw_shapes
  show_shapes-IsSameRun s lo hi cells d l h c = elim (Bool-cases (s.play_noviz || s.simplay_flag)) [
    | inl e ↦ (
      s,
      if_of_true (s.play_noviz || s.simplay_flag) _ _ e,
      record { arr = refl; back = refl; forward = refl; iteration = refl; max_iteration = refl },
    )
    | inr e ↦ (
      _,
      if_of_false (s.play_noviz || s.simplay_flag) _ _ e
          ∙ ap (λ f. f >>= λ t. next (record t { seekbar_value = t.iteration }))
              (render-known s lo hi cells d l h c),
      record { arr = refl; back = refl; forward = refl; iteration = refl; max_iteration = refl },
    )
  ]

  play_on-IsSameRun : (s : FormerPage F) → IsSameRun s (play_on s)
  unfolding play_on
  play_on-IsSameRun s = record {
    arr = ground arith;
    back = ground arith;
    forward = ground arith;
    iteration = ground arith;
    max_iteration = ground arith;
  }

  module _ (dimension1 dimension2 : String) (o : Output F) (s : FormerPage F) where
    -- The page after the first blocks of `genCharts`.
    abbrev ranged : FormerPage F
    ranged = set_averages o (first_axes dimension1 dimension2 o s)

    -- An answer with parts that leaves no shape undefined is taken in with no exception, and both
    -- chains record it.
    pub gen_charts-IsTaken :
        (p : Part (Shape F)) (ps : List (Part (Shape F))) (cells : List Cell)
        → s.reset_flag ≡ false
        → o.sl ≡ p ∷ ps
        → (first_axes dimension1 dimension2 o s).valid_cells ≡ some cells
        → all_defined (splice_parts 0 (p ∷ ps) s.segment_arr) ≡ true
        → (t : FormerPage F) × (gen_charts dimension1 dimension2 o s ≡ next t) × IsTaken p ps s t
    unfolding gen_charts take_answer take_parts set_averages first_axes
    gen_charts-IsTaken p ps cells r e c d =
        let (t, run, k) =
          show_shapes-IsSameRun (take_parts p ps ranged) ranged.curr_avg_min ranged.curr_avg_max
            cells d (update_self s.avg_min s.iteration ranged.curr_avg_min)
            (update_self s.avg_max s.iteration ranged.curr_avg_max) c in
        let l = play_on-IsSameRun t in
        (
          play_on t,
          if_of_false s.reset_flag _ _ r
              ∙ ap (λ sl. take_answer sl ranged) e
              ∙ ap (λ f. f >>= λ u. next (play_on u)) run,
          record {
            arr = l.arr ∙ k.arr;
            back = l.back ∙ k.back;
            forward = l.forward ∙ k.forward;
            iteration = l.iteration ∙ k.iteration;
            max_iteration = l.max_iteration ∙ k.max_iteration;
          },
        )
