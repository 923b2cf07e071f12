-- ===== src/Heat/Split.antt =====
-- How `genCharts` of a heatmap takes in an answer that splits one quad.
use Prim.Native.String.{String}
use inc_visage.Common.{
  ℤ, leb_ℤ, true, false, ◌||◌, Bool-cases, inl, inr, if◌then◌else◌, if_of_true, if_of_false, some,
  List, ◌∷◌, ◌++◌, get_elem?, ◌≡◌, refl, ap, ◌∙◌, sym, subst, arith,
}
use inc_visage.Js.{next, ◌>>=◌, update, update_self}
use inc_visage.Refine.{Part, splice_parts, shapes}
use inc_visage.Refine.Laws.{IsNumbered, splice_parts-append, split_at}
use inc_visage.Trend.State.{graph}
use inc_visage.Heat.{Page, Quad, Cell, render, legend, draw_quads, announce}
use inc_visage.Heat.Play.{
  Output, gen_charts, take_answer, take_parts, show_quads, play_on, play_next, stop, end_buttons,
  set_averages, first_axes,
}
use inc_visage.Heat.Regions.{covers, count, value_at, count-replace, value_at-replace}

module _ {F : Type 0} where
  -- What the legend of the iteration needs is there.
  pub record HasLegend (s : Page F) : Type 0 where
    pub lo : F
    pub hi : F
    pub cells : List Cell
    pub has_lo : s.avg_min s.iteration ≡ some lo
    pub has_hi : s.avg_max s.iteration ≡ some hi
    pub has_cells : s.valid_cells ≡ some cells

  module _ (s : Page F) (l : HasLegend s) where
    -- The page with its quads drawn.
    abbrev pub shown : Page F
    shown = record (draw_quads graph s.iteration s.segment_arr s) { seekbar_value = s.iteration }

    legend-known :
        (t : Page F)
        → legend (s.avg_min s.iteration) (s.avg_max s.iteration) s.valid_cells t ≡ next t
    unfolding legend
    legend-known t = rw (l.has_lo, l.has_hi, l.has_cells)

    render-known :
        render graph s.iteration (some s.segment_arr) s
        ≡ next (draw_quads graph s.iteration s.segment_arr s)
    unfolding render
    render-known = elim (Bool-cases (leb_ℤ s.iteration_low s.iteration)) [
      | inl e ↦
          if_of_true (leb_ℤ s.iteration_low s.iteration) _ _ e
          ∙ legend-known (draw_quads graph s.iteration s.segment_arr s)
      | inr e ↦ if_of_false (leb_ℤ s.iteration_low s.iteration) _ _ e
    ]

    pub show_quads-shown :
        (s.play_noviz || (s.simplay_flag || s.reset_flag)) ≡ false → show_quads s ≡ next shown
    unfolding show_quads draw_quads announce
    show_quads-shown h =
        if_of_false (s.play_noviz || (s.simplay_flag || s.reset_flag)) _ _ h
        ∙ ap (λ f. f >>= λ t. next (record t { seekbar_value = t.iteration })) render-known

  -- The array and its record are left as they are, and the page is not being reset.
  pub record IsSameArray (s t : Page F) : Type 0 where
    pub arr : t.segment_arr ≡ s.segment_arr
    pub chain : t.segment_chain ≡ s.segment_chain
    pub no_reset : t.reset_flag ≡ s.reset_flag

  show_quads-IsSameArray :
      (s : Page F) → HasLegend s → (t : Page F) × (show_quads s ≡ next t) × IsSameArray s t
  unfolding show_quads draw_quads announce
  show_quads-IsSameArray s l =
      elim (Bool-cases (s.play_noviz || (s.simplay_flag || s.reset_flag))) [
        | inl e ↦ (
          s,
          if_of_true (s.play_noviz || (s.simplay_flag || s.reset_flag)) _ _ e,
          record { arr = refl; chain = refl; no_reset = refl },
        )
        | inr e ↦ (
          shown s l,
          show_quads-shown s l e,
          record { arr = refl; chain = refl; no_reset = refl },
        )
      ]

  play_next-arr :
      (s : Page F)
      → s.reset_flag ≡ false
      → ((play_next s).segment_arr ≡ s.segment_arr)
        × ((play_next s).segment_chain ≡ s.segment_chain)
  unfolding play_next stop end_buttons
  play_next-arr s h = ground arith

  play_on-arr :
      (s : Page F)
      → s.reset_flag ≡ false
      → ((play_on s).segment_arr ≡ s.segment_arr) × ((play_on s).segment_chain ≡ s.segment_chain)
  unfolding play_on
  play_on-arr s h = elim (Bool-cases s.forward_flag) [
    | inl e ↦ ground (arith, play_next-arr (record s { play_noviz = true }) h, e)
    | inr e ↦ ground (arith, play_next-arr s h, e)
  ]

  module _ (dimension1 dimension2 : String) (o : Output F) (s : Page F) where
    -- The page after the first blocks of `genCharts`.
    abbrev pub ranged : Page F
    ranged = set_averages o (first_axes dimension1 dimension2 o s)

    pub ranged-same :
        (ranged.iteration ≡ s.iteration)
        × (ranged.segment_arr ≡ s.segment_arr)
        × (ranged.reset_flag ≡ s.reset_flag)
        × (ranged.valid_cells ≡ (first_axes dimension1 dimension2 o s).valid_cells)
        × (ranged.segment_chain ≡ s.segment_chain)
    unfolding set_averages first_axes
    ranged-same = ground arith

    pub ranged-HasLegend :
        (ps : List (Part (Quad F))) (cells : List Cell)
        → (first_axes dimension1 dimension2 o s).valid_cells ≡ some cells
        → HasLegend (take_parts ps ranged)
    unfolding take_parts set_averages
    ranged-HasLegend ps cells h =
        let t = first_axes dimension1 dimension2 o s in
        record {
          lo = ranged.curr_avg_min;
          hi = ranged.curr_avg_max;
          cells = cells;
          has_lo = update_self t.avg_min t.iteration ranged.curr_avg_min;
          has_hi = update_self t.avg_max t.iteration ranged.curr_avg_max;
          has_cells = h;
        }

    pub gen_charts-parts :
        (p : Part (Quad F)) (ps : List (Part (Quad F)))
        → s.reset_flag ≡ false
        → o.sl ≡ p ∷ ps
        → gen_charts dimension1 dimension2 o s
          ≡ (show_quads (take_parts (p ∷ ps) ranged) >>= λ t. next (play_on t))
    unfolding gen_charts take_answer
    gen_charts-parts p ps r e = if_of_false s.reset_flag _ _ r ∙ ap (λ sl. take_answer sl ranged) e

    -- The array after an answer with parts, which is recorded too.
    pub gen_charts-arr :
        (p : Part (Quad F)) (ps : List (Part (Quad F))) (cells : List Cell)
        → s.reset_flag ≡ false
        → o.sl ≡ p ∷ ps
        → (first_axes dimension1 dimension2 o s).valid_cells ≡ some cells
        → (t : Page F) × (gen_charts dimension1 dimension2 o s ≡ next t)
          × (t.segment_arr ≡ splice_parts 0 (p ∷ ps) s.segment_arr)
          × (t.segment_chain ≡ update s.segment_chain s.iteration t.segment_arr)
    unfolding take_parts
    gen_charts-arr p ps cells r e h =
        let (same_iteration, same_arr, same_reset, _, same_chain) = ranged-same in
        let w = take_parts (p ∷ ps) ranged in
        let (t, run, k) = show_quads-IsSameArray w (ranged-HasLegend (p ∷ ps) cells h) in
        let (arr, chain) = play_on-arr t (k.no_reset ∙ same_reset ∙ r) in
        (
          play_on t,
          gen_charts-parts p ps r e ∙ ap (λ f. f >>= λ u. next (play_on u)) run,
          arr ∙ k.arr ∙ ap (splice_parts 0 (p ∷ ps)) same_arr,
          chain ∙ k.chain ∙ rw (same_iteration, same_chain, arr, k.arr) refl,
        )

  -- An answer whose parts are numbered from the place of one quad, and cover the cells of this quad
  -- once each and no others, is taken in with no exception where the cells of the page are known.
  -- Each cell lies in as many quads as before; where it is one, the cell has the value of the
  -- parts in the quad that was split and keeps its value elsewhere; and the array is recorded.
  pub gen_charts-partition :
      (dimension1 dimension2 : String) (o : Output F) (p : Part (Quad F))
      (ps : List (Part (Quad F))) (q : Quad F) (cells : List Cell) (s : Page F)
      → s.reset_flag ≡ false
      → o.sl ≡ p ∷ ps
      → (first_axes dimension1 dimension2 o s).valid_cells ≡ some cells
      → get_elem? s.segment_arr p.n ≡ some q
      → IsNumbered p.n (p ∷ ps)
      → ((x y : ℤ) → count (shapes (p ∷ ps)) x y ≡ (if covers q x y then 1 else 0))
      → (t : Page F) × (gen_charts dimension1 dimension2 o s ≡ next t)
        × (t.segment_chain s.iteration ≡ some t.segment_arr)
        × ((x y : ℤ) → count t.segment_arr x y ≡ count s.segment_arr x y)
        × ((x y : ℤ)
            → count s.segment_arr x y ≡ 1
            → value_at t.segment_arr x y ≡ (
                if covers q x y
                then value_at (shapes (p ∷ ps)) x y
                else value_at s.segment_arr x y))
  gen_charts-partition dimension1 dimension2 o p ps q cells s r e h at numbered covered =
      let (t, run, arr, kept) = gen_charts-arr dimension1 dimension2 o s p ps cells r e h in
      let (xs, ys, old, len) = split_at p.n s.segment_arr at in
      let new : t.segment_arr ≡ xs ++ (shapes (p ∷ ps) ++ ys) =
        arr
        ∙ ap (splice_parts 0 (p ∷ ps)) old
        ∙ splice_parts-append p ps xs ys q
            (subst (λ n. IsNumbered n (p ∷ ps)) (sym len) numbered) in
      (
        t,
        run,
        ap (λ c. c s.iteration) kept ∙ update_self s.segment_chain s.iteration t.segment_arr,
        λ x y.
            ap (λ qs. count qs x y) new
            ∙ count-replace xs (shapes (p ∷ ps)) ys q x y (covered x y)
            ∙ ap (λ qs. count qs x y) (sym old),
        λ x y one.
            ap (λ qs. value_at qs x y) new
            ∙ value_at-replace xs (shapes (p ∷ ps)) ys q x y (covered x y)
                (ap (λ qs. count qs x y) (sym old) ∙ one)
            ∙ ap (λ qs. if covers q x y then value_at (shapes (p ∷ ps)) x y else value_at qs x y)
                (sym old),
      )
