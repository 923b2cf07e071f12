-- ===== src/Heat/Load.antt =====
-- `processAxesData` and `resetOnLoad` of new-web-test/js/heatmap/heatmap.js.
use Prim.Native.String.{String}
use inc_visage.Common.{
  ℕ, pos, true, false, ◌&&◌, inc, dec, inc-dec, ◌+ℤ◌, ◌≤ℤ◌, ◌<ℤ◌, leb_ℤ, get_elem?, none, some, ◌∷◌,
  ◌≡◌, refl, ap, ◌∙◌, if_of_true, arith,
}
use inc_visage.Axis.{label, tick_list, get_elem?-tick_list}
use inc_visage.Trend.State.{Icon}
use inc_visage.Heat.{Page, draw_quads, announce}
use inc_visage.Heat.Run.{requested}
use inc_visage.Heat.Play.{Ranges, cell_count, start_over, reset, play_next, stop}

module _ {F : Type 0} where
  -- Iterations count from 1 here, and the seek bar takes the range.
  unfoldable pub reset_on_load : Page F → Page F
  reset_on_load s = record (start_over (pos 1) s) {
    reset_flag = false;
    seekbar_min_attr = pos 1;
    seekbar_max_attr = cell_count s.x_min s.x_max s.y_min s.y_max;
  }

  -- The labels are read one below `i`.
  unfoldable pub process_axes_data : String → String → Ranges → Page F → Page F
  process_axes_data dimension1 dimension2 r s = reset_on_load (record s {
    x_min = r.x_min;
    x_max = r.x_max;
    y_min = r.y_min;
    y_max = r.y_max;
    x_tick_list = tick_list (λ i. label dimension1 (dec i) i) r.x_min r.x_max;
    y_tick_list = tick_list (λ i. label dimension2 (dec i) i) r.y_min r.y_max;
    max_iteration = cell_count r.x_min r.x_max r.y_min r.y_max;
    iteration_low = pos 0;
    seekbar_min_attr = pos 0;
    seekbar_max_attr = cell_count r.x_min r.x_max r.y_min r.y_max;
    icon = Icon.play;
    play_lit = true;
    forward_lit = false;
    back_lit = false;
  })

module _ {F : Type 0} where
  -- A new query leaves on any page the labels of both axes, each read one below its number and at
  -- its place, and no other label; the ranges of the query; a page that is ready for iteration 1 of
  -- as many as there are cells, with "play" lit, no replay and no reset under way; and no request for
  -- an iteration.
  pub x_tick_list-process_axes_data :
      (dimension1 dimension2 : String) (r : Ranges) (s : Page F)
      → (let t = process_axes_data dimension1 dimension2 r s in
          ((j : ℕ)
            → (r.x_min +ℤ pos j ≤ℤ r.x_max
                → get_elem? t.x_tick_list j
                  ≡ some (label dimension1 (dec (r.x_min +ℤ pos j)) (r.x_min +ℤ pos j)))
              × (r.x_max <ℤ r.x_min +ℤ pos j → get_elem? t.x_tick_list j ≡ none))
          × ((j : ℕ)
              → (r.y_min +ℤ pos j ≤ℤ r.y_max
                  → get_elem? t.y_tick_list j
                    ≡ some (label dimension2 (dec (r.y_min +ℤ pos j)) (r.y_min +ℤ pos j)))
                × (r.y_max <ℤ r.y_min +ℤ pos j → get_elem? t.y_tick_list j ≡ none))
          × (inc t.iteration ≡ pos 1)
          × (t.iteration_low ≡ pos 1)
          × (t.max_iteration ≡ cell_count r.x_min r.x_max r.y_min r.y_max)
          × (t.x_min ≡ r.x_min)
          × (t.x_max ≡ r.x_max)
          × (t.y_min ≡ r.y_min)
          × (t.y_max ≡ r.y_max)
          × (t.icon ≡ Icon.play)
          × (t.play_lit ≡ true)
          × (t.simplay_flag ≡ false)
          × (t.reset_flag ≡ false)
          × (requested t.log ≡ requested s.log))
  unfolding process_axes_data reset_on_load start_over draw_quads announce
  x_tick_list-process_axes_data dimension1 dimension2 r s = (
    get_elem?-tick_list (λ i. label dimension1 (dec i) i) r.x_min r.x_max,
    get_elem?-tick_list (λ i. label dimension2 (dec i) i) r.y_min r.y_max,
    inc-dec (pos 1),
    refl,
    refl,
    refl,
    refl,
    refl,
    refl,
    refl,
    refl,
    refl,
    refl,
    refl,
  )

  -- The flags that a click on "play" sets before its call of `play`.
  abbrev pub started : Page F → Page F
  started s = record s { play_flag = true; reset_flag = false }

  request_of :
      (s : Page F)
      → inc s.iteration ≤ℤ s.max_iteration
      → requested (play_next (started s)).log ≡ inc s.iteration ∷ requested s.log
  unfolding play_next
  request_of s le =
      ap (λ t. requested t.log)
        (if_of_true (leb_ℤ (inc s.iteration) s.max_iteration && true) _ (stop _) (ground arith))

  -- Where there is at least one cell, the first iteration that "play" asks for is 1 after a new
  -- query, but 0 after "repeat".
  pub requested-reset :
      (s : Page F)
      → pos 1 ≤ℤ cell_count s.x_min s.x_max s.y_min s.y_max
      → (requested (play_next (started (reset_on_load s))).log ≡ pos 1 ∷ requested s.log)
        × (requested (play_next (started (reset s))).log ≡ pos 0 ∷ requested s.log)
  unfolding reset_on_load reset start_over draw_quads announce
  requested-reset s le = (
    request_of (reset_on_load s) (rw (inc-dec (pos 1)) le)
        ∙ ap (λ i. i ∷ requested s.log) (inc-dec (pos 1)),
    request_of (reset s) (rw (inc-dec (pos 0)) (ground arith))
        ∙ ap (λ i. i ∷ requested s.log) (inc-dec (pos 0)),
  )
