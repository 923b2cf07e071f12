-- ===== src/Heat/Examples.antt =====
-- A heatmap of two by two cells, and the theorems about heatmaps at it.
pub mod Handlers
use inc_visage.Common.{
  ℕ, ℤ, pos, inc, dec, ◌+ℤ◌, ◌-ℤ◌, ◌*ℤ◌, ◌≤ℤ◌, ◌<ℤ◌, true, false, if◌then◌else◌, Option, none, some,
  List, [], ◌∷◌, ◌++◌, get_elem?, ◌≡◌, refl, arith,
}
use inc_visage.Js.{next}
use inc_visage.Axis.{label}
use inc_visage.Refine.{Part, shapes}
use inc_visage.Trend.State.{Icon}
use inc_visage.Heat.{Page, Quad, Cell}
use inc_visage.Heat.Play.{Output, Ranges, gen_charts, first_axes, play_next, reset, cell_count}
use inc_visage.Heat.Load.{
  process_axes_data, reset_on_load, x_tick_list-process_axes_data, started, requested-reset,
}
use inc_visage.Heat.Regions.{covers, count, value_at}
use inc_visage.Heat.Rectangles.{inside, rectangle, inside-rectangle, IsInChart, rectangle-IsInChart}
use inc_visage.Heat.Split.{gen_charts-partition}
use inc_visage.Heat.Run.{IsLive, requested}
use inc_visage.Heat.Run.End.{answer_all, IsRun, answer_all-IsRun}

abbrev pub quad : ℕ → ℕ → ℕ → ℕ → ℕ → Quad ℕ
quad xb xe yb ye a = record { xb = pos xb; xe = pos xe; yb = pos yb; ye = pos ye; a = a }

-- The page waits for its first answer.
abbrev pub page : Page ℕ
page = record {
  iteration = pos 1;
  iteration_low = pos 1;
  max_iteration = pos 4;
  x_min = pos 1;
  x_max = pos 2;
  y_min = pos 1;
  y_max = pos 2;
  avg_max = λ _. none;
  avg_min = λ _. none;
  curr_avg_max = 0;
  curr_avg_min = 0;
  valid_cells = none;
  x_tick_list = [];
  y_tick_list = [];
  segment_arr = [];
  segment_chain = λ _. none;
  pause_iter = pos 0;
  play_iter = pos 0;
  forward_iter = pos 0;
  backward_iter = pos 0;
  seekbar_iter = pos 0;
  seekbar_max = pos 0;
  max_pause = pos 0;
  forward_flag = false;
  back_flag = false;
  play_flag = true;
  pause_flag = false;
  simplay_flag = false;
  reset_flag = false;
  play_noviz = false;
  icon = Icon.pause;
  play_lit = true;
  forward_lit = false;
  back_lit = false;
  seekbar_value = pos 0;
  seekbar_min_attr = pos 1;
  seekbar_max_attr = pos 4;
  current_iter = none;
  snapshot_no = none;
  log = [];
}

abbrev pub ranges : Ranges
ranges = record { x_min = pos 1; x_max = pos 2; y_min = pos 1; y_max = pos 2 }

abbrev pub output : Option (List Cell) → List (Part (Quad ℕ)) → Output ℕ
output cells ps = record { valid_cells = cells; sl = ps; y = ranges; max = 9; min = 1 }

abbrev pub whole : Part (Quad ℕ)
whole = record { n = 0; shape = quad 1 2 1 2 5 }

abbrev pub left : Part (Quad ℕ)
left = record { n = 0; shape = quad 1 1 1 2 8 }

abbrev pub right : Part (Quad ℕ)
right = record { n = 1; shape = quad 2 2 1 2 3 }

abbrev live : IsLive page
live = record {
  no_reset = refl;
  playing = refl;
  no_pause = refl;
  no_replay = refl;
  no_forward = refl;
  draws = refl;
}

answer_all-IsRun_example :
    (t : Page ℕ) × (answer_all "Month" "Month"
        (output (some []) (whole ∷ []) ∷ (output none (left ∷ right ∷ []) ∷ [])
          ++ output none [] ∷ [])
        page
      ≡ next t)
    × IsRun page.iteration 2 page t
unfolding ◌+ℤ◌
answer_all-IsRun_example =
    answer_all-IsRun "Month" "Month" 1 (output (some []) (whole ∷ []))
      (output none (left ∷ right ∷ []) ∷ []) (output none []) [] page live refl
      (record { first = whole; rest = []; parts = refl }) refl
      (record { first = left; rest = right ∷ []; parts = refl }, tt) refl refl (omega arith)

-- The page after its first answer.
abbrev second : Page ℕ
second = record page { iteration = pos 2; valid_cells = some []; segment_arr = quad 1 2 1 2 5 ∷ [] }

halves :
    (x y : ℤ)
    → count (shapes (left ∷ right ∷ [])) x y ≡ (if covers (quad 1 2 1 2 5) x y then 1 else 0)
halves x y = ground arith

gen_charts-partition_example :
    (t : Page ℕ) × (gen_charts "Month" "Month" (output none (left ∷ right ∷ [])) second ≡ next t)
    × (t.segment_chain second.iteration ≡ some t.segment_arr)
    × ((x y : ℤ) → count t.segment_arr x y ≡ count second.segment_arr x y)
    × ((x y : ℤ)
        → count second.segment_arr x y ≡ 1
        → value_at t.segment_arr x y ≡ (
            if covers (quad 1 2 1 2 5) x y
            then value_at (shapes (left ∷ right ∷ [])) x y
            else value_at second.segment_arr x y))
unfolding first_axes
gen_charts-partition_example =
    gen_charts-partition "Month" "Month" (output none (left ∷ right ∷ [])) left (right ∷ [])
      (quad 1 2 1 2 5) [] second refl refl refl refl (refl, (refl, tt)) halves

inside-rectangle_example :
    inside (rectangle page (quad 1 1 1 2 8)) (pos 1 -ℤ pos 1) (pos 2 -ℤ pos 2)
    ≡ covers (quad 1 1 1 2 8) (pos 1) (pos 2)
inside-rectangle_example = inside-rectangle page (quad 1 1 1 2 8) (pos 1) (pos 2)

rectangle-IsInChart_example :
    IsInChart (inc (pos 2 -ℤ pos 1)) (inc (pos 2 -ℤ pos 1)) (rectangle page (quad 1 1 1 2 8))
rectangle-IsInChart_example = rectangle-IsInChart page (quad 1 1 1 2 8) (record {
  left = omega arith;
  across = omega arith;
  right = omega arith;
  low = omega arith;
  upward = omega arith;
  high = omega arith;
})

x_tick_list-process_axes_data_example :
    (let t = process_axes_data "Month" "Day Of Week" ranges page in
      ((j : ℕ)
        → (ranges.x_min +ℤ pos j ≤ℤ ranges.x_max
            → get_elem? t.x_tick_list j
              ≡ some (label "Month" (dec (ranges.x_min +ℤ pos j)) (ranges.x_min +ℤ pos j)))
          × (ranges.x_max <ℤ ranges.x_min +ℤ pos j → get_elem? t.x_tick_list j ≡ none))
      × ((j : ℕ)
          → (ranges.y_min +ℤ pos j ≤ℤ ranges.y_max
              → get_elem? t.y_tick_list j
                ≡ some (label "Day Of Week" (dec (ranges.y_min +ℤ pos j)) (ranges.y_min +ℤ pos j)))
            × (ranges.y_max <ℤ ranges.y_min +ℤ pos j → get_elem? t.y_tick_list j ≡ none))
      × (inc t.iteration ≡ pos 1)
      × (t.iteration_low ≡ pos 1)
      × (t.max_iteration ≡ cell_count ranges.x_min ranges.x_max ranges.y_min ranges.y_max)
      × (t.x_min ≡ ranges.x_min)
      × (t.x_max ≡ ranges.x_max)
      × (t.y_min ≡ ranges.y_min)
      × (t.y_max ≡ ranges.y_max)
      × (t.icon ≡ Icon.play)
      × (t.play_lit ≡ true)
      × (t.simplay_flag ≡ false)
      × (t.reset_flag ≡ false)
      × (requested t.log ≡ requested page.log))
x_tick_list-process_axes_data_example =
    x_tick_list-process_axes_data "Month" "Day Of Week" ranges page
