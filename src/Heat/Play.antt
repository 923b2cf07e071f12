-- ===== src/Heat/Play.antt =====
-- The run of a heatmap against the server (new-web-test/js/heatmap/player.js): `play`, `genCharts` and `reset`.
use Prim.Native.String.{String}
use inc_visage.Common.{
  ℤ, pos, Bool, true, false, not, ◌&&◌, ◌||◌, Option, none, some, List, [], ◌∷◌, inc, dec, ◌-ℤ◌,
  ◌*ℤ◌, leb_ℤ, ltb_ℤ, eqb_ℤ, if◌then◌else◌,
}
use inc_visage.Js.{Flow, next, ◌>>=◌, update}
use inc_visage.Refine.{Part, splice_parts}
use inc_visage.Axis.{label, tick_list}
use inc_visage.Trend.State.{graph, Icon}
use inc_visage.Heat.{Page, Quad, Cell, request, reset_data, render, draw_quads}

-- The range of the axes, `output.y`.
pub record Ranges : Type 0 where
  pub x_min : ℤ
  pub x_max : ℤ
  pub y_min : ℤ
  pub y_max : ℤ

-- An answer; `validCells` comes with the first iteration only.
pub record Output (F : Type 0) : Type 0 where
  pub valid_cells : Option (List Cell)
  pub sl : List (Part (Quad F))
  pub y : Ranges
  pub max : F
  pub min : F

-- The number of cells, which bounds the number of iterations.
unfoldable pub cell_count : ℤ → ℤ → ℤ → ℤ → ℤ
cell_count x_min x_max y_min y_max = inc (x_max -ℤ x_min) *ℤ inc (y_max -ℤ y_min)

module _ {F : Type 0} where
  -- What `reset` and `resetOnLoad` have in common, for the `iterationLow` that each of them sets.
  unfoldable pub start_over : ℤ → Page F → Page F
  start_over first s =
      let low = dec first in
      let count = cell_count s.x_min s.x_max s.y_min s.y_max in
      draw_quads graph low [] (record s {
        log = reset_data ∷ s.log;
        iteration_low = first;
        seekbar_max = low;
        seekbar_iter = low;
        max_iteration = count;
        pause_iter = low;
        play_iter = low;
        forward_flag = false;
        backward_iter = low;
        play_noviz = false;
        pause_flag = false;
        play_flag = false;
        simplay_flag = false;
        back_flag = false;
        icon = Icon.play;
        play_lit = true;
        forward_lit = false;
        back_lit = false;
        iteration = low;
        seekbar_value = low;
        segment_arr = [];
      })

  -- `reset`, whose line `orwardIter = iterationLow-1` leaves `forwardIter` alone.
  unfoldable pub reset : Page F → Page F
  reset s = record (start_over (pos 0) s) { snapshot_no = none }

  -- The buttons at the end of a run.
  unfoldable pub end_buttons : Bool → Page F → Page F
  end_buttons test s = record s {
    play_lit = if test then false else s.play_lit;
    forward_lit = if test then false else s.forward_lit;
    back_lit = if test then true else s.back_lit;
  }

  -- The `else` branch of `play`.
  unfoldable pub stop : Page F → Page F
  stop s =
      if s.simplay_flag
      then s
      else let t = record s {
        back_flag = true;
        backward_iter = if s.pause_flag then s.backward_iter else s.max_iteration;
        play_iter = if s.pause_flag then s.play_iter else s.max_iteration;
        pause_iter = if s.pause_flag then s.pause_iter else s.max_iteration;
      } in
        record (end_buttons t.play_flag t) { play_flag = false }

  -- `play`; `startTime` is left out, which the questionnaire alone reads.
  unfoldable pub play_next : Page F → Page F
  play_next s =
      if s.reset_flag
      then reset s
      else let t = record s { iteration = inc s.iteration } in
        if leb_ℤ t.iteration t.max_iteration && t.play_flag
        then record t { log = request t.iteration ∷ t.log }
        else stop t

  -- The last branch of `genCharts`: an answer without parts ends the run at the iteration before.
  unfoldable pub end_run : Page F → Page F
  end_run s =
      let i = dec s.iteration in
      let t = record s {
        iteration = i;
        max_iteration = i;
        seekbar_min_attr = s.iteration_low;
        seekbar_max_attr = i;
        back_flag = true;
        backward_iter = if s.pause_flag then s.backward_iter else i;
      } in
      record (end_buttons (t.play_flag && not t.simplay_flag) t) { play_flag = false }

  -- The first block of `genCharts`: at the first iteration the cells, the range and the labels come.
  unfoldable pub first_axes : String → String → Output F → Page F → Page F
  first_axes dimension1 dimension2 o s =
      let first = eqb_ℤ s.iteration (pos 1) in
      let xs = tick_list (λ i. label dimension1 (dec i) i) o.y.x_min o.y.x_max in
      let ys = tick_list (λ i. label dimension2 (dec i) i) o.y.y_min o.y.y_max in
      record s {
        valid_cells = if first then o.valid_cells else s.valid_cells;
        x_max = if first then o.y.x_max else s.x_max;
        x_min = if first then o.y.x_min else s.x_min;
        y_max = if first then o.y.y_max else s.y_max;
        y_min = if first then o.y.y_min else s.y_min;
        x_tick_list = if first then xs else s.x_tick_list;
        y_tick_list = if first then ys else s.y_tick_list;
      }

  -- The averages of the legend move up to iteration 19, and at 30, 50 and 100.
  unfoldable pub set_averages : Output F → Page F → Page F
  set_averages o s =
      let i = s.iteration in
      let moves =
        ltb_ℤ i (pos 20) || (eqb_ℤ i (pos 30) || (eqb_ℤ i (pos 50) || eqb_ℤ i (pos 100))) in
      let hi = if moves then o.max else s.curr_avg_max in
      let lo = if moves then o.min else s.curr_avg_min in
      record s {
        curr_avg_max = hi;
        curr_avg_min = lo;
        avg_max = update s.avg_max i hi;
        avg_min = update s.avg_min i lo;
      }

  -- The parts are spliced into the array, which is then recorded.
  unfoldable pub take_parts : List (Part (Quad F)) → Page F → Page F
  take_parts ps s =
      let arr = splice_parts 0 ps s.segment_arr in
      record s { segment_arr = arr; segment_chain = update s.segment_chain s.iteration arr }

  unfoldable pub show_quads : Page F → Flow (Page F)
  show_quads s = if s.play_noviz || (s.simplay_flag || s.reset_flag) then next s else (do
    t ← render graph s.iteration (some s.segment_arr) s
    next (record t { seekbar_value = t.iteration }))

  -- Both branches of the test on `forwardFlag` play on.
  unfoldable pub play_on : Page F → Page F
  play_on s =
      if leb_ℤ s.iteration s.max_iteration && not s.reset_flag
      then play_next (if s.forward_flag then record s { play_noviz = true } else s)
      else s

  unfoldable pub take_answer : List (Part (Quad F)) → Page F → Flow (Page F)
  take_answer [] s = next (end_run s)
  take_answer (p ∷ ps) s = do t ← show_quads (take_parts (p ∷ ps) s); next (play_on t)

  -- `genCharts`, with the names of the dimensions that the page shows.
  unfoldable pub gen_charts : String → String → Output F → Page F → Flow (Page F)
  gen_charts dimension1 dimension2 o s =
      if s.reset_flag
      then next (reset s)
      else take_answer o.sl (set_averages o (first_axes dimension1 dimension2 o s))
