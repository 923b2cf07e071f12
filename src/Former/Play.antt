-- ===== src/Former/Play.antt =====
-- The run of the former heatmap against the server: `play`, `genCharts` and `reset`
-- (new-web-test/js/old_/heatmap/player.js). A call set by `setTimeout` waits in `timers`.
use Prim.Native.String.{String}
use inc_visage.Common.{
  ℕ, zero, suc, pos, Bool, true, false, not, ◌&&◌, ◌||◌, Option, none, List, [], ◌∷◌, inc, dec,
  leb_ℤ, ltb_ℤ, eqb_ℤ, if◌then◌else◌,
}
use inc_visage.Js.{Flow, next, ◌>>=◌, update}
use inc_visage.Refine.{Part, splice_parts}
use inc_visage.Axis.{label, tick_list}
use inc_visage.Trend.State.{graph, Icon}
use inc_visage.Heat.{Cell, request, reset_data}
use inc_visage.Heat.Play.{Ranges, cell_count}
use inc_visage.Former.{FormerPage, Shape, Timer, draw_shapes, render}

-- An answer; the range of the axes and the cells are read at the first iteration only.
pub record Output (F : Type 0) : Type 0 where
  pub valid_cells : Option (List Cell)
  pub sl : List (Part (Shape F))
  pub range : Ranges
  pub max : F
  pub min : F

module _ {F : Type 0} where
  -- `reset`, whose line `orwardIter = iterationLow-1` leaves `forwardIter` alone.
  unfoldable pub reset : FormerPage F → FormerPage F
  reset s =
      let count = cell_count s.x_min s.x_max s.y_min s.y_max in
      let t = draw_shapes graph (pos 0) [] (record s {
        log = reset_data ∷ s.log;
        reset_flag = true;
        iteration_low = pos 1;
        seekbar_max = pos 0;
        seekbar_iter = pos 0;
        max_iteration = count;
        pause_iter = pos 0;
        play_iter = pos 0;
        forward_flag = false;
        backward_iter = pos 0;
        play_noviz = false;
        pause_flag = false;
        play_flag = false;
        simplay_flag = false;
        back_flag = false;
        icon = Icon.play;
        play_lit = true;
        forward_lit = true;
        back_lit = false;
        iteration = pos 0;
        seekbar_value = pos 0;
        segment_arr = [];
      }) in
      record t { snapshot_no = none }

  -- The buttons at the end of a run.
  unfoldable pub end_buttons : Bool → FormerPage F → FormerPage F
  end_buttons test s = record s {
    play_lit = if test then false else s.play_lit;
    forward_lit = if test then false else s.forward_lit;
    back_lit = if test then true else s.back_lit;
  }

  -- The last branch of `play`.
  unfoldable pub stop : FormerPage F → FormerPage F
  stop s =
      if s.simplay_flag
      then s
      else let t = record s {
        back_flag = true;
        backward_iter = if s.pause_flag then s.backward_iter else s.max_iteration;
        play_iter = if s.pause_flag then s.play_iter else s.max_iteration;
        pause_iter = if s.pause_flag then s.pause_iter else s.max_iteration;
      } in
        record (end_buttons t.play_flag t) { play_flag = false }

  -- `play`, which goes on while the page is paused; `startTime` is left out, which the competition
  -- alone reads.
  unfoldable pub play_next : FormerPage F → FormerPage F
  play_next s =
      if s.reset_flag
      then reset s
      else let t = record s { iteration = inc s.iteration } in
        if leb_ℤ t.iteration t.max_iteration
        then record t { log = request t.iteration ∷ t.log }
        else stop t

  -- The last branch of `genCharts`: an answer without parts ends the run at the iteration before.
  unfoldable pub end_run : FormerPage F → FormerPage F
  end_run s =
      let i = dec s.iteration in
      let t = record s {
        iteration = i;
        max_iteration = i;
        seekbar_min_attr = s.iteration_low;
        seekbar_max_attr = i;
        back_flag = true;
        backward_iter = if s.pause_flag then s.backward_iter else i;
      } in
      record (end_buttons (t.play_flag && not t.simplay_flag) t) { play_flag = false }

  -- The first block of `genCharts`.
  unfoldable pub first_axes : String → String → Output F → FormerPage F → FormerPage F
  first_axes dimension1 dimension2 o s =
      let first = eqb_ℤ s.iteration (pos 1) in
      let xs = tick_list (λ i. label dimension1 (dec i) i) o.range.x_min o.range.x_max in
      let ys = tick_list (λ i. label dimension2 (dec i) i) o.range.y_min o.range.y_max in
      record s {
        valid_cells = if first then o.valid_cells else s.valid_cells;
        x_max = if first then o.range.x_max else s.x_max;
        x_min = if first then o.range.x_min else s.x_min;
        y_max = if first then o.range.y_max else s.y_max;
        y_min = if first then o.range.y_min else s.y_min;
        x_tick_list = if first then xs else s.x_tick_list;
        y_tick_list = if first then ys else s.y_tick_list;
      }

  -- The averages of the legend move up to iteration 5, and at 10, 15, 25 and 50.
  unfoldable pub set_averages : Output F → FormerPage F → FormerPage F
  set_averages o s =
      let i = s.iteration in
      let moves =
        ltb_ℤ i (pos 6)
        || (eqb_ℤ i (pos 10) || (eqb_ℤ i (pos 15) || (eqb_ℤ i (pos 25) || eqb_ℤ i (pos 50)))) in
      let hi = if moves then o.max else s.curr_avg_max in
      let lo = if moves then o.min else s.curr_avg_min in
      record s {
        curr_avg_max = hi;
        curr_avg_min = lo;
        avg_max = update s.avg_max i hi;
        avg_min = update s.avg_min i lo;
      }

  -- `segmentArr[n]`
  unfoldable pub shape_at : List (Shape F) → ℕ → Shape F
  shape_at [] n = none
  shape_at (x ∷ arr) zero = x
  shape_at (x ∷ arr) (suc n) = shape_at arr n

  -- The parts are spliced into the array; both chains record how, at the iteration.
  unfoldable pub take_parts : Part (Shape F) → List (Part (Shape F)) → FormerPage F → FormerPage F
  take_parts p ps s = record s {
    segment_arr = splice_parts 0 (p ∷ ps) s.segment_arr;
    segment_backward_chain =
        update s.segment_backward_chain s.iteration
          (record { n = p.n; s = shape_at s.segment_arr p.n });
    segment_forward_chain = update s.segment_forward_chain s.iteration (p ∷ ps);
  }

  unfoldable pub show_shapes : FormerPage F → Flow (FormerPage F)
  show_shapes s = if s.play_noviz || s.simplay_flag then next s else (do
    t ← render graph s.iteration s.segment_arr s
    next (record t { seekbar_value = t.iteration }))

  -- Both branches of the test on `forwardFlag` play on, after a while.
  unfoldable pub play_on : FormerPage F → FormerPage F
  play_on s =
      if leb_ℤ s.iteration s.max_iteration
      then record s { play_noviz = s.forward_flag || s.play_noviz; timers = Timer.play ∷ s.timers }
      else s

  unfoldable pub take_answer : List (Part (Shape F)) → FormerPage F → Flow (FormerPage F)
  take_answer [] s = next (end_run s)
  take_answer (p ∷ ps) s = do t ← show_shapes (take_parts p ps s); next (play_on t)

  -- `genCharts`, with the names of the dimensions that the page shows.
  unfoldable pub gen_charts : String → String → Output F → FormerPage F → Flow (FormerPage F)
  gen_charts dimension1 dimension2 o s =
      if s.reset_flag
      then next (reset s)
      else take_answer o.sl (set_averages o (first_axes dimension1 dimension2 o s))
