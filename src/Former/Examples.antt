-- ===== src/Former/Examples.antt =====
-- A former heatmap of two by two cells beside a present one, and the theorems about both at them.
use inc_visage.Common.{
  ℕ, ℤ, pos, inc, dec, dec_parts, leb_ℤ, true, false, none, some, List, [], ◌∷◌, ◌≡◌, refl, arith,
}
use inc_visage.Js.{next}
use inc_visage.Trend.State.{Icon, graph}
use inc_visage.Heat.{Page, Quad, draw}
use inc_visage.Heat.Play.{gen_charts, first_axes}
use inc_visage.Heat.Seek.{seek as present_seek}
use inc_visage.Heat.Examples.{page, quad, output, left, right}
use inc_visage.Heat.Examples.Handlers.{at_rest, is_rest, arr}
use inc_visage.Refine.Lift.{shapes_of}
use inc_visage.Former.{FormerPage, current_iter_of}
use inc_visage.Former.Chains.{undo_one, splice, drop}
use inc_visage.Former.Play.{gen_charts as former_gen_charts, first_axes as former_first_axes}
use inc_visage.Former.Seek.{seek}
use inc_visage.Former.Alike.{IsAlike, former_answer, gen_charts-IsAlike}
use inc_visage.Former.Alike.Drawn.{seek-IsAlike, seek-before_timer}

-- The former page waits for the answer for the second iteration.
abbrev former : FormerPage ℕ
former = record {
  iteration = pos 2;
  iteration_low = pos 1;
  max_iteration = pos 4;
  x_min = pos 1;
  x_max = pos 2;
  y_min = pos 1;
  y_max = pos 2;
  avg_max = λ _. some 9;
  avg_min = λ _. some 1;
  curr_avg_max = 9;
  curr_avg_min = 1;
  valid_cells = some [];
  x_tick_list = [];
  y_tick_list = [];
  segment_arr = shapes_of arr;
  segment_forward_chain = λ _. some (record { n = 0; shape = some (quad 1 2 1 2 5) } ∷ []);
  segment_backward_chain = λ _. some (record { n = 0; s = some (quad 1 2 1 2 5) });
  pause_iter = pos 1;
  play_iter = pos 1;
  forward_iter = pos 1;
  backward_iter = pos 1;
  seekbar_iter = pos 0;
  seekbar_max = pos 2;
  max_pause = pos 0;
  forward_flag = false;
  back_flag = false;
  play_flag = true;
  pause_flag = false;
  simplay_flag = false;
  reset_flag = false;
  play_noviz = false;
  icon = Icon.pause;
  play_lit = true;
  forward_lit = false;
  back_lit = false;
  seekbar_value = pos 1;
  seekbar_min_attr = pos 1;
  seekbar_max_attr = pos 4;
  current_iter = some (pos 1);
  snapshot_no = none;
  timers = [];
  log = [];
}

-- The present page waits for the same answer.
abbrev present : Page ℕ
present = record page {
  iteration = pos 2;
  valid_cells = some [];
  segment_arr = arr;
  segment_chain = λ _. some arr;
}

is_alike : IsAlike (pos 1) (pos 1) former present
unfolding undo_one splice drop
is_alike = record { arr = refl; last = refl; undoable = λ i lt le. refl }

gen_charts-IsAlike_example :
    (s' : FormerPage ℕ) × (t' : Page ℕ) × (former_gen_charts "Month" "Month"
        (former_answer (output none (left ∷ right ∷ [])))
        former
      ≡ next s')
    × (gen_charts "Month" "Month" (output none (left ∷ right ∷ [])) present ≡ next t')
    × IsAlike (pos 1) (inc (pos 1)) s' t'
    × (s'.iteration ≡ inc (pos 1))
    × (s'.max_iteration ≡ former.max_iteration)
unfolding inc first_axes former_first_axes
gen_charts-IsAlike_example =
    gen_charts-IsAlike "Month" "Month" (output none (left ∷ right ∷ [])) left (right ∷ [])
      (quad 1 2 1 2 5) [] [] (pos 1) (pos 1) former present is_alike (refl, refl) (refl, refl) refl
      refl refl refl (refl, (refl, tt))

-- The former page, paused before the third iteration.
abbrev paused : FormerPage ℕ
paused = record former { iteration = pos 3; pause_flag = true; play_flag = false }

paused-IsAlike : IsAlike (pos 1) (pos 2) paused at_rest
unfolding undo_one splice drop
paused-IsAlike = record {
  arr = refl;
  last = refl;
  undoable = λ i lt le.
      let a : leb_ℤ i (pos 2) ≡ true = ground (arith, le) in
      let b : leb_ℤ (dec i) (pos 2) ≡ true = ground (arith, le, dec_parts i) in rw (a, b) refl;
}

seek-IsAlike_example :
    (i : ℤ) × (a : List (Quad ℕ)) × (s' : FormerPage ℕ) × (t' : Page ℕ) × (seek (pos 1) paused
      ≡ next s')
    × (present_seek (pos 1) at_rest ≡ next t')
    × (s'.log ≡ draw graph i a ∷ paused.log)
    × (t'.log ≡ draw graph i a ∷ at_rest.log)
    × (s'.forward_iter ≡ i)
    × (t'.forward_iter ≡ i)
unfolding inc current_iter_of dec
seek-IsAlike_example =
    seek-IsAlike (pos 1) (pos 2) (pos 1) paused at_rest paused-IsAlike is_rest
      (record { from_first = omega arith; to_last = omega arith; short = λ _. omega arith })
      (refl, refl, refl) (refl, refl)
      (record { lo = 1; hi = 9; cells = []; has_lo = refl; has_hi = refl; has_cells = refl })

-- The former page, paused after the answer for the second iteration and before its timer.
abbrev early : FormerPage ℕ
early = record paused { iteration = pos 2; seekbar_max = pos 1 }

early-IsAlike : IsAlike (pos 1) (pos 2) early at_rest
early-IsAlike = record { arr = refl; last = refl; undoable = paused-IsAlike.undoable }

seek-before_timer_example :
    (a : List (Quad ℕ)) × (s' : FormerPage ℕ) × (at_rest.segment_chain (pos 2) ≡ some a)
    × (seek (pos 1) early ≡ next s')
    × (s'.log ≡ draw graph (dec (pos 2)) a ∷ early.log)
    × (s'.forward_iter ≡ dec (pos 2))
unfolding dec
seek-before_timer_example =
    seek-before_timer (pos 1) (pos 2) (pos 1) early at_rest early-IsAlike (refl, omega arith, refl)
      (refl, omega arith)
      (record { lo = 1; hi = 9; cells = []; has_lo = refl; has_hi = refl; has_cells = refl })
