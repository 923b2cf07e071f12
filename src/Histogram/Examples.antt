-- ===== src/Histogram/Examples.antt =====
-- A former histogram over the places 1 to 3, and the theorems about it at that page.
use inc_visage.Common.{
  ℕ, ℤ, pos, inc, dec, dec_parts, ◌-ℤ◌, leb_ℤ, if◌then◌else◌, true, false, none, some, List, [],
  ◌∷◌, ◌≡◌, refl, arith,
}
use inc_visage.Js.{next}
use inc_visage.Refine.{Part, splice_parts}
use inc_visage.Refine.Lift.{lift}
use inc_visage.Trend.Segment.{Segment}
use inc_visage.Trend.State.{Icon}
use inc_visage.Former.Chains.{splice, drop}
use inc_visage.Histogram.{HistogramPage, Bar, Estimate, put_back, all_known}
use inc_visage.Histogram.Play.{Output, gen_charts, put_estimates, set_at, set_index}
use inc_visage.Histogram.Replay.{replayed}
use inc_visage.Histogram.Seek.{seek}
use inc_visage.Histogram.Step.{click_back}
use inc_visage.Histogram.Recorded.{IsRecorded}
use inc_visage.Histogram.Recorded.Undoable.{extend}
use inc_visage.Histogram.Recorded.Answers.{gen_charts-IsRecorded, gen_charts-first, estimates_after}
use inc_visage.Histogram.Recorded.Drawn.{drawing, seek-IsRecorded, back-IsRecorded}
use inc_visage.Histogram.Recorded.Replayed.{replayed-last}

abbrev whole : Segment ℕ
whole = record { b = pos 1; e = pos 3; a = 5 }

abbrev left : Segment ℕ
left = record { b = pos 1; e = pos 1; a = 4 }

abbrev right : Segment ℕ
right = record { b = pos 2; e = pos 3; a = 6 }

abbrev first_part : Part (Segment ℕ)
first_part = record { n = 0; shape = whole }

abbrev left_part : Part (Segment ℕ)
left_part = record { n = 0; shape = left }

abbrev right_part : Part (Segment ℕ)
right_part = record { n = 1; shape = right }

abbrev estimate : Estimate ℕ
estimate = record { g = pos 1; a = 5 }

abbrev answer : List (Part (Bar ℕ)) → Output ℕ
answer ps = record {
  sl = ps;
  gl = some (estimate ∷ []);
  y_min = 1;
  y_max = 9;
  x_min = pos 1;
  x_max = pos 3;
}

-- The page waits for the first answer.
abbrev empty : HistogramPage ℕ
empty = record {
  iteration = pos 1;
  max_iteration = pos 100;
  x_min = pos 0;
  x_max = pos 0;
  y_min = λ i. none;
  y_max = λ i. none;
  segment_arr = [];
  estimate_arr = [];
  segment_forward_chain = λ i. none;
  segment_backward_chain = λ i. none;
  estimate_chain = λ i. none;
  done_flag = false;
  pause_iter = pos 0;
  play_iter = pos 0;
  forward_iter = pos 0;
  backward_iter = pos 0;
  seekbar_iter = pos 0;
  seekbar_max = pos 0;
  max_pause = pos 0;
  forward_flag = false;
  back_flag = false;
  play_flag = true;
  pause_flag = false;
  simplay_flag = false;
  reset_flag = false;
  play_noviz = false;
  icon = Icon.pause;
  play_lit = true;
  forward_lit = false;
  back_lit = false;
  submit_disabled = false;
  seekbar_value = pos 0;
  seekbar_min_attr = pos 0;
  seekbar_max_attr = pos 0;
  current_iter = none;
  snapshot_no = none;
  timers = [];
  log = [];
}

gen_charts-first_example :
    (t : HistogramPage ℕ) × (gen_charts (answer (lift first_part ∷ [])) empty ≡ next t)
    × IsRecorded (λ i. whole ∷ []) (pos 1) (pos 1) t
    × (t.iteration ≡ pos 1)
unfolding all_known put_estimates set_at
gen_charts-first_example =
    gen_charts-first (answer (lift first_part ∷ [])) empty first_part (estimate ∷ [])
      (refl, refl, refl) (refl, refl, refl) refl

-- The page waits for the second answer.
abbrev waiting : HistogramPage ℕ
waiting = record empty {
  iteration = pos 2;
  x_min = pos 1;
  x_max = pos 3;
  segment_arr = some whole ∷ [];
  estimate_arr = some estimate ∷ [];
}

waiting-IsRecorded : IsRecorded (λ i. whole ∷ []) (pos 1) (pos 1) waiting
waiting-IsRecorded = record {
  arr = refl;
  count = refl;
  undoable = λ i lt le. absurd (omega (arith, lt, le));
}

gen_charts-IsRecorded_example :
    (t : HistogramPage ℕ) × (gen_charts (answer (lift left_part ∷ lift right_part ∷ [])) waiting
      ≡ next t)
    × IsRecorded
        (extend
          (λ i. whole ∷ [])
          (inc (pos 1))
          (splice_parts 0 (left_part ∷ right_part ∷ []) (whole ∷ [])))
        (pos 1)
        (inc (pos 1))
        t
    × (t.estimate_chain (inc (pos 1)) ≡ some (estimates_after (estimate ∷ []) waiting))
    × (t.iteration ≡ inc (pos 1))
unfolding inc all_known put_estimates set_at set_index ◌-ℤ◌
gen_charts-IsRecorded_example =
    gen_charts-IsRecorded (λ i. whole ∷ []) (pos 1) (pos 1)
      (answer (lift left_part ∷ lift right_part ∷ [])) waiting left_part right_part whole
      (estimate ∷ []) waiting-IsRecorded (refl, omega arith, refl) (refl, refl) refl
      (refl, (refl, tt)) refl

-- The page after it, paused before the timer runs off.
abbrev arrays : ℤ → List (Segment ℕ)
arrays i = if leb_ℤ i (pos 1) then whole ∷ [] else left ∷ right ∷ []

abbrev paused : HistogramPage ℕ
paused = record waiting {
  segment_arr = some left ∷ some right ∷ [];
  segment_forward_chain = λ i. some (lift left_part ∷ lift right_part ∷ []);
  segment_backward_chain = λ i. some (record { n = 0; s = some whole });
  estimate_chain = λ i. some (some estimate ∷ []);
  pause_flag = true;
  play_flag = false;
  back_flag = true;
  back_lit = true;
  backward_iter = pos 2;
  play_iter = pos 2;
  seekbar_max = pos 2;
}

paused-IsRecorded : IsRecorded arrays (pos 1) (pos 2) paused
unfolding put_back splice drop
paused-IsRecorded = record {
  arr = refl;
  count = refl;
  undoable = λ i lt le.
      let a : leb_ℤ i (pos 1) ≡ false = ground (arith, lt) in
      let b : leb_ℤ (dec i) (pos 1) ≡ true = ground (arith, le, dec_parts i) in rw (a, b) refl;
}

seek-IsRecorded_example :
    (t : HistogramPage ℕ) × (seek (pos 1) paused ≡ next t)
    × (t.log ≡ drawing (pos 1) (whole ∷ []) (estimate ∷ []) [])
    × (t.forward_iter ≡ pos 1)
    × (t.backward_iter ≡ pos 1)
    × (t.pause_iter ≡ pos 1)
    × (t.play_iter ≡ pos 1)
    × (t.segment_arr ≡ paused.segment_arr)
seek-IsRecorded_example =
    seek-IsRecorded arrays (pos 1) (pos 2) (pos 1) paused (estimate ∷ []) paused-IsRecorded refl
      (omega arith, omega arith) refl

back-IsRecorded_example :
    (t : HistogramPage ℕ) × (click_back paused ≡ next t)
    × (t.log ≡ drawing (dec (pos 2)) (arrays (dec (pos 2))) (estimate ∷ []) [])
    × (t.backward_iter ≡ dec (pos 2))
    × (t.forward_iter ≡ dec (pos 2))
    × (t.pause_iter ≡ dec (pos 2))
    × (t.play_iter ≡ dec (pos 2))
    × (t.segment_arr ≡ paused.segment_arr)
unfolding dec
back-IsRecorded_example =
    back-IsRecorded arrays (pos 1) (pos 2) paused (estimate ∷ []) paused-IsRecorded
      (refl, refl, refl) (refl, refl) (omega arith, omega arith) refl

-- The same page, whose last two segments were split off later.
abbrev third : HistogramPage ℕ
third = record paused { segment_arr = some whole ∷ some whole ∷ some right ∷ [] }

replayed-last_example : replayed third ≡ some (some left ∷ some right ∷ some right ∷ [])
replayed-last_example =
    replayed-last third (lift left_part) (lift right_part) (some whole) (some whole) (some whole) []
      (some right ∷ []) refl refl refl (refl, (refl, tt))
