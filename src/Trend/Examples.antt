-- ===== src/Trend/Examples.antt =====
-- A run over three iterations on a small page, and the theorems of the trendline at its states.
pub mod Handlers
use Prim.Native.Nat.{compare}
use inc_visage.Common.{
  ℕ, ℤ, pos, negsuc, ◌+◌, ◌-◌, ◌+ℤ◌, ◌-ℤ◌, inc, dec, ◌≡◌, refl, ◌∙◌, ap, Bool, true, false, Option,
  none, some, List, [], ◌∷◌, ◌++◌, arith, ◌≤ℤ◌, eqb_ℤ, if◌then◌else◌,
}
use inc_visage.Js.{Flow, next, thrown, ◌>>=◌, update, splice_one, splice_in}
use inc_visage.Refine.{Part, splice_part, splice_parts, shapes}
use inc_visage.Trend.Segment.{Segment, Point, trend, value_at}
use inc_visage.Trend.State.{
  State, Icon, Effect, draw, request, reset_data, graph, reset, announce, draw_segments, caption,
}
use inc_visage.Trend.Play.{
  Margins, Output, YRange, set_range, first_range, take_segments, take_whole, show_segments,
  play_on, gen_charts, play_next, stop,
}
use inc_visage.Trend.Toggle.{click_play, click_icon, start_run}
use inc_visage.Trend.Tiling.{Tiles, covers, IsSplit}
use inc_visage.Trend.Answer.{gen_charts-Tiles}
use inc_visage.Trend.Live.{IsFinished, requested, drawn, history}
use inc_visage.Trend.Live.Answered.{IsAnswer, answer_all}
use inc_visage.Trend.Live.Start.{IsReady, reset-IsReady, play_to_end}

instance abbrev pub numbers : Margins ℕ
numbers = record { add_2 = λ a. a + 2; sub_2 = λ a. a - 2 }

-- The page as `processAxesData` leaves it for a range from 1 to 3, before its reset.
abbrev pub blank : State ℕ
blank = record {
  iteration = pos 1;
  max_iteration = pos 100;
  x_min = pos 1;
  x_max = pos 3;
  y_min = λ _. none;
  y_max = λ _. none;
  curr_avg_max = 0;
  curr_avg_min = 0;
  segment_arr = [];
  segment_chain = λ _. none;
  done_flag = false;
  pause_iter = negsuc 0;
  play_iter = negsuc 0;
  forward_iter = negsuc 0;
  backward_iter = negsuc 0;
  seekbar_iter = negsuc 0;
  seekbar_max = negsuc 0;
  max_pause = pos 0;
  forward_flag = false;
  back_flag = false;
  play_flag = false;
  pause_flag = false;
  simplay_flag = false;
  reset_flag = false;
  play_noviz = false;
  icon = Icon.play;
  play_lit = true;
  forward_lit = false;
  back_lit = false;
  seekbar_value = pos 0;
  seekbar_min_attr = pos 1;
  seekbar_max_attr = pos 3;
  current_iter = none;
  snapshot_no = none;
  log = [];
}

abbrev pub segment : ℕ → ℕ → ℕ → Segment ℕ
segment b e a = record { b = pos b; e = pos e; a = a }

abbrev pub part : ℕ → ℕ → ℕ → ℕ → Part (Segment ℕ)
part n b e a = record { n = n; shape = segment b e a }

abbrev pub answer : List (Part (Segment ℕ)) → Output ℕ
answer ps = record {
  sl = ps;
  gl = none;
  y = record { x_min = pos 1; x_max = pos 3; a_min = 4; a_max = 9 };
}

abbrev pub answers : List (Output ℕ)
answers =
    answer (part 0 1 3 5 ∷ [])
    ∷ answer (part 0 1 1 9 ∷ part 1 2 3 4 ∷ [])
    ∷ answer (part 1 2 2 6 ∷ part 2 3 3 2 ∷ [])
    ∷ []

abbrev pub ready : State ℕ
ready = reset blank

-- What the page is asked to do in the run, by evaluation.
final : Flow (State ℕ)
unfolding reset click_play click_icon start_run play_next answer_all gen_charts set_range
    first_range take_segments show_segments play_on stop draw_segments announce caption trend inc
    dec ◌-ℤ◌ ◌+ℤ◌ splice_parts splice_part splice_one splice_in
final = click_play ready >>= answer_all true answers

abbrev log_of : Flow (State ℕ) → List (Effect ℕ)
log_of (next s) = s.log
log_of (thrown s) = s.log
log_of Flow.diverged = []

run_draws : drawn (log_of final) ≡ pos 3 ∷ pos 2 ∷ pos 1 ∷ pos 0 ∷ []
unfolding final
run_draws = refl

abbrev pub is_answer :
    (p : Part (Segment ℕ)) (ps : List (Part (Segment ℕ)))
    → IsAnswer (pos 1) (pos 3) (answer (p ∷ ps))
is_answer p ps = record { first = p; rest = ps; parts = refl; low = refl; high = refl }

-- After the first answer; the second one splits its only segment.
abbrev one_segment : State ℕ
one_segment = record blank { iteration = pos 2; segment_arr = segment 1 3 5 ∷ [] }

abbrev second : List (Part (Segment ℕ))
second = part 0 1 1 9 ∷ part 1 2 3 4 ∷ []

gen_charts-Tiles_example :
    (t : State ℕ) × (gen_charts true (answer second) one_segment ≡ next t)
    × Tiles (pos 1) (pos 3) t.segment_arr
    × ((i : ℤ)
        → value_at t.segment_arr i ≡ (
            if covers (segment 1 3 5) i
            then value_at (shapes second) i
            else value_at one_segment.segment_arr i))
    × (t.segment_chain (pos 2) ≡ some t.segment_arr)
    × ((j : ℤ) → eqb_ℤ (pos 2) j ≡ false → t.segment_chain j ≡ none)
unfolding inc ◌+ℤ◌
gen_charts-Tiles_example =
    gen_charts-Tiles (pos 1) (pos 3) true (answer second) (part 0 1 1 9) (part 1 2 3 4 ∷ [])
      (segment 1 3 5) one_segment refl refl (refl, omega arith, refl)
      (record {
        found = refl;
        numbered = (refl, (refl, tt));
        tiled = (refl, omega arith, (refl, omega arith, refl));
      })
