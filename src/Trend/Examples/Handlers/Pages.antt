-- ===== src/Trend/Examples/Handlers/Pages.antt =====
-- Whole trendline pages, with a dimension whose labels the page leaves to d3 and with months.
use inc_visage.Common.{
  ℕ, ℤ, pos, ◌+ℤ◌, inc, dec, ◌≤ℤ◌, ◌<ℤ◌, true, false, none, some, List, [], ◌∷◌, ◌++◌, get_elem?,
  ◌≡◌, refl, arith, inr,
}
use inc_visage.Js.{next, thrown, ◌>>=◌}
use inc_visage.Axis.{label}
use inc_visage.Trend.Segment.{Segment}
use inc_visage.Trend.State.{State, reset, draw_segments, announce}
use inc_visage.Trend.Live.{IsFinished, requested, drawn, history}
use inc_visage.Trend.Live.Start.{IsReady, reset-IsReady}
use inc_visage.Trend.Rest.{IsRest, IsSameRun}
use inc_visage.Trend.Page.{
  Page, is_labelled, has_any, throws_axes, click_play_page, click_repeat_page, gen_charts_page,
  answer_all_page, move_all_page, process_axes_data_page,
}
use inc_visage.Trend.Page.Runs.{page_to_end, repeat_page, answer_page}
use inc_visage.Trend.Page.Queries.{query_page, load_page}
use inc_visage.Trend.Page.Throws.{query_labelled}
use inc_visage.Trend.Page.Moves.{move_all_page-IsRest}
use inc_visage.Server.Charts.{result}
use inc_visage.Server.Client.{read_output}
use inc_visage.Server.Examples.{addon, whole}
use inc_visage.Trend.Examples.{numbers, part, answer, blank, ready, answers, is_answer}
use inc_visage.Trend.Examples.Handlers.{live, at_rest, is_rest, moves, axes}

abbrev page_of : State ℕ → Page ℕ
page_of s = record { dimension = "Day"; x_tick_list = []; state = s }

page_to_end_example :
    (t : State ℕ) × ((click_play_page (page_of ready) >>= answer_all_page true answers)
      ≡ next (record (page_of ready) { state = t }))
    × IsFinished t
    × (t.x_max ≡ ready.x_max)
    × (requested t.log ≡ history ready.x_min 3 ++ requested ready.log)
    × (drawn t.log ≡ history ready.x_min 3 ++ drawn ready.log)
    × ((j : ℤ)
        → ready.x_min ≤ℤ j
        → j ≤ℤ ready.x_max
        → (arr : List (Segment ℕ)) × (t.segment_chain j ≡ some arr))
unfolding reset draw_segments announce ◌+ℤ◌ throws_axes is_labelled has_any
page_to_end_example =
    page_to_end 2 true answers (page_of ready) refl (reset-IsReady blank)
      (is_answer _ _, (is_answer _ _, (is_answer _ _, tt))) refl refl

repeat_page_example :
    (t : State ℕ) × ((click_repeat_page (page_of live) >>= answer_all_page true answers)
      ≡ next (record (page_of live) { state = t }))
    × IsReady t
    × (requested t.log ≡ requested live.log)
    × (t.segment_chain ≡ live.segment_chain)
unfolding throws_axes is_labelled has_any
repeat_page_example = repeat_page true answers (page_of live) refl

answer_page_example :
    (t : State ℕ) × (gen_charts_page true
        (read_output (result addon (pos 1) (pos 1) 0 (whole ∷ [])))
        (page_of live)
      ≡ next (record (page_of live) { state = t }))
unfolding throws_axes is_labelled has_any
answer_page_example =
    answer_page addon true (pos 1) (pos 1) 0 (whole ∷ []) (page_of live) refl
      (inr (whole, [], refl))

move_all_page-IsRest_example :
    (t : State ℕ) × (move_all_page moves (page_of at_rest)
      ≡ next (record (page_of at_rest) { state = t }))
    × IsRest t
    × IsSameRun at_rest t
unfolding inc throws_axes is_labelled has_any
move_all_page-IsRest_example = move_all_page-IsRest moves (page_of at_rest) refl is_rest (
  tt,
  (
    tt,
    (
      record { from_first = omega arith; to_last = omega arith; short = λ _. omega arith },
      (tt, tt),
    ),
  ),
)

load_page_example :
    (q : Page ℕ) × ((process_axes_data_page axes (page_of live)
        >>= click_play_page
        >>= answer_all_page true answers)
      ≡ next q)
    × IsFinished q.state
    × (requested q.state.log ≡ history axes.x_min 3 ++ requested live.log)
    × (drawn q.state.log ≡ history axes.x_min 3 ++ dec axes.x_min ∷ drawn live.log)
unfolding ◌+ℤ◌ is_labelled
load_page_example =
    load_page axes (page_of live) 2 true answers refl
      (is_answer _ _, (is_answer _ _, (is_answer _ _, tt))) refl refl

query_page_example :
    (q : Page ℕ) × (process_axes_data_page axes (page_of live) ≡ next q)
    × IsReady q.state
    × (q.state.x_min ≡ axes.x_min)
    × (q.state.x_max ≡ axes.x_max)
    × (q.state.reset_flag ≡ false)
    × (requested q.state.log ≡ requested live.log)
    × ((j : ℕ)
        → (axes.x_min +ℤ pos j ≤ℤ axes.x_max
            → get_elem? q.x_tick_list j
              ≡ some (label "Day" (axes.x_min +ℤ pos j) (axes.x_min +ℤ pos j)))
          × (axes.x_max <ℤ axes.x_min +ℤ pos j → get_elem? q.x_tick_list j ≡ none))
unfolding is_labelled
query_page_example = query_page axes (page_of live) refl

-- A page with months.
abbrev months : Page ℕ
months = record (page_of live) { dimension = "Month" }

query_labelled_example :
    (q : Page ℕ) × (u : Page ℕ) × (t : Page ℕ) × (process_axes_data_page axes months ≡ thrown q)
    × (click_play_page q ≡ next u)
    × (gen_charts_page true (answer (part 0 1 3 5 ∷ [])) u ≡ thrown t)
    × (t.state.segment_chain axes.x_min ≡ some t.state.segment_arr)
    × (requested t.state.log ≡ axes.x_min ∷ requested live.log)
    × (drawn t.state.log ≡ drawn live.log)
unfolding is_labelled
query_labelled_example =
    query_labelled axes months true (answer (part 0 1 3 5 ∷ [])) (part 0 1 3 5) [] refl
      (omega arith) refl
