-- ===== src/Trend/Examples/Handlers.antt =====
-- A page that waits for its second answer, one at rest and a new query, and the theorems at them.
pub mod Views
pub mod Pages
use inc_visage.Common.{
  ℕ, ℤ, pos, ◌+ℤ◌, inc, dec, leb_ℤ, ◌≤ℤ◌, ◌<ℤ◌, true, false, none, some, List, [], ◌∷◌, ◌++◌,
  get_elem?, ◌≡◌, refl, arith, if◌then◌else◌,
}
use inc_visage.Js.{next, thrown, ◌>>=◌, Sparse}
use inc_visage.Axis.{label}
use inc_visage.Trend.Segment.{Segment, trend}
use inc_visage.Trend.State.{State, Icon, draw, graph, snapshot, announce}
use inc_visage.Trend.Play.{gen_charts}
use inc_visage.Trend.Toggle.{click_play, click_repeat}
use inc_visage.Trend.Seek.{seek}
use inc_visage.Trend.Edges.{seek_then_forward, repeat_then_answers}
use inc_visage.Trend.Step.{click_forward}
use inc_visage.Trend.Save.{click_save}
use inc_visage.Trend.Live.{IsLive, IsFinished, requested, drawn, history}
use inc_visage.Trend.Live.Answered.{answer_all}
use inc_visage.Trend.Live.Start.{IsReady}
use inc_visage.Trend.Rest.{IsRest, IsSameRun}
use inc_visage.Viewer.{Move}
use inc_visage.Trend.Rest.Session.{handle_all, handle_all-IsRest}
use inc_visage.Trend.Pause.{pause_then_answer}
use inc_visage.Trend.Races.{click_save-live, pause_then_forward, pause_then_play}
use inc_visage.Trend.Replayed.Resumed.{replay_then_live}
use inc_visage.Trend.Load.{Axes, process_axes_data, process_axes_data_lem, load_then_play}
use inc_visage.Trend.Examples.{numbers, blank, segment, part, answer, answers, is_answer}

-- The array of the first iteration, and a chain that holds it for the iterations 1 to `n`.
abbrev pub arr : List (Segment ℕ)
arr = segment 1 3 5 ∷ []

abbrev chain_to : ℤ → Sparse (List (Segment ℕ))
chain_to n j = if leb_ℤ j n then some arr else none

abbrev pub live : State ℕ
live = record blank {
  iteration = pos 2;
  play_flag = true;
  icon = Icon.pause;
  segment_arr = arr;
  segment_chain = chain_to (pos 1);
  seekbar_max = pos 0;
}

abbrev is_live : IsLive live
is_live = record {
  no_reset = refl;
  playing = refl;
  no_pause = refl;
  no_replay = refl;
  no_forward = refl;
  no_back = refl;
  shown = refl;
  within = omega arith;
}

chain-recorded : (n lo j : ℤ) → leb_ℤ j n ≡ true → (a : List (Segment ℕ)) × (chain_to n j ≡ some a)
chain-recorded n lo j h = (arr, rw h)

pause_then_answer_example :
    (t : State ℕ) × ((click_play live
        >>= gen_charts true (answer (part 0 1 1 9 ∷ part 1 2 3 4 ∷ [])))
      ≡ next t)
    × IsRest t
    × (t.iteration ≡ inc live.iteration)
    × (t.forward_iter ≡ dec live.iteration)
    × (t.segment_chain live.iteration ≡ some t.segment_arr)
    × (t.log ≡ draw graph (dec live.iteration) (trend live.segment_arr) ∷ live.log)
pause_then_answer_example =
    pause_then_answer true (answer (part 0 1 1 9 ∷ part 1 2 3 4 ∷ [])) live is_live (refl, refl)
      (is_answer _ _) (omega arith) (omega arith)
      (λ j le lt. chain-recorded (pos 1) (pos 1) j (ground arith))

pause_then_play_example :
    (t : State ℕ) × ((click_play live >>= click_play) ≡ next t)
    × (requested t.log ≡ live.iteration ∷ requested live.log)
    × (t.iteration ≡ live.iteration)
pause_then_play_example = pause_then_play live is_live (refl, refl) (omega arith)

-- A page that was paused before the third iteration, and stepped back to the first.
abbrev pub at_rest : State ℕ
at_rest = record blank {
  iteration = pos 3;
  segment_arr = arr;
  segment_chain = chain_to (pos 2);
  seekbar_max = pos 2;
  pause_flag = true;
  simplay_flag = true;
  play_noviz = true;
  forward_flag = true;
  back_flag = true;
  pause_iter = pos 1;
  forward_iter = pos 1;
  backward_iter = pos 1;
  play_iter = pos 1;
  forward_lit = true;
  back_lit = false;
  x_max = pos 4;
  seekbar_value = pos 1;
  current_iter = some (pos 1);
  log = draw graph (pos 1) (trend arr) ∷ [];
}

pub is_rest : IsRest at_rest
unfolding inc
is_rest = record {
  paused = refl;
  stopped = refl;
  can_step = refl;
  can_return = refl;
  two_recorded = omega arith;
  in_range = omega arith;
  from_first = omega arith;
  before_run = omega arith;
  behind = omega arith;
  seek_first = omega arith;
  seek_before_run = λ _. omega arith;
  recorded = λ j le lt. chain-recorded (pos 2) (pos 1) j (ground arith);
  lit_forward = λ _ _. omega arith;
}

abbrev pub moves : List Move
moves = Move.forward ∷ Move.back ∷ Move.to (pos 1) ∷ Move.forward ∷ []

replay_then_live_example :
    (t : State ℕ) × (click_play at_rest ≡ next t)
    × IsLive t
    × (t.iteration ≡ at_rest.iteration)
    × (requested t.log ≡ at_rest.iteration ∷ requested at_rest.log)
    × (drawn t.log ≡ history (inc at_rest.play_iter) 1 ++ drawn at_rest.log)
unfolding inc ◌+ℤ◌
replay_then_live_example =
    replay_then_live 1 at_rest (refl, refl) refl (omega arith) refl
      (λ j le lt. chain-recorded (pos 2) (pos 1) j (ground arith))

-- A query of the first three months, which the page of the run above is asked.
abbrev pub axes : Axes
axes = record { x_min = pos 1; x_max = pos 3 }

seek_then_forward_example :
    (t : State ℕ) × ((seek (pos 2) at_rest >>= click_forward) ≡ thrown t)
    × (t.forward_iter ≡ at_rest.iteration)
unfolding inc ◌+ℤ◌
seek_then_forward_example =
    seek_then_forward at_rest (pos 2) is_rest refl (omega arith) (omega arith) refl
