-- ===== src/Heat/Examples/Handlers.antt =====
-- A heatmap that was paused and stepped back, and the theorems about its handlers at it.
pub mod Views
use inc_visage.Common.{
  ℕ, ℤ, pos, inc, ◌+ℤ◌, leb_ℤ, true, false, if◌then◌else◌, none, some, List, [], ◌∷◌, ◌++◌, ◌≡◌,
  refl, arith, ◌-ℤ◌, ◌*ℤ◌, dec,
}
use inc_visage.Js.{next, ◌>>=◌, Sparse}
use inc_visage.Trend.State.{Icon, graph}
use inc_visage.Trend.Live.{history}
use inc_visage.Viewer.{Move}
use inc_visage.Heat.{Page, Quad, draw}
use inc_visage.Heat.Toggle.{click_play}
use inc_visage.Heat.Run.{IsLive, requested, drawn}
use inc_visage.Heat.Rest.{IsRest, IsSameRun, Seen}
use inc_visage.Heat.Rest.Session.{handle_moves, handle_moves-IsRest}
use inc_visage.Heat.Replayed.Resumed.{replay_then_run}
use inc_visage.Heat.Play.{cell_count, gen_charts}
use inc_visage.Heat.Pause.{pause_then_output}
use inc_visage.Heat.Load.{process_axes_data}
use inc_visage.Heat.Run.End.{answer_all}
use inc_visage.Heat.Run.Loaded.{load_then_run}
use inc_visage.Heat.Examples.{quad, page, ranges, output, whole, left, right}

abbrev pub arr : List (Quad ℕ)
arr = quad 1 2 1 2 5 ∷ []

abbrev pub up_to {ℓ} : {A : Type ℓ} → ℤ → A → Sparse A
up_to n a j = if leb_ℤ j n then some a else none

-- Paused before the third iteration, with the cursor at the first.
abbrev pub at_rest : Page ℕ
at_rest = record page {
  iteration = pos 3;
  avg_max = up_to (pos 2) 9;
  avg_min = up_to (pos 2) 1;
  valid_cells = some [];
  segment_arr = arr;
  segment_chain = up_to (pos 2) arr;
  pause_iter = pos 1;
  play_iter = pos 1;
  forward_iter = pos 1;
  backward_iter = pos 1;
  seekbar_max = pos 2;
  forward_flag = true;
  back_flag = true;
  play_flag = false;
  pause_flag = true;
  simplay_flag = true;
  play_noviz = true;
  icon = Icon.play;
  forward_lit = true;
  back_lit = false;
  seekbar_value = pos 1;
  current_iter = some (pos 1);
  log = draw graph (pos 1) arr ∷ [];
}

seen : (j : ℤ) → leb_ℤ j (pos 2) ≡ true → (a : List (Quad ℕ)) × Seen at_rest j a
seen j h = (
  arr,
  record {
    kept = rw h;
    min = 1;
    has_min = rw h;
    max = 9;
    has_max = rw h;
    valid = [];
    has_cells = refl;
  },
)

pub is_rest : IsRest at_rest
unfolding inc
is_rest = record {
  paused = refl;
  stopped = refl;
  can_step = refl;
  can_return = refl;
  two_recorded = omega arith;
  in_range = omega arith;
  from_first = omega arith;
  before_run = omega arith;
  behind = omega arith;
  seek_first = omega arith;
  seek_before_run = λ _. omega arith;
  recorded = λ j le lt. seen j (ground arith);
  lit_forward = λ _ _. omega arith;
}

abbrev moves : List Move
moves = Move.forward ∷ Move.back ∷ Move.to (pos 1) ∷ Move.forward ∷ []

handle_moves-IsRest_example :
    (t : Page ℕ) × (handle_moves moves at_rest ≡ next t) × IsRest t × IsSameRun at_rest t
unfolding inc
handle_moves-IsRest_example = handle_moves-IsRest moves at_rest is_rest (
  tt,
  (
    tt,
    (
      record { from_first = omega arith; to_last = omega arith; short = λ _. omega arith },
      (tt, tt),
    ),
  ),
)

replay_then_run_example :
    (t : Page ℕ) × (click_play at_rest ≡ next t)
    × IsLive t
    × (t.iteration ≡ at_rest.iteration)
    × (requested t.log ≡ at_rest.iteration ∷ requested at_rest.log)
    × (drawn t.log ≡ history (inc at_rest.play_iter) 1 ++ drawn at_rest.log)
unfolding inc ◌+ℤ◌
replay_then_run_example =
    replay_then_run 1 at_rest (refl, refl) refl (omega arith) refl
      (λ j le lt. seen j (ground arith))

load_then_run_example :
    (t : Page ℕ) × ((click_play (process_axes_data "Month" "Month" ranges at_rest)
        >>= answer_all "Month" "Month" (
            output (some []) (whole ∷ []) ∷ (output none (left ∷ right ∷ []) ∷ [])
            ++ output none [] ∷ []))
      ≡ next t)
    × (t.play_flag ≡ false)
    × (inc t.iteration ≡ pos 1 +ℤ pos 2)
    × (t.max_iteration ≡ t.iteration)
    × (requested t.log ≡ history (pos 1) 3 ++ requested at_rest.log)
    × (drawn t.log ≡ history (pos 1) 2 ++ dec (pos 1) ∷ drawn at_rest.log)
unfolding cell_count inc ◌+ℤ◌ ◌-ℤ◌ ◌*ℤ◌
load_then_run_example =
    load_then_run "Month" "Month" ranges at_rest 1 (output (some []) (whole ∷ []))
      (output none (left ∷ right ∷ []) ∷ []) (output none []) []
      (record { first = whole; rest = []; parts = refl }) refl
      (record { first = left; rest = right ∷ []; parts = refl }, tt) refl refl (omega arith)

-- A page that waits for its second answer.
abbrev waiting : Page ℕ
waiting = record page {
  iteration = pos 2;
  avg_max = up_to (pos 1) 9;
  avg_min = up_to (pos 1) 1;
  valid_cells = some [];
  segment_arr = arr;
  segment_chain = up_to (pos 1) arr;
}

abbrev is_live : IsLive waiting
is_live = record {
  no_reset = refl;
  playing = refl;
  no_pause = refl;
  no_replay = refl;
  no_forward = refl;
  draws = refl;
}

seen_waiting : (j : ℤ) → leb_ℤ j (pos 1) ≡ true → (a : List (Quad ℕ)) × Seen waiting j a
seen_waiting j h = (
  arr,
  record {
    kept = rw h;
    min = 1;
    has_min = rw h;
    max = 9;
    has_max = rw h;
    valid = [];
    has_cells = refl;
  },
)

pause_then_output_example :
    (t : Page ℕ) × ((click_play waiting
        >>= gen_charts "Month" "Month" (output none (left ∷ right ∷ [])))
      ≡ next t)
    × IsRest t
    × (t.iteration ≡ inc waiting.iteration)
    × (t.forward_iter ≡ dec waiting.iteration)
    × (t.segment_chain waiting.iteration ≡ some t.segment_arr)
    × (t.log ≡ draw graph (dec waiting.iteration) waiting.segment_arr ∷ waiting.log)
pause_then_output_example =
    pause_then_output waiting is_live "Month" "Month" (output none (left ∷ right ∷ [])) left
      (right ∷ []) refl (refl, refl) (omega arith) (omega arith) (omega arith) (omega arith)
      (λ j le lt. seen_waiting j (ground arith))
