-- ===== src/Server/Examples.antt =====
-- A small server, and the theorems about it at its states.
pub mod Races
use Prim.Native.String.{String}
use text.Mathlib.Text.{◌==◌ as str_eq}
use inc_visage.Common.{
  Bool, ℕ, suc, ◌+◌, ◌-◌, ◌<◌, pos, ◌&&◌, true, false, Option, none, some, List, [], ◌∷◌, length,
  get_elem?, ◌≡◌, refl, inr,
}
use inc_visage.Js.{next, thrown}
use inc_visage.Refine.{Part}
use inc_visage.Trend.Segment.{Segment}
use inc_visage.Trend.State.{State, Icon}
use inc_visage.Trend.Play.{Margins, gen_charts}
use inc_visage.Server.{Server, Addon, File, Study, Minute, Answers, Row, success, trend}
use inc_visage.Server.Viz.{file_of, assign, assign-turns, HoldsTurn, turns, turn_after}
use inc_visage.Server.Charts.{result}
use inc_visage.Server.Responses.{is_study, is_minute, row, rows, store, store_lem, store_twice}

-- The native module counts the charts it has made.
abbrev pub addon : Addon ℕ ℕ ℕ
addon = record {
  set_viz_type = λ v n. n;
  load_dataset = λ q n. (0, q);
  load_predicate_data = λ q n. (n, q);
  load_axes_data = λ q n. (n, q);
  gen_chart = λ i n. (suc n, []);
  gen_chart_of = λ q n. (suc n, q);
  get_axis_range = λ i n. record { x_min = pos 1; x_max = pos 3; a_min = 4; a_max = 9 };
  to_continue = λ i n. true;
  get_valid_cells = λ i n. n;
  reset = λ n. 0;
}

abbrev pub content : File → Option String
content File.ta = some "1"
content File.ha = some "1"
content File.tb = some "2"
content File.hb = none

abbrev pub server : Server ℕ
server = record {
  viz_type = pos 3;
  native = 0;
  disk = record { content = content; writable = λ _. true };
  answers = λ _ _. none;
}

assign-turns_example :
    ((assign {F = ℕ} {J = ℕ} 3 server).1 ≡ turns false 3)
    × HoldsTurn (turn_after false 3) (assign {F = ℕ} {J = ℕ} 3 server).0
    × ((assign {F = ℕ} {J = ℕ} 3 server).0.viz_type ≡ server.viz_type)
unfolding file_of
assign-turns_example = assign-turns {F = ℕ} {J = ℕ} 3 false server (refl, refl)

abbrev minute : Minute
minute = record { date = 7; month = 3; hours = 14; minutes = 5 }

abbrev short_answers : Answers
short_answers = record {
  question = "How warm is it?" ∷ [];
  answer = "20" ∷ [];
  userans = "19" ∷ "3" ∷ [];
  iter = "4" ∷ "6" ∷ [];
  resp = "12" ∷ "8" ∷ [];
  correct = [];
  accuracy = [];
  score = [];
}

abbrev no_answers : Answers
no_answers = record short_answers { iter = [] }

-- The margins, and a page that waits for its first answer.
instance abbrev margins : Margins ℕ
margins = record { add_2 = λ a. a + 2; sub_2 = λ a. a - 2 }

abbrev pub waiting : State ℕ
waiting = record {
  iteration = pos 1;
  max_iteration = pos 3;
  x_min = pos 1;
  x_max = pos 3;
  y_min = λ _. none;
  y_max = λ _. none;
  curr_avg_max = 0;
  curr_avg_min = 0;
  segment_arr = [];
  segment_chain = λ _. none;
  done_flag = false;
  pause_iter = pos 0;
  play_iter = pos 0;
  forward_iter = pos 0;
  backward_iter = pos 0;
  seekbar_iter = pos 0;
  seekbar_max = pos 0;
  max_pause = pos 0;
  forward_flag = false;
  back_flag = false;
  play_flag = true;
  pause_flag = false;
  simplay_flag = false;
  reset_flag = false;
  play_noviz = false;
  icon = Icon.pause;
  play_lit = true;
  forward_lit = false;
  back_lit = false;
  seekbar_value = pos 0;
  seekbar_min_attr = pos 1;
  seekbar_max_attr = pos 3;
  current_iter = none;
  snapshot_no = none;
  log = [];
}

abbrev pub whole : Part (Segment ℕ)
whole = record { n = 0; shape = record { b = pos 1; e = pos 3; a = 5 } }

-- The files of new-web-test, of which one is asked for.
abbrev has_file : String → Bool
has_file path = str_eq path "/trendline.html"
