-- ===== src/Base/Examples.antt =====
-- A trendline that waits for its second answer, a heatmap that waits for the last one, and the
-- theorems about the players of whole answers at them.
use inc_visage.Common.{
  ℕ, pos, ◌+ℤ◌, true, false, none, some, [], ◌∷◌, ◌++◌, length, ◌≡◌, refl, arith,
}
use inc_visage.Js.{next, thrown}
use inc_visage.Trend.Examples.{numbers, part}
use inc_visage.Trend.Examples.Handlers.{live}
use inc_visage.Heat.Examples.{page, ranges}
use inc_visage.Base.Trend.{BasePage, BaseOutput}
use inc_visage.Base.Trend.Run.{IsWaiting}
use inc_visage.Base.Trend.Run.Over.{
  IsOver, HasMore, IsLast, answer_all_base, answer_all_base-IsOver,
}
use inc_visage.Base.Heat.{BaseMap, MapOutput, gen_charts_base}
use inc_visage.Base.Heat.Handlers.{seek_base}
use inc_visage.Base.Heat.End.{last_answer_then_seek}

abbrev waiting : BasePage ℕ
waiting = record { state = live; timers = [] }

is_waiting : IsWaiting waiting
is_waiting = record {
  no_reset = refl;
  playing = refl;
  no_pause = refl;
  no_replay = refl;
  no_forward = refl;
  draws = refl;
  no_timer = refl;
}

abbrev answer : ℕ → BaseOutput ℕ
answer c = record {
  continued = pos c;
  gl = some (part 0 1 1 9 ∷ part 1 2 3 4 ∷ []);
  y = record { x_min = pos 1; x_max = pos 3; a_min = 4; a_max = 9 };
}

has_more : HasMore (answer 1)
has_more = record { gl = part 0 1 1 9 ∷ part 1 2 3 4 ∷ []; whole = refl; goes_on = refl }

is_last : IsLast (answer 0)
is_last = record { gl = part 0 1 1 9 ∷ part 1 2 3 4 ∷ []; whole = refl; over = refl }

answer_all_base-IsOver_example :
    (t : BasePage ℕ) × (answer_all_base true ((answer 1 ∷ []) ++ answer 0 ∷ []) waiting ≡ next t)
    × IsOver waiting.state.iteration (length (answer 1 ∷ [])) waiting t
unfolding ◌+ℤ◌
answer_all_base-IsOver_example =
    answer_all_base-IsOver true (answer 1 ∷ []) (answer 0) waiting is_waiting (has_more, tt) is_last
      (omega arith) (omega arith)

abbrev playing : BaseMap ℕ
playing = record { page = record page { iteration = pos 2 }; is_continue = pos 1 }

abbrev last : MapOutput ℕ
last = record { continued = pos 0; valid_cells = none; gl = []; y = ranges; max = 9; min = 1 }

last_answer_then_seek_example :
    (t : BaseMap ℕ) × (u : BaseMap ℕ) × (gen_charts_base "Month" "Month" last playing ≡ next t)
    × (t.page.play_flag ≡ false)
    × (t.page.max_iteration ≡ playing.page.iteration)
    × (t.page.log ≡ playing.page.log)
    × (seek_base playing.page.iteration t ≡ thrown u)
last_answer_then_seek_example =
    last_answer_then_seek "Month" "Month" last playing
      (record { no_reset = refl; playing = refl; no_pause = refl; no_replay = refl }) refl
      (omega arith) refl
