-- ===== src/Trend/Page.antt =====
-- The whole trendline page: the state of player.js with the dimension and the labels of the x axis
-- (new-web-test/js/trendline/trendline.js), on which it depends whether `drawAxes` throws.
pub mod Plain
pub mod Runs
pub mod Queries
pub mod Moves
pub mod Throws
use Prim.Native.String.{String}
use text.Mathlib.Text.{◌==◌ as str_eq}
use inc_visage.Common.{Bool, true, false, ◌&&◌, ◌||◌, dec, if◌then◌else◌, List, [], ◌∷◌}
use inc_visage.Js.{Flow, next, thrown, diverged, ◌>>=◌}
use inc_visage.Axis.{Label, label, tick_list}
use inc_visage.Trend.State.{State}
use inc_visage.Trend.Play.{Margins, Output, gen_charts}
use inc_visage.Trend.Toggle.{click_play, click_repeat}
use inc_visage.Trend.Step.{click_forward, click_back}
use inc_visage.Trend.Seek.{seek}
use inc_visage.Trend.Save.{click_save}
use inc_visage.Trend.Load.{Axes, process_axes_data, enabled, cleared_on_load}
use inc_visage.Trend.Labelled.{
  render_labelled, gen_charts_labelled, click_play_labelled, click_repeat_labelled,
  click_forward_labelled, click_back_labelled, seek_labelled, click_save_labelled,
}
use inc_visage.Viewer.{Move, forward, back, to}

pub record Page (F : Type 0) : Type 0 where
  pub dimension : String
  pub x_tick_list : List Label
  pub state : State F

-- The two dimensions whose labels `drawAxes` writes itself.
unfoldable pub is_labelled : String → Bool
is_labelled dimension = str_eq dimension "Month" || str_eq dimension "Day Of Week"

unfoldable pub has_any {ℓ} : {A : Type ℓ} → List A → Bool
has_any [] = false
has_any (x ∷ xs) = true

module _ {F : Type 0} where
  -- Whether the loop of `drawAxes` over the labels is entered, whose first round throws.
  unfoldable pub throws_axes : Page F → Bool
  throws_axes p = is_labelled p.dimension && has_any p.x_tick_list

  -- A handler, which leaves the dimension and the labels.
  abbrev pub on_state : Page F → Flow (State F) → Flow (Page F)
  on_state p (next t) = next (record p { state = t })
  on_state p (thrown t) = thrown (record p { state = t })
  on_state p diverged = diverged

  -- One handler where the axes are drawn, and the other where they throw.
  unfoldable pub run_on :
      (State F → Flow (State F)) → (State F → Flow (State F)) → Page F → Flow (Page F)
  run_on drawn labelled p = on_state p (if throws_axes p then labelled p.state else drawn p.state)

  unfoldable pub click_play_page : Page F → Flow (Page F)
  click_play_page p = run_on click_play click_play_labelled p

  unfoldable pub click_repeat_page : Page F → Flow (Page F)
  click_repeat_page p = run_on (λ s. next (click_repeat s)) click_repeat_labelled p

  unfoldable pub click_save_page : Page F → Flow (Page F)
  click_save_page p = run_on click_save click_save_labelled p

  -- "forward", "back" and the seek bar.
  unfoldable pub move_page : Move → Page F → Flow (Page F)
  move_page forward p = run_on click_forward click_forward_labelled p
  move_page back p = run_on click_back click_back_labelled p
  move_page (to v) p = run_on (seek v) (seek_labelled v) p

  unfoldable pub move_all_page : List Move → Page F → Flow (Page F)
  move_all_page [] p = next p
  move_all_page (m ∷ ms) p = move_page m p >>= move_all_page ms

  unfoldable pub gen_charts_page : ⦃m : Margins F⦄ → Bool → Output F → Page F → Flow (Page F)
  gen_charts_page b o p = run_on (gen_charts b o) (gen_charts_labelled b o) p

  unfoldable pub answer_all_page : ⦃m : Margins F⦄ → Bool → List (Output F) → Page F → Flow (Page F)
  answer_all_page b [] p = next p
  answer_all_page b (o ∷ os) p = gen_charts_page b o p >>= answer_all_page b os

  -- `processAxesData`, with the drawing at the end of `resetOnLoad`: with the new labels.
  unfoldable pub process_axes_data_page : Axes → Page F → Flow (Page F)
  process_axes_data_page axes p =
      let loaded = process_axes_data p.dimension axes p.state in
      let q = record p { x_tick_list = loaded.x_tick_list } in
      let t = enabled axes p.state in
      on_state q (
        if throws_axes q
        then render_labelled (dec t.x_min) (cleared_on_load t)
        else next loaded.page)
