-- ===== src/Trend/Load.antt =====
-- `processAxesData` and `resetOnLoad` of new-web-test/js/trendline/trendline.js: the page takes the range and the
-- labels of a new query, and starts over.
use Prim.Native.String.{String}
use inc_visage.Common.{
  ℕ, suc, ℤ, pos, dec, ◌+ℤ◌, ◌≤ℤ◌, ◌<ℤ◌, get_elem?, none, some, List, [], ◌∷◌, ◌++◌, All, length,
  ◌≡◌, refl, true, false, Bool, arith,
}
use inc_visage.Js.{next, ◌>>=◌}
use inc_visage.Axis.{Label, label, tick_list, get_elem?-tick_list}
use inc_visage.Trend.State.{State, Icon, reset_data, graph, draw_segments, announce}
use inc_visage.Trend.Play.{Margins, Output}
use inc_visage.Trend.Toggle.{click_play}
use inc_visage.Trend.Live.{IsFinished, requested, drawn, history}
use inc_visage.Trend.Live.Answered.{IsAnswer, answer_all}
use inc_visage.Trend.Live.Start.{IsReady, play_to_end}

-- The answer of the server to `/getaxesdata`.
pub record Axes : Type 0 where
  pub x_min : ℤ
  pub x_max : ℤ

-- The page with `xTickList`.
pub record Loaded (F : Type 0) : Type 0 where
  pub page : State F
  pub x_tick_list : List Label

module _ {F : Type 0} where
  -- The page before `resetOnLoad` draws: as `reset`, but for `resetFlag` and `doneFlag`.
  abbrev pub cleared_on_load : State F → State F
  cleared_on_load s =
      let low = dec s.x_min in
      record s {
        log = reset_data ∷ s.log;
        seekbar_max = low;
        seekbar_iter = low;
        max_iteration = s.x_max;
        pause_iter = low;
        play_iter = low;
        forward_flag = false;
        backward_iter = low;
        play_noviz = false;
        pause_flag = false;
        play_flag = false;
        simplay_flag = false;
        reset_flag = false;
        back_flag = false;
        icon = Icon.play;
        play_lit = true;
        forward_lit = false;
        back_lit = false;
        iteration = low;
        seekbar_value = low;
        segment_arr = [];
      }

  -- Other than `reset` it leaves the caption of the snapshot.
  unfoldable pub reset_on_load : State F → State F
  unfolding draw_segments
  reset_on_load s = record (draw_segments graph (dec s.x_min) [] (cleared_on_load s)) {
    done_flag = false;
  }

  -- The page before `resetOnLoad` is called.
  abbrev pub enabled : Axes → State F → State F
  enabled axes s = record s {
    x_min = axes.x_min;
    x_max = axes.x_max;
    icon = Icon.play;
    play_lit = true;
    forward_lit = false;
    back_lit = false;
  }

  -- The labels are read at `i` itself, by the name of the dimension. On a page where `drawAxes`
  -- does not throw; for the others see Page.
  unfoldable pub process_axes_data : String → Axes → State F → Loaded F
  process_axes_data dimension axes s = record {
    x_tick_list = tick_list (λ i. label dimension i i) axes.x_min axes.x_max;
    page = reset_on_load (enabled axes s);
  }

  loaded-IsReady :
      (dimension : String) (axes : Axes) (s : State F)
      → IsReady (process_axes_data dimension axes s).page
  unfolding process_axes_data reset_on_load draw_segments announce
  loaded-IsReady dimension axes s = ground arith

  -- What a new query leaves on any page, in the middle of a run too: the label of each number of
  -- the range at its place and no other, the range, a page ready to play that is not being reset,
  -- and no request for an iteration.
  pub process_axes_data_lem :
      (dimension : String) (axes : Axes) (s : State F)
      → (let t = process_axes_data dimension axes s in
          IsReady t.page
          × (t.page.x_min ≡ axes.x_min)
          × (t.page.x_max ≡ axes.x_max)
          × (t.page.reset_flag ≡ false)
          × (requested t.page.log ≡ requested s.log)
          × ((j : ℕ)
              → (axes.x_min +ℤ pos j ≤ℤ axes.x_max
                  → get_elem? t.x_tick_list j
                    ≡ some (label dimension (axes.x_min +ℤ pos j) (axes.x_min +ℤ pos j)))
                × (axes.x_max <ℤ axes.x_min +ℤ pos j → get_elem? t.x_tick_list j ≡ none)))
  unfolding process_axes_data reset_on_load draw_segments announce
  process_axes_data_lem dimension axes s = (
    loaded-IsReady dimension axes s,
    refl,
    refl,
    refl,
    refl,
    get_elem?-tick_list (λ i. label dimension i i) axes.x_min axes.x_max,
  )

  -- A new query on any page, a click on "play" and one answer with parts for each iteration of its
  -- range: no exception, these iterations asked for and drawn, once each and in order, and the end.
  pub load_then_play :
      ⦃m : Margins F⦄
      → (n : ℕ) (b : Bool) (os : List (Output F)) (dimension : String) (axes : Axes) (s : State F)
      → All (IsAnswer axes.x_min axes.x_max) os
      → length os ≡ suc n
      → axes.x_min +ℤ pos n ≡ axes.x_max
      → (t : State F) × ((click_play (process_axes_data dimension axes s).page >>= answer_all b os)
          ≡ next t)
        × IsFinished t
        × (requested t.log ≡ history axes.x_min (suc n) ++ requested s.log)
        × (drawn t.log ≡ history axes.x_min (suc n) ++ dec axes.x_min ∷ drawn s.log)
  unfolding process_axes_data reset_on_load draw_segments announce
  load_then_play n b os dimension axes s a l e =
      let (t, run, fin, _, asked, shown, _) =
        play_to_end n b os (process_axes_data dimension axes s).page
          (loaded-IsReady dimension axes s) a l e in
      (t, run, fin, asked, shown)
