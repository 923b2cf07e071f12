-- ===== src/Trend/State.antt =====
-- The globals of trendline.js and player.js, the controls of trendline.html that the scripts write,
-- and the effects that leave the page.
use inc_visage.Common.{
  ℤ, Bool, true, false, Option, none, some, List, [], ◌∷◌, dec, inc, ◌-ℤ◌, leb_ℤ, if◌then◌else◌,
}
use inc_visage.Js.{Flow, next, thrown, Sparse}
use inc_visage.Trend.Segment.{Segment, Point, trend}

-- The two drawing areas.
pub data Viz : Type 0 where
  graph snapshot : Viz

-- The id, and with it the class, of the play button: `glyphicon-play` or `glyphicon-pause`.
pub data Icon : Type 0 where
  play pause : Icon

-- What leaves the page: a line drawn for an iteration, a request for one, a request to reset.
pub data Effect (F : Type 0) : Type 0 where
  draw : Viz → ℤ → List (Point F) → Effect F
  request : ℤ → Effect F
  reset_data : Effect F

pub record State (F : Type 0) : Type 0 where
  pub iteration : ℤ
  pub max_iteration : ℤ
  pub x_min : ℤ
  pub x_max : ℤ
  pub y_min : Sparse F
  pub y_max : Sparse F
  pub curr_avg_max : F
  pub curr_avg_min : F
  pub segment_arr : List (Segment F)
  pub segment_chain : Sparse (List (Segment F))
  pub done_flag : Bool
  pub pause_iter : ℤ
  pub play_iter : ℤ
  pub forward_iter : ℤ
  pub backward_iter : ℤ
  pub seekbar_iter : ℤ
  pub seekbar_max : ℤ
  pub max_pause : ℤ
  pub forward_flag : Bool
  pub back_flag : Bool
  pub play_flag : Bool
  pub pause_flag : Bool
  pub simplay_flag : Bool
  pub reset_flag : Bool
  pub play_noviz : Bool
  -- The controls. A button is lit at opacity 1, where it can be clicked, and dim at 0.1.
  pub icon : Icon
  pub play_lit : Bool
  pub forward_lit : Bool
  pub back_lit : Bool
  pub seekbar_value : ℤ
  pub seekbar_min_attr : ℤ
  pub seekbar_max_attr : ℤ
  -- The number after "Iteration " in the two captions.
  pub current_iter : Option ℤ
  pub snapshot_no : Option ℤ
  -- The effects, the last one first.
  pub log : List (Effect F)

-- The number of an iteration counted from 1, blank below the first one.
unfoldable pub caption : ℤ → ℤ → Option ℤ
caption itr x_min = if leb_ℤ x_min itr then some (inc (itr -ℤ x_min)) else none

module _ {F : Type 0} where
  -- The block that turns the play button back from "pause" to "play" and sets its opacity. The
  -- button has one of the two ids, so that both branches of the block end like this.
  abbrev pub show_play : Bool → State F → State F
  show_play lit s = record s { icon = play; play_lit = lit }

  -- `render` up to its loop over the segments: the captions and the range of the seek bar.
  unfoldable pub announce : Viz → ℤ → State F → State F
  unfolding caption
  announce viz itr s = record s {
    current_iter = caption itr s.x_min;
    snapshot_no =
        let shown : Option ℤ = some (inc (itr -ℤ s.x_min)) in
        elim viz [ graph ↦ s.snapshot_no | snapshot ↦ shown ];
    seekbar_min_attr = s.x_min;
    seekbar_max_attr = s.x_max;
  }

  -- `render` on an array, on a page where `drawAxes` does not throw; for the others see Labelled.
  unfoldable pub draw_segments : Viz → ℤ → List (Segment F) → State F → State F
  unfolding announce
  draw_segments viz itr segments s =
      let s' = announce viz itr s in
      record s' { done_flag = true; log = draw viz itr (trend segments) ∷ s'.log }

  -- `render` on what may be `undefined`, where reading its length throws.
  unfoldable pub render : Viz → ℤ → Option (List (Segment F)) → State F → Flow (State F)
  unfolding draw_segments announce
  render viz itr none s = thrown (announce viz itr s)
  render viz itr (some segments) s = next (draw_segments viz itr segments s)

  -- The page before `reset` draws. Its line `orwardIter = xMin-1` leaves `forwardIter` alone.
  abbrev pub cleared : State F → State F
  cleared s =
      let low = dec s.x_min in
      record s {
        log = reset_data ∷ s.log;
        seekbar_max = low;
        seekbar_iter = low;
        max_iteration = s.x_max;
        pause_iter = low;
        play_iter = low;
        forward_flag = false;
        backward_iter = low;
        play_noviz = false;
        pause_flag = false;
        play_flag = false;
        simplay_flag = false;
        back_flag = false;
        done_flag = false;
        icon = play;
        play_lit = true;
        forward_lit = false;
        back_lit = false;
        iteration = low;
        seekbar_value = low;
        segment_arr = [];
      }

  unfoldable pub reset : State F → State F
  unfolding draw_segments
  reset s = record (draw_segments graph (dec s.x_min) [] (cleared s)) { snapshot_no = none }
