-- ===== src/Heat.antt =====
-- The globals of new-web-test/js/heatmap/heatmap.js and heatmap/player.js, and `render` of heatmap.js.
pub mod Play
pub mod Step
pub mod Seek
pub mod Save
pub mod Toggle
pub mod Load
pub mod Rest
pub mod Replayed
pub mod Pause
pub mod Regions
pub mod Rectangles
pub mod Split
pub mod Run
pub mod Examples
use inc_visage.Common.{
  ℤ, Bool, true, false, Option, none, some, List, [], ◌∷◌, inc, ◌-ℤ◌, leb_ℤ, if◌then◌else◌,
}
use inc_visage.Js.{Flow, next, thrown, Sparse}
use inc_visage.Axis.{Label}
use inc_visage.Trend.State.{Viz, graph, snapshot, Icon}

-- `quadObj` of `genCharts`: over its rectangle of cells the average is `a`.
pub record Quad (F : Type 0) : Type 0 where
  pub xb : ℤ
  pub xe : ℤ
  pub yb : ℤ
  pub ye : ℤ
  pub a : F

-- An element of `validCells`.
pub record Cell : Type 0 where
  pub x : ℤ
  pub y : ℤ

-- What leaves the page.
pub data Effect (F : Type 0) : Type 0 where
  draw : Viz → ℤ → List (Quad F) → Effect F
  request : ℤ → Effect F
  reset_data : Effect F

pub record Page (F : Type 0) : Type 0 where
  pub iteration : ℤ
  pub iteration_low : ℤ
  pub max_iteration : ℤ
  pub x_min : ℤ
  pub x_max : ℤ
  pub y_min : ℤ
  pub y_max : ℤ
  pub avg_max : Sparse F
  pub avg_min : Sparse F
  pub curr_avg_max : F
  pub curr_avg_min : F
  pub valid_cells : Option (List Cell)
  pub x_tick_list : List Label
  pub y_tick_list : List Label
  pub segment_arr : List (Quad F)
  pub segment_chain : Sparse (List (Quad F))
  pub pause_iter : ℤ
  pub play_iter : ℤ
  pub forward_iter : ℤ
  pub backward_iter : ℤ
  pub seekbar_iter : ℤ
  pub seekbar_max : ℤ
  pub max_pause : ℤ
  pub forward_flag : Bool
  pub back_flag : Bool
  pub play_flag : Bool
  pub pause_flag : Bool
  pub simplay_flag : Bool
  pub reset_flag : Bool
  pub play_noviz : Bool
  -- The controls, as on the page of the trendline.
  pub icon : Icon
  pub play_lit : Bool
  pub forward_lit : Bool
  pub back_lit : Bool
  pub seekbar_value : ℤ
  pub seekbar_min_attr : ℤ
  pub seekbar_max_attr : ℤ
  pub current_iter : Option ℤ
  pub snapshot_no : Option ℤ
  -- The effects, the last one first.
  pub log : List (Effect F)

module _ {F : Type 0} where
  -- The captions.
  unfoldable pub announce : Viz → ℤ → Page F → Page F
  announce viz itr s = record s {
    current_iter = if leb_ℤ s.iteration_low itr then some (inc (itr -ℤ s.iteration_low)) else none;
    snapshot_no =
        let shown : Option ℤ = some (inc (itr -ℤ s.iteration_low)) in
        elim viz [ graph ↦ s.snapshot_no | snapshot ↦ shown ];
  }

  -- The captions and the rectangles.
  unfoldable pub draw_quads : Viz → ℤ → List (Quad F) → Page F → Page F
  unfolding announce
  draw_quads viz itr quads s =
      let t = announce viz itr s in record t { log = draw viz itr quads ∷ t.log }

  -- The legend writes both averages of the iteration, and the loop after it reads the length of
  -- `validCells`; each of them throws where it is `undefined`.
  unfoldable pub legend : Option F → Option F → Option (List Cell) → Page F → Flow (Page F)
  legend (some lo) (some hi) (some cells) s = next s
  legend _ _ _ s = thrown s

  -- `render` on what may be `undefined`, where reading its length throws.
  unfoldable pub render : Viz → ℤ → Option (List (Quad F)) → Page F → Flow (Page F)
  render viz itr none s = thrown (announce viz itr s)
  render viz itr (some quads) s =
      let t = draw_quads viz itr quads s in
      if leb_ℤ s.iteration_low itr
      then legend (s.avg_min itr) (s.avg_max itr) s.valid_cells t
      else next t
