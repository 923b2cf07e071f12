-- ===== src/Former.antt =====
-- The former player of the heatmap (new-web-test/js/old_/heatmap/player.js and heatmap.js), which
-- records how each answer changed the array, and undoes the changes to go back: the globals of the
-- scripts, the controls, the timers that wait, and `render`.
pub mod Chains
pub mod Play
pub mod Replay
pub mod Toggle
pub mod Seek
pub mod Step
pub mod Answers
pub mod Alike
mod Examples
use inc_visage.Common.{
  ℤ, Bool, true, false, Option, none, some, List, [], ◌∷◌, inc, dec, ◌-ℤ◌, leb_ℤ, ltb_ℤ, eqb_ℤ,
  if◌then◌else◌,
}
use inc_visage.Js.{Flow, next, thrown, ◌>>=◌, Sparse}
use inc_visage.Refine.{Part}
use inc_visage.Axis.{Label}
use inc_visage.Trend.State.{Viz, graph, snapshot, Icon}
use inc_visage.Heat.{Quad, Cell, Effect, draw}
use inc_visage.Former.Chains.{Replaced, rounds, undo}

-- An element of `segmentArr`, which may be `undefined`.
abbrev pub Shape : Type 0 → Type 0
Shape F = Option (Quad F)

-- The function that a timer calls.
pub data Timer : Type 0 where
  play simulate_play : Timer

pub record FormerPage (F : Type 0) : Type 0 where
  pub iteration : ℤ
  pub iteration_low : ℤ
  pub max_iteration : ℤ
  pub x_min : ℤ
  pub x_max : ℤ
  pub y_min : ℤ
  pub y_max : ℤ
  pub avg_max : Sparse F
  pub avg_min : Sparse F
  pub curr_avg_max : F
  pub curr_avg_min : F
  pub valid_cells : Option (List Cell)
  pub x_tick_list : List Label
  pub y_tick_list : List Label
  pub segment_arr : List (Shape F)
  pub segment_forward_chain : Sparse (List (Part (Shape F)))
  pub segment_backward_chain : Sparse (Replaced (Shape F))
  pub pause_iter : ℤ
  pub play_iter : ℤ
  pub forward_iter : ℤ
  pub backward_iter : ℤ
  pub seekbar_iter : ℤ
  pub seekbar_max : ℤ
  pub max_pause : ℤ
  pub forward_flag : Bool
  pub back_flag : Bool
  pub play_flag : Bool
  pub pause_flag : Bool
  pub simplay_flag : Bool
  pub reset_flag : Bool
  pub play_noviz : Bool
  -- The controls, as on the present pages.
  pub icon : Icon
  pub play_lit : Bool
  pub forward_lit : Bool
  pub back_lit : Bool
  pub seekbar_value : ℤ
  pub seekbar_min_attr : ℤ
  pub seekbar_max_attr : ℤ
  pub current_iter : Option ℤ
  pub snapshot_no : Option ℤ
  -- The timers that wait, and the effects, the last one first.
  pub timers : List Timer
  pub log : List (Effect F)

module _ {F : Type 0} where
  -- The loop over the array draws the shapes up to the first that is `undefined`, where it throws.
  unfoldable pub defined : List (Shape F) → List (Quad F)
  defined [] = []
  defined (none ∷ arr) = []
  defined (some q ∷ arr) = q ∷ defined arr

  unfoldable pub all_defined : List (Shape F) → Bool
  all_defined [] = true
  all_defined (none ∷ arr) = false
  all_defined (some q ∷ arr) = all_defined arr

  -- The captions and the rectangles.
  unfoldable pub draw_shapes : Viz → ℤ → List (Shape F) → FormerPage F → FormerPage F
  unfolding defined
  draw_shapes viz itr arr s = record s {
    current_iter = if leb_ℤ s.iteration_low itr then some (inc (itr -ℤ s.iteration_low)) else none;
    snapshot_no =
        let shown : Option ℤ = some (inc (itr -ℤ s.iteration_low)) in
        elim viz [ graph ↦ s.snapshot_no | snapshot ↦ shown ];
    log = draw viz itr (defined arr) ∷ s.log;
  }

  -- The legend writes both averages, and the loop after it reads the length of `validCells`.
  unfoldable pub legend :
      Option F → Option F → Option (List Cell) → FormerPage F → Flow (FormerPage F)
  legend (some lo) (some hi) (some cells) s = next s
  legend _ _ _ s = thrown s

  -- `render`, which has no use for its last parameter, the estimates.
  unfoldable pub render : Viz → ℤ → List (Shape F) → FormerPage F → Flow (FormerPage F)
  render viz itr arr s =
      let t = draw_shapes viz itr arr s in
      if all_defined arr
      then if leb_ℤ s.iteration_low itr
        then legend (s.avg_min itr) (s.avg_max itr) s.valid_cells t
        else next t
      else thrown t

  -- The iteration whose array `segmentArr` is taken to be, by all handlers but `#save` and the seek
  -- bar on a page that is not paused: before the last iteration the answer is taken to be under way.
  unfoldable pub current_iter_of : FormerPage F → ℤ
  current_iter_of s =
      if eqb_ℤ s.iteration s.max_iteration
      then s.iteration
      else if ltb_ℤ s.iteration s.max_iteration
      then dec s.iteration
      else s.max_iteration

  -- The same in those two handlers.
  unfoldable pub kept_iter_of : FormerPage F → ℤ
  kept_iter_of s = if leb_ℤ s.iteration s.max_iteration then s.iteration else s.max_iteration

  -- The array of iteration `i`, by undoing what came after it from `current` on.
  unfoldable pub rebuild : ℤ → ℤ → FormerPage F → Option (List (Shape F))
  rebuild current i s =
      undo (rounds (current -ℤ i)) current s.segment_backward_chain s.segment_forward_chain
        s.segment_arr

  -- The array is rebuilt, the bar is put to the iteration, and the array is drawn.
  unfoldable pub show : ℤ → Option (List (Shape F)) → FormerPage F → Flow (FormerPage F)
  show i none s = thrown s
  show i (some arr) s = render graph i arr (record s { seekbar_value = i })
