-- ===== src/Histogram.antt =====
-- The former player of the histogram (new-web-test/js/old_/histogram/player.js and asymptotic.js),
-- which undoes answers to go back, as the former heatmap does, but takes each answer for a split in
-- two: the globals of the scripts, the controls, the timers that wait, and `render`.
-- As in Trend, the page is one whose axes are drawn: `drawAxes` of asymptotic.js too reads `heightWin`,
-- which throws with labels of months or days of the week.
pub mod Play
pub mod Replay
pub mod Toggle
pub mod Seek
pub mod Step
pub mod Recorded
mod Examples
use inc_visage.Common.{
  ℕ, zero, suc, ℤ, pos, negsuc, Bool, true, false, Option, none, some, List, [], ◌∷◌, inc, dec,
  ◌-ℤ◌, leb_ℤ, if◌then◌else◌, length,
}
use inc_visage.Js.{Flow, next, thrown, ◌>>=◌, Sparse}
use inc_visage.Refine.{Part}
use inc_visage.Trend.Segment.{Segment, Point, trend}
use inc_visage.Trend.State.{Viz, graph, snapshot, Icon, caption}
use inc_visage.Former.{Timer}
use inc_visage.Former.Chains.{Replaced, rounds, splice}

-- An element of `segmentArr`, which may be `undefined`.
abbrev pub Bar : Type 0 → Type 0
Bar F = Option (Segment F)

-- An element of `output.gl`: the average `a` at the place `g`.
pub record Estimate (F : Type 0) : Type 0 where
  pub g : ℤ
  pub a : F

-- What leaves the page: the line, the dots of the estimates, and the two requests.
pub data Effect (F : Type 0) : Type 0 where
  draw : Viz → ℤ → List (Point F) → Effect F
  dots : Viz → ℤ → List (Estimate F) → Effect F
  request : ℤ → Effect F
  reset_data : Effect F

-- `estimateArr`, with the gaps that an assignment past its end leaves.
abbrev pub Estimates : Type 0 → Type 0
Estimates F = List (Option (Estimate F))

pub record HistogramPage (F : Type 0) : Type 0 where
  pub iteration : ℤ
  pub max_iteration : ℤ
  pub x_min : ℤ
  pub x_max : ℤ
  pub y_min : Sparse F
  pub y_max : Sparse F
  pub segment_arr : List (Bar F)
  pub estimate_arr : Estimates F
  pub segment_forward_chain : Sparse (List (Part (Bar F)))
  pub segment_backward_chain : Sparse (Replaced (Bar F))
  pub estimate_chain : Sparse (Estimates F)
  pub done_flag : Bool
  pub pause_iter : ℤ
  pub play_iter : ℤ
  pub forward_iter : ℤ
  pub backward_iter : ℤ
  pub seekbar_iter : ℤ
  pub seekbar_max : ℤ
  pub max_pause : ℤ
  pub forward_flag : Bool
  pub back_flag : Bool
  pub play_flag : Bool
  pub pause_flag : Bool
  pub simplay_flag : Bool
  pub reset_flag : Bool
  pub play_noviz : Bool
  -- The controls, as on the present pages, and the button that submits.
  pub icon : Icon
  pub play_lit : Bool
  pub forward_lit : Bool
  pub back_lit : Bool
  pub submit_disabled : Bool
  pub seekbar_value : ℤ
  pub seekbar_min_attr : ℤ
  pub seekbar_max_attr : ℤ
  pub current_iter : Option ℤ
  pub snapshot_no : Option ℤ
  -- The timers that wait, and the effects, the last one first.
  pub timers : List Timer
  pub log : List (Effect F)

module _ {A : Type 0} where
  -- The elements before the first that is `undefined`, where a loop over the array throws.
  unfoldable pub known : List (Option A) → List A
  known [] = []
  known (none ∷ xs) = []
  known (some x ∷ xs) = x ∷ known xs

  unfoldable pub all_known : List (Option A) → Bool
  all_known [] = true
  all_known (none ∷ xs) = false
  all_known (some x ∷ xs) = all_known xs

module _ {F : Type 0} where
  -- `render` up to its loop over the segments: the captions and the range of the seek bar.
  unfoldable pub announce : Viz → ℤ → HistogramPage F → HistogramPage F
  announce viz itr s = record s {
    current_iter = caption itr s.x_min;
    snapshot_no =
        let shown : Option ℤ = some (inc (itr -ℤ s.x_min)) in
        elim viz [ graph ↦ s.snapshot_no | snapshot ↦ shown ];
    seekbar_min_attr = s.x_min;
    seekbar_max_attr = s.x_max;
  }

  -- The dots at the end of `render`; the join with what is `undefined`, and the place of a dot that
  -- is, throw.
  unfoldable pub draw_dots :
      Viz → ℤ → Option (Estimates F) → HistogramPage F → Flow (HistogramPage F)
  draw_dots viz itr none s = thrown s
  draw_dots viz itr (some es) s =
      let t = record s { log = dots viz itr (known es) ∷ s.log } in
      if all_known es then next (record t { done_flag = true }) else thrown t

  -- `render`, whose loop over the segments comes before the line.
  unfoldable pub render :
      Viz → ℤ → List (Bar F) → Option (Estimates F) → HistogramPage F → Flow (HistogramPage F)
  render viz itr arr es s =
      let t = announce viz itr s in
      if all_known arr
      then draw_dots viz itr es (record t { log = draw viz itr (trend (known arr)) ∷ t.log })
      else thrown t

  -- The body of the loop that goes back: two segments are replaced by the one that they split.
  unfoldable pub put_back : Option (Replaced (Bar F)) → List (Bar F) → Option (List (Bar F))
  put_back none arr = none
  put_back (some r) arr = some (splice arr r.n 2 r.s)

  -- The loop from `i` down, for `k` rounds; `none` where it throws.
  unfoldable pub undo_two : ℕ → ℤ → Sparse (Replaced (Bar F)) → List (Bar F) → Option (List (Bar F))
  undo_two zero i back arr = some arr
  undo_two (suc k) i back arr = elim (put_back (back i) arr) [
    | none ↦ none
    | some a ↦ undo_two k (dec i) back a
  ]

  -- The iteration whose array `segmentArr` is taken to be: by the seek bar on a page that is paused,
  -- `#forward` and `#back` as many as it has segments.
  unfoldable pub counted_iter_of : HistogramPage F → ℤ
  counted_iter_of s = pos (length s.segment_arr)

  -- The same by `#save` and by the seek bar on a page that is not paused.
  unfoldable pub kept_iter_of : HistogramPage F → ℤ
  kept_iter_of s = if leb_ℤ s.iteration s.x_max then s.iteration else s.x_max

  -- The array of iteration `i`, by undoing what came after it from `current` on.
  unfoldable pub rebuild : ℤ → ℤ → HistogramPage F → Option (List (Bar F))
  rebuild current i s =
      undo_two (rounds (current -ℤ i)) current s.segment_backward_chain s.segment_arr

  -- The bar is put to the iteration, and the array that was rebuilt is drawn with its estimates.
  unfoldable pub show : ℤ → Option (List (Bar F)) → HistogramPage F → Flow (HistogramPage F)
  show i none s = thrown s
  show i (some arr) s = render graph i arr (s.estimate_chain i) (record s { seekbar_value = i })
