-- ===== src/Trend/Rest/Viewing.antt =====
-- The page at rest, with the recorded iteration at its cursor drawn last, and the moves that keep
-- it so.
pub mod Steps
pub mod Moves
use inc_visage.Common.{
  ℤ, inc, dec, inc_parts, dec_parts, eq_of_parts, ◌≤ℤ◌, ◌<ℤ◌, ltb_ℤ, ◌≡◌, refl, ◌∙◌, ap, false,
  Option, if◌then◌else◌, some, List, ◌∷◌, arith,
}
use inc_visage.Viewer.{Viewer, Move, move}
use inc_visage.Trend.Segment.{Segment, trend}
use inc_visage.Trend.State.{State, Effect, draw, graph, caption}
use inc_visage.Trend.Rest.{IsRest, IsSameRun}

module _ {F : Type 0} where
  -- The graph shows the recording at the cursor, under its number.
  pub record IsShowing (s : State F) : Type 0 where
    pub frame : List (Segment F)
    pub recorded : s.segment_chain s.forward_iter ≡ some frame
    pub before : List (Effect F)
    pub drawn : s.log ≡ draw graph s.forward_iter (trend frame) ∷ before
    pub captioned : s.current_iter ≡ caption s.forward_iter s.x_min
    pub barred : s.seekbar_value ≡ s.forward_iter

  pub record IsViewing (s : State F) : Type 0 where
    pub rest : IsRest s
    pub synced : s.backward_iter ≡ s.forward_iter
    pub lit_back : s.back_lit ≡ ltb_ℤ s.x_min s.forward_iter
    pub dim_forward : s.forward_lit ≡ false → s.iteration ≤ℤ inc s.forward_iter
    pub covered : s.forward_iter ≤ℤ s.seekbar_max
    pub showing : IsShowing s

  -- What the page lets the user see of the recording.
  abbrev pub viewer : State F → Viewer
  viewer s = record {
    low = s.x_min;
    last = dec s.iteration;
    seen = if ltb_ℤ s.x_max s.seekbar_max then s.x_max else s.seekbar_max;
    cursor = s.forward_iter;
  }

  -- What a move leads to: the page goes on viewing the same recording, with the cursor moved.
  pub record IsMoved (s : State F) (m : Move) (t : State F) : Type 0 where
    pub viewing : IsViewing t
    pub same : IsSameRun s t
    pub chain : t.segment_chain ≡ s.segment_chain
    pub moved : viewer t ≡ move m (viewer s)
