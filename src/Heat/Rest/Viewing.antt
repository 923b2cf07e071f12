-- ===== src/Heat/Rest/Viewing.antt =====
-- The page at rest, with the recorded iteration at its cursor drawn last, and the moves that keep
-- it so.
pub mod Steps
pub mod Moves
use inc_visage.Common.{
  leb_ℤ, ◌-ℤ◌, none, ℤ, inc, dec, inc_parts, dec_parts, eq_of_parts, ◌≤ℤ◌, ◌<ℤ◌, ltb_ℤ, ◌≡◌, refl,
  ◌∙◌, ap, false, Option, if◌then◌else◌, some, List, ◌∷◌, arith,
}
use inc_visage.Viewer.{Viewer, Move, move}
use inc_visage.Trend.State.{graph}
use inc_visage.Heat.{Page, Quad, Effect, draw}
use inc_visage.Heat.Rest.{IsRest, IsSameRun, Seen}

-- The number of an iteration in its caption.
abbrev pub number : ℤ → ℤ → Option ℤ
number itr low = if leb_ℤ low itr then some (inc (itr -ℤ low)) else none

module _ {F : Type 0} where
  -- The graph shows the recording at the cursor, under its number.
  pub record IsShowing (s : Page F) : Type 0 where
    pub frame : List (Quad F)
    pub recorded : Seen s s.forward_iter frame
    pub before : List (Effect F)
    pub drawn : s.log ≡ draw graph s.forward_iter frame ∷ before
    pub captioned : s.current_iter ≡ number s.forward_iter s.iteration_low
    pub barred : s.seekbar_value ≡ s.forward_iter

  pub record IsViewing (s : Page F) : Type 0 where
    pub rest : IsRest s
    pub synced : s.backward_iter ≡ s.forward_iter
    pub lit_back : s.back_lit ≡ ltb_ℤ s.iteration_low s.forward_iter
    pub dim_forward : s.forward_lit ≡ false → s.iteration ≤ℤ inc s.forward_iter
    pub covered : s.forward_iter ≤ℤ s.seekbar_max
    pub showing : IsShowing s

  -- What the page lets the user see of the recording.
  abbrev pub viewer : Page F → Viewer
  viewer s = record {
    low = s.iteration_low;
    last = dec s.iteration;
    seen = if ltb_ℤ s.max_iteration s.seekbar_max then s.max_iteration else s.seekbar_max;
    cursor = s.forward_iter;
  }

  -- What a move leads to: the page goes on viewing the same recording, with the cursor moved.
  pub record IsMoved (s : Page F) (m : Move) (t : Page F) : Type 0 where
    pub viewing : IsViewing t
    pub same : IsSameRun s t
    pub chain : t.segment_chain ≡ s.segment_chain
    pub moved : viewer t ≡ move m (viewer s)
