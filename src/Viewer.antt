-- ===== src/Viewer.antt =====
-- What the two players promise of a recording, apart from their state: a cursor that "forward",
-- "back" and the seek bar move over the recorded iterations.
pub mod Laws
use inc_visage.Common.{ℤ, inc, dec, ltb_ℤ, if◌then◌else◌, List, [], ◌∷◌}

pub data Move : Type 0 where
  forward back : Move
  to : ℤ → Move

-- `low` and `last` bound the recorded iterations, `seen` is the last one the bar can be put to.
pub record Viewer : Type 0 where
  pub low : ℤ
  pub last : ℤ
  pub seen : ℤ
  pub cursor : ℤ

abbrev pub at : Viewer → ℤ → Viewer
at v i = record v { cursor = i }

abbrev pub advance : Viewer → Viewer
advance v = record v {
  seen = if ltb_ℤ v.seen (inc v.cursor) then inc v.cursor else v.seen;
  cursor = inc v.cursor;
}

unfoldable pub move : Move → Viewer → Viewer
move forward v = if ltb_ℤ v.cursor v.last then advance v else v
move back v = if ltb_ℤ v.low v.cursor then at v (dec v.cursor) else v
move (to i) v = at v (if ltb_ℤ v.seen i then v.seen else i)

unfoldable pub move_all : List Move → Viewer → Viewer
move_all [] v = v
move_all (m ∷ ms) v = move_all ms (move m v)
