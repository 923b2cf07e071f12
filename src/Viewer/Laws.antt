-- ===== src/Viewer/Laws.antt =====
-- The laws of the cursor.
use inc_visage.Common.{
  inc, inc_parts, dec-inc, ◌≤ℤ◌, ◌<ℤ◌, ltb_ℤ, ◌≡◌, ◌∙◌, ap, if_of_true, [], ◌∷◌, arith,
}
use inc_visage.Viewer.{Viewer, forward, back, at, advance, move, move_all}

-- The cursor lies between the first and the last recorded iteration.
abbrev pub IsWithin : Viewer → Type 0
IsWithin v = (v.low ≤ℤ v.cursor) × (v.cursor ≤ℤ v.last)

-- A step forward is taken back by a step back, up to what the bar can reach.
pub forward_then_back :
    (v : Viewer)
    → IsWithin v
    → v.cursor <ℤ v.last
    → move_all (forward ∷ back ∷ []) v ≡ at (advance v) v.cursor
unfolding move_all move
forward_then_back v w lt =
    ap (move back) (if_of_true (ltb_ℤ v.cursor v.last) _ _ (ground arith))
    ∙ (if_of_true (ltb_ℤ v.low (inc v.cursor)) _ _ (ground (arith, w.0, inc_parts v.cursor))
        ∙ ap (at (advance v)) (dec-inc v.cursor))
