-- ===== src/Trend/Segment.antt =====
-- The segments of a trendline, and the line that `render` draws through them.
use inc_visage.Common.{ℤ, List, [], ◌∷◌, Option, none, some, leb_ℤ, ◌&&◌, if◌then◌else◌}

-- `segObj` of `genCharts`: from `b` to `e` the average is `a`. The averages are floats, of which
-- the page only needs the operations that `Play` takes.
pub record Segment (F : Type 0) : Type 0 where
  pub b : ℤ
  pub e : ℤ
  pub a : F

-- A corner of the line.
pub record Point (F : Type 0) : Type 0 where
  pub start : ℤ
  pub average : F

module _ {F : Type 0} where
  -- The loop of `render` that fills `trend`.
  unfoldable pub trend : List (Segment F) → List (Point F)
  trend [] = []
  trend (s ∷ ss) =
      record { start = s.b; average = s.a } ∷ record { start = s.e; average = s.a } ∷ trend ss

  -- The step function that an array of segments stands for.
  unfoldable pub value_at : List (Segment F) → ℤ → Option F
  value_at [] x = none
  value_at (s ∷ ss) x = if leb_ℤ s.b x && leb_ℤ x s.e then some s.a else value_at ss x
