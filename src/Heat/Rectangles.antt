-- ===== src/Heat/Rectangles.antt =====
-- Where `render` of new-web-test/js/heatmap/heatmap.js puts the rectangle of a quad.
use inc_visage.Common.{
  ℤ, pos, ◌≤ℤ◌, inc, ◌+ℤ◌, ◌-ℤ◌, +ℤ_parts, -ℤ_parts, inc_parts, leb_ℤ, ltb_ℤ, Bool, ◌&&◌, ◌≡◌,
  arith,
}
use inc_visage.Heat.{Page, Quad}
use inc_visage.Heat.Regions.{covers}

-- In units of `gridItemWidth` and `gridItemHeight`, from the upper left corner.
pub record Rect : Type 0 where
  pub x : ℤ
  pub y : ℤ
  pub width : ℤ
  pub height : ℤ

module _ {F : Type 0} where
  unfoldable pub rectangle : Page F → Quad F → Rect
  rectangle s q = record {
    x = q.xb -ℤ s.x_min;
    y = s.y_max -ℤ q.ye;
    width = inc (q.xe -ℤ q.xb);
    height = inc (q.ye -ℤ q.yb);
  }

-- The item in column `c` and row `d` lies in the rectangle.
abbrev pub inside : Rect → ℤ → ℤ → Bool
inside r c d =
    (leb_ℤ r.x c && ltb_ℤ c (r.x +ℤ r.width)) && (ltb_ℤ d (r.y +ℤ r.height) && leb_ℤ r.y d)

starts : (b m x : ℤ) → leb_ℤ (b -ℤ m) (x -ℤ m) ≡ leb_ℤ b x
starts b m x = ground (arith, -ℤ_parts b m, -ℤ_parts x m)

ends : (b e m x : ℤ) → ltb_ℤ (x -ℤ m) ((b -ℤ m) +ℤ inc (e -ℤ b)) ≡ leb_ℤ x e
ends b e m x = ground (
  arith,
  -ℤ_parts b m,
  -ℤ_parts x m,
  -ℤ_parts e b,
  inc_parts (e -ℤ b),
  +ℤ_parts (b -ℤ m) (inc (e -ℤ b)),
)

starts_below : (e m y : ℤ) → leb_ℤ (m -ℤ e) (m -ℤ y) ≡ leb_ℤ y e
starts_below e m y = ground (arith, -ℤ_parts m e, -ℤ_parts m y)

ends_below : (b e m y : ℤ) → ltb_ℤ (m -ℤ y) ((m -ℤ e) +ℤ inc (e -ℤ b)) ≡ leb_ℤ b y
ends_below b e m y = ground (
  arith,
  -ℤ_parts m e,
  -ℤ_parts m y,
  -ℤ_parts e b,
  inc_parts (e -ℤ b),
  +ℤ_parts (m -ℤ e) (inc (e -ℤ b)),
)

-- The rectangle of a quad is drawn over exactly the items of its cells, where the columns count up
-- from `xMin` and the rows down from `yMax`.
pub inside-rectangle :
    {F : Type 0} (s : Page F) (q : Quad F) (x y : ℤ)
    → inside (rectangle s q) (x -ℤ s.x_min) (s.y_max -ℤ y) ≡ covers q x y
unfolding rectangle
inside-rectangle s q x y = rw (
  starts q.xb s.x_min x,
  ends q.xb q.xe s.x_min x,
  starts_below q.ye s.y_max y,
  ends_below q.yb q.ye s.y_max y,
)

-- The quad lies in the range of the axes.
pub record IsOnAxes {F : Type 0} (s : Page F) (q : Quad F) : Type 0 where
  pub left : s.x_min ≤ℤ q.xb
  pub across : q.xb ≤ℤ q.xe
  pub right : q.xe ≤ℤ s.x_max
  pub low : s.y_min ≤ℤ q.yb
  pub upward : q.yb ≤ℤ q.ye
  pub high : q.ye ≤ℤ s.y_max

-- The rectangle lies in a chart of this many columns and rows, and is not empty.
pub record IsInChart (columns rows : ℤ) (r : Rect) : Type 0 where
  pub left : pos 0 ≤ℤ r.x
  pub wide : pos 1 ≤ℤ r.width
  pub right : r.x +ℤ r.width ≤ℤ columns
  pub top : pos 0 ≤ℤ r.y
  pub tall : pos 1 ≤ℤ r.height
  pub bottom : r.y +ℤ r.height ≤ℤ rows

ends_within : (m b e n : ℤ) → e ≤ℤ n → (b -ℤ m) +ℤ inc (e -ℤ b) ≤ℤ inc (n -ℤ m)
ends_within m b e n h = ground (
  arith,
  -ℤ_parts b m,
  -ℤ_parts e b,
  -ℤ_parts n m,
  inc_parts (e -ℤ b),
  inc_parts (n -ℤ m),
  +ℤ_parts (b -ℤ m) (inc (e -ℤ b)),
)

ends_within_below : (m b e n : ℤ) → m ≤ℤ b → (n -ℤ e) +ℤ inc (e -ℤ b) ≤ℤ inc (n -ℤ m)
ends_within_below m b e n h = ground (
  arith,
  -ℤ_parts n e,
  -ℤ_parts e b,
  -ℤ_parts n m,
  inc_parts (e -ℤ b),
  inc_parts (n -ℤ m),
  +ℤ_parts (n -ℤ e) (inc (e -ℤ b)),
)

-- The rectangle of a quad in the range of the axes takes at least one item each way and lies
-- within the `xMax-xMin+1` columns and `yMax-yMin+1` rows that the chart is divided into.
pub rectangle-IsInChart :
    {F : Type 0} (s : Page F) (q : Quad F)
    → IsOnAxes s q
    → IsInChart (inc (s.x_max -ℤ s.x_min)) (inc (s.y_max -ℤ s.y_min)) (rectangle s q)
unfolding rectangle
rectangle-IsInChart s q h = record {
  left = ground (arith, h.left, -ℤ_parts q.xb s.x_min);
  wide = ground (arith, h.across, -ℤ_parts q.xe q.xb, inc_parts (q.xe -ℤ q.xb));
  right = ends_within s.x_min q.xb q.xe s.x_max h.right;
  top = ground (arith, h.high, -ℤ_parts s.y_max q.ye);
  tall = ground (arith, h.upward, -ℤ_parts q.ye q.yb, inc_parts (q.ye -ℤ q.yb));
  bottom = ends_within_below s.y_min q.yb q.ye s.y_max h.low;
}
