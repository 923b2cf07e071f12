-- ===== src/Server/Charts.antt =====
-- `/getiterativedata1` of app.js: the answer for one iteration, whose form depends on `vizType`.
use inc_visage.Common.{ℤ, pos, eqb_ℤ, Option, none, some, List, if◌then◌else◌}
use inc_visage.Refine.{Part}
use inc_visage.Trend.Segment.{Segment}
use inc_visage.Server.{Server, Addon, Body, Iterative, absent, empty_text, array, iterative}

module _ {F N J : Type 0} where
  -- The cells are read for the first iteration only.
  unfoldable pub cells : Addon F N J → ℤ → N → Option J
  cells addon i n = if eqb_ℤ i (pos 1) then some (addon.get_valid_cells i n) else none

  -- Trendlines come as 1 and 3, heatmaps as 2 and the rest; `sl` splits, `gl` replaces.
  unfoldable pub result : Addon F N J → ℤ → ℤ → N → List (Part (Segment F)) → Iterative F J
  result addon viz_type i n output =
      let y = addon.get_axis_range i n in
      let go = addon.to_continue i n in
      if eqb_ℤ viz_type (pos 1)
      then record {
        valid_cells = none;
        sl = array output;
        gl = absent;
        y = y;
        max = none;
        min = none;
        continued = none;
      }
      else if eqb_ℤ viz_type (pos 2)
      then record {
        valid_cells = cells addon i n;
        sl = array output;
        gl = empty_text;
        y = y;
        max = some y.a_max;
        min = some y.a_min;
        continued = none;
      }
      else if eqb_ℤ viz_type (pos 3)
      then record {
        valid_cells = none;
        sl = empty_text;
        gl = array output;
        y = y;
        max = none;
        min = none;
        continued = some go;
      }
      else record {
        valid_cells = cells addon i n;
        sl = empty_text;
        gl = array output;
        y = y;
        max = some y.a_max;
        min = some y.a_min;
        continued = some go;
      }

  unfoldable pub handle_iterative_1 : Addon F N J → ℤ → Server N → Server N × Option (Body F J)
  handle_iterative_1 addon i s =
      let (n, output) = addon.gen_chart i s.native in
      (record s { native = n }, some (iterative (result addon s.viz_type i n output)))
