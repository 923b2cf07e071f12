-- ===== src/Histogram/Seek.antt =====
-- The listener of the seek bar of the former histogram (new-web-test/js/old_/histogram/player.js).
use inc_visage.Common.{
  ℤ, Bool, true, false, not, ◌&&◌, ◌||◌, some, ltb_ℤ, leb_ℤ, eqb_ℤ, if◌then◌else◌,
}
use inc_visage.Js.{Flow, next, ◌>>=◌}
use inc_visage.Trend.State.{Icon, graph}
use inc_visage.Heat.Seek.{clip}
use inc_visage.Histogram.{HistogramPage, counted_iter_of, kept_iter_of, rebuild, show, render}

module _ {F : Type 0} where
  -- The three buttons, as a block of the listener sets them where its test holds.
  abbrev light_if : Bool → Bool → Bool → Bool → HistogramPage F → HistogramPage F
  light_if test play forward back s = record s {
    icon = if test then Icon.play else s.icon;
    play_lit = if test then play else s.play_lit;
    forward_lit = if test then forward else s.forward_lit;
    back_lit = if test then back else s.back_lit;
  }

  -- All cursors to where the bar was put, after the flags, which depend on `xMax` on any page.
  unfoldable pub move_to : ℤ → HistogramPage F → HistogramPage F
  move_to i s = record s {
    seekbar_iter = i;
    forward_flag = ltb_ℤ i s.x_max || s.forward_flag;
    back_flag = leb_ℤ i s.x_max && ltb_ℤ s.x_min i || s.back_flag;
    forward_iter = i;
    backward_iter = i;
    pause_iter = i;
    play_iter = i;
  }

  -- The four blocks for the buttons, each overriding those before it.
  unfoldable pub paused_buttons : HistogramPage F → HistogramPage F
  paused_buttons s =
      let i = s.seekbar_iter in
      let t = light_if (ltb_ℤ i s.x_max) true true true s in
      let u = light_if (ltb_ℤ i s.x_max && ltb_ℤ s.x_min i) true true true t in
      let v = light_if (leb_ℤ s.x_max i) false false true u in
      light_if (eqb_ℤ i s.x_min) true true false v

  unfoldable pub seek_paused : HistogramPage F → Flow (HistogramPage F)
  seek_paused s =
      if s.pause_flag
      then (do
        let i = if ltb_ℤ s.seekbar_max s.seekbar_iter then s.seekbar_max else s.seekbar_iter
        t ← show i (rebuild (counted_iter_of s) i s) (move_to i s)
        next (paused_buttons t))
      else next s

  -- For no rounds the estimates are those that came last, else those kept for the iteration.
  unfoldable pub show_stopped : ℤ → HistogramPage F → Flow (HistogramPage F)
  show_stopped i s =
      if eqb_ℤ (kept_iter_of s) i
      then render graph i s.segment_arr (some s.estimate_arr) (record s { seekbar_value = i })
      else show i (rebuild (kept_iter_of s) i s) s

  unfoldable pub seek_stopped : HistogramPage F → Flow (HistogramPage F)
  seek_stopped s =
      if not s.play_flag && not s.pause_flag
      then (do
        let i = clip s.x_min s.x_max s.iteration s.seekbar_iter
        t ← show_stopped i (move_to i s)
        next (light_if true true true true t))
      else next s

  -- The two blocks at the end, which run in every case.
  unfoldable pub end_buttons : HistogramPage F → HistogramPage F
  end_buttons s =
      let t = light_if (eqb_ℤ s.seekbar_iter s.x_min) true true false s in
      light_if (leb_ℤ t.x_max t.seekbar_iter) false true true t

  -- The step of the bar is 1, so that `Math.ceil` leaves its value `v` alone.
  unfoldable pub seek : ℤ → HistogramPage F → Flow (HistogramPage F)
  seek v s = do
    t ← seek_paused (record s { seekbar_iter = v; seekbar_value = v })
    u ← seek_stopped t
    next (end_buttons u)
