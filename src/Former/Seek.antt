-- ===== src/Former/Seek.antt =====
-- The listener of the seek bar of the former heatmap (new-web-test/js/old_/heatmap/player.js).
use inc_visage.Common.{ℤ, Bool, true, false, not, ◌&&◌, ◌||◌, ltb_ℤ, leb_ℤ, eqb_ℤ, if◌then◌else◌}
use inc_visage.Js.{Flow, next, ◌>>=◌}
use inc_visage.Trend.State.{Icon}
use inc_visage.Heat.Seek.{clip}
use inc_visage.Former.{FormerPage, current_iter_of, kept_iter_of, rebuild, show}

module _ {F : Type 0} where
  -- The three buttons, as a block of the listener sets them where its test holds.
  abbrev light_if : Bool → Bool → Bool → Bool → FormerPage F → FormerPage F
  light_if test play forward back s = record s {
    icon = if test then Icon.play else s.icon;
    play_lit = if test then play else s.play_lit;
    forward_lit = if test then forward else s.forward_lit;
    back_lit = if test then back else s.back_lit;
  }

  -- All cursors to where the bar was put, after the flags, which depend on `bound`: `pauseIter` on
  -- a paused page.
  unfoldable pub move_to : ℤ → ℤ → FormerPage F → FormerPage F
  move_to bound i s = record s {
    seekbar_iter = i;
    forward_flag = ltb_ℤ i bound || s.forward_flag;
    back_flag = leb_ℤ i bound && ltb_ℤ s.iteration_low i || s.back_flag;
    forward_iter = i;
    backward_iter = i;
    pause_iter = i;
    play_iter = i;
  }

  -- The four blocks for the buttons, each overriding those before it.
  unfoldable pub paused_buttons : FormerPage F → FormerPage F
  paused_buttons s =
      let i = s.seekbar_iter in
      let t = light_if (ltb_ℤ i s.max_iteration) true true true s in
      let u = light_if (ltb_ℤ i s.max_iteration && ltb_ℤ s.iteration_low i) true true true t in
      let v = light_if (leb_ℤ s.max_iteration i) false false true u in
      light_if (eqb_ℤ i s.iteration_low) true true false v

  unfoldable pub seek_paused : FormerPage F → Flow (FormerPage F)
  seek_paused s =
      if s.pause_flag
      then (do
        let i = if ltb_ℤ s.seekbar_max s.seekbar_iter then s.seekbar_max else s.seekbar_iter
        t ← show i (rebuild (current_iter_of s) i s) (move_to s.pause_iter i s)
        next (paused_buttons t))
      else next s

  -- The branch for no rounds draws `segmentArr` itself, which no rounds leave as it is.
  unfoldable pub seek_stopped : FormerPage F → Flow (FormerPage F)
  seek_stopped s =
      if not s.play_flag && not s.pause_flag
      then (do
        let i = clip s.iteration_low s.max_iteration s.iteration s.seekbar_iter
        t ← show i (rebuild (kept_iter_of s) i s) (move_to s.max_iteration i s)
        next (light_if true true true true t))
      else next s

  -- The two blocks at the end, which run in every case.
  unfoldable pub end_buttons : FormerPage F → FormerPage F
  end_buttons s =
      let t = light_if (eqb_ℤ s.seekbar_iter s.iteration_low) true true false s in
      light_if (leb_ℤ t.max_iteration t.seekbar_iter) false true true t

  -- The step of the bar is 1, so that `Math.ceil` leaves its value `v` alone.
  unfoldable pub seek : ℤ → FormerPage F → Flow (FormerPage F)
  seek v s = do
    t ← seek_paused (record s { seekbar_iter = v; seekbar_value = v })
    u ← seek_stopped t
    next (end_buttons u)
