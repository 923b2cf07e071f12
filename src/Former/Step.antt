-- ===== src/Former/Step.antt =====
-- The handlers of `#forward` and `#back` of the former heatmap
-- (new-web-test/js/old_/heatmap/player.js).
use inc_visage.Common.{
  ◌∷◌, [], true, false, not, ◌&&◌, ◌||◌, Option, none, some, inc, dec, ltb_ℤ, leb_ℤ, eqb_ℤ,
  if◌then◌else◌,
}
use inc_visage.Js.{Flow, next, thrown, ◌>>=◌}
use inc_visage.Trend.State.{Icon, graph}
use inc_visage.Heat.{request}
use inc_visage.Former.{FormerPage, Shape, current_iter_of, rebuild, show, render}
use inc_visage.Former.Chains.{Replaced}

module _ {F : Type 0} where
  -- No element has the id "play" while the button shows "pause", and the assignment to its style
  -- throws.
  unfoldable pub light_play : Icon → FormerPage F → Flow (FormerPage F)
  light_play Icon.play s = next (record s { play_lit = true; back_lit = true })
  light_play Icon.pause s = thrown s

  -- Before the first iteration the handler asks for it, and returns.
  unfoldable pub forward_first : FormerPage F → Flow (FormerPage F)
  forward_first s = do
    t ← light_play s.icon (record s {
      forward_flag = true;
      iteration = inc s.iteration;
      forward_iter = inc s.iteration;
    })
    next (record t { log = request t.iteration ∷ t.log })

  -- Before the last iteration the array is rebuilt; at the last one it is drawn as it is.
  unfoldable pub draw_forward : FormerPage F → Flow (FormerPage F)
  draw_forward s =
      if ltb_ℤ s.forward_iter s.max_iteration
      then show s.forward_iter (rebuild (current_iter_of s) s.forward_iter s) s
      else if eqb_ℤ s.forward_iter s.max_iteration
      then show s.forward_iter (some s.segment_arr) s
      else next s

  unfoldable pub set_cursors : FormerPage F → FormerPage F
  set_cursors s =
      let i = if ltb_ℤ s.max_iteration s.forward_iter then s.max_iteration else s.forward_iter in
      record s { forward_iter = i; backward_iter = i; play_iter = i; pause_iter = i }

  unfoldable pub step_forward : FormerPage F → FormerPage F
  step_forward s =
      let i = inc s.forward_iter in
      record s {
        back_flag = true;
        forward_iter = i;
        seekbar_max = if ltb_ℤ s.seekbar_max i then i else s.seekbar_max;
      }

  unfoldable pub forward_move : FormerPage F → Flow (FormerPage F)
  forward_move s =
      if s.forward_flag && not s.play_flag
      then (do t ← draw_forward (step_forward s); next (set_cursors t))
      else next s

  -- The buttons after a step forward.
  unfoldable pub forward_buttons : FormerPage F → FormerPage F
  forward_buttons s = record s {
    forward_flag = s.forward_flag || (ltb_ℤ s.iteration s.max_iteration && s.back_flag);
    icon = Icon.play;
    play_lit = ltb_ℤ s.forward_iter s.max_iteration;
    forward_lit = ltb_ℤ s.forward_iter s.max_iteration && s.forward_lit;
    back_lit = true;
  }

  unfoldable pub click_forward : FormerPage F → Flow (FormerPage F)
  click_forward s =
      if s.forward_lit
      then if ltb_ℤ s.iteration s.iteration_low
        then forward_first s
        else (do t ← forward_move s; next (forward_buttons t))
      else next s

  unfoldable pub draw_back : FormerPage F → Flow (FormerPage F)
  draw_back s =
      if leb_ℤ s.iteration_low s.backward_iter
      then show s.backward_iter (rebuild (current_iter_of s) s.backward_iter s) s
      else next s

  unfoldable pub set_back : FormerPage F → FormerPage F
  set_back s =
      let i = if ltb_ℤ s.backward_iter s.iteration_low then s.iteration_low else s.backward_iter in
      record s { forward_iter = i; play_iter = i; pause_iter = i }

  unfoldable pub back_move : FormerPage F → Flow (FormerPage F)
  back_move s =
      if not s.play_flag && s.back_flag
      then (do
        t ← draw_back (record s { forward_flag = true; backward_iter = dec s.backward_iter })
        next (set_back t))
      else next s

  -- The buttons after a step back.
  unfoldable pub back_buttons : FormerPage F → FormerPage F
  back_buttons s =
      let early = ltb_ℤ s.backward_iter s.max_iteration in
      record s {
        back_lit = not (leb_ℤ s.backward_iter s.iteration_low) && s.back_lit;
        icon = if early then Icon.play else s.icon;
        play_lit = early || s.play_lit;
        forward_lit = true;
      }

  -- At the first iteration the array becomes the one shape that the second one has replaced, which
  -- throws while there is no second one. The handler returns after this block.
  unfoldable pub back_first : Option (Replaced (Shape F)) → FormerPage F → Flow (FormerPage F)
  back_first none s = thrown (record s { back_flag = false; segment_arr = [] })
  back_first (some r) s = render graph s.iteration (r.s ∷ []) (record s {
    back_flag = false;
    segment_arr = r.s ∷ [];
    back_lit = false;
    forward_lit = true;
    seekbar_value = s.iteration;
  })

  unfoldable pub click_back : FormerPage F → Flow (FormerPage F)
  click_back s =
      if s.back_lit
      then if eqb_ℤ s.iteration s.iteration_low
        then back_first (s.segment_backward_chain (inc s.iteration)) s
        else (do t ← back_move s; next (back_buttons t))
      else next s
