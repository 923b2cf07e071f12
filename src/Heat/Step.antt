-- ===== src/Heat/Step.antt =====
-- The handlers of `#forward` and `#back` (new-web-test/js/heatmap/player.js).
use inc_visage.Common.{
  ◌∷◌, true, false, not, ◌&&◌, ◌||◌, inc, dec, ltb_ℤ, leb_ℤ, eqb_ℤ, if◌then◌else◌,
}
use inc_visage.Js.{Flow, next, thrown, ◌>>=◌}
use inc_visage.Trend.State.{Icon, graph}
use inc_visage.Heat.{Page, request, render}

module _ {F : Type 0} where
  -- The first block of the handler. No element has the id "play" while the button shows "pause",
  -- and the assignment to its style throws.
  unfoldable pub light_play : Icon → Page F → Flow (Page F)
  light_play Icon.play s = next (record s { play_lit = true; back_lit = true })
  light_play Icon.pause s = thrown s

  -- Before the first iteration the handler asks for it, and returns.
  unfoldable pub forward_first : Page F → Flow (Page F)
  forward_first s = do
    t ← light_play s.icon (record s {
      forward_flag = true;
      iteration = inc s.iteration;
      forward_iter = inc s.iteration;
    })
    next (record t { log = request t.iteration ∷ t.log })

  -- Draws the iteration unless it lies past the end; the two branches of the code do the same.
  unfoldable pub draw_forward : Page F → Flow (Page F)
  draw_forward s =
      if ltb_ℤ s.forward_iter s.max_iteration || eqb_ℤ s.forward_iter s.max_iteration
      then render graph s.forward_iter (s.segment_chain s.forward_iter)
          (record s { seekbar_value = s.forward_iter })
      else next s

  unfoldable pub set_cursors : Page F → Page F
  set_cursors s =
      let i = if ltb_ℤ s.max_iteration s.forward_iter then s.max_iteration else s.forward_iter in
      record s { forward_iter = i; backward_iter = i; play_iter = i; pause_iter = i }

  unfoldable pub step_forward : Page F → Page F
  step_forward s =
      let i = inc s.forward_iter in
      record s {
        back_flag = true;
        forward_iter = i;
        seekbar_max = if ltb_ℤ s.seekbar_max i then i else s.seekbar_max;
      }

  unfoldable pub forward_move : Page F → Flow (Page F)
  forward_move s =
      if s.forward_flag && not s.play_flag
      then (do t ← draw_forward (step_forward s); next (set_cursors t))
      else next s

  -- The buttons after a step forward.
  unfoldable pub forward_buttons : Page F → Page F
  forward_buttons s = record s {
    forward_flag = s.forward_flag || (ltb_ℤ s.iteration s.max_iteration && s.back_flag);
    icon = Icon.play;
    play_lit = ltb_ℤ s.forward_iter s.max_iteration;
    forward_lit = ltb_ℤ s.forward_iter (dec s.iteration);
    back_lit = true;
  }

  unfoldable pub click_forward : Page F → Flow (Page F)
  click_forward s =
      if s.forward_lit
      then if ltb_ℤ s.iteration s.iteration_low
        then forward_first s
        else (do t ← forward_move s; next (forward_buttons t))
      else next s

  unfoldable pub draw_back : Page F → Flow (Page F)
  draw_back s =
      if leb_ℤ s.iteration_low s.backward_iter
      then render graph s.backward_iter (s.segment_chain s.backward_iter)
          (record s { seekbar_value = s.backward_iter })
      else next s

  unfoldable pub set_back : Page F → Page F
  set_back s =
      let i = if ltb_ℤ s.backward_iter s.iteration_low then s.iteration_low else s.backward_iter in
      record s { forward_iter = i; play_iter = i; pause_iter = i }

  unfoldable pub back_move : Page F → Flow (Page F)
  back_move s =
      if not s.play_flag && s.back_flag
      then (do
        t ← draw_back (record s { forward_flag = true; backward_iter = dec s.backward_iter })
        next (set_back t))
      else next s

  -- The buttons after a step back.
  unfoldable pub back_buttons : Page F → Page F
  back_buttons s =
      let early = ltb_ℤ s.backward_iter s.max_iteration in
      record s {
        back_lit = not (leb_ℤ s.backward_iter s.iteration_low) && s.back_lit;
        icon = if early then Icon.play else s.icon;
        play_lit = early || s.play_lit;
        forward_lit = true;
      }

  -- At the first iteration the handler returns after its first block.
  unfoldable pub back_first : Page F → Flow (Page F)
  back_first s = render graph s.iteration (s.segment_chain s.iteration) (record s {
    back_flag = false;
    back_lit = false;
    forward_lit = true;
    seekbar_value = s.iteration;
  })

  unfoldable pub click_back : Page F → Flow (Page F)
  click_back s =
      if s.back_lit
      then if eqb_ℤ s.iteration s.iteration_low
        then back_first s
        else (do t ← back_move s; next (back_buttons t))
      else next s
