-- ===== src/Trend/Step.antt =====
-- The handlers of `#forward` and `#back`.
use inc_visage.Common.{true, false, not, ◌&&◌, ◌||◌, inc, dec, ltb_ℤ, leb_ℤ, eqb_ℤ, if◌then◌else◌}
use inc_visage.Js.{Flow, next, thrown, ◌>>=◌}
use inc_visage.Trend.State.{State, Icon, graph, render}

module _ {F : Type 0} where
  -- The first block of the handler. No element has the id "play" while the button shows "pause",
  -- and the assignment to its style throws.
  unfoldable pub light_play : Icon → State F → Flow (State F)
  light_play Icon.play s = next (record s { play_lit = true; back_lit = true })
  light_play Icon.pause s = thrown s

  unfoldable pub forward_init : State F → Flow (State F)
  forward_init s =
      if ltb_ℤ s.iteration s.x_min
      then light_play s.icon (record s {
        forward_flag = true;
        iteration = inc s.iteration;
        forward_iter = inc s.iteration;
      })
      else next s

  -- Draws the iteration unless it lies past the end; the two branches of the code do the same.
  unfoldable pub draw_forward : State F → Flow (State F)
  draw_forward s =
      if ltb_ℤ s.forward_iter s.x_max || eqb_ℤ s.forward_iter s.x_max
      then render graph s.forward_iter (s.segment_chain s.forward_iter)
          (record s { seekbar_value = s.forward_iter })
      else next s

  unfoldable pub set_cursors : State F → State F
  set_cursors s =
      let i = if ltb_ℤ s.x_max s.forward_iter then s.x_max else s.forward_iter in
      record s { forward_iter = i; backward_iter = i; play_iter = i; pause_iter = i }

  unfoldable pub step_forward : State F → State F
  step_forward s =
      let i = inc s.forward_iter in
      record s {
        back_flag = true;
        forward_iter = i;
        seekbar_max = if ltb_ℤ s.seekbar_max i then i else s.seekbar_max;
      }

  unfoldable pub forward_move : State F → Flow (State F)
  forward_move s =
      if s.forward_flag && (not s.play_flag && s.pause_flag)
      then (do t ← draw_forward (step_forward s); next (set_cursors t))
      else next s

  -- The buttons after a step forward.
  unfoldable pub forward_buttons : State F → State F
  forward_buttons s = record s {
    forward_flag = s.forward_flag || (ltb_ℤ s.iteration s.x_max && s.back_flag);
    icon = Icon.play;
    play_lit = ltb_ℤ s.forward_iter s.x_max;
    forward_lit = ltb_ℤ s.forward_iter (dec s.iteration);
    back_lit = true;
  }

  unfoldable pub click_forward : State F → Flow (State F)
  click_forward s =
      if s.forward_lit
      then (do t ← forward_init s; u ← forward_move t; next (forward_buttons u))
      else next s

  unfoldable pub draw_back : State F → Flow (State F)
  draw_back s =
      if leb_ℤ s.x_min s.backward_iter
      then render graph s.backward_iter (s.segment_chain s.backward_iter)
          (record s { seekbar_value = s.backward_iter })
      else next s

  unfoldable pub set_back : State F → State F
  set_back s =
      let i = if ltb_ℤ s.backward_iter s.x_min then s.x_min else s.backward_iter in
      record s { forward_iter = i; play_iter = i; pause_iter = i }

  unfoldable pub back_move : State F → Flow (State F)
  back_move s =
      if not s.play_flag && s.back_flag
      then (do
        t ← draw_back (record s { forward_flag = true; backward_iter = dec s.backward_iter })
        next (set_back t))
      else next s

  -- The buttons after a step back.
  unfoldable pub back_buttons : State F → State F
  back_buttons s =
      let early = ltb_ℤ s.backward_iter s.x_max in
      record s {
        back_lit = not (leb_ℤ s.backward_iter s.x_min) && s.back_lit;
        icon = if early then Icon.play else s.icon;
        play_lit = early || s.play_lit;
        forward_lit = true;
      }

  -- At the first iteration the handler returns after its first block.
  unfoldable pub back_first : State F → Flow (State F)
  back_first s = render graph s.iteration (s.segment_chain s.iteration) (record s {
    back_flag = false;
    back_lit = false;
    forward_lit = true;
    seekbar_value = s.iteration;
  })

  unfoldable pub click_back : State F → Flow (State F)
  click_back s =
      if s.back_lit
      then if eqb_ℤ s.iteration s.x_min
        then back_first s
        else (do t ← back_move s; next (back_buttons t))
      else next s
