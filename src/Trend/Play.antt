-- ===== src/Trend/Play.antt =====
-- The run against the server: `play` asks for the next iteration, and `genCharts` takes the answer
-- and plays on.
use inc_visage.Common.{
  ℤ, pos, Bool, true, false, not, ◌&&◌, ◌||◌, Option, none, some, List, [], ◌∷◌, inc, leb_ℤ, ltb_ℤ,
  eqb_ℤ, if◌then◌else◌,
}
use inc_visage.Js.{Flow, next, thrown, ◌>>=◌, update}
use inc_visage.Refine.{Part, splice_parts, overwrite, shapes}
use inc_visage.Trend.Segment.{Segment}
use inc_visage.Trend.State.{State, request, graph, draw_segments, reset}

-- What the page needs of the averages: the margin of 2 around their range.
pub record Margins (F : Type 0) : Type 0 where
  pub add_2 : F → F
  pub sub_2 : F → F

-- `yrange` of the server, and its answer. `sl` is empty also for the empty text that a server
-- without splitting sends, since `[] != ""` is false too; `gl` is absent where the object has no such field.
pub record YRange (F : Type 0) : Type 0 where
  pub x_min : ℤ
  pub x_max : ℤ
  pub a_min : F
  pub a_max : F

pub record Output (F : Type 0) : Type 0 where
  pub sl : List (Part (Segment F))
  pub gl : Option (List (Part (Segment F)))
  pub y : YRange F

module _ {F : Type 0} where
  -- The `else` branch of `play`: nothing more is asked for.
  unfoldable pub stop : State F → State F
  stop s =
      if s.simplay_flag
      then s
      else let t = record s {
        back_flag = true;
        backward_iter = if s.pause_flag then s.backward_iter else s.x_max;
      } in
        let u =
          if s.play_flag
          then record t { play_lit = false; forward_lit = false; back_lit = true }
          else t in
        record u { play_flag = false }

  -- `startTime` is left out: only the questionnaire that is commented out reads it.
  unfoldable pub play_next : State F → State F
  play_next s =
      if s.reset_flag
      then reset s
      else let t = record s { iteration = inc s.iteration } in
        if leb_ℤ t.iteration t.x_max && t.play_flag
        then record t { log = request t.iteration ∷ t.log }
        else stop t

  -- The new segments, and their copy in the chain; without `gl` the loop reads the length of
  -- `undefined` and throws.
  unfoldable pub take_whole : Option (List (Part (Segment F))) → State F → Flow (State F)
  take_whole none s = thrown (record s { segment_chain = update s.segment_chain s.iteration [] })
  take_whole (some gl) s = next (record s {
    segment_arr = overwrite gl s.segment_arr;
    segment_chain = update s.segment_chain s.iteration (shapes gl);
  })

  unfoldable pub take_segments : Output F → State F → Flow (State F)
  take_segments o s = elim o.sl [
    | [] ↦ take_whole o.gl s
    | p ∷ ps ↦
        let arr = splice_parts 0 (p ∷ ps) s.segment_arr in
        next
          (record s { segment_arr = arr; segment_chain = update s.segment_chain s.iteration arr })
  ]

  unfoldable pub show_segments : State F → State F
  show_segments s =
      if s.play_noviz || (s.simplay_flag || s.reset_flag)
      then s
      else let t = draw_segments graph s.iteration s.segment_arr s in
        record t { seekbar_value = t.iteration }

  -- The last part of `genCharts`; both branches of its last test play on.
  unfoldable pub play_on : State F → State F
  play_on s =
      if leb_ℤ s.iteration s.x_max && not s.reset_flag
      then play_next (if s.forward_flag then record s { play_noviz = true } else s)
      else s

  module _ ⦃m : Margins F⦄ where
    -- The y range of an iteration; past the first 24 it moves only at the 50th and the 100th.
    unfoldable pub set_range : Bool → YRange F → State F → State F
    set_range is_sensor y s =
        let i = s.iteration in
        let moves = ltb_ℤ i (pos 25) || (eqb_ℤ i (pos 50) || eqb_ℤ i (pos 100)) in
        let hi = if not is_sensor && moves then m.add_2 y.a_max else s.curr_avg_max in
        let lo = if not is_sensor && moves then m.sub_2 y.a_min else s.curr_avg_min in
        record s {
          curr_avg_max = hi;
          curr_avg_min = lo;
          y_min = update s.y_min i (if is_sensor then y.a_min else lo);
          y_max = update s.y_max i (if is_sensor then y.a_max else hi);
        }

    unfoldable pub first_range : YRange F → State F → State F
    first_range y s =
        if eqb_ℤ s.iteration (pos 1) then record s { x_max = y.x_max; x_min = y.x_min } else s

    unfoldable pub gen_charts : Bool → Output F → State F → Flow (State F)
    gen_charts is_sensor o s = if s.reset_flag then next (reset s) else do
      let t = first_range o.y (set_range is_sensor o.y s)
      u ← take_segments o t
      next (play_on (show_segments u))
