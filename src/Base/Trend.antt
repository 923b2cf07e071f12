-- ===== src/Base/Trend.antt =====
-- The run of new-web-test/js/trendline/playerBase.js. A call set by `setTimeout` waits in `timers`.
-- The global `isContinue` stays 1, since `genChartsBase` assigns to a variable of its own.
pub mod Run
pub mod Handlers
use inc_visage.Common.{
  ℤ, pos, Bool, true, false, not, ◌&&◌, ◌||◌, Option, List, [], ◌∷◌, inc, dec, eqb_ℤ, ltb_ℤ, leb_ℤ,
  if◌then◌else◌,
}
use inc_visage.Js.{Flow, next, thrown, diverged, ◌>>=◌, update}
use inc_visage.Refine.{Part}
use inc_visage.Trend.Segment.{Segment}
use inc_visage.Trend.State.{State, Icon, request, graph, draw_segments, reset}
use inc_visage.Trend.Play.{Margins, YRange, stop, take_whole, show_segments, first_range}
use inc_visage.Trend.Replay.{draw_recorded}
use inc_visage.Trend.Toggle.{freeze, show_last}

-- The function that a timer calls.
pub data Timer : Type 0 where
  play_base simulate_play_base : Timer

pub record BasePage (F : Type 0) : Type 0 where
  pub state : State F
  pub timers : List Timer

-- An answer; nothing follows where `continued` is 0.
pub record BaseOutput (F : Type 0) : Type 0 where
  pub continued : ℤ
  pub gl : Option (List (Part (Segment F)))
  pub y : YRange F

module _ {F : Type 0} where
  -- The timers of the page go on with a flow of its state.
  abbrev pub with_timers : List Timer → Flow (State F) → Flow (BasePage F)
  with_timers ts (next s) = next (record { state = s; timers = ts })
  with_timers ts (thrown s) = thrown (record { state = s; timers = ts })
  with_timers ts diverged = diverged

  -- `playBase`, whose end is that of `play`.
  unfoldable pub play_base_next : State F → State F
  play_base_next s =
      if s.reset_flag
      then reset s
      else let t = record s { iteration = inc s.iteration } in
        if t.play_flag then record t { log = request t.iteration ∷ t.log } else stop t

  -- The end of the run within the first block of `genChartsBase`.
  unfoldable pub finish : State F → State F
  finish s = record s {
    back_flag = true;
    backward_iter = if s.pause_flag then s.backward_iter else s.iteration;
    play_lit = not s.play_flag && s.play_lit;
    forward_lit = not s.play_flag && s.forward_lit;
    back_lit = s.play_flag || s.back_lit;
    play_flag = false;
    x_max = s.iteration;
  }

  -- The first block of `genChartsBase`, after which the answer is taken in as any other.
  unfoldable pub take_continued : ℤ → BasePage F → BasePage F
  take_continued continued b =
      let last = eqb_ℤ continued (pos 0) && not b.state.simplay_flag in
      record {
        state = if last then finish b.state else b.state;
        timers = if last then play_base ∷ b.timers else b.timers;
      }

  -- The last block: both branches of the test on `forwardFlag` set the timer.
  unfoldable pub play_on_base : List Timer → State F → BasePage F
  play_on_base ts s = record {
    state = record s { play_noviz = not s.reset_flag && s.forward_flag || s.play_noviz };
    timers = if s.reset_flag then ts else play_base ∷ ts;
  }

  module _ ⦃m : Margins F⦄ where
    -- The y range of an iteration, which moves at each.
    unfoldable pub set_base_range : Bool → YRange F → State F → State F
    set_base_range is_sensor y s =
        let i = s.iteration in
        let hi = if is_sensor then s.curr_avg_max else m.add_2 y.a_max in
        let lo = if is_sensor then s.curr_avg_min else m.sub_2 y.a_min in
        record s {
          curr_avg_max = hi;
          curr_avg_min = lo;
          y_min = update s.y_min i (if is_sensor then y.a_min else lo);
          y_max = update s.y_max i (if is_sensor then y.a_max else hi);
        }

    -- The second block.
    unfoldable pub take_base : Bool → BaseOutput F → BasePage F → Flow (BasePage F)
    take_base is_sensor o b =
        if b.state.reset_flag then next (record b { state = reset b.state }) else (do
          u ←
              with_timers b.timers
                (take_whole o.gl (first_range o.y (set_base_range is_sensor o.y b.state)))
          next (play_on_base u.timers (show_segments u.state)))

    -- `genChartsBase`
    unfoldable pub gen_charts_base : Bool → BaseOutput F → BasePage F → Flow (BasePage F)
    gen_charts_base is_sensor o b = take_base is_sensor o (take_continued o.continued b)

  -- The end of a replay.
  unfoldable pub resume_base : BasePage F → BasePage F
  resume_base b = record {
    state = record (b.state) {
      play_flag = true;
      iteration = dec b.state.iteration;
      play_noviz = false;
      simplay_flag = false;
    };
    timers = play_base ∷ b.timers;
  }

  -- `genSimCharts`
  unfoldable pub gen_sim_charts_base : BasePage F → Flow (BasePage F)
  gen_sim_charts_base b =
      if b.state.reset_flag then next (record b { state = reset b.state }) else (do
        u ← with_timers b.timers (draw_recorded b.state)
        next (
            if u.state.simplay_flag && not u.state.pause_flag
            then record u { timers = simulate_play_base ∷ u.timers }
            else u))

  -- `simulateplayBase`
  unfoldable pub simulate_play_base_next : BasePage F → Flow (BasePage F)
  simulate_play_base_next b =
      let s = b.state in
      let t = record b { state = record s { play_iter = inc s.play_iter } } in
      if s.reset_flag
      then next (record b { state = reset s })
      else if ltb_ℤ t.state.play_iter t.state.iteration
      then gen_sim_charts_base t
      else next (resume_base t)

  -- A timer runs off.
  unfoldable pub call : Timer → BasePage F → Flow (BasePage F)
  call play_base b = next (record b { state = play_base_next b.state })
  call simulate_play_base b = simulate_play_base_next b

  -- The timer that was set first of those that wait is the last of the list.
  abbrev pub fire_all : List Timer → BasePage F → Flow (BasePage F)
  fire_all [] b = next b
  fire_all (t ∷ ts) b = do u ← fire_all ts b; call t u

  -- All timers that wait run off, one after the other.
  unfoldable pub fire : BasePage F → Flow (BasePage F)
  fire b = fire_all b.timers (record b { timers = [] })

  -- The rest of the branch of a click on "pause".
  unfoldable pub settle_base : State F → State F
  settle_base s =
      let i = if ltb_ℤ s.x_max s.pause_iter then s.iteration else s.pause_iter in
      record s {
        seekbar_max = if ltb_ℤ s.seekbar_max s.pause_iter then s.pause_iter else s.seekbar_max;
        pause_flag = true;
        play_flag = false;
        play_noviz = true;
        back_flag = true;
        forward_flag = true;
        pause_iter = i;
        icon = Icon.play;
        play_lit = true;
        back_lit = true;
        forward_iter = i;
        backward_iter = i;
        play_iter = i;
        forward_lit = ltb_ℤ i s.iteration;
        max_pause = if ltb_ℤ s.max_pause i then i else s.max_pause;
      }

  abbrev pub dimmed : BasePage F → BasePage F
  dimmed b = record b { state = record (b.state) { forward_lit = false; back_lit = false } }

  -- The branch of a click on "play", after its assignments.
  unfoldable pub start_base : BasePage F → Flow (BasePage F)
  start_base b =
      let s = b.state in
      let sim = record s { simplay_flag = true; play_iter = dec s.play_iter } in
      if leb_ℤ s.x_max s.iteration
      then if ltb_ℤ s.play_iter s.x_max && leb_ℤ s.x_min s.play_iter
        then simulate_play_base_next (dimmed (record b { state = sim }))
        else next (record b { state = show_last s })
      else if s.simplay_flag
      then simulate_play_base_next (dimmed b)
      else next (record b { state = play_base_next (dimmed b).state })

  unfoldable pub click_base_icon : Icon → BasePage F → Flow (BasePage F)
  click_base_icon Icon.pause b = next (record b { state = settle_base (freeze b.state) })
  click_base_icon Icon.play b = start_base (record b {
    state = record (b.state) {
      icon = Icon.pause;
      forward_flag = false;
      back_flag = false;
      pause_flag = false;
      play_flag = true;
      play_noviz = false;
      reset_flag = false;
    };
  })

  -- The handler of `#play`; a dim button does nothing.
  unfoldable pub click_play_base : BasePage F → Flow (BasePage F)
  click_play_base b = if b.state.play_lit then click_base_icon b.state.icon b else next b
