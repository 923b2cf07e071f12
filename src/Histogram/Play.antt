-- ===== src/Histogram/Play.antt =====
-- The run of the former histogram against the server: `play`, `genCharts` and `reset`
-- (new-web-test/js/old_/histogram/player.js). A call set by `setTimeout` waits in `timers`, and its
-- delay is left out.
use inc_visage.Common.{
  ℕ, zero, suc, ℤ, pos, negsuc, Bool, true, false, ◌||◌, Option, none, some, List, [], ◌∷◌, inc,
  dec, ◌-ℤ◌, leb_ℤ, eqb_ℤ, if◌then◌else◌,
}
use inc_visage.Js.{Flow, next, thrown, ◌>>=◌, update}
use inc_visage.Refine.{Part, splice_parts}
use inc_visage.Trend.State.{graph, Icon}
use inc_visage.Former.{Timer}
use inc_visage.Histogram.{
  HistogramPage, Bar, Estimate, Estimates, request, reset_data, draw, dots, announce, render,
}

-- An answer; `gl` is absent where the object has no such field, and the range of the x axis is read
-- at the first iteration only.
pub record Output (F : Type 0) : Type 0 where
  pub sl : List (Part (Bar F))
  pub gl : Option (List (Estimate F))
  pub y_min : F
  pub y_max : F
  pub x_min : ℤ
  pub x_max : ℤ

module _ {A : Type 0} where
  -- `xs[n] = x`
  unfoldable pub set_at : List (Option A) → ℕ → A → List (Option A)
  set_at [] zero x = some x ∷ []
  set_at [] (suc n) x = none ∷ set_at [] n x
  set_at (y ∷ ys) zero x = some x ∷ ys
  set_at (y ∷ ys) (suc n) x = y ∷ set_at ys n x

  -- The same at any integer: below 0 it is no element of the array.
  unfoldable pub set_index : List (Option A) → ℤ → A → List (Option A)
  set_index xs (pos n) x = set_at xs n x
  set_index xs (negsuc n) x = xs

module _ {F : Type 0} where
  -- `reset`, whose line `orwardIter = xMin-1` leaves `forwardIter` alone.
  unfoldable pub reset : HistogramPage F → HistogramPage F
  reset s =
      let low = dec s.x_min in
      let t = announce graph low (record s {
        log = reset_data ∷ s.log;
        reset_flag = true;
        seekbar_max = low;
        seekbar_iter = low;
        max_iteration = s.x_max;
        pause_iter = low;
        play_iter = low;
        forward_flag = false;
        backward_iter = low;
        play_noviz = false;
        pause_flag = false;
        play_flag = false;
        simplay_flag = false;
        back_flag = false;
        icon = Icon.play;
        play_lit = true;
        forward_lit = true;
        back_lit = false;
        iteration = low;
        seekbar_value = low;
        segment_arr = [];
        estimate_arr = [];
        segment_backward_chain = λ i. none;
        segment_forward_chain = λ i. none;
      }) in
      record t {
        log = dots graph low [] ∷ draw graph low [] ∷ t.log;
        done_flag = true;
        snapshot_no = none;
      }

  -- The last branch of `play`.
  unfoldable pub stop : HistogramPage F → HistogramPage F
  stop s = if s.simplay_flag then s else record s {
    back_flag = true;
    backward_iter = if s.pause_flag then s.backward_iter else s.x_max;
    play_lit = if s.play_flag then false else s.play_lit;
    forward_lit = if s.play_flag then false else s.forward_lit;
    back_lit = if s.play_flag then true else s.back_lit;
    play_flag = false;
  }

  -- `play`; `startTime` is left out, which the competition alone reads.
  unfoldable pub play_next : HistogramPage F → HistogramPage F
  play_next s =
      if s.reset_flag
      then reset s
      else let t = record s { submit_disabled = false; iteration = inc s.iteration } in
        if leb_ℤ t.iteration t.x_max then record t { log = request t.iteration ∷ t.log } else stop t

  -- The first block of `genCharts`; the range of the y axis is written before the first iteration
  -- becomes `xMin`.
  unfoldable pub first_range : Output F → HistogramPage F → HistogramPage F
  first_range o s =
      let first = eqb_ℤ s.iteration (pos 1) in
      record s {
        y_min = update s.y_min s.iteration o.y_min;
        y_max = update s.y_max s.iteration o.y_max;
        x_max = if first then o.x_max else s.x_max;
        x_min = if first then o.x_min else s.x_min;
        iteration = if first then o.x_min else s.iteration;
      }

  -- `segmentArr[n]`
  unfoldable pub bar_at : List (Bar F) → ℕ → Bar F
  bar_at [] n = none
  bar_at (x ∷ arr) zero = x
  bar_at (x ∷ arr) (suc n) = bar_at arr n

  -- The loop over the parts; without a part the backward chain is left alone.
  unfoldable pub take_parts : List (Part (Bar F)) → HistogramPage F → HistogramPage F
  take_parts [] s = record s {
    segment_forward_chain = update s.segment_forward_chain s.iteration [];
  }
  take_parts (p ∷ ps) s = record s {
    segment_arr = splice_parts 0 (p ∷ ps) s.segment_arr;
    segment_backward_chain =
        update s.segment_backward_chain s.iteration
          (record { n = p.n; s = bar_at s.segment_arr p.n });
    segment_forward_chain = update s.segment_forward_chain s.iteration (p ∷ ps);
  }

  -- The loop over the estimates from `i` on: at the first iteration by their order, then by place.
  unfoldable pub put_estimates : Bool → ℤ → ℕ → List (Estimate F) → Estimates F → Estimates F
  put_estimates first x_min i [] arr = arr
  put_estimates first x_min i (e ∷ es) arr =
      put_estimates first x_min (suc i) es
        (if first then set_at arr i e else set_index arr (e.g -ℤ x_min) e)

  -- Without `gl` the loop reads the length of `undefined` and throws.
  unfoldable pub take_estimates :
      Option (List (Estimate F)) → HistogramPage F → Flow (HistogramPage F)
  take_estimates none s = thrown s
  take_estimates (some es) s =
      let arr = put_estimates (eqb_ℤ s.iteration s.x_min) s.x_min 0 es s.estimate_arr in
      next
        (record s { estimate_arr = arr; estimate_chain = update s.estimate_chain s.iteration arr })

  unfoldable pub show_segments : HistogramPage F → Flow (HistogramPage F)
  show_segments s = if s.play_noviz || s.simplay_flag then next s else (do
    t ← render graph s.iteration s.segment_arr (some s.estimate_arr) s
    next (record t { seekbar_value = t.iteration }))

  -- Both branches of the test on `forwardFlag` play on, after a while.
  unfoldable pub play_on : HistogramPage F → HistogramPage F
  play_on s =
      if leb_ℤ s.iteration s.x_max
      then record s { play_noviz = s.forward_flag || s.play_noviz; timers = Timer.play ∷ s.timers }
      else s

  unfoldable pub gen_charts : Output F → HistogramPage F → Flow (HistogramPage F)
  gen_charts o s = if s.reset_flag then next (reset s) else (do
    t ← take_estimates o.gl (take_parts o.sl (first_range o s))
    u ← show_segments t
    next (play_on u))
