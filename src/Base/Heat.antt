-- ===== src/Base/Heat.antt =====
-- The run of new-web-test/js/heatmap/playerBase.js, and `render` of heatmapBase.js, whose legend
-- leaves out the loop over the cells. Here `isContinue` is the global variable.
pub mod End
pub mod Handlers
use Prim.Native.String.{String}
use inc_visage.Common.{
  ℕ, zero, suc, ℤ, pos, Bool, true, false, not, ◌&&◌, ◌||◌, Option, none, some, List, [], ◌∷◌, inc,
  dec, eqb_ℤ, ltb_ℤ, leb_ℤ, if◌then◌else◌,
}
use inc_visage.Js.{Flow, next, thrown, diverged, ◌>>=◌, update}
use inc_visage.Refine.{Part, overwrite, shapes}
use inc_visage.Trend.State.{Viz, Icon, graph}
use inc_visage.Heat.{Page, Quad, Cell, request, draw_quads, announce}
use inc_visage.Heat.Play.{Output, Ranges, reset, stop, end_run, first_axes}
use inc_visage.Heat.Toggle.{settle, rounds}

pub record BaseMap (F : Type 0) : Type 0 where
  pub page : Page F
  pub is_continue : ℤ

-- An answer, whose quads stand in `gl`; nothing follows where `continued` is 0.
pub record MapOutput (F : Type 0) : Type 0 where
  pub continued : ℤ
  pub valid_cells : Option (List Cell)
  pub gl : List (Part (Quad F))
  pub y : Ranges
  pub max : F
  pub min : F

module _ {F : Type 0} where
  unfoldable pub legend_base : Option F → Option F → Page F → Flow (Page F)
  legend_base (some lo) (some hi) s = next s
  legend_base _ _ s = thrown s

  unfoldable pub render_base : Viz → ℤ → Option (List (Quad F)) → Page F → Flow (Page F)
  render_base viz itr none s = thrown (announce viz itr s)
  render_base viz itr (some quads) s =
      let t = draw_quads viz itr quads s in
      if leb_ℤ s.iteration_low itr then legend_base (s.avg_min itr) (s.avg_max itr) t else next t

  abbrev pub with_continue : ℤ → Flow (Page F) → Flow (BaseMap F)
  with_continue c (next s) = next (record { page = s; is_continue = c })
  with_continue c (thrown s) = thrown (record { page = s; is_continue = c })
  with_continue c diverged = diverged

  -- `reset`
  unfoldable pub reset_base : BaseMap F → BaseMap F
  reset_base b = record { page = reset b.page; is_continue = pos 1 }

  -- `playBase`, whose end is that of `play`.
  unfoldable pub play_base : BaseMap F → BaseMap F
  play_base b =
      if b.page.reset_flag
      then reset_base b
      else let t = record (b.page) { iteration = inc b.page.iteration } in
        record b {
          page =
              if t.play_flag && eqb_ℤ b.is_continue (pos 1)
              then record t { log = request t.iteration ∷ t.log }
              else stop t;
        }

  -- The end of the run in `genChartsBase`, before it calls `playBase`.
  unfoldable pub finish : Page F → Page F
  finish s = record s {
    back_flag = true;
    backward_iter = if s.pause_flag then s.backward_iter else s.iteration;
    play_iter = if s.pause_flag then s.play_iter else s.iteration;
    pause_iter = if s.pause_flag then s.pause_iter else s.iteration;
    play_lit = not s.play_flag && s.play_lit;
    forward_lit = not s.play_flag && s.forward_lit;
    back_lit = s.play_flag || s.back_lit;
    play_flag = false;
    max_iteration = s.iteration;
  }

  -- The first block of an answer, as for the present heatmap.
  unfoldable pub first_base : String → String → MapOutput F → Page F → Page F
  first_base dimension1 dimension2 o s =
      first_axes dimension1 dimension2
        (record { valid_cells = o.valid_cells; sl = o.gl; y = o.y; max = o.max; min = o.min }) s

  -- The averages of the legend move at each iteration.
  unfoldable pub set_base_averages : MapOutput F → Page F → Page F
  set_base_averages o s = record s {
    curr_avg_max = o.max;
    curr_avg_min = o.min;
    avg_max = update s.avg_max s.iteration o.max;
    avg_min = update s.avg_min s.iteration o.min;
  }

  -- The quads take the first places of the array, and are recorded.
  unfoldable pub take_whole : List (Part (Quad F)) → Page F → Page F
  take_whole gl s = record s {
    segment_arr = overwrite gl s.segment_arr;
    segment_chain = update s.segment_chain s.iteration (shapes gl);
  }

  unfoldable pub show_recorded : Page F → Flow (Page F)
  show_recorded s = if s.play_noviz || (s.simplay_flag || s.reset_flag) then next s else (do
    t ← render_base graph s.iteration (s.segment_chain s.iteration) s
    next (record t { seekbar_value = t.iteration }))

  -- Both branches of the test on `forwardFlag` play on.
  unfoldable pub play_on_base : BaseMap F → BaseMap F
  play_on_base b =
      if b.page.reset_flag
      then b
      else play_base (record b {
        page = record (b.page) { play_noviz = b.page.forward_flag || b.page.play_noviz };
      })

  unfoldable pub take_estimate : ℤ → List (Part (Quad F)) → Page F → Flow (BaseMap F)
  take_estimate c [] s = next (record { page = end_run s; is_continue = c })
  take_estimate c (p ∷ ps) s = do
    b ← with_continue c (show_recorded (take_whole (p ∷ ps) s))
    next (play_on_base b)

  -- `genChartsBase`: the answer that is the last is not taken in.
  unfoldable pub gen_charts_base : String → String → MapOutput F → BaseMap F → Flow (BaseMap F)
  gen_charts_base dimension1 dimension2 o b =
      let s = b.page in
      if eqb_ℤ o.continued (pos 0)
      then next (
          if s.simplay_flag
          then record { page = s; is_continue = o.continued }
          else play_base (record { page = finish s; is_continue = o.continued }))
      else if s.reset_flag
      then next (reset_base b)
      else take_estimate o.continued o.gl
          (set_base_averages o (first_base dimension1 dimension2 o s))

  -- The end of a replay.
  unfoldable pub resume_base : BaseMap F → BaseMap F
  resume_base b = play_base (record b {
    page = record (b.page) {
      play_flag = true;
      iteration = dec b.page.iteration;
      play_noviz = false;
      simplay_flag = false;
    };
  })

  unfoldable pub draw_recorded_base : Page F → Flow (Page F)
  draw_recorded_base s =
      if s.play_noviz
      then next s
      else render_base graph s.play_iter (s.segment_chain s.play_iter)
          (record s { seekbar_value = s.play_iter })

  -- `genSimChartsBase`, whose last call is `again`.
  unfoldable pub gen_sim_charts_base : (BaseMap F → Flow (BaseMap F)) → BaseMap F → Flow (BaseMap F)
  gen_sim_charts_base again b = if b.page.reset_flag then next (reset_base b) else do
    t ← with_continue b.is_continue (draw_recorded_base b.page)
    elim (t.page.simplay_flag && not t.page.pause_flag) [ true ↦ again t | false ↦ next t ]

  -- `simulateplayBase`, with fuel for the rounds, which `rounds` of the present heatmap bounds.
  unfoldable pub simulate_play_base : ℕ → BaseMap F → Flow (BaseMap F)
  simulate_play_base zero b = diverged
  simulate_play_base (suc fuel) b =
      let t = record b { page = record (b.page) { play_iter = inc b.page.play_iter } } in
      let again = λ (u : BaseMap F). simulate_play_base fuel u in
      if b.page.reset_flag
      then next (reset_base b)
      else if ltb_ℤ t.page.play_iter t.page.iteration
      then gen_sim_charts_base again t
      else next (resume_base t)
