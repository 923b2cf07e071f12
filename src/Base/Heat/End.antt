-- ===== src/Base/Heat/End.antt =====
-- The end of a run of new-web-test/js/heatmap/playerBase.js.
use Prim.Native.String.{String}
use inc_visage.Common.{
  ℤ, pos, inc, inc_parts, ◌≤ℤ◌, eqb_ℤ, true, false, not, ◌&&◌, if◌then◌else◌, if_of_true,
  if_of_false, none, Option, List, ◌≡◌, refl, ap, ◌∙◌, arith,
}
use inc_visage.Js.{next, thrown, ◌>>=◌}
use inc_visage.Trend.State.{graph}
use inc_visage.Heat.{Page, Cell, render, announce}
use inc_visage.Heat.Play.{stop, end_buttons}
use inc_visage.Heat.Seek.{
  seek, seek_paused, seek_stopped, move_to, clip, light_if, end_buttons as seek_end,
}
use inc_visage.Base.Heat.{BaseMap, MapOutput, gen_charts_base, play_base, finish, with_continue}
use inc_visage.Base.Heat.Handlers.{seek_base, known}

module _ {F : Type 0} where
  -- The page plays, and waits for the answer for its iteration.
  pub record IsPlaying (s : Page F) : Type 0 where
    pub no_reset : s.reset_flag ≡ false
    pub playing : s.play_flag ≡ true
    pub no_pause : s.pause_flag ≡ false
    pub no_replay : s.simplay_flag ≡ false

  module _ (s : Page F) (l : IsPlaying s) where
    -- The page when the run has ended.
    abbrev late : Page F
    late = record (finish s) { iteration = inc s.iteration }

    abbrev over : Page F
    over =
        record (end_buttons late.play_flag (record late {
          back_flag = true;
          backward_iter = if late.pause_flag then late.backward_iter else late.max_iteration;
          play_iter = if late.pause_flag then late.play_iter else late.max_iteration;
          pause_iter = if late.pause_flag then late.pause_iter else late.max_iteration;
        })) { play_flag = false }

    stop-late : stop late ≡ over
    unfolding stop finish
    stop-late = if_of_false s.simplay_flag _ _ l.no_replay

    gen_charts_base-over :
        (dimension1 dimension2 : String) (o : MapOutput F) (c : ℤ)
        → eqb_ℤ o.continued (pos 0) ≡ true
        → gen_charts_base dimension1 dimension2 o (record { page = s; is_continue = c })
          ≡ next (record { page = over; is_continue = o.continued })
    unfolding gen_charts_base play_base finish
    gen_charts_base-over dimension1 dimension2 o c h =
        if_of_true (eqb_ℤ o.continued (pos 0)) _ _ h
        ∙ ap next (
            if_of_false s.simplay_flag _ _ l.no_replay
            ∙ if_of_false s.reset_flag _ _ l.no_reset
            ∙ ap (λ p. record { page = p; is_continue = o.continued }) stop-late)

    -- Where the bar is put to the last iteration.
    abbrev sought : Option (List Cell) → Page F
    sought cells = record over {
      seekbar_iter = s.iteration;
      seekbar_value = s.iteration;
      valid_cells = cells;
    }

    clip-last :
        s.iteration_low ≤ℤ s.iteration
        → clip s.iteration_low s.iteration (inc s.iteration) s.iteration ≡ s.iteration
    clip-last low = ground (arith, low, inc_parts s.iteration)

    seek_stopped-over :
        (cells : Option (List Cell))
        → s.iteration_low ≤ℤ s.iteration
        → s.segment_chain s.iteration ≡ none
        → seek_stopped (sought cells)
          ≡ thrown (announce graph s.iteration (move_to s.iteration s.iteration (sought cells)))
    unfolding seek_stopped finish end_buttons move_to render announce
    seek_stopped-over cells low h =
        if_of_true (not false && not s.pause_flag) _ _ (ground (arith, l.no_pause))
        ∙ ap
            (λ i. render graph i (s.segment_chain i) (move_to s.iteration i (sought cells)) >>= λ t.
              next (light_if true true true true t))
            (clip-last low)
        ∙ ap
            (λ o.
              render graph s.iteration o (move_to s.iteration s.iteration (sought cells)) >>= λ t.
              next (light_if true true true true t))
            h

  -- An answer that says that nothing follows, and that comes to a page that plays, ends the run with
  -- its iteration as `maxIteration` and with no request; but it is not taken in, so that, where
  -- nothing was recorded for the iteration before, the seek bar throws when put to the last one.
  pub last_answer_then_seek :
      (dimension1 dimension2 : String) (o : MapOutput F) (b : BaseMap F)
      → IsPlaying b.page
      → eqb_ℤ o.continued (pos 0) ≡ true
      → b.page.iteration_low ≤ℤ b.page.iteration
      → b.page.segment_chain b.page.iteration ≡ none
      → (t : BaseMap F) × (u : BaseMap F) × (gen_charts_base dimension1 dimension2 o b ≡ next t)
        × (t.page.play_flag ≡ false)
        × (t.page.max_iteration ≡ b.page.iteration)
        × (t.page.log ≡ b.page.log)
        × (seek_base b.page.iteration t ≡ thrown u)
  unfolding seek_base seek seek_paused finish end_buttons
  last_answer_then_seek dimension1 dimension2 o b l h low n =
      let s = b.page in
      (
        record { page = over s l; is_continue = o.continued },
        _,
        gen_charts_base-over s l dimension1 dimension2 o b.is_continue h,
        refl,
        refl,
        refl,
        ap
              (λ f.
                with_continue o.continued (f >>= λ t. seek_stopped t >>= λ u. next (seek_end u))
                >>= λ t. next (record t { page = record (t.page) { valid_cells = s.valid_cells } }))
              (if_of_false s.pause_flag _ _ l.no_pause)
            ∙ ap
                (λ f. with_continue o.continued (f >>= λ u. next (seek_end u)) >>= λ t.
                  next (record t { page = record (t.page) { valid_cells = s.valid_cells } }))
                (seek_stopped-over s l (known s.valid_cells) low n),
      )
