-- ===== src/Heat/Pause.antt =====
-- A click on "pause" of a heatmap that waits for an answer, and that answer.
use Prim.Native.String.{String}
use inc_visage.Common.{
  pos, inc, dec, inc-dec, inc_parts, dec_parts, ◌≤ℤ◌, ◌<ℤ◌, ltb_ℤ, leb_ℤ, eqb_ℤ, eqb_ℤ_refl, ◌≡◌,
  refl, sym, ◌∙◌, ap, subst, inl, inr, true, false, not, ◌&&◌, Bool-cases, if◌then◌else◌,
  if_of_true, if_of_false, some, List, ◌∷◌, arith,
}
use inc_visage.Js.{next, ◌>>=◌, update_at, update_other}
use inc_visage.Refine.{Part, splice_parts}
use inc_visage.Trend.State.{Icon, graph}
use inc_visage.Heat.{Page, Quad, Cell, draw, draw_quads, announce, render, legend}
use inc_visage.Heat.Play.{
  Output, gen_charts, take_parts, show_quads, play_on, play_next, stop, set_averages, first_axes,
}
use inc_visage.Heat.Toggle.{click_play, click_icon, pause_run, freeze, settle}
use inc_visage.Heat.Split.{ranged, gen_charts-parts}
use inc_visage.Heat.Run.{IsLive}
use inc_visage.Heat.Rest.{IsRest, IsRecordedFrom, Seen}

module _ {F : Type 0} (s : Page F) (l : IsLive s) where
  -- The button of a page that plays.
  abbrev pub ShowsPause : Type 0
  ShowsPause = (s.play_lit ≡ true) × (s.icon ≡ Icon.pause)

  abbrev frozen : Page F
  frozen =
      record (draw_quads graph (dec s.iteration) s.segment_arr
        (record s { pause_iter = dec s.iteration })) {
          seekbar_value = dec s.iteration;
          simplay_flag = true;
        }

  -- The page after the click.
  abbrev pub paused : Page F
  paused = settle frozen

  -- The legend is that of the iteration before, which is recorded.
  render-before :
      (arr : List (Quad F))
      → Seen s (dec s.iteration) arr
      → render graph
          (dec s.iteration)
          (some s.segment_arr)
          (record s { pause_iter = dec s.iteration })
        ≡ next (
            draw_quads graph
              (dec s.iteration)
              s.segment_arr
              (record s { pause_iter = dec s.iteration }))
  unfolding render legend
  render-before arr h = elim (Bool-cases (leb_ℤ s.iteration_low (dec s.iteration))) [
    | inl e ↦
        if_of_true (leb_ℤ s.iteration_low (dec s.iteration)) _ _ e
        ∙ rw (h.has_min, h.has_max, h.has_cells)
    | inr e ↦ if_of_false (leb_ℤ s.iteration_low (dec s.iteration)) _ _ e
  ]

  pub click_play-paused :
      ShowsPause → (arr : List (Quad F)) → Seen s (dec s.iteration) arr → click_play s ≡ next paused
  unfolding click_play click_icon pause_run freeze
  click_play-paused p arr h =
      if_of_true s.play_lit (click_icon s.icon s) (next s) p.0
      ∙ ap (λ i. click_icon i s) p.1
      ∙ ap (λ f. f >>= λ t. next (settle t)) (if_of_false s.simplay_flag _ _ l.no_replay)
      ∙ ap
          (λ f.
            (f >>= λ t. next (record t { seekbar_value = dec s.iteration; simplay_flag = true }))
            >>= λ t. next (settle t))
          (render-before arr h)

  -- The answer that was under way when the page was paused.
  module _ (dimension1 dimension2 : String) (o : Output F) (p : Part (Quad F))
      (ps : List (Part (Quad F))) (parts : o.sl ≡ p ∷ ps) where
    abbrev late_arr : List (Quad F)
    late_arr = splice_parts 0 (p ∷ ps) s.segment_arr

    abbrev taken_late : Page F
    taken_late = take_parts (p ∷ ps) (ranged dimension1 dimension2 o paused)

    abbrev late : Page F
    late = record taken_late { play_noviz = true; iteration = inc s.iteration }

    play_on-late : s.iteration ≤ℤ s.max_iteration → play_on taken_late ≡ late
    unfolding play_on play_next stop take_parts set_averages first_axes settle draw_quads announce
    play_on-late le =
        if_of_true (leb_ℤ s.iteration s.max_iteration && not s.reset_flag) _ _
          (ground (arith, l.no_reset))
        ∙ if_of_false s.reset_flag _ _ l.no_reset
        ∙ if_of_false (leb_ℤ (inc s.iteration) s.max_iteration && false) _ _ (ground arith)

    gen_charts-late :
        s.iteration ≤ℤ s.max_iteration → gen_charts dimension1 dimension2 o paused ≡ next late
    unfolding show_quads take_parts set_averages first_axes settle draw_quads announce
    gen_charts-late le =
        gen_charts-parts dimension1 dimension2 o paused p ps l.no_reset parts
        ∙ ap next (play_on-late le)

    -- The cursor stays where the page was paused.
    last_drawn :
        s.iteration ≤ℤ s.max_iteration
        → (if ltb_ℤ s.max_iteration (dec s.iteration) then s.max_iteration else dec s.iteration)
          ≡ dec s.iteration
    last_drawn le =
        if_of_false (ltb_ℤ s.max_iteration (dec s.iteration)) _ _
          (ground (arith, dec_parts s.iteration))

    late-seen :
        (valid : List Cell)
        → late.valid_cells ≡ some valid
        → IsRecordedFrom s.iteration_low s.iteration s
        → IsRecordedFrom s.iteration_low (inc s.iteration) late
    unfolding take_parts set_averages first_axes settle draw_quads announce
    late-seen valid cells chain = λ j le lt. elim (Bool-cases (eqb_ℤ s.iteration j)) [
      | inl e ↦ (
        late_arr,
        record {
          kept = update_at s.segment_chain s.iteration j late_arr e;
          min = taken_late.curr_avg_min;
          has_min = update_at s.avg_min s.iteration j taken_late.curr_avg_min e;
          max = taken_late.curr_avg_max;
          has_max = update_at s.avg_max s.iteration j taken_late.curr_avg_max e;
          valid = valid;
          has_cells = cells;
        },
      )
      | inr e ↦
          let (arr, h) = chain j le (ground (arith, inc_parts s.iteration)) in
          (
            arr,
            record {
              kept = update_other s.segment_chain s.iteration j late_arr e ∙ h.kept;
              min = h.min;
              has_min = update_other s.avg_min s.iteration j taken_late.curr_avg_min e ∙ h.has_min;
              max = h.max;
              has_max = update_other s.avg_max s.iteration j taken_late.curr_avg_max e ∙ h.has_max;
              valid = valid;
              has_cells = cells;
            },
          )
    ]

    late-IsRest :
        s.iteration ≤ℤ s.max_iteration
        → s.iteration_low <ℤ s.iteration
        → s.seekbar_max <ℤ s.iteration
        → IsRecordedFrom s.iteration_low (inc s.iteration) late
        → IsRest late
    unfolding take_parts set_averages first_axes settle draw_quads announce
    late-IsRest within lo bar chain = record {
      paused = refl;
      stopped = refl;
      can_step = refl;
      can_return = refl;
      two_recorded = ground (arith, inc_parts s.iteration_low, inc_parts s.iteration);
      in_range = ground (arith, inc_parts s.iteration, inc_parts s.max_iteration);
      from_first = ground (arith, dec_parts s.iteration);
      before_run = ground (arith, dec_parts s.iteration, inc_parts s.iteration);
      behind = ground arith;
      seek_first = ground (arith, dec_parts s.iteration);
      seek_before_run = λ _. ground (arith, dec_parts s.iteration, inc_parts s.iteration);
      recorded = chain;
      lit_forward = λ _ _.
          subst (λ c. inc c <ℤ inc s.iteration) (sym (last_drawn within))
            (rw (inc-dec s.iteration) (ground (arith, inc_parts s.iteration)));
    }

    -- A heatmap that is paused between two answers, the first one being past and the iterations before
    -- recorded, where the seek bar has come no further: the answer to the open request, if it has
    -- parts, comes to rest without being drawn and without a new request. It is recorded, the cursor
    -- stays at the iteration before it, and "forward" and "back" can move it.
    pub pause_then_output :
        ShowsPause
        → s.iteration ≤ℤ s.max_iteration
        → pos 1 <ℤ s.iteration
        → s.iteration_low <ℤ s.iteration
        → s.seekbar_max <ℤ s.iteration
        → IsRecordedFrom s.iteration_low s.iteration s
        → (t : Page F) × ((click_play s >>= gen_charts dimension1 dimension2 o) ≡ next t)
          × IsRest t
          × (t.iteration ≡ inc s.iteration)
          × (t.forward_iter ≡ dec s.iteration)
          × (t.segment_chain s.iteration ≡ some t.segment_arr)
          × (t.log ≡ draw graph (dec s.iteration) s.segment_arr ∷ s.log)
    unfolding take_parts set_averages first_axes settle draw_quads announce
    pause_then_output shows within later lo bar chain =
        let (arr, h) =
          chain (dec s.iteration) (ground (arith, dec_parts s.iteration))
            (ground (arith, dec_parts s.iteration)) in
        let cells : late.valid_cells ≡ some h.valid =
          if_of_false (eqb_ℤ s.iteration (pos 1)) o.valid_cells s.valid_cells (ground arith)
          ∙ h.has_cells in
        (
          late,
          ap (λ f. f >>= gen_charts dimension1 dimension2 o) (click_play-paused shows arr h)
              ∙ gen_charts-late within,
          late-IsRest within lo bar (late-seen h.valid cells chain),
          refl,
          last_drawn within,
          update_at s.segment_chain s.iteration s.iteration late_arr (eqb_ℤ_refl s.iteration),
          refl,
        )
