-- ===== src/Heat/Run/Loaded.antt =====
-- A new query of a heatmap, a click on "play" and the answers up to the one that ends the run.
use Prim.Native.String.{String}
use inc_visage.Common.{
  ℕ, suc, pos, inc, dec, inc-dec, dec_parts, ◌+ℤ◌, +ℤ_parts, ◌≤ℤ◌, ◌<ℤ◌, leb_ℤ, ◌&&◌, true, false,
  if_of_true, if_of_false, some, List, [], ◌∷◌, ◌++◌, All, length, append_assoc, ◌≡◌, refl, ap, ◌∙◌,
  sym, subst, arith,
}
use inc_visage.Js.{next, ◌>>=◌}
use inc_visage.Trend.State.{Icon}
use inc_visage.Trend.Live.{history}
use inc_visage.Heat.{Page, Cell, request, draw_quads, announce}
use inc_visage.Heat.Play.{Ranges, Output, cell_count, start_over, play_next}
use inc_visage.Heat.Toggle.{click_play, click_icon, start_run}
use inc_visage.Heat.Load.{process_axes_data, reset_on_load}
use inc_visage.Heat.Run.{IsLive, requested, drawn}
use inc_visage.Heat.Run.End.{HasParts, answer_all, IsRun, answer_all-IsRun}

module _ {F : Type 0} (dimension1 dimension2 : String) (r : Ranges) (s : Page F) where
  abbrev loaded : Page F
  loaded = process_axes_data dimension1 dimension2 r s

  -- The page after the click: the first iteration is asked for.
  abbrev pub asking : Page F
  asking = record loaded {
    icon = Icon.pause;
    forward_flag = false;
    back_flag = false;
    pause_flag = false;
    play_flag = true;
    play_noviz = false;
    reset_flag = false;
    forward_lit = false;
    back_lit = false;
    iteration = inc loaded.iteration;
    log = request (inc loaded.iteration) ∷ loaded.log;
  }

  click_play-loaded :
      pos 1 <ℤ cell_count r.x_min r.x_max r.y_min r.y_max → click_play loaded ≡ next asking
  unfolding click_play click_icon start_run play_next process_axes_data reset_on_load start_over
      draw_quads announce
  click_play-loaded lt =
      if_of_false (leb_ℤ (cell_count r.x_min r.x_max r.y_min r.y_max) (dec (pos 1))) _ _
        (ground (arith, inc-dec (pos 1), dec_parts (pos 1)))
      ∙ ap next (
          if_of_true
            (leb_ℤ (inc (dec (pos 1))) (cell_count r.x_min r.x_max r.y_min r.y_max) && true) _ _
            (rw (inc-dec (pos 1)) (ground (arith, lt))))

  asking-IsLive : IsLive asking
  unfolding process_axes_data reset_on_load start_over draw_quads announce
  asking-IsLive = record {
    no_reset = refl;
    playing = refl;
    no_pause = refl;
    no_replay = refl;
    no_forward = refl;
    draws = refl;
  }

  asking-fields :
      (asking.iteration ≡ pos 1)
      × (asking.max_iteration ≡ cell_count r.x_min r.x_max r.y_min r.y_max)
      × (requested asking.log ≡ pos 1 ∷ requested s.log)
      × (drawn asking.log ≡ dec (pos 1) ∷ drawn s.log)
  unfolding process_axes_data reset_on_load start_over draw_quads announce
  asking-fields = (inc-dec (pos 1), refl, ap (λ i. i ∷ requested s.log) (inc-dec (pos 1)), refl)

  -- A new query on any page, a click on "play", `n + 1` answers with parts, the first of which has
  -- the cells, and one without parts: where there are more cells than these answers, no exception,
  -- the iterations from 1 on asked for and drawn, once each and in order, but the last one only
  -- asked for, and the run stops at the last answer with parts, which becomes `maxIteration`.
  pub load_then_run :
      (n : ℕ) (a : Output F) (os : List (Output F)) (o : Output F) (cells : List Cell)
      → HasParts a
      → a.valid_cells ≡ some cells
      → All HasParts os
      → length os ≡ n
      → o.sl ≡ []
      → pos 1 +ℤ pos (suc n) ≤ℤ cell_count r.x_min r.x_max r.y_min r.y_max
      → (t : Page F) × ((click_play (process_axes_data dimension1 dimension2 r s)
            >>= answer_all dimension1 dimension2 (a ∷ os ++ o ∷ []))
          ≡ next t)
        × (t.play_flag ≡ false)
        × (inc t.iteration ≡ pos 1 +ℤ pos (suc n))
        × (t.max_iteration ≡ t.iteration)
        × (requested t.log ≡ history (pos 1) (suc (suc n)) ++ requested s.log)
        × (drawn t.log ≡ history (pos 1) (suc n) ++ dec (pos 1) ∷ drawn s.log)
  load_then_run n a os o cells p c h e none_left le =
      let (at, count, asked, shown) = asking-fields in
      let (t, run, k) =
        answer_all-IsRun dimension1 dimension2 n a os o cells asking asking-IsLive at p c h e
          none_left (rw (at, count) le) in
      let q : IsRun (pos 1) (suc n) asking t = subst (λ i. IsRun i (suc n) asking t) at k in
      (
        t,
        ap (λ f. f >>= answer_all dimension1 dimension2 (a ∷ os ++ o ∷ []))
              (click_play-loaded (omega (arith, +ℤ_parts (pos 1) (pos (suc n)))))
            ∙ run,
        q.stopped,
        q.last,
        q.bounded.0,
        q.asked
            ∙ ap (λ l. history (inc (pos 1)) (suc n) ++ l) asked
            ∙ sym (append_assoc (history (inc (pos 1)) (suc n)) (pos 1 ∷ []) (requested s.log)),
        q.shown ∙ ap (λ l. history (pos 1) (suc n) ++ l) shown,
      )
