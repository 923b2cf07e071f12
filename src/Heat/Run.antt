-- ===== src/Heat/Run.antt =====
-- The run of a heatmap to its end, which is an answer without parts.
pub mod End
pub mod Loaded
use Prim.Native.String.{String}
use inc_visage.Common.{
  ℕ, zero, suc, ℤ, pos, inc, dec, inc_parts, dec_parts, ◌+ℤ◌, ◌≤ℤ◌, ◌<ℤ◌, leb_ℤ, ltb_ℤ, eqb_ℤ, Bool,
  true, false, not, ◌&&◌, ◌||◌, if◌then◌else◌, if_of_true, if_of_false, Option, none, some, List,
  [], ◌∷◌, ◌++◌, ◌≡◌, refl, ap, ◌∙◌, sym, arith,
}
use inc_visage.Js.{Flow, next, ◌>>=◌, update}
use inc_visage.Refine.{Part, splice_parts}
use inc_visage.Trend.State.{graph}
use inc_visage.Heat.{Page, Quad, Cell, Effect, draw, request, reset_data, draw_quads, announce}
use inc_visage.Heat.Play.{
  Output, gen_charts, take_answer, take_parts, show_quads, play_on, play_next, set_averages,
  first_axes, end_run, end_buttons,
}
use inc_visage.Heat.Split.{
  HasLegend, shown, show_quads-shown, ranged, ranged-HasLegend, gen_charts-parts,
}

module _ {F : Type 0} where
  -- The page waits for the answer for `iteration`.
  pub record IsLive (s : Page F) : Type 0 where
    pub no_reset : s.reset_flag ≡ false
    pub playing : s.play_flag ≡ true
    pub no_pause : s.pause_flag ≡ false
    pub no_replay : s.simplay_flag ≡ false
    pub no_forward : s.forward_flag ≡ false
    pub draws : s.play_noviz ≡ false

  -- The iterations that were asked for, and those that were drawn, the last one first.
  abbrev pub requested : List (Effect F) → List ℤ
  requested [] = []
  requested (request i ∷ es) = i ∷ requested es
  requested (draw v i qs ∷ es) = requested es
  requested (reset_data ∷ es) = requested es

  abbrev pub drawn : List (Effect F) → List ℤ
  drawn [] = []
  drawn (request i ∷ es) = drawn es
  drawn (draw v i qs ∷ es) = i ∷ drawn es
  drawn (reset_data ∷ es) = drawn es

  -- What an answer with parts does to a live page.
  pub record IsStep (ps : List (Part (Quad F))) (s t : Page F) : Type 0 where
    pub live : IsLive t
    pub moved : t.iteration ≡ inc s.iteration
    pub same_max : t.max_iteration ≡ s.max_iteration
    pub same_low : t.iteration_low ≡ s.iteration_low
    pub log :
        t.log
        ≡ request (inc s.iteration)
          ∷ draw graph s.iteration (splice_parts 0 ps s.segment_arr)
          ∷ s.log
    pub chain :
        t.segment_chain ≡ update s.segment_chain s.iteration (splice_parts 0 ps s.segment_arr)

  module _ (dimension1 dimension2 : String) (o : Output F) (p : Part (Quad F))
      (ps : List (Part (Quad F))) (cells : List Cell) (s : Page F) (l : IsLive s)
      (e : o.sl ≡ p ∷ ps)
      (h : (first_axes dimension1 dimension2 o s).valid_cells ≡ some cells) where
    abbrev taken : Page F
    taken = take_parts (p ∷ ps) (ranged dimension1 dimension2 o s)

    abbrev has_legend : HasLegend taken
    has_legend = ranged-HasLegend dimension1 dimension2 o s (p ∷ ps) cells h

    abbrev seen : Page F
    seen = shown taken has_legend

    -- The page after the answer.
    abbrev pub stepped : Page F
    stepped = record seen {
      iteration = inc seen.iteration;
      log = request (inc seen.iteration) ∷ seen.log;
    }

    taken-draws : (taken.play_noviz || (taken.simplay_flag || taken.reset_flag)) ≡ false
    unfolding take_parts set_averages first_axes
    taken-draws = ground arith

    play_on-seen : s.iteration <ℤ s.max_iteration → play_on seen ≡ stepped
    unfolding play_on play_next draw_quads announce take_parts set_averages first_axes
    play_on-seen lt =
        if_of_true (leb_ℤ seen.iteration seen.max_iteration && not seen.reset_flag) _ _
          (ground arith)
        ∙ ap play_next (if_of_false seen.forward_flag _ _ (ground arith))
        ∙ if_of_false seen.reset_flag _ _ (ground arith)
        ∙ if_of_true (leb_ℤ (inc seen.iteration) seen.max_iteration && seen.play_flag) _ _
            (ground (arith, inc_parts s.iteration))

    pub gen_charts-stepped :
        s.iteration <ℤ s.max_iteration → gen_charts dimension1 dimension2 o s ≡ next stepped
    gen_charts-stepped lt =
        gen_charts-parts dimension1 dimension2 o s p ps l.no_reset e
        ∙ ap (λ f. f >>= λ u. next (play_on u)) (show_quads-shown taken has_legend taken-draws)
        ∙ ap next (play_on-seen lt)

    pub stepped-IsStep : IsStep (p ∷ ps) s stepped
    unfolding draw_quads announce take_parts set_averages first_axes
    stepped-IsStep = record {
      live = ground arith;
      moved = ground arith;
      same_max = ground arith;
      same_low = ground arith;
      log = refl;
      chain = refl;
    }

    pub stepped-cells : stepped.valid_cells ≡ some cells
    unfolding draw_quads announce take_parts set_averages
    stepped-cells = h

  -- The last answer.
  module _ (dimension1 dimension2 : String) (o : Output F) (s : Page F) (l : IsLive s)
      (e : o.sl ≡ []) where
    abbrev pub ended : Page F
    ended = end_run (ranged dimension1 dimension2 o s)

    pub gen_charts-ended : gen_charts dimension1 dimension2 o s ≡ next ended
    unfolding gen_charts take_answer
    gen_charts-ended =
        if_of_false s.reset_flag _ _ l.no_reset
        ∙ ap (λ sl. take_answer sl (ranged dimension1 dimension2 o s)) e

  -- The page after its run: it stops at the last iteration with parts, which bounds the seek bar and
  -- from which only the way back is open.
  pub record IsEnded (s t : Page F) : Type 0 where
    pub stopped : t.play_flag ≡ false
    pub last : t.iteration ≡ dec s.iteration
    pub bounded : (t.max_iteration ≡ dec s.iteration) × (t.seekbar_max_attr ≡ dec s.iteration)
    pub can_go_back :
        (t.back_flag ≡ true) × (t.back_lit ≡ true) × (t.backward_iter ≡ dec s.iteration)
    pub no_play : (t.play_lit ≡ false) × (t.forward_lit ≡ false)
    pub same_log : t.log ≡ s.log
    pub same_chain : t.segment_chain ≡ s.segment_chain

  module _ (dimension1 dimension2 : String) (o : Output F) (s : Page F) (l : IsLive s)
      (e : o.sl ≡ []) where
    pub ended-IsEnded : IsEnded s (ended dimension1 dimension2 o s l e)
    unfolding end_run end_buttons set_averages first_axes
    ended-IsEnded = record {
      stopped = refl;
      last = refl;
      bounded = (refl, refl);
      can_go_back = (refl, ground arith, ground arith);
      no_play = ground arith;
      same_log = refl;
      same_chain = refl;
    }
