-- ===== src/Trend/Page/Throws.antt =====
-- Queries and answers on a trendline page whose axis has labels of months or days of the week
-- (new-web-test/js/trendline/player.js and trendline.js).
use inc_visage.Common.{
  Bool, true, false, some, List, ◌∷◌, ◌||◌, ◌≡◌, refl, ap, ◌∙◌, sym, if_of_true, if_of_false, arith,
  leb_ℤ, ◌≤ℤ◌, ◌&&◌, inc, dec, inc_parts, dec_parts, inc-dec,
}
use inc_visage.Js.{next, thrown, ◌>>=◌, update_self}
use inc_visage.Refine.{Part, splice_parts}
use inc_visage.Trend.Segment.{Segment}
use inc_visage.Trend.State.{State, graph, announce}
use inc_visage.Trend.Play.{
  play_next, Margins, Output, YRange, take_segments, set_range, first_range,
}
use inc_visage.Trend.Answer.{ranged, with_segments, segment_arr-ranged, iteration-ranged}
use inc_visage.Trend.Labelled.{
  click_play_labelled, click_icon_labelled, start_labelled, play_labelled, render_labelled,
  show_labelled, play_on_labelled, gen_charts_labelled,
}
use inc_visage.Trend.Live.{requested, drawn}
use inc_visage.Trend.Live.Start.{IsReady, asking}
use inc_visage.Trend.Load.{Axes, cleared_on_load, enabled}
use inc_visage.Trend.Page.Queries.{queried, process_axes_data_page-throws, labels_of_query}
use inc_visage.Trend.Page.{
  is_labelled, click_play_page, process_axes_data_page, Page, throws_axes, on_state, run_on,
  gen_charts_page,
}

module _ {F : Type 0} ⦃m : Margins F⦄ where
  -- What keeps a page from drawing an answer.
  abbrev pub hides : State F → Bool
  hides s = s.play_noviz || (s.simplay_flag || s.reset_flag)

  hides-ranged : (b : Bool) (y : YRange F) (s : State F) → hides (ranged b y s) ≡ hides s
  unfolding set_range first_range
  hides-ranged b y s = ground arith

  log-ranged_page : (b : Bool) (y : YRange F) (s : State F) → (ranged b y s).log ≡ s.log
  unfolding set_range first_range
  log-ranged_page b y s = ground arith

  module _ (b : Bool) (o : Output F) (q : Part (Segment F)) (qs : List (Part (Segment F)))
      (s : State F) (parts : o.sl ≡ q ∷ qs) where
    -- The page with the new segments, before it is drawn.
    abbrev taken : State F
    taken =
        let arr = splice_parts 0 (q ∷ qs) (ranged b o.y s).segment_arr in
        with_segments arr arr (ranged b o.y s)

    take_segments-taken : take_segments o (ranged b o.y s) ≡ next taken
    unfolding take_segments
    take_segments-taken = rw parts refl

    gen_charts_labelled-throws :
        s.reset_flag ≡ false
        → hides s ≡ false
        → gen_charts_labelled b o s ≡ thrown (announce graph taken.iteration taken)
    unfolding gen_charts_labelled show_labelled render_labelled
    gen_charts_labelled-throws r d =
        if_of_false s.reset_flag _ _ r
        ∙ ap (λ f. f >>= λ t. show_labelled t >>= play_on_labelled) take_segments-taken
        ∙ ap (λ f. f >>= play_on_labelled)
            (if_of_false (hides taken) _ _ (hides-ranged b o.y s ∙ d))

  -- An answer that is drawn: the segments are taken in and recorded, and `drawAxes` throws.
  answer_labelled :
      (b : Bool) (o : Output F) (q : Part (Segment F)) (qs : List (Part (Segment F))) (p : Page F)
      → throws_axes p ≡ true
      → o.sl ≡ q ∷ qs
      → p.state.reset_flag ≡ false
      → hides p.state ≡ false
      → (t : State F) × (gen_charts_page b o p ≡ thrown (record p { state = t }))
        × (t.segment_arr ≡ splice_parts 0 (q ∷ qs) p.state.segment_arr)
        × (t.segment_chain p.state.iteration ≡ some t.segment_arr)
        × (t.log ≡ p.state.log)
  unfolding gen_charts_page run_on announce
  answer_labelled b o q qs p h parts r d =
      let u = taken b o q qs p.state parts in
      (
        announce graph u.iteration u,
        ap (on_state p) (
            if_of_true (throws_axes p) _ _ h
            ∙ gen_charts_labelled-throws b o q qs p.state parts r d),
        ap (splice_parts 0 (q ∷ qs)) (segment_arr-ranged b o.y p.state),
        ap u.segment_chain (sym (iteration-ranged b o.y p.state))
            ∙ update_self (ranged b o.y p.state).segment_chain u.iteration u.segment_arr,
        log-ranged_page b o.y p.state,
      )

module _ {F : Type 0} where
  click_play_labelled-ready :
      (s : State F) → IsReady s → s.x_min ≤ℤ s.x_max → click_play_labelled s ≡ next (asking s)
  unfolding click_play_labelled click_icon_labelled start_labelled play_labelled play_next
  click_play_labelled-ready s r h =
      let early : leb_ℤ s.x_max s.iteration ≡ false =
        ground (arith, r.before_first, dec_parts s.x_min) in
      let fits : (leb_ℤ (inc s.iteration) s.x_max && true) ≡ true =
        ground (arith, r.before_first, dec_parts s.x_min, inc_parts s.iteration) in
      if_of_true s.play_lit (click_icon_labelled s.icon s) (next s) r.can_play
      ∙ ap (λ i. click_icon_labelled i s) r.shows_play
      ∙ if_of_false (leb_ℤ s.x_max s.iteration) _ _ early
      ∙ if_of_false s.simplay_flag _ _ r.no_replay
      ∙ ap next (if_of_true (leb_ℤ (inc s.iteration) s.x_max && true) _ _ fits)

  module _ ⦃m : Margins F⦄ (axes : Axes) (p : Page F) where
    -- The page that the exception of the query leaves.
    abbrev left_by_query : State F
    left_by_query = announce graph (dec axes.x_min) (cleared_on_load (enabled axes p.state))

    left-IsReady : IsReady left_by_query
    unfolding announce
    left-IsReady = record {
      can_play = refl;
      shows_play = refl;
      before_first = refl;
      no_replay = refl;
    }

    left-range : (left_by_query.x_min ≡ axes.x_min) × (left_by_query.x_max ≡ axes.x_max)
    unfolding announce
    left-range = (refl, refl)

    -- With the dimension Month or Day Of Week a new query for a range that is not empty throws on any
    -- page; a click on "play" still asks for the first iteration; and its answer, with parts, throws
    -- after its segments were recorded: nothing is drawn, and nothing else is asked for.
    pub query_labelled :
        (b : Bool) (o : Output F) (part : Part (Segment F)) (parts : List (Part (Segment F)))
        → is_labelled p.dimension ≡ true
        → axes.x_min ≤ℤ axes.x_max
        → o.sl ≡ part ∷ parts
        → (q : Page F) × (u : Page F) × (t : Page F) × (process_axes_data_page axes p ≡ thrown q)
          × (click_play_page q ≡ next u)
          × (gen_charts_page b o u ≡ thrown t)
          × (t.state.segment_chain axes.x_min ≡ some t.state.segment_arr)
          × (requested t.state.log ≡ axes.x_min ∷ requested p.state.log)
          × (drawn t.state.log ≡ drawn p.state.log)
    unfolding click_play_page run_on throws_axes announce
    query_labelled b o part parts h le e =
        let q : Page F = record (queried axes p) { state = left_by_query } in
        let u : Page F = record q { state = asking left_by_query } in
        let throws : throws_axes q ≡ true = ground (arith, h, labels_of_query axes p le) in
        let (t, run, arr, chain, log) = answer_labelled b o part parts u throws e refl refl in
        let first : inc (dec axes.x_min) ≡ axes.x_min = inc-dec axes.x_min in
        (
          q,
          u,
          record u { state = t },
          process_axes_data_page-throws axes p h (labels_of_query axes p le),
          ap (on_state q) (
              if_of_true (throws_axes q) _ _ throws
              ∙ click_play_labelled-ready left_by_query left-IsReady le),
          run,
          ap t.segment_chain (sym first) ∙ chain,
          ap requested log ∙ ap (λ i. i ∷ requested p.state.log) first,
          ap drawn log,
        )
