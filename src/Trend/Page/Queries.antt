-- ===== src/Trend/Page/Queries.antt =====
-- New queries on the whole trendline page: `processAxesData` and `resetOnLoad`
-- (new-web-test/js/trendline/trendline.js).
use inc_visage.Common.{
  ℕ, suc, ℤ, pos, ◌+ℤ◌, +ℤ_parts, dec, ◌≤ℤ◌, ◌<ℤ◌, Bool, true, false, some, none, List, [], ◌∷◌,
  ◌++◌, All, length, get_elem?, ◌&&◌, ◌≡◌, refl, ap, ◌∙◌, if_of_true, if_of_false, arith,
}
use inc_visage.Js.{next, thrown, ◌>>=◌}
use inc_visage.Axis.{Label, label, tick_list, get_elem?-tick_list}
use inc_visage.Trend.State.{graph, announce}
use inc_visage.Trend.Play.{Margins, Output}
use inc_visage.Trend.Labelled.{render_labelled}
use inc_visage.Trend.Live.{IsFinished, requested, drawn, history}
use inc_visage.Trend.Live.Answered.{IsAnswer}
use inc_visage.Trend.Live.Start.{IsReady}
use inc_visage.Trend.Load.{
  Axes, process_axes_data, process_axes_data_lem, load_then_play, cleared_on_load, enabled,
}
use inc_visage.Trend.Page.{
  Page, is_labelled, has_any, throws_axes, on_state, click_play_page, answer_all_page,
  process_axes_data_page,
}
use inc_visage.Trend.Page.Runs.{click_then_answers}

has_any-first : {A : Type 0} (xs : List A) (x : A) → get_elem? xs 0 ≡ some x → has_any xs ≡ true
unfolding has_any
has_any-first [] x h = cc
has_any-first (y ∷ xs) x h = refl

module _ {F : Type 0} (axes : Axes) (p : Page F) where
  -- The page with the labels of the query.
  abbrev pub queried : Page F
  queried = record p { x_tick_list = (process_axes_data p.dimension axes p.state).x_tick_list }

  process_axes_data_page-plain :
      is_labelled p.dimension ≡ false
      → process_axes_data_page axes p
        ≡ next (record queried { state = (process_axes_data p.dimension axes p.state).page })
  unfolding process_axes_data_page throws_axes
  process_axes_data_page-plain h =
      ap (on_state queried) (
        if_of_false (is_labelled p.dimension && has_any queried.x_tick_list) _ _
          (ground (arith, h)))

  pub process_axes_data_page-throws :
      is_labelled p.dimension ≡ true
      → has_any queried.x_tick_list ≡ true
      → process_axes_data_page axes p
        ≡ thrown (record queried {
          state = announce graph (dec axes.x_min) (cleared_on_load (enabled axes p.state));
        })
  unfolding process_axes_data_page throws_axes render_labelled
  process_axes_data_page-throws h k = ap (on_state queried) (
      if_of_true (is_labelled p.dimension && has_any queried.x_tick_list) _ _
        (ground (arith, h, k)))

  pub labels_of_query : axes.x_min ≤ℤ axes.x_max → has_any queried.x_tick_list ≡ true
  unfolding process_axes_data
  labels_of_query le =
      let f : ℤ → Label = λ i. label p.dimension i i in
      has_any-first (tick_list f axes.x_min axes.x_max) (f (axes.x_min +ℤ pos 0)) (
        (get_elem?-tick_list f axes.x_min axes.x_max 0).0
          (omega (arith, +ℤ_parts axes.x_min (pos 0), le)))

  -- A new query with a dimension other than Month and Day Of Week, on any page and in the middle of
  -- a run too, ends with no exception. It leaves the label of each number of the range at its place
  -- and no other, the range, a page ready to play that is not being reset, and no request for an
  -- iteration.
  pub query_page :
      is_labelled p.dimension ≡ false
      → (q : Page F) × (process_axes_data_page axes p ≡ next q)
        × IsReady q.state
        × (q.state.x_min ≡ axes.x_min)
        × (q.state.x_max ≡ axes.x_max)
        × (q.state.reset_flag ≡ false)
        × (requested q.state.log ≡ requested p.state.log)
        × ((j : ℕ)
            → (axes.x_min +ℤ pos j ≤ℤ axes.x_max
                → get_elem? q.x_tick_list j
                  ≡ some (label p.dimension (axes.x_min +ℤ pos j) (axes.x_min +ℤ pos j)))
              × (axes.x_max <ℤ axes.x_min +ℤ pos j → get_elem? q.x_tick_list j ≡ none))
  query_page h =
      let (ready, lo, hi, fresh, asked, labels) = process_axes_data_lem p.dimension axes p.state in
      (
        record queried { state = (process_axes_data p.dimension axes p.state).page },
        process_axes_data_page-plain h,
        ready,
        lo,
        hi,
        fresh,
        asked,
        labels,
      )

  -- A new query, with a dimension other than Month and Day Of Week, on any page, a click on "play"
  -- and one answer with parts for each iteration of its range: no exception, these iterations
  -- asked for and drawn, once each and in order, and the end.
  pub load_page :
      ⦃m : Margins F⦄
      → (n : ℕ) (b : Bool) (os : List (Output F)) → is_labelled p.dimension ≡ false
      → All (IsAnswer axes.x_min axes.x_max) os
      → length os ≡ suc n
      → axes.x_min +ℤ pos n ≡ axes.x_max
      → (q : Page F) × ((process_axes_data_page axes p >>= click_play_page >>= answer_all_page b os)
          ≡ next q)
        × IsFinished q.state
        × (requested q.state.log ≡ history axes.x_min (suc n) ++ requested p.state.log)
        × (drawn q.state.log ≡ history axes.x_min (suc n) ++ dec axes.x_min ∷ drawn p.state.log)
  unfolding throws_axes
  load_page n b os h a l e =
      let (t, run, fin, asked, shown) = load_then_play n b os p.dimension axes p.state a l e in
      let u = process_axes_data p.dimension axes p.state in
      let q : Page F = record queried { state = u.page } in
      (
        record q { state = t },
        ap (λ f. f >>= click_play_page >>= answer_all_page b os) (process_axes_data_page-plain h)
            ∙ click_then_answers b os q (ground (arith, h))
            ∙ ap (on_state q) run,
        fin,
        asked,
        shown,
      )
