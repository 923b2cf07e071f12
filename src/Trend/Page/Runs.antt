-- ===== src/Trend/Page/Runs.antt =====
-- Runs of the whole trendline page against the server
-- (new-web-test/js/trendline/player.js).
use inc_visage.Common.{
  ℕ, suc, ℤ, pos, ◌+ℤ◌, ◌≤ℤ◌, Bool, false, some, List, ◌∷◌, ◌++◌, All, length, ◌≡◌, ap, ◌∙◌, ◌⊎◌,
  eqb_ℤ,
}
use inc_visage.Js.{next, ◌>>=◌}
use inc_visage.Refine.{Part}
use inc_visage.Trend.Segment.{Segment}
use inc_visage.Trend.State.{State}
use inc_visage.Trend.Play.{Margins, Output, gen_charts}
use inc_visage.Trend.Toggle.{click_play, click_repeat}
use inc_visage.Trend.Labelled.{click_play_labelled, click_repeat_labelled, gen_charts_labelled}
use inc_visage.Trend.Live.{IsFinished, requested, drawn, history}
use inc_visage.Trend.Live.Answered.{IsAnswer, answer_all}
use inc_visage.Trend.Live.Start.{IsReady, play_to_end}
use inc_visage.Trend.Edges.{repeat_then_answers}
use inc_visage.Server.{Addon}
use inc_visage.Server.Charts.{result}
use inc_visage.Server.Client.{read_output, gen_charts-answer}
use inc_visage.Trend.Page.{
  Page, throws_axes, on_state, click_play_page, click_repeat_page, gen_charts_page, answer_all_page,
}
use inc_visage.Trend.Page.Plain.{run_on-plain, on_state-bind, answer_all_page-plain}

module _ {F : Type 0} where
  -- A click on "play", and then answers.
  pub click_then_answers :
      ⦃m : Margins F⦄
      → (b : Bool) (os : List (Output F)) (p : Page F) → throws_axes p ≡ false
      → (click_play_page p >>= answer_all_page b os)
        ≡ on_state p (click_play p.state >>= answer_all b os)
  unfolding click_play_page throws_axes
  click_then_answers b os p h =
      ap (λ f. f >>= answer_all_page b os) (run_on-plain click_play click_play_labelled p h)
      ∙ on_state-bind p (click_play p.state) (answer_all b os) (answer_all_page b os)
          (λ t. answer_all_page-plain b os (record p { state = t }) h)

  -- On a page that was reset and whose axes are drawn, so with a dimension other than the two that
  -- are labelled or with no labels, a click on "play" and one answer with parts for each iteration
  -- from `xMin` to `xMax` end with no exception: exactly these iterations are asked for and drawn,
  -- once each and in this order; all of them are recorded; and the page stops with only "back" lit.
  pub page_to_end :
      ⦃m : Margins F⦄
      → (n : ℕ) (b : Bool) (os : List (Output F)) (p : Page F) → throws_axes p ≡ false
      → IsReady p.state
      → All (IsAnswer p.state.x_min p.state.x_max) os
      → length os ≡ suc n
      → p.state.x_min +ℤ pos n ≡ p.state.x_max
      → (t : State F) × ((click_play_page p >>= answer_all_page b os)
          ≡ next (record p { state = t }))
        × IsFinished t
        × (t.x_max ≡ p.state.x_max)
        × (requested t.log ≡ history p.state.x_min (suc n) ++ requested p.state.log)
        × (drawn t.log ≡ history p.state.x_min (suc n) ++ drawn p.state.log)
        × ((j : ℤ)
            → p.state.x_min ≤ℤ j
            → j ≤ℤ p.state.x_max
            → (arr : List (Segment F)) × (t.segment_chain j ≡ some arr))
  page_to_end n b os p h r a l e =
      let (t, run, fin, end, asked, shown, recorded) = play_to_end n b os p.state r a l e in
      (t, click_then_answers b os p h ∙ ap (on_state p) run, fin, end, asked, shown, recorded)

  -- A click on "repeat" on a page whose axes are drawn, and the answers to its open requests after
  -- it: none is taken in or followed by a request, nothing throws, and the page is ready to play.
  pub repeat_page :
      ⦃m : Margins F⦄
      → (b : Bool) (os : List (Output F)) (p : Page F) → throws_axes p ≡ false
      → (t : State F) × ((click_repeat_page p >>= answer_all_page b os)
          ≡ next (record p { state = t }))
        × IsReady t
        × (requested t.log ≡ requested p.state.log)
        × (t.segment_chain ≡ p.state.segment_chain)
  unfolding click_repeat_page throws_axes
  repeat_page b os p h =
      let (t, run, ready, asked, chain) = repeat_then_answers b os p.state in
      (
        t,
        ap (λ f. f >>= answer_all_page b os)
              (run_on-plain (λ s. next (click_repeat s)) click_repeat_labelled p h)
            ∙ answer_all_page-plain b os (record p { state = click_repeat p.state }) h
            ∙ ap (on_state p) run,
        ready,
        asked,
        chain,
      )

  -- A page whose axes are drawn takes every answer of the server for an iteration without an
  -- exception, where the version is not the first or the native module has given at least one part.
  pub answer_page :
      {N J : Type 0} ⦃m : Margins F⦄
      → (addon : Addon F N J) (b : Bool) (v i : ℤ) (n : N) (ps : List (Part (Segment F)))
        (p : Page F)
      → throws_axes p ≡ false
      → (eqb_ℤ v (pos 1) ≡ false)
        ⊎ ((q : Part (Segment F)) × (qs : List (Part (Segment F))) × (ps ≡ q ∷ qs))
      → (t : State F) × (gen_charts_page b (read_output (result addon v i n ps)) p
          ≡ next (record p { state = t }))
  unfolding gen_charts_page
  answer_page addon b v i n ps p h c =
      let o = read_output (result addon v i n ps) in
      let (t, run) = gen_charts-answer addon b v i n ps p.state c in
      (t, run_on-plain (gen_charts b o) (gen_charts_labelled b o) p h ∙ ap (on_state p) run)
