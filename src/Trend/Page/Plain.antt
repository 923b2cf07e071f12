-- ===== src/Trend/Page/Plain.antt =====
-- The trendline page where `drawAxes` does not throw: its handlers are those of the state.
use inc_visage.Common.{Bool, false, List, [], ◌∷◌, ◌≡◌, refl, ap, ◌∙◌, if_of_false}
use inc_visage.Js.{Flow, next, thrown, diverged, ◌>>=◌}
use inc_visage.Trend.State.{State}
use inc_visage.Trend.Play.{Margins, Output, gen_charts}
use inc_visage.Trend.Labelled.{
  gen_charts_labelled, click_forward_labelled, click_back_labelled, seek_labelled,
}
use inc_visage.Trend.Live.Answered.{answer_all}
use inc_visage.Trend.Step.{click_forward, click_back}
use inc_visage.Trend.Seek.{seek}
use inc_visage.Trend.Rest.Session.{handle, handle_all}
use inc_visage.Viewer.{Move, forward, back, to}
use inc_visage.Trend.Page.{
  Page, throws_axes, on_state, run_on, gen_charts_page, answer_all_page, move_page, move_all_page,
}

module _ {F : Type 0} where
  pub run_on-plain :
      (drawn labelled : State F → Flow (State F)) (p : Page F)
      → throws_axes p ≡ false
      → run_on drawn labelled p ≡ on_state p (drawn p.state)
  unfolding run_on
  run_on-plain drawn labelled p h = ap (on_state p) (if_of_false (throws_axes p) _ _ h)

  -- A handler after another, on the page and on its state.
  pub on_state-bind :
      (p : Page F) (f : Flow (State F)) (k : State F → Flow (State F)) (g : Page F → Flow (Page F))
      → ((t : State F) → g (record p { state = t }) ≡ on_state p (k t))
      → (on_state p f >>= g) ≡ on_state p (f >>= k)
  on_state-bind p (next t) k g h = h t
  on_state-bind p (thrown t) k g h = refl
  on_state-bind p diverged k g h = refl

  pub answer_all_page-plain :
      ⦃m : Margins F⦄
      → (b : Bool) (os : List (Output F)) (p : Page F) → throws_axes p ≡ false
      → answer_all_page b os p ≡ on_state p (answer_all b os p.state)
  unfolding answer_all_page answer_all gen_charts_page throws_axes
  answer_all_page-plain b [] p h = refl
  answer_all_page-plain b (o ∷ os) p h =
      ap (λ f. f >>= answer_all_page b os)
        (run_on-plain (gen_charts b o) (gen_charts_labelled b o) p h)
      ∙ on_state-bind p (gen_charts b o p.state) (answer_all b os) (answer_all_page b os)
          (λ t. answer_all_page-plain b os (record p { state = t }) h)

  move_page-plain :
      (v : Move) (p : Page F)
      → throws_axes p ≡ false
      → move_page v p ≡ on_state p (handle v p.state)
  unfolding move_page handle
  move_page-plain forward p h = run_on-plain click_forward click_forward_labelled p h
  move_page-plain back p h = run_on-plain click_back click_back_labelled p h
  move_page-plain (to v) p h = run_on-plain (seek v) (seek_labelled v) p h

  pub move_all_page-plain :
      (vs : List Move) (p : Page F)
      → throws_axes p ≡ false
      → move_all_page vs p ≡ on_state p (handle_all vs p.state)
  unfolding move_all_page handle_all throws_axes
  move_all_page-plain [] p h = refl
  move_all_page-plain (v ∷ vs) p h =
      ap (λ f. f >>= move_all_page vs) (move_page-plain v p h)
      ∙ on_state-bind p (handle v p.state) (handle_all vs) (move_all_page vs)
          (λ t. move_all_page-plain vs (record p { state = t }) h)
