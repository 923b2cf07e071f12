-- ===== src/Trend/Page/Moves.antt =====
-- Any number of moves on the whole trendline page (new-web-test/js/trendline/player.js).
use inc_visage.Common.{false, List, All, ◌≡◌, ap, ◌∙◌}
use inc_visage.Js.{next}
use inc_visage.Trend.State.{State}
use inc_visage.Trend.Rest.{IsRest, IsSameRun}
use inc_visage.Trend.Rest.Session.{IsAllowed, handle_all-IsRest}
use inc_visage.Viewer.{Move}
use inc_visage.Trend.Page.{Page, throws_axes, on_state, move_all_page}
use inc_visage.Trend.Page.Plain.{move_all_page-plain}

module _ {F : Type 0} where
  -- On a page at rest whose axes are drawn no sequence of clicks on "forward" and "back" and of moves
  -- of the seek bar throws, and the page stays at rest, with the run and its range as they were, if
  -- the bar is put within the range and, while iterations are still to come, short of the last
  -- recorded one.
  pub move_all_page-IsRest :
      (ms : List Move) (p : Page F)
      → throws_axes p ≡ false
      → IsRest p.state
      → All (IsAllowed p.state) ms
      → (t : State F) × (move_all_page ms p ≡ next (record p { state = t }))
        × IsRest t
        × IsSameRun p.state t
  move_all_page-IsRest ms p h r a =
      let (t, run, rest, same) = handle_all-IsRest ms p.state r a in
      (t, move_all_page-plain ms p h ∙ ap (on_state p) run, rest, same)
