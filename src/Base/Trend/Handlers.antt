-- ===== src/Base/Trend/Handlers.antt =====
-- The handlers that new-web-test/js/trendline/playerBase.js has with the text of player.js; the
-- timers wait while they run.
use inc_visage.Common.{ℤ}
use inc_visage.Js.{Flow}
use inc_visage.Trend.State.{State}
use inc_visage.Trend.Step.{click_forward, click_back}
use inc_visage.Trend.Seek.{seek}
use inc_visage.Trend.Save.{click_save}
use inc_visage.Trend.Toggle.{click_repeat}
use inc_visage.Base.Trend.{BasePage, with_timers}

module _ {F : Type 0} where
  abbrev on_state : (State F → Flow (State F)) → BasePage F → Flow (BasePage F)
  on_state f b = with_timers b.timers (f b.state)

  unfoldable pub click_forward_base : BasePage F → Flow (BasePage F)
  click_forward_base = on_state click_forward

  unfoldable pub click_back_base : BasePage F → Flow (BasePage F)
  click_back_base = on_state click_back

  unfoldable pub seek_base : ℤ → BasePage F → Flow (BasePage F)
  seek_base v = on_state (seek v)

  unfoldable pub click_save_base : BasePage F → Flow (BasePage F)
  click_save_base = on_state click_save

  unfoldable pub click_repeat_base : BasePage F → BasePage F
  click_repeat_base b = record b { state = click_repeat b.state }
