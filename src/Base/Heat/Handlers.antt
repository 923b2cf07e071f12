-- ===== src/Base/Heat/Handlers.antt =====
-- The handlers that new-web-test/js/heatmap/playerBase.js has with the text of player.js, and its
-- button that plays and pauses.
use inc_visage.Common.{
  ℤ, true, false, ◌&&◌, Option, none, some, List, [], dec, ltb_ℤ, leb_ℤ, if◌then◌else◌,
}
use inc_visage.Js.{Flow, next, ◌>>=◌}
use inc_visage.Trend.State.{Icon, graph}
use inc_visage.Heat.{Page, Cell}
use inc_visage.Heat.Step.{click_forward, click_back}
use inc_visage.Heat.Seek.{seek}
use inc_visage.Heat.Save.{click_save}
use inc_visage.Heat.Toggle.{settle, rounds}
use inc_visage.Base.Heat.{
  BaseMap, with_continue, render_base, play_base, reset_base, simulate_play_base,
}

-- The legend of heatmapBase.js does not read the cells, so that the handlers run as if they were
-- known.
abbrev pub known : Option (List Cell) → Option (List Cell)
known none = some []
known (some cells) = some cells

module _ {F : Type 0} where
  abbrev pub on_page : (Page F → Flow (Page F)) → BaseMap F → Flow (BaseMap F)
  on_page f b = do
    t ← with_continue b.is_continue (f (record (b.page) { valid_cells = known b.page.valid_cells }))
    next (record t { page = record (t.page) { valid_cells = b.page.valid_cells } })

  unfoldable pub click_forward_base : BaseMap F → Flow (BaseMap F)
  click_forward_base = on_page click_forward

  unfoldable pub click_back_base : BaseMap F → Flow (BaseMap F)
  click_back_base = on_page click_back

  unfoldable pub seek_base : ℤ → BaseMap F → Flow (BaseMap F)
  seek_base v = on_page (seek v)

  unfoldable pub click_save_base : BaseMap F → Flow (BaseMap F)
  click_save_base = on_page click_save

  unfoldable pub click_repeat_base : BaseMap F → BaseMap F
  click_repeat_base b = reset_base (record b { page = record (b.page) { reset_flag = true } })

  -- Where the run is paused. The iteration that was asked for last is not there yet.
  unfoldable pub freeze_base : Page F → Flow (Page F)
  freeze_base s = if s.simplay_flag then next (record s { pause_iter = s.play_iter }) else (do
    let i = dec s.iteration
    t ← render_base graph i (some s.segment_arr) (record s { pause_iter = i })
    next (record t { seekbar_value = i; simplay_flag = true }))

  abbrev dimmed : BaseMap F → BaseMap F
  dimmed b = record b { page = record (b.page) { forward_lit = false; back_lit = false } }

  unfoldable pub replay_base : BaseMap F → Flow (BaseMap F)
  replay_base b = simulate_play_base (rounds b.page) (dimmed b)

  unfoldable pub show_last_base : Page F → Flow (Page F)
  show_last_base s = do
    t ← render_base graph s.max_iteration (some s.segment_arr) (record s { back_lit = true })
    next (record t { seekbar_value = s.max_iteration })

  -- The branch of a click on "play", after its assignments.
  unfoldable pub start_base : BaseMap F → Flow (BaseMap F)
  start_base b =
      let s = b.page in
      if leb_ℤ s.max_iteration s.iteration
      then if ltb_ℤ s.play_iter s.max_iteration && leb_ℤ s.iteration_low s.play_iter
        then replay_base
            (record b { page = record s { simplay_flag = true; play_iter = dec s.play_iter } })
        else with_continue b.is_continue (show_last_base s)
      else if s.simplay_flag
      then replay_base b
      else next (play_base (dimmed b))

  unfoldable pub click_base_icon : Icon → BaseMap F → Flow (BaseMap F)
  click_base_icon Icon.pause b =
      with_continue b.is_continue (do t ← freeze_base b.page; next (settle t))
  click_base_icon Icon.play b = start_base (record b {
    page = record (b.page) {
      icon = Icon.pause;
      forward_flag = false;
      back_flag = false;
      pause_flag = false;
      play_flag = true;
      play_noviz = false;
      reset_flag = false;
    };
  })

  -- The handler of `#play`; a dim button does nothing.
  unfoldable pub click_play_base : BaseMap F → Flow (BaseMap F)
  click_play_base b = if b.page.play_lit then click_base_icon b.page.icon b else next b
