-- ===== src/Trend/Save.antt =====
-- The handler of `#save`, which draws an iteration into the snapshot and once more into the graph.
use inc_visage.Common.{ℤ, if◌then◌else◌}
use inc_visage.Js.{Flow, ◌>>=◌}
use inc_visage.Trend.State.{State, graph, snapshot, render}

module _ {F : Type 0} where
  unfoldable pub snap_iter : State F → ℤ
  snap_iter s =
      if s.back_flag
      then s.backward_iter
      else if s.forward_flag
      then s.forward_iter
      else if s.simplay_flag
      then s.play_iter
      else s.iteration

  unfoldable pub click_save : State F → Flow (State F)
  click_save s = do
    let i = snap_iter s
    t ← render snapshot i (s.segment_chain i) s
    render graph i (t.segment_chain i) t
