-- ===== src/Trend.antt =====
-- The trendline page: new-web-test/js/trendline/player.js and the parts of trendline.js that the
-- player calls. `State` holds the globals and the controls, `Play` the run against the server,
-- `Replay` the run over recorded iterations, and `Toggle`, `Step`, `Seek` and `Save` the handlers.
-- `Labelled` has the handlers of a page whose axis has labels of months or days of the week, where
-- `drawAxes` throws, and `Page` the whole page. The other files are about pages whose axes are drawn.
pub mod Segment
pub mod State
pub mod Play
pub mod Replay
pub mod Toggle
pub mod Step
pub mod Seek
pub mod Save
pub mod Labelled
pub mod Page
pub mod Tiling
pub mod Answer
pub mod Live
pub mod Rest
pub mod Pause
pub mod Races
pub mod Replayed
pub mod Load
pub mod Edges
pub mod Examples
