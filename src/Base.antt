-- ===== src/Base.antt =====
-- The players that fetch whole answers from a server that samples without splitting
-- (new-web-test/js/trendline/playerBase.js and new-web-test/js/heatmap/playerBase.js). An answer
-- says itself whether there is more; the handlers that these files share with the other players are
-- theirs.
pub mod Trend
pub mod Heat
mod Examples
