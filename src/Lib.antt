-- ===== src/Lib.antt =====
-- IncVisage: trendlines and heatmaps that are refined while they are drawn.
--
-- The server (app.js) keeps the version of the study, calls a native module for the next iteration of
-- a chart, and stores the answers of participants. A page (new-web-test/js/trendline) asks for one
-- iteration after the other: `play` sends a request, `genCharts` takes the answer in, draws it and
-- plays on. Each array of segments is recorded, so that the run can be paused and its iterations seen
-- again with "forward", "back", the seek bar, or "play", which draws them up to the run.
--
-- Common, Common/*: tests on the native numbers, arrays as lists, integers over the native numbers.
-- Js: what is used of the language: exceptions, `splice`, arrays written at any index.
-- Refine: the loop of `genCharts` (new-web-test/js/trendline/player.js) that splices an answer.
-- Trend/Segment, Trend/State: the globals of trendline.js and player.js, the controls of the page, the
--   effects that leave it, `render` and `reset`. The handlers are functions from the state to a state
--   or to an exception with the state that it leaves.
-- Trend/Play: `play` and `genCharts`. Trend/Replay: `simulatePlay` and `genSimCharts`, with fuel.
-- Trend/Toggle: the handlers of `#play` and `#repeat`. Trend/Step: `#forward` and `#back`.
-- Trend/Seek: the listener of the seek bar. Trend/Save: `#save`.
-- Trend/Labelled, Trend/Page: the handlers of a page with labels of months or days of the week, where
--   `drawAxes` throws, and the whole page, which runs the ones or the others. In Page/Runs, Queries,
--   Moves, Throws: what holds of it. The other files of Trend are about pages whose axes are drawn, as
--   are Histogram and Base/Trend, whose `drawAxes` has the same line.
-- Trend/Load: `processAxesData` and `resetOnLoad` of trendline.js.
-- Axis, Axis/Days: the labels of an axis and `dayText` of trendline.js.
-- Heat: the globals of new-web-test/js/heatmap and its `render`. Heat/Play: `play`, `genCharts` and
--   `reset` of heatmap/player.js. Heat/Load: `processAxesData` and `resetOnLoad` of heatmap.js.
-- Heat/Toggle, Step, Seek, Save: the handlers of heatmap/player.js, with `simulatePlay` in Toggle.
-- Heat/Rectangles: where `render` puts a quad. Heat/Regions, Split, Run, Run/End: the array of quads as
--   a partition of the cells, and the run to its end. Heat/Rest, Replayed, Pause: as for the trendline.
-- Server: the state of app.js; Server/Viz: `/getViz` and `/setViz`; Server/Charts:
--   `/getiterativedata1`; Server/Responses: the files of answers; Server/Client: the whole handler, and
--   its answers as the page reads them; Server/Silent: the requests without an answer.
--   Server/Race, Race/Same: the readings, callbacks and writings of overlapping requests to `/getViz`
--   as a step relation.
-- Viewer, Viewer/Laws: the abstract view of a recording. Trend/Rest/Viewing, Heat/Rest/Viewing: that
--   the handlers of a paused page follow it.
-- Former, Former/*: the former heatmap (new-web-test/js/old_/heatmap), which undoes answers to go back.
--   Former/Chains: the loop that undoes them. Former/Play, Replay, Toggle, Seek, Step: its handlers, with
--   the timers that wait. Former/Answers, Alike, Alike/Drawn: beside the present heatmap.
-- Histogram, Histogram/*: the former histogram (new-web-test/js/old_/histogram), which undoes answers of
--   two parts, and the estimates that it draws as dots. Histogram/Recorded, Undoable, Answers, Drawn,
--   Replayed: what it can undo, and what its handlers draw. Refine/Lift: arrays with `undefined`.
-- Base, Base/Trend, Base/Heat: the run of whole answers of trendline/playerBase.js and
--   heatmap/playerBase.js, and `render` of heatmapBase.js; in Handlers their handlers. Base/Trend/Run, Base/Heat/End: to its end.
-- Trend/Tiling, Answer, Live, Rest, Pause, Races, Replayed, Edges: the invariants and what follows from them.
-- The files named Examples: the theorems at concrete states.
--
-- An exception ends a handler and leaves the assignments made before it. A request and its answer are
-- two events, so that clicks may come between them. The averages are of any type, with the two
-- operations of the margin as parameters. The fuel of a replay is one more than the distance from
-- `playIter` to `iteration`, and of the loop over the labels one more than the length of the range,
-- since each round moves one of the two by one. The native module, the file system and the parsed JSON
-- are parameters; a request to the server is one step, with its reading and writing of a file, but in
-- Server/Race, where the reading, the callback and the two halves of the writing are events. Which files
-- `serveStatic` has is a parameter.
--
-- A timer of playerBase.js or of a former player is an event of its own.
--
-- Not modelled: the delays of the timers, the lines of `play` for the button "submit" of the questionnaire, what d3 draws beyond the points of the line, the tool tip, the option lists, the
-- questionnaire, and the engine in C++ (needletail-code-base).
pub mod Axis
pub mod Base
pub mod Common
pub mod Former
pub mod Heat
pub mod Histogram
pub mod Js
pub mod Refine
pub mod Server
pub mod Trend
pub mod Viewer
