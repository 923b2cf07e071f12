-- ===== src/Server.antt =====
-- The server of app.js: `serveStatic`, and one handler that looks at the path of a request. What it keeps: `vizType`,
-- the native module, the four files that assign the versions of the study, and the files of answers.
pub mod Viz
pub mod Charts
pub mod Responses
pub mod Client
pub mod Silent
pub mod Race
pub mod Examples
use Prim.Native.String.{String}
use inc_visage.Common.{ℕ, ℤ, pos, Bool, Option, none, some, List}
use inc_visage.Refine.{Part}
use inc_visage.Trend.Segment.{Segment}
use inc_visage.Trend.Play.{YRange}

-- The native module `incvisage`, with its state `N`, the parsed queries and answers `J`. The functions
-- for the range, the cells and the end of a run only read.
pub record Addon (F N J : Type 0) : Type 0 where
  pub set_viz_type : ℤ → N → N
  pub load_dataset : J → N → N × J
  pub load_predicate_data : J → N → N × J
  pub load_axes_data : J → N → N × J
  pub gen_chart : ℤ → N → N × List (Part (Segment F))
  -- `genChart` on the parsed query itself, and not on an object with its iteration.
  pub gen_chart_of : J → N → N × J
  pub get_axis_range : ℤ → N → YRange F
  pub to_continue : ℤ → N → Bool
  pub get_valid_cells : ℤ → N → J
  pub reset : N → N

-- The files /home/srahman7/incvisage-cpp/ta, ha, tb and hb.
pub data File : Type 0 where
  ta ha tb hb : File

-- What `readFile` gives, and whether `writeFile` goes through.
pub record Disk : Type 0 where
  pub content : File → Option String
  pub writable : File → Bool

-- The two kinds of answers, and the minute that is part of the name of their file.
pub data Study : Type 0 where
  trend heat : Study

pub record Minute : Type 0 where
  pub date : ℕ
  pub month : ℕ
  pub hours : ℕ
  pub minutes : ℕ

-- The answers of a participant, as the page sends them; an entry that is missing is `undefined`.
pub record Answers : Type 0 where
  pub question : List String
  pub answer : List String
  pub userans : List String
  pub iter : List String
  pub resp : List String
  pub correct : List String
  pub accuracy : List String
  pub score : List String

-- A line of the file of answers after the one with the titles.
pub record Row : Type 0 where
  pub no : ℕ
  pub question : Option String
  pub answer : Option String
  pub userans : Option String
  pub iter : Option String
  pub resp : Option String
  pub correct : Option String
  pub accuracy : Option String
  pub score : Option String

pub record Server (N : Type 0) : Type 0 where
  pub viz_type : ℤ
  pub native : N
  pub disk : Disk
  pub answers : Study → Minute → Option (List Row)

-- A member of an answer that may be missing, the empty text, or an array.
pub data Field (A : Type 0) : Type 0 where
  absent empty_text : Field A
  array : List A → Field A

-- The answer to `/getiterativedata1`. The members `max` and `min` repeat the range of `y`.
pub record Iterative (F J : Type 0) : Type 0 where
  pub valid_cells : Option J
  pub sl : Field (Part (Segment F))
  pub gl : Field (Part (Segment F))
  pub y : YRange F
  pub max : Option F
  pub min : Option F
  pub continued : Option Bool

-- What is sent.
pub data Body (F J : Type 0) : Type 0 where
  viz : ℤ → Body F J
  json : J → Body F J
  iterative : Iterative F J → Body F J
  nothing success : Body F J
  -- A file of new-web-test, by its path.
  file : String → Body F J

-- A request by its path, with its query decoded and parsed.
pub data Request (J : Type 0) : Type 0 where
  get_viz : String → Request J
  set_viz : ℤ → Request J
  get_load_data get_pred_data get_axes_data get_iterative_data_2 : J → Request J
  get_iterative_data_1 : ℤ → Request J
  reset_data : Request J
  store_response : Study → Minute → Answers → Request J
  -- Any other path.
  other : String → Request J
