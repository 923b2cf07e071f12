-- ===== src/Server/Race/Same.antt =====
-- Requests to `/getViz` of app.js whose callbacks all run before the file is written again.
use Prim.Native.String.{String}
use text.Mathlib.Text.{◌==◌ as str_eq}
use inc_visage.Common.{Bool, true, false, not, ◌&&◌, Option, none, some, All, ◌≡◌}
use inc_visage.Server.Viz.{text_of}
use inc_visage.Server.Race.{
  Race, Step, reads, answers, misses, opens, lands, Runs, done, step, reply_of, file_text,
}

is_one : Option String → Bool
is_one none = false
is_one (some d) = str_eq d "1"

module _ {N F J : Type 0} where
  -- Whether an event leaves the file alone.
  unfoldable pub keeps_file : {r t : Race N F J} → Step r t → Bool
  keeps_file (reads r) = true
  keeps_file (answers r b before after e) = true
  keeps_file (misses r o before after e n) = true
  keeps_file (opens r b before after e) = false
  keeps_file (lands r b before after e) = false

  unfoldable pub all_keep_file : {r t : Race N F J} → Runs r t → Bool
  all_keep_file (done r) = true
  all_keep_file (step s run) = keeps_file s && all_keep_file run

  -- The file, and each text that was read from it, is the turn `b`; each reply is its version, and
  -- each writing that has not begun is of the other turn.
  pub record IsSame (b : Bool) (r : Race N F J) : Type 0 where
    pub holds : file_text r ≡ some (text_of b)
    pub came : All (λ o. o ≡ some (text_of b)) r.read
    pub answered : All (λ o. o ≡ reply_of b) r.replies
    pub pending : All (λ c. c ≡ not b) r.writings
