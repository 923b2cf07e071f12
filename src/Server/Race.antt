-- ===== src/Server/Race.antt =====
-- Requests to `/getViz` of app.js that overlap. `readFile` reads the file, and its callback runs later,
-- answers and calls `writeFile`, which first opens and empties the file and later puts the text there.
-- Any other event may come between two of these.
pub mod Same
use Prim.Native.String.{String}
use inc_visage.Common.{
  pos, Bool, true, false, not, Option, none, some, List, [], ◌∷◌, ◌++◌, All, if◌then◌else◌, ◌≡◌,
  ◌≢◌, ◌⊎◌,
}
use inc_visage.Server.{Server, Body, viz}
use inc_visage.Server.Viz.{file_of, write_file, text_of, HoldsNoTurn}

-- The server, what was read for the callbacks that are still to run, the turns whose writing has not
-- begun, those whose writing has emptied the file, and the replies, the last ones first; `none` is a
-- request whose callback has sent nothing.
pub record Race (N F J : Type 0) : Type 0 where
  pub server : Server N
  pub read : List (Option String)
  pub writings : List Bool
  pub opened : List Bool
  pub replies : List (Option (Body F J))

-- A turn, or the text of a file that was emptied.
abbrev pub IsTurnOrEmpty : Option String → Type 0
IsTurnOrEmpty o = ((b : Bool) × (o ≡ some (text_of b))) ⊎ (o ≡ some "")

-- What holds of all elements holds of one among them, and of the others.
pub All-remove :
    {A : Type 0} (P : A → Type 0) (before after : List A) (x : A)
    → All P (before ++ x ∷ after)
    → All P (before ++ after) × P x
All-remove P [] after x h = (h.1, h.0)
All-remove P (y ∷ before) after x h =
    let (rest, at) = All-remove P before after x h.1 in ((h.0, rest), at)

module _ {F J : Type 0} where
  -- The reply of a callback that has read the turn `b`.
  abbrev pub reply_of : Bool → Option (Body F J)
  reply_of b = some (viz (if b then pos 1 else pos 2))

module _ {N F J : Type 0} where
  -- The file of the version that the server is set to.
  abbrev pub file_text : Race N F J → Option String
  file_text r = r.server.disk.content (file_of r.server.viz_type)

  -- The file is read for a request.
  unfoldable pub read_file : Race N F J → Race N F J
  read_file r = record r { read = file_text r ∷ r.read }

  -- The callback of a request that has read the turn `b`: the reply goes out, and `writeFile` is
  -- called with the other turn. The other readings wait.
  unfoldable pub reply : Bool → List (Option String) → Race N F J → Race N F J
  reply b os r = record r {
    read = os;
    writings = not b ∷ r.writings;
    replies = reply_of b ∷ r.replies;
  }

  -- The callback of a request that has read neither turn: it has no branch for that.
  unfoldable pub stay_silent : List (Option String) → Race N F J → Race N F J
  stay_silent os r = record r { read = os; replies = none ∷ r.replies }

  -- The file is written, or fails to be, for which the code does nothing.
  unfoldable pub put_text : String → Race N F J → Race N F J
  put_text text r = record r {
    server = record (r.server) { disk = write_file (file_of r.server.viz_type) text r.server.disk };
  }

  -- A writing of the turn `b` empties the file; the others of the list wait.
  unfoldable pub open_file : Bool → List Bool → Race N F J → Race N F J
  open_file b ws r = record (put_text "" r) { writings = ws; opened = b ∷ r.opened }

  -- The text of the turn `b` comes into the file; the others of the list are still to come.
  unfoldable pub land : Bool → List Bool → Race N F J → Race N F J
  land b os r = record (put_text (text_of b) r) { opened = os }

  -- One event, in any order.
  pub data Step : Race N F J → Race N F J → Type 0 where
    reads : (r : Race N F J) → Step r (read_file r)
    answers :
        (r : Race N F J) (b : Bool) (before after : List (Option String))
        → r.read ≡ before ++ some (text_of b) ∷ after
        → Step r (reply b (before ++ after) r)
    misses :
        (r : Race N F J) (o : Option String) (before after : List (Option String))
        → r.read ≡ before ++ o ∷ after
        → HoldsNoTurn o
        → Step r (stay_silent (before ++ after) r)
    opens :
        (r : Race N F J) (b : Bool) (before after : List Bool)
        → r.writings ≡ before ++ b ∷ after
        → Step r (open_file b (before ++ after) r)
    lands :
        (r : Race N F J) (b : Bool) (before after : List Bool)
        → r.opened ≡ before ++ b ∷ after
        → Step r (land b (before ++ after) r)

  pub data Runs : Race N F J → Race N F J → Type 0 where
    done : (r : Race N F J) → Runs r r
    step : {r s t : Race N F J} → Step r s → Runs s t → Runs r t

  -- The file can be written, and it holds a turn but while a writing is under way, when it may be
  -- empty; so does what was read; and a reply, where there is one, is version 1 or 2.
  pub record IsServed (r : Race N F J) : Type 0 where
    pub writable : r.server.disk.writable (file_of r.server.viz_type) ≡ true
    pub holds :
        ((b : Bool) × (file_text r ≡ some (text_of b)))
        ⊎ ((file_text r ≡ some "") × (r.opened ≢ []))
    pub came : All IsTurnOrEmpty r.read
    pub answered : All (λ o. (o ≡ none) ⊎ ((b : Bool) × (o ≡ reply_of b))) r.replies
