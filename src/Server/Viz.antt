-- ===== src/Server/Viz.antt =====
-- `/getViz` and `/setViz` of app.js: which of its two versions a participant of the study sees.
use Prim.Native.String.{String}
use text.Mathlib.Text.{◌==◌ as str_eq}
use inc_visage.Common.{
  ℕ, zero, suc, ℤ, pos, eqb_ℤ, Bool, true, false, not, Option, none, some, List, [], ◌∷◌,
  if◌then◌else◌, ◌≡◌, refl, ap,
}
use inc_visage.Server.{Server, Disk, File, Body, Addon, viz}

-- The file of a version.
unfoldable pub file_of : ℤ → File
file_of viz_type =
    if eqb_ℤ viz_type (pos 1)
    then File.ta
    else if eqb_ℤ viz_type (pos 2)
    then File.ha
    else if eqb_ℤ viz_type (pos 3)
    then File.tb
    else File.hb

abbrev is_file : File → File → Bool
is_file File.ta File.ta = true
is_file File.ha File.ha = true
is_file File.tb File.tb = true
is_file File.hb File.hb = true
is_file _ _ = false

-- `writeFile`, which leaves the file alone where it fails.
unfoldable pub write_file : File → String → Disk → Disk
write_file f text d = record d {
  content =
      λ g. if is_file f g then (if d.writable f then some text else d.content g) else d.content g;
}

module _ {N F J : Type 0} where
  -- The callback of `readFile`. A failed reading and any other text leave the request unanswered.
  unfoldable pub alternate : File → Option String → Server N → Server N × Option (Body F J)
  alternate f none s = (s, none)
  alternate f (some d) s =
      if str_eq d "1"
      then (record s { disk = write_file f "2" s.disk }, some (viz (pos 1)))
      else if str_eq d "2"
      then (record s { disk = write_file f "1" s.disk }, some (viz (pos 2)))
      else (s, none)

  unfoldable pub handle_get_viz : String → Server N → Server N × Option (Body F J)
  handle_get_viz dataset s =
      if str_eq dataset "Flight"
      then alternate (file_of s.viz_type) (s.disk.content (file_of s.viz_type)) s
      else (s, some (viz s.viz_type))

  -- Nothing is sent.
  unfoldable pub handle_set_viz : Addon F N J → ℤ → Server N → Server N × Option (Body F J)
  handle_set_viz addon type s =
      let t =
        if eqb_ℤ type (pos 1)
        then pos 1
        else if eqb_ℤ type (pos 2)
        then pos 2
        else if eqb_ℤ type (pos 3)
        then pos 3
        else pos 4 in
      (record s { viz_type = t; native = addon.set_viz_type t s.native }, none)

  -- The replies to `n` requests for the version of the flight data, one after the other.
  unfoldable pub assign : ℕ → Server N → Server N × List (Option (Body F J))
  assign zero s = (s, [])
  assign (suc n) s =
      let (t, reply) = handle_get_viz "Flight" s in
      let (u, replies) = assign n t in (u, reply ∷ replies)

module _ {F J : Type 0} where
  -- The versions by turns, and the text that is in the file after `n` of them.
  abbrev pub turns : Bool → ℕ → List (Option (Body F J))
  turns b zero = []
  turns b (suc n) = some (viz (if b then pos 1 else pos 2)) ∷ turns (not b) n

abbrev pub text_of : Bool → String
text_of b = if b then "1" else "2"

abbrev pub turn_after : Bool → ℕ → Bool
turn_after b zero = b
turn_after b (suc n) = turn_after (not b) n

pub is_file-same : (f : File) → is_file f f ≡ true
is_file-same File.ta = refl
is_file-same File.ha = refl
is_file-same File.tb = refl
is_file-same File.hb = refl

-- The file of a version cannot be read, or holds neither of the two texts.
abbrev pub HoldsNoTurn : Option String → Type 0
HoldsNoTurn none = Unit
HoldsNoTurn (some d) = (str_eq d "1" ≡ false) × (str_eq d "2" ≡ false)

module _ {N : Type 0} where
  -- The file of the version holds the text, and can be written.
  abbrev pub HoldsTurn : Bool → Server N → Type 0
  HoldsTurn b s =
      (s.disk.content (file_of s.viz_type) ≡ some (text_of b))
      × (s.disk.writable (file_of s.viz_type) ≡ true)

  -- The server after a turn.
  abbrev turned : Bool → Server N → Server N
  turned b s = record s { disk = write_file (file_of s.viz_type) (text_of (not b)) s.disk }

  pub handle_get_viz-turn :
      {F J : Type 0} (b : Bool) (s : Server N)
      → HoldsTurn b s
      → handle_get_viz {F = F} {J = J} "Flight" s
        ≡ (turned b s, some (viz (if b then pos 1 else pos 2)))
  unfolding handle_get_viz alternate
  handle_get_viz-turn true s h = ap (λ o. alternate (file_of s.viz_type) o s) h.0
  handle_get_viz-turn false s h = ap (λ o. alternate (file_of s.viz_type) o s) h.0

  turned-HoldsTurn : (b : Bool) (s : Server N) → HoldsTurn b s → HoldsTurn (not b) (turned b s)
  unfolding write_file
  turned-HoldsTurn b s h = (rw (is_file-same (file_of s.viz_type), h.1), h.1)

  -- Requests for the version of the flight data, each after the file was written for the one before
  -- and with a file that can be written, are all answered, with versions 1 and 2 by turns from the one that the file holds; the
  -- file holds then the version that is next, and the version of the server stays.
  pub assign-turns :
      {F J : Type 0} (n : ℕ) (b : Bool) (s : Server N)
      → HoldsTurn b s
      → ((assign {F = F} {J = J} n s).1 ≡ turns b n)
        × HoldsTurn (turn_after b n) (assign {F = F} {J = J} n s).0
        × ((assign {F = F} {J = J} n s).0.viz_type ≡ s.viz_type)
  unfolding assign
  assign-turns zero b s h = (refl, h, refl)
  assign-turns (suc n) b s h = rw (handle_get_viz-turn b s h) (
      let (replies, holds, same) = assign-turns n (not b) (turned b s) (turned-HoldsTurn b s h) in
      (ap (some (viz (if b then pos 1 else pos 2)) ∷◌) replies, holds, same))
