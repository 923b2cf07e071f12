-- ===== src/Server/Examples/Races.antt =====
-- The theorems about requests to `/getViz` that overlap, at a server that holds version 2.
use inc_visage.Common.{ℕ, true, false, some, [], ◌∷◌, refl}
use inc_visage.Server.Viz.{file_of}
use inc_visage.Server.Race.{
  Race, Runs, done, step, reads, answers, read_file, reply, open_file, land, stay_silent,
}
use inc_visage.Server.Examples.{server}

abbrev race : Race ℕ ℕ ℕ
race = record { server = server; read = []; writings = []; opened = []; replies = [] }

-- A request is answered, and its writing empties the file; a second one reads the empty file and
-- stays without a reply; the writing lands.
abbrev after_first : Race ℕ ℕ ℕ
after_first = open_file true [] (reply false [] (read_file race))

abbrev after_second : Race ℕ ℕ ℕ
after_second = land true [] (stay_silent [] (read_file after_first))

-- Two requests are read and answered before anything is written.
abbrev two_answered : Race ℕ ℕ ℕ
two_answered = reply false [] (reply false (some "2" ∷ []) (read_file (read_file race)))

two_readings : Runs race two_answered
unfolding file_of read_file reply
two_readings = step (reads race) (
    step (reads (read_file race)) (
      step (answers (read_file (read_file race)) false [] (some "2" ∷ []) refl) (
        step (answers (reply false (some "2" ∷ []) (read_file (read_file race))) false [] [] refl)
          (done _))))
