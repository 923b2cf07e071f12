-- ===== src/Trend/Replayed/Rounds.antt =====
-- The rounds of a replay: `simulatePlay` draws the recorded iterations up to that of the run.
use inc_visage.Common.{
  ℕ, zero, suc, ◌<◌, pos, inc, inc_parts, ◌+ℤ◌, +ℤ_parts, eq_of_parts, ◌≤ℤ◌, ◌≡◌, refl, sym, ◌∙◌,
  List, [], ◌∷◌, ◌++◌, arith, append_assoc,
}
use inc_visage.Js.{next}
use inc_visage.Trend.Segment.{Segment}
use inc_visage.Trend.State.{State, draw_segments, announce}
use inc_visage.Trend.Replay.{simulate_play, resume}
use inc_visage.Trend.Live.{requested, drawn, history}
use inc_visage.Trend.Rest.{IsRecordedFrom, IsSameRun}
use inc_visage.Trend.Replayed.{
  IsReplaying, redrawn, redrawn-IsReplaying, simulate_play-more, simulate_play-last,
}

module _ {F : Type 0} where
  -- What a replay of `k` iterations leaves for the run against the server.
  pub record IsReplayed (k : ℕ) (s : State F) (u : State F) : Type 0 where
    pub kept : IsReplaying u
    pub same : IsSameRun s u
    pub asked : requested u.log ≡ requested s.log
    pub shown_all : drawn u.log ≡ history (inc s.play_iter) k ++ drawn s.log

  counted-IsReplaying :
      (s : State F) → IsReplaying s → IsReplaying (record s { play_iter = inc s.play_iter })
  counted-IsReplaying s r = record {
    no_reset = r.no_reset;
    replaying = r.replaying;
    no_pause = r.no_pause;
    shown = r.shown;
    no_flags = r.no_flags;
  }

  redrawn-left :
      (s : State F) (arr : List (Segment F)) (k : ℕ)
      → inc s.play_iter +ℤ pos (suc k) ≡ s.iteration
      → inc (redrawn s arr).play_iter +ℤ pos k ≡ (redrawn s arr).iteration
  unfolding draw_segments announce
  redrawn-left s arr k e = eq_of_parts (inc (inc s.play_iter) +ℤ pos k) s.iteration (
      ground (
        arith,
        +ℤ_parts (inc (inc s.play_iter)) (pos k),
        +ℤ_parts (inc s.play_iter) (pos (suc k)),
        inc_parts (inc s.play_iter),
      ))

  later :
      (s : State F) (arr : List (Segment F))
      → IsRecordedFrom (inc s.play_iter) s.iteration s.segment_chain
      → IsRecordedFrom
          (inc (redrawn s arr).play_iter)
          (redrawn s arr).iteration
          (redrawn s arr).segment_chain
  unfolding draw_segments announce
  later s arr chain =
      λ j (le : inc (inc s.play_iter) ≤ℤ j). chain j (ground (arith, inc_parts (inc s.play_iter)))

  IsReplayed-step :
      (s : State F) (arr : List (Segment F)) (k : ℕ) (u : State F)
      → IsReplayed k (redrawn s arr) u
      → IsReplayed (suc k) s u
  unfolding draw_segments announce
  IsReplayed-step s arr k u q = record {
    kept = q.kept;
    same = q.same;
    asked = q.asked;
    shown_all =
        q.shown_all
        ∙ sym
            (append_assoc (history (inc (inc s.play_iter)) k) (inc s.play_iter ∷ []) (drawn s.log));
  }

  -- Each round draws the recorded iteration that is next, and the last one goes back to the server.
  pub replay_all :
      (fuel k : ℕ) (s : State F)
      → IsReplaying s
      → k < fuel
      → inc s.play_iter +ℤ pos k ≡ s.iteration
      → IsRecordedFrom (inc s.play_iter) s.iteration s.segment_chain
      → (u : State F) × (simulate_play fuel s ≡ next (resume u)) × IsReplayed k s u
  replay_all zero k s r lt e chain = ground arith
  replay_all (suc fuel) zero s r lt e chain = (
    record s { play_iter = inc s.play_iter },
    simulate_play-last s r fuel (ground (arith, +ℤ_parts (inc s.play_iter) (pos 0))),
    record {
      kept = counted-IsReplaying s r;
      same = (refl, refl, refl);
      asked = refl;
      shown_all = refl;
    },
  )
  replay_all (suc fuel) (suc k) s r lt e chain =
      let (arr, h) =
        chain (inc s.play_iter) (ground arith)
          (ground (arith, +ℤ_parts (inc s.play_iter) (pos (suc k)))) in
      let (u, run, q) =
        replay_all fuel k (redrawn s arr) (redrawn-IsReplaying s r arr) (omega arith)
          (redrawn-left s arr k e) (later s arr chain) in
      (
        u,
        simulate_play-more s r fuel arr (ground (arith, +ℤ_parts (inc s.play_iter) (pos (suc k)))) h
            ∙ run,
        IsReplayed-step s arr k u q,
      )
