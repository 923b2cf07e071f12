-- ===== src/Trend/Examples/Handlers/Views.antt =====
-- A page at rest that shows the recording at its cursor, and the theorems about its views at it.
use inc_visage.Common.{ℕ, pos, inc, ◌-ℤ◌, refl, ◌≡◌, List, [], ◌∷◌, arith}
use inc_visage.Js.{next}
use inc_visage.Viewer.{Move, move_all}
use inc_visage.Trend.State.{State, caption}
use inc_visage.Trend.Rest.Session.{handle_all}
use inc_visage.Trend.Rest.Viewing.{IsViewing, viewer}
use inc_visage.Trend.Rest.Viewing.Moves.{
  handle_all-viewer, seek_then_moves, forward_then_back-shown,
}
use inc_visage.Trend.Examples.Handlers.{at_rest, is_rest, arr}

is_viewing : IsViewing at_rest
unfolding inc caption ◌-ℤ◌
is_viewing = record {
  rest = is_rest;
  synced = refl;
  lit_back = refl;
  dim_forward = λ e. ground (arith, e);
  covered = omega arith;
  showing = record {
    frame = arr;
    recorded = refl;
    before = [];
    drawn = refl;
    captioned = refl;
    barred = refl;
  };
}

abbrev steps : List Move
steps = Move.forward ∷ Move.forward ∷ Move.back ∷ []

handle_all-viewer_example :
    (t : State ℕ) × (handle_all steps at_rest ≡ next t)
    × IsViewing t
    × (t.segment_chain ≡ at_rest.segment_chain)
    × (viewer t ≡ move_all steps (viewer at_rest))
handle_all-viewer_example = handle_all-viewer steps at_rest is_viewing (tt, (tt, (tt, tt)))

seek_then_moves_example :
    (t : State ℕ) × (handle_all (Move.to (pos 1) ∷ steps) at_rest ≡ next t)
    × IsViewing t
    × (viewer t ≡ move_all (Move.to (pos 1) ∷ steps) (viewer at_rest))
unfolding inc
seek_then_moves_example =
    seek_then_moves (pos 1) steps at_rest is_rest
      (record { from_first = omega arith; to_last = omega arith; short = λ _. omega arith })
      (tt, (tt, (tt, tt)))

forward_then_back-shown_example :
    (t : State ℕ) × (handle_all (Move.forward ∷ Move.back ∷ []) at_rest ≡ next t)
    × IsViewing t
    × (t.forward_iter ≡ at_rest.forward_iter)
    × (t.segment_chain t.forward_iter ≡ at_rest.segment_chain at_rest.forward_iter)
unfolding inc
forward_then_back-shown_example = forward_then_back-shown at_rest is_viewing (omega arith)
