-- ===== src/Heat/Examples/Handlers/Views.antt =====
-- A heatmap at rest that shows the recording at its cursor, and the theorems about its views at it.
use inc_visage.Common.{ℕ, pos, inc, ◌-ℤ◌, refl, ◌≡◌, List, [], ◌∷◌, arith}
use inc_visage.Js.{next}
use inc_visage.Viewer.{Move, move_all}
use inc_visage.Heat.{Page}
use inc_visage.Heat.Rest.{Seen}
use inc_visage.Heat.Rest.Session.{handle_moves}
use inc_visage.Heat.Rest.Viewing.{IsViewing, viewer}
use inc_visage.Heat.Rest.Viewing.Moves.{handle_moves-viewer}
use inc_visage.Heat.Examples.Handlers.{at_rest, is_rest, arr}

at_first : Seen at_rest (pos 1) arr
at_first = record {
  kept = refl;
  min = 1;
  has_min = refl;
  max = 9;
  has_max = refl;
  valid = [];
  has_cells = refl;
}

is_viewing : IsViewing at_rest
unfolding inc ◌-ℤ◌
is_viewing = record {
  rest = is_rest;
  synced = refl;
  lit_back = refl;
  dim_forward = λ e. ground (arith, e);
  covered = omega arith;
  showing = record {
    frame = arr;
    recorded = at_first;
    before = [];
    drawn = refl;
    captioned = refl;
    barred = refl;
  };
}

abbrev steps : List Move
steps = Move.forward ∷ Move.forward ∷ Move.back ∷ []

handle_moves-viewer_example :
    (t : Page ℕ) × (handle_moves steps at_rest ≡ next t)
    × IsViewing t
    × (t.segment_chain ≡ at_rest.segment_chain)
    × (viewer t ≡ move_all steps (viewer at_rest))
handle_moves-viewer_example = handle_moves-viewer steps at_rest is_viewing (tt, (tt, (tt, tt)))
