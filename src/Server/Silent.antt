-- ===== src/Server/Silent.antt =====
-- The requests to app.js that stay without an answer.
use Prim.Native.String.{String}
use text.Mathlib.Text.{◌==◌ as str_eq}
use inc_visage.Common.{true, ◌≡◌}
use inc_visage.Server.{Server, Request, get_viz, set_viz, other}
use inc_visage.Server.Viz.{HoldsNoTurn, file_of}

module _ {N J : Type 0} where
  abbrev pub IsSilent : Server N → Request J → Type 0
  IsSilent s (get_viz dataset) =
      (str_eq dataset "Flight" ≡ true) × HoldsNoTurn (s.disk.content (file_of s.viz_type))
  IsSilent s (set_viz type) = Unit
  IsSilent s (other path) = Unit
  IsSilent s _ = ⊥
