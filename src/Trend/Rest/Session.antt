-- ===== src/Trend/Rest/Session.antt =====
-- Any number of moves on a page at rest.
use inc_visage.Common.{
  ℤ, ◌≡◌, refl, ◌∙◌, ap, inl, inr, false, Bool-cases, if_of_false, List, [], ◌∷◌, All,
}
use inc_visage.Js.{Flow, next, ◌>>=◌}
use inc_visage.Trend.State.{State}
use inc_visage.Trend.Step.{click_forward, click_back}
use inc_visage.Trend.Seek.{seek}
use inc_visage.Viewer.{Move, forward, back, to}
use inc_visage.Trend.Rest.{IsRest, IsSameRun}
use inc_visage.Trend.Rest.Forward.{forward-IsRest}
use inc_visage.Trend.Rest.Back.{back-IsRest}
use inc_visage.Trend.Rest.Seek.{IsTarget, seek-IsRest}

module _ {F : Type 0} where
  -- The event that a move sends to the page.
  unfoldable pub handle : Move → State F → Flow (State F)
  handle forward s = click_forward s
  handle back s = click_back s
  handle (to v) s = seek v s

  unfoldable pub handle_all : List Move → State F → Flow (State F)
  handle_all [] s = next s
  handle_all (m ∷ ms) s = handle m s >>= handle_all ms

  abbrev pub IsAllowed : State F → Move → Type 0
  IsAllowed s forward = Unit
  IsAllowed s back = Unit
  IsAllowed s (to v) = IsTarget s v

  IsTarget-same : (s t : State F) (v : ℤ) → IsSameRun s t → IsTarget s v → IsTarget t v
  IsTarget-same s t v (i, lo, hi) h = record {
    from_first = rw lo h.from_first;
    to_last = rw hi h.to_last;
    short = rw (i, hi) h.short;
  }

  pub IsAllowed-same :
      (s t : State F) (ms : List Move) → IsSameRun s t → All (IsAllowed s) ms → All (IsAllowed t) ms
  IsAllowed-same s t [] e h = tt
  IsAllowed-same s t (forward ∷ ms) e h = (tt, IsAllowed-same s t ms e h.1)
  IsAllowed-same s t (back ∷ ms) e h = (tt, IsAllowed-same s t ms e h.1)
  IsAllowed-same s t (to v ∷ ms) e h = (IsTarget-same s t v e h.0, IsAllowed-same s t ms e h.1)

  -- A dim button does nothing.
  pub click_forward-dim : (s : State F) → s.forward_lit ≡ false → click_forward s ≡ next s
  unfolding click_forward
  click_forward-dim s h = if_of_false s.forward_lit _ _ h

  pub click_back-dim : (s : State F) → s.back_lit ≡ false → click_back s ≡ next s
  unfolding click_back
  click_back-dim s h = if_of_false s.back_lit _ _ h

  handle-IsRest :
      (m : Move) (s : State F)
      → IsRest s
      → IsAllowed s m
      → (t : State F) × (handle m s ≡ next t) × IsRest t × IsSameRun s t
  unfolding handle
  handle-IsRest forward s r h = elim (Bool-cases s.forward_lit) [
    | inl lit ↦ forward-IsRest s r lit
    | inr dim ↦ (s, click_forward-dim s dim, r, (refl, refl, refl))
  ]
  handle-IsRest back s r h = elim (Bool-cases s.back_lit) [
    | inl lit ↦ back-IsRest s r lit
    | inr dim ↦ (s, click_back-dim s dim, r, (refl, refl, refl))
  ]
  handle-IsRest (to v) s r h = let (t, e, k, same, _) = seek-IsRest s v r h in (t, e, k, same)

  -- On a page at rest no sequence of clicks on "forward" and "back" and of moves of the seek bar
  -- throws, and the page stays at rest, with the run and its range as they were, if the bar is put
  -- within the range and, while iterations are still to come, short of the last recorded one.
  pub handle_all-IsRest :
      (ms : List Move) (s : State F)
      → IsRest s
      → All (IsAllowed s) ms
      → (t : State F) × (handle_all ms s ≡ next t) × IsRest t × IsSameRun s t
  unfolding handle_all
  handle_all-IsRest [] s r h = (s, refl, r, (refl, refl, refl))
  handle_all-IsRest (m ∷ ms) s r h =
      let (t, e, k, same) = handle-IsRest m s r h.0 in
      let (u, f, l, (i, lo, hi)) = handle_all-IsRest ms t k (IsAllowed-same s t ms same h.1) in
      (u, ap (λ f. f >>= handle_all ms) e ∙ f, l, (i ∙ same.0, lo ∙ same.1, hi ∙ same.2))
