-- ===== src/Trend/Rest/Viewing/Moves.antt =====
-- Any number of moves on a page that shows the recording at its cursor.
use inc_visage.Common.{
  ℤ, inc, dec, inc_parts, dec_parts, ◌≤ℤ◌, ◌<ℤ◌, ltb_ℤ, leb_ℤ, ◌≡◌, refl, ◌∙◌, ap, sym, inl, inr,
  true, Bool-cases, if_of_false, List, [], ◌∷◌, All, arith,
}
use inc_visage.Js.{next, ◌>>=◌}
use inc_visage.Viewer.{Move, forward, back, to, move, move_all}
use inc_visage.Viewer.Laws.{IsWithin, forward_then_back}
use inc_visage.Trend.State.{State, draw_segments}
use inc_visage.Trend.Step.{step_forward, forward_buttons, back_buttons}
use inc_visage.Trend.Rest.{IsRest}
use inc_visage.Trend.Rest.Forward.{
  click_forward-move, drawn_next, draw_forward-recorded, draw_forward-past,
}
use inc_visage.Trend.Rest.Back.{click_back-move, drawn_back, draw_back-recorded}
use inc_visage.Trend.Rest.Seek.{IsTarget, seek-shown, target-recorded}
use inc_visage.Trend.Rest.Session.{
  IsAllowed, IsAllowed-same, handle, handle_all, click_forward-dim, click_back-dim,
}
use inc_visage.Trend.Rest.Viewing.{IsViewing, IsMoved, viewer}
use inc_visage.Trend.Rest.Viewing.Steps.{
  forward-drawn, forward-past, back-drawn, seek-drawn, set_cursors-within, set_cursors-past,
  set_back-within,
}

module _ {F : Type 0} (s : State F) (w : IsViewing s) where
  -- Where a button is dim there is nowhere to go.
  stay-IsMoved : (m : Move) → viewer s ≡ move m (viewer s) → IsMoved s m s
  stay-IsMoved m e = record { viewing = w; same = (refl, refl, refl); chain = refl; moved = e }

  handle_forward :
      s.forward_lit ≡ true → (t : State F) × (handle forward s ≡ next t) × IsMoved s forward t
  unfolding handle draw_segments inc step_forward
  handle_forward lit = elim (Bool-cases (leb_ℤ (inc s.forward_iter) s.x_max)) [
    | inl e ↦
        let le : inc s.forward_iter ≤ℤ s.x_max = ground (arith, e) in
        let lt : inc s.forward_iter <ℤ s.iteration = w.rest.lit_forward lit le in
        let (arr, h) =
          w.rest.recorded (inc s.forward_iter)
            (ground (arith, w.rest.from_first, inc_parts s.forward_iter)) lt in
        (
          _,
          click_forward-move s w.rest lit _ (draw_forward-recorded s w.rest arr le h)
              ∙ ap (λ u. next (forward_buttons u))
                  (set_cursors-within s w (drawn_next s w.rest arr) le),
          forward-drawn s w arr le lt h,
        )
    | inr e ↦
        let lt : s.x_max <ℤ inc s.forward_iter = ground (arith, e) in
        (
          _,
          click_forward-move s w.rest lit _ (draw_forward-past s w.rest lt)
              ∙ ap (λ u. next (forward_buttons u)) (set_cursors-past s w lt),
          forward-past s w lt,
        )
  ]

  handle_back : s.back_lit ≡ true → (t : State F) × (handle back s ≡ next t) × IsMoved s back t
  unfolding handle draw_segments dec
  handle_back lit =
      let lt : s.x_min <ℤ s.forward_iter = ground (arith, lit, w.lit_back) in
      let le : s.x_min ≤ℤ dec s.backward_iter =
        ground (arith, lt, w.synced, dec_parts s.backward_iter) in
      let (arr, h) =
        w.rest.recorded (dec s.backward_iter) le
          (ground (arith, w.rest.before_run, w.synced, dec_parts s.backward_iter)) in
      (
        _,
        click_back-move s w.rest lit _ (draw_back-recorded s w.rest arr le h)
            ∙ ap (λ u. next (back_buttons u)) (set_back-within s w (drawn_back s w.rest arr) le),
        back-drawn s w lit arr lt h,
      )

  handle-IsMoved :
      (m : Move) → IsAllowed s m → (t : State F) × (handle m s ≡ next t) × IsMoved s m t
  unfolding handle move
  handle-IsMoved forward k = elim (Bool-cases s.forward_lit) [
    | inl lit ↦ handle_forward lit
    | inr dim ↦ (
      s,
      click_forward-dim s dim,
      stay-IsMoved forward (
          sym (
            if_of_false (ltb_ℤ s.forward_iter (dec s.iteration)) _ _ (
              ground (arith, w.dim_forward dim, inc_parts s.forward_iter, dec_parts s.iteration)))),
    )
  ]
  handle-IsMoved back k = elim (Bool-cases s.back_lit) [
    | inl lit ↦ handle_back lit
    | inr dim ↦ (
      s,
      click_back-dim s dim,
      stay-IsMoved back
          (sym (if_of_false (ltb_ℤ s.x_min s.forward_iter) _ _ (sym w.lit_back ∙ dim))),
    )
  ]
  handle-IsMoved (to v) k =
      let (arr, h) = target-recorded s v w.rest k in
      (_, seek-shown s v w.rest arr h, seek-drawn s w.rest v k arr h)

module _ {F : Type 0} where
  viewer-IsWithin : (s : State F) → IsViewing s → IsWithin (viewer s)
  viewer-IsWithin s w =
      (w.rest.from_first, ground (arith, w.rest.before_run, dec_parts s.iteration))

  -- What a page that shows the recording at its cursor lets the user see follows the abstract
  -- viewer: after any sequence of clicks on "forward" and "back" and of moves of the seek bar, the
  -- bar put within the range and, while iterations are still to come, short of the last recorded
  -- one, no handler has thrown, the cursor is where the viewer has it, the recording is the same,
  -- and the iteration at the cursor is the one last drawn, with its number and the bar beside it.
  pub handle_all-viewer :
      (ms : List Move) (s : State F)
      → IsViewing s
      → All (IsAllowed s) ms
      → (t : State F) × (handle_all ms s ≡ next t)
        × IsViewing t
        × (t.segment_chain ≡ s.segment_chain)
        × (viewer t ≡ move_all ms (viewer s))
  unfolding handle_all move_all
  handle_all-viewer [] s w h = (s, refl, w, refl, refl)
  handle_all-viewer (m ∷ ms) s w h =
      let (t, e, k) = handle-IsMoved s w m h.0 in
      let (u, f, l, c, v) = handle_all-viewer ms t k.viewing (IsAllowed-same s t ms k.same h.1) in
      (u, ap (λ f. f >>= handle_all ms) e ∙ f, l, c ∙ k.chain, v ∙ ap (move_all ms) k.moved)

  -- A seek on any page at rest, from the bar on, starts such a view, and the moves after it follow
  -- the abstract viewer under the same conditions.
  pub seek_then_moves :
      (v : ℤ) (ms : List Move) (s : State F)
      → IsRest s
      → IsTarget s v
      → All (IsAllowed s) ms
      → (t : State F) × (handle_all (to v ∷ ms) s ≡ next t)
        × IsViewing t
        × (viewer t ≡ move_all (to v ∷ ms) (viewer s))
  unfolding handle_all move_all handle
  seek_then_moves v ms s r h k =
      let (arr, e) = target-recorded s v r h in
      let q = seek-drawn s r v h arr e in
      let (t, f, l, _, g) = handle_all-viewer ms _ q.viewing (IsAllowed-same s _ ms q.same k) in
      (
        t,
        ap (λ f. f >>= handle_all ms) (seek-shown s v r arr e) ∙ f,
        l,
        g ∙ ap (move_all ms) q.moved,
      )

  -- On such a page a click on "forward" and then one on "back", short of the last recorded
  -- iteration, come back to the same cursor and draw the same iteration again.
  pub forward_then_back-shown :
      (s : State F)
      → IsViewing s
      → inc s.forward_iter <ℤ s.iteration
      → (t : State F) × (handle_all (forward ∷ back ∷ []) s ≡ next t)
        × IsViewing t
        × (t.forward_iter ≡ s.forward_iter)
        × (t.segment_chain t.forward_iter ≡ s.segment_chain s.forward_iter)
  forward_then_back-shown s w lt =
      let (t, e, l, c, v) = handle_all-viewer (forward ∷ back ∷ []) s w (tt, (tt, tt)) in
      let same : t.forward_iter ≡ s.forward_iter =
        ap (λ v. v.cursor)
          (v
            ∙ forward_then_back (viewer s) (viewer-IsWithin s w)
                (ground (arith, lt, inc_parts s.forward_iter, dec_parts s.iteration))) in
      (t, e, l, same, ap t.segment_chain same ∙ ap (λ c. c s.forward_iter) c)
