-- ===== src/Heat/Rest/Viewing/Moves.antt =====
-- Any number of moves on a heatmap that shows the recording at its cursor.
use inc_visage.Common.{
  inc, dec, inc_parts, dec_parts, ◌≤ℤ◌, ◌<ℤ◌, ltb_ℤ, leb_ℤ, ◌≡◌, refl, ◌∙◌, ap, sym, inl, inr, true,
  Bool-cases, if_of_false, List, [], ◌∷◌, All, arith,
}
use inc_visage.Js.{next, ◌>>=◌}
use inc_visage.Viewer.{Move, forward, back, to, move, move_all}
use inc_visage.Heat.{Page, draw_quads}
use inc_visage.Heat.Step.{step_forward, forward_buttons, back_buttons}
use inc_visage.Heat.Rest.Forward.{
  click_forward-move, drawn_next, draw_forward-recorded, draw_forward-past,
}
use inc_visage.Heat.Rest.Back.{click_back-move, drawn_back, draw_back-recorded}
use inc_visage.Heat.Rest.Seek.{seek-shown, target-recorded}
use inc_visage.Heat.Rest.Session.{
  IsAllowed, IsAllowed-same, handle, handle_moves, click_forward-dim, click_back-dim,
}
use inc_visage.Heat.Rest.Viewing.{IsViewing, IsMoved, viewer}
use inc_visage.Heat.Rest.Viewing.Steps.{
  forward-drawn, forward-past, back-drawn, seek-drawn, set_cursors-within, set_cursors-past,
  set_back-within,
}

module _ {F : Type 0} (s : Page F) (w : IsViewing s) where
  -- Where a button is dim there is nowhere to go.
  stay-IsMoved : (m : Move) → viewer s ≡ move m (viewer s) → IsMoved s m s
  stay-IsMoved m e = record { viewing = w; same = (refl, refl, refl); chain = refl; moved = e }

  handle_forward :
      s.forward_lit ≡ true → (t : Page F) × (handle forward s ≡ next t) × IsMoved s forward t
  unfolding handle draw_quads inc step_forward
  handle_forward lit = elim (Bool-cases (leb_ℤ (inc s.forward_iter) s.max_iteration)) [
    | inl e ↦
        let le : inc s.forward_iter ≤ℤ s.max_iteration = ground (arith, e) in
        let lt : inc s.forward_iter <ℤ s.iteration = w.rest.lit_forward lit le in
        let (arr, h) =
          w.rest.recorded (inc s.forward_iter)
            (ground (arith, w.rest.from_first, inc_parts s.forward_iter)) lt in
        (
          _,
          click_forward-move s w.rest lit _ (draw_forward-recorded s w.rest arr le h)
              ∙ ap (λ u. next (forward_buttons u))
                  (set_cursors-within s w (drawn_next s w.rest arr) le),
          forward-drawn s w arr le lt h,
        )
    | inr e ↦
        let lt : s.max_iteration <ℤ inc s.forward_iter = ground (arith, e) in
        (
          _,
          click_forward-move s w.rest lit _ (draw_forward-past s w.rest lt)
              ∙ ap (λ u. next (forward_buttons u)) (set_cursors-past s w lt),
          forward-past s w lt,
        )
  ]

  handle_back : s.back_lit ≡ true → (t : Page F) × (handle back s ≡ next t) × IsMoved s back t
  unfolding handle draw_quads dec
  handle_back lit =
      let lt : s.iteration_low <ℤ s.forward_iter = ground (arith, lit, w.lit_back) in
      let le : s.iteration_low ≤ℤ dec s.backward_iter =
        ground (arith, lt, w.synced, dec_parts s.backward_iter) in
      let (arr, h) =
        w.rest.recorded (dec s.backward_iter) le
          (ground (arith, w.rest.before_run, w.synced, dec_parts s.backward_iter)) in
      (
        _,
        click_back-move s w.rest lit _ (draw_back-recorded s w.rest arr le h)
            ∙ ap (λ u. next (back_buttons u)) (set_back-within s w (drawn_back s w.rest arr) le),
        back-drawn s w lit arr lt h,
      )

  handle-IsMoved : (m : Move) → IsAllowed s m → (t : Page F) × (handle m s ≡ next t) × IsMoved s m t
  unfolding handle move
  handle-IsMoved forward k = elim (Bool-cases s.forward_lit) [
    | inl lit ↦ handle_forward lit
    | inr dim ↦ (
      s,
      click_forward-dim s dim,
      stay-IsMoved forward (
          sym (
            if_of_false (ltb_ℤ s.forward_iter (dec s.iteration)) _ _ (
              ground (arith, w.dim_forward dim, inc_parts s.forward_iter, dec_parts s.iteration)))),
    )
  ]
  handle-IsMoved back k = elim (Bool-cases s.back_lit) [
    | inl lit ↦ handle_back lit
    | inr dim ↦ (
      s,
      click_back-dim s dim,
      stay-IsMoved back
          (sym (if_of_false (ltb_ℤ s.iteration_low s.forward_iter) _ _ (sym w.lit_back ∙ dim))),
    )
  ]
  handle-IsMoved (to v) k =
      let (arr, h) = target-recorded s v w.rest k in
      (_, seek-shown s v w.rest arr h, seek-drawn s w.rest v k arr h)

module _ {F : Type 0} where
  -- What a heatmap that shows the recording at its cursor lets the user see follows the abstract
  -- viewer: after any sequence of clicks on "forward" and "back" and of moves of the seek bar, the
  -- bar put within the range and, while iterations are still to come, short of the last recorded
  -- one, no handler has thrown, the cursor is where the viewer has it, the recording is the same,
  -- and the iteration at the cursor is the one last drawn, with its number and the bar beside it.
  pub handle_moves-viewer :
      (ms : List Move) (s : Page F)
      → IsViewing s
      → All (IsAllowed s) ms
      → (t : Page F) × (handle_moves ms s ≡ next t)
        × IsViewing t
        × (t.segment_chain ≡ s.segment_chain)
        × (viewer t ≡ move_all ms (viewer s))
  unfolding handle_moves move_all
  handle_moves-viewer [] s w h = (s, refl, w, refl, refl)
  handle_moves-viewer (m ∷ ms) s w h =
      let (t, e, k) = handle-IsMoved s w m h.0 in
      let (u, f, l, c, v) = handle_moves-viewer ms t k.viewing (IsAllowed-same s t ms k.same h.1) in
      (u, ap (λ f. f >>= handle_moves ms) e ∙ f, l, c ∙ k.chain, v ∙ ap (move_all ms) k.moved)
