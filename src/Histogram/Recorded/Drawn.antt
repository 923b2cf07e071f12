-- ===== src/Histogram/Recorded/Drawn.antt =====
-- What the handlers of the former histogram draw on a page that is paused
-- (new-web-test/js/old_/histogram/player.js).
use inc_visage.Common.{
  ℤ, dec, ◌≤ℤ◌, ltb_ℤ, leb_ℤ, eqb_ℤ, true, false, not, ◌&&◌, some, List, [], ◌∷◌, ◌≡◌, refl, ap,
  ◌∙◌, if_of_true, if_of_false, if◌then◌else◌, arith,
}
use inc_visage.Js.{next, ◌>>=◌}
use inc_visage.Refine.Lift.{shapes_of}
use inc_visage.Trend.Segment.{Segment, trend}
use inc_visage.Trend.State.{graph}
use inc_visage.Histogram.{
  HistogramPage, Estimate, Effect, draw, dots, known, all_known, announce, show, rebuild,
  counted_iter_of,
}
use inc_visage.Histogram.Seek.{
  seek, seek_paused, seek_stopped, move_to, paused_buttons, end_buttons,
}
use inc_visage.Histogram.Step.{click_back, back_move, draw_back, set_back, back_buttons}
use inc_visage.Histogram.Recorded.{IsRecorded, drawn, render-drawn, rebuild-IsRecorded}

module _ {A : Type 0} where
  known-shapes : (xs : List A) → known (shapes_of xs) ≡ xs
  unfolding known
  known-shapes [] = refl
  known-shapes (x ∷ xs) = ap (x ∷◌) (known-shapes xs)

  all_known-some : (xs : List A) → all_known (shapes_of xs) ≡ true
  unfolding all_known
  all_known-some [] = refl
  all_known-some (x ∷ xs) = all_known-some xs

module _ {F : Type 0} where
  -- What is logged when an array and estimates are drawn for an iteration.
  abbrev pub drawing : ℤ → List (Segment F) → List (Estimate F) → List (Effect F) → List (Effect F)
  drawing i arr es log = dots graph i es ∷ draw graph i (trend arr) ∷ log

  abbrev shown : ℤ → List (Segment F) → List (Estimate F) → HistogramPage F → HistogramPage F
  shown i arr es s = drawn graph i (shapes_of arr) (shapes_of es) (record s { seekbar_value = i })

  show-shown :
      (i : ℤ) (arr : List (Segment F)) (es : List (Estimate F)) (s : HistogramPage F)
      → s.estimate_chain i ≡ some (shapes_of es)
      → show i (some (shapes_of arr)) s ≡ next (shown i arr es s)
  unfolding show
  show-shown i arr es s e = rw e (
      render-drawn graph i (shapes_of arr) (shapes_of es) (record s { seekbar_value = i })
        (all_known-some arr) (all_known-some es))

  shown-log :
      (i : ℤ) (arr : List (Segment F)) (es : List (Estimate F)) (s : HistogramPage F)
      → (shown i arr es s).log ≡ drawing i arr es s.log
  unfolding drawn announce
  shown-log i arr es s =
      ap (λ a. dots graph i a ∷ draw graph i (trend (known (shapes_of arr))) ∷ s.log)
        (known-shapes es)
      ∙ ap (λ a. dots graph i es ∷ draw graph i (trend a) ∷ s.log) (known-shapes arr)

  -- Where the bar leads on a page that is paused.
  abbrev pub target : HistogramPage F → ℤ → ℤ
  target s v = if ltb_ℤ s.seekbar_max v then s.seekbar_max else v

  -- On a page that is paused and holds the array of `cur`, the seek bar, put so that it leads to an
  -- iteration from `lo` up to `cur` whose estimates are kept, draws the array and the estimates of
  -- that iteration with no exception, puts all cursors to it and leaves `segmentArr` as it is,
  -- whether or not the timer for the next request has run off.
  pub seek-IsRecorded :
      (arrays : ℤ → List (Segment F)) (lo cur v : ℤ) (s : HistogramPage F) (es : List (Estimate F))
      → IsRecorded arrays lo cur s
      → s.pause_flag ≡ true
      → (lo ≤ℤ target s v) × (target s v ≤ℤ cur)
      → s.estimate_chain (target s v) ≡ some (shapes_of es)
      → (t : HistogramPage F) × (seek v s ≡ next t)
        × (t.log ≡ drawing (target s v) (arrays (target s v)) es s.log)
        × (t.forward_iter ≡ target s v)
        × (t.backward_iter ≡ target s v)
        × (t.pause_iter ≡ target s v)
        × (t.play_iter ≡ target s v)
        × (t.segment_arr ≡ s.segment_arr)
  unfolding seek seek_paused seek_stopped move_to paused_buttons end_buttons rebuild counted_iter_of
      drawn announce
  seek-IsRecorded arrays lo cur v s es k p (le, top) e =
      let i = target s v in
      let moved = record s { seekbar_iter = v; seekbar_value = v } in
      let sought = move_to i moved in
      let after = paused_buttons (shown i (arrays i) es sought) in
      (
        end_buttons after,
        ap (λ f. f >>= λ t. seek_stopped t >>= λ u. next (end_buttons u))
              (if_of_true s.pause_flag _ _ p
                ∙ ap (λ o. show i o sought >>= λ t. next (paused_buttons t))
                    (rebuild-IsRecorded arrays lo cur s k i le top)
                ∙ ap (λ f. f >>= λ t. next (paused_buttons t))
                    (show-shown i (arrays i) es sought e))
            ∙ ap (λ f. f >>= λ u. next (end_buttons u))
                (if_of_false (not s.play_flag && not s.pause_flag) _ _ (ground (arith, p))),
        shown-log i (arrays i) es sought,
        refl,
        refl,
        refl,
        refl,
        refl,
      )

  -- On a page that does not play, may go back and holds the array of `cur`, past the first
  -- iteration, a click on "back" where the iteration before is one from `lo` up to `cur` whose
  -- estimates are kept draws the array and the estimates of that iteration with no exception, moves
  -- all cursors there and leaves `segmentArr` as it is.
  pub back-IsRecorded :
      (arrays : ℤ → List (Segment F)) (lo cur : ℤ) (s : HistogramPage F) (es : List (Estimate F))
      → IsRecorded arrays lo cur s
      → (s.back_lit ≡ true) × (s.back_flag ≡ true) × (s.play_flag ≡ false)
      → (s.x_min ≡ lo) × (eqb_ℤ s.iteration s.x_min ≡ false)
      → (lo ≤ℤ dec s.backward_iter) × (dec s.backward_iter ≤ℤ cur)
      → s.estimate_chain (dec s.backward_iter) ≡ some (shapes_of es)
      → (t : HistogramPage F) × (click_back s ≡ next t)
        × (t.log ≡ drawing (dec s.backward_iter) (arrays (dec s.backward_iter)) es s.log)
        × (t.backward_iter ≡ dec s.backward_iter)
        × (t.forward_iter ≡ dec s.backward_iter)
        × (t.pause_iter ≡ dec s.backward_iter)
        × (t.play_iter ≡ dec s.backward_iter)
        × (t.segment_arr ≡ s.segment_arr)
  unfolding click_back back_move draw_back set_back back_buttons rebuild counted_iter_of drawn
      announce
  back-IsRecorded arrays lo cur s es k (lit, flag, stopped) (low, later) (le, top) e =
      let i = dec s.backward_iter in
      let moved = record s { forward_flag = true; backward_iter = i } in
      let first : leb_ℤ s.x_min i ≡ true = rw low (ground (arith, le)) in
      let kept : (if ltb_ℤ i s.x_min then s.x_min else i) ≡ i =
        if_of_false (ltb_ℤ i s.x_min) _ _ (rw low (ground (arith, le))) in
      (
        back_buttons (set_back (shown i (arrays i) es moved)),
        if_of_true s.back_lit _ _ lit
            ∙ if_of_false (eqb_ℤ s.iteration s.x_min) _ _ later
            ∙ ap (λ f. f >>= λ t. next (back_buttons t))
                (if_of_true (not s.play_flag && s.back_flag) _ _ (ground (arith, flag, stopped))
                  ∙ ap (λ f. f >>= λ t. next (set_back t))
                      (if_of_true (leb_ℤ s.x_min i) _ _ first
                        ∙ ap (λ o. show i o moved) (rebuild-IsRecorded arrays lo cur s k i le top)
                        ∙ show-shown i (arrays i) es moved e)),
        shown-log i (arrays i) es moved,
        refl,
        kept,
        kept,
        kept,
        refl,
      )
