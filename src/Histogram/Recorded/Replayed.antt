-- ===== src/Histogram/Recorded/Replayed.antt =====
-- What a replay of the former histogram draws (new-web-test/js/old_/histogram/player.js).
use inc_visage.Common.{none, some, List, [], ◌∷◌, ◌++◌, length, ◌≡◌, ap, ◌∙◌}
use inc_visage.Refine.{Part, splice_parts}
use inc_visage.Refine.Laws.{IsNumbered, splice_parts-append}
use inc_visage.Former.Chains.{splice}
use inc_visage.Former.Chains.Undo.{splice-append}
use inc_visage.Histogram.{HistogramPage, Bar, undo_two, put_back}
use inc_visage.Histogram.Replay.{replayed, put_again}

module _ {F : Type 0} where
  -- A replay of an iteration whose answer split one segment in two works on the last array,
  -- whichever the iteration is: it gives the last array, with the two segments that stand there at
  -- the place of the split overwritten by the two parts.
  pub replayed-last :
      (s : HistogramPage F) (p q : Part (Bar F)) (x y z : Bar F) (xs ys : List (Bar F))
      → s.segment_forward_chain s.play_iter ≡ some (p ∷ q ∷ [])
      → s.segment_backward_chain s.play_iter ≡ some (record { n = p.n; s = x })
      → s.segment_arr ≡ xs ++ y ∷ z ∷ ys
      → IsNumbered (length xs) (p ∷ q ∷ [])
      → replayed s ≡ some (xs ++ p.shape ∷ q.shape ∷ ys)
  unfolding replayed put_again undo_two put_back
  replayed-last s p q x y z xs ys f b a numbered =
      let undone : splice s.segment_arr p.n 2 x ≡ xs ++ x ∷ ys =
        ap (λ arr. splice arr p.n 2 x) a
        ∙ ap (λ n. splice (xs ++ y ∷ z ∷ ys) n 2 x) numbered.0
        ∙ splice-append xs (y ∷ z ∷ []) ys x in
      ap
        (λ r.
          put_again (elim (put_back r s.segment_arr) [ none ↦ none | some a ↦ some a ])
            (s.segment_forward_chain s.play_iter))
        b
      ∙ ap (put_again (some (splice s.segment_arr p.n 2 x))) f
      ∙ ap (λ a. some (splice_parts 0 (p ∷ q ∷ []) a)) undone
      ∙ ap some (splice_parts-append p (q ∷ []) xs ys x numbered)
