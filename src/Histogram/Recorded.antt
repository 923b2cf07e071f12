-- ===== src/Histogram/Recorded.antt =====
-- What the former histogram can undo (new-web-test/js/old_/histogram/player.js).
pub mod Undoable
pub mod Answers
pub mod Drawn
pub mod Replayed
use inc_visage.Common.{
  ℕ, zero, suc, ℤ, pos, dec, ◌-ℤ◌, ◌≤ℤ◌, ◌<ℤ◌, Option, none, some, List, [], ◌∷◌, length, ◌≡◌, refl,
  ap, ◌∙◌, sym, true, if_of_true,
}
use inc_visage.Js.{next, Sparse}
use inc_visage.Refine.{Part}
use inc_visage.Refine.Lift.{shapes_of}
use inc_visage.Trend.Segment.{Segment, trend}
use inc_visage.Trend.State.{Viz}
use inc_visage.Former.Chains.{Replaced, rounds, undo, undo_one}
use inc_visage.Former.Chains.Undo.{undo_back_to}
use inc_visage.Histogram.{
  Estimates, announce, draw, dots, known, all_known, render, draw_dots, HistogramPage, Bar,
  put_back, undo_two, counted_iter_of, rebuild,
}

module _ {F : Type 0} where
  -- The page holds the array of iteration `cur`, which has as many segments, and from `cur` it can
  -- undo one answer after the other, each to the array of the iteration before, down to `lo`.
  pub record IsRecorded (arrays : ℤ → List (Segment F)) (lo cur : ℤ) (s : HistogramPage F)
      : Type 0 where
    pub arr : s.segment_arr ≡ shapes_of (arrays cur)
    pub count : pos (length (arrays cur)) ≡ cur
    pub undoable :
        (i : ℤ)
        → lo <ℤ i
        → i ≤ℤ cur
        → put_back (s.segment_backward_chain i) (shapes_of (arrays i))
          ≡ some (shapes_of (arrays (dec i)))

  -- The page after an array and estimates without gaps were drawn.
  unfoldable pub drawn : Viz → ℤ → List (Bar F) → Estimates F → HistogramPage F → HistogramPage F
  drawn viz itr arr es s =
      let t = announce viz itr s in
      record t {
        log = dots viz itr (known es) ∷ draw viz itr (trend (known arr)) ∷ t.log;
        done_flag = true;
      }

  pub render-drawn :
      (viz : Viz) (itr : ℤ) (arr : List (Bar F)) (es : Estimates F) (s : HistogramPage F)
      → all_known arr ≡ true
      → all_known es ≡ true
      → render viz itr arr (some es) s ≡ next (drawn viz itr arr es s)
  unfolding render draw_dots drawn
  render-drawn viz itr arr es s a e =
      if_of_true (all_known arr) _ _ a ∙ if_of_true (all_known es) _ _ e

  -- A forward chain of answers of two parts.
  abbrev pairs : Sparse (List (Part (Bar F)))
  pairs i = let blank : Part (Bar F) = record { n = 0; shape = none } in some (blank ∷ blank ∷ [])

  put_back-undo_one :
      (r : Option (Replaced (Bar F))) (i : ℤ) (arr : List (Bar F))
      → put_back r arr ≡ undo_one r (pairs i) arr
  unfolding put_back undo_one
  put_back-undo_one none i arr = refl
  put_back-undo_one (some r) i arr = refl

  same_branches :
      (f g : List (Bar F) → Option (List (Bar F)))
      → ((a : List (Bar F)) → f a ≡ g a)
      → (o : Option (List (Bar F)))
      → elim o [ none ↦ none | some a ↦ f a ] ≡ elim o [ none ↦ none | some a ↦ g a ]
  same_branches f g h none = refl
  same_branches f g h (some a) = h a

  undo_two-undo :
      (k : ℕ) (i : ℤ) (back : Sparse (Replaced (Bar F))) (arr : List (Bar F))
      → undo_two k i back arr ≡ undo k i back pairs arr
  unfolding undo_two undo
  undo_two-undo zero i back arr = refl
  undo_two-undo (suc k) i back arr =
      ap (λ o. elim o [ none ↦ none | some a ↦ undo_two k (dec i) back a ])
        (put_back-undo_one (back i) i arr)
      ∙ same_branches (undo_two k (dec i) back) (undo k (dec i) back pairs)
          (undo_two-undo k (dec i) back) (undo_one (back i) (pairs i) arr)

  length-shapes_of : (arr : List (Segment F)) → length (shapes_of arr) ≡ length arr
  length-shapes_of [] = refl
  length-shapes_of (x ∷ arr) = ap suc (length-shapes_of arr)

  pub counted-IsRecorded :
      (arrays : ℤ → List (Segment F)) (lo cur : ℤ) (s : HistogramPage F)
      → IsRecorded arrays lo cur s
      → counted_iter_of s ≡ cur
  unfolding counted_iter_of
  counted-IsRecorded arrays lo cur s k =
      ap (λ a. pos (length a)) k.arr ∙ ap pos (length-shapes_of (arrays cur)) ∙ k.count

  -- On a page that holds the array of `cur`, whether the timer for the next request has run off or
  -- not, the count of the segments leads back to exactly the array of each iteration from `lo` up to
  -- `cur`.
  pub rebuild-IsRecorded :
      (arrays : ℤ → List (Segment F)) (lo cur : ℤ) (s : HistogramPage F)
      → IsRecorded arrays lo cur s
      → (i : ℤ) → lo ≤ℤ i
      → i ≤ℤ cur
      → rebuild (counted_iter_of s) i s ≡ some (shapes_of (arrays i))
  unfolding rebuild
  rebuild-IsRecorded arrays lo cur s k i le top =
      let back = s.segment_backward_chain in
      rw (counted-IsRecorded arrays lo cur s k, k.arr)
        (undo_two-undo (rounds (cur -ℤ i)) cur back (shapes_of (arrays cur))
          ∙ undo_back_to back pairs (λ i. shapes_of (arrays i)) lo cur
              (λ j lt h.
                sym (put_back-undo_one (back j) j (shapes_of (arrays j))) ∙ k.undoable j lt h)
              i le top)
