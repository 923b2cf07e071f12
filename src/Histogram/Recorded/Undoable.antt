-- ===== src/Histogram/Recorded/Undoable.antt =====
-- Why an answer of the former histogram that splits one segment in two can be undone
-- (new-web-test/js/old_/histogram/player.js).
use inc_visage.Common.{
  ℕ, zero, suc, ◌++◌, length-append, ℤ, inc, dec, inc_parts, dec_parts, dec-inc, ◌≤ℤ◌, ◌<ℤ◌,
  eq_of_parts, eqb_ℤ, true, Bool-cases, inl, inr, if_of_true, if_of_false, if◌then◌else◌, Option,
  some, List, [], ◌∷◌, length, get_elem?, ◌≡◌, refl, ap, ◌∙◌, sym, subst, arith,
}
use inc_visage.Js.{update, update_self, update_other}
use inc_visage.Refine.{Part, splice_parts}
use inc_visage.Refine.Laws.{IsNumbered, splice_parts-append, split_at}
use inc_visage.Refine.Lift.{lift, shapes_of, splice_parts-shapes, IsNumbered-lift}
use inc_visage.Trend.Segment.{Segment}
use inc_visage.Former.Chains.{Replaced}
use inc_visage.Former.Chains.Undo.{splice-splice_parts}
use inc_visage.Histogram.{HistogramPage, Bar, all_known, put_back}
use inc_visage.Histogram.Play.{bar_at}
use inc_visage.Histogram.Recorded.{IsRecorded}

module _ {F : Type 0} where
  -- The arrays with that of iteration `i`.
  abbrev pub extend : (ℤ → List (Segment F)) → ℤ → List (Segment F) → ℤ → List (Segment F)
  extend arrays i arr j = if eqb_ℤ i j then arr else arrays j

  pub bar_at-shapes :
      (arr : List (Segment F)) (n : ℕ) (x : Segment F)
      → get_elem? arr n ≡ some x
      → (bar_at (shapes_of arr) n ≡ some x) × (get_elem? (shapes_of arr) n ≡ some (some x))
  unfolding bar_at
  bar_at-shapes [] n x h = cc
  bar_at-shapes (y ∷ arr) zero x h = (h, ap some h)
  bar_at-shapes (y ∷ arr) (suc n) x h = bar_at-shapes arr n x h

  pub all_known-shapes : (arr : List (Segment F)) → all_known (shapes_of arr) ≡ true
  unfolding all_known
  all_known-shapes [] = refl
  all_known-shapes (x ∷ arr) = all_known-shapes arr

  -- A split in two makes the array one longer.
  pub length-split :
      (p q : Part (Segment F)) (arr : List (Segment F)) (x : Segment F)
      → get_elem? arr p.n ≡ some x
      → IsNumbered p.n (p ∷ q ∷ [])
      → length (splice_parts 0 (p ∷ q ∷ []) arr) ≡ suc (length arr)
  length-split p q arr x at numbered =
      let (xs, ys, e, l) = split_at p.n arr at in
      let new : splice_parts 0 (p ∷ q ∷ []) arr ≡ xs ++ (p.shape ∷ q.shape ∷ ys) =
        ap (splice_parts 0 (p ∷ q ∷ [])) e
        ∙ splice_parts-append p (q ∷ []) xs ys x
            (subst (λ n. IsNumbered n (p ∷ q ∷ [])) (sym l) numbered) in
      rw (new, e)
        (omega (arith, length-append xs (p.shape ∷ q.shape ∷ ys), length-append xs (x ∷ ys)))

  module _ (arrays : ℤ → List (Segment F)) (lo cur : ℤ) (s : HistogramPage F)
      (k : IsRecorded arrays lo cur s) (p q : Part (Segment F)) (x : Segment F)
      (at : get_elem? (arrays cur) p.n ≡ some x) (numbered : IsNumbered p.n (p ∷ q ∷ [])) where
    abbrev pub new : List (Segment F)
    new = splice_parts 0 (p ∷ q ∷ []) (arrays cur)

    abbrev pub later : ℤ → List (Segment F)
    later = extend arrays (inc cur) new

    abbrev pub back : ℤ → Option (Replaced (Bar F))
    back = update s.segment_backward_chain (inc cur) (record { n = p.n; s = some x })

    pub later_self : later (inc cur) ≡ new
    later_self = if_of_true (eqb_ℤ (inc cur) (inc cur)) _ _ (ground arith)

    later_below : (j : ℤ) → j ≤ℤ cur → later j ≡ arrays j
    later_below j le = if_of_false (eqb_ℤ (inc cur) j) _ _ (ground (arith, le, inc_parts cur))

    undo_new :
        put_back (back (inc cur)) (shapes_of (later (inc cur))) ≡ some (shapes_of (arrays cur))
    unfolding put_back
    undo_new =
        rw
          (
            update_self s.segment_backward_chain (inc cur) (record { n = p.n; s = some x }),
            later_self,
            ← splice_parts-shapes 0 (p ∷ q ∷ []) (arrays cur),
          )
          (ap some (
            splice-splice_parts (lift p) (lift q ∷ []) (shapes_of (arrays cur)) (some x)
              (bar_at-shapes (arrays cur) p.n x at).1 (IsNumbered-lift p.n (p ∷ q ∷ []) numbered)))

    pub undoable-next :
        (i : ℤ)
        → lo <ℤ i
        → i ≤ℤ inc cur
        → put_back (back i) (shapes_of (later i)) ≡ some (shapes_of (later (dec i)))
    undoable-next i lt le = elim (Bool-cases (eqb_ℤ (inc cur) i)) [
      | inl e ↦
          subst (λ j. put_back (back j) (shapes_of (later j)) ≡ some (shapes_of (later (dec j))))
            (eq_of_parts (inc cur) i (ground (arith, e)))
            (undo_new
              ∙ ap (λ a. some (shapes_of a)) (sym (later_below cur (omega arith)))
              ∙ ap (λ j. some (shapes_of (later j))) (sym (dec-inc cur)))
      | inr e ↦
          let below : i ≤ℤ cur = ground (arith, e, le, inc_parts cur) in
          rw
            (
              update_other s.segment_backward_chain (inc cur) i (record { n = p.n; s = some x }) e,
              later_below i below,
              later_below (dec i) (omega (arith, dec_parts i, below)),
            )
            (k.undoable i lt below)
    ]
