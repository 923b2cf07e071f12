-- ===== src/Histogram/Recorded/Answers.antt =====
-- How `genCharts` of the former histogram takes in an answer that splits one segment in two
-- (new-web-test/js/old_/histogram/player.js).
use inc_visage.Common.{
  ℕ, suc, ℤ, pos, inc, inc_parts, ◌≤ℤ◌, eq_of_parts, eqb_ℤ, true, false, ◌||◌, Bool-cases, inl, inr,
  if_of_true, if_of_false, if◌then◌else◌, some, List, [], ◌∷◌, length, get_elem?, ◌≡◌, refl, ap,
  ◌∙◌, sym, arith,
}
use inc_visage.Js.{splice_one, Flow, next, ◌>>=◌, update, update_self}
use inc_visage.Refine.{splice_part, Part, splice_parts}
use inc_visage.Refine.Laws.{IsNumbered}
use inc_visage.Refine.Lift.{lift, shapes_of, splice_parts-shapes}
use inc_visage.Trend.Segment.{Segment}
use inc_visage.Trend.State.{graph}
use inc_visage.Histogram.{HistogramPage, Bar, Estimate, Estimates, all_known, announce}
use inc_visage.Histogram.Play.{
  Output, gen_charts, first_range, take_parts, take_estimates, put_estimates, show_segments,
  play_on, bar_at,
}
use inc_visage.Histogram.Recorded.{IsRecorded, drawn, render-drawn}
use inc_visage.Histogram.Recorded.Undoable.{
  extend, bar_at-shapes, all_known-shapes, length-split, later_self, undoable-next,
}

pos-suc : (n : ℕ) → pos (suc n) ≡ inc (pos n)
pos-suc n = eq_of_parts (pos (suc n)) (inc (pos n)) (omega (arith, inc_parts (pos n)))

module _ {F : Type 0} where
  -- What the last two blocks of `genCharts` leave alone.
  pub record IsSameRun (s t : HistogramPage F) : Type 0 where
    pub arr : t.segment_arr ≡ s.segment_arr
    pub back : t.segment_backward_chain ≡ s.segment_backward_chain
    pub estimates : t.estimate_chain ≡ s.estimate_chain
    pub iteration : t.iteration ≡ s.iteration

  show_segments-IsSameRun :
      (s : HistogramPage F)
      → all_known s.segment_arr ≡ true
      → all_known s.estimate_arr ≡ true
      → (t : HistogramPage F) × (show_segments s ≡ next t) × IsSameRun s t
  unfolding show_segments drawn announce
  show_segments-IsSameRun s a b = elim (Bool-cases (s.play_noviz || s.simplay_flag)) [
    | inl e ↦ (
      s,
      if_of_true (s.play_noviz || s.simplay_flag) _ _ e,
      record { arr = refl; back = refl; estimates = refl; iteration = refl },
    )
    | inr e ↦ (
      _,
      if_of_false (s.play_noviz || s.simplay_flag) _ _ e
          ∙ ap (λ f. f >>= λ t. next (record t { seekbar_value = t.iteration }))
              (render-drawn graph s.iteration s.segment_arr s.estimate_arr s a b),
      record { arr = refl; back = refl; estimates = refl; iteration = refl },
    )
  ]

  play_on-IsSameRun : (s : HistogramPage F) → IsSameRun s (play_on s)
  unfolding play_on
  play_on-IsSameRun s = record {
    arr = ground arith;
    back = ground arith;
    estimates = ground arith;
    iteration = ground arith;
  }

  -- The estimates after an answer.
  abbrev pub estimates_after : List (Estimate F) → HistogramPage F → Estimates F
  estimates_after es s = put_estimates (eqb_ℤ s.iteration s.x_min) s.x_min 0 es s.estimate_arr

  module _ (o : Output F) (s : HistogramPage F) (p : Part (Bar F)) (ps : List (Part (Bar F)))
      (es : List (Estimate F)) where
    -- The page with the range of the y axis.
    abbrev ranged : HistogramPage F
    ranged = record s {
      y_min = update s.y_min s.iteration o.y_min;
      y_max = update s.y_max s.iteration o.y_max;
    }

    first_range-later : eqb_ℤ s.iteration (pos 1) ≡ false → first_range o s ≡ ranged
    unfolding first_range
    first_range-later first =
        ap
          (λ b. record ranged {
            x_max = if b then o.x_max else s.x_max;
            x_min = if b then o.x_min else s.x_min;
            iteration = if b then o.x_min else s.iteration;
          })
          first

    -- The page at the first iteration, which the answer renames.
    abbrev ranged_first : HistogramPage F
    ranged_first = record ranged { x_max = o.x_max; x_min = o.x_min; iteration = o.x_min }

    first_range-first : eqb_ℤ s.iteration (pos 1) ≡ true → first_range o s ≡ ranged_first
    unfolding first_range
    first_range-first first =
        ap
          (λ b. record ranged {
            x_max = if b then o.x_max else s.x_max;
            x_min = if b then o.x_min else s.x_min;
            iteration = if b then o.x_min else s.iteration;
          })
          first

    abbrev rest : Flow (HistogramPage F) → Flow (HistogramPage F)
    rest f = f >>= λ t. show_segments t >>= λ u. next (play_on u)

    module _ (r : HistogramPage F) (axes : first_range o s ≡ r) where
      -- The page after the arrays were changed.
      abbrev taken : HistogramPage F
      taken = record (take_parts (p ∷ ps) r) {
        estimate_arr = estimates_after es r;
        estimate_chain = update r.estimate_chain r.iteration (estimates_after es r);
      }

      gen_charts-rest :
          s.reset_flag ≡ false → o.sl ≡ p ∷ ps → o.gl ≡ some es → gen_charts o s ≡ rest (next taken)
      unfolding gen_charts take_estimates take_parts
      gen_charts-rest n e g =
          if_of_false s.reset_flag _ _ n
          ∙ ap (λ sl. rest (take_estimates o.gl (take_parts sl (first_range o s)))) e
          ∙ ap (λ gl. rest (take_estimates gl (take_parts (p ∷ ps) (first_range o s)))) g
          ∙ ap (λ t. rest (take_estimates (some es) (take_parts (p ∷ ps) t))) axes

      gen_charts-taken :
          s.reset_flag ≡ false
          → o.sl ≡ p ∷ ps
          → o.gl ≡ some es
          → all_known taken.segment_arr ≡ true
          → all_known taken.estimate_arr ≡ true
          → (t : HistogramPage F) × (gen_charts o s ≡ next t) × IsSameRun taken t
      gen_charts-taken n e g a b =
          let (t, run, k) = show_segments-IsSameRun taken a b in
          let l = play_on-IsSameRun t in
          (
            play_on t,
            gen_charts-rest n e g ∙ ap (λ f. f >>= λ u. next (play_on u)) run,
            record {
              arr = l.arr ∙ k.arr;
              back = l.back ∙ k.back;
              estimates = l.estimates ∙ k.estimates;
              iteration = l.iteration ∙ k.iteration;
            },
          )

  -- The first answer, of one part, on an empty page that waits for it and is not being reset, and
  -- that puts the first place at 1 with no gap left among the estimates, is taken in with no
  -- exception; the page then holds the one segment as the array of iteration 1.
  pub gen_charts-first :
      (o : Output F) (s : HistogramPage F) (p : Part (Segment F)) (es : List (Estimate F))
      → (s.iteration ≡ pos 1) × (s.segment_arr ≡ []) × (s.reset_flag ≡ false)
      → (o.sl ≡ lift p ∷ []) × (o.gl ≡ some es) × (o.x_min ≡ pos 1)
      → all_known (put_estimates true (pos 1) 0 es s.estimate_arr) ≡ true
      → (t : HistogramPage F) × (gen_charts o s ≡ next t)
        × IsRecorded (λ i. p.shape ∷ []) (pos 1) (pos 1) t
        × (t.iteration ≡ pos 1)
  unfolding take_parts splice_parts splice_part splice_one all_known
  gen_charts-first o s p es (i, a, n) (e, g, x) gaps =
      let r = ranged_first o s (lift p) [] es in
      let axes = first_range-first o s (lift p) [] es (ground (arith, i)) in
      let one : splice_parts 0 (lift p ∷ []) s.segment_arr ≡ some p.shape ∷ [] =
        ap (splice_parts 0 (lift p ∷ [])) a in
      let (t, run, w) =
        gen_charts-taken o s (lift p) [] es r axes n e g (ap all_known one)
          (ap (λ n. all_known (put_estimates (eqb_ℤ n n) n 0 es s.estimate_arr)) x ∙ gaps) in
      (
        t,
        run,
        record {
          arr = w.arr ∙ one;
          count = refl;
          undoable = λ j lt le. absurd (omega (arith, lt, le));
        },
        w.iteration ∙ x,
      )

  -- After the first iteration, an answer that splits one segment in two, with its parts numbered
  -- from its place and no gap left among the estimates, is taken in with no exception where the page
  -- waits for the iteration after `cur` and is not being reset: the page then holds the array with
  -- the split and can undo it too, and it keeps the estimates for the iteration.
  pub gen_charts-IsRecorded :
      (arrays : ℤ → List (Segment F)) (lo cur : ℤ) (o : Output F) (s : HistogramPage F)
      (p q : Part (Segment F)) (x : Segment F) (es : List (Estimate F))
      → IsRecorded arrays lo cur s
      → (s.iteration ≡ inc cur) × (pos 1 ≤ℤ cur) × (s.reset_flag ≡ false)
      → (o.sl ≡ lift p ∷ lift q ∷ []) × (o.gl ≡ some es)
      → get_elem? (arrays cur) p.n ≡ some x
      → IsNumbered p.n (p ∷ q ∷ [])
      → all_known (estimates_after es s) ≡ true
      → (t : HistogramPage F) × (gen_charts o s ≡ next t)
        × IsRecorded
            (extend arrays (inc cur) (splice_parts 0 (p ∷ q ∷ []) (arrays cur)))
            lo
            (inc cur)
            t
        × (t.estimate_chain (inc cur) ≡ some (estimates_after es s))
        × (t.iteration ≡ inc cur)
  unfolding take_parts
  gen_charts-IsRecorded arrays lo cur o s p q x es k (i, one, r) (e, g) at numbered gaps =
      let now : List (Segment F) = splice_parts 0 (p ∷ q ∷ []) (arrays cur) in
      let same : splice_parts 0 (lift p ∷ lift q ∷ []) s.segment_arr ≡ shapes_of now =
        ap (splice_parts 0 (lift p ∷ lift q ∷ [])) k.arr
        ∙ splice_parts-shapes 0 (p ∷ q ∷ []) (arrays cur) in
      let (t, run, w) =
        gen_charts-taken o s (lift p) (lift q ∷ []) es (ranged o s (lift p) (lift q ∷ []) es)
          (first_range-later o s (lift p) (lift q ∷ []) es
            (ap (λ n. eqb_ℤ n (pos 1)) i ∙ ground (arith, one, inc_parts cur)))
          r e g (ap all_known same ∙ all_known-shapes now) gaps in
      let stood : bar_at s.segment_arr p.n ≡ some x =
        ap (λ a. bar_at a p.n) k.arr ∙ (bar_at-shapes (arrays cur) p.n x at).0 in
      (
        t,
        run,
        record {
          arr = w.arr ∙ same ∙ ap shapes_of (sym (later_self arrays lo cur s k p q x at numbered));
          count =
              ap (λ a. pos (length a)) (later_self arrays lo cur s k p q x at numbered)
              ∙ ap pos (length-split p q (arrays cur) x at numbered)
              ∙ pos-suc (length (arrays cur))
              ∙ ap inc k.count;
          undoable =
              rw
                (w.back
                  ∙ ap
                      (λ n.
                        update s.segment_backward_chain n
                          (record { n = p.n; s = bar_at s.segment_arr p.n }))
                      i
                  ∙ ap (λ y. update s.segment_backward_chain (inc cur) (record { n = p.n; s = y }))
                      stood)
                (undoable-next arrays lo cur s k p q x at numbered);
        },
        ap (λ c. c (inc cur)) w.estimates
            ∙ ap (λ n. update s.estimate_chain n (estimates_after es s) (inc cur)) i
            ∙ update_self s.estimate_chain (inc cur) (estimates_after es s),
        w.iteration ∙ i,
      )
