-- ===== src/Trend/Answer.antt =====
-- What `genCharts` does with an answer of the server.
use inc_visage.Common.{
  ℤ, ◌≡◌, Bool, true, false, some, List, ◌∷◌, arith, eqb_ℤ, inc, if◌then◌else◌, subst, sym, ap, ◌∙◌,
}
use inc_visage.Js.{next, update, update_self, update_other, Sparse}
use inc_visage.Refine.{Part, splice_parts, shapes}
use inc_visage.Trend.Segment.{Segment, value_at}
use inc_visage.Trend.State.{State, draw_segments}
use inc_visage.Trend.Play.{
  Margins, Output, YRange, set_range, first_range, take_segments, show_segments, play_on,
  gen_charts, play_next, stop,
}
use inc_visage.Trend.Tiling.{Tiles, covers, IsSplit, splice_parts-Tiles}

module _ {F : Type 0} ⦃m : Margins F⦄ where
  -- `genCharts` up to the segments: only the two ranges change.
  abbrev pub ranged : Bool → YRange F → State F → State F
  ranged is_sensor y s = first_range y (set_range is_sensor y s)

  pub segment_arr-ranged :
      (b : Bool) (y : YRange F) (s : State F) → (ranged b y s).segment_arr ≡ s.segment_arr
  unfolding set_range first_range
  segment_arr-ranged b y s = ground arith

  pub segment_chain-ranged :
      (b : Bool) (y : YRange F) (s : State F) → (ranged b y s).segment_chain ≡ s.segment_chain
  unfolding set_range first_range
  segment_chain-ranged b y s = ground arith

  pub iteration-ranged :
      (b : Bool) (y : YRange F) (s : State F) → (ranged b y s).iteration ≡ s.iteration
  unfolding set_range first_range
  iteration-ranged b y s = ground arith

  pub reset_flag-ranged :
      (b : Bool) (y : YRange F) (s : State F) → (ranged b y s).reset_flag ≡ s.reset_flag
  unfolding set_range first_range
  reset_flag-ranged b y s = ground arith

-- The segments on the page and in the chain. What follows them in `genCharts` leaves them alone.
module _ {F : Type 0} where
  abbrev recorded : State F → List (Segment F) × Sparse (List (Segment F))
  recorded s = (s.segment_arr, s.segment_chain)

  recorded-stop : (s : State F) → recorded (stop s) ≡ recorded s
  unfolding stop
  recorded-stop s = ground arith

  recorded-play_next : (s : State F) → s.reset_flag ≡ false → recorded (play_next s) ≡ recorded s
  unfolding play_next
  recorded-play_next s h = ground (arith, recorded-stop (record s { iteration = inc s.iteration }))

  recorded-play_on : (s : State F) → recorded (play_on s) ≡ recorded s
  unfolding play_on
  recorded-play_on s =
      ground (arith, recorded-play_next s, recorded-play_next (record s { play_noviz = true }))

  recorded-show_segments : (s : State F) → recorded (show_segments s) ≡ recorded s
  unfolding show_segments draw_segments
  recorded-show_segments s = ground arith

module _ {F : Type 0} ⦃m : Margins F⦄ where
  abbrev pub with_segments : List (Segment F) → List (Segment F) → State F → State F
  with_segments arr row s = record s {
    segment_arr = arr;
    segment_chain = update s.segment_chain s.iteration row;
  }

  -- The state that an answer with parts leads to.
  abbrev pub after_split : Bool → Output F → List (Part (Segment F)) → State F → State F
  after_split b o ps s =
      let arr = splice_parts 0 ps (ranged b o.y s).segment_arr in
      play_on (show_segments (with_segments arr arr (ranged b o.y s)))

  pub gen_charts-split :
      (b : Bool) (o : Output F) (p : Part (Segment F)) (ps : List (Part (Segment F))) (s : State F)
      → s.reset_flag ≡ false
      → o.sl ≡ p ∷ ps
      → gen_charts b o s ≡ next (after_split b o (p ∷ ps) s)
  unfolding gen_charts take_segments
  gen_charts-split b o p ps s h e = rw (h, e)

  recorded-finish : (s : State F) → recorded (play_on (show_segments s)) ≡ recorded s
  recorded-finish s = recorded-play_on (show_segments s) ∙ recorded-show_segments s

  -- The answer's iteration is recorded as the array that is drawn, and no other one is touched.
  pub record IsRecorded (s : State F) (arr : List (Segment F)) (t : State F) : Type 0 where
    pub drawn : t.segment_arr ≡ arr
    pub kept : t.segment_chain s.iteration ≡ some arr
    pub others : (j : ℤ) → eqb_ℤ s.iteration j ≡ false → t.segment_chain j ≡ s.segment_chain j

  pub finish-IsRecorded :
      (b : Bool) (y : YRange F) (s : State F) (arr : List (Segment F))
      → IsRecorded s arr (play_on (show_segments (with_segments arr arr (ranged b y s))))
  finish-IsRecorded b y s arr = record {
    drawn = ap (λ r. r.0) e;
    kept = ap (λ r. r.1 s.iteration) e ∙ rw (iteration-ranged b y s, update_self _ s.iteration arr);
    others = λ j n.
        ap (λ r. r.1 j) e
        ∙ rw (iteration-ranged b y s, segment_chain-ranged b y s)
            (update_other _ s.iteration j arr n);
  }
    where
      u : State F
      u = with_segments arr arr (ranged b y s)

      e : recorded (play_on (show_segments u)) ≡ recorded u
      e = recorded-finish u

  -- An answer that splits one segment: the run goes on, the segments still tile their range, the
  -- values change over the segment that was split, where they are those of the answer, and nowhere
  -- else, and the array is recorded under the iteration, the other records staying as they were.
  pub gen_charts-Tiles :
      (lo hi : ℤ) (b : Bool) (o : Output F) (p : Part (Segment F)) (ps : List (Part (Segment F)))
      (q : Segment F) (s : State F)
      → s.reset_flag ≡ false
      → o.sl ≡ p ∷ ps
      → Tiles lo hi s.segment_arr
      → IsSplit s.segment_arr p ps q
      → (t : State F) × (gen_charts b o s ≡ next t)
        × Tiles lo hi t.segment_arr
        × ((i : ℤ)
            → value_at t.segment_arr i
              ≡ (if covers q i then value_at (shapes (p ∷ ps)) i else value_at s.segment_arr i))
        × (t.segment_chain s.iteration ≡ some t.segment_arr)
        × ((j : ℤ) → eqb_ℤ s.iteration j ≡ false → t.segment_chain j ≡ s.segment_chain j)
  gen_charts-Tiles lo hi b o p ps q s h e tiles split =
      let arr : List (Segment F) = splice_parts 0 (p ∷ ps) s.segment_arr in
      let old = segment_arr-ranged b o.y s in
      let r : IsRecorded s arr (after_split b o (p ∷ ps) s) =
        rw old (finish-IsRecorded b o.y s arr) in
      let (tiled, values) = splice_parts-Tiles lo hi s.segment_arr p ps q tiles split in
      (
        after_split b o (p ∷ ps) s,
        gen_charts-split b o p ps s h e,
        subst (Tiles lo hi) (sym r.drawn) tiled,
        λ i. rw r.drawn (values i),
        rw r.drawn r.kept,
        r.others,
      )
