-- ===== src/Former/Alike.antt =====
-- The former heatmap (new-web-test/js/old_/heatmap/player.js) beside the present one
-- (new-web-test/js/heatmap/player.js), which keeps a copy of the array of every iteration.
pub mod Drawn
use Prim.Native.String.{String}
use inc_visage.Common.{
  ℕ, zero, suc, ℤ, pos, inc, dec, inc_parts, dec_parts, dec-inc, eqb_ℤ, ◌-ℤ◌, -ℤ_parts, eq_of_parts,
  ◌==◌, ◌≤ℤ◌, ◌<ℤ◌, leb_ℤ, ltb_ℤ, Bool-cases, inl, inr, true, false, Option, none, some, List, [],
  ◌∷◌, map, length, get_elem?, ◌≡◌, refl, ap, ◌∙◌, sym, subst, if_of_true, if_of_false, arith,
}
use inc_visage.Js.{
  next, ◌>>=◌, splice_one, splice_in, update, update_self, update_other, update_above,
}
use inc_visage.Refine.{Part, splice_part, splice_parts}
use inc_visage.Refine.Laws.{IsNumbered}
use inc_visage.Refine.Lift.{lift, shapes_of, splice_parts-shapes, IsNumbered-lift}
use inc_visage.Heat.{Page, Quad, Cell}
use inc_visage.Heat.Play.{Output, gen_charts, first_axes}
use inc_visage.Heat.Split.{gen_charts-arr}
use inc_visage.Former.{FormerPage, Shape, all_defined, current_iter_of, rebuild}
use inc_visage.Former.Chains.{Replaced, splice, undo_one, undo}
use inc_visage.Former.Chains.Undo.{IsUndoable, splice-splice_parts, undo_back_to}
use inc_visage.Former.Play.{shape_at}
use inc_visage.Former.Play.{
  Output as FormerOutput, gen_charts as former_gen_charts, first_axes as former_first_axes,
}
use inc_visage.Former.Answers.{IsTaken, gen_charts-IsTaken}

module _ {F : Type 0} where
  -- The whole answer, as the former page reads it.
  abbrev pub former_answer : Output F → FormerOutput F
  former_answer o = record {
    valid_cells = o.valid_cells;
    sl = map lift o.sl;
    range = o.y;
    max = o.max;
    min = o.min;
  }

  -- What the present page has recorded, as the former one would hold it.
  abbrev pub history : Option (List (Quad F)) → List (Shape F)
  history none = []
  history (some arr) = shapes_of arr

  -- The two pages hold the same array for iteration `cur`, and from `cur` the former one can undo to
  -- any array that the present one has recorded from `lo` on.
  pub record IsAlike (lo cur : ℤ) (s : FormerPage F) (t : Page F) : Type 0 where
    pub arr : s.segment_arr ≡ shapes_of t.segment_arr
    pub last : t.segment_chain cur ≡ some t.segment_arr
    pub undoable :
        IsUndoable s.segment_backward_chain s.segment_forward_chain
          (λ i. history (t.segment_chain i))
          lo
          cur

  all_defined-shapes : (arr : List (Quad F)) → all_defined (shapes_of arr) ≡ true
  unfolding all_defined
  all_defined-shapes [] = refl
  all_defined-shapes (x ∷ arr) = all_defined-shapes arr

  shape_at-shapes :
      (arr : List (Quad F)) (n : ℕ) (q : Quad F)
      → get_elem? arr n ≡ some q
      → (shape_at (shapes_of arr) n ≡ some q) × (get_elem? (shapes_of arr) n ≡ some (some q))
  unfolding shape_at
  shape_at-shapes [] n q h = cc
  shape_at-shapes (x ∷ arr) zero q h = (h, ap some h)
  shape_at-shapes (x ∷ arr) (suc n) q h = shape_at-shapes arr n q h

  module _ (lo cur : ℤ) (s : FormerPage F) (t : Page F) (k : IsAlike lo cur s t) (p : Part (Quad F))
      (ps : List (Part (Quad F))) (q : Quad F) (at : get_elem? t.segment_arr p.n ≡ some q)
      (numbered : IsNumbered p.n (p ∷ ps)) where
    -- The array after the answer.
    abbrev new : List (Quad F)
    new = splice_parts 0 (p ∷ ps) t.segment_arr

    abbrev back : ℤ → Option (Replaced (Shape F))
    back = update s.segment_backward_chain (inc cur) (record { n = p.n; s = some q })

    abbrev forward : ℤ → Option (List (Part (Shape F)))
    forward = update s.segment_forward_chain (inc cur) (lift p ∷ map lift ps)

    abbrev chain : ℤ → Option (List (Quad F))
    chain = update t.segment_chain (inc cur) new

    undo_new :
        undo_one (back (inc cur)) (forward (inc cur)) (history (chain (inc cur)))
        ≡ some (history (chain cur))
    unfolding undo_one
    undo_new =
        let known : chain cur ≡ some t.segment_arr =
          update_above t.segment_chain (inc cur) cur new (omega (arith, inc_parts cur)) ∙ k.last in
        rw
          (
            update_self s.segment_backward_chain (inc cur) (record { n = p.n; s = some q }),
            update_self s.segment_forward_chain (inc cur) (lift p ∷ map lift ps),
            update_self t.segment_chain (inc cur) new,
          )
          (ap some (
            ap (λ a. splice a p.n (length (lift p ∷ map lift ps)) (some q))
              (sym (splice_parts-shapes 0 (p ∷ ps) t.segment_arr))
            ∙ splice-splice_parts (lift p) (map lift ps) (shapes_of t.segment_arr) (some q)
                (shape_at-shapes t.segment_arr p.n q at).1 (IsNumbered-lift p.n (p ∷ ps) numbered)
            ∙ sym (ap history known)))

    IsUndoable-next : IsUndoable back forward (λ i. history (chain i)) lo (inc cur)
    IsUndoable-next i lt le = elim (Bool-cases (eqb_ℤ (inc cur) i)) [
      | inl e ↦
          subst
            (λ j.
              undo_one (back j) (forward j) (history (chain j)) ≡ some (history (chain (dec j))))
            (eq_of_parts (inc cur) i (ground (arith, e)))
            (undo_new ∙ ap (λ j. some (history (chain j))) (sym (dec-inc cur)))
      | inr e ↦
          rw
            (
              update_other s.segment_backward_chain (inc cur) i (record { n = p.n; s = some q }) e,
              update_other s.segment_forward_chain (inc cur) i (lift p ∷ map lift ps) e,
              update_other t.segment_chain (inc cur) i new e,
              update_above t.segment_chain (inc cur) (dec i) new (omega (arith, dec_parts i, le)),
            )
            (k.undoable i lt (ground (arith, e, le, inc_parts cur)))
    ]

  -- An answer that splits one quad, with its parts numbered from its place, is taken in by both
  -- players with no exception where each page waits for the iteration after `cur`, knows the cells
  -- and is not being reset; and after it the pages are alike for that iteration.
  pub gen_charts-IsAlike :
      (dimension1 dimension2 : String) (o : Output F) (p : Part (Quad F))
      (ps : List (Part (Quad F))) (q : Quad F) (cells old_cells : List Cell) (lo cur : ℤ)
      (s : FormerPage F) (t : Page F)
      → IsAlike lo cur s t
      → (s.iteration ≡ inc cur) × (t.iteration ≡ inc cur)
      → (s.reset_flag ≡ false) × (t.reset_flag ≡ false)
      → o.sl ≡ p ∷ ps
      → (former_first_axes dimension1 dimension2 (former_answer o) s).valid_cells ≡ some old_cells
      → (first_axes dimension1 dimension2 o t).valid_cells ≡ some cells
      → get_elem? t.segment_arr p.n ≡ some q
      → IsNumbered p.n (p ∷ ps)
      → (s' : FormerPage F) × (t' : Page F) × (former_gen_charts dimension1 dimension2
            (former_answer o)
            s
          ≡ next s')
        × (gen_charts dimension1 dimension2 o t ≡ next t')
        × IsAlike lo (inc cur) s' t'
        × (s'.iteration ≡ inc cur)
        × (s'.max_iteration ≡ s.max_iteration)
  gen_charts-IsAlike dimension1 dimension2 o p ps q cells old_cells lo cur s t k (i, j) (r, r') e c
        c' at numbered =
      let new : List (Quad F) = splice_parts 0 (p ∷ ps) t.segment_arr in
      let same : splice_parts 0 (lift p ∷ map lift ps) s.segment_arr ≡ shapes_of new =
        ap (splice_parts 0 (lift p ∷ map lift ps)) k.arr
        ∙ splice_parts-shapes 0 (p ∷ ps) t.segment_arr in
      let (s', run, w) =
        gen_charts-IsTaken dimension1 dimension2 (former_answer o) s (lift p) (map lift ps)
          old_cells r (ap (map lift) e) c (ap all_defined same ∙ all_defined-shapes new) in
      let (t', run', arr, chain) = gen_charts-arr dimension1 dimension2 o t p ps cells r' e c' in
      let stood : shape_at s.segment_arr p.n ≡ some q =
        ap (λ a. shape_at a p.n) k.arr ∙ (shape_at-shapes t.segment_arr p.n q at).0 in
      let recorded : t'.segment_chain ≡ update t.segment_chain (inc cur) new =
        chain
        ∙ ap (λ n. update t.segment_chain n t'.segment_arr) j
        ∙ ap (update t.segment_chain (inc cur)) arr in
      (
        s',
        t',
        run,
        run',
        record {
          arr = w.arr ∙ same ∙ ap shapes_of (sym arr);
          last =
              ap (λ c. c (inc cur)) recorded
              ∙ update_self t.segment_chain (inc cur) new
              ∙ ap some (sym arr);
          undoable =
              rw
                (
                  w.back
                      ∙ ap
                          (λ n.
                            update s.segment_backward_chain n
                              (record { n = p.n; s = shape_at s.segment_arr p.n }))
                          i
                      ∙ ap
                          (λ x.
                            update s.segment_backward_chain (inc cur) (record { n = p.n; s = x }))
                          stood,
                  w.forward ∙ ap (λ n. update s.segment_forward_chain n (lift p ∷ map lift ps)) i,
                  recorded,
                )
                (IsUndoable-next lo cur s t k p ps q at numbered);
        },
        w.iteration ∙ i,
        w.max_iteration,
      )
