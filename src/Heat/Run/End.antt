-- ===== src/Heat/Run/End.antt =====
-- Any number of answers with parts, and the one without that ends the run.
use Prim.Native.String.{String}
use inc_visage.Common.{
  ℕ, zero, suc, inc_+ℤ, ℤ, pos, inc, inc-dec, inc_parts, ◌+ℤ◌, +ℤ_parts, eq_of_parts, ◌≤ℤ◌, ◌<ℤ◌,
  leb_ℤ, eqb_ℤ, eqb_ℤ_refl, eqb_ℤ_of_lt, true, false, Bool-cases, inl, inr, if_of_true, if_of_false,
  some, List, [], ◌∷◌, ◌++◌, All, length, append_assoc, ◌≡◌, ap, ◌∙◌, sym, subst, arith,
}
use inc_visage.Js.{Flow, next, ◌>>=◌, update_at, update_other}
use inc_visage.Refine.{Part, splice_parts}
use inc_visage.Heat.{Page, Quad, Cell}
use inc_visage.Heat.Play.{Output, gen_charts, first_axes}
use inc_visage.Heat.Run.{
  IsLive, requested, drawn, IsStep, stepped, gen_charts-stepped, stepped-IsStep, stepped-cells,
  ended, gen_charts-ended, IsEnded, ended-IsEnded,
}
use inc_visage.Trend.Live.{history}

module _ {F : Type 0} where
  -- An answer with parts.
  pub record HasParts (o : Output F) : Type 0 where
    pub first : Part (Quad F)
    pub rest : List (Part (Quad F))
    pub parts : o.sl ≡ first ∷ rest

  -- The answers one after the other.
  unfoldable pub answer_all : String → String → List (Output F) → Page F → Flow (Page F)
  answer_all dimension1 dimension2 [] s = next s
  answer_all dimension1 dimension2 (o ∷ os) s =
      gen_charts dimension1 dimension2 o s >>= answer_all dimension1 dimension2 os

  -- What `n` answers with parts and one without have done to the page that waited for iteration `i`.
  pub record IsRun (i : ℤ) (n : ℕ) (s t : Page F) : Type 0 where
    pub stopped : t.play_flag ≡ false
    pub last : inc t.iteration ≡ i +ℤ pos n
    pub bounded : (t.max_iteration ≡ t.iteration) × (t.seekbar_max_attr ≡ t.iteration)
    pub can_go_back : (t.back_flag ≡ true) × (t.back_lit ≡ true) × (t.backward_iter ≡ t.iteration)
    pub no_play : (t.play_lit ≡ false) × (t.forward_lit ≡ false)
    pub asked : requested t.log ≡ history (inc i) n ++ requested s.log
    pub shown : drawn t.log ≡ history i n ++ drawn s.log
    pub recorded :
        (j : ℤ) → i ≤ℤ j → j <ℤ i +ℤ pos n → (arr : List (Quad F)) × (t.segment_chain j ≡ some arr)
    pub before : (j : ℤ) → j <ℤ i → t.segment_chain j ≡ s.segment_chain j

  IsRun-ended : (s t : Page F) → IsEnded s t → IsRun s.iteration 0 s t
  IsRun-ended s t k = record {
    stopped = k.stopped;
    last =
        ap inc k.last
        ∙ inc-dec s.iteration
        ∙ eq_of_parts s.iteration (s.iteration +ℤ pos 0)
            (omega (arith, +ℤ_parts s.iteration (pos 0)));
    bounded = (k.bounded.0 ∙ sym k.last, k.bounded.1 ∙ sym k.last);
    can_go_back = (k.can_go_back.0, k.can_go_back.1, k.can_go_back.2 ∙ sym k.last);
    no_play = k.no_play;
    asked = ap requested k.same_log;
    shown = ap drawn k.same_log;
    recorded = λ j le lt. absurd (omega (arith, +ℤ_parts s.iteration (pos 0)));
    before = λ j lt. ap (λ c. c j) k.same_chain;
  }

  IsRun-step :
      (ps : List (Part (Quad F))) (n : ℕ) (s u t : Page F)
      → IsStep ps s u
      → IsRun (inc s.iteration) n u t
      → IsRun s.iteration (suc n) s t
  IsRun-step ps n s u t k r =
      let i = s.iteration in
      let arr = splice_parts 0 ps s.segment_arr in
      record {
        stopped = r.stopped;
        last = r.last ∙ inc_+ℤ i n;
        bounded = r.bounded;
        can_go_back = r.can_go_back;
        no_play = r.no_play;
        asked =
            r.asked
            ∙ ap (λ l. history (inc (inc i)) n ++ requested l) k.log
            ∙ sym (append_assoc (history (inc (inc i)) n) (inc i ∷ []) (requested s.log));
        shown =
            r.shown
            ∙ ap (λ l. history (inc i) n ++ drawn l) k.log
            ∙ sym (append_assoc (history (inc i) n) (i ∷ []) (drawn s.log));
        recorded = λ j le lt. elim (Bool-cases (leb_ℤ (inc i) j)) [
          | inl e ↦
              r.recorded j (ground arith)
                (omega (arith, +ℤ_parts (inc i) (pos n), +ℤ_parts i (pos (suc n)), inc_parts i))
          | inr e ↦
              let same : i ≡ j = eq_of_parts i j (ground (arith, inc_parts i)) in
              (
                arr,
                r.before j (ground (arith, inc_parts i))
                    ∙ ap (λ c. c j) k.chain
                    ∙ update_at s.segment_chain i j arr
                        (subst (λ a. eqb_ℤ i a ≡ true) same (eqb_ℤ_refl i)),
              )
        ];
        before = λ j lt.
            r.before j (omega (arith, inc_parts i))
            ∙ ap (λ c. c j) k.chain
            ∙ update_other s.segment_chain i j arr (eqb_ℤ_of_lt j i lt);
      }

  module _ (dimension1 dimension2 : String) (o : Output F) (none_left : o.sl ≡ []) where
    -- The cells are known, and the answer for the first iteration is past.
    record KnowsCells (s : Page F) : Type 0 where
      cells : List Cell
      known : s.valid_cells ≡ some cells
      later : pos 1 <ℤ s.iteration

    first_axes-later :
        (a : Output F) (s : Page F) (k : KnowsCells s)
        → (first_axes dimension1 dimension2 a s).valid_cells ≡ some k.cells
    unfolding first_axes
    first_axes-later a s k =
        if_of_false (eqb_ℤ s.iteration (pos 1)) a.valid_cells s.valid_cells
          (ground (arith, k.later))
        ∙ k.known

    answer_all-live :
        (n : ℕ) (os : List (Output F)) (s : Page F)
        → IsLive s
        → KnowsCells s
        → All HasParts os
        → length os ≡ n
        → s.iteration +ℤ pos n ≤ℤ s.max_iteration
        → (t : Page F) × (answer_all dimension1 dimension2 (os ++ o ∷ []) s ≡ next t)
          × IsRun s.iteration n s t
    unfolding answer_all
    answer_all-live zero [] s l k h e le = (
      ended dimension1 dimension2 o s l none_left,
      ap (λ f. f >>= λ t. next t) (gen_charts-ended dimension1 dimension2 o s l none_left),
      IsRun-ended s _ (ended-IsEnded dimension1 dimension2 o s l none_left),
    )
    answer_all-live zero (a ∷ os) s l k h e le = absurd (omega arith)
    answer_all-live (suc n) [] s l k h e le = absurd (omega arith)
    answer_all-live (suc n) (a ∷ os) s l k h e le =
        let p = h.0 in
        let cells = first_axes-later a s k in
        let u = stepped dimension1 dimension2 a p.first p.rest k.cells s l p.parts cells in
        let step : IsStep (p.first ∷ p.rest) s u =
          stepped-IsStep dimension1 dimension2 a p.first p.rest k.cells s l p.parts cells in
        let (t, run, r) =
          answer_all-live n os u step.live
            (record {
              cells = k.cells;
              known =
                  stepped-cells dimension1 dimension2 a p.first p.rest k.cells s l p.parts cells;
              later = rw step.moved (ground (arith, k.later, inc_parts s.iteration));
            })
            h.1 (omega arith) (rw (step.moved, step.same_max, inc_+ℤ s.iteration n) le) in
        (
          t,
          ap (λ f. f >>= answer_all dimension1 dimension2 (os ++ o ∷ []))
                (gen_charts-stepped dimension1 dimension2 a p.first p.rest k.cells s l p.parts cells
                  (omega (arith, +ℤ_parts s.iteration (pos (suc n)))))
              ∙ run,
          IsRun-step (p.first ∷ p.rest) n s u t step (subst (λ i. IsRun i n u t) step.moved r),
        )

  first_axes-first :
      (dimension1 dimension2 : String) (a : Output F) (s : Page F) (cells : List Cell)
      → s.iteration ≡ pos 1
      → a.valid_cells ≡ some cells
      → (first_axes dimension1 dimension2 a s).valid_cells ≡ some cells
  unfolding first_axes
  first_axes-first dimension1 dimension2 a s cells at h =
      if_of_true (eqb_ℤ s.iteration (pos 1)) a.valid_cells s.valid_cells
        (ap (λ i. eqb_ℤ i (pos 1)) at)
      ∙ h

  -- From a page that waits for the first answer, `n + 1` answers with parts, the first of which has
  -- the cells, and one without parts end with no exception, where the page has room for one more
  -- iteration than these. The iterations from 1 on are drawn, once each and in order, and the later
  -- ones asked for; all are recorded; and the run stops at the last one with parts, which becomes
  -- `maxIteration` and the end of the seek bar, with only "back" lit.
  pub answer_all-IsRun :
      (dimension1 dimension2 : String) (n : ℕ) (a : Output F) (os : List (Output F)) (o : Output F)
      (cells : List Cell) (s : Page F)
      → IsLive s
      → s.iteration ≡ pos 1
      → HasParts a
      → a.valid_cells ≡ some cells
      → All HasParts os
      → length os ≡ n
      → o.sl ≡ []
      → s.iteration +ℤ pos (suc n) ≤ℤ s.max_iteration
      → (t : Page F) × (answer_all dimension1 dimension2 (a ∷ os ++ o ∷ []) s ≡ next t)
        × IsRun s.iteration (suc n) s t
  unfolding answer_all
  answer_all-IsRun dimension1 dimension2 n a os o cells s l at p c h e none_left le =
      let known = first_axes-first dimension1 dimension2 a s cells at c in
      let u = stepped dimension1 dimension2 a p.first p.rest cells s l p.parts known in
      let step : IsStep (p.first ∷ p.rest) s u =
        stepped-IsStep dimension1 dimension2 a p.first p.rest cells s l p.parts known in
      let (t, run, r) =
        answer_all-live dimension1 dimension2 o none_left n os u step.live
          (record {
            cells = cells;
            known = stepped-cells dimension1 dimension2 a p.first p.rest cells s l p.parts known;
            later = rw (step.moved, at) (ground (arith, inc_parts (pos 1)));
          })
          h e (rw (step.moved, step.same_max, inc_+ℤ s.iteration n) le) in
      (
        t,
        ap (λ f. f >>= answer_all dimension1 dimension2 (os ++ o ∷ []))
              (gen_charts-stepped dimension1 dimension2 a p.first p.rest cells s l p.parts known
                (omega (arith, +ℤ_parts s.iteration (pos (suc n)))))
            ∙ run,
        IsRun-step (p.first ∷ p.rest) n s u t step (subst (λ i. IsRun i n u t) step.moved r),
      )
