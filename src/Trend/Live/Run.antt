-- ===== src/Trend/Live/Run.antt =====
-- The run against the server from a click on "play" to the last iteration.
use inc_visage.Common.{
  ℕ, zero, suc, ℤ, pos, ◌+ℤ◌, +ℤ_parts, ◌≡◌, ◌∙◌, Bool, some, List, [], ◌∷◌, ◌++◌, arith, leb_ℤ,
  inc, inc_parts, eq_of_parts, ◌≤ℤ◌, ◌<ℤ◌, All, length, inl, inr, Bool-cases, append_assoc,
  eqb_ℤ_of_lt, subst, sym,
}
use inc_visage.Js.{next}
use inc_visage.Trend.Segment.{Segment}
use inc_visage.Trend.State.{State}
use inc_visage.Trend.Play.{Margins, Output}
use inc_visage.Trend.Live.{IsFinished, requested, drawn, history}
use inc_visage.Trend.Live.Answered.{
  IsAnswer, IsAt, answer_all, answered, answered-IsAt, requested-answered, drawn-answered,
  last-IsFinished, log-last, gen_charts-answered, chain-answered,
}

module _ {F : Type 0} ⦃m : Margins F⦄ where
  -- What the answers to the requests from `i` on have done to the page.
  pub record IsRun (hi i : ℤ) (n : ℕ) (s t : State F) : Type 0 where
    pub finished : IsFinished t
    pub same_end : t.x_max ≡ hi
    pub asked : requested t.log ≡ history (inc i) n ++ requested s.log
    pub shown : drawn t.log ≡ history i (suc n) ++ drawn s.log
    pub recorded :
        (j : ℤ) → i ≤ℤ j → j ≤ℤ hi → (arr : List (Segment F)) × (t.segment_chain j ≡ some arr)
    pub before : (j : ℤ) → j <ℤ i → t.segment_chain j ≡ s.segment_chain j

  answer_all-last :
      (lo hi i : ℤ) (b : Bool) (o : Output F) (s : State F)
      → IsAt lo hi i s
      → IsAnswer lo hi o
      → hi ≤ℤ i
      → (t : State F) × (answer_all b (o ∷ []) s ≡ next t) × IsRun hi i 0 s t
  unfolding answer_all
  answer_all-last lo hi i b o s h a le =
      let (fin, high) = last-IsFinished lo hi i b o s h a le in
      let (asked, shown) = log-last lo hi i b o s h a le in
      let ((arr, kept), others) = chain-answered lo hi i b o s h a in
      let t = answered lo hi i b o s h a in
      (
        answered lo hi i b o s h a,
        rw (gen_charts-answered lo hi i b o s h a),
        record {
          finished = fin;
          same_end = high;
          asked = asked;
          shown = shown;
          recorded = λ j p q.
              (arr, subst (λ k. t.segment_chain k ≡ some arr) (eq_of_parts i j (omega arith)) kept);
          before = λ j p. others j (eqb_ℤ_of_lt j i p);
        },
      )

  -- Earlier answers come before the rest of the run.
  IsRun-step :
      (lo hi i : ℤ) (n : ℕ) (b : Bool) (o : Output F) (s t : State F) (h : IsAt lo hi i s)
      (a : IsAnswer lo hi o)
      → i <ℤ hi
      → IsRun hi (inc i) n (answered lo hi i b o s h a) t
      → IsRun hi i (suc n) s t
  IsRun-step lo hi i n b o s t h a lt r =
      let ((arr, kept), others) = chain-answered lo hi i b o s h a in
      record {
        finished = r.finished;
        same_end = r.same_end;
        asked =
            r.asked
            ∙ rw (requested-answered lo hi i b o s h a lt)
                (sym (append_assoc (history (inc (inc i)) n) (inc i ∷ []) (requested s.log)));
        shown =
            r.shown
            ∙ rw (drawn-answered lo hi i b o s h a lt)
                (sym (append_assoc (history (inc i) (suc n)) (i ∷ []) (drawn s.log)));
        recorded = λ j p q. elim (Bool-cases (leb_ℤ (inc i) j)) [
          | inl e ↦ r.recorded j (ground arith) q
          | inr e ↦
              let same : i ≡ j = eq_of_parts i j (ground (arith, inc_parts i)) in
              (
                arr,
                r.before j (ground (arith, inc_parts i))
                    ∙ subst (λ k. (answered lo hi i b o s h a).segment_chain k ≡ some arr) same
                        kept,
              )
        ];
        before = λ j p. r.before j (omega (arith, inc_parts i)) ∙ others j (eqb_ℤ_of_lt j i p);
      }

  pub answer_all-live :
      (lo hi i : ℤ) (n : ℕ) (b : Bool) (os : List (Output F)) (s : State F)
      → IsAt lo hi i s
      → All (IsAnswer lo hi) os
      → length os ≡ suc n
      → i +ℤ pos n ≡ hi
      → (t : State F) × (answer_all b os s ≡ next t) × IsRun hi i n s t
  unfolding answer_all
  answer_all-live lo hi i n b [] s h a l e = absurd (omega arith)
  answer_all-live lo hi i zero b (o ∷ []) s h a l e =
      answer_all-last lo hi i b o s h a.0 (ground (arith, +ℤ_parts i (pos 0)))
  answer_all-live lo hi i zero b (o ∷ o' ∷ os) s h a l e = absurd (omega arith)
  answer_all-live lo hi i (suc n) b (o ∷ os) s h a l e =
      let lt : i <ℤ hi = ground (arith, +ℤ_parts i (pos (suc n))) in
      let next_at = answered-IsAt lo hi i b o s h a.0 lt in
      let (t, run, r) =
        answer_all-live lo hi (inc i) n b os (answered lo hi i b o s h a.0) next_at a.1
          (omega arith)
          (eq_of_parts (inc i +ℤ pos n) hi
            (ground (arith, +ℤ_parts i (pos (suc n)), +ℤ_parts (inc i) (pos n), inc_parts i))) in
      (t, rw (gen_charts-answered lo hi i b o s h a.0) run, IsRun-step lo hi i n b o s t h a.0 lt r)
