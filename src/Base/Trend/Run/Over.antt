-- ===== src/Base/Trend/Run/Over.antt =====
-- A whole run of new-web-test/js/trendline/playerBase.js.
use inc_visage.Common.{
  ℕ, suc, inc_+ℤ, ℤ, pos, inc, inc_parts, ◌+ℤ◌, +ℤ_parts, eq_of_parts, ◌≤ℤ◌, ◌<ℤ◌, leb_ℤ, eqb_ℤ,
  eqb_ℤ_of_lt, Bool, Bool-cases, inl, inr, true, false, some, List, [], ◌∷◌, ◌++◌, All, length,
  append_assoc, ◌≡◌, ap, ◌∙◌, sym, subst, arith,
}
use inc_visage.Js.{Flow, next, ◌>>=◌, update_at, update_other}
use inc_visage.Refine.{Part, shapes}
use inc_visage.Trend.Segment.{Segment}
use inc_visage.Trend.Play.{Margins}
use inc_visage.Trend.Live.{requested, drawn, history}
use inc_visage.Base.Trend.{BasePage, BaseOutput}
use inc_visage.Base.Trend.Run.{IsWaiting, answer_base}
use inc_visage.Base.Trend.Run.End.{
  IsStep, IsEnded, stepped, stepped-IsStep, answer_base-stepped, ended, ended-IsEnded,
  answer_base-ended,
}

+ℤ_zero : (i : ℤ) → i ≡ i +ℤ pos 0
+ℤ_zero i = eq_of_parts i (i +ℤ pos 0) (omega (arith, +ℤ_parts i (pos 0)))

module _ {F : Type 0} where
  -- The answer has its segments, and says that others follow.
  pub record HasMore (o : BaseOutput F) : Type 0 where
    pub gl : List (Part (Segment F))
    pub whole : o.gl ≡ some gl
    pub goes_on : eqb_ℤ o.continued (pos 0) ≡ false

  -- The answer has its segments, and says that it is the last.
  pub record IsLast (o : BaseOutput F) : Type 0 where
    pub gl : List (Part (Segment F))
    pub whole : o.gl ≡ some gl
    pub over : eqb_ℤ o.continued (pos 0) ≡ true

  -- What `n` answers and a last one have done to the page that waited for iteration `i`.
  pub record IsOver (i : ℤ) (n : ℕ) (b t : BasePage F) : Type 0 where
    pub stopped : t.state.play_flag ≡ false
    pub bounded : t.state.x_max ≡ i +ℤ pos n
    pub twice : t.state.iteration ≡ inc (inc t.state.x_max)
    pub can_go_back : (t.state.back_flag ≡ true) × (t.state.back_lit ≡ true)
    pub no_play : (t.state.play_lit ≡ false) × (t.state.forward_lit ≡ false)
    pub no_timer : t.timers ≡ []
    pub asked : requested t.state.log ≡ history (inc i) n ++ requested b.state.log
    pub shown : drawn t.state.log ≡ history i (suc n) ++ drawn b.state.log
    pub recorded :
        (j : ℤ)
        → i ≤ℤ j
        → j ≤ℤ i +ℤ pos n
        → (arr : List (Segment F)) × (t.state.segment_chain j ≡ some arr)
    pub before : (j : ℤ) → j <ℤ i → t.state.segment_chain j ≡ b.state.segment_chain j

  module _ ⦃m : Margins F⦄ where
    -- The answers one after the other, each with the timers that it sets.
    unfoldable pub answer_all_base : Bool → List (BaseOutput F) → BasePage F → Flow (BasePage F)
    answer_all_base is_sensor [] b = next b
    answer_all_base is_sensor (o ∷ os) b =
        answer_base is_sensor o b >>= answer_all_base is_sensor os

    IsOver-ended :
        (gl : List (Part (Segment F))) (b t : BasePage F)
        → IsEnded gl b t
        → IsOver b.state.iteration 0 b t
    IsOver-ended gl b t k =
        let i = b.state.iteration in
        record {
          stopped = k.stopped;
          bounded = k.bounded ∙ +ℤ_zero i;
          twice = k.twice ∙ ap (λ j. inc (inc j)) (sym k.bounded);
          can_go_back = k.can_go_back;
          no_play = k.no_play;
          no_timer = k.no_timer;
          asked = ap requested k.log;
          shown = ap drawn k.log;
          recorded = λ j le top. (
            shapes gl,
            ap (λ c. c j) k.chain
                ∙ update_at b.state.segment_chain i j (shapes gl)
                    (ground (arith, le, top, +ℤ_parts i (pos 0))),
          );
          before = λ j lt.
              ap (λ c. c j) k.chain
              ∙ update_other b.state.segment_chain i j (shapes gl) (eqb_ℤ_of_lt j i lt);
        }

    IsOver-step :
        (gl : List (Part (Segment F))) (n : ℕ) (b u t : BasePage F)
        → IsStep gl b u
        → IsOver (inc b.state.iteration) n u t
        → IsOver b.state.iteration (suc n) b t
    IsOver-step gl n b u t k r =
        let i = b.state.iteration in
        record {
          stopped = r.stopped;
          bounded = r.bounded ∙ inc_+ℤ i n;
          twice = r.twice;
          can_go_back = r.can_go_back;
          no_play = r.no_play;
          no_timer = r.no_timer;
          asked =
              r.asked
              ∙ ap (λ l. history (inc (inc i)) n ++ requested l) k.log
              ∙ sym (append_assoc (history (inc (inc i)) n) (inc i ∷ []) (requested b.state.log));
          shown =
              r.shown
              ∙ ap (λ l. history (inc i) (suc n) ++ drawn l) k.log
              ∙ sym (append_assoc (history (inc i) (suc n)) (i ∷ []) (drawn b.state.log));
          recorded = λ j le top. elim (Bool-cases (leb_ℤ (inc i) j)) [
            | inl e ↦
                r.recorded j (ground arith)
                  (omega (arith, +ℤ_parts (inc i) (pos n), +ℤ_parts i (pos (suc n)), inc_parts i))
            | inr e ↦ (
              shapes gl,
              r.before j (ground (arith, inc_parts i))
                  ∙ ap (λ c. c j) k.chain
                  ∙ update_at b.state.segment_chain i j (shapes gl) (ground (arith, inc_parts i)),
            )
          ];
          before = λ j lt.
              r.before j (omega (arith, inc_parts i))
              ∙ ap (λ c. c j) k.chain
              ∙ update_other b.state.segment_chain i j (shapes gl) (eqb_ℤ_of_lt j i lt);
        }

    -- From a page that waits for an answer, any number of answers that others follow and the last
    -- one, which is not for iteration 1, end with no exception, each with the timers that it sets
    -- run off. The iterations are asked for and drawn once each, in order, and recorded; the run
    -- stops with the last one as `xMax` and only "back" lit. The last answer sets two timers, so that
    -- `iteration` ends two past it.
    pub answer_all_base-IsOver :
        (is_sensor : Bool) (os : List (BaseOutput F)) (o : BaseOutput F) (b : BasePage F)
        → IsWaiting b
        → All HasMore os
        → IsLast o
        → pos 1 <ℤ b.state.iteration +ℤ pos (length os)
        → pos 0 <ℤ b.state.iteration
        → (t : BasePage F) × (answer_all_base is_sensor (os ++ o ∷ []) b ≡ next t)
          × IsOver b.state.iteration (length os) b t
    unfolding answer_all_base
    answer_all_base-IsOver is_sensor [] o b w h l lt first = (
      ended is_sensor o l.gl b w l.whole,
      ap (λ f. f >>= λ t. next t) (answer_base-ended is_sensor o l.gl b w l.whole l.over),
      IsOver-ended l.gl b _ (
          ended-IsEnded is_sensor o l.gl b w l.whole
            (ground (arith, lt, +ℤ_parts b.state.iteration (pos 0)))),
    )
    answer_all_base-IsOver is_sensor (a ∷ os) o b w h l lt first =
        let k = h.0 in
        let u = stepped is_sensor a k.gl b w k.whole in
        let step : IsStep k.gl b u = stepped-IsStep is_sensor a k.gl b w k.whole in
        let (t, run, r) =
          answer_all_base-IsOver is_sensor os o u step.waiting h.1 l
            (rw step.moved (
              ground (
                arith,
                first,
                inc_parts b.state.iteration,
                +ℤ_parts (inc b.state.iteration) (pos (length os)),
              )))
            (rw step.moved (ground (arith, first, inc_parts b.state.iteration))) in
        (
          t,
          ap (λ f. f >>= answer_all_base is_sensor (os ++ o ∷ []))
                (answer_base-stepped is_sensor a k.gl b w k.whole k.goes_on)
              ∙ run,
          IsOver-step k.gl (length os) b u t step
              (subst (λ i. IsOver i (length os) u t) step.moved r),
        )
