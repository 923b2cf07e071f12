-- ===== src/Trend/Pause.antt =====
-- A click on "pause" while the page waits for an answer, and that answer.
use inc_visage.Common.{
  pos, inc, dec, inc-dec, inc_parts, dec_parts, ◌<ℤ◌, ltb_ℤ, leb_ℤ, eqb_ℤ, eqb_ℤ_refl, ◌≡◌, refl,
  sym, ◌∙◌, ap, subst, inl, inr, Bool, true, false, not, ◌&&◌, Bool-cases, if◌then◌else◌,
  if_of_true, if_of_false, some, List, ◌∷◌, arith,
}
use inc_visage.Js.{next, ◌>>=◌, update_at, update_other}
use inc_visage.Refine.{splice_parts}
use inc_visage.Trend.Segment.{Segment, trend}
use inc_visage.Trend.State.{State, Icon, draw, graph, draw_segments, announce}
use inc_visage.Trend.Play.{
  Margins, Output, YRange, set_range, first_range, show_segments, play_on, play_next, stop,
  gen_charts,
}
use inc_visage.Trend.Toggle.{click_play, click_icon, pause_run, freeze, settle}
use inc_visage.Trend.Answer.{ranged, with_segments, gen_charts-split}
use inc_visage.Trend.Live.{IsLive}
use inc_visage.Trend.Live.Answered.{IsAnswer}
use inc_visage.Trend.Rest.{IsRest, IsRecordedFrom}

module _ {F : Type 0} where
  -- The button of a page that plays.
  abbrev pub ShowsPause : State F → Type 0
  ShowsPause s = (s.play_lit ≡ true) × (s.icon ≡ Icon.pause)

  module _ (s : State F) (l : IsLive s) (p : ShowsPause s) where
    abbrev frozen : State F
    frozen = record (draw_segments graph (dec s.iteration) s.segment_arr s) {
      pause_iter = dec s.iteration;
      seekbar_value = dec s.iteration;
      simplay_flag = true;
    }

    -- The page after the click.
    abbrev pub paused : State F
    paused = settle frozen

    pub click_play-paused : click_play s ≡ next paused
    unfolding click_play click_icon pause_run freeze
    click_play-paused =
        if_of_true s.play_lit (click_icon s.icon s) (next s) p.0
        ∙ (ap (λ i. click_icon i s) p.1
            ∙ ap (λ t. next (settle t)) (if_of_false s.simplay_flag _ _ l.no_replay))

module _ {F : Type 0} ⦃m : Margins F⦄ where
  -- An answer that agrees with the page on the range does not move it.
  first_range-same :
      (y : YRange F) (s : State F) → y.x_min ≡ s.x_min → y.x_max ≡ s.x_max → first_range y s ≡ s
  unfolding first_range
  first_range-same y s p q = elim (Bool-cases (eqb_ℤ s.iteration (pos 1))) [
    | inl e ↦
        if_of_true (eqb_ℤ s.iteration (pos 1)) _ _ e ∙ (λ i. record s { x_min = p i; x_max = q i })
    | inr e ↦ if_of_false (eqb_ℤ s.iteration (pos 1)) _ _ e
  ]

  -- The answer that was under way when the page was paused.
  module _ (b : Bool) (o : Output F) (s : State F) (l : IsLive s) (p : ShowsPause s)
      (a : IsAnswer s.x_min s.x_max o) where
    abbrev late_arr : List (Segment F)
    late_arr = splice_parts 0 (a.first ∷ a.rest) s.segment_arr

    abbrev recorded_late : State F
    recorded_late = with_segments late_arr late_arr (set_range b o.y (paused s l p))

    abbrev late : State F
    late = record recorded_late { play_noviz = true; iteration = inc s.iteration }

    ranged-paused : ranged b o.y (paused s l p) ≡ set_range b o.y (paused s l p)
    unfolding set_range settle draw_segments announce
    ranged-paused = first_range-same o.y (set_range b o.y (paused s l p)) a.low a.high

    play_on-late : play_on (show_segments recorded_late) ≡ late
    unfolding play_on show_segments settle set_range draw_segments announce play_next stop
    play_on-late =
        if_of_true (leb_ℤ s.iteration s.x_max && not s.reset_flag) _ _
          (ground (arith, l.within, l.no_reset))
        ∙ (if_of_false s.reset_flag _ _ l.no_reset
            ∙ if_of_false (leb_ℤ (inc s.iteration) s.x_max && false) _ _ (ground arith))

    gen_charts-late : gen_charts b o (paused s l p) ≡ next late
    unfolding settle draw_segments announce set_range
    gen_charts-late =
        gen_charts-split b o a.first a.rest (paused s l p) l.no_reset a.parts
        ∙ ap next (
            ap
              (λ u.
                let arr = splice_parts 0 (a.first ∷ a.rest) u.segment_arr in
                play_on (show_segments (with_segments arr arr u)))
              ranged-paused
            ∙ play_on-late)

    -- The cursor stays where the page was paused.
    last_drawn :
        (if ltb_ℤ s.x_max (dec s.iteration) then s.x_max else dec s.iteration) ≡ dec s.iteration
    last_drawn =
        if_of_false (ltb_ℤ s.x_max (dec s.iteration)) _ _
          (ground (arith, l.within, dec_parts s.iteration))

    pub late-IsRest :
        s.x_min <ℤ s.iteration
        → s.seekbar_max <ℤ s.iteration
        → IsRecordedFrom s.x_min s.iteration s.segment_chain
        → IsRest late
    unfolding settle draw_segments announce set_range
    late-IsRest lo bar chain = record {
      paused = refl;
      stopped = refl;
      can_step = refl;
      can_return = refl;
      two_recorded = ground (arith, inc_parts s.x_min, inc_parts s.iteration);
      in_range = ground (arith, l.within, inc_parts s.iteration, inc_parts s.x_max);
      from_first = ground (arith, l.within, dec_parts s.iteration);
      before_run = ground (arith, l.within, dec_parts s.iteration, inc_parts s.iteration);
      behind = ground arith;
      seek_first = ground (arith, dec_parts s.iteration);
      seek_before_run = λ _. ground (arith, dec_parts s.iteration, inc_parts s.iteration);
      recorded = λ j le lt. elim (Bool-cases (eqb_ℤ s.iteration j)) [
        | inl e ↦ (late_arr, update_at s.segment_chain s.iteration j late_arr e)
        | inr e ↦
            let (arr, h) = chain j le (ground (arith, inc_parts s.iteration)) in
            (arr, update_other s.segment_chain s.iteration j late_arr e ∙ h)
      ];
      lit_forward = λ _ _.
          subst (λ c. inc c <ℤ inc s.iteration) (sym last_drawn)
            (rw (inc-dec s.iteration) (ground (arith, inc_parts s.iteration)));
    }

    -- A page that is paused between two answers, where at least one iteration is recorded and the
    -- seek bar has come no further: the answer to the open request, if it has parts and agrees on
    -- the range, comes to rest without being drawn and without a new request. It is recorded, the
    -- cursor stays at the iteration before it, and "forward" and "back" can move it.
    pub pause_then_answer :
        s.x_min <ℤ s.iteration
        → s.seekbar_max <ℤ s.iteration
        → IsRecordedFrom s.x_min s.iteration s.segment_chain
        → (t : State F) × ((click_play s >>= gen_charts b o) ≡ next t)
          × IsRest t
          × (t.iteration ≡ inc s.iteration)
          × (t.forward_iter ≡ dec s.iteration)
          × (t.segment_chain s.iteration ≡ some t.segment_arr)
          × (t.log ≡ draw graph (dec s.iteration) (trend s.segment_arr) ∷ s.log)
    unfolding settle draw_segments announce set_range
    pause_then_answer lo bar chain = (
      late,
      ap (λ f. f >>= gen_charts b o) (click_play-paused s l p) ∙ gen_charts-late,
      late-IsRest lo bar chain,
      refl,
      last_drawn,
      update_at s.segment_chain s.iteration s.iteration late_arr (eqb_ℤ_refl s.iteration),
      refl,
    )
