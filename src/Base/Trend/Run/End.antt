-- ===== src/Base/Trend/Run/End.antt =====
-- Any number of answers of new-web-test/js/trendline/playerBase.js, and the one that is the last.
use inc_visage.Common.{
  pos, inc, eqb_ℤ, Bool, true, false, if_of_true, if_of_false, some, List, [], ◌∷◌, ◌≡◌, refl, ap,
  ◌∙◌, arith,
}
use inc_visage.Js.{next, ◌>>=◌, update}
use inc_visage.Refine.{Part, overwrite, shapes}
use inc_visage.Trend.Segment.{Segment, trend}
use inc_visage.Trend.State.{State, request, draw, graph, draw_segments, announce}
use inc_visage.Trend.Play.{Margins, stop}
use inc_visage.Base.Trend.{
  BasePage, BaseOutput, play_base, play_base_next, finish, take_continued, take_base,
  gen_charts_base, set_base_range, fire, call,
}
use inc_visage.Base.Trend.Run.{IsWaiting, answer_base, shown, take_base-shown}

module _ {F : Type 0} ⦃m : Margins F⦄ where
  -- What an answer that others follow does to a page that waits for it.
  pub record IsStep (gl : List (Part (Segment F))) (b t : BasePage F) : Type 0 where
    pub waiting : IsWaiting t
    pub moved : t.state.iteration ≡ inc b.state.iteration
    pub log :
        t.state.log
        ≡ request (inc b.state.iteration)
          ∷ draw graph b.state.iteration (trend (overwrite gl b.state.segment_arr))
          ∷ b.state.log
    pub chain : t.state.segment_chain ≡ update b.state.segment_chain b.state.iteration (shapes gl)

  -- What the last answer and the timers leave.
  pub record IsEnded (gl : List (Part (Segment F))) (b t : BasePage F) : Type 0 where
    pub stopped : t.state.play_flag ≡ false
    pub twice : t.state.iteration ≡ inc (inc b.state.iteration)
    pub bounded : t.state.x_max ≡ b.state.iteration
    pub can_go_back : (t.state.back_flag ≡ true) × (t.state.back_lit ≡ true)
    pub no_play : (t.state.play_lit ≡ false) × (t.state.forward_lit ≡ false)
    pub no_timer : t.timers ≡ []
    pub log :
        t.state.log
        ≡ draw graph b.state.iteration (trend (overwrite gl b.state.segment_arr)) ∷ b.state.log
    pub chain : t.state.segment_chain ≡ update b.state.segment_chain b.state.iteration (shapes gl)

  module _ (is_sensor : Bool) (o : BaseOutput F) (gl : List (Part (Segment F))) (b : BasePage F)
      (w : IsWaiting b) (g : o.gl ≡ some gl) where
    abbrev pub stepped : BasePage F
    stepped =
        let u = shown is_sensor o gl b.state in
        record {
          state = record u { iteration = inc u.iteration; log = request (inc u.iteration) ∷ u.log };
          timers = [];
        }

    take_continued-more : eqb_ℤ o.continued (pos 0) ≡ false → take_continued o.continued b ≡ b
    unfolding take_continued
    take_continued-more h = rw h refl

    play_base_next-shown : play_base_next (shown is_sensor o gl b.state) ≡ stepped.state
    unfolding play_base_next draw_segments announce set_base_range
    play_base_next-shown =
        if_of_false b.state.reset_flag _ _ w.no_reset ∙ if_of_true b.state.play_flag _ _ w.playing

    pub answer_base-stepped :
        eqb_ℤ o.continued (pos 0) ≡ false → answer_base is_sensor o b ≡ next stepped
    unfolding answer_base gen_charts_base fire call
    answer_base-stepped h =
        ap (λ a. take_base is_sensor o a >>= fire) (take_continued-more h)
        ∙ ap (λ f. f >>= fire)
            (take_base-shown is_sensor o gl b g w.no_reset
              (ground (arith, w.draws, w.no_replay, w.no_reset)) w.no_forward)
        ∙ ap (λ ts. fire (record { state = shown is_sensor o gl b.state; timers = play_base ∷ ts }))
            w.no_timer
        ∙ ap (λ u. next (record { state = u; timers = [] })) play_base_next-shown

    pub stepped-IsStep : IsStep gl b stepped
    unfolding draw_segments announce set_base_range
    stepped-IsStep = record {
      waiting = record {
        no_reset = w.no_reset;
        playing = w.playing;
        no_pause = w.no_pause;
        no_replay = w.no_replay;
        no_forward = w.no_forward;
        draws = w.draws;
        no_timer = refl;
      };
      moved = refl;
      log = refl;
      chain = refl;
    }

    -- The state that the two timers of the last answer find.
    abbrev last_shown : State F
    last_shown = shown is_sensor o gl (finish b.state)

    abbrev late : State F → State F
    late s = stop (record s { iteration = inc s.iteration })

    abbrev pub ended : BasePage F
    ended = record { state = late (late last_shown); timers = [] }

    take_continued-last :
        eqb_ℤ o.continued (pos 0) ≡ true
        → take_continued o.continued b
          ≡ record { state = finish b.state; timers = play_base ∷ b.timers }
    unfolding take_continued
    take_continued-last h = rw (h, w.no_replay) refl

    play_base_next-late :
        (s : State F) → s.reset_flag ≡ false → s.play_flag ≡ false → play_base_next s ≡ late s
    unfolding play_base_next
    play_base_next-late s r p = if_of_false s.reset_flag _ _ r ∙ if_of_false s.play_flag _ _ p

    pub answer_base-ended :
        eqb_ℤ o.continued (pos 0) ≡ true → answer_base is_sensor o b ≡ next ended
    unfolding answer_base gen_charts_base fire call finish draw_segments announce set_base_range
        stop
    answer_base-ended h =
        ap (λ a. take_base is_sensor o a >>= fire) (take_continued-last h)
        ∙ ap (λ f. f >>= fire)
            (take_base-shown is_sensor o gl
              (record { state = finish b.state; timers = play_base ∷ b.timers }) g w.no_reset
              (ground (arith, w.draws, w.no_replay, w.no_reset)) w.no_forward)
        ∙ ap (λ ts. fire (record { state = last_shown; timers = play_base ∷ play_base ∷ ts }))
            w.no_timer
        ∙ ap (λ u. next (record { state = play_base_next u; timers = [] }))
            (play_base_next-late last_shown w.no_reset refl)
        ∙ ap (λ u. next (record { state = u; timers = [] }))
            (play_base_next-late (late last_shown) (ground (arith, w.no_reset)) (ground arith))

    pub ended-IsEnded : eqb_ℤ b.state.iteration (pos 1) ≡ false → IsEnded gl b ended
    unfolding finish draw_segments announce set_base_range stop
    ended-IsEnded h = record {
      stopped = ground (arith, w.no_replay);
      twice = ground (arith, w.no_replay);
      bounded = ground (arith, w.no_replay, h);
      can_go_back = ground (arith, w.no_replay, w.playing);
      no_play = ground (arith, w.no_replay, w.playing);
      no_timer = refl;
      log = ground (arith, w.no_replay);
      chain = ground (arith, w.no_replay);
    }
