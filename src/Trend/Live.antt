-- ===== src/Trend/Live.antt =====
-- The page while it runs against the server, and how `genCharts` ends on it.
pub mod Answered
pub mod Run
pub mod Start
use inc_visage.Common.{
  ℕ, zero, suc, ℤ, pos, pos_part, neg_part, ◌+ℤ◌, +ℤ_parts, ◌≡◌, refl, ◌∙◌, ◌≢◌, Bool, true, false,
  not, ◌&&◌, ◌||◌, Option, none, some, List, [], ◌∷◌, ◌++◌, arith, leb_ℤ, ltb_ℤ, inc, dec,
  inc_parts, dec_parts, int_laws, ◌≤ℤ◌, ◌<ℤ◌, All, length, if◌then◌else◌, if_of_true, eqb_ℤ,
  eqb_ℤ_of_lt, if_of_false, subst, sym, ap, ◌+◌,
}
use inc_visage.Js.{Flow, next, ◌>>=◌}
use inc_visage.Refine.{Part, splice_parts}
use inc_visage.Trend.Segment.{Segment, trend}
use inc_visage.Trend.State.{
  State, Icon, Effect, draw, request, reset_data, Viz, graph, draw_segments, announce,
}
use inc_visage.Trend.Play.{
  Margins, Output, YRange, set_range, first_range, show_segments, play_on, play_next, stop,
  gen_charts,
}
use inc_visage.Trend.Answer.{
  ranged, iteration-ranged, with_segments, after_split, gen_charts-split, IsRecorded,
  finish-IsRecorded,
}

module _ {F : Type 0} where
  -- The page waits for the answer for `iteration`, which it has asked for.
  pub record IsLive (s : State F) : Type 0 where
    pub no_reset : s.reset_flag ≡ false
    pub playing : s.play_flag ≡ true
    pub no_pause : s.pause_flag ≡ false
    pub no_replay : s.simplay_flag ≡ false
    pub no_forward : s.forward_flag ≡ false
    pub no_back : s.back_flag ≡ false
    pub shown : s.play_noviz ≡ false
    pub within : s.iteration ≤ℤ s.x_max

  -- The page after the last answer: nothing plays, and the way back is open.
  pub record IsFinished (s : State F) : Type 0 where
    pub stopped : s.play_flag ≡ false
    pub past : s.iteration ≡ inc s.x_max
    pub can_go_back : (s.back_flag ≡ true) × (s.back_lit ≡ true) × (s.backward_iter ≡ s.x_max)
    pub no_play : (s.play_lit ≡ false) × (s.forward_lit ≡ false)

  -- The last part of `genCharts` in a live state: draw, and play on.
  abbrev drawn_at : State F → State F
  drawn_at u = record (draw_segments graph u.iteration u.segment_arr u) {
    seekbar_value = u.iteration;
  }

  module _ (u : State F) (l : IsLive u) where
    show_segments-live : show_segments u ≡ drawn_at u
    unfolding show_segments draw_segments
    show_segments-live =
        if_of_false (u.play_noviz || (u.simplay_flag || u.reset_flag)) u (drawn_at u) (ground arith)

    play_on-live : play_on (drawn_at u) ≡ play_next (drawn_at u)
    unfolding play_on draw_segments
    play_on-live =
        if_of_true (leb_ℤ u.iteration u.x_max && not u.reset_flag) _ _ (ground arith)
        ∙ ap play_next (if_of_false u.forward_flag _ _ l.no_forward)

    finish-live : play_on (show_segments u) ≡ play_next (drawn_at u)
    finish-live = ap play_on show_segments-live ∙ play_on-live

    pub finish-IsLive : u.iteration <ℤ u.x_max → IsLive (play_on (show_segments u))
    unfolding draw_segments announce play_next
    finish-IsLive h = rw finish-live (ground (arith, inc_parts u.iteration))

    pub log-finish :
        u.iteration <ℤ u.x_max
        → (play_on (show_segments u)).log
          ≡ request (inc u.iteration) ∷ draw graph u.iteration (trend u.segment_arr) ∷ u.log
    unfolding draw_segments announce play_next
    log-finish h = rw finish-live (ground (arith, inc_parts u.iteration))

    pub iteration-finish : (play_on (show_segments u)).iteration ≡ inc u.iteration
    unfolding draw_segments announce play_next stop
    iteration-finish = rw finish-live (ground (arith, inc_parts u.iteration))

    pub range-finish :
        ((play_on (show_segments u)).x_min ≡ u.x_min)
        × ((play_on (show_segments u)).x_max ≡ u.x_max)
    unfolding draw_segments announce play_next stop
    range-finish = rw finish-live (ground (arith, inc_parts u.iteration))

    stopped : State F
    stopped = record (drawn_at u) { iteration = inc u.iteration }

    finish-stop : u.x_max ≤ℤ u.iteration → play_on (show_segments u) ≡ stop stopped
    unfolding draw_segments play_next stopped
    finish-stop h =
        finish-live
        ∙ (if_of_false u.reset_flag _ _ l.no_reset
            ∙ if_of_false (leb_ℤ (inc u.iteration) u.x_max && u.play_flag) _ _
                (ground (arith, inc_parts u.iteration)))

    pub finish-IsFinished : u.x_max ≤ℤ u.iteration → IsFinished (play_on (show_segments u))
    unfolding draw_segments announce stop stopped
    finish-IsFinished h = rw (finish-stop h) (ground (arith, inc_parts u.iteration))

    pub log-finish_last :
        u.x_max ≤ℤ u.iteration
        → (play_on (show_segments u)).log ≡ draw graph u.iteration (trend u.segment_arr) ∷ u.log
    unfolding draw_segments announce stop stopped
    log-finish_last h = rw (finish-stop h) (ground (arith, inc_parts u.iteration))

  -- The iterations that were asked for, and those that were drawn, the last one first.
  abbrev pub requested : List (Effect F) → List ℤ
  requested [] = []
  requested (request i ∷ es) = i ∷ requested es
  requested (draw v i ps ∷ es) = requested es
  requested (reset_data ∷ es) = requested es

  abbrev pub drawn : List (Effect F) → List ℤ
  drawn [] = []
  drawn (request i ∷ es) = drawn es
  drawn (draw v i ps ∷ es) = i ∷ drawn es
  drawn (reset_data ∷ es) = drawn es

-- `n` iterations from `i` on, the last one first.
abbrev pub history : ℤ → ℕ → List ℤ
history i zero = []
history i (suc n) = history (inc i) n ++ i ∷ []
