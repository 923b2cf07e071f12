-- ===== src/Trend/Live/Answered.antt =====
-- One answer of the server to a page that waits for it.
use inc_visage.Common.{
  ℤ, ◌≡◌, ◌∙◌, Bool, false, some, List, [], ◌∷◌, arith, inc, ◌≤ℤ◌, ◌<ℤ◌, eqb_ℤ, subst, ap,
}
use inc_visage.Js.{Flow, next, ◌>>=◌}
use inc_visage.Refine.{Part, splice_parts}
use inc_visage.Trend.Segment.{Segment}
use inc_visage.Trend.State.{State}
use inc_visage.Trend.Play.{Margins, Output, YRange, set_range, first_range, gen_charts}
use inc_visage.Trend.Answer.{
  ranged, iteration-ranged, with_segments, after_split, gen_charts-split, finish-IsRecorded,
}
use inc_visage.Trend.Live.{
  IsLive, IsFinished, finish-IsLive, log-finish, iteration-finish, range-finish, finish-IsFinished,
  log-finish_last, requested, drawn,
}

module _ {F : Type 0} where
  -- A live page, at iteration `i` of a run from `lo` to `hi`.
  pub record IsAt (lo hi i : ℤ) (s : State F) : Type 0 where
    pub live : IsLive s
    pub low : s.x_min ≡ lo
    pub high : s.x_max ≡ hi
    pub at : s.iteration ≡ i

  -- An answer with parts, which agrees with the page on the range.
  pub record IsAnswer (lo hi : ℤ) (o : Output F) : Type 0 where
    pub first : Part (Segment F)
    pub rest : List (Part (Segment F))
    pub parts : o.sl ≡ first ∷ rest
    pub low : o.y.x_min ≡ lo
    pub high : o.y.x_max ≡ hi

module _ {F : Type 0} ⦃m : Margins F⦄ where
  -- The answers in the order of their requests; the page has one request open at a time.
  unfoldable pub answer_all : Bool → List (Output F) → State F → Flow (State F)
  answer_all b [] s = next s
  answer_all b (o ∷ os) s = gen_charts b o s >>= answer_all b os

  module _ (lo hi i : ℤ) (b : Bool) (y : YRange F) (s : State F) (h : IsAt lo hi i s)
      (p : y.x_min ≡ lo) (q : y.x_max ≡ hi) where
    ranged-IsLive : IsLive (ranged b y s)
    unfolding set_range first_range
    ranged-IsLive = ground (arith, h.live, h.low, h.high, h.at)

    ranged-range : ((ranged b y s).x_min ≡ lo) × ((ranged b y s).x_max ≡ hi)
    unfolding set_range first_range
    ranged-range = ground (arith, h.low, h.high)

    log-ranged : (ranged b y s).log ≡ s.log
    unfolding set_range first_range
    log-ranged = ground arith

  with_segments-IsLive :
      (arr row : List (Segment F)) (s : State F) → IsLive s → IsLive (with_segments arr row s)
  with_segments-IsLive arr row s l = ground arith

  -- One answer to a live page.
  module _ (lo hi i : ℤ) (b : Bool) (o : Output F) (s : State F) (h : IsAt lo hi i s)
      (a : IsAnswer lo hi o) where
    pub answered : State F
    answered = after_split b o (a.first ∷ a.rest) s

    waiting : State F
    waiting =
        let r = ranged b o.y s in
        let arr = splice_parts 0 (a.first ∷ a.rest) r.segment_arr in with_segments arr arr r

    waiting-IsLive : IsLive waiting
    unfolding waiting
    waiting-IsLive = with_segments-IsLive _ _ _ (ranged-IsLive lo hi i b o.y s h a.low a.high)

    waiting-range : (waiting.x_min ≡ lo) × (waiting.x_max ≡ hi) × (waiting.iteration ≡ i)
    unfolding waiting
    waiting-range =
        let (p, q) = ranged-range lo hi i b o.y s h a.low a.high in
        (p, q, iteration-ranged b o.y s ∙ h.at)

    log-waiting : waiting.log ≡ s.log
    unfolding waiting
    log-waiting = log-ranged lo hi i b o.y s h a.low a.high

    pub answered-IsAt : i <ℤ hi → IsAt lo hi (inc i) answered
    unfolding answered waiting
    answered-IsAt lt =
        let (p, q, r) = waiting-range in
        let (x, y) = range-finish waiting waiting-IsLive in
        record {
          live = finish-IsLive waiting waiting-IsLive (rw (q, r) lt);
          low = x ∙ p;
          high = y ∙ q;
          at = iteration-finish waiting waiting-IsLive ∙ ap inc r;
        }

    pub requested-answered : i <ℤ hi → requested answered.log ≡ inc i ∷ requested s.log
    unfolding answered waiting
    requested-answered lt =
        let (p, q, r) = waiting-range in
        ap requested (log-finish waiting waiting-IsLive (rw (q, r) lt)) ∙ rw (log-waiting, r)

    pub drawn-answered : i <ℤ hi → drawn answered.log ≡ i ∷ drawn s.log
    unfolding answered waiting
    drawn-answered lt =
        let (p, q, r) = waiting-range in
        ap drawn (log-finish waiting waiting-IsLive (rw (q, r) lt)) ∙ rw (log-waiting, r)

    pub last-IsFinished : hi ≤ℤ i → IsFinished answered × (answered.x_max ≡ hi)
    unfolding answered waiting
    last-IsFinished le =
        let (p, q, r) = waiting-range in
        let (x, y) = range-finish waiting waiting-IsLive in
        (finish-IsFinished waiting waiting-IsLive (rw (q, r) le), y ∙ q)

    pub log-last :
        hi ≤ℤ i
        → (requested answered.log ≡ requested s.log) × (drawn answered.log ≡ i ∷ drawn s.log)
    unfolding answered waiting
    log-last le =
        let (p, q, r) = waiting-range in
        let e = log-finish_last waiting waiting-IsLive (rw (q, r) le) in
        (ap requested e ∙ rw log-waiting, ap drawn e ∙ rw (log-waiting, r))

    pub gen_charts-answered : gen_charts b o s ≡ next answered
    unfolding answered
    gen_charts-answered = gen_charts-split b o a.first a.rest s h.live.no_reset a.parts

    pub chain-answered :
        ((arr : List (Segment F)) × (answered.segment_chain i ≡ some arr))
        × ((j : ℤ) → eqb_ℤ i j ≡ false → answered.segment_chain j ≡ s.segment_chain j)
    unfolding answered
    chain-answered =
        let arr = splice_parts 0 (a.first ∷ a.rest) (ranged b o.y s).segment_arr in
        let r = finish-IsRecorded b o.y s arr in
        (
          (arr, subst (λ k. answered.segment_chain k ≡ some arr) h.at r.kept),
          λ j n. r.others j (rw h.at n),
        )
