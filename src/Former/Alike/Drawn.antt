-- ===== src/Former/Alike/Drawn.antt =====
-- What the handlers of the former heatmap draw (new-web-test/js/old_/heatmap/player.js), beside the
-- present one (new-web-test/js/heatmap/player.js).
use inc_visage.Common.{
  ℤ, pos, inc, dec, inc_parts, eqb_ℤ, ◌-ℤ◌, -ℤ_parts, eq_of_parts, ◌≤ℤ◌, ◌<ℤ◌, leb_ℤ, ltb_ℤ,
  Bool-cases, inl, inr, true, some, List, [], ◌∷◌, ◌++◌, not, ◌&&◌, if◌then◌else◌, length, ◌≡◌,
  refl, ap, ◌∙◌, sym, subst, if_of_true, if_of_false, arith,
}
use inc_visage.Js.{next, ◌>>=◌}
use inc_visage.Refine.{Part}
use inc_visage.Refine.Laws.{IsNumbered}
use inc_visage.Heat.{Page, Quad, Cell}
use inc_visage.Refine.Lift.{shapes_of}
use inc_visage.Former.{FormerPage, Shape, all_defined, current_iter_of, rebuild}
use inc_visage.Former.Chains.{undo}
use inc_visage.Former.Chains.Undo.{undo_back_to}
use inc_visage.Former.Alike.{IsAlike, history, all_defined-shapes}
use inc_visage.Trend.State.{graph}
use inc_visage.Former.{show, render, legend, defined, draw_shapes}
use inc_visage.Former.Replay.{put_again}
use inc_visage.Former.Seek.{seek, seek_paused, seek_stopped, move_to, paused_buttons, end_buttons}
use inc_visage.Heat.{draw}
use inc_visage.Heat.Rest.{IsRest}
use inc_visage.Heat.Rest.Seek.{IsTarget, target, seek-draws}
use inc_visage.Heat.Seek.{seek as present_seek}
use inc_visage.Refine.{shapes}
use inc_visage.Refine.Laws.{splice_parts-append}

module _ {F : Type 0} where
  -- While the answer to the request for the iteration after `cur` is under way, or where `cur` is
  -- the last iteration, the former page rebuilds for each iteration exactly the array that the
  -- present page has recorded for it.
  pub rebuild-IsAlike :
      (lo cur : ℤ) (s : FormerPage F) (t : Page F)
      → IsAlike lo cur s t
      → current_iter_of s ≡ cur
      → (i : ℤ) (arr : List (Quad F)) → lo ≤ℤ i
      → i ≤ℤ cur
      → t.segment_chain i ≡ some arr
      → rebuild (current_iter_of s) i s ≡ some (shapes_of arr)
  unfolding rebuild
  rebuild-IsAlike lo cur s t k c i arr le top h =
      rw (c, k.arr ∙ sym (ap history k.last))
        (undo_back_to s.segment_backward_chain s.segment_forward_chain
            (λ i. history (t.segment_chain i)) lo cur k.undoable i le top
          ∙ ap (λ o. some (history o)) h)

  -- Where the answer for `cur` has come and the timer for the next request has not run off, the
  -- former page takes the iteration before `cur` for the one it shows: put to that iteration, it
  -- draws the array of `cur` instead.
  rebuild-before_timer :
      (lo cur : ℤ) (s : FormerPage F) (t : Page F)
      → IsAlike lo cur s t
      → s.iteration ≡ cur
      → cur <ℤ s.max_iteration
      → rebuild (current_iter_of s) (dec cur) s ≡ some (shapes_of t.segment_arr)
  unfolding rebuild current_iter_of undo
  rebuild-before_timer lo cur s t k e lt =
      let current : current_iter_of s ≡ dec cur =
        if_of_false (eqb_ℤ s.iteration s.max_iteration) _ _ (ground (arith, e, lt))
        ∙ if_of_true (ltb_ℤ s.iteration s.max_iteration) _ _ (ground (arith, e, lt))
        ∙ ap dec e in
      let none_left : dec cur -ℤ dec cur ≡ pos 0 =
        eq_of_parts (dec cur -ℤ dec cur) (pos 0) (omega (arith, -ℤ_parts (dec cur) (dec cur))) in
      rw (current, none_left) (ap some k.arr)

  -- A replay puts the parts of an iteration once more into the array that was rebuilt for it: all
  -- parts but the first are drawn twice.
  pub put_again-twice :
      (s : FormerPage F) (i : ℤ) (p : Part (Shape F)) (ps : List (Part (Shape F)))
      (xs ys : List (Shape F))
      → s.segment_forward_chain i ≡ some (p ∷ ps)
      → IsNumbered (length xs) (p ∷ ps)
      → rebuild (current_iter_of s) i s ≡ some (xs ++ (shapes (p ∷ ps) ++ ys))
      → put_again (rebuild (current_iter_of s) i s) (s.segment_forward_chain i)
        ≡ some (xs ++ (shapes (p ∷ ps) ++ (shapes ps ++ ys)))
  unfolding put_again
  put_again-twice s i p ps xs ys f numbered e =
      rw (f, e) (ap some (splice_parts-append p ps xs (shapes ps ++ ys) p.shape numbered))

  defined-shapes : (arr : List (Quad F)) → defined (shapes_of arr) ≡ arr
  unfolding defined
  defined-shapes [] = refl
  defined-shapes (q ∷ arr) = ap (q ∷◌) (defined-shapes arr)

  -- What the legend writes for an iteration is known.
  pub record HasLegend (s : FormerPage F) (i : ℤ) : Type 0 where
    pub lo : F
    pub hi : F
    pub cells : List Cell
    pub has_lo : s.avg_min i ≡ some lo
    pub has_hi : s.avg_max i ≡ some hi
    pub has_cells : s.valid_cells ≡ some cells

  show-shapes :
      (s : FormerPage F) (i : ℤ) (arr : List (Quad F))
      → HasLegend s i
      → show i (some (shapes_of arr)) s
        ≡ next (draw_shapes graph i (shapes_of arr) (record s { seekbar_value = i }))
  unfolding show render legend
  show-shapes s i arr l =
      if_of_true (all_defined (shapes_of arr)) _ _ (all_defined-shapes arr)
      ∙ elim (Bool-cases (leb_ℤ s.iteration_low i)) [
        | inl e ↦ if_of_true (leb_ℤ s.iteration_low i) _ _ e ∙ rw (l.has_lo, l.has_hi, l.has_cells)
        | inr e ↦ if_of_false (leb_ℤ s.iteration_low i) _ _ e
      ]

  -- Where the bar leads on a paused page.
  abbrev former_target : FormerPage F → ℤ → ℤ
  former_target s v = if ltb_ℤ s.seekbar_max v then s.seekbar_max else v

  module _ (s : FormerPage F) (v : ℤ) (arr : List (Quad F)) where
    abbrev moved : FormerPage F
    moved = record s { seekbar_iter = v; seekbar_value = v }

    abbrev shown : FormerPage F
    shown =
        let i = former_target s v in
        draw_shapes graph i (shapes_of arr)
          (record (move_to s.pause_iter i moved) { seekbar_value = i })

    seek_paused-rebuilt :
        s.pause_flag ≡ true
        → rebuild (current_iter_of s) (former_target s v) s ≡ some (shapes_of arr)
        → HasLegend s (former_target s v)
        → seek_paused moved ≡ next (paused_buttons shown)
    unfolding seek_paused move_to rebuild current_iter_of
    seek_paused-rebuilt p e l =
        let i = former_target s v in
        let sought = move_to s.pause_iter i moved in
        if_of_true s.pause_flag _ _ p
        ∙ ap (λ o. show i o sought >>= λ t. next (paused_buttons t)) e
        ∙ ap (λ f. f >>= λ t. next (paused_buttons t))
            (show-shapes sought i arr (record {
              lo = l.lo;
              hi = l.hi;
              cells = l.cells;
              has_lo = l.has_lo;
              has_hi = l.has_hi;
              has_cells = l.has_cells;
            }))

    seek_stopped-paused : (u : FormerPage F) → u.pause_flag ≡ true → seek_stopped u ≡ next u
    unfolding seek_stopped
    seek_stopped-paused u p =
        if_of_false (not u.play_flag && not u.pause_flag) _ _ (ground (arith, p))

    pub seek-rebuilt :
        s.pause_flag ≡ true
        → rebuild (current_iter_of s) (former_target s v) s ≡ some (shapes_of arr)
        → HasLegend s (former_target s v)
        → (t : FormerPage F) × (seek v s ≡ next t)
          × (t.log ≡ draw graph (former_target s v) arr ∷ s.log)
          × (t.forward_iter ≡ former_target s v)
    unfolding seek move_to paused_buttons end_buttons draw_shapes
    seek-rebuilt p e l = (
      end_buttons (paused_buttons shown),
      ap (λ f. f >>= λ t. seek_stopped t >>= λ u. next (end_buttons u)) (seek_paused-rebuilt p e l)
          ∙ ap (λ f. f >>= λ u. next (end_buttons u))
              (seek_stopped-paused (paused_buttons shown) p),
      ap (λ a. draw graph (former_target s v) a ∷ s.log) (defined-shapes arr),
      refl,
    )

  -- On a former page that is paused and a present page at rest, which are alike for the iteration
  -- that both take for the last one, have seen as far and know the legend, the seek bar draws the
  -- same array under the same number and puts the cursor to it on both, wherever it is put in the
  -- range and, while iterations are still to come, short of the last one.
  pub seek-IsAlike :
      (lo cur v : ℤ) (s : FormerPage F) (t : Page F)
      → IsAlike lo cur s t
      → IsRest t
      → IsTarget t v
      → (s.pause_flag ≡ true) × (current_iter_of s ≡ cur) × (s.seekbar_max ≡ t.seekbar_max)
      → (t.iteration_low ≡ lo) × (inc cur ≡ t.iteration)
      → HasLegend s (former_target s v)
      → (i : ℤ) × (arr : List (Quad F)) × (s' : FormerPage F) × (t' : Page F) × (seek v s ≡ next s')
        × (present_seek v t ≡ next t')
        × (s'.log ≡ draw graph i arr ∷ s.log)
        × (t'.log ≡ draw graph i arr ∷ t.log)
        × (s'.forward_iter ≡ i)
        × (t'.forward_iter ≡ i)
  seek-IsAlike lo cur v s t k r h (p, c, m) (low, after) l =
      let (arr, t', run', kept, log', cursor', first, before) = seek-draws t v r h in
      let same : former_target s v ≡ target t v = ap (λ n. if ltb_ℤ n v then n else v) m in
      let built : rebuild (current_iter_of s) (former_target s v) s ≡ some (shapes_of arr) =
        rw same (
          rebuild-IsAlike lo cur s t k c (target t v) arr (subst (λ n. n ≤ℤ target t v) low first)
            (omega (arith, subst (λ n. target t v <ℤ n) (sym after) before, inc_parts cur)) kept) in
      let (s', run, log, cursor) = seek-rebuilt s v arr p built l in
      (
        target t v,
        arr,
        s',
        t',
        run,
        run',
        log ∙ ap (λ i. draw graph i arr ∷ s.log) same,
        log',
        cursor ∙ same,
        cursor',
      )

  -- On a paused former page where the answer for `cur` has come but not the timer that would count
  -- on to the next iteration, the seek bar put to the iteration before `cur` draws, under the number
  -- of that iteration, the array that the present page has recorded for `cur`.
  pub seek-before_timer :
      (lo cur v : ℤ) (s : FormerPage F) (t : Page F)
      → IsAlike lo cur s t
      → (s.iteration ≡ cur) × (cur <ℤ s.max_iteration) × (s.pause_flag ≡ true)
      → (former_target s v ≡ dec cur) × (lo ≤ℤ dec cur)
      → HasLegend s (former_target s v)
      → (arr : List (Quad F)) × (s' : FormerPage F) × (t.segment_chain cur ≡ some arr)
        × (seek v s ≡ next s')
        × (s'.log ≡ draw graph (dec cur) arr ∷ s.log)
        × (s'.forward_iter ≡ dec cur)
  seek-before_timer lo cur v s t k (e, lt, p) (at, le) l =
      let built : rebuild (current_iter_of s) (former_target s v) s
          ≡ some (shapes_of t.segment_arr) =
        ap (λ i. rebuild (current_iter_of s) i s) at ∙ rebuild-before_timer lo cur s t k e lt in
      let (s', run, log, cursor) = seek-rebuilt s v t.segment_arr p built l in
      (
        t.segment_arr,
        s',
        k.last,
        run,
        log ∙ ap (λ i. draw graph i t.segment_arr ∷ s.log) at,
        cursor ∙ at,
      )
