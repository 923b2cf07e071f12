-- ===== src/Server/Client.antt =====
-- The whole handler of app.js, and its answers as the trendline page reads them.
use Prim.Native.String.{String}
use inc_visage.Common.{
  if◌then◌else◌, ℤ, pos, eqb_ℤ, Bool, true, false, Option, none, some, List, [], ◌∷◌, if_of_true,
  if_of_false, ◌≡◌, ◌⊎◌, refl, ap, ◌∙◌, Bool-cases, inl, inr,
}
use inc_visage.Js.{next, thrown, ◌>>=◌, update}
use inc_visage.Refine.{Part, splice_parts, overwrite, shapes}
use inc_visage.Trend.Segment.{Segment}
use inc_visage.Trend.State.{State, reset}
use inc_visage.Trend.Play.{
  Margins, Output, gen_charts, take_segments, take_whole, set_range, first_range, play_on,
  show_segments,
}
use inc_visage.Server.{
  trend, heat, file, Server, Addon, Body, Request, Iterative, absent, empty_text, array, json,
  nothing, get_viz, set_viz, get_load_data, get_pred_data, get_axes_data, get_iterative_data_1,
  get_iterative_data_2, reset_data, store_response, other,
}
use inc_visage.Server.Viz.{handle_get_viz, handle_set_viz}
use inc_visage.Server.Charts.{result, handle_iterative_1}
use inc_visage.Server.Responses.{store}

-- `urlObj.pathname` of a request.
unfoldable pub path_of : {J : Type 0} → Request J → String
path_of (get_viz dataset) = "/getViz"
path_of (set_viz type) = "/setViz"
path_of (get_load_data q) = "/getloaddata"
path_of (get_pred_data q) = "/getpreddata"
path_of (get_axes_data q) = "/getaxesdata"
path_of (get_iterative_data_1 i) = "/getiterativedata1"
path_of (get_iterative_data_2 q) = "/getiterativedata2"
path_of reset_data = "/resetdata"
path_of (store_response trend minute a) = "/storeResponseTrend"
path_of (store_response heat minute a) = "/storeResponseHeat"
path_of (other path) = path

module _ {F J : Type 0} where
  -- The answer as `genCharts` of the trendline reads it: the empty text has no elements.
  unfoldable pub read_output : Iterative F J → Output F
  read_output r = record {
    sl = elim r.sl [ absent ↦ [] | empty_text ↦ [] | array ps ↦ ps ];
    gl = elim r.gl [ absent ↦ none | empty_text ↦ some [] | array ps ↦ some ps ];
    y = r.y;
  }

module _ {F : Type 0} ⦃m : Margins F⦄ where
  abbrev split_into : Part (Segment F) → List (Part (Segment F)) → State F → State F
  split_into p ps s =
      let arr = splice_parts 0 (p ∷ ps) s.segment_arr in
      record s { segment_arr = arr; segment_chain = update s.segment_chain s.iteration arr }

  take_segments-gl :
      (ps : List (Part (Segment F))) (o : Output F) (s : State F) (qs : List (Part (Segment F)))
      → o.sl ≡ ps
      → o.gl ≡ some qs
      → (t : State F) × (take_segments o s ≡ next t)
  unfolding take_segments take_whole
  take_segments-gl [] o s qs e h = (
    record s {
      segment_arr = overwrite qs s.segment_arr;
      segment_chain = update s.segment_chain s.iteration (shapes qs);
    },
    rw (e, h),
  )
  take_segments-gl (p ∷ ps) o s qs e h = (split_into p ps s, rw e)

  take_segments-sl :
      (p : Part (Segment F)) (ps : List (Part (Segment F))) (o : Output F) (s : State F)
      → o.sl ≡ p ∷ ps
      → (t : State F) × (take_segments o s ≡ next t)
  unfolding take_segments
  take_segments-sl p ps o s e = (split_into p ps s, rw e)

  gen_charts-takes :
      (b : Bool) (o : Output F) (s : State F)
      → ((u : State F) → (t : State F) × (take_segments o u ≡ next t))
      → (t : State F) × (gen_charts b o s ≡ next t)
  unfolding gen_charts
  gen_charts-takes b o s h = elim (Bool-cases s.reset_flag) [
    | inl e ↦ (reset s, if_of_true s.reset_flag _ _ e)
    | inr e ↦
        let (t, run) = h (first_range o.y (set_range b o.y s)) in
        (
          play_on (show_segments t),
          if_of_false s.reset_flag _ _ e
              ∙ ap (λ f. f >>= λ u. next (play_on (show_segments u))) run,
        )
  ]

module _ {F N J : Type 0} where
  -- The native module runs, and its answer is sent.
  unfoldable pub forward_json : N × J → Server N → Server N × Option (Body F J)
  forward_json (n, j) s = (record s { native = n }, some (json j))

  -- The function of app.js by the path.
  unfoldable pub dispatch : Addon F N J → Request J → Server N → Server N × Option (Body F J)
  dispatch addon (get_viz dataset) s = handle_get_viz dataset s
  dispatch addon (set_viz type) s = handle_set_viz addon type s
  dispatch addon (get_load_data q) s = forward_json (addon.load_dataset q s.native) s
  dispatch addon (get_pred_data q) s = forward_json (addon.load_predicate_data q s.native) s
  dispatch addon (get_axes_data q) s = forward_json (addon.load_axes_data q s.native) s
  dispatch addon (get_iterative_data_1 i) s = handle_iterative_1 addon i s
  dispatch addon (get_iterative_data_2 q) s = forward_json (addon.gen_chart_of q s.native) s
  dispatch addon reset_data s = (record s { native = addon.reset s.native }, some nothing)
  dispatch addon (store_response study minute a) s = store study minute a s
  dispatch addon (other path) s = (s, none)

  -- The whole server: `serveStatic` of the folder new-web-test comes first, and answers the paths for
  -- which it has a file; `has_file` says for which.
  unfoldable pub serve :
      (String → Bool) → Addon F N J → Request J → Server N → Server N × Option (Body F J)
  serve has_file addon req s =
      if has_file (path_of req) then (s, some (file (path_of req))) else dispatch addon req s

  module _ ⦃m : Margins F⦄ where
    -- `genCharts` of the trendline on the answer for an iteration.
    abbrev pub answer : Addon F N J → ℤ → ℤ → N → List (Part (Segment F)) → Output F
    answer addon v i n ps = read_output (result addon v i n ps)

    gl-answer :
        (addon : Addon F N J) (v i : ℤ) (n : N) (ps : List (Part (Segment F)))
        → eqb_ℤ v (pos 1) ≡ false
        → (qs : List (Part (Segment F))) × ((answer addon v i n ps).gl ≡ some qs)
    unfolding read_output result
    gl-answer addon v i n ps h = elim (Bool-cases (eqb_ℤ v (pos 2))) [
      | inl e ↦ ([], rw (h, e))
      | inr e ↦
          (ps, elim (Bool-cases (eqb_ℤ v (pos 3))) [ inl k ↦ rw (h, e, k) | inr k ↦ rw (h, e, k) ])
    ]

    sl-first :
        (addon : Addon F N J) (v i : ℤ) (n : N) (ps : List (Part (Segment F)))
        → eqb_ℤ v (pos 1) ≡ true
        → (answer addon v i n ps).sl ≡ ps
    unfolding read_output result
    sl-first addon v i n ps h = rw h

    -- The trendline page takes every answer of the server for an iteration without an exception,
    -- where the version is not the first or the native module has given at least one part.
    pub gen_charts-answer :
        (addon : Addon F N J) (b : Bool) (v i : ℤ) (n : N) (ps : List (Part (Segment F)))
        (s : State F)
        → (eqb_ℤ v (pos 1) ≡ false)
          ⊎ ((p : Part (Segment F)) × (qs : List (Part (Segment F))) × (ps ≡ p ∷ qs))
        → (t : State F) × (gen_charts b (read_output (result addon v i n ps)) s ≡ next t)
    gen_charts-answer addon b v i n ps s h = elim h [
      | inl e ↦
          let (qs, k) = gl-answer addon v i n ps e in
          gen_charts-takes b (answer addon v i n ps) s
            (λ u. take_segments-gl (answer addon v i n ps).sl (answer addon v i n ps) u qs refl k)
      | inr (p, qs, e) ↦ elim (Bool-cases (eqb_ℤ v (pos 1))) [
        | inl k ↦
            gen_charts-takes b (answer addon v i n ps) s
              (λ u. take_segments-sl p qs (answer addon v i n ps) u (sl-first addon v i n ps k ∙ e))
        | inr k ↦
            let (gs, l) = gl-answer addon v i n ps k in
            gen_charts-takes b (answer addon v i n ps) s
              (λ u. take_segments-gl (answer addon v i n ps).sl (answer addon v i n ps) u gs refl l)
      ]
    ]

    -- In the first version an answer with no parts makes a page that is not being reset throw.
    pub gen_charts-no_parts :
        (addon : Addon F N J) (b : Bool) (v i : ℤ) (n : N) (s : State F)
        → eqb_ℤ v (pos 1) ≡ true
        → s.reset_flag ≡ false
        → (t : State F) × (gen_charts b (read_output (result addon v i n [])) s ≡ thrown t)
    unfolding gen_charts take_segments take_whole read_output result
    gen_charts-no_parts addon b v i n s h r = (
      (let t = first_range (addon.get_axis_range i n) (set_range b (addon.get_axis_range i n) s) in
          record t { segment_chain = update t.segment_chain t.iteration [] }),
      rw (h, r),
    )
