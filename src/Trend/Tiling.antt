-- ===== src/Trend/Tiling.antt =====
-- Arrays of segments that cover a range without gap or overlap, and what a split does to them.
use inc_visage.Common.{
  ℤ, inc, inc_parts, ◌≤ℤ◌, ◌<ℤ◌, leb_ℤ, ◌≡◌, refl, sym, subst, inl, inr, Bool, true, false, ◌&&◌,
  Bool-cases, Option, none, some, List, [], ◌∷◌, ◌++◌, arith, get_elem?, if◌then◌else◌,
}
use inc_visage.Refine.{Part, splice_parts, shapes}
use inc_visage.Refine.Laws.{IsNumbered, splice_parts-append, split_at}
use inc_visage.Trend.Segment.{Segment, value_at}

abbrev or_else : {A : Type 0} → Option A → Option A → Option A
or_else none o = o
or_else (some a) _ = some a

module _ {F : Type 0} where
  -- The segments cover the integers from `lo` to `hi`, in order, each of them once.
  abbrev pub Tiles : ℤ → ℤ → List (Segment F) → Type 0
  Tiles lo hi [] = lo ≡ inc hi
  Tiles lo hi (s ∷ ss) = (s.b ≡ lo) × (s.b ≤ℤ s.e) × Tiles (inc s.e) hi ss

  Tiles-replace :
      (lo hi : ℤ) (xs ys zs : List (Segment F)) (s : Segment F)
      → Tiles lo hi (xs ++ s ∷ ys)
      → Tiles s.b s.e zs
      → Tiles lo hi (xs ++ (zs ++ ys))
  Tiles-replace lo hi (x ∷ xs) ys zs s h k = (h.0, h.1, Tiles-replace (inc x.e) hi xs ys zs s h.2 k)
  Tiles-replace lo hi [] ys zs s h k = go lo zs (subst (λ i. Tiles i s.e zs) h.0 k)
    where
      go : (i : ℤ) (zs : List (Segment F)) → Tiles i s.e zs → Tiles i hi (zs ++ ys)
      go i [] e = subst (λ j. Tiles j hi ys) (sym e) h.2
      go i (z ∷ zs) e = (e.0, e.1, go (inc z.e) zs e.2)

  -- A segment of the array starts at `lo` or later, and is not empty.
  Tiles-start :
      (lo hi : ℤ) (xs ys : List (Segment F)) (s : Segment F)
      → Tiles lo hi (xs ++ s ∷ ys)
      → (lo ≤ℤ s.b) × (s.b ≤ℤ s.e)
  Tiles-start lo hi [] ys s h = ground (arith, h.0)
  Tiles-start lo hi (x ∷ xs) ys s h =
      let (p, q) = Tiles-start (inc x.e) hi xs ys s h.2 in
      (ground (arith, h.0, h.1, p, inc_parts x.e), q)

  -- Below its range an array of segments has no value.
  value_at_below :
      (lo hi : ℤ) (ss : List (Segment F)) (x : ℤ) → Tiles lo hi ss → x <ℤ lo → value_at ss x ≡ none
  unfolding value_at
  value_at_below lo hi [] x h k = refl
  value_at_below lo hi (s ∷ ss) x h k =
      ground (arith, value_at_below (inc s.e) hi ss x h.2, inc_parts s.e, h.0, h.1)

  Tiles-le : (lo hi : ℤ) (ss : List (Segment F)) → Tiles lo hi ss → lo ≤ℤ inc hi
  Tiles-le lo hi [] h = ground (arith, h)
  Tiles-le lo hi (s ∷ ss) h =
      ground (arith, Tiles-le (inc s.e) hi ss h.2, inc_parts s.e, inc_parts hi, h.0, h.1)

  -- Above its range neither.
  value_at_above :
      (lo hi : ℤ) (ss : List (Segment F)) (x : ℤ) → Tiles lo hi ss → hi <ℤ x → value_at ss x ≡ none
  unfolding value_at
  value_at_above lo hi [] x h k = refl
  value_at_above lo hi (s ∷ ss) x h k = ground (
    arith,
    value_at_above (inc s.e) hi ss x h.2 k,
    Tiles-le (inc s.e) hi ss h.2,
    inc_parts s.e,
    inc_parts hi,
  )

  -- Inside its range it has one.
  pub value_at_inside :
      (lo hi : ℤ) (ss : List (Segment F)) (x : ℤ)
      → Tiles lo hi ss
      → lo ≤ℤ x
      → x ≤ℤ hi
      → (a : F) × (value_at ss x ≡ some a)
  unfolding value_at
  value_at_inside lo hi [] x h k l = absurd (ground (arith, h, inc_parts hi))
  value_at_inside lo hi (s ∷ ss) x h k l = elim (Bool-cases (leb_ℤ x s.e)) [
    | inl e ↦ (s.a, ground arith)
    | inr e ↦
        let (a, p) = value_at_inside (inc s.e) hi ss x h.2 (ground (arith, inc_parts s.e)) l in
        (a, ground (arith, p))
  ]

  value_at-append :
      (zs ys : List (Segment F)) (x : ℤ)
      → value_at (zs ++ ys) x ≡ or_else (value_at zs x) (value_at ys x)
  unfolding value_at
  value_at-append [] ys x = refl
  value_at-append (z ∷ zs) ys x = ground (arith, value_at-append zs ys x)

  abbrev pub covers : Segment F → ℤ → Bool
  covers s x = leb_ℤ s.b x && leb_ℤ x s.e

  value_at_uncovered :
      (zs : List (Segment F)) (s : Segment F) (x : ℤ)
      → Tiles s.b s.e zs
      → covers s x ≡ false
      → value_at zs x ≡ none
  value_at_uncovered zs s x h e = elim (Bool-cases (leb_ℤ s.b x)) [
    | inl p ↦ value_at_above s.b s.e zs x h (ground arith)
    | inr p ↦ value_at_below s.b s.e zs x h (ground arith)
  ]

  value_at-split :
      (zs ys : List (Segment F)) (s : Segment F) (x : ℤ)
      → Tiles s.b s.e zs
      → value_at (zs ++ ys) x ≡ (if covers s x then value_at zs x else value_at (s ∷ ys) x)
  unfolding value_at
  value_at-split zs ys s x h = elim (Bool-cases (covers s x)) [
    | inl e ↦
        let (a, p) = value_at_inside s.b s.e zs x h (ground arith) (ground arith) in
        rw (e, value_at-append zs ys x, p)
    | inr e ↦ rw (e, value_at-append zs ys x, value_at_uncovered zs s x h e)
  ]

  -- A segment past the head does not meet the head.
  head_apart :
      (lo hi : ℤ) (x : Segment F) (xs ys : List (Segment F)) (s : Segment F) (i : ℤ)
      → Tiles lo hi (x ∷ xs ++ s ∷ ys)
      → covers x i ≡ true
      → covers s i ≡ false
  head_apart lo hi x xs ys s i h e =
      let (p, q) = Tiles-start (inc x.e) hi xs ys s h.2 in ground (arith, p, inc_parts x.e)

  -- Where a tiled array has the segment `s` replaced by a tiling of its range, only the values over
  -- that range change, to those of the tiling.
  value_at-replace :
      (lo hi : ℤ) (xs ys zs : List (Segment F)) (s : Segment F) (i : ℤ)
      → Tiles lo hi (xs ++ s ∷ ys)
      → Tiles s.b s.e zs
      → value_at (xs ++ (zs ++ ys)) i
        ≡ (if covers s i then value_at zs i else value_at (xs ++ s ∷ ys) i)
  unfolding value_at
  value_at-replace lo hi [] ys zs s i h k = value_at-split zs ys s i k
  value_at-replace lo hi (x ∷ xs) ys zs s i h k =
      ground
        (arith, value_at-replace (inc x.e) hi xs ys zs s i h.2 k, head_apart lo hi x xs ys s i h)

  -- What an answer of the server must be for the array: its parts are numbered from one segment
  -- on, and tile the range of that segment.
  pub record IsSplit (arr : List (Segment F)) (p : Part (Segment F)) (ps : List (Part (Segment F)))
      (s : Segment F) : Type 0 where
    pub found : get_elem? arr p.n ≡ some s
    pub numbered : IsNumbered p.n (p ∷ ps)
    pub tiled : Tiles s.b s.e (shapes (p ∷ ps))

  pub splice_parts-Tiles :
      (lo hi : ℤ) (arr : List (Segment F)) (p : Part (Segment F)) (ps : List (Part (Segment F)))
      (s : Segment F)
      → Tiles lo hi arr
      → IsSplit arr p ps s
      → Tiles lo hi (splice_parts 0 (p ∷ ps) arr)
        × ((i : ℤ)
            → value_at (splice_parts 0 (p ∷ ps) arr) i
              ≡ (if covers s i then value_at (shapes (p ∷ ps)) i else value_at arr i))
  splice_parts-Tiles lo hi arr p ps s h k =
      let (xs, ys, e, l) = split_at p.n arr k.found in
      let t : Tiles lo hi (xs ++ s ∷ ys) = subst (Tiles lo hi) e h in
      let f : splice_parts 0 (p ∷ ps) arr ≡ xs ++ (shapes (p ∷ ps) ++ ys) =
        rw e (splice_parts-append p ps xs ys s (rw l k.numbered)) in
      (
        rw f (Tiles-replace lo hi xs ys (shapes (p ∷ ps)) s t k.tiled),
        λ i. rw (f, e) (value_at-replace lo hi xs ys (shapes (p ∷ ps)) s i t k.tiled),
      )
