-- ===== src/Axis.antt =====
-- The labels of an axis, which both pages build with the same loop (new-web-test/js/trendline/trendline.js
-- and heatmap/heatmap.js), and the text of a day in the tooltip of trendline.js.
pub mod Days
mod Examples
use Prim.Native.String.{String}
use text.Mathlib.Text.{◌==◌ as str_eq}
use inc_visage.Common.{
  ℕ, zero, suc, ◌+◌, ◌-◌, ◌<◌, ◌≤◌, ℤ, pos, negsuc, pos_part, neg_part, inc, inc_parts, ◌+ℤ◌,
  +ℤ_parts, eq_of_parts, leb_ℤ, ◌≤ℤ◌, ◌<ℤ◌, get_elem?, Option, none, some, List, [], ◌∷◌,
  if◌then◌else◌, if_of_true, if_of_false, ◌≡◌, refl, ap, ◌∙◌, arith, Bool-cases, inl, inr,
}

-- `xs[i]`
unfoldable pub at {ℓ} : {A : Type ℓ} → List A → ℤ → Option A
at xs (pos n) = get_elem? xs n
at xs (negsuc n) = none

-- An element of `xTickList`: a name, which may be `undefined`, or the number itself.
pub data Label : Type 0 where
  name : Option String → Label
  number : ℤ → Label

abbrev pub months_array : List String
months_array =
    "JAN" ∷ "FEB" ∷ "MAR" ∷ "APR" ∷ "MAY" ∷ "JUN" ∷ "JUL" ∷ "AUG" ∷ "SEP" ∷ "OCT" ∷ "NOV" ∷ "DEC"
    ∷ []

abbrev pub day_of_week_array : List String
day_of_week_array = "MON" ∷ "TUE" ∷ "WED" ∷ "THU" ∷ "FRI" ∷ "SAT" ∷ "SUN" ∷ []

-- The body of the loop, with the number `k` by which the arrays are read.
unfoldable pub label : String → ℤ → ℤ → Label
label dimension k i =
    if str_eq dimension "Month"
    then name (at months_array k)
    else if str_eq dimension "Day Of Week"
    then name (at day_of_week_array k)
    else number i

-- `for (i = lo; i <= hi; i++)`, with fuel for the rounds.
unfoldable pub tick_loop {ℓ} : {A : Type ℓ} → ℕ → (ℤ → A) → ℤ → ℤ → List A
tick_loop zero f i hi = []
tick_loop (suc fuel) f i hi =
    let rest = tick_loop fuel f (inc i) hi in if leb_ℤ i hi then f i ∷ rest else []

unfoldable pub tick_list {ℓ} : {A : Type ℓ} → (ℤ → A) → ℤ → ℤ → List A
tick_list f lo hi =
    tick_loop (suc (pos_part hi + neg_part lo - (neg_part hi + pos_part lo))) f lo hi

module _ {ℓ} {A : Type ℓ} (f : ℤ → A) where
  tick_loop-inside :
      (fuel : ℕ) (i hi : ℤ) (j : ℕ)
      → j < fuel
      → i +ℤ pos j ≤ℤ hi
      → get_elem? (tick_loop fuel f i hi) j ≡ some (f (i +ℤ pos j))
  unfolding tick_loop
  tick_loop-inside zero i hi j h le = absurd (omega arith)
  tick_loop-inside (suc fuel) i hi zero h le =
      ap (λ xs. get_elem? xs 0) (if_of_true (leb_ℤ i hi) _ _ (ground (arith, +ℤ_parts i (pos 0))))
      ∙ ap (λ k. some (f k)) (eq_of_parts i (i +ℤ pos 0) (omega (arith, +ℤ_parts i (pos 0))))
  tick_loop-inside (suc fuel) i hi (suc j) h le =
      let e : inc i +ℤ pos j ≡ i +ℤ pos (suc j) =
        eq_of_parts (inc i +ℤ pos j) (i +ℤ pos (suc j))
          (omega (arith, +ℤ_parts (inc i) (pos j), +ℤ_parts i (pos (suc j)), inc_parts i)) in
      ap (λ xs. get_elem? xs (suc j))
        (if_of_true (leb_ℤ i hi) _ _ (ground (arith, +ℤ_parts i (pos (suc j)))))
      ∙ tick_loop-inside fuel (inc i) hi j (omega arith) (rw e le)
      ∙ ap (λ k. some (f k)) e

  tick_loop-outside :
      (fuel : ℕ) (i hi : ℤ) (j : ℕ) → hi <ℤ i +ℤ pos j → get_elem? (tick_loop fuel f i hi) j ≡ none
  unfolding tick_loop
  tick_loop-outside zero i hi j lt = refl
  tick_loop-outside (suc fuel) i hi zero lt =
      ap (λ xs. get_elem? xs 0) (if_of_false (leb_ℤ i hi) _ _ (ground (arith, +ℤ_parts i (pos 0))))
  tick_loop-outside (suc fuel) i hi (suc j) lt = elim (Bool-cases (leb_ℤ i hi)) [
    | inl e ↦
        ap (λ xs. get_elem? xs (suc j)) (if_of_true (leb_ℤ i hi) _ _ e)
        ∙ tick_loop-outside fuel (inc i) hi j
            (omega (arith, +ℤ_parts (inc i) (pos j), +ℤ_parts i (pos (suc j)), inc_parts i))
    | inr e ↦ ap (λ xs. get_elem? xs (suc j)) (if_of_false (leb_ℤ i hi) _ _ e)
  ]

  -- The list of an axis holds at `j` the label of `lo + j` up to `hi`, and nothing after it.
  pub get_elem?-tick_list :
      (lo hi : ℤ) (j : ℕ)
      → (lo +ℤ pos j ≤ℤ hi → get_elem? (tick_list f lo hi) j ≡ some (f (lo +ℤ pos j)))
        × (hi <ℤ lo +ℤ pos j → get_elem? (tick_list f lo hi) j ≡ none)
  unfolding tick_list
  get_elem?-tick_list lo hi j = (
    λ le.
        tick_loop-inside (suc (pos_part hi + neg_part lo - (neg_part hi + pos_part lo))) lo hi j
          (ground (arith, +ℤ_parts lo (pos j))) le,
    λ lt.
        tick_loop-outside (suc (pos_part hi + neg_part lo - (neg_part hi + pos_part lo))) lo hi j
          lt,
  )
