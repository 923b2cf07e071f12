-- ===== src/Axis/Days.antt =====
-- `dayText` of new-web-test/js/trendline/trendline.js: the month and the day of the month of a day of the year.
use Prim.Native.String.{String}
use inc_visage.Common.{
  ℕ, suc, ◌+◌, ◌-◌, ◌<◌, ◌≤◌, leb, length, get_elem?, Option, none, some, List, [], ◌∷◌,
  if◌then◌else◌, if_of_true, if_of_false, ◌≡◌, refl, ◌∙◌, arith, Bool-cases, inl, inr,
}
use inc_visage.Axis.{months_array}

-- How many days of the year are over before each month.
abbrev pub days : List ℕ
days = 0 ∷ 31 ∷ 60 ∷ 91 ∷ 121 ∷ 152 ∷ 182 ∷ 213 ∷ 244 ∷ 274 ∷ 305 ∷ 335 ∷ 366 ∷ []

-- The text is the month, a blank and the day.
pub record DayText : Type 0 where
  pub month : Option String
  pub day : ℕ

-- The loop from an index on, on what the two arrays hold from there on.
unfoldable pub day_loop : List ℕ → List String → ℕ → Option DayText
day_loop [] ms day = none
day_loop (d ∷ []) ms day = none
day_loop (d ∷ e ∷ ds) [] day =
    let rest = day_loop (e ∷ ds) [] day in
    if leb day e then some (record { month = none; day = day - d }) else rest
day_loop (d ∷ e ∷ ds) (m ∷ ms) day =
    let rest = day_loop (e ∷ ds) ms day in
    if leb day e then some (record { month = some m; day = day - d }) else rest

unfoldable pub day_text : ℕ → Option DayText
day_text day = day_loop days months_array day

-- The text names the month in which the day lies, and its number there.
pub record IsDayOf (ds : List ℕ) (ms : List String) (day : ℕ) (t : DayText) : Type 0 where
  pub index : ℕ
  pub before : ℕ
  pub after : ℕ
  pub starts : get_elem? ds index ≡ some before
  pub ends : get_elem? ds (suc index) ≡ some after
  pub named : get_elem? ms index ≡ t.month
  pub counted : before + t.day ≡ day
  pub positive : 0 < t.day
  pub fits : day ≤ after

-- The last entry of the array bounds the day.
abbrev IsUpTo : ℕ → List ℕ → Type 0
IsUpTo day [] = ⊥
IsUpTo day (d ∷ []) = day ≤ d
IsUpTo day (d ∷ e ∷ ds) = IsUpTo day (e ∷ ds)

later :
    (d : ℕ) (ds : List ℕ) (m : String) (ms : List String) (day : ℕ) (t : DayText)
    → IsDayOf ds ms day t
    → IsDayOf (d ∷ ds) (m ∷ ms) day t
later d ds m ms day t h = record {
  index = suc h.index;
  before = h.before;
  after = h.after;
  starts = h.starts;
  ends = h.ends;
  named = h.named;
  counted = h.counted;
  positive = h.positive;
  fits = h.fits;
}

day_loop-IsDayOf :
    (d : ℕ) (ds : List ℕ) (ms : List String) (day : ℕ)
    → length ds ≡ length ms
    → d < day
    → IsUpTo day (d ∷ ds)
    → (t : DayText) × (day_loop (d ∷ ds) ms day ≡ some t) × IsDayOf (d ∷ ds) ms day t
unfolding day_loop
day_loop-IsDayOf d [] ms day l lt up = absurd (omega arith)
day_loop-IsDayOf d (e ∷ ds) [] day l lt up = absurd (omega arith)
day_loop-IsDayOf d (e ∷ ds) (m ∷ ms) day l lt up = elim (Bool-cases (leb day e)) [
  | inl h ↦ (
    record { month = some m; day = day - d },
    if_of_true (leb day e) _ _ h,
    record {
      index = 0;
      before = d;
      after = e;
      starts = refl;
      ends = refl;
      named = refl;
      counted = ground arith;
      positive = ground arith;
      fits = ground arith;
    },
  )
  | inr h ↦
      let (t, run, k) = day_loop-IsDayOf e ds ms day (omega arith) (ground arith) up in
      (t, if_of_false (leb day e) _ _ h ∙ run, later d (e ∷ ds) m ms day t k)
]

-- A day from 1 to 366 has a text. It names the month that starts after `before` days and ends with
-- day `after`, between which the day lies, and the number it gives makes the day again with `before`.
pub day_text-IsDayOf :
    (day : ℕ)
    → 1 ≤ day
    → day ≤ 366
    → (t : DayText) × (day_text day ≡ some t) × IsDayOf days months_array day t
unfolding day_text
day_text-IsDayOf day lo hi = day_loop-IsDayOf 0 _ months_array day refl lo hi
