-- ===== src/Server/Responses.antt =====
-- `/storeResponseTrend` and `/storeResponseHeat` of app.js: the answers of a participant as a file of
-- lines, named by the day of the month, the month, the hour and the minute.
use inc_visage.Common.{
  ℕ, zero, suc, ◌+◌, ◌<◌, ◌==◌, ◌&&◌, Bool, true, false, Option, some, List, [], ◌∷◌, length,
  get_elem?, if◌then◌else◌, if_of_true, ◌≡◌, refl, ap, ◌∙◌, arith,
}
use inc_visage.Server.{Server, Answers, Row, Study, Minute, Body, trend, heat, success}
use Prim.Native.String.{String}

-- The body of the loop in its round `i`.
unfoldable pub row : Answers → ℕ → Row
row a i = record {
  no = i + 1;
  question = get_elem? a.question i;
  answer = get_elem? a.answer i;
  userans = get_elem? a.userans i;
  iter = get_elem? a.iter i;
  resp = get_elem? a.resp i;
  correct = get_elem? a.correct i;
  accuracy = get_elem? a.accuracy i;
  score = get_elem? a.score i;
}

-- The loop from round `i` on, for what `iter` holds from there on.
unfoldable pub rows_from : Answers → ℕ → List String → List Row
rows_from a i [] = []
rows_from a i (_ ∷ rest) = row a i ∷ rows_from a (suc i) rest

unfoldable pub rows : Answers → List Row
rows a = rows_from a 0 a.iter

abbrev pub is_study : Study → Study → Bool
is_study trend trend = true
is_study heat heat = true
is_study _ _ = false

-- The names of two files are the same text.
unfoldable pub is_minute : Minute → Minute → Bool
is_minute m k =
    (m.date == k.date)
    && ((m.month == k.month) && ((m.hours == k.hours) && (m.minutes == k.minutes)))

-- `createWriteStream` starts the file anew.
unfoldable pub store :
    {F N J : Type 0} → Study → Minute → Answers → Server N → Server N × Option (Body F J)
store study minute a s = (
  record s {
    answers =
        λ k m. if is_study study k && is_minute minute m then some (rows a) else s.answers k m;
  },
  some success,
)

length-rows_from : (a : Answers) (i : ℕ) (xs : List String) → length (rows_from a i xs) ≡ length xs
unfolding rows_from
length-rows_from a i [] = refl
length-rows_from a i (x ∷ xs) = ap suc (length-rows_from a (suc i) xs)

get_elem?-rows_from :
    (a : Answers) (i : ℕ) (xs : List String) (j : ℕ)
    → j < length xs
    → get_elem? (rows_from a i xs) j ≡ some (row a (i + j))
unfolding rows_from
get_elem?-rows_from a i [] j h = absurd (omega arith)
get_elem?-rows_from a i (x ∷ xs) zero h = ap (λ k. some (row a k)) (omega arith)
get_elem?-rows_from a i (x ∷ xs) (suc j) h =
    get_elem?-rows_from a (suc i) xs j (omega arith) ∙ ap (λ k. some (row a k)) (omega arith)

is_study-same : (k : Study) → is_study k k ≡ true
is_study-same trend = refl
is_study-same heat = refl

is_minute-same : (m : Minute) → is_minute m m ≡ true
unfolding is_minute
is_minute-same m = ground arith

-- A participant's answers are acknowledged, and the file of their minute holds one line for each
-- entry of `iter`, in order, numbered from 1 and with the entries of that place; the files of
-- other names stay.
pub store_lem :
    {F N J : Type 0} (study : Study) (minute : Minute) (a : Answers) (s : Server N)
    → (let (t, reply) = store {F = F} {J = J} study minute a s in
        (reply ≡ some success)
        × ((lines : List Row) × (t.answers study minute ≡ some lines)
            × (length lines ≡ length a.iter)
            × ((j : ℕ) → j < length a.iter → get_elem? lines j ≡ some (row a j)))
        × ((k : Study) (m : Minute)
            → (is_study study k && is_minute minute m) ≡ false
            → t.answers k m ≡ s.answers k m))
unfolding store rows
store_lem study minute a s = (
  refl,
  (
    rows_from a 0 a.iter,
    if_of_true (is_study study study && is_minute minute minute) _ _
        (rw (is_study-same study, is_minute-same minute)),
    length-rows_from a 0 a.iter,
    λ j h. get_elem?-rows_from a 0 a.iter j h ∙ ap (λ k. some (row a k)) (omega arith),
  ),
  λ k m h. rw h,
)

-- Two participants who hand in their answers to one study in one minute: the file of the first is
-- lost, and holds the lines of the second.
pub store_twice :
    {N : Type 0} (F J : Type 0) (study : Study) (minute : Minute) (a b : Answers) (s : Server N)
    → (store {F = F} {J = J} study minute b (store {F = F} {J = J} study minute a s).0).0.answers
        study minute
      ≡ some (rows b)
unfolding store
store_twice F J study minute a b s =
    if_of_true (is_study study study && is_minute minute minute) _ _
      (rw (is_study-same study, is_minute-same minute))
