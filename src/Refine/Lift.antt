-- ===== src/Refine/Lift.antt =====
-- The parts of an answer and the shapes of an array as a page holds them whose elements may be
-- `undefined`.
use inc_visage.Common.{
  ℕ, zero, suc, ◌==◌, Bool-cases, inl, inr, some, Option, List, [], ◌∷◌, map, length, ◌≡◌, refl, ap,
  ◌∙◌,
}
use inc_visage.Js.{splice_one, splice_in}
use inc_visage.Refine.{Part, splice_part, splice_parts}
use inc_visage.Refine.Laws.{IsNumbered}

module _ {A : Type 0} where
  -- A part of an answer whose shape is there.
  abbrev pub lift : Part A → Part (Option A)
  lift p = record { n = p.n; shape = some p.shape }

  abbrev pub shapes_of : List A → List (Option A)
  shapes_of = map some

  splice_one-shapes :
      (arr : List A) (n : ℕ) (q : A)
      → splice_one (shapes_of arr) n (some q) ≡ shapes_of (splice_one arr n q)
  unfolding splice_one
  splice_one-shapes [] n q = refl
  splice_one-shapes (x ∷ arr) zero q = refl
  splice_one-shapes (x ∷ arr) (suc n) q = ap (some x ∷◌) (splice_one-shapes arr n q)

  splice_in-shapes :
      (arr : List A) (n : ℕ) (q : A)
      → splice_in (shapes_of arr) n (some q) ≡ shapes_of (splice_in arr n q)
  unfolding splice_in
  splice_in-shapes arr zero q = refl
  splice_in-shapes [] (suc n) q = refl
  splice_in-shapes (x ∷ arr) (suc n) q = ap (some x ∷◌) (splice_in-shapes arr n q)

  splice_part-shapes :
      (i : ℕ) (p : Part A) (arr : List A)
      → splice_part i (lift p) (shapes_of arr) ≡ shapes_of (splice_part i p arr)
  unfolding splice_part
  splice_part-shapes i p arr = elim (Bool-cases (i == 0)) [
    | inl e ↦ rw e (splice_one-shapes arr p.n p.shape)
    | inr e ↦ rw e (splice_in-shapes arr p.n p.shape)
  ]

  pub splice_parts-shapes :
      (i : ℕ) (ps : List (Part A)) (arr : List A)
      → splice_parts i (map lift ps) (shapes_of arr) ≡ shapes_of (splice_parts i ps arr)
  unfolding splice_parts
  splice_parts-shapes i [] arr = refl
  splice_parts-shapes i (p ∷ ps) arr =
      ap (splice_parts (suc i) (map lift ps)) (splice_part-shapes i p arr)
      ∙ splice_parts-shapes (suc i) ps (splice_part i p arr)

  pub IsNumbered-lift : (n : ℕ) (ps : List (Part A)) → IsNumbered n ps → IsNumbered n (map lift ps)
  IsNumbered-lift n [] h = tt
  IsNumbered-lift n (p ∷ ps) h = (h.0, IsNumbered-lift (suc n) ps h.1)

  length-lift : (ps : List (Part A)) → length (map lift ps) ≡ length ps
  length-lift [] = refl
  length-lift (p ∷ ps) = ap suc (length-lift ps)
