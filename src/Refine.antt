-- ===== src/Refine.antt =====
-- The loop by which `genCharts` applies a server's answer to the array of shapes that are drawn
-- (new-web-test/js/trendline/player.js and heatmap/player.js): the first part of the answer takes
-- the place of the shape that was split, and each later part is inserted at its own number.
pub mod Laws
pub mod Lift
use inc_visage.Common.{ℕ, zero, suc, List, [], ◌∷◌, ◌==◌, if◌then◌else◌}
use inc_visage.Js.{splice_one, splice_in}

-- An element of `output.sl`: its number `n`, and the object that is put into the array.
pub record Part {ℓ} (A : Type ℓ) : Type ℓ where
  pub n : ℕ
  pub shape : A

module _ {ℓ} {A : Type ℓ} where
  -- The body of the loop in its round `i`.
  unfoldable pub splice_part : ℕ → Part A → List A → List A
  splice_part i p arr = if i == 0 then splice_one arr p.n p.shape else splice_in arr p.n p.shape

  unfoldable pub splice_parts : ℕ → List (Part A) → List A → List A
  splice_parts i [] arr = arr
  splice_parts i (p ∷ ps) arr = splice_parts (suc i) ps (splice_part i p arr)

  -- The loop `for (i = 0; i < segment.length; i++) segmentArr[i] = …` of the other kind of answer:
  -- what lies past the end of the answer stays.
  unfoldable pub overwrite : List (Part A) → List A → List A
  overwrite [] arr = arr
  overwrite (p ∷ ps) [] = p.shape ∷ overwrite ps []
  overwrite (p ∷ ps) (_ ∷ arr) = p.shape ∷ overwrite ps arr

  -- The objects of an answer, in its order.
  abbrev pub shapes : List (Part A) → List A
  shapes [] = []
  shapes (p ∷ ps) = p.shape ∷ shapes ps
