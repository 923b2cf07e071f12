-- ===== src/Former/Chains.antt =====
-- The loop by which the former players go back: `for (i=currentIter, j=0; j<toIterate; j++, i--)`
-- undoes one answer after the other, the last one first (new-web-test/js/old_/heatmap/player.js).
pub mod Undo
use inc_visage.Common.{
  ℕ, zero, suc, ◌+◌, ◌-◌, ℤ, pos, negsuc, dec, ◌-ℤ◌, Option, none, some, List, [], ◌∷◌, length,
  get_elem?,
}
use inc_visage.Js.{Sparse}
use inc_visage.Refine.{Part}

-- An element of `segmentBackwardChain`: what stood at `n` before the answer.
pub record Replaced {ℓ} (A : Type ℓ) : Type ℓ where
  pub n : ℕ
  pub s : A

-- The rounds of a loop from 0 to below `k`.
abbrev pub rounds : ℤ → ℕ
rounds (pos n) = n
rounds (negsuc n) = 0

module _ {ℓ} {A : Type ℓ} where
  -- The array without its first `k` elements.
  unfoldable pub drop : ℕ → List A → List A
  drop zero xs = xs
  drop (suc k) [] = []
  drop (suc k) (x ∷ xs) = drop k xs

  -- `xs.splice(n, k, x)`
  unfoldable pub splice : List A → ℕ → ℕ → A → List A
  unfolding drop
  splice xs zero k x = x ∷ drop k xs
  splice [] (suc n) k x = x ∷ []
  splice (y ∷ ys) (suc n) k x = y ∷ splice ys n k x

  -- The body of the loop, which throws where one of the chains has no element.
  unfoldable pub undo_one : Option (Replaced A) → Option (List (Part A)) → List A → Option (List A)
  undo_one (some r) (some ps) arr = some (splice arr r.n (length ps) r.s)
  undo_one _ _ arr = none

  -- The loop from `i` down, for `k` rounds; `none` where it throws.
  unfoldable pub undo :
      ℕ → ℤ → Sparse (Replaced A) → Sparse (List (Part A)) → List A → Option (List A)
  undo zero i back forward arr = some arr
  undo (suc k) i back forward arr = elim (undo_one (back i) (forward i) arr) [
    | none ↦ none
    | some a ↦ undo k (dec i) back forward a
  ]
