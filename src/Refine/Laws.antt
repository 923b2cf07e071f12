-- ===== src/Refine/Laws.antt =====
-- What an answer does to the array, for the answers that the server sends: the parts of one split
-- are numbered one after the other from the shape that was split.
use inc_visage.Common.{
  ℕ, zero, suc, ◌≤◌, ◌≡◌, refl, ap, ◌∙◌, some, List, [], ◌∷◌, ◌++◌, arith, length, get_elem?,
  length-append, append_assoc,
}
use inc_visage.Js.{splice_one, splice_in, splice_one-append, splice_in-append}
use inc_visage.Refine.{Part, splice_part, splice_parts, overwrite, shapes}

module _ {ℓ} {A : Type ℓ} where
  -- The parts are numbered `k`, `k + 1` and so on.
  abbrev pub IsNumbered : ℕ → List (Part A) → Type 0
  IsNumbered k [] = Unit
  IsNumbered k (p ∷ ps) = (p.n ≡ k) × IsNumbered (suc k) ps

  splice_part-first : (p : Part A) (arr : List A) → splice_part 0 p arr ≡ splice_one arr p.n p.shape
  unfolding splice_part
  splice_part-first p arr = refl

  splice_part-later :
      (i : ℕ) (p : Part A) (arr : List A) → splice_part (suc i) p arr ≡ splice_in arr p.n p.shape
  unfolding splice_part
  splice_part-later i p arr = ground arith

  length-snoc : (xs : List A) (x : A) → length (xs ++ x ∷ []) ≡ suc (length xs)
  length-snoc xs x = omega (arith, length-append xs (x ∷ []))

  splice_parts-later :
      (i : ℕ) (ps : List (Part A)) (xs ys : List A)
      → IsNumbered (length xs) ps
      → splice_parts (suc i) ps (xs ++ ys) ≡ xs ++ (shapes ps ++ ys)
  unfolding splice_parts
  splice_parts-later i [] xs ys h = refl
  splice_parts-later i (p ∷ ps) xs ys h =
      rw
        (
          splice_part-later i p (xs ++ ys),
          h.0,
          splice_in-append xs ys p.shape,
          ← append_assoc xs (p.shape ∷ []) ys,
        )
        (splice_parts-later (suc i) ps (xs ++ p.shape ∷ []) ys (rw (length-snoc xs p.shape) h.1)
          ∙ append_assoc xs (p.shape ∷ []) (shapes ps ++ ys))

  -- One round of the server: the shape between `xs` and `ys` becomes the parts of the answer.
  pub splice_parts-append :
      (p : Part A) (ps : List (Part A)) (xs ys : List A) (y : A)
      → IsNumbered (length xs) (p ∷ ps)
      → splice_parts 0 (p ∷ ps) (xs ++ y ∷ ys) ≡ xs ++ (shapes (p ∷ ps) ++ ys)
  unfolding splice_parts
  splice_parts-append p ps xs ys y h =
      rw
        (
          splice_part-first p (xs ++ y ∷ ys),
          h.0,
          splice_one-append xs ys y p.shape,
          ← append_assoc xs (p.shape ∷ []) ys,
        )
        (splice_parts-later 0 ps (xs ++ p.shape ∷ []) ys (rw (length-snoc xs p.shape) h.1)
          ∙ append_assoc xs (p.shape ∷ []) (shapes ps ++ ys))

  -- An array that holds an element at `n` is what stands before it, the element and the rest.
  pub split_at :
      (n : ℕ) (arr : List A) {y : A}
      → get_elem? arr n ≡ some y
      → (xs : List A) × (ys : List A) × (arr ≡ xs ++ y ∷ ys) × (length xs ≡ n)
  split_at n [] h = cc
  split_at zero (x ∷ arr) h = ([], arr, cc, refl)
  split_at (suc n) (x ∷ arr) h =
      let (xs, ys, e, l) = split_at n arr h in (x ∷ xs, ys, ap (x ∷◌) e, ap suc l)

  -- A whole answer that is at least as long as the array takes its place.
  pub overwrite_all :
      (ps : List (Part A)) (arr : List A) → length arr ≤ length ps → overwrite ps arr ≡ shapes ps
  unfolding overwrite
  overwrite_all [] [] h = refl
  overwrite_all [] (x ∷ arr) h = absurd (omega arith)
  overwrite_all (p ∷ ps) [] h = ap (p.shape ∷◌) (overwrite_all ps [] (omega arith))
  overwrite_all (p ∷ ps) (x ∷ arr) h = ap (p.shape ∷◌) (overwrite_all ps arr (omega arith))
