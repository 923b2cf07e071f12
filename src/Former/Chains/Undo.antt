-- ===== src/Former/Chains/Undo.antt =====
-- What the loop that undoes answers gives back (new-web-test/js/old_/heatmap/player.js).
use inc_visage.Common.{
  ℕ, zero, suc, ◌≡◌, refl, ap, ◌∙◌, sym, subst, none, some, List, [], ◌∷◌, ◌++◌, ℤ, pos, negsuc,
  dec, dec_parts, ◌-ℤ◌, -ℤ_parts, eq_of_parts, ◌≤ℤ◌, ◌<ℤ◌, length, get_elem?, arith,
}
use inc_visage.Js.{Sparse}
use inc_visage.Refine.{Part, splice_parts, shapes}
use inc_visage.Refine.Laws.{IsNumbered, splice_parts-append, split_at}
use inc_visage.Former.Chains.{Replaced, rounds, drop, splice, undo_one, undo}

pos-rounds : (k : ℤ) → pos 0 ≤ℤ k → pos (rounds k) ≡ k
pos-rounds (pos n) h = refl
pos-rounds (negsuc n) h = absurd (omega arith)

module _ {ℓ} {A : Type ℓ} where
  drop-append : (zs ys : List A) → drop (length zs) (zs ++ ys) ≡ ys
  unfolding drop
  drop-append [] ys = refl
  drop-append (z ∷ zs) ys = drop-append zs ys

  pub splice-append :
      (xs zs ys : List A) (y : A)
      → splice (xs ++ (zs ++ ys)) (length xs) (length zs) y ≡ xs ++ y ∷ ys
  unfolding splice
  splice-append [] zs ys y = ap (y ∷◌) (drop-append zs ys)
  splice-append (x ∷ xs) zs ys y = ap (x ∷◌) (splice-append xs zs ys y)

  length-shapes : (ps : List (Part A)) → length (shapes ps) ≡ length ps
  length-shapes [] = refl
  length-shapes (p ∷ ps) = ap suc (length-shapes ps)

  -- An answer that splits one shape is undone by putting the shape back for as many as there are
  -- parts.
  pub splice-splice_parts :
      (p : Part A) (ps : List (Part A)) (arr : List A) (y : A)
      → get_elem? arr p.n ≡ some y
      → IsNumbered p.n (p ∷ ps)
      → splice (splice_parts 0 (p ∷ ps) arr) p.n (length (p ∷ ps)) y ≡ arr
  splice-splice_parts p ps arr y at numbered =
      let (xs, ys, e, l) = split_at p.n arr at in
      let new : splice_parts 0 (p ∷ ps) arr ≡ xs ++ (shapes (p ∷ ps) ++ ys) =
        ap (splice_parts 0 (p ∷ ps)) e
        ∙ splice_parts-append p ps xs ys y (subst (λ n. IsNumbered n (p ∷ ps)) (sym l) numbered) in
      ap (λ a. splice a p.n (length (p ∷ ps)) y) new
      ∙ rw (← l, ← length-shapes (p ∷ ps)) (splice-append xs (shapes (p ∷ ps)) ys y)
      ∙ sym e

  -- Each iteration after `lo` and up to `cur` can be undone to the one before it.
  abbrev pub IsUndoable :
      Sparse (Replaced A) → Sparse (List (Part A)) → (ℤ → List A) → ℤ → ℤ → Type ℓ
  IsUndoable back forward hist lo cur =
      (i : ℤ) → lo <ℤ i → i ≤ℤ cur → undo_one (back i) (forward i) (hist i) ≡ some (hist (dec i))

  module _ (back : Sparse (Replaced A)) (forward : Sparse (List (Part A))) (hist : ℤ → List A)
      (lo cur : ℤ) (h : IsUndoable back forward hist lo cur) where
    undo-some :
        (k : ℕ) (i : ℤ) (a : List A)
        → undo_one (back i) (forward i) (hist i) ≡ some a
        → undo (suc k) i back forward (hist i) ≡ undo k (dec i) back forward a
    unfolding undo
    undo-some k i a e = ap (λ o. elim o [ none ↦ none | some b ↦ undo k (dec i) back forward b ]) e

    undo-steps :
        (k : ℕ) (i : ℤ)
        → lo ≤ℤ i -ℤ pos k
        → i ≤ℤ cur
        → undo k i back forward (hist i) ≡ some (hist (i -ℤ pos k))
    unfolding undo
    undo-steps zero i le top =
        ap (λ j. some (hist j)) (eq_of_parts i (i -ℤ pos 0) (omega (arith, -ℤ_parts i (pos 0))))
    undo-steps (suc k) i le top =
        let same : dec i -ℤ pos k ≡ i -ℤ pos (suc k) =
          eq_of_parts (dec i -ℤ pos k) (i -ℤ pos (suc k))
            (omega (arith, -ℤ_parts (dec i) (pos k), -ℤ_parts i (pos (suc k)), dec_parts i)) in
        undo-some k i (hist (dec i)) (h i (ground (arith, -ℤ_parts i (pos (suc k)))) top)
        ∙ undo-steps k (dec i) (rw same le) (ground (arith, dec_parts i))
        ∙ ap (λ j. some (hist j)) same

    -- From the last iteration back to any that is recorded, the loop gives the array it had.
    pub undo_back_to :
        (j : ℤ)
        → lo ≤ℤ j
        → j ≤ℤ cur
        → undo (rounds (cur -ℤ j)) cur back forward (hist cur) ≡ some (hist j)
    undo_back_to j le top =
        let same : cur -ℤ pos (rounds (cur -ℤ j)) ≡ j =
          ap (λ k. cur -ℤ k) (pos-rounds (cur -ℤ j) (ground (arith, -ℤ_parts cur j)))
          ∙ eq_of_parts (cur -ℤ (cur -ℤ j)) j
              (omega (arith, -ℤ_parts cur j, -ℤ_parts cur (cur -ℤ j))) in
        undo-steps (rounds (cur -ℤ j)) cur (rw same le) (omega arith) ∙ ap (λ i. some (hist i)) same
