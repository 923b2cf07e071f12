-- ===== src/Heat/Regions.antt =====
-- The array of quads as a partition of the cells, and the rectangles of `render` (heatmap.js).
use inc_visage.Common.{
  ℕ, ◌+◌, ◌≤◌, ℤ, leb_ℤ, Bool, ◌&&◌, if◌then◌else◌, if_of_true, if_of_false, Option, none, some,
  List, [], ◌∷◌, ◌++◌, ◌≡◌, refl, ap, ◌∙◌, arith, Bool-cases, inl, inr, sym,
}
use inc_visage.Heat.{Quad}

module _ {F : Type 0} where
  -- The cell lies in the quad.
  abbrev pub covers : Quad F → ℤ → ℤ → Bool
  covers q x y = (leb_ℤ q.xb x && leb_ℤ x q.xe) && (leb_ℤ q.yb y && leb_ℤ y q.ye)

  -- In how many quads it lies.
  abbrev pub count : List (Quad F) → ℤ → ℤ → ℕ
  count [] x y = 0
  count (q ∷ qs) x y = (if covers q x y then 1 else 0) + count qs x y

  -- What the array says of a cell.
  abbrev pub value_at : List (Quad F) → ℤ → ℤ → Option F
  value_at [] x y = none
  value_at (q ∷ qs) x y = if covers q x y then some q.a else value_at qs x y

  pub count-append :
      (ps qs : List (Quad F)) (x y : ℤ) → count (ps ++ qs) x y ≡ count ps x y + count qs x y
  count-append [] qs x y = omega arith
  count-append (p ∷ ps) qs x y = omega (arith, count-append ps qs x y)

  -- The quads that cover no cell say nothing of it, and one that covers it hides what comes later.
  pub value_at-append :
      (ps qs : List (Quad F)) (x y : ℤ)
      → count ps x y ≡ 0
      → value_at (ps ++ qs) x y ≡ value_at qs x y
  value_at-append [] qs x y h = refl
  value_at-append (p ∷ ps) qs x y h = elim (Bool-cases (covers p x y)) [
    | inl e ↦ absurd (omega (arith, ap (λ b. (if b then 1 else 0) + count ps x y) e, h))
    | inr e ↦ if_of_false (covers p x y) _ _ e ∙ value_at-append ps qs x y (ground arith)
  ]

  pub value_at-append_covered :
      (ps qs : List (Quad F)) (x y : ℤ)
      → 1 ≤ count ps x y
      → value_at (ps ++ qs) x y ≡ value_at ps x y
  value_at-append_covered [] qs x y h = absurd (omega arith)
  value_at-append_covered (p ∷ ps) qs x y h = elim (Bool-cases (covers p x y)) [
    | inl e ↦ if_of_true (covers p x y) _ _ e ∙ sym (if_of_true (covers p x y) _ _ e)
    | inr e ↦
        if_of_false (covers p x y) _ _ e
        ∙ value_at-append_covered ps qs x y (ground arith)
        ∙ sym (if_of_false (covers p x y) _ _ e)
  ]

  pub value_at-append_same :
      (ps qs rs : List (Quad F)) (x y : ℤ)
      → value_at qs x y ≡ value_at rs x y
      → value_at (ps ++ qs) x y ≡ value_at (ps ++ rs) x y
  value_at-append_same [] qs rs x y h = h
  value_at-append_same (p ∷ ps) qs rs x y h =
      ap (λ v. if covers p x y then some p.a else v) (value_at-append_same ps qs rs x y h)

  -- A quad between `xs` and `ys` gives way to quads that cover the same cells.
  module _ (xs new ys : List (Quad F)) (q : Quad F) (x y : ℤ)
      (h : count new x y ≡ (if covers q x y then 1 else 0)) where
    pub count-replace : count (xs ++ (new ++ ys)) x y ≡ count (xs ++ q ∷ ys) x y
    count-replace = omega (
      arith,
      h,
      count-append xs (new ++ ys) x y,
      count-append new ys x y,
      count-append xs (q ∷ ys) x y,
    )

    pub value_at-replace :
        count (xs ++ q ∷ ys) x y ≡ 1
        → value_at (xs ++ (new ++ ys)) x y
          ≡ (if covers q x y then value_at new x y else value_at (xs ++ q ∷ ys) x y)
    value_at-replace one = elim (Bool-cases (covers q x y)) [
      | inl e ↦
          value_at-append xs (new ++ ys) x y (ground (arith, count-append xs (q ∷ ys) x y))
          ∙ value_at-append_covered new ys x y (ground arith)
          ∙ sym (if_of_true (covers q x y) _ _ e)
      | inr e ↦
          value_at-append_same xs (new ++ ys) (q ∷ ys) x y
            (value_at-append new ys x y (ground arith) ∙ sym (if_of_false (covers q x y) _ _ e))
          ∙ sym (if_of_false (covers q x y) _ _ e)
    ]
