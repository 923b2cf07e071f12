-- ===== src/Js.antt =====
-- What the handlers use of the language: a statement may throw, which ends the handler and leaves
-- the assignments made so far; `Array.prototype.splice`; arrays written at any index.
use inc_visage.Common.{
  ℕ, zero, suc, ◌≡◌, refl, true, false, Option, some, List, [], ◌∷◌, ◌++◌, ℤ, eqb_ℤ, eqb_ℤ_refl,
  eqb_ℤ_of_lt, ◌<ℤ◌, if◌then◌else◌, length, ap,
}

-- Control after a statement. `diverged` is only for a loop that would use up its fuel.
pub data Flow {ℓ} (S : Type ℓ) : Type ℓ where
  next : S → Flow S
  thrown : S → Flow S
  diverged : Flow S

infixl 5 ◌>>=◌
abbrev pub ◌>>=◌ {ℓ} : {S : Type ℓ} → Flow S → (S → Flow S) → Flow S
next s >>= f = f s
thrown s >>= f = thrown s
diverged >>= f = diverged

-- An array indexed by any integer, `undefined` where nothing was written.
abbrev pub Sparse {ℓ} : Type ℓ → Type ℓ
Sparse A = ℤ → Option A

module _ {ℓ} {A : Type ℓ} where
  -- `xs.splice(n, 1, x)`: the start is cut at the length, and there one past the end is appended.
  unfoldable pub splice_one : List A → ℕ → A → List A
  splice_one [] n x = x ∷ []
  splice_one (_ ∷ ys) zero x = x ∷ ys
  splice_one (y ∷ ys) (suc n) x = y ∷ splice_one ys n x

  -- `xs.splice(n, 0, x)`
  unfoldable pub splice_in : List A → ℕ → A → List A
  splice_in ys zero x = x ∷ ys
  splice_in [] (suc n) x = x ∷ []
  splice_in (y ∷ ys) (suc n) x = y ∷ splice_in ys n x

  unfoldable pub update : Sparse A → ℤ → A → Sparse A
  update f i x j = if eqb_ℤ i j then some x else f j

  pub splice_one-append :
      (xs ys : List A) (y x : A) → splice_one (xs ++ y ∷ ys) (length xs) x ≡ xs ++ x ∷ ys
  unfolding splice_one
  splice_one-append [] ys y x = refl
  splice_one-append (z ∷ xs) ys y x = ap (z ∷◌) (splice_one-append xs ys y x)

  pub splice_in-append :
      (xs ys : List A) (x : A) → splice_in (xs ++ ys) (length xs) x ≡ xs ++ x ∷ ys
  unfolding splice_in
  splice_in-append [] ys x = refl
  splice_in-append (z ∷ xs) ys x = ap (z ∷◌) (splice_in-append xs ys x)

  pub update_self : (f : Sparse A) (i : ℤ) (x : A) → update f i x i ≡ some x
  unfolding update
  update_self f i x = rw (eqb_ℤ_refl i)

  pub update_above : (f : Sparse A) (i j : ℤ) (x : A) → j <ℤ i → update f i x j ≡ f j
  unfolding update
  update_above f i j x h = rw (eqb_ℤ_of_lt j i h)

  pub update_other : (f : Sparse A) (i j : ℤ) (x : A) → eqb_ℤ i j ≡ false → update f i x j ≡ f j
  unfolding update
  update_other f i j x h = rw h

  pub update_at : (f : Sparse A) (i j : ℤ) (x : A) → eqb_ℤ i j ≡ true → update f i x j ≡ some x
  unfolding update
  update_at f i j x h = rw h
