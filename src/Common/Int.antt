-- ===== src/Common/Int.antt =====
-- Signed integers over the native numbers, under the library's names (its ℤ stands on the unary
-- ℕ). Sums and orders go through the two parts of an integer, which are numbers.
use Prim.Native.Nat.{ℕ, suc, ◌+◌, ◌-◌, ◌*◌, ◌≤◌, ◌<◌}
use mathlib.Core.Path.{◌≡◌}
use mathlib.Core.Bool.{Bool, true, false}
use native.Mathlib.Omega.{arith}
use inc_visage.Common.Tests.{ltb, leb, ◌==◌, if◌then◌else◌}

-- `negsuc n` is -(n + 1).
pub data ℤ : Type 0 where
  pos : ℕ → ℤ
  negsuc : ℕ → ℤ

abbrev pub pos_part : ℤ → ℕ
pos_part (pos n) = n
pos_part (negsuc n) = 0

abbrev pub neg_part : ℤ → ℕ
neg_part (pos n) = 0
neg_part (negsuc n) = suc n

abbrev sub_ℕ : ℕ → ℕ → ℤ
sub_ℕ a b = if leb b a then pos (a - b) else negsuc (b - a - 1)

infixl 65 ◌+ℤ◌ ◌-ℤ◌
infix 50 ◌≤ℤ◌ ◌<ℤ◌
unfoldable pub ◌+ℤ◌ : ℤ → ℤ → ℤ
a +ℤ b = sub_ℕ (pos_part a + pos_part b) (neg_part a + neg_part b)

unfoldable pub ◌-ℤ◌ : ℤ → ℤ → ℤ
a -ℤ b = sub_ℕ (pos_part a + neg_part b) (neg_part a + pos_part b)

infixl 70 ◌*ℤ◌
unfoldable pub ◌*ℤ◌ : ℤ → ℤ → ℤ
a *ℤ b =
    sub_ℕ (pos_part a * pos_part b + neg_part a * neg_part b)
      (pos_part a * neg_part b + neg_part a * pos_part b)

-- `i++` and `i--`
unfoldable pub inc : ℤ → ℤ
unfolding ◌+ℤ◌
inc a = a +ℤ pos 1

unfoldable pub dec : ℤ → ℤ
unfolding ◌-ℤ◌
dec a = a -ℤ pos 1

abbrev pub ◌≤ℤ◌ : ℤ → ℤ → Type 0
a ≤ℤ b = pos_part a + neg_part b ≤ pos_part b + neg_part a

abbrev pub ◌<ℤ◌ : ℤ → ℤ → Type 0
a <ℤ b = pos_part a + neg_part b < pos_part b + neg_part a

abbrev pub ltb_ℤ : ℤ → ℤ → Bool
ltb_ℤ a b = ltb (pos_part a + neg_part b) (pos_part b + neg_part a)

abbrev pub leb_ℤ : ℤ → ℤ → Bool
leb_ℤ a b = leb (pos_part a + neg_part b) (pos_part b + neg_part a)

abbrev pub eqb_ℤ : ℤ → ℤ → Bool
eqb_ℤ a b = (pos_part a + neg_part b) == (pos_part b + neg_part a)

pub inc_parts : (a : ℤ) → pos_part (inc a) + neg_part a ≡ neg_part (inc a) + pos_part a + 1
unfolding inc
inc_parts a = ground arith

pub dec_parts : (a : ℤ) → pos_part (dec a) + neg_part a + 1 ≡ neg_part (dec a) + pos_part a
unfolding dec
dec_parts a = ground arith

pub -ℤ_parts :
    (a b : ℤ)
    → pos_part (a -ℤ b) + neg_part a + pos_part b ≡ neg_part (a -ℤ b) + pos_part a + neg_part b
unfolding ◌-ℤ◌
-ℤ_parts a b = ground arith

pub +ℤ_parts :
    (a b : ℤ)
    → pos_part (a +ℤ b) + neg_part a + neg_part b ≡ neg_part (a +ℤ b) + pos_part a + pos_part b
unfolding ◌+ℤ◌
+ℤ_parts a b = ground arith

pub eq_of_parts : (a b : ℤ) → pos_part a + neg_part b ≡ pos_part b + neg_part a → a ≡ b
eq_of_parts a b h = ground arith

pub ruleset int_laws = (arith, inc_parts, dec_parts, +ℤ_parts, -ℤ_parts, eq_of_parts)

pub dec-inc : (a : ℤ) → dec (inc a) ≡ a
dec-inc a = omega int_laws

pub inc-dec : (a : ℤ) → inc (dec a) ≡ a
inc-dec a = omega int_laws

pub eqb_ℤ_refl : (a : ℤ) → eqb_ℤ a a ≡ true
eqb_ℤ_refl a = ground arith

pub eqb_ℤ_of_lt : (a b : ℤ) → a <ℤ b → eqb_ℤ b a ≡ false
eqb_ℤ_of_lt a b h = ground arith

pub inc_+ℤ : (i : ℤ) (n : ℕ) → inc i +ℤ pos n ≡ i +ℤ pos (suc n)
inc_+ℤ i n =
    eq_of_parts (inc i +ℤ pos n) (i +ℤ pos (suc n))
      (omega (arith, +ℤ_parts (inc i) (pos n), +ℤ_parts i (pos (suc n)), inc_parts i))
