-- ===== src/Common/Tests.antt =====
-- Boolean tests on the native numbers, the conditional, and lists under the native length.
use Prim.Native.Nat.{ℕ, zero, suc, ◌+◌, ◌<◌, compare, Ordering}
use mathlib.Core.Path.{◌≡◌, refl}
use mathlib.Core.Logic.{◌⊎◌, inl, inr}
use mathlib.Core.Bool.{Bool, true, false}
use mathlib.Core.List.{List, [], ◌∷◌, ◌++◌}
use native.Mathlib.Omega.{arith}

abbrev pub ltb : ℕ → ℕ → Bool
ltb a b = elim (compare a b) [ Ordering.lt ↦ true | _ ↦ false ]

abbrev pub leb : ℕ → ℕ → Bool
leb a b = elim (compare a b) [ Ordering.gt ↦ false | _ ↦ true ]

infix 50 ◌==◌
abbrev pub ◌==◌ : ℕ → ℕ → Bool
a == b = elim (compare a b) [ Ordering.eq ↦ true | _ ↦ false ]

infix 1 if◌then◌else◌
abbrev pub if◌then◌else◌ {ℓ} : {A : Type ℓ} → Bool → A → A → A
if true then x else y = x
if false then x else y = y

pub ==_refl : (a : ℕ) → (a == a) ≡ true
==_refl a = ground arith

pub ==_ne : (a b : ℕ) → (a ≡ b → ⊥) → (a == b) ≡ false
==_ne a b h = ground arith

-- To split on a computed value and keep the equation.
pub Bool-cases : (b : Bool) → (b ≡ true) ⊎ (b ≡ false)
Bool-cases true = inl refl
Bool-cases false = inr refl

module _ {ℓ} {A : Type ℓ} where
  abbrev pub length : List A → ℕ
  length [] = 0
  length (x ∷ xs) = suc (length xs)

  pub length-append : (xs ys : List A) → length (xs ++ ys) ≡ length xs + length ys
  length-append [] ys = omega arith
  length-append (x ∷ xs) ys = omega (arith, length-append xs ys)

-- The values of a three-bit field, one by one.
pub below_eight {ℓ} :
    (P : ℕ → Type ℓ) → P 0 → P 1 → P 2 → P 3 → P 4 → P 5 → P 6 → P 7 → (n : ℕ) → n < 8 → P n
below_eight P a b c d e f g h zero lt = a
below_eight P a b c d e f g h (suc zero) lt = b
below_eight P a b c d e f g h (suc (suc zero)) lt = c
below_eight P a b c d e f g h (suc (suc (suc zero))) lt = d
below_eight P a b c d e f g h (suc (suc (suc (suc zero)))) lt = e
below_eight P a b c d e f g h (suc (suc (suc (suc (suc zero))))) lt = f
below_eight P a b c d e f g h (suc (suc (suc (suc (suc (suc zero)))))) lt = g
below_eight P a b c d e f g h (suc (suc (suc (suc (suc (suc (suc zero))))))) lt = h
below_eight P a b c d e f g h (suc (suc (suc (suc (suc (suc (suc (suc n)))))))) lt =
    absurd (omega arith)
