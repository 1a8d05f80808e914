-- ===== src/Str/Digits.antt =====
-- The digits of a number, and the loops of source/util/str.c that write them.
use Prim.{tt}
use native.Mathlib.Nat.{pow-suc, pow-zero, add-zero, div-lt_iff_lt-mul, mod-lt}
use sugarcat.Common.{
  true, ℕ, zero, suc, ◌+◌, ◌/◌, ◌%◌, ◌^◌, ◌≤◌, ◌<◌, ◌≡◌, ◌⊎◌, inl, inr, refl, ap, sym, ◌∙◌, subst,
  Option, none, some, List, [], ◌∷◌, length, arith, bit_and, ltb, ◌==◌, if◌then◌else◌, Bool-cases,
}
use sugarcat.Common.Word.Mask.{bit_and_low}
use sugarcat.Memory.{Memory, load8, store8}
use sugarcat.Memory.Laws.{load8-store8, load8-store8_ne}
use sugarcat.Str.{itoa_loop, itox_loop, hex_digit}
use sugarcat.Str.Bytes.{Bytes, NoNull}

-- At most `k` digits of `n` to a base, lowest first, as characters.
unfoldable pub low : (base : ℕ) → (ℕ → ℕ) → (k n : ℕ) → List ℕ
low base chr zero n = []
low base chr (suc k) n =
    let rest = low base chr k (n / base) in if n == 0 then [] else chr (n % base) ∷ rest

-- The loop that `itoa` and `itox` share.
unfoldable pub write_loop :
    (base : ℕ) → (ℕ → ℕ) → ℕ → (val str offset : ℕ) → Memory → Option (ℕ × Memory)
write_loop base chr zero val str offset m = none
write_loop base chr (suc fuel) val str offset m =
    let rest =
      write_loop base chr fuel (val / base) str (offset + 1)
        (store8 m (str + offset) (chr (val % base))) in
    if ltb 0 val then rest else some (offset, m)

abbrev pub dec_chr : ℕ → ℕ
dec_chr d = 48 + d

pub itoa_loop-write_loop :
    (fuel val str offset : ℕ) (m : Memory)
    → itoa_loop fuel val str offset m ≡ write_loop 10 dec_chr fuel val str offset m
unfolding itoa_loop write_loop
itoa_loop-write_loop zero val str offset m = refl
itoa_loop-write_loop (suc fuel) val str offset m =
    rw
      (itoa_loop-write_loop fuel (val / 10) str (offset + 1)
        (store8 m (str + offset) (48 + val % 10)))
      refl

pub itox_loop-write_loop :
    (fuel val str offset : ℕ) (m : Memory)
    → itox_loop fuel val str offset m ≡ write_loop 16 hex_digit fuel val str offset m
unfolding itox_loop write_loop
itox_loop-write_loop zero val str offset m = refl
itox_loop-write_loop (suc fuel) val str offset m =
    let digit : bit_and val 15 ≡ val % 16 = bit_and_low 4 val in
    rw
      (
        digit,
        itox_loop-write_loop fuel (val / 16) str (offset + 1)
            (store8 m (str + offset) (hex_digit (val % 16))),
      )
      refl

-- What holds of the memory after the digits `ds` were written at `p`.
pub record Written (m m' : Memory) (p : ℕ) (ds : List ℕ) : Type 0 where
  pub bytes : Bytes m' p ds
  pub same : (a : ℕ) → (a < p) ⊎ (p + length ds ≤ a) → load8 m' a ≡ load8 m a

pub Written-nil : (m : Memory) (p : ℕ) → Written m m p []
Written-nil m p = record { bytes = tt; same = λ a out. refl }

pub Written-cons :
    (m m' : Memory) (p c : ℕ) (ds : List ℕ)
    → c < 256
    → Written (store8 m p c) m' (p + 1) ds
    → Written m m' p (c ∷ ds)
Written-cons m m' p c ds byte w = record {
  bytes = (w.same p (inl (omega arith)) ∙ load8-store8 m p c byte, w.bytes);
  same = λ a out. w.same a (omega arith) ∙ load8-store8_ne m p a c (omega arith);
}

-- Only the characters of digits matter.
pub low-chr :
    (base : ℕ) (f g : ℕ → ℕ)
    → 0 < base
    → ((d : ℕ) → d < base → f d ≡ g d)
    → (k val : ℕ) → low base f k val ≡ low base g k val
unfolding low
low-chr base f g some_base same zero val = refl
low-chr base f g some_base same (suc k) val =
    rw (same (val % base) (mod-lt val some_base), low-chr base f g some_base same k (val / base))
      refl

pub length-low : (base : ℕ) (chr : ℕ → ℕ) (k val : ℕ) → length (low base chr k val) ≤ k
unfolding low
length-low base chr zero val = omega arith
length-low base chr (suc k) val = ground (arith, length-low base chr k (val / base))

module _ (base : ℕ) (chr : ℕ → ℕ) (big : 1 < base) (byte : (d : ℕ) → d < base → chr d < 256) where
  low-zero : (k : ℕ) → low base chr k 0 ≡ []
  unfolding low
  low-zero zero = refl
  low-zero (suc k) = refl

  pub write_loop-low :
      (fuel k val str offset : ℕ) (m : Memory)
      → val < base ^ k
      → k < fuel
      → (m' : Memory) × (write_loop base chr fuel val str offset m
          ≡ some (offset + length (low base chr k val), m'))
        × Written m m' (str + offset) (low base chr k val)
  unfolding write_loop low
  write_loop-low zero k val str offset m fits enough = absurd (omega arith)
  write_loop-low (suc fuel) zero val str offset m fits enough =
      let is : val ≡ 0 = omega (arith, pow-zero base) in
      (m, rw is (ap (λ (o : ℕ). some (o, m)) (sym (add-zero offset))), Written-nil m (str + offset))
  write_loop-low (suc fuel) (suc k) val str offset m fits enough = elim (Bool-cases (val == 0)) [
    | inl none_left ↦
        let is : val ≡ 0 = ground arith in
        (
          m,
          rw is (ap (λ (o : ℕ). some (o, m)) (sym (add-zero offset))),
          rw is (Written-nil m (str + offset)),
        )
    | inr some_left ↦
        let positive : ltb 0 val ≡ true = ground arith in
        let c = chr (val % base) in
        let ds = low base chr k (val / base) in
        let less : val / base < base ^ k =
          (div-lt_iff_lt-mul (omega arith)).1 (subst (λ b. val < b) (pow-suc base k) fits) in
        let (m', is, w) =
          write_loop-low fuel k (val / base) str (offset + 1) (store8 m (str + offset) c) less
            (omega arith) in
        let past : offset + 1 + length ds ≡ offset + suc (length ds) = omega arith in
        (
          m',
          rw (positive, some_left, is) (ap (λ (o : ℕ). some (o, m')) past),
          rw some_left (
              Written-cons m m' (str + offset) c ds (byte (val % base) (mod-lt val (omega arith)))
                (subst (λ p. Written (store8 m (str + offset) c) m' p ds) (omega arith) w)),
        )
  ]

  pub low-some : (k val : ℕ) → 0 < val → val < base ^ k → 0 < length (low base chr k val)
  unfolding low
  low-some zero val some_val fits = absurd (omega (arith, pow-zero base))
  low-some (suc k) val some_val fits = ground arith

  pub low-NoNull : ((d : ℕ) → d < base → 0 < chr d) → (k val : ℕ) → NoNull (low base chr k val)
  unfolding low
  low-NoNull some_chr zero val = tt
  low-NoNull some_chr (suc k) val = elim (Bool-cases (val == 0)) [
    | inl none_left ↦ rw none_left tt
    | inr some_left ↦
        let first : 0 < chr (val % base) = some_chr (val % base) (mod-lt val (omega arith)) in
        rw some_left (first, low-NoNull some_chr k (val / base))
  ]
