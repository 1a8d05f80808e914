-- ===== src/Str/RoundTrip.antt =====
-- `atoi` after `itoa`, of source/util/str.c.
use Prim.{Unit, tt}
use mathlib.Core.List.{reverse, reverse-cons}
use native.Mathlib.Nat.{pow-suc, pow-zero, div-lt_iff_lt-mul}
use sugarcat.Common.{
  ℕ, zero, suc, ◌+◌, ◌-◌, ◌*◌, ◌/◌, ◌%◌, ◌^◌, ◌≤◌, ◌<◌, ◌≡◌, ◌≢◌, refl, ap, ◌∙◌, inl, inr, subst,
  true, false, some, List, [], ◌∷◌, ◌++◌, length, arith, leb, ◌==◌, ◌&&◌, Bool-cases, ==_ne, ◌>>=◌,
}
use sugarcat.Common.Int.{ℤ, pos, negsuc, neg}
use sugarcat.Memory.{Memory, load8}
use sugarcat.Str.{itoa, atoi, atoi_loop, magnitude, is_negative}
use sugarcat.Str.Bytes.{length-reverse}
use sugarcat.Str.Length.{CStr}
use sugarcat.Str.Digits.{low, length-low, dec_chr}
use sugarcat.Str.Numbers.{decimal, numeral, sign, itoa-decimal}

-- The number that `atoi_loop` makes of digits, after `ret`.
unfoldable value : ℕ → List ℕ → ℕ
value ret [] = ret
value ret (c ∷ cs) = value (ret * 10 + (c - b'0')) cs

abbrev Decimals : List ℕ → Type 0
Decimals [] = Unit
Decimals (c ∷ cs) = (b'0' ≤ c) × (c ≤ b'9') × Decimals cs

Decimals-append : (xs ys : List ℕ) → Decimals xs → Decimals ys → Decimals (xs ++ ys)
Decimals-append [] ys x y = y
Decimals-append (c ∷ cs) ys (from, upto, x) y = (from, upto, Decimals-append cs ys x y)

value-append : (ret : ℕ) (xs ys : List ℕ) → value ret (xs ++ ys) ≡ value (value ret xs) ys
unfolding value
value-append ret [] ys = refl
value-append ret (c ∷ cs) ys = value-append (ret * 10 + (c - b'0')) cs ys

atoi_loop-value :
    (fuel : ℕ) (m : Memory) (str ret : ℕ) (xs : List ℕ)
    → CStr m str xs
    → Decimals xs
    → length xs < fuel
    → atoi_loop fuel m str ret ≡ some (value ret xs)
unfolding atoi_loop value
atoi_loop-value zero m str ret xs s d enough = absurd (omega arith)
atoi_loop-value (suc fuel) m str ret [] s d enough = ground arith
atoi_loop-value (suc fuel) m str ret (c ∷ cs) (here, some_c, s) (from, upto, d) enough =
    let more : (c == 0) ≡ false = ground arith in
    let digit : (leb b'0' c && leb c b'9') ≡ true = ground arith in
    rw (here, more, digit)
      (atoi_loop-value fuel m (str + 1) (ret * 10 + (c - b'0')) cs s d (omega arith))

low-Decimals : (k n : ℕ) → Decimals (reverse (low 10 dec_chr k n))
unfolding low
low-Decimals zero n = tt
low-Decimals (suc k) n = elim (Bool-cases (n == 0)) [
  | inl none_left ↦ rw none_left tt
  | inr some_left ↦
      let ds = low 10 dec_chr k (n / 10) in
      let c = dec_chr (n % 10) in
      rw (some_left, reverse-cons c ds)
        (Decimals-append (reverse ds) (c ∷ []) (low-Decimals k (n / 10))
          (omega arith, omega arith, tt))
]

low-value : (k n : ℕ) → n < 10 ^ k → value 0 (reverse (low 10 dec_chr k n)) ≡ n
unfolding low value
low-value zero n fits = omega (arith, pow-zero 10)
low-value (suc k) n fits = elim (Bool-cases (n == 0)) [
  | inl none_left ↦ rw none_left (ground arith)
  | inr some_left ↦
      let ds = low 10 dec_chr k (n / 10) in
      let c = dec_chr (n % 10) in
      let less : n / 10 < 10 ^ k =
        (div-lt_iff_lt-mul (omega arith)).1 (subst (λ b. n < b) (pow-suc 10 k) fits) in
      rw
        (
          some_left,
          reverse-cons c ds,
          value-append 0 (reverse ds) (c ∷ []),
          low-value k (n / 10) less,
        )
        (omega arith)
]

numeral-Decimals : (n : ℕ) → Decimals (numeral 10 dec_chr n)
unfolding numeral
numeral-Decimals n = elim (Bool-cases (n == 0)) [
  | inl none_left ↦ rw none_left (omega arith, omega arith, tt)
  | inr some_left ↦ rw some_left (low-Decimals 10 n)
]

numeral-value : (n : ℕ) → n < 10 ^ 10 → value 0 (numeral 10 dec_chr n) ≡ n
unfolding numeral value
numeral-value n fits = elim (Bool-cases (n == 0)) [
  | inl none_left ↦ rw none_left (ground arith)
  | inr some_left ↦ rw some_left (low-value 10 n fits)
]

-- `atoi` of a number's digits, the sign apart.
atoi-numeral :
    (fuel n str : ℕ) (m : Memory)
    → n < 10 ^ 10
    → CStr m str (numeral 10 dec_chr n)
    → length (numeral 10 dec_chr n) < fuel
    → atoi_loop fuel m str 0 ≡ some n
atoi-numeral fuel n str m fits s enough =
    atoi_loop-value fuel m str 0 (numeral 10 dec_chr n) s (numeral-Decimals n) enough
    ∙ ap some (numeral-value n fits)

first-digit :
    (m : Memory) (str : ℕ) (xs : List ℕ)
    → CStr m str xs
    → Decimals xs
    → (load8 m str == b'-') ≡ false
first-digit m str [] s d = ground arith
first-digit m str (c ∷ cs) (here, some_c, s) (from, upto, d) = ground arith

length-numeral : (n : ℕ) → length (numeral 10 dec_chr n) ≤ 10
unfolding numeral
length-numeral n = ground (arith, length-reverse (low 10 dec_chr 10 n), length-low 10 dec_chr 10 n)

neg-negsuc : (n : ℕ) → neg (pos (suc n)) ≡ negsuc n
neg-negsuc n = ground arith

atoi-decimal :
    (fuel : ℕ) (val : ℤ) (str : ℕ) (m : Memory)
    → str ≢ 0
    → magnitude val < 10 ^ 10
    → 11 < fuel
    → CStr m str (decimal val)
    → atoi fuel m str ≡ some val
unfolding atoi decimal sign is_negative magnitude
atoi-decimal fuel (pos n) str m there fits enough s =
    let plain = first-digit m str (numeral 10 dec_chr n) s (numeral-Decimals n) in
    let short = length-numeral n in
    rw (==_ne str 0 there, plain, atoi-numeral fuel n str m fits s (omega arith)) refl
atoi-decimal fuel (negsuc n) str m there fits enough (here, some_c, s) =
    let short = length-numeral (suc n) in
    rw (==_ne str 0 there, here, atoi-numeral fuel (suc n) (str + 1) m fits s (omega arith))
      (ap some (neg-negsuc n))

-- `atoi` reads back what `itoa` writes, for every `int` but the least.
pub atoi-itoa :
    (fuel : ℕ) (val : ℤ) (str : ℕ) (m : Memory)
    → str ≢ 0
    → magnitude val < 2 ^ 31
    → 11 < fuel
    → (itoa fuel val str m >>= λ (p, m'). atoi fuel m' p) ≡ some val
atoi-itoa fuel val str m there fits enough =
    let (m', run, printed) = itoa-decimal fuel val str m there fits enough in
    rw run (atoi-decimal fuel val str m' there (omega arith) enough printed.text)
