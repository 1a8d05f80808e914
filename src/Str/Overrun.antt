-- ===== src/Str/Overrun.antt =====
-- The room that `itoa` of source/util/str.c needs, against the eleven bytes that its callers have.
use native.Mathlib.Nat.{pow-suc, pow-zero, one-le-pow}
use sugarcat.Common.{
  false, ℕ, zero, suc, ◌+◌, ◌/◌, ◌^◌, ◌≤◌, ◌<◌, ◌≡◌, ◌≢◌, ap, sym, ◌∙◌, some, length, arith, ◌==◌,
  ==_ne,
}
use sugarcat.Common.Int.{negsuc}
use sugarcat.Memory.{Memory, load8}
use sugarcat.Str.{itoa, magnitude, is_negative}
use sugarcat.Str.Bytes.{length-reverse, CStr-Bytes}
use sugarcat.Str.Digits.{low, length-low, dec_chr}
use sugarcat.Str.Length.{CStr}
use sugarcat.Str.Numbers.{numeral, sign, decimal, itoa-decimal}

low-longer : (j k n : ℕ) → 10 ^ j ≤ n → j < k → j < length (low 10 dec_chr k n)
unfolding low
low-longer j zero n big more = absurd (omega arith)
low-longer zero (suc k) n big more = ground (arith, pow-zero 10)
low-longer (suc j) (suc k) n big more =
    let ten : 10 ^ j ≤ n / 10 = omega (arith, pow-suc 10 j) in
    let ih = low-longer j k (n / 10) ten (omega arith) in
    let some_n : (n == 0) ≡ false =
      ==_ne n 0 (omega (arith, one-le-pow (suc j) 10 (omega arith))) in
    rw some_n (omega arith)

length-decimal_negative : (n : ℕ) → 10 ^ 9 ≤ n + 1 → length (decimal (negsuc n)) ≡ 11
unfolding decimal numeral sign is_negative magnitude
length-decimal_negative n big = ground (
  arith,
  low-longer 9 10 (suc n),
  length-low 10 dec_chr 10 (suc n),
  length-reverse (low 10 dec_chr 10 (suc n)),
)

magnitude-negsuc : (n : ℕ) → n + 1 < 2 ^ 31 → magnitude (negsuc n) < 2 ^ 31
unfolding magnitude
magnitude-negsuc n fits = omega arith

-- For a number of -1000000000 or less, other than the least `int`, `itoa` puts its null byte
-- eleven bytes past `str`, where `sprintf` and the consoles have eleven bytes in all.
pub itoa-past_eleven :
    (fuel n str : ℕ) (m : Memory)
    → str ≢ 0
    → 10 ^ 9 ≤ n + 1
    → n + 1 < 2 ^ 31
    → 11 < fuel
    → (m' : Memory) × (itoa fuel (negsuc n) str m ≡ some (str, m'))
      × CStr m' str (decimal (negsuc n))
      × (load8 m' (str + 11) ≡ 0)
itoa-past_eleven fuel n str m there big fits enough =
    let (m', run, printed) =
      itoa-decimal fuel (negsuc n) str m there (magnitude-negsuc n fits) enough in
    let (bytes, nn, end) = CStr-Bytes m' str (decimal (negsuc n)) printed.text in
    let at : str + length (decimal (negsuc n)) ≡ str + 11 =
      ap (λ k. str + k) (length-decimal_negative n big) in
    (m', run, printed.text, ap (load8 m') (sym at) ∙ end)
