-- ===== src/Common/Word/Mask.antt =====
-- Masks and disjoint fields as arithmetic, for every width.
use Prim.Native.Nat.{ℕ, zero, suc, ◌+◌, ◌-◌, ◌*◌, ◌/◌, ◌%◌, ◌^◌, ◌≤◌, ◌<◌, bit_and, bit_or}
use mathlib.Core.Path.{◌≡◌, refl, sym, ap, subst, ◌∙◌}
use native.Mathlib.Omega.{arith}
use native.Mathlib.Nat.{pow-suc, one-le-pow, add-zero, add-suc, mod-eq_of_lt, div-mul-le_self}
use sugarcat.Common.Word.Step.{bit_and_step, bit_or_step}

or_zero_fuel : (n a : ℕ) → a ≤ n → bit_or a 0 ≡ a
or_zero_fuel n zero h = refl
or_zero_fuel zero (suc a) h = absurd (omega arith)
or_zero_fuel (suc n) (suc a) h =
    omega (arith, bit_or_step (suc a) 0, or_zero_fuel n (suc a / 2) (omega arith))

pub bit_or-zero : (a : ℕ) → bit_or a 0 ≡ a
bit_or-zero a = or_zero_fuel a a (omega arith)

and_zero_fuel : (n a : ℕ) → a ≤ n → bit_and a 0 ≡ 0
and_zero_fuel n zero h = refl
and_zero_fuel zero (suc a) h = absurd (omega arith)
and_zero_fuel (suc n) (suc a) h =
    omega (arith, bit_and_step (suc a) 0, and_zero_fuel n (suc a / 2) (omega arith))

pub bit_and-zero : (a : ℕ) → bit_and a 0 ≡ 0
bit_and-zero a = and_zero_fuel a a (omega arith)

twice_shifted : (q k : ℕ) → q * 2 ^ suc k ≡ 2 * (q * 2 ^ k)
twice_shifted q k = omega (arith, ap (λ (t : ℕ). q * t) (pow-suc 2 k))

or_fuel : (n a b : ℕ) → a ≤ n → a ≤ bit_or a b
or_fuel n zero b h = omega arith
or_fuel zero (suc a) b h = absurd (omega arith)
or_fuel (suc n) (suc a) b h =
    omega (arith, bit_or_step (suc a) b, or_fuel n (suc a / 2) (b / 2) (omega arith))

pub le-bit_or : (a b : ℕ) → a ≤ bit_or a b
le-bit_or a b = or_fuel a a b (omega arith)

-- `|` of a field above bit `k` and one below it is their sum.
pub bit_or_disjoint : (k q r : ℕ) → r < 2 ^ k → bit_or (q * 2 ^ k) r ≡ q * 2 ^ k + r
bit_or_disjoint zero q r fits = ground (arith, bit_or-zero q)
bit_or_disjoint (suc k) q r fits = ground (
  arith,
  bit_or_step (q * 2 ^ suc k) r,
  twice_shifted q k,
  bit_or_disjoint k q (r / 2) (omega arith),
)

-- `&` with a mask whose `k` low bits are clear looks only at the bits above them.
pub bit_and_above :
    (k q r m : ℕ) → r < 2 ^ k → bit_and (q * 2 ^ k + r) (m * 2 ^ k) ≡ bit_and q m * 2 ^ k
bit_and_above zero q r m fits = let e : r ≡ 0 = omega arith in rw e (ground arith)
bit_and_above (suc k) q r m fits = ground (
  arith,
  bit_and_step (q * 2 ^ suc k + r) (m * 2 ^ suc k),
  twice_shifted q k,
  twice_shifted m k,
  twice_shifted (bit_and q m) k,
  bit_and_above k q (r / 2) m (omega arith),
)

and_low_parts : (k q r : ℕ) → r < 2 ^ k → bit_and (q * 2 ^ k + r) (2 ^ k - 1) ≡ r
and_low_parts zero q r fits = rw bit_and-zero (omega arith)
and_low_parts (suc k) q r fits = ground (
  arith,
  bit_and_step (q * 2 ^ suc k + r) (2 ^ suc k - 1),
  twice_shifted q k,
  pow-suc 2 k,
  one-le-pow k 2,
  and_low_parts k q (r / 2) (omega arith),
)

split_at : (k a : ℕ) → (a ≡ a / 2 ^ k * 2 ^ k + a % 2 ^ k) × (a % 2 ^ k < 2 ^ k)
split_at k a = (grind (arith, one-le-pow k 2), grind (arith, one-le-pow k 2))

-- `&` with a mask of `k` low bits leaves the remainder.
pub bit_and_low : (k a : ℕ) → bit_and a (2 ^ k - 1) ≡ a % 2 ^ k
bit_and_low k a =
    let (e, fits) = split_at k a in
    subst (λ t. bit_and t (2 ^ k - 1) ≡ a % 2 ^ k) (sym e)
      (and_low_parts k (a / 2 ^ k) (a % 2 ^ k) fits)

-- `&` with `n` bits from bit `k` on keeps that field in place.
pub bit_and_field : (n k a : ℕ) → bit_and a ((2 ^ n - 1) * 2 ^ k) ≡ a / 2 ^ k % 2 ^ n * 2 ^ k
bit_and_field n k a =
    let (e, fits) = split_at k a in
    subst (λ t. bit_and t ((2 ^ n - 1) * 2 ^ k) ≡ a / 2 ^ k % 2 ^ n * 2 ^ k) (sym e)
      (bit_and_above k (a / 2 ^ k) (a % 2 ^ k) (2 ^ n - 1) fits
        ∙ ap (λ (t : ℕ). t * 2 ^ k) (bit_and_low n (a / 2 ^ k)))

-- `|` of two numbers whose `k` low bits are clear.
pub bit_or_above : (k q p : ℕ) → bit_or (q * 2 ^ k) (p * 2 ^ k) ≡ bit_or q p * 2 ^ k
bit_or_above zero q p = ground arith
bit_or_above (suc k) q p = ground (
  arith,
  bit_or_step (q * 2 ^ suc k) (p * 2 ^ suc k),
  twice_shifted q k,
  twice_shifted p k,
  twice_shifted (bit_or q p) k,
  bit_or_above k q p,
)

-- `|` with a number of `k` bits stays within the `k` low bits.
pub bit_or_below :
    (k q r f : ℕ)
    → r < 2 ^ k
    → f < 2 ^ k
    → (bit_or (q * 2 ^ k + r) f ≡ q * 2 ^ k + bit_or r f) × (bit_or r f < 2 ^ k)
bit_or_below zero q r f hr hf =
    let er : r ≡ 0 = omega arith in
    let ef : f ≡ 0 = omega arith in
    rw (er, ef) (ground (arith, bit_or-zero q, bit_or-zero (q * 1 + 0), bit_or-zero 0))
bit_or_below (suc k) q r f hr hf = ground (
  arith,
  bit_or_step (q * 2 ^ suc k + r) f,
  bit_or_step r f,
  twice_shifted q k,
  pow-suc 2 k,
  bit_or_below k q (r / 2) (f / 2),
)

pub pow-add : (a b : ℕ) → 2 ^ (a + b) ≡ 2 ^ a * 2 ^ b
pow-add a zero = ground (arith, add-zero a)
pow-add a (suc b) = grind (arith, pow-suc 2 (a + b), pow-suc 2 b, pow-add a b, add-suc a b)

less_one : (x y : ℕ) → 1 ≤ x → 1 ≤ y → x * y - 1 - (y - 1) ≡ (x - 1) * y
less_one zero y hx hy = absurd (omega arith)
less_one (suc x) y hx hy = let e : suc x - 1 ≡ x = omega arith in rw e (omega arith)

not_low_mask : (j k : ℕ) → 2 ^ j * 2 ^ k - 1 - (2 ^ k - 1) ≡ (2 ^ j - 1) * 2 ^ k
not_low_mask j k =
    less_one (2 ^ j) (2 ^ k) (one-le-pow j 2 (omega arith)) (one-le-pow k 2 (omega arith))

not_low_parts :
    (j k a : ℕ)
    → a < 2 ^ j * 2 ^ k
    → bit_and a (2 ^ j * 2 ^ k - 1 - (2 ^ k - 1)) ≡ a / 2 ^ k * 2 ^ k
not_low_parts j k a fits = rw (not_low_mask j k) (
    bit_and_field j k a
    ∙ ap (λ (t : ℕ). t * 2 ^ k)
        (mod-eq_of_lt (grind (arith, one-le-pow k 2, div-mul-le_self a (2 ^ k)))))

-- `& ~((1 << k) - 1)` of a 32-bit word clears its `k` low bits.
pub bit_and_not_low :
    (k a : ℕ) → k ≤ 32 → a < 2 ^ 32 → bit_and a (2 ^ 32 - 1 - (2 ^ k - 1)) ≡ a / 2 ^ k * 2 ^ k
bit_and_not_low k a small fits =
    subst (λ t. a < t → bit_and a (t - 1 - (2 ^ k - 1)) ≡ a / 2 ^ k * 2 ^ k)
      (sym (pow-add (32 - k) k) ∙ ap (λ (t : ℕ). 2 ^ t) back) (not_low_parts (32 - k) k a) fits
  where
    back : 32 - k + k ≡ 32
    back = omega arith

-- `&` works apart on the parts above and below bit `k`.
pub bit_and_split :
    (k q r m s : ℕ)
    → r < 2 ^ k
    → s < 2 ^ k
    → bit_and (q * 2 ^ k + r) (m * 2 ^ k + s) ≡ bit_and q m * 2 ^ k + bit_and r s
bit_and_split zero q r m s hr hs =
    let er : r ≡ 0 = omega arith in
    let es : s ≡ 0 = omega arith in
    rw (er, es) (ground (arith, bit_and-zero 0, bit_and_above 0 q 0 m))
bit_and_split (suc k) q r m s hr hs = ground (
  arith,
  bit_and_step (q * 2 ^ suc k + r) (m * 2 ^ suc k + s),
  bit_and_step r s,
  twice_shifted q k,
  twice_shifted m k,
  twice_shifted (bit_and q m) k,
  bit_and_split k q (r / 2) m (s / 2),
)

-- So does `|`.
pub bit_or_split :
    (k q r m s : ℕ)
    → r < 2 ^ k
    → s < 2 ^ k
    → bit_or (q * 2 ^ k + r) (m * 2 ^ k + s) ≡ bit_or q m * 2 ^ k + bit_or r s
bit_or_split zero q r m s hr hs =
    let er : r ≡ 0 = omega arith in
    let es : s ≡ 0 = omega arith in
    rw (er, es)
      (ground (arith, bit_or-zero 0, bit_or_above 0 q m, add-zero (q * 1), add-zero (m * 1)))
bit_or_split (suc k) q r m s hr hs = ground (
  arith,
  bit_or_step (q * 2 ^ suc k + r) (m * 2 ^ suc k + s),
  bit_or_step r s,
  twice_shifted q k,
  twice_shifted m k,
  twice_shifted (bit_or q m) k,
  bit_or_split k q (r / 2) m (s / 2),
)
