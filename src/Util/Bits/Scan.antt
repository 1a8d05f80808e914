-- ===== src/Util/Bits/Scan.antt =====
-- Bit scans and powers of two.
use native.Mathlib.Nat.{pow-suc, pow-le-pow_right, one-le-pow}
use sugarcat.Common.{
  ℕ, zero, suc, ◌+◌, ◌-◌, ◌*◌, ◌/◌, ◌%◌, ◌^◌, ◌≤◌, ◌<◌, ◌≡◌, ◌↔◌, refl, ap, ◌∙◌, true, arith,
  bit_and, ◌==◌, Bool-cases, inl, inr, ◌<<<◌,
}
use sugarcat.Common.Word.Step.{bit_and_step}
use sugarcat.Util.Bits.{
  bit_length, builtin_clz, first_set, builtin_ffs, idx_msb, idx_lsb, clr_lv_msb, clr_lv_lsb,
  is_power_of_two,
}

bit_length-zero : (f : ℕ) → bit_length f 0 ≡ 0
unfolding bit_length
bit_length-zero zero = refl
bit_length-zero (suc f) = refl

-- The highest set bit of a number that is not 0.
high_bit :
    (f x : ℕ)
    → 0 < x
    → x < 2 ^ f
    → (e : ℕ) × (bit_length f x ≡ suc e) × (2 ^ e ≤ x) × (x < 2 * 2 ^ e) × (e < f)
unfolding bit_length
high_bit zero x p h = absurd (omega arith)
high_bit (suc f) x p h = elim (Bool-cases (x / 2 == 0)) [
  | inl last ↦
      let one : x ≡ 1 = ground arith in
      rw one (0, ground (arith, bit_length-zero f), omega arith, omega arith, omega arith)
  | inr more ↦
      let (e, len, low, high, small) =
        high_bit f (x / 2) (ground arith) (omega (arith, pow-suc 2 f)) in
      (suc e, ground arith, omega (arith, pow-suc 2 e), omega (arith, pow-suc 2 e), omega arith)
]

shl_one : (e : ℕ) → e < 32 → 1 <<< e ≡ 2 ^ e
shl_one e small = omega (arith, pow-le-pow_right {n = 2} (omega arith) le31, one_lt)
  where
    le31 : e ≤ 31
    le31 = omega arith

    one_lt : 2 ^ 31 < 2 ^ 32
    one_lt = omega arith

shl_pred : (i e : ℕ) → i ≡ suc e → e < 32 → 1 <<< (i - 1) ≡ 2 ^ e
shl_pred i e h small = ap (λ (t : ℕ). 1 <<< t) less ∙ shl_one e small
  where
    less : i - 1 ≡ e
    less = omega arith

clr_msb_of : (x e : ℕ) → 0 < x → idx_msb x ≡ suc e → e < 32 → clr_lv_msb x ≡ 2 ^ e
unfolding clr_lv_msb
clr_msb_of x e p h small = ground (arith, shl_pred (idx_msb x) e h small)

clr_lsb_of : (x e : ℕ) → 0 < x → idx_lsb x ≡ suc e → e < 32 → clr_lv_lsb x ≡ 2 ^ e
unfolding clr_lv_lsb
clr_lsb_of x e p h small = ground (arith, shl_pred (idx_lsb x) e h small)

idx_msb_of : (x e : ℕ) → 0 < x → bit_length 32 x ≡ suc e → e < 32 → idx_msb x ≡ suc e
unfolding idx_msb builtin_clz
idx_msb_of x e p h small = ground arith

idx_lsb_of : (x e : ℕ) → 0 < x → first_set 32 x ≡ suc e → idx_lsb x ≡ suc e
unfolding idx_lsb builtin_ffs
idx_lsb_of x e p h = ground arith

-- `clr_lv_msb` leaves the highest set bit: a power of two that the number reaches and whose double
-- it does not; of 0 it leaves 0. `idx_msb` is that power's exponent, counted from one.
pub clr_lv_msb_lem :
    (x : ℕ)
    → 0 < x
    → x < 2 ^ 32
    → (e : ℕ) × (idx_msb x ≡ suc e) × (clr_lv_msb x ≡ 2 ^ e) × (2 ^ e ≤ x) × (x < 2 * 2 ^ e)
clr_lv_msb_lem x p h =
    let (e, len, low, high, small) = high_bit 32 x p h in
    let idx = idx_msb_of x e p len small in (e, idx, clr_msb_of x e p idx small, low, high)

-- The lowest set bit of a number that is not 0.
low_bit :
    (f x : ℕ)
    → 0 < x
    → x < 2 ^ f
    → (e : ℕ) × (first_set f x ≡ suc e) × (q : ℕ) × (x ≡ (2 * q + 1) * 2 ^ e) × (e < f)
unfolding first_set
low_bit zero x p h = absurd (omega arith)
low_bit (suc f) x p h = elim (Bool-cases (x % 2 == 1)) [
  | inl odd ↦ (0, ground arith, x / 2, ground arith, omega arith)
  | inr even ↦
      let (e, len, q, parts, small) =
        low_bit f (x / 2) (ground arith) (omega (arith, pow-suc 2 f)) in
      let ev : x % 2 ≡ 0 = ground arith in
      (
        suc e,
        ground arith,
        q,
        omega (arith, ap (λ (t : ℕ). (2 * q + 1) * t) (pow-suc 2 e)),
        omega arith,
      )
]

-- `clr_lv_lsb` leaves the lowest set bit: the power of two that an odd number times it gives the
-- number, and `idx_lsb` is its exponent, counted from one.
pub clr_lv_lsb_lem :
    (x : ℕ)
    → 0 < x
    → x < 2 ^ 32
    → (e : ℕ) × (idx_lsb x ≡ suc e) × (clr_lv_lsb x ≡ 2 ^ e) × (q : ℕ) × (x ≡ (2 * q + 1) * 2 ^ e)
clr_lv_lsb_lem x p h =
    let (e, len, q, parts, small) = low_bit 32 x p h in
    let idx = idx_lsb_of x e p len in (e, idx, clr_lsb_of x e p idx small, q, parts)

bit_and_self : (f x : ℕ) → x < 2 ^ f → bit_and x x ≡ x
bit_and_self zero x h = let e : x ≡ 0 = omega arith in rw e
bit_and_self (suc f) x h =
    omega (arith, bit_and_step x x, bit_and_self f (x / 2) (omega (arith, pow-suc 2 f)))

-- Taking one away clears the lowest set bit and sets those below it.
less_one_below :
    (f x e : ℕ)
    → 0 < x
    → x < 2 ^ f
    → 2 ^ e ≤ x
    → x < 2 * 2 ^ e
    → (bit_and x (x - 1) ≡ 0) ↔ (x ≡ 2 ^ e)
less_one_below zero x e p h low high = absurd (omega arith)
less_one_below (suc f) x zero p h low high = let one : x ≡ 1 = omega arith in rw one (ground arith)
less_one_below (suc f) x (suc e) p h low high = ground (
  arith,
  pow-suc 2 e,
  pow-suc 2 f,
  bit_and_step x (x - 1),
  bit_and_self f (x / 2),
  less_one_below f (x / 2) e (omega (arith, pow-suc 2 e, one-le-pow e 2)),
)

-- `is_power_of_two` holds of a word exactly if the word is its own highest set bit.
pub is_power_of_two_iff :
    (x : ℕ) → 0 < x → x < 2 ^ 32 → (is_power_of_two x ≡ true) ↔ (x ≡ clr_lv_msb x)
unfolding is_power_of_two
is_power_of_two_iff x p h =
    let (e, _, clr, low, high) = clr_lv_msb_lem x p h in ground (arith, clr, less_one_below 32 x e)
