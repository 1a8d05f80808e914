-- ===== src/Heap/Rounding.antt =====
-- The size that `kmalloc` looks for.
use native.Mathlib.Nat.{pow-suc, pow-le-pow_right}
use sugarcat.Common.{
  ℕ, suc, ◌-◌, ◌^◌, ◌≤◌, ◌<◌, ◌≡◌, ◌≢◌, ◌↔◌, ap, sym, ◌∙◌, true, false, arith, ltb, Bool-cases, inl,
  inr, ◌<<<◌, if◌then◌else◌,
}
use sugarcat.Heap.{highest_bit, is_power_of_two, round_size}
use sugarcat.Util.Bits.{idx_msb, clr_lv_msb}
use sugarcat.Util.Bits
use sugarcat.Util.Bits.Scan
use sugarcat.Util.Bits.Scan.{clr_lv_msb_lem}
use sugarcat.Heap.HighestBit.{highest_bit_of, pow-reflect, pow-below}

-- A word that is no power of two lies above its highest bit.
power_iff : (x : ℕ) → 0 < x → x < 2 ^ 32 → (is_power_of_two x ≡ true) ↔ (x ≡ clr_lv_msb x)
unfolding is_power_of_two Bits.is_power_of_two
power_iff x p h = Scan.is_power_of_two_iff x p h

-- `round_size` of at least 16.
round_size_large :
    (x : ℕ) → 16 ≤ x → round_size x ≡ (if is_power_of_two x then x else highest_bit x <<< 1)
unfolding round_size
round_size_large x large = ground arith

between_powers :
    (x e : ℕ)
    → 0 < x
    → x < 2 ^ 32
    → clr_lv_msb x ≡ 2 ^ e
    → 2 ^ e ≤ x
    → is_power_of_two x ≡ false
    → 2 ^ e ≤ x - 1
between_powers x e p h clr low not_power =
    let power = power_iff x p h in
    let other : x ≢ clr_lv_msb x = λ same. cc (power.1 same, not_power) in
    let apart : x ≢ 2 ^ e = λ same. other (same ∙ sym clr) in omega arith

-- The size that `kmalloc` looks for is the least power of two that is at least 16 and at least the
-- size asked for, which may be up to 2^31.
pub round_size_lem :
    (wanted : ℕ)
    → wanted ≤ 2 ^ 31
    → (e : ℕ) × (round_size wanted ≡ 2 ^ e)
      × (4 ≤ e)
      × (e ≤ 31)
      × (wanted ≤ 2 ^ e)
      × ((j : ℕ) → 4 ≤ j → wanted ≤ 2 ^ j → e ≤ j)
unfolding round_size
round_size_lem wanted small = elim (Bool-cases (ltb wanted 16)) [
  | inl less ↦ (4, ground arith, omega arith, omega arith, ground arith, λ j four h. four)
  | inr more ↦
      let large : 16 ≤ wanted = ground arith in
      let (e, idx, clr, low, high) = clr_lv_msb_lem wanted (omega arith) (omega arith) in
      let top = highest_bit_of wanted e low high (pow-below e 32 wanted low (omega arith)) in
      let least = pow-below 4 (suc e) wanted (omega arith) (omega (arith, pow-suc 2 e)) in
      elim (Bool-cases (is_power_of_two wanted)) [
        | inl power ↦
            let is : wanted ≡ 2 ^ e =
              (power_iff wanted (omega arith) (omega arith)).0 power ∙ clr in
            (
              e,
              round_size_large wanted large ∙ rw power is,
              omega arith,
              omega (arith, pow-below e 32 wanted low (omega arith)),
              omega arith,
              λ j four h. pow-reflect e j (omega arith),
            )
        | inr between ↦
            let below = between_powers wanted e (omega arith) (omega arith) clr low between in
            let small_e = pow-below e 31 (wanted - 1) below (omega arith) in
            (
              suc e,
              round_size_large wanted large ∙ rw (between, top) (omega (arith, pow-suc 2 e)),
              omega arith,
              omega arith,
              omega (arith, pow-suc 2 e),
              λ j four h. pow-below e j (wanted - 1) below (omega arith),
            )
      ]
]

-- Of a size above 2^31 that is not a power of two, the shift loses the only bit: `kmalloc` looks for
-- a chunk of no bytes.
pub round_size_high : (wanted : ℕ) → 2 ^ 31 < wanted → wanted < 2 ^ 32 → round_size wanted ≡ 0
round_size_high wanted large word =
    let (e, idx, clr, low, high) = clr_lv_msb_lem wanted (omega arith) word in
    let small = pow-below e 32 wanted low word in
    let top = highest_bit_of wanted e low high small in
    let wide : 2 ^ 31 ≤ 2 ^ e =
      pow-le-pow_right {n = 2} (omega arith) {i = 31}
        (omega (arith, pow-below 31 (suc e) wanted (omega arith) (omega (arith, pow-suc 2 e)))) in
    let e31 : 31 ≡ e =
      omega (arith, pow-below 31 (suc e) wanted (omega arith) (omega (arith, pow-suc 2 e))) in
    let clr31 : clr_lv_msb wanted ≡ 2 ^ 31 = clr ∙ ap (λ (t : ℕ). 2 ^ t) (sym e31) in
    let not_power : is_power_of_two wanted ≡ false = elim (Bool-cases (is_power_of_two wanted)) [
      | inl power ↦ absurd (omega (arith, (power_iff wanted (omega arith) word).0 power, clr31))
      | inr not_one ↦ not_one
    ] in
    round_size_large wanted (omega arith) ∙ rw (not_power, top) (omega arith)
