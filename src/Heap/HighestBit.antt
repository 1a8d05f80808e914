-- ===== src/Heap/HighestBit.antt =====
-- `highest_bit` of test.c, which smears the highest bit down.
use native.Mathlib.Nat.{
  mod-lt, div-add-mod', div-eq_of_lt, le-div_iff_mul-le, div-lt_iff_lt-mul, pow-suc,
  pow-le-pow_right, one-le-pow,
}
use sugarcat.Common.{
  ℕ, zero, suc, ◌+◌, ◌-◌, ◌*◌, ◌/◌, ◌%◌, ◌^◌, ◌≤◌, ◌<◌, ◌≡◌, refl, ap, sym, ◌∙◌, subst, arith,
  bit_or, ltb, ◌==◌, Bool-cases, inl, inr, ◌>>>◌, sub32,
}
use sugarcat.Common.Word.Step.{bit_or_step}
use sugarcat.Common.Word.Mask.{bit_or-zero, bit_or_below, pow-add}
use sugarcat.Heap.{smear, highest_bit}
use sugarcat.Util.Bits.{clr_lv_msb}
use sugarcat.Util.Bits.Scan.{clr_lv_msb_lem}

bit_or-ge : (f a b : ℕ) → b < 2 ^ f → b ≤ bit_or a b
bit_or-ge zero a b h = omega arith
bit_or-ge (suc f) a b h =
    omega (arith, bit_or_step a b, bit_or-ge f (a / 2) (b / 2) (omega (arith, pow-suc 2 f)))

-- A number below `2 ^ n` whose `s` highest bits of `n` are set.
abbrev Top : ℕ → ℕ → ℕ → Type 0
Top n s x = (x < 2 ^ n) × (2 ^ n ≤ x + 2 ^ (n - s))

pow-positive : (n : ℕ) → 0 < 2 ^ n
pow-positive n = one-le-pow n 2 (omega arith)

-- The arithmetic of one smear: `q` of `a` blocks of `b`, and what is in the last one.
smear_blocks :
    (a b c q o : ℕ) → q + 1 ≡ a → o < b → b ≤ o + c → (q * b + o < a * b) × (a * b ≤ q * b + o + c)
smear_blocks a b c q o whole fits top =
    subst (λ a'. (q * b + o < a' * b) × (a' * b ≤ q * b + o + c)) whole (omega arith, omega arith)

less_block : (a b x : ℕ) → 0 < a → a * b ≤ x + b → (a - 1) * b ≤ x
less_block zero b x some_a h = absurd (omega arith)
less_block (suc a) b x some_a h = let pred : suc a - 1 ≡ a = omega arith in rw pred (omega arith)

-- As many blocks of `b` as `x` has, if it is short of `a` blocks by at most one.
blocks : (a b x : ℕ) → 0 < a → 0 < b → x < a * b → a * b ≤ x + b → x / b + 1 ≡ a
blocks a b x some_a some_b fits top =
    let up = (div-lt_iff_lt-mul {k = b} {x = x} {y = a} some_b).1 fits in
    let down =
      (le-div_iff_mul-le {k = b} {x = a - 1} {y = x} some_b).1 (less_block a b x some_a top) in
    omega arith

shifted_over : (d a c x : ℕ) → 0 < a → d + c ≤ c * a → (d + c) * a ≤ x + (d + c) → d ≤ x / a
shifted_over d a c x some_a cover top =
    (le-div_iff_mul-le {k = a} {x = d} {y = x} some_a).1 (omega arith)

-- What is shifted in.
shifted :
    (a b c x : ℕ) → 0 < a → b ≤ c * a → x < b * a → b * a ≤ x + b → (x / a < b) × (b ≤ x / a + c)
shifted a b c x some_a cover fits top = (
  (div-lt_iff_lt-mul {k = a} {x = x} {y = b} some_a).1 fits,
  elim (Bool-cases (ltb c b)) [
    | inl less ↦
        let back : b - c + c ≡ b = ground arith in
        let over =
          shifted_over (b - c) a c x some_a (subst (λ n. n ≤ c * a) (sym back) cover)
            (subst (λ n. n * a ≤ x + n) (sym back) top) in
        omega arith
    | inr more ↦ ground arith
  ],
)

-- A smear by `s` where the `s` highest of `k + s` bits are set.
smear_parts :
    (x s k : ℕ) → x < 2 ^ (k + s) → 2 ^ (k + s) ≤ x + 2 ^ k → Top (k + s) (s + s) (smear s x)
smear_parts x s k fits top =
    let n : 2 ^ (k + s) ≡ 2 ^ k * 2 ^ s = pow-add k s in
    let n' : 2 ^ (k + s) ≡ 2 ^ s * 2 ^ k = omega (arith, n) in
    let cover : 2 ^ k ≤ 2 ^ (k - s) * 2 ^ s =
      subst (λ t. 2 ^ k ≤ t) (pow-add (k - s) s)
        (pow-le-pow_right {n = 2} (omega arith) (omega arith)) in
    let (z_lt, z_top) =
      shifted (2 ^ s) (2 ^ k) (2 ^ (k - s)) x (pow-positive s) cover (subst (λ t. x < t) n fits)
        (subst (λ t. t ≤ x + 2 ^ k) n top) in
    let whole =
      blocks (2 ^ s) (2 ^ k) x (pow-positive s) (pow-positive k) (subst (λ t. x < t) n' fits)
        (subst (λ t. t ≤ x + 2 ^ k) n' top) in
    let r_lt : x % 2 ^ k < 2 ^ k = mod-lt x (pow-positive k) in
    let z = x / 2 ^ s in
    let (is, o_lt) = bit_or_below k (x / 2 ^ k) (x % 2 ^ k) z r_lt z_lt in
    let parts : x / 2 ^ k * 2 ^ k + x % 2 ^ k ≡ x = div-add-mod' x (2 ^ k) in
    let eq : smear s x ≡ x / 2 ^ k * 2 ^ k + bit_or (x % 2 ^ k) z =
      ap (λ t. bit_or t z) (sym parts) ∙ is in
    let ge = bit_or-ge k (x % 2 ^ k) z z_lt in
    let (up, down) =
      smear_blocks (2 ^ s) (2 ^ k) (2 ^ (k - s)) (x / 2 ^ k) (bit_or (x % 2 ^ k) z) whole o_lt
        (omega arith) in
    let left : k + s - (s + s) ≡ k - s = omega arith in
    rw left (omega (arith, eq, n', up), omega (arith, eq, n', down))

-- A smear by `s` where all bits are set.
smear_full : (x s n : ℕ) → n ≤ s → Top n s x → Top n (s + s) (smear s x)
smear_full x s n few (fits, top) =
    let wide : 2 ^ n ≤ 2 ^ s = pow-le-pow_right {n = 2} (omega arith) few in
    let none_left : x / 2 ^ s ≡ 0 = div-eq_of_lt (omega arith) in
    let one : n - s ≡ 0 = omega arith in
    let one' : n - (s + s) ≡ 0 = omega arith in
    let top' : 2 ^ n ≤ x + 1 = subst (λ t. 2 ^ n ≤ x + 2 ^ t) one top in
    rw (none_left, one', bit_or-zero x) (fits, top')

smear-Top : (x s n : ℕ) → Top n s x → Top n (s + s) (smear s x)
smear-Top x s n (fits, top) = elim (Bool-cases (ltb n s)) [
  | inl few ↦ smear_full x s n (ground arith) (fits, top)
  | inr many ↦
      let back : n - s + s ≡ n = ground arith in
      subst (λ t. Top t (s + s) (smear s x)) back
        (smear_parts x s (n - s) (subst (λ t. x < 2 ^ t) (sym back) fits)
          (subst (λ t. 2 ^ t ≤ x + 2 ^ (n - s)) (sym back) top))
]

last_step : (y p : ℕ) → y + 1 ≡ 2 * p → 2 * p ≤ 2 ^ 32 → sub32 y (y >>> 1) ≡ p
last_step y p full word = omega arith

-- The five smears set every bit below the highest one, and the last step leaves that one.
pub highest_bit_of : (x e : ℕ) → 2 ^ e ≤ x → x < 2 * 2 ^ e → e < 32 → highest_bit x ≡ 2 ^ e
unfolding highest_bit
highest_bit_of x e low high small =
    let n = pow-suc 2 e in
    let pred : e ≡ suc e - 1 = omega arith in
    let t1 : Top (suc e) 1 x =
      (omega (arith, n), subst (λ t. 2 ^ suc e ≤ x + 2 ^ t) pred (omega (arith, n))) in
    let t2 = smear-Top x 1 (suc e) t1 in
    let t4 = smear-Top (smear 1 x) 2 (suc e) t2 in
    let t8 = smear-Top (smear 2 (smear 1 x)) 4 (suc e) t4 in
    let t16 = smear-Top (smear 4 (smear 2 (smear 1 x))) 8 (suc e) t8 in
    let (fits, top) = smear-Top (smear 8 (smear 4 (smear 2 (smear 1 x)))) 16 (suc e) t16 in
    let none_left : suc e - 32 ≡ 0 = omega arith in
    let full : 2 ^ suc e ≤ smear 16 (smear 8 (smear 4 (smear 2 (smear 1 x)))) + 1 =
      subst (λ t. 2 ^ suc e ≤ smear 16 (smear 8 (smear 4 (smear 2 (smear 1 x)))) + 2 ^ t) none_left
        top in
    let wide : 2 ^ suc e ≤ 2 ^ 32 = pow-le-pow_right {n = 2} (omega arith) {j = 32} (omega arith) in
    last_step (smear 16 (smear 8 (smear 4 (smear 2 (smear 1 x))))) (2 ^ e) (omega (arith, n))
      (omega (arith, n))

at_null : highest_bit 0 ≡ clr_lv_msb 0
unfolding highest_bit clr_lv_msb
at_null = refl

pub pow-reflect : (i j : ℕ) → 2 ^ i ≤ 2 ^ j → i ≤ j
pow-reflect i j h = elim (Bool-cases (ltb j i)) [
  | inl less ↦
      let wide : 2 ^ suc j ≤ 2 ^ i =
        pow-le-pow_right {n = 2} (omega arith) {i = suc j} (ground arith) in
      absurd (omega (arith, pow-suc 2 j, pow-positive j))
  | inr more ↦ ground arith
]

pub pow-below : (i j x : ℕ) → 2 ^ i ≤ x → x < 2 ^ j → i < j
pow-below i j x low high = elim (Bool-cases (ltb i j)) [
  | inl less ↦ ground arith
  | inr more ↦
      let wide : 2 ^ j ≤ 2 ^ i = pow-le-pow_right {n = 2} (omega arith) {i = j} (ground arith) in
      absurd (omega arith)
]

-- `highest_bit` leaves the same bit as `clr_lv_msb` of include/util/bits.h, which counts leading
-- zeros where it smears.
pub highest_bit-eq-clr_lv_msb : (x : ℕ) → x < 2 ^ 32 → highest_bit x ≡ clr_lv_msb x
highest_bit-eq-clr_lv_msb x word = elim (Bool-cases (x == 0)) [
  | inl null ↦ let is : x ≡ 0 = ground arith in rw is at_null
  | inr there ↦
      let (e, idx, clr, low, high) = clr_lv_msb_lem x (ground arith) word in
      highest_bit_of x e low high (pow-below e 32 x low word) ∙ sym clr
]
