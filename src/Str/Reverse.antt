-- ===== src/Str/Reverse.antt =====
-- What `strrev` leaves at every address.
use sugarcat.Common.{
  ℕ, zero, suc, ◌+◌, ◌-◌, ◌*◌, ◌/◌, ◌^◌, ◌≤◌, ◌<◌, ◌≡◌, ◌≢◌, ◌⊎◌, inl, inr, refl, ap, sym, ◌∙◌,
  some, List, length, arith, ◌==◌, ltb, Bool-cases, ==_ne,
}
use sugarcat.Memory.{Memory, load8, store8}
use sugarcat.Memory.Laws.{load8-lt, load8-store8, load8-store8_ne}
use sugarcat.Str.{strrev, strrev_loop, strrev_rounds, strlen}
use mathlib.Core.List.{reverse}
use sugarcat.Str.Length.{CStr, strlen-length}
use sugarcat.Str.Bytes.{CStr-Bytes, Bytes-CStr, Bytes-reverse, NoNull-reverse, length-reverse}

-- One exchange.
abbrev swap : Memory → ℕ → ℕ → Memory
swap m x y = store8 (store8 m x (load8 m y)) y (load8 m x)

module _ (m : Memory) (x y : ℕ) where
  swap_left : load8 (swap m x y) x ≡ load8 m y
  swap_left = elim (Bool-cases (x == y)) [
    | inl same ↦
        let is : x ≡ y = ground arith in
        ap (λ a. load8 (swap m x y) a) is
        ∙ load8-store8 (store8 m x (load8 m y)) y (load8 m x) (load8-lt m x)
        ∙ ap (load8 m) is
    | inr other ↦
        load8-store8_ne (store8 m x (load8 m y)) y x (load8 m x) (ground arith)
        ∙ load8-store8 m x (load8 m y) (load8-lt m y)
  ]

  swap_right : load8 (swap m x y) y ≡ load8 m x
  swap_right = load8-store8 (store8 m x (load8 m y)) y (load8 m x) (load8-lt m x)

  swap_other : (a : ℕ) → a ≢ x → a ≢ y → load8 (swap m x y) a ≡ load8 m a
  swap_other a not_x not_y =
      load8-store8_ne (store8 m x (load8 m y)) y a (load8 m x) not_y
      ∙ load8-store8_ne m x a (load8 m y) not_x

-- The rounds from `i` on leave alone what none of them names.
loop_other :
    (left i n p a : ℕ) (m : Memory)
    → ((k : ℕ) → i ≤ k → k < i + left → (a ≢ p + k) × (a ≢ p + n - 1 - k))
    → load8 (strrev_loop left i n p m) a ≡ load8 m a
unfolding strrev_loop
loop_other zero i n p a m apart = refl
loop_other (suc left) i n p a m apart =
    let (not_x, not_y) = apart i (omega arith) (omega arith) in
    loop_other left (i + 1) n p a (swap m (p + i) (p + n - 1 - i))
      (λ k low high. apart k (omega arith) (omega arith))
    ∙ swap_other m (p + i) (p + n - 1 - i) a not_x not_y

-- They exchange the characters at `j` and at its mirror image.
loop_mirror :
    (left i n p j : ℕ) (m : Memory)
    → 2 * (i + left) ≤ n + 1
    → i ≤ j
    → j < i + left
    → (load8 (strrev_loop left i n p m) (p + j) ≡ load8 m (p + n - 1 - j))
      × (load8 (strrev_loop left i n p m) (p + n - 1 - j) ≡ load8 m (p + j))
unfolding strrev_loop
loop_mirror zero i n p j m half low high = absurd (omega arith)
loop_mirror (suc left) i n p j m half low high =
    let x = p + i in
    let y = p + n - 1 - i in
    elim (Bool-cases (i == j)) [
      | inl now ↦
          let is : i ≡ j = ground arith in
          let rest_x =
            loop_other left (i + 1) n p x (swap m x y)
              (λ k a b. ((λ e. absurd (omega arith)), (λ e. absurd (omega arith)))) in
          let rest_y =
            loop_other left (i + 1) n p y (swap m x y)
              (λ k a b. ((λ e. absurd (omega arith)), (λ e. absurd (omega arith)))) in
          rw (sym is) (rest_x ∙ swap_left m x y, rest_y ∙ swap_right m x y)
      | inr later ↦
          let (one, two) =
            loop_mirror left (i + 1) n p j (swap m x y) (omega arith) (ground arith)
              (omega arith) in
          let apart : i ≢ j = ground arith in
          (
            one
                ∙ swap_other m x y (p + n - 1 - j) (λ e. absurd (omega arith))
                    (λ e. absurd (omega arith)),
            two ∙ swap_other m x y (p + j) (λ e. absurd (omega arith)) (λ e. absurd (omega arith)),
          )
    ]

rounds_value : (n : ℕ) → 1 < n → strrev_rounds n ≡ (n - 1) / 2 + 1
unfolding strrev_rounds
rounds_value n more = rw (==_ne n 1 (omega arith)) refl

-- Half of the string, rounded up, but for a single character.
rounds_half : (n : ℕ) → 0 < n → 2 * strrev_rounds n ≤ n + 1
unfolding strrev_rounds
rounds_half n some_n = ground arith

-- The whole loop, on a string that is not empty.
loop_whole :
    (n p j : ℕ) (m : Memory)
    → 0 < n
    → j < n
    → load8 (strrev_loop (strrev_rounds n) 0 n p m) (p + j) ≡ load8 m (p + n - 1 - j)
loop_whole n p j m some_n low =
    let k = strrev_rounds n in
    let half : 2 * (0 + k) ≤ n + 1 = omega (arith, rounds_half n some_n) in
    elim (Bool-cases (ltb j k)) [
      | inl left ↦ (loop_mirror k 0 n p j m half (omega arith) (ground arith)).0
      | inr right ↦ elim (Bool-cases (ltb (n - 1 - j) k)) [
        | inl other ↦
            let image = loop_mirror k 0 n p (n - 1 - j) m half (omega arith) (ground arith) in
            let one : p + j ≡ p + n - 1 - (n - 1 - j) = omega arith in
            let two : p + (n - 1 - j) ≡ p + n - 1 - j = omega arith in
            ap (load8 (strrev_loop k 0 n p m)) one ∙ image.1 ∙ ap (load8 m) two
        | inr middle ↦
            let single : n ≡ 1 = elim (Bool-cases (ltb 1 n)) [
              | inl more ↦ ground (arith, rounds_value n)
              | inr less ↦ ground arith
            ] in
            let same : p + j ≡ p + n - 1 - j = omega arith in
            loop_other k 0 n p (p + j) m (λ i a b. absurd (ground (arith, rounds_half n some_n)))
            ∙ ap (load8 m) same
      ]
    ]

loop_outside :
    (n p a : ℕ) (m : Memory)
    → 0 < n
    → (a < p) ⊎ (p + n ≤ a)
    → load8 (strrev_loop (strrev_rounds n) 0 n p m) a ≡ load8 m a
loop_outside n p a m some_n out =
    let half = rounds_half n some_n in
    loop_other (strrev_rounds n) 0 n p a m
      (λ k low high. ((λ e. absurd (omega arith)), (λ e. absurd (omega arith))))

strrev-loop :
    (fuel p n : ℕ) (m : Memory)
    → p ≢ 0
    → strlen fuel m p ≡ some n
    → strrev fuel p m ≡ some (p, strrev_loop (strrev_rounds n) 0 n p m)
unfolding strrev
strrev-loop fuel p n m there len = rw (==_ne p 0 there, len) refl

-- `strrev` of a string that is not empty returns the string, reversed in place, and writes nothing
-- else.
pub strrev-reverse :
    (fuel p : ℕ) (m : Memory) (xs : List ℕ)
    → p ≢ 0
    → CStr m p xs
    → 0 < length xs
    → length xs < 2 ^ 32
    → length xs < fuel
    → (m' : Memory) × (strrev fuel p m ≡ some (p, m'))
      × CStr m' p (reverse xs)
      × ((a : ℕ) → (a < p) ⊎ (p + length xs ≤ a) → load8 m' a ≡ load8 m a)
strrev-reverse fuel p m xs there s some_x small enough =
    let n = length xs in
    let m' = strrev_loop (strrev_rounds n) 0 n p m in
    let (b, nn, end) = CStr-Bytes m p xs s in
    let at : p + length (reverse xs) ≡ p + n = ap (λ k. p + k) (length-reverse xs) in
    (
      m',
      strrev-loop fuel p n m there (strlen-length fuel p m xs there s small enough),
      Bytes-CStr m' p (reverse xs)
          (Bytes-reverse m m' p p xs b (λ j low. loop_whole n p j m some_x low))
          (NoNull-reverse xs nn)
          (ap (load8 m') at ∙ loop_outside n p (p + n) m some_x (inr (omega arith)) ∙ end),
      λ a out. loop_outside n p a m some_x out,
    )
