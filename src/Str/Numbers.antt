-- ===== src/Str/Numbers.antt =====
-- What `itoa` and `itox` of source/util/str.c leave in memory.
use Prim.{tt}
use mathlib.Core.List.{reverse, reverse-append, append-nil}
use native.Mathlib.Nat.{zero-add}
use sugarcat.Common.{
  ltb, ◌-◌, ℕ, ◌+◌, ◌^◌, ◌≤◌, ◌<◌, ◌≡◌, ◌≢◌, ◌⊎◌, inl, inr, refl, ap, sym, ◌∙◌, subst, Bool, true,
  false, some, List, [], ◌∷◌, ◌++◌, length, length-append, arith, ◌==◌, if◌then◌else◌, Bool-cases,
  ==_ne, ◌>>=◌,
}
use sugarcat.Common.Int.{ℤ, pos, negsuc}
use sugarcat.Memory.{Memory, load8, store8}
use sugarcat.Memory.Laws.{load8-store8, load8-store8_ne}
use sugarcat.Str.{itoa, itox, put_end, put_zero, magnitude, is_negative, strrev, hex_digit}
use sugarcat.Str.Bytes.{Bytes-same, Bytes-CStr, Bytes-append, NoNull, NoNull-append, length-reverse}
use sugarcat.Str.Length.{CStr}
use sugarcat.Str.Reverse.{strrev-reverse}
use sugarcat.Str.Digits.{
  low-chr, low, low-some, length-low, low-NoNull, Written, write_loop, write_loop-low, dec_chr,
  itoa_loop-write_loop, itox_loop-write_loop,
}

-- The number to a base of at most ten digits, highest first.
unfoldable pub numeral : ℕ → (ℕ → ℕ) → ℕ → List ℕ
numeral base chr n = if n == 0 then b'0' ∷ [] else reverse (low base chr 10 n)

unfoldable pub sign : Bool → List ℕ
sign true = b'-' ∷ []
sign false = []

-- A number in decimals, with a sign if it is negative.
unfoldable pub decimal : ℤ → List ℕ
unfolding numeral sign
decimal z = sign (is_negative z) ++ numeral 10 dec_chr (magnitude z)

-- A digit from 0 to F.
unfoldable pub hex_chr : ℕ → ℕ
hex_chr d = if ltb d 10 then b'0' + d else b'A' + (d - 10)

-- A word in hexadecimals, with capital letters.
unfoldable pub hexadecimal : ℕ → List ℕ
unfolding numeral
hexadecimal w = numeral 16 hex_chr w

-- The string `xs` stands at `p`, and nothing else changed.
pub record Printed (m m' : Memory) (p : ℕ) (xs : List ℕ) : Type 0 where
  pub text : CStr m' p xs
  pub same : (a : ℕ) → (a < p) ⊎ (p + length xs < a) → load8 m' a ≡ load8 m a

null-Printed :
    (m m' : Memory) (p : ℕ) (xs : List ℕ)
    → Written m m' p xs
    → NoNull xs
    → Printed m (store8 m' (p + length xs) 0) p xs
null-Printed m m' p xs w nn =
    let q = p + length xs in
    let kept =
      Bytes-same m' (store8 m' q 0) p xs (λ a low high. load8-store8_ne m' q a 0 (omega arith))
        w.bytes in
    record {
      text = Bytes-CStr (store8 m' q 0) p xs kept nn (load8-store8 m' q 0 (omega arith));
      same = λ a out. load8-store8_ne m' q a 0 (omega arith) ∙ w.same a (omega arith);
    }

Written-append :
    (m m' : Memory) (p c : ℕ) (xs : List ℕ)
    → Written m m' p xs
    → c < 256
    → Written m (store8 m' (p + length xs) c) p (xs ++ (c ∷ []))
Written-append m m' p c xs w byte =
    let q = p + length xs in
    let longer = length-append xs (c ∷ []) in
    let kept =
      Bytes-same m' (store8 m' q c) p xs (λ a low high. load8-store8_ne m' q a c (omega arith))
        w.bytes in
    record {
      bytes = Bytes-append (store8 m' q c) p xs (c ∷ []) kept (load8-store8 m' q c byte, tt);
      same = λ a out. load8-store8_ne m' q a c (omega arith) ∙ w.same a (omega arith);
    }

put_end-Printed :
    (neg : Bool) (m m' : Memory) (p : ℕ) (ds : List ℕ)
    → Written m m' p ds
    → NoNull ds
    → Printed m (put_end neg p (length ds) m') p (ds ++ sign neg)
unfolding put_end sign
put_end-Printed true m m' p ds w nn =
    let longer : p + length (ds ++ (b'-' ∷ [])) ≡ p + length ds + 1 =
      omega (arith, length-append ds (b'-' ∷ [])) in
    let m1 = store8 m' (p + length ds) b'-' in
    let dashed : NoNull (b'-' ∷ []) = (omega arith, tt) in
    subst (λ q. Printed m (store8 m1 q 0) p (ds ++ (b'-' ∷ []))) longer
      (null-Printed m m1 p (ds ++ (b'-' ∷ [])) (Written-append m m' p b'-' ds w (omega arith))
        (NoNull-append ds (b'-' ∷ []) nn dashed))
put_end-Printed false m m' p ds w nn =
    subst (λ xs. Printed m (store8 m' (p + length ds) 0) p xs) (sym (append-nil ds))
      (null-Printed m m' p ds w nn)

strrev-Printed :
    (fuel p : ℕ) (m m' : Memory) (xs : List ℕ)
    → p ≢ 0
    → Printed m m' p xs
    → 0 < length xs
    → length xs < 2 ^ 32
    → length xs < fuel
    → (m'' : Memory) × (strrev fuel p m' ≡ some (p, m'')) × Printed m m'' p (reverse xs)
strrev-Printed fuel p m m' xs there w some_x small enough =
    let (m'', run, text, same) = strrev-reverse fuel p m' xs there w.text some_x small enough in
    (
      m'',
      run,
      record {
        text = text;
        same = λ a out.
            same a (omega (arith, length-reverse xs)) ∙ w.same a (omega (arith, length-reverse xs));
      },
    )

length-sign : (neg : Bool) → length (sign neg) ≤ 1
unfolding sign
length-sign true = omega arith
length-sign false = omega arith

reverse-sign : (neg : Bool) → reverse (sign neg) ≡ sign neg
unfolding sign
reverse-sign true = refl
reverse-sign false = refl

-- The loop, the end and the reversal together.
module _ (base : ℕ) (chr : ℕ → ℕ) (big : 1 < base) (byte : (d : ℕ) → d < base → chr d < 256)
    (some_chr : (d : ℕ) → d < base → 0 < chr d) where
  numeral-Printed :
      (neg : Bool) (fuel val p : ℕ) (m : Memory)
      → p ≢ 0
      → 0 < val
      → val < base ^ 10
      → 11 < fuel
      → (m' : Memory) × ((write_loop base chr fuel val p 0 m >>= λ (offset, m1).
            strrev fuel p (put_end neg p offset m1))
          ≡ some (p, m'))
        × Printed m m' p (sign neg ++ numeral base chr val)
  unfolding numeral
  numeral-Printed neg fuel val p m there some_val fits enough =
      let ds = low base chr 10 val in
      let (m1, run, w) = write_loop-low base chr big byte fuel 10 val p 0 m fits (omega arith) in
      let whole : Written m m1 p ds = subst (λ q. Written m m1 q ds) (omega arith) w in
      let nn : NoNull ds = low-NoNull base chr big byte some_chr 10 val in
      let ended = put_end-Printed neg m m1 p ds whole nn in
      let at_most = length-low base chr 10 val in
      let some_ds = low-some base chr big byte 10 val some_val fits in
      let longer = length-append ds (sign neg) in
      let short = length-sign neg in
      let (m2, rev, printed) =
        strrev-Printed fuel p m (put_end neg p (length ds) m1) (ds ++ sign neg) there ended
          (omega arith) (omega arith) (omega arith) in
      let nonzero : (val == 0) ≡ false = ground arith in
      let text : reverse (ds ++ sign neg) ≡ sign neg ++ reverse ds =
        reverse-append ds (sign neg) ∙ ap (λ xs. xs ++ reverse ds) (reverse-sign neg) in
      (m2, rw (run, zero-add (length ds)) rev, rw nonzero (subst (Printed m m2 p) text printed))

zero-Printed : (m : Memory) (p : ℕ) → Printed m (put_zero p m) p (b'0' ∷ [])
zero-Printed m p =
    let m1 = store8 m p b'0' in
    let here : load8 m1 p ≡ b'0' = load8-store8 m p b'0' (omega arith) in
    let w : Written m m1 p (b'0' ∷ []) = record {
      bytes = (here, tt);
      same = λ a out. load8-store8_ne m p a b'0' (omega arith);
    } in
    null-Printed m m1 p (b'0' ∷ []) w (omega arith, tt)

magnitude-zero : (val : ℤ) → magnitude val ≡ 0 → decimal val ≡ b'0' ∷ []
unfolding magnitude decimal numeral sign is_negative
magnitude-zero (pos n) none_left = rw none_left refl
magnitude-zero (negsuc n) none_left = absurd (omega arith)

-- `itoa` of any `int` but the least returns `str`, where it leaves the decimals of the number, and
-- writes nothing outside of that string and its null byte.
pub itoa-decimal :
    (fuel : ℕ) (val : ℤ) (str : ℕ) (m : Memory)
    → str ≢ 0
    → magnitude val < 2 ^ 31
    → 11 < fuel
    → (m' : Memory) × (itoa fuel val str m ≡ some (str, m')) × Printed m m' str (decimal val)
unfolding itoa decimal
itoa-decimal fuel val str m there fits enough = elim (Bool-cases (magnitude val == 0)) [
  | inl none_left ↦
      let is = magnitude-zero val (ground arith) in
      (
        put_zero str m,
        rw (==_ne str 0 there, none_left) refl,
        subst (Printed m (put_zero str m) str) (sym is) (zero-Printed m str),
      )
  | inr some_left ↦
      let (m', run, printed) =
        numeral-Printed 10 dec_chr (omega arith) (λ d low. omega arith) (λ d low. omega arith)
          (is_negative val) fuel (magnitude val) str m there (ground arith) (omega arith) enough in
      (
        m',
        rw (==_ne str 0 there, some_left, itoa_loop-write_loop fuel (magnitude val) str 0 m) run,
        printed,
      )
]

hex_digit-hex_chr : (d : ℕ) → d < 16 → hex_digit d ≡ hex_chr d
unfolding hex_digit hex_chr
hex_digit-hex_chr d low = ground arith

hexadecimal-hex_digit : (w : ℕ) → numeral 16 hex_digit w ≡ hexadecimal w
unfolding hexadecimal numeral
hexadecimal-hex_digit w =
    rw (low-chr 16 hex_digit hex_chr (omega arith) hex_digit-hex_chr 10 w) refl

-- `itox` of a word returns `str`, where it leaves the hexadecimals of the word, and writes nothing
-- outside of that string and its null byte.
pub itox-hexadecimal :
    (fuel val str : ℕ) (m : Memory)
    → str ≢ 0
    → val < 2 ^ 32
    → 11 < fuel
    → (m' : Memory) × (itox fuel val str m ≡ some (str, m')) × Printed m m' str (hexadecimal val)
unfolding itox hexadecimal put_end sign numeral hex_digit
itox-hexadecimal fuel val str m there fits enough = elim (Bool-cases (val == 0)) [
  | inl none_left ↦
      (put_zero str m, rw (==_ne str 0 there, none_left) refl, rw none_left (zero-Printed m str))
  | inr some_left ↦
      let (m', run, printed) =
        numeral-Printed 16 hex_digit (omega arith) (λ d low. ground arith) (λ d low. ground arith)
          false fuel val str m there (ground arith) (omega arith) enough in
      (
        m',
        rw (==_ne str 0 there, some_left, itox_loop-write_loop fuel val str 0 m) run,
        subst (Printed m m' str) (hexadecimal-hex_digit val) printed,
      )
]
