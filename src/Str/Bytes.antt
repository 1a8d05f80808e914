-- ===== src/Str/Bytes.antt =====
-- Runs of bytes in memory, with and without the null byte at their end.
use Prim.{Unit, tt}
use mathlib.Core.List.{reverse, reverse-cons}
use sugarcat.Common.{
  ℕ, suc, ◌+◌, ◌-◌, ◌≤◌, ◌<◌, ◌≡◌, refl, ap, sym, ◌∙◌, subst, List, [], ◌∷◌, ◌++◌, length,
  length-append, arith,
}
use native.Mathlib.Nat.{add-zero}
use sugarcat.Memory.{Memory, load8}
use sugarcat.Str.Length.{CStr}

abbrev pub Bytes : Memory → ℕ → List ℕ → Type 0
Bytes m p [] = Unit
Bytes m p (c ∷ cs) = (load8 m p ≡ c) × Bytes m (p + 1) cs

abbrev pub NoNull : List ℕ → Type 0
NoNull [] = Unit
NoNull (c ∷ cs) = (0 < c) × NoNull cs

pub Bytes-append :
    (m : Memory) (p : ℕ) (xs ys : List ℕ)
    → Bytes m p xs
    → Bytes m (p + length xs) ys
    → Bytes m p (xs ++ ys)
Bytes-append m p [] ys x y = subst (λ a. Bytes m a ys) (add-zero p) y
Bytes-append m p (c ∷ cs) ys (here, x) y =
    let at : p + suc (length cs) ≡ p + 1 + length cs = omega arith in
    (here, Bytes-append m (p + 1) cs ys x (subst (λ a. Bytes m a ys) at y))

pub NoNull-append : (xs ys : List ℕ) → NoNull xs → NoNull ys → NoNull (xs ++ ys)
NoNull-append [] ys x y = y
NoNull-append (c ∷ cs) ys (here, x) y = (here, NoNull-append cs ys x y)

pub NoNull-reverse : (xs : List ℕ) → NoNull xs → NoNull (reverse xs)
NoNull-reverse [] x = tt
NoNull-reverse (c ∷ cs) (here, x) =
    subst NoNull (sym (reverse-cons c cs))
      (NoNull-append (reverse cs) (c ∷ []) (NoNull-reverse cs x) (here, tt))

pub length-reverse : (xs : List ℕ) → length (reverse xs) ≡ length xs
length-reverse [] = refl
length-reverse (c ∷ cs) =
    ap length (reverse-cons c cs)
    ∙ omega (arith, length-append (reverse cs) (c ∷ []), length-reverse cs)

pub CStr-Bytes :
    (m : Memory) (p : ℕ) (xs : List ℕ)
    → CStr m p xs
    → Bytes m p xs × NoNull xs × (load8 m (p + length xs) ≡ 0)
CStr-Bytes m p [] s = (tt, tt, ap (load8 m) (add-zero p) ∙ s)
CStr-Bytes m p (c ∷ cs) (here, some_c, s) =
    let (b, n, end) = CStr-Bytes m (p + 1) cs s in
    let at : p + suc (length cs) ≡ p + 1 + length cs = omega arith in
    ((here, b), (some_c, n), ap (load8 m) at ∙ end)

pub Bytes-CStr :
    (m : Memory) (p : ℕ) (xs : List ℕ)
    → Bytes m p xs
    → NoNull xs
    → load8 m (p + length xs) ≡ 0
    → CStr m p xs
Bytes-CStr m p [] b n end = ap (load8 m) (sym (add-zero p)) ∙ end
Bytes-CStr m p (c ∷ cs) (here, b) (some_c, n) end =
    let at : p + 1 + length cs ≡ p + suc (length cs) = omega arith in
    (here, some_c, Bytes-CStr m (p + 1) cs b n (ap (load8 m) at ∙ end))

-- Bytes that mirror a run are its reverse.
pub Bytes-reverse :
    (m m' : Memory) (p q : ℕ) (xs : List ℕ)
    → Bytes m p xs
    → ((j : ℕ) → j < length xs → load8 m' (q + j) ≡ load8 m (p + length xs - 1 - j))
    → Bytes m' q (reverse xs)
Bytes-reverse m m' p q [] b mirror = tt
Bytes-reverse m m' p q (c ∷ cs) (here, b) mirror =
    let rest = Bytes-reverse m m' (p + 1) q cs b (λ j low.
      let at : p + suc (length cs) - 1 - j ≡ p + 1 + length cs - 1 - j = omega arith in
      mirror j (omega arith) ∙ ap (load8 m) at) in
    let at : p + suc (length cs) - 1 - length cs ≡ p = omega arith in
    let last : load8 m' (q + length cs) ≡ c =
      mirror (length cs) (omega arith) ∙ ap (load8 m) at ∙ here in
    let end : load8 m' (q + length (reverse cs)) ≡ c =
      ap (λ n. load8 m' (q + n)) (length-reverse cs) ∙ last in
    subst (Bytes m' q) (sym (reverse-cons c cs))
      (Bytes-append m' q (reverse cs) (c ∷ []) rest (end, tt))

pub Bytes-same :
    (m m' : Memory) (p : ℕ) (xs : List ℕ)
    → ((a : ℕ) → p ≤ a → a < p + length xs → load8 m' a ≡ load8 m a)
    → Bytes m p xs
    → Bytes m' p xs
Bytes-same m m' p [] same b = tt
Bytes-same m m' p (c ∷ cs) same (here, b) = (
  same p (omega arith) (omega arith) ∙ here,
  Bytes-same m m' (p + 1) cs (λ a low high. same a (omega arith) (omega arith)) b,
)
