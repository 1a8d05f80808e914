-- ===== src/Heap/Extents.antt =====
-- Where the taken chunks of a heap lie, and how large they are.
use sugarcat.Common.{
  ℕ, ◌+◌, ◌*◌, ◌≤◌, ◌<◌, ◌≡◌, ◌≢◌, ◌⊎◌, inl, inr, refl, ap, sym, ◌∙◌, true, List, [], ◌∷◌, length,
  arith, subst, ◌==◌, ==_ne, ==_refl, Bool-cases, if◌then◌else◌,
}
use sugarcat.Memory.{Memory}
use sugarcat.Heap.{size}
use sugarcat.Heap.Chunks.{Chunk, past, Tiles}
use sugarcat.Heap.Release.{taken_at}
use sugarcat.Heap.Search.{FreeAt}
use sugarcat.Heap.Split.{rest_of}
use sugarcat.Heap.Malloc.{hand_out, place, FreeAt-ge, later_chunk}
use sugarcat.Heap.Held.{taken_at-ge, parts}

-- Two taken chunks do not overlap.
pub taken_at-apart :
    (m : Memory) (end prv p a b : ℕ) (cs : List Chunk)
    → Tiles m end prv p cs
    → taken_at a p cs ≡ true
    → taken_at b p cs ≡ true
    → a ≢ b
    → (a + 16 + size m a ≤ b) ⊎ (b + 16 + size m b ≤ a)
taken_at-apart m end prv p a b [] t ta tb other = cc
taken_at-apart m end prv p a b (c ∷ cs) t ta tb other = elim (Bool-cases (p == a)) [
  | inl at_a ↦
      let here : p ≡ a = ground arith in
      let bytes : size m a ≡ c.bytes = ap (size m) (sym here) ∙ t.2.1 in
      inl (omega (arith, bytes, taken_at-ge b (past p c) cs (ground arith)))
  | inr not_a ↦ elim (Bool-cases (p == b)) [
    | inl at_b ↦
        let here : p ≡ b = ground arith in
        let bytes : size m b ≡ c.bytes = ap (size m) (sym here) ∙ t.2.1 in
        inr (omega (arith, bytes, taken_at-ge a (past p c) cs (ground arith)))
    | inr not_b ↦ taken_at-apart m end p (past p c) a b cs t.3 (ground arith) (ground arith) other
  ]
]

-- A chunk's bytes lie in the heap.
pub taken_at-fits :
    (m : Memory) (end prv p a : ℕ) (cs : List Chunk)
    → Tiles m end prv p cs
    → taken_at a p cs ≡ true
    → a + 16 + size m a ≤ end
taken_at-fits m end prv p a [] t taken = cc
taken_at-fits m end prv p a (c ∷ cs) t taken = elim (Bool-cases (p == a)) [
  | inl at ↦
      let here : p ≡ a = ground arith in
      let bytes : size m a ≡ c.bytes = ap (size m) (sym here) ∙ t.2.1 in omega (arith, bytes, t.1)
  | inr other ↦ taken_at-fits m end p (past p c) a cs t.3 (ground arith)
]

-- A heap has room for a header for each of its chunks.
pub length-Tiles :
    (m : Memory) (end prv p : ℕ) (cs : List Chunk) → Tiles m end prv p cs → p + 16 * length cs ≤ end
length-Tiles m end prv p [] t = omega arith
length-Tiles m end prv p (c ∷ cs) t = omega (arith, length-Tiles m end p (past p c) cs t.3)

-- The bytes of the chunk at `a`.
abbrev pub bytes_at : ℕ → ℕ → List Chunk → ℕ
bytes_at a p [] = 0
bytes_at a p (c ∷ cs) = if p == a then c.bytes else bytes_at a (past p c) cs

pub size-bytes_at :
    (m : Memory) (end prv p a : ℕ) (cs : List Chunk)
    → Tiles m end prv p cs
    → taken_at a p cs ≡ true
    → size m a ≡ bytes_at a p cs
size-bytes_at m end prv p a [] t taken = cc
size-bytes_at m end prv p a (c ∷ cs) t taken = elim (Bool-cases (p == a)) [
  | inl at ↦ let here : p ≡ a = ground arith in rw at (ap (size m) (sym here) ∙ t.2.1)
  | inr other ↦ rw other (size-bytes_at m end p (past p c) a cs t.3 (ground arith))
]

pub bytes_at-hand_out :
    (w a p n : ℕ) (cs : List Chunk)
    → FreeAt a p cs n
    → (n ≡ w) ⊎ (w + 16 < n)
    → bytes_at (place w a n) p (hand_out w a p cs) ≡ w
bytes_at-hand_out w a p n [] at fits = absurd at
bytes_at-hand_out w a p n (c ∷ cs) (inl (here, free, bytes)) fits =
    subst (λ x. bytes_at (place w x n) p (hand_out w x p (c ∷ cs)) ≡ w) here
      (subst (λ x. bytes_at (place w p x) p (hand_out w p p (c ∷ cs)) ≡ w) bytes
        (elim (parts w p c cs) [
          | inl (exact, is) ↦
              let same : (c.bytes == w) ≡ true = ground arith in rw (is, same, ==_refl p) exact
          | inr (inexact, is) ↦
              let node : p ≢ past p (rest_of w c) = omega arith in
              rw
                (
                  is,
                  ==_ne c.bytes w inexact,
                  ==_ne p (past p (rest_of w c)) node,
                  ==_refl (past p (rest_of w c)),
                )
                refl
        ]))
bytes_at-hand_out w a p n (c ∷ cs) (inr at) fits =
    let above = FreeAt-ge a (past p c) n cs at in
    let other : p ≢ place w a n = ground arith in
    rw (later_chunk w a p c cs (omega arith), ==_ne p (place w a n) other)
      (bytes_at-hand_out w a (past p c) n cs at fits)
