-- ===== src/Heap/Search.antt =====
-- `find_best_fit` on the chunks of a heap.
use Prim.{Unit, tt}
use sugarcat.Common.{
  ℕ, zero, suc, ◌+◌, ◌^◌, ◌≤◌, ◌<◌, ◌≡◌, ◌≢◌, ◌⊎◌, inl, inr, refl, sym, Bool, true, false, ◌&&◌,
  ◌||◌, some, List, [], ◌∷◌, length, arith, subst, ltb, ◌==◌, ==_ne, Bool-cases, if◌then◌else◌,
}
use sugarcat.Memory.{Memory}
use sugarcat.Heap.{size, better, find_loop, find_best_fit}
use sugarcat.Heap.Chunks.{Chunk, is_free-status, past, link, Tiles}

-- A chunk of `n` bytes can be split for `w`.
abbrev pub splits : ℕ → ℕ → Bool
splits w n = ltb (w + 16) n

-- A chunk of `n` bytes is better than the best so far, at `nb` (0 if there is none) of `sz` bytes.
unfoldable pub improves : (w nb sz n : ℕ) → Bool
improves w nb sz n = splits w n && ((nb == 0) || ltb n sz)

-- The search on chunks at `p`.
unfoldable pub best : (w p : ℕ) → List Chunk → (nb sz : ℕ) → ℕ × Bool
best w p [] nb sz = (nb, false)
best w p (c ∷ cs) nb sz =
    if c.is_free
    then (if c.bytes == w
        then (p, true)
        else if improves w nb sz c.bytes
        then best w (past p c) cs p c.bytes
        else best w (past p c) cs nb sz)
    else best w (past p c) cs nb sz

better-eq :
    (m : Memory) (w p nb sz n : ℕ)
    → w + 16 < 2 ^ 32
    → (nb ≡ 0) ⊎ (size m nb ≡ sz)
    → size m p ≡ n
    → better m w p nb ≡ (if improves w nb sz n then p else nb)
unfolding better improves
better-eq m w p nb sz n small known here = ground arith

find_loop-best :
    (fuel w p nb sz end prv : ℕ) (m : Memory) (cs : List Chunk)
    → Tiles m end prv p cs
    → w + 16 < 2 ^ 32
    → (nb ≡ 0) ⊎ (size m nb ≡ sz)
    → length cs < fuel
    → find_loop fuel m w (link p cs) nb ≡ some (best w p cs nb sz)
unfolding find_loop best
find_loop-best zero w p nb sz end prv m cs t small known enough = absurd (omega arith)
find_loop-best (suc fuel) w p nb sz end prv m [] t small known enough = refl
find_loop-best (suc fuel) w p nb sz end prv m (c ∷ cs) t small known enough =
    rw
      (
        ==_ne p 0 (omega arith),
        better-eq m w p nb sz c.bytes small known t.2.1,
        t.2.0,
        t.2.1,
        t.2.2,
        is_free-status c.is_free,
      )
      (elim (Bool-cases c.is_free) [
        | inl free ↦ elim (Bool-cases (c.bytes == w)) [
          | inl exact ↦ rw (free, exact) refl
          | inr inexact ↦ elim (Bool-cases (improves w nb sz c.bytes)) [
            | inl up ↦
                rw (free, inexact, up)
                  (find_loop-best fuel w (past p c) p c.bytes end p m cs t.3 small (inr t.2.1)
                    (omega arith))
            | inr down ↦
                rw (free, inexact, down)
                  (find_loop-best fuel w (past p c) nb sz end p m cs t.3 small known (omega arith))
          ]
        ]
        | inr taken ↦
            rw taken
              (find_loop-best fuel w (past p c) nb sz end p m cs t.3 small known (omega arith))
      ])

-- Every free chunk's size has a property.
abbrev pub AllFree : (ℕ → Type 0) → List Chunk → Type 0
AllFree P [] = Unit
AllFree P (c ∷ cs) = (c.is_free ≡ true → P c.bytes) × AllFree P cs

-- The chunk at `a` is free and has `n` bytes.
abbrev pub FreeAt : ℕ → ℕ → List Chunk → ℕ → Type 0
FreeAt a p [] n = ⊥
FreeAt a p (c ∷ cs) n = ((p ≡ a) × (c.is_free ≡ true) × (c.bytes ≡ n)) ⊎ FreeAt a (past p c) cs n

-- No free chunk has exactly `w` bytes, and none that can be split is smaller than `n`.
abbrev pub NoneBelow : ℕ → ℕ → ℕ → Type 0
NoneBelow w n k = (k ≢ w) × (w + 16 < k → n ≤ k)

abbrev pub NoneFits : ℕ → ℕ → Type 0
NoneFits w k = (k ≢ w) × (k ≤ w + 16)

-- What the search has to say, given the best so far.
abbrev pub Verdict : (w p : ℕ) → List Chunk → (nb sz : ℕ) → ℕ × Bool → Type 0
Verdict w p cs nb sz (a, true) = FreeAt a p cs w
Verdict w p cs nb sz (a, false) =
    ((n : ℕ) × FreeAt a p cs n × (w + 16 < n) × ((nb ≡ 0) ⊎ (n < sz)) × AllFree (NoneBelow w n) cs)
    ⊎ (((a ≡ nb) × (nb ≢ 0) × AllFree (NoneBelow w sz) cs)
        ⊎ ((a ≡ nb) × (nb ≡ 0) × AllFree (NoneFits w) cs))

-- The verdict on a longer list, where its first chunk becomes the best so far.
Verdict-take :
    (w p nb sz : ℕ) (c : Chunk) (cs : List Chunk) (r : ℕ × Bool)
    → 0 < p
    → c.is_free ≡ true
    → c.bytes ≢ w
    → w + 16 < c.bytes
    → (nb ≡ 0) ⊎ (c.bytes < sz)
    → Verdict w (past p c) cs p c.bytes r
    → Verdict w p (c ∷ cs) nb sz r
Verdict-take w p nb sz c cs (a, true) here free not_exact large less v = inr v
Verdict-take w p nb sz c cs (a, false) here free not_exact large less
      (inl (n, at, fits, under, all)) =
    inl (n, inr at, fits, ground arith, (λ _. (not_exact, λ _. ground arith), all))
Verdict-take w p nb sz c cs (a, false) here free not_exact large less (inr (inl (same, _, all))) =
    inl (
      c.bytes,
      inl (sym same, free, refl),
      large,
      less,
      ((λ _. (not_exact, λ _. omega arith)), all),
    )
Verdict-take w p nb sz c cs (a, false) here free not_exact large less (inr (inr (_, null, _))) =
    absurd (omega arith)

-- The same where its first chunk is passed over.
Verdict-skip :
    (w p nb sz : ℕ) (c : Chunk) (cs : List Chunk) (r : ℕ × Bool)
    → (c.is_free ≡ true → (c.bytes ≢ w) × ((c.bytes ≤ w + 16) ⊎ ((nb ≢ 0) × (sz ≤ c.bytes))))
    → Verdict w (past p c) cs nb sz r
    → Verdict w p (c ∷ cs) nb sz r
Verdict-skip w p nb sz c cs (a, true) passed v = inr v
Verdict-skip w p nb sz c cs (a, false) passed (inl (n, at, fits, under, all)) =
    inl (n, inr at, fits, under, (λ free. ground (arith, passed free), all))
Verdict-skip w p nb sz c cs (a, false) passed (inr (inl (same, some_nb, all))) =
    inr (inl (same, some_nb, (λ free. ground (arith, passed free), all)))
Verdict-skip w p nb sz c cs (a, false) passed (inr (inr (same, null, all))) =
    inr (inr (same, null, (λ free. ground (arith, passed free), all)))

improves_large : (w nb sz n : ℕ) → improves w nb sz n ≡ true → w + 16 < n
unfolding improves
improves_large w nb sz n up = ground arith

improves_less : (w nb sz n : ℕ) → improves w nb sz n ≡ true → (nb ≡ 0) ⊎ (n < sz)
unfolding improves
improves_less w nb sz n up = ground arith

improves_not : (w nb sz n : ℕ) → improves w nb sz n ≡ false → (n ≤ w + 16) ⊎ ((nb ≢ 0) × (sz ≤ n))
unfolding improves
improves_not w nb sz n down = ground arith

module _ (w p nb sz : ℕ) (c : Chunk) (cs : List Chunk) where
  best-exact : c.is_free ≡ true → (c.bytes == w) ≡ true → best w p (c ∷ cs) nb sz ≡ (p, true)
  unfolding best
  best-exact free exact = rw (free, exact) refl

  best-up :
      c.is_free ≡ true
      → (c.bytes == w) ≡ false
      → improves w nb sz c.bytes ≡ true
      → best w p (c ∷ cs) nb sz ≡ best w (past p c) cs p c.bytes
  unfolding best
  best-up free inexact up = rw (free, inexact, up) refl

  best-down :
      c.is_free ≡ true
      → (c.bytes == w) ≡ false
      → improves w nb sz c.bytes ≡ false
      → best w p (c ∷ cs) nb sz ≡ best w (past p c) cs nb sz
  unfolding best
  best-down free inexact down = rw (free, inexact, down) refl

  best-taken : c.is_free ≡ false → best w p (c ∷ cs) nb sz ≡ best w (past p c) cs nb sz
  unfolding best
  best-taken taken = rw taken refl

best-Verdict :
    (w p nb sz end prv : ℕ) (m : Memory) (cs : List Chunk)
    → Tiles m end prv p cs
    → Verdict w p cs nb sz (best w p cs nb sz)
unfolding best
best-Verdict w p nb sz end prv m [] t = elim (Bool-cases (nb == 0)) [
  | inl null ↦ inr (inr (refl, ground arith, tt))
  | inr there ↦ inr (inl (refl, ground arith, tt))
]
best-Verdict w p nb sz end prv m (c ∷ cs) t =
    let whole = Verdict w p (c ∷ cs) nb sz in
    elim (Bool-cases c.is_free) [
      | inl free ↦ elim (Bool-cases (c.bytes == w)) [
        | inl exact ↦
            let here : whole (p, true) = inl (refl, free, ground arith) in
            subst whole (sym (best-exact w p nb sz c cs free exact)) here
        | inr inexact ↦ elim (Bool-cases (improves w nb sz c.bytes)) [
          | inl up ↦ subst whole (sym (best-up w p nb sz c cs free inexact up)) (
              Verdict-take w p nb sz c cs (best w (past p c) cs p c.bytes) t.0 free (ground arith)
                (improves_large w nb sz c.bytes up) (improves_less w nb sz c.bytes up)
                (best-Verdict w (past p c) p c.bytes end p m cs t.3))
          | inr down ↦ subst whole (sym (best-down w p nb sz c cs free inexact down)) (
              Verdict-skip w p nb sz c cs (best w (past p c) cs nb sz)
                (λ _. (ground arith, improves_not w nb sz c.bytes down))
                (best-Verdict w (past p c) nb sz end p m cs t.3))
        ]
      ]
      | inr taken ↦ subst whole (sym (best-taken w p nb sz c cs taken)) (
          Verdict-skip w p nb sz c cs (best w (past p c) cs nb sz) (λ free. absurd (ground arith))
            (best-Verdict w (past p c) nb sz end p m cs t.3))
    ]

-- On a heap's chunks, and for a size that a header can be added to, `find_best_fit` ends within one
-- round more than there are chunks. It finds a free chunk of exactly the size if there is one, else
-- the smallest of the free chunks that have room for the size and a header besides, and null if
-- there is none of either.
pub find_best_fit-Verdict :
    (fuel w start end : ℕ) (m : Memory) (cs : List Chunk)
    → Tiles m end 0 start cs
    → w + 16 < 2 ^ 32
    → length cs < fuel
    → (r : ℕ × Bool) × (find_best_fit fuel m (link start cs) w ≡ some r) × Verdict w start cs 0 0 r
unfolding find_best_fit
find_best_fit-Verdict fuel w start end m cs t small enough = (
  best w start cs 0 0,
  find_loop-best fuel w start 0 0 end 0 m cs t small (inl refl) enough,
  best-Verdict w start 0 0 end 0 m cs t,
)
