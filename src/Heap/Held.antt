-- ===== src/Heap/Held.antt =====
-- What becomes of the taken chunks of a heap when others are handed out and freed.
use sugarcat.Common.{
  ℕ, ◌+◌, ◌≤◌, ◌<◌, ◌≡◌, ◌≢◌, ◌⊎◌, inl, inr, refl, ap, sym, ◌∙◌, Bool, true, false, ◌&&◌, List, [],
  ◌∷◌, arith, subst, ◌==◌, ==_ne, Bool-cases,
}
use sugarcat.Heap.Chunks.{Chunk, past, link}
use sugarcat.Heap.Merge.{joined}
use sugarcat.Heap.Free.{freed, absorb, join, release}
use sugarcat.Heap.Release.{taken_at}
use sugarcat.Heap.Apart.{first_free, IsCoalesced}
use sugarcat.Heap.Search.{FreeAt}
use sugarcat.Heap.Split.{rest_of, taken_of}
use sugarcat.Heap.Malloc.{hand_out, place, FreeAt-ge, whole_chunk, split_chunk, later_chunk}

pub taken_at-ge : (a p : ℕ) (cs : List Chunk) → taken_at a p cs ≡ true → p ≤ a
taken_at-ge a p [] taken = cc
taken_at-ge a p (c ∷ cs) taken = elim (Bool-cases (p == a)) [
  | inl here ↦ ground arith
  | inr other ↦ omega (arith, taken_at-ge a (past p c) cs (ground arith))
]

-- What is made of the chunk that something is handed out from.
abbrev pub Parts : (w p : ℕ) → Chunk → List Chunk → Type 0
Parts w p c cs =
    ((c.bytes ≡ w) × (hand_out w p p (c ∷ cs) ≡ record c { is_free = false } ∷ cs))
    ⊎ ((c.bytes ≢ w) × (hand_out w p p (c ∷ cs) ≡ rest_of w c ∷ taken_of w ∷ cs))

pub parts : (w p : ℕ) (c : Chunk) (cs : List Chunk) → Parts w p c cs
parts w p c cs = elim (Bool-cases (c.bytes == w)) [
  | inl exact ↦ inl (ground arith, whole_chunk w p c cs (ground arith))
  | inr inexact ↦ inr (ground arith, split_chunk w p c cs (ground arith))
]

keeps_here :
    (w p b : ℕ) (c : Chunk) (cs : List Chunk)
    → c.is_free ≡ true
    → (c.bytes ≡ w) ⊎ (w + 16 < c.bytes)
    → taken_at b p (c ∷ cs) ≡ true
    → taken_at b p (hand_out w p p (c ∷ cs)) ≡ true
keeps_here w p b c cs free fits taken =
    let other : p ≢ b = λ here. let is : (p == b) ≡ true = ground arith in ground arith in
    let later : taken_at b (past p c) cs ≡ true = ground arith in
    elim (parts w p c cs) [
      | inl (exact, is) ↦ rw (is, ==_ne p b other) later
      | inr (inexact, is) ↦
          let rejoined : past (past p (rest_of w c)) (taken_of w) ≡ past p c = omega arith in
          rw (is, ==_ne p b other) (ground (arith, ap (λ x. taken_at b x cs) rejoined))
    ]

pub taken_at-hand_out :
    (w a p n b : ℕ) (cs : List Chunk)
    → FreeAt a p cs n
    → (n ≡ w) ⊎ (w + 16 < n)
    → taken_at b p cs ≡ true
    → taken_at b p (hand_out w a p cs) ≡ true
taken_at-hand_out w a p n b [] at fits taken = absurd at
taken_at-hand_out w a p n b (c ∷ cs) (inl (here, free, bytes)) fits taken =
    subst (λ x. taken_at b p (hand_out w x p (c ∷ cs)) ≡ true) here
      (keeps_here w p b c cs free (ground arith) taken)
taken_at-hand_out w a p n b (c ∷ cs) (inr at) fits taken =
    let above = FreeAt-ge a (past p c) n cs at in
    rw (later_chunk w a p c cs (omega arith))
      (ground (arith, taken_at-hand_out w a (past p c) n b cs at fits))

-- The chunk that is handed out was not taken before.
pub taken_at-place :
    (w a p n : ℕ) (cs : List Chunk)
    → FreeAt a p cs n
    → (n ≡ w) ⊎ (w + 16 < n)
    → taken_at (place w a n) p cs ≡ false
taken_at-place w a p n [] at fits = absurd at
taken_at-place w a p n (c ∷ cs) (inl (here, free, bytes)) fits =
    ground (arith, taken_at-ge (place w a n) (past p c) cs)
taken_at-place w a p n (c ∷ cs) (inr at) fits =
    let above = FreeAt-ge a (past p c) n cs at in
    ground (arith, taken_at-place w a (past p c) n cs at fits)

taken_at-absorb :
    (b p : ℕ) (c : Chunk) (cs : List Chunk)
    → p ≢ b
    → taken_at b (past p c) cs ≡ true
    → taken_at b p (absorb c cs) ≡ true
taken_at-absorb b p c [] other taken = cc
taken_at-absorb b p c (d ∷ cs) other taken =
    let whole : past p (joined c d) ≡ past (past p c) d = omega arith in
    ground (arith, ap (λ x. taken_at b x cs) whole)

taken_at-join :
    (b p : ℕ) (c : Chunk) (ys : List Chunk)
    → past p c ≢ b
    → taken_at b p (c ∷ ys) ≡ true
    → taken_at b p (join c ys) ≡ true
taken_at-join b p c [] other taken = taken
taken_at-join b p c (y ∷ ys) other taken =
    let whole : past p (joined c y) ≡ past (past p c) y = omega arith in
    ground (arith, ap (λ x. taken_at b x ys) whole)

pub taken_at-release :
    (a p b : ℕ) (cs : List Chunk)
    → a ≢ b
    → taken_at b p cs ≡ true
    → taken_at b p (release a p cs) ≡ true
unfolding release
taken_at-release a p b [] other taken = taken
taken_at-release a p b (c ∷ cs) other taken = ground (
  arith,
  taken_at-absorb b p (freed c) cs,
  taken_at-join b p c (release a (past p c) cs),
  taken_at-release a (past p c) b cs other,
)

hand_out-first_free :
    (w a p n : ℕ) (cs : List Chunk)
    → FreeAt a p cs n
    → first_free (hand_out w a p cs) ≡ true
    → first_free cs ≡ true
hand_out-first_free w a p n [] at first = absurd at
hand_out-first_free w a p n (c ∷ cs) (inl (here, free, bytes)) first = free
hand_out-first_free w a p n (c ∷ cs) (inr at) first =
    let above = FreeAt-ge a (past p c) n cs at in
    sym (ap first_free (later_chunk w a p c cs (omega arith))) ∙ first

IsCoalesced-here :
    (w p : ℕ) (c : Chunk) (cs : List Chunk)
    → IsCoalesced (c ∷ cs)
    → IsCoalesced (hand_out w p p (c ∷ cs))
IsCoalesced-here w p c cs (apart, h) = elim (parts w p c cs) [
  | inl (exact, is) ↦ rw is (refl, h)
  | inr (inexact, is) ↦ rw is (ground arith, (refl, h))
]

not_both : (b f g : Bool) → (g ≡ true → f ≡ true) → (b && f) ≡ false → (b && g) ≡ false
not_both true f true less apart = cc (less refl, apart)
not_both true f false less apart = refl
not_both false f g less apart = refl

-- Handing out a free chunk, or a part of one, keeps free chunks apart.
pub hand_out-IsCoalesced :
    (w a p n : ℕ) (cs : List Chunk)
    → FreeAt a p cs n
    → IsCoalesced cs
    → IsCoalesced (hand_out w a p cs)
hand_out-IsCoalesced w a p n [] at h = absurd at
hand_out-IsCoalesced w a p n (c ∷ cs) (inl (here, free, bytes)) h =
    subst (λ x. IsCoalesced (hand_out w x p (c ∷ cs))) here (IsCoalesced-here w p c cs h)
hand_out-IsCoalesced w a p n (c ∷ cs) (inr at) (apart, h) =
    let above = FreeAt-ge a (past p c) n cs at in
    rw (later_chunk w a p c cs (omega arith)) (
      not_both c.is_free (first_free cs) (first_free (hand_out w a (past p c) cs))
          (hand_out-first_free w a (past p c) n cs at) apart,
      hand_out-IsCoalesced w a (past p c) n cs at h,
    )

pub link-hand_out :
    (w a p n : ℕ) (cs : List Chunk) → FreeAt a p cs n → link p (hand_out w a p cs) ≡ p
link-hand_out w a p n [] at = absurd at
link-hand_out w a p n (c ∷ cs) (inl (here, free, bytes)) =
    subst (λ x. link p (hand_out w x p (c ∷ cs)) ≡ p) here
      (elim (parts w p c cs) [ inl (exact, is) ↦ rw is refl | inr (inexact, is) ↦ rw is refl ])
link-hand_out w a p n (c ∷ cs) (inr at) =
    let above = FreeAt-ge a (past p c) n cs at in rw (later_chunk w a p c cs (omega arith)) refl
