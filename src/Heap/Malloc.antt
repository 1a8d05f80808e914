-- ===== src/Heap/Malloc.antt =====
-- `kmalloc` refines the handing out of a chunk from the list of chunks.
use sugarcat.Common.{
  ℕ, ◌+◌, ◌-◌, ◌^◌, ◌≤◌, ◌<◌, ◌≡◌, ◌≢◌, ◌⊎◌, inl, inr, refl, ap, sym, ◌∙◌, true, false, List, [],
  ◌∷◌, arith, subst, u32, ◌==◌, ==_ne, ==_refl, if◌then◌else◌,
}
use sugarcat.Memory.{Memory}
use sugarcat.Memory.Laws.{load32-store32_apart}
use sugarcat.Heap.{status_allocated, set_status, returned, take_entry, break_chunk}
use sugarcat.Heap.Chunks.{Chunk, past, link, Tiles}
use sugarcat.Heap.Free.{Changed, Tiles-status, cons-Changed}
use sugarcat.Heap.Release.{taken_at}
use sugarcat.Heap.Search.{FreeAt}
use sugarcat.Heap.Split.{rest_of, taken_of, break_chunk-eq, split-Changed}

-- Handing out `w` bytes from the chunk at `a`.
unfoldable pub hand_out : (w a p : ℕ) → List Chunk → List Chunk
hand_out w a p [] = []
hand_out w a p (c ∷ cs) =
    if p == a
    then (if c.bytes == w then record c { is_free = false } ∷ cs else rest_of w c ∷ taken_of w ∷ cs)
    else c ∷ hand_out w a (past p c) cs

-- Where the chunk is that was handed out from one of `n` bytes at `a`.
abbrev pub place : (w a n : ℕ) → ℕ
place w a n = if n == w then a else a + 16 + (n - (w + 16))

-- What handing out makes of the memory.
pub record HandedOut (m : Memory) (end prv p w a n : ℕ) (cs : List Chunk) (m' : Memory)
    : Type 0 where
  pub taken : take_entry m w a (n == w) ≡ returned (place w a n + 16) m'
  pub changed : Changed m end prv p (hand_out w a p cs) m'
  pub there : taken_at (place w a n) p (hand_out w a p cs) ≡ true
  pub linked : link p (hand_out w a p cs) ≡ p

pub whole_chunk :
    (w p : ℕ) (c : Chunk) (cs : List Chunk)
    → c.bytes ≡ w
    → hand_out w p p (c ∷ cs) ≡ record c { is_free = false } ∷ cs
unfolding hand_out
whole_chunk w p c cs exact =
    let is : (c.bytes == w) ≡ true = ground arith in rw (==_refl p, is) refl

pub split_chunk :
    (w p : ℕ) (c : Chunk) (cs : List Chunk)
    → c.bytes ≢ w
    → hand_out w p p (c ∷ cs) ≡ rest_of w c ∷ taken_of w ∷ cs
unfolding hand_out
split_chunk w p c cs inexact = rw (==_refl p, ==_ne c.bytes w inexact) refl

pub later_chunk :
    (w a p : ℕ) (c : Chunk) (cs : List Chunk)
    → p ≢ a
    → hand_out w a p (c ∷ cs) ≡ c ∷ hand_out w a (past p c) cs
unfolding hand_out
later_chunk w a p c cs other = rw (==_ne p a other) refl

-- The parts of `HandedOut` that are about the list, for the list that handing out comes to.
HandedOut-of :
    (m : Memory) (end prv p w a n : ℕ) (cs out : List Chunk) (m' : Memory)
    → hand_out w a p cs ≡ out
    → take_entry m w a (n == w) ≡ returned (place w a n + 16) m'
    → Changed m end prv p out m'
    → taken_at (place w a n) p out ≡ true
    → link p out ≡ p
    → HandedOut m end prv p w a n cs m'
HandedOut-of m end prv p w a n cs out m' is taken changed there linked = record {
  taken = taken;
  changed = subst (λ l. Changed m end prv p l m') (sym is) changed;
  there = ap (taken_at (place w a n) p) is ∙ there;
  linked = ap (link p) is ∙ linked;
}

hand_out-exact :
    (m : Memory) (end prv p w : ℕ) (c : Chunk) (cs : List Chunk)
    → Tiles m end prv p (c ∷ cs)
    → end < 2 ^ 32
    → c.bytes ≡ w
    → HandedOut m end prv p w p w (c ∷ cs) (set_status m p status_allocated)
unfolding take_entry
hand_out-exact m end prv p w c cs t word exact =
    let ptr : u32 (p + 16) ≡ p + 16 = omega (arith, t.1) in
    HandedOut-of m end prv p w p w (c ∷ cs) (record c { is_free = false } ∷ cs)
      (set_status m p status_allocated) (whole_chunk w p c cs exact) (rw (==_refl w, ptr) refl)
      (
        Tiles-status m end prv p c cs false t,
        λ a below. load32-store32_apart m p a status_allocated (omega arith),
      )
      (rw (==_refl w, ==_refl p) refl) refl

hand_out-split :
    (m : Memory) (end prv p w : ℕ) (c : Chunk) (cs : List Chunk)
    → Tiles m end prv p (c ∷ cs)
    → end < 2 ^ 32
    → c.is_free ≡ true
    → w + 16 < c.bytes
    → (m' : Memory) × HandedOut m end prv p w p c.bytes (c ∷ cs) m'
unfolding take_entry
hand_out-split m end prv p w c cs t word free large =
    let node = past p (rest_of w c) in
    let broken = break_chunk-eq m end prv p w c cs t word free large in
    let m' = set_status (break_chunk m p w).1 node status_allocated in
    let ptr : u32 (node + 16) ≡ node + 16 = omega (arith, t.1) in
    let apart : c.bytes ≢ w = omega arith in
    (
      m',
      HandedOut-of m end prv p w p c.bytes (c ∷ cs) (rest_of w c ∷ taken_of w ∷ cs) m'
          (split_chunk w p c cs apart)
          (rw (==_ne c.bytes w apart, broken, ==_ne node 0 (omega arith), ptr) refl)
          (subst
            (λ b.
              Changed m end prv p (rest_of w c ∷ taken_of w ∷ cs)
                (set_status b node status_allocated))
            (sym (ap (λ b. b.1) broken)) (split-Changed m end prv p w c cs t word free large))
          (rw (==_ne c.bytes w apart, ==_ne p node (omega arith), ==_refl node) refl) refl,
    )

pub FreeAt-ge : (a p n : ℕ) (cs : List Chunk) → FreeAt a p cs n → p ≤ a
FreeAt-ge a p n [] at = absurd at
FreeAt-ge a p n (c ∷ cs) (inl at) = omega arith
FreeAt-ge a p n (c ∷ cs) (inr at) = omega (arith, FreeAt-ge a (past p c) n cs at)

-- Handing out from a free chunk anywhere in a run.
pub hand_out-HandedOut :
    (m : Memory) (end prv p w a n : ℕ) (cs : List Chunk)
    → Tiles m end prv p cs
    → end < 2 ^ 32
    → FreeAt a p cs n
    → (n ≡ w) ⊎ (w + 16 < n)
    → (m' : Memory) × HandedOut m end prv p w a n cs m'
hand_out-HandedOut m end prv p w a n [] t word at fits = absurd at
hand_out-HandedOut m end prv p w a n (c ∷ cs) t word (inl (here, free, size)) (inl exact) = (
  set_status m a status_allocated,
  subst (λ x. HandedOut m end prv p w x n (c ∷ cs) (set_status m x status_allocated)) here
      (subst (λ x. HandedOut m end prv p w p x (c ∷ cs) (set_status m p status_allocated))
        (sym exact) (hand_out-exact m end prv p w c cs t word (size ∙ exact))),
)
hand_out-HandedOut m end prv p w a n (c ∷ cs) t word (inl (here, free, size)) (inr large) =
    let (m', out) = hand_out-split m end prv p w c cs t word free (omega arith) in
    (
      m',
      subst (λ x. HandedOut m end prv p w x n (c ∷ cs) m') here
          (subst (λ x. HandedOut m end prv p w p x (c ∷ cs) m') size out),
    )
hand_out-HandedOut m end prv p w a n (c ∷ []) t word (inr at) fits = absurd at
hand_out-HandedOut m end prv p w a n (c ∷ d ∷ ds) t word (inr at) fits =
    let (m', out) = hand_out-HandedOut m end p (past p c) w a n (d ∷ ds) t.3 word at fits in
    let above = FreeAt-ge a (past p c) n (d ∷ ds) at in
    let other : p ≢ a = omega arith in
    let before : p ≢ place w a n = ground arith in
    let rest = hand_out w a (past p c) (d ∷ ds) in
    (
      m',
      HandedOut-of m end prv p w a n (c ∷ d ∷ ds) (c ∷ rest) m' (later_chunk w a p c (d ∷ ds) other)
          out.taken (cons-Changed m m' end prv p c d ds rest t out.linked out.changed)
          (rw (==_ne p (place w a n) before) out.there) refl,
    )
