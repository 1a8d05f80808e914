-- ===== src/Heap/Chunks.antt =====
-- A heap as the list of its chunks: the abstract view, and what writes leave of it.
use sugarcat.Common.{
  ℕ, ◌+◌, ◌^◌, ◌≤◌, ◌<◌, ◌≡◌, ◌≢◌, ◌⊎◌, refl, sym, ◌∙◌, subst, Bool, true, false, List, [], ◌∷◌,
  arith, ◌==◌, inl,
}
use sugarcat.Memory.{Memory, load32, store32}
use sugarcat.Memory.Laws.{load32-store32, load32-store32_apart}
use sugarcat.Heap.{
  status, size, next, prev, set_prev, status_free, status_allocated, entry_size, relink,
}

pub record Chunk : Type 0 where
  pub bytes : ℕ
  pub is_free : Bool

abbrev pub status_of : Bool → ℕ
status_of true = status_free
status_of false = status_allocated

pub is_free-status : (b : Bool) → (status_of b == status_free) ≡ b
is_free-status true = refl
is_free-status false = refl

-- The address after a chunk at `p`.
abbrev pub past : ℕ → Chunk → ℕ
past p c = p + entry_size + c.bytes

-- The pointer to a list of chunks at `p`.
abbrev pub link : ℕ → List Chunk → ℕ
link p [] = 0
link p (c ∷ cs) = p

-- The header at `p` of a chunk between the entries at `prv` and `nxt`.
abbrev pub Header : Memory → ℕ → ℕ → ℕ → Chunk → Type 0
Header m prv p nxt c =
    (status m p ≡ status_of c.is_free) × (size m p ≡ c.bytes) × (next m p ≡ nxt) × (prev m p ≡ prv)

-- The chunks lie one after the other from `p` to `end`, and the entry before them is at `prv`.
abbrev pub Tiles : Memory → (end prv p : ℕ) → List Chunk → Type 0
Tiles m end prv p [] = p ≡ end
Tiles m end prv p (c ∷ cs) =
    (0 < p) × (past p c ≤ end) × Header m prv p (link (past p c) cs) c × Tiles m end p (past p c) cs

pub Header-store32 :
    (m : Memory) (prv p nxt b v : ℕ) (c : Chunk)
    → Header m prv p nxt c
    → (b + 4 ≤ p) ⊎ (p + 16 ≤ b)
    → Header (store32 m b v) prv p nxt c
Header-store32 m prv p nxt b v c (hs, hz, hn, hp) apart = (
  load32-store32_apart m b p v (omega arith) ∙ hs,
  load32-store32_apart m b (p + 4) v (omega arith) ∙ hz,
  load32-store32_apart m b (p + 8) v (omega arith) ∙ hn,
  load32-store32_apart m b (p + 12) v (omega arith) ∙ hp,
)

-- A write below a run of chunks leaves it.
pub Tiles-store32 :
    (m : Memory) (end prv p b v : ℕ) (cs : List Chunk)
    → Tiles m end prv p cs
    → b + 4 ≤ p
    → Tiles (store32 m b v) end prv p cs
Tiles-store32 m end prv p b v [] t below = t
Tiles-store32 m end prv p b v (c ∷ cs) (here, fits, h, t) below = (
  here,
  fits,
  Header-store32 m prv p (link (past p c) cs) b v c h (inl below),
  Tiles-store32 m end p (past p c) b v cs t (omega arith),
)

pub relink-ne : (m : Memory) (p v : ℕ) → p ≢ 0 → relink m p v ≡ set_prev m p v
unfolding relink
relink-ne m p v there = ground arith

pub relink-null : (m : Memory) (v : ℕ) → relink m 0 v ≡ m
unfolding relink
relink-null m v = refl

Tiles-set_prev :
    (m : Memory) (end prv p v : ℕ) (c : Chunk) (cs : List Chunk)
    → Tiles m end prv p (c ∷ cs)
    → v < 2 ^ 32
    → Tiles (set_prev m p v) end v p (c ∷ cs)
Tiles-set_prev m end prv p v c cs (here, fits, (hs, hz, hn, hp), t) word = (
  here,
  fits,
  (
    load32-store32_apart m (p + 12) p v (omega arith) ∙ hs,
    load32-store32_apart m (p + 12) (p + 4) v (omega arith) ∙ hz,
    load32-store32_apart m (p + 12) (p + 8) v (omega arith) ∙ hn,
    load32-store32 m (p + 12) v word,
  ),
  Tiles-store32 m end p (past p c) (p + 12) v cs t (omega arith),
)

-- Linking a run back to another entry.
pub Tiles-relink :
    (m : Memory) (end prv p v : ℕ) (cs : List Chunk)
    → Tiles m end prv p cs
    → v < 2 ^ 32
    → Tiles (relink m (link p cs) v) end v p cs
Tiles-relink m end prv p v [] t word = t
Tiles-relink m end prv p v (c ∷ cs) t word =
    subst (λ m'. Tiles m' end v p (c ∷ cs)) (sym (relink-ne m p v (omega (arith, t.0))))
      (Tiles-set_prev m end prv p v c cs t word)

pub load32-relink :
    (m : Memory) (p v a : ℕ) (cs : List Chunk)
    → a + 4 ≤ p + 12
    → load32 (relink m (link p cs) v) a ≡ load32 m a
unfolding relink
load32-relink m p v a [] below = refl
load32-relink m p v a (c ∷ cs) below = ground (arith, load32-store32_apart m (p + 12) a v)

pub link-lt :
    (m : Memory) (end prv p : ℕ) (cs : List Chunk)
    → Tiles m end prv p cs
    → end < 2 ^ 32
    → link p cs < 2 ^ 32
link-lt m end prv p [] t word = omega arith
link-lt m end prv p (c ∷ cs) t word = omega arith
