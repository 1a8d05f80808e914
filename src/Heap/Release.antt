-- ===== src/Heap/Release.antt =====
-- `kfree` refines the freeing of a chunk in the list of chunks, and keeps free chunks apart.
use sugarcat.Common.{
  ℕ, ◌+◌, ◌^◌, ◌≤◌, ◌<◌, ◌≡◌, ◌≢◌, inl, inr, refl, ap, sym, ◌∙◌, Bool, true, false, not, List, [],
  ◌∷◌, arith, subst, sub32, ◌==◌, ==_ne, ==_refl, Bool-cases, if◌then◌else◌,
}
use sugarcat.Memory.{Memory}
use sugarcat.Heap.{status, status_allocated, release_entry, kfree}
use sugarcat.Heap.Chunks.{Chunk, status_of, past, link, Tiles}
use sugarcat.Heap.Free.{
  freed, absorb, join, release, Changed, absorb_cons, cons-Changed, release-first, release-second,
}

-- Whether a run of chunks at `p` has an allocated one at `a`.
abbrev pub taken_at : ℕ → ℕ → List Chunk → Bool
taken_at a p [] = false
taken_at a p (c ∷ cs) = if p == a then not c.is_free else taken_at a (past p c) cs

-- A heap from `start` to `end`, below the end of memory, is the list of its chunks.
pub record IsHeap (m : Memory) (start end : ℕ) (cs : List Chunk) : Type 0 where
  pub tiles : Tiles m end 0 start cs
  pub word : end < 2 ^ 32

link-join : (p : ℕ) (c : Chunk) (ys : List Chunk) → link p (join c ys) ≡ p
link-join p c [] = refl
link-join p c (y ∷ ys) = ground arith

pub link-release : (a p : ℕ) (c : Chunk) (cs : List Chunk) → link p (release a p (c ∷ cs)) ≡ p
unfolding release
link-release a p c cs =
    let (x, xs, split) = absorb_cons (freed c) cs in
    ground (arith, split, link-join p c (release a (past p c) cs))

release-at :
    (a p : ℕ) (c : Chunk) (cs : List Chunk)
    → p ≡ a
    → c.is_free ≡ false
    → release a p (c ∷ cs) ≡ absorb (freed c) cs
unfolding release
release-at a p c cs here taken = rw (here, ==_refl a, taken) refl

release-next :
    (a p : ℕ) (b : Chunk) (cs : List Chunk)
    → p ≢ a
    → past p b ≡ a
    → release a p (b ∷ cs) ≡ join b (release a (past p b) cs)
unfolding release
release-next a p b cs other here = rw (==_ne p a other, here, ==_refl a) refl

release-past :
    (a p : ℕ) (b : Chunk) (cs : List Chunk)
    → p ≢ a
    → past p b ≢ a
    → release a p (b ∷ cs) ≡ b ∷ release a (past p b) cs
unfolding release
release-past a p b cs other there = rw (==_ne p a other, ==_ne (past p b) a there) refl

taken-eq-allocated :
    (m : Memory) (end prv p a : ℕ) (cs : List Chunk)
    → Tiles m end prv p cs
    → taken_at a p cs ≡ true
    → (status m a ≡ status_allocated) × (0 < a) × (a + 16 ≤ end)
taken-eq-allocated m end prv p a [] t taken = cc
taken-eq-allocated m end prv p a (c ∷ cs) t taken = elim (Bool-cases (p == a)) [
  | inl here ↦
      let same : p ≡ a = ground arith in
      let used : c.is_free ≡ false = ground arith in
      (ap (status m) (sym same) ∙ t.2.0 ∙ ap status_of used, omega (arith, t.0), omega (arith, t.1))
  | inr other ↦ taken-eq-allocated m end p (past p c) a cs t.3 (ground arith)
]

release-later :
    (m : Memory) (end prv p a : ℕ) (b : Chunk) (cs : List Chunk)
    → end < 2 ^ 32
    → Tiles m end prv p (b ∷ cs)
    → p ≢ a
    → taken_at a (past p b) cs ≡ true
    → Changed m end prv p (release a p (b ∷ cs)) (release_entry m a)
release-later m end prv p a b [] word t other taken = cc
release-later m end prv p a b (c ∷ ds) word t other taken = elim (Bool-cases (past p b == a)) [
  | inl at ↦
      let here : past p b ≡ a = ground arith in
      let used : c.is_free ≡ false = ground arith in
      let is : release a p (b ∷ c ∷ ds) ≡ join b (absorb (freed c) ds) =
        release-next a p b (c ∷ ds) other here
        ∙ ap (join b) (release-at a (past p b) c ds here used) in
      subst (λ cs. Changed m end prv p cs (release_entry m a)) (sym is)
        (subst (λ x. Changed m end prv p (join b (absorb (freed c) ds)) (release_entry m x)) here
          (release-second m end prv p b c ds word t))
  | inr apart ↦
      let there : past p b ≢ a = ground arith in
      let rest = release-later m end p (past p b) a c ds word t.3 there (ground arith) in
      subst (λ cs. Changed m end prv p cs (release_entry m a))
        (sym (release-past a p b (c ∷ ds) other there))
        (cons-Changed m (release_entry m a) end prv p b c ds (release a (past p b) (c ∷ ds)) t
          (link-release a (past p b) c ds) rest)
]

kfree-release_entry :
    (m : Memory) (a : ℕ)
    → 0 < a
    → a + 16 < 2 ^ 32
    → status m a ≡ status_allocated
    → kfree m (a + 16) ≡ release_entry m a
unfolding kfree
kfree-release_entry m a here fits used =
    let node : sub32 (a + 16) 16 ≡ a = omega arith in
    rw (==_ne (a + 16) 0 (omega arith), node, used) refl

-- Freeing a chunk that the heap has handed out frees it in the list of chunks, together with
-- whichever of its neighbours is free, and leaves a heap of the same extent.
pub kfree-release :
    (m : Memory) (start end a : ℕ) (cs : List Chunk)
    → IsHeap m start end cs
    → taken_at a start cs ≡ true
    → IsHeap (kfree m (a + 16)) start end (release a start cs)
kfree-release m start end a [] heap taken = cc
kfree-release m start end a (c ∷ cs) heap taken =
    let (used, there, fits) = taken-eq-allocated m end 0 start a (c ∷ cs) heap.tiles taken in
    let step = kfree-release_entry m a there (omega (arith, heap.word)) used in
    subst (λ m'. IsHeap m' start end (release a start (c ∷ cs))) (sym step)
      (record {
        tiles = elim (Bool-cases (start == a)) [
          | inl at ↦
              let here : start ≡ a = ground arith in
              let free_not : c.is_free ≡ false = ground arith in
              subst (λ cs'. Tiles (release_entry m a) end 0 start cs')
                (sym (release-at a start c cs here free_not))
                (subst (λ x. Tiles (release_entry m x) end 0 start (absorb (freed c) cs)) here
                  (release-first m end start c cs heap.word heap.tiles))
          | inr later ↦
              (release-later m end 0 start a c cs heap.word heap.tiles (ground arith)
                (ground arith)).0
        ];
        word = heap.word;
      })
