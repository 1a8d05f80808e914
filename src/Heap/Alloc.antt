-- ===== src/Heap/Alloc.antt =====
-- `kmalloc` as a whole: what it hands out, and when it has nothing.
use sugarcat.Common.{
  ℕ, ◌+◌, ◌^◌, ◌<◌, ◌≡◌, ◌⊎◌, inl, inr, refl, sym, Bool, true, false, some, List, [], ◌∷◌, length,
  arith, ◌==◌, ==_ne, ==_refl,
}
use sugarcat.Memory.{Memory}
use sugarcat.Heap.{Outcome, returned, round_size, after_search, kmalloc}
use sugarcat.Heap.Chunks.{Chunk, link, Tiles}
use sugarcat.Heap.Release.{IsHeap, taken_at}
use sugarcat.Heap.Search.{AllFree, FreeAt, NoneBelow, NoneFits, Verdict, find_best_fit-Verdict}
use sugarcat.Heap.Malloc.{hand_out, place, hand_out-HandedOut, FreeAt-ge}

-- The chunk that was handed out is a free one, of exactly the size or else the smallest that can be
-- split; the pointer is past its header; and what is left is a heap in which it is taken.
pub record Allocated (m : Memory) (start end w : ℕ) (cs : List Chunk) (o : Outcome) : Type 0 where
  pub chunk : ℕ
  pub room : ℕ
  pub memory : Memory
  pub at : FreeAt chunk start cs room
  pub fits : (room ≡ w) ⊎ ((w + 16 < room) × AllFree (NoneBelow w room) cs)
  pub result : o ≡ returned (place w chunk room + 16) memory
  pub heap : IsHeap memory start end (hand_out w chunk start cs)
  pub taken : taken_at (place w chunk room) start (hand_out w chunk start cs) ≡ true

-- Nothing fits, and nothing changes.
abbrev pub Refused : Memory → ℕ → List Chunk → Outcome → Type 0
Refused m w cs o = (o ≡ returned 0 m) × AllFree (NoneFits w) cs

Tiles-positive :
    (m : Memory) (end prv p a n : ℕ) (cs : List Chunk)
    → Tiles m end prv p cs
    → FreeAt a p cs n
    → 0 < a
Tiles-positive m end prv p a n [] t at = absurd at
Tiles-positive m end prv p a n (c ∷ cs) t at = omega (arith, t.0, FreeAt-ge a p n (c ∷ cs) at)

allocate :
    (m : Memory) (start end w a n : ℕ) (cs : List Chunk) (b : Bool)
    → IsHeap m start end cs
    → FreeAt a start cs n
    → (n == w) ≡ b
    → (n ≡ w) ⊎ ((w + 16 < n) × AllFree (NoneBelow w n) cs)
    → Allocated m start end w cs (after_search m w (some (a, b)))
unfolding after_search
allocate m start end w a n cs b heap at exact fits =
    let room : (n ≡ w) ⊎ (w + 16 < n) = ground arith in
    let (m', out) = hand_out-HandedOut m end 0 start w a n cs heap.tiles heap.word at room in
    record {
      chunk = a;
      room = n;
      memory = m';
      at = at;
      fits = fits;
      result =
          rw
            (
              ==_ne a 0 (omega (arith, Tiles-positive m end 0 start a n cs heap.tiles at)),
              sym exact,
            )
            out.taken;
      heap = record { tiles = out.changed.0; word = heap.word };
      taken = out.there;
    }

decide :
    (m : Memory) (start end w : ℕ) (cs : List Chunk) (r : ℕ × Bool)
    → IsHeap m start end cs
    → Verdict w start cs 0 0 r
    → Refused m w cs (after_search m w (some r))
      ⊎ Allocated m start end w cs (after_search m w (some r))
unfolding after_search
decide m start end w cs (a, true) heap v =
    inr (allocate m start end w a w cs true heap v (==_refl w) (inl refl))
decide m start end w cs (a, false) heap (inl (n, at, fits, _, all)) =
    inr (allocate m start end w a n cs false heap at (==_ne n w (omega arith)) (inr (fits, all)))
decide m start end w cs (a, false) heap (inr (inl (_, some_nb, _))) = absurd (omega arith)
decide m start end w cs (a, false) heap (inr (inr (null, _, all))) = inl (rw null refl, all)

pub kmalloc-hand_out :
    (fuel wanted start end : ℕ) (m : Memory) (cs : List Chunk)
    → IsHeap m start end cs
    → 0 < wanted
    → round_size wanted + 16 < 2 ^ 32
    → length cs < fuel
    → Refused m (round_size wanted) cs (kmalloc fuel (link start cs) m wanted)
      ⊎ Allocated m start end (round_size wanted) cs (kmalloc fuel (link start cs) m wanted)
unfolding kmalloc
kmalloc-hand_out fuel wanted start end m cs heap positive small enough =
    let w = round_size wanted in
    let (r, found, v) = find_best_fit-Verdict fuel w start end m cs heap.tiles small enough in
    rw (==_ne wanted 0 (omega arith), found) (decide m start end w cs r heap v)
