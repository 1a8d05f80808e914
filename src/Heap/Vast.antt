-- ===== src/Heap/Vast.antt =====
-- A request for more than 2^31 bytes.
use sugarcat.Common.{
  ℕ, ◌+◌, ◌-◌, ◌^◌, ◌<◌, ◌≡◌, ◌≢◌, inl, inr, ap, ◌∙◌, List, [], ◌∷◌, length, arith, subst,
}
use sugarcat.Memory.{Memory}
use sugarcat.Heap.{size, entry_size, returned, round_size, kmalloc}
use sugarcat.Heap.Chunks.{Chunk, past, link}
use sugarcat.Heap.Release.{IsHeap}
use sugarcat.Heap.Search.{AllFree, FreeAt, NoneFits}
use sugarcat.Heap.Malloc.{hand_out, place}
use sugarcat.Heap.Alloc.{kmalloc-hand_out}
use sugarcat.Heap.Rounding.{round_size_high}
use sugarcat.Heap.Extents.{size-bytes_at, bytes_at-hand_out}
use sugarcat.Heap.Runs.{room}

AllFree-at : (P : ℕ → Type 0) (a p n : ℕ) (cs : List Chunk) → AllFree P cs → FreeAt a p cs n → P n
AllFree-at P a p n [] all at = absurd at
AllFree-at P a p n (c ∷ cs) (now, later) (inl (here, free, bytes)) = subst P bytes (now free)
AllFree-at P a p n (c ∷ cs) (now, later) (inr at) = AllFree-at P a (past p c) n cs later at

-- `kmalloc` of a size above 2^31 that is not a power of two, on a heap with a free chunk of more
-- than 16 bytes, does not return null: it returns a pointer to a block of no bytes.
pub kmalloc-vast :
    (fuel wanted start end a n : ℕ) (m : Memory) (cs : List Chunk)
    → IsHeap m start end cs
    → 2 ^ 31 < wanted
    → wanted < 2 ^ 32
    → FreeAt a start cs n
    → 16 < n
    → length cs < fuel
    → (x : ℕ) × (m' : Memory) × (kmalloc fuel (link start cs) m wanted ≡ returned x m')
      × (x ≢ 0)
      × (size m' (x - entry_size) ≡ 0)
kmalloc-vast fuel wanted start end a n m cs heap large word at wide enough =
    let none_left = round_size_high wanted large word in
    elim (kmalloc-hand_out fuel wanted start end m cs heap (omega arith) (omega (arith, none_left))
      enough) [
        | inl refused ↦ absurd (
            omega (
              arith,
              none_left,
              (AllFree-at (NoneFits (round_size wanted)) a start n cs refused.1 at).1,
            ))
        | inr al ↦
            let w = round_size wanted in
            let node = place w al.chunk al.room in
            let back : node + 16 - entry_size ≡ node = omega arith in
            let bytes =
              size-bytes_at al.memory end 0 start node (hand_out w al.chunk start cs) al.heap.tiles
                al.taken in
            let is =
              bytes_at-hand_out w al.chunk start al.room cs al.at
                (room m start end w cs (kmalloc fuel (link start cs) m wanted) al) in
            (
              node + 16,
              al.memory,
              al.result,
              omega arith,
              ap (size al.memory) back ∙ bytes ∙ is ∙ none_left,
            )
      ]
