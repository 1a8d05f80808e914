-- ===== src/Heap/Client.antt =====
-- A program that uses the allocator as `alloc_test` of test.c does: it asks for sizes, keeps the
-- pointers that it gets, and frees pointers that it keeps. A state is memory and those pointers.
use sugarcat.Common.{
  ℕ, ◌+◌, ◌^◌, ◌≤◌, ◌≡◌, Bool, true, false, ◌||◌, List, [], ◌∷◌, ◌==◌, if◌then◌else◌,
}
use sugarcat.Memory.{Memory}
use sugarcat.Heap.{heap_init, page_size, returned, kmalloc, kfree}
use sugarcat.Heap.Chunks.{Chunk, link}
use sugarcat.Heap.Release.{IsHeap, taken_at}
use sugarcat.Heap.Apart.{IsCoalesced}

pub record Client : Type 0 where
  pub memory : Memory
  pub held : List ℕ

abbrev pub among : ℕ → List ℕ → Bool
among x [] = false
among x (y ∷ ys) = (y == x) || among x ys

abbrev pub keep : ℕ → List ℕ → List ℕ
keep ptr held = if ptr == 0 then held else ptr ∷ held

abbrev pub drop_pointer : ℕ → List ℕ → List ℕ
drop_pointer ptr [] = []
drop_pointer ptr (y ∷ ys) = if y == ptr then drop_pointer ptr ys else y ∷ drop_pointer ptr ys

-- One round more than a page has room for headers.
abbrev pub rounds : ℕ
rounds = 257

-- The client's steps: a request for up to 2^31 bytes that returns, and the freeing of null or of a
-- pointer that is held.
pub data Step (start : ℕ) : Client → Client → Type 0 where
  malloc :
      {m m' : Memory} {held : List ℕ} (wanted ptr : ℕ)
      → wanted ≤ 2 ^ 31
      → kmalloc rounds start m wanted ≡ returned ptr m'
      → Step start
          (record { memory = m; held = held })
          (record { memory = m'; held = keep ptr held })
  free_null :
      {m : Memory} {held : List ℕ}
      → Step start (record { memory = m; held = held }) (record { memory = kfree m 0; held = held })
  free :
      {m : Memory} {held : List ℕ} (ptr : ℕ)
      → among ptr held ≡ true
      → Step start
          (record { memory = m; held = held })
          (record { memory = kfree m ptr; held = drop_pointer ptr held })

-- What a client can come to from a fresh page.
pub data Reach (start : ℕ) : Client → Type 0 where
  fresh : (m : Memory) → Reach start (record { memory = heap_init m start; held = [] })
  then_step : {c c' : Client} → Reach start c → Step start c c' → Reach start c'

-- Memory is a heap whose free chunks do not lie next to one another, its first chunk is at the
-- start, and each pointer that is held is past the header of a taken chunk.
pub record Sound (start : ℕ) (c : Client) : Type 0 where
  pub chunks : List Chunk
  pub heap : IsHeap c.memory start (start + page_size) chunks
  pub apart : IsCoalesced chunks
  pub first : link start chunks ≡ start
  pub taken :
      (x : ℕ) → among x c.held ≡ true → (a : ℕ) × (x ≡ a + 16) × (taken_at a start chunks ≡ true)
