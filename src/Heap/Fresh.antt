-- ===== src/Heap/Fresh.antt =====
-- A fresh page, the pointers that a client holds, and what calls return.
use sugarcat.Common.{
  ℕ, ◌+◌, ◌^◌, ◌<◌, ◌≡◌, ◌≢◌, refl, ap, ◌∙◌, true, false, List, [], ◌∷◌, arith, ◌==◌,
}
use sugarcat.Memory.{Memory}
use sugarcat.Memory.Laws.{load32-store32, load32-store32_apart}
use sugarcat.Heap.{
  heap_init, page_size, Outcome, returned, exited, out_of_fuel, kmalloc, kfree, status_free,
}
use sugarcat.Heap.Chunks.{Chunk, link, Tiles}
use sugarcat.Heap.Free.{release}
use sugarcat.Heap.Release.{taken_at, link-release}
use sugarcat.Heap.Client.{among, drop_pointer}

abbrev pub whole_page : List Chunk
whole_page = record { bytes = 4080; is_free = true } ∷ []

pub heap_init-Tiles :
    (m : Memory) (start : ℕ)
    → 0 < start
    → start + page_size < 2 ^ 32
    → Tiles (heap_init m start) (start + page_size) 0 start whole_page
unfolding heap_init
heap_init-Tiles m start there word = (
  there,
  omega arith,
  (
    load32-store32 _ start status_free (omega arith),
    load32-store32_apart _ start (start + 4) status_free (omega arith)
        ∙ load32-store32 _ (start + 4) 4080 (omega arith),
    load32-store32_apart _ start (start + 8) status_free (omega arith)
        ∙ load32-store32_apart _ (start + 4) (start + 8) 4080 (omega arith)
        ∙ load32-store32_apart _ (start + 12) (start + 8) 0 (omega arith)
        ∙ load32-store32 m (start + 8) 0 (omega arith),
    load32-store32_apart _ start (start + 12) status_free (omega arith)
        ∙ load32-store32_apart _ (start + 4) (start + 12) 4080 (omega arith)
        ∙ load32-store32 _ (start + 12) 0 (omega arith),
  ),
  omega arith,
)

pub among-drop :
    (x ptr : ℕ) (held : List ℕ)
    → among x (drop_pointer ptr held) ≡ true
    → (among x held ≡ true) × (x ≢ ptr)
among-drop x ptr [] h = cc
among-drop x ptr (y ∷ ys) h = ground (arith, among-drop x ptr ys)

pub same_number : (y x : ℕ) → (y == x) ≡ true → x ≡ y
same_number y x h = ground arith

pub among-other :
    (x y : ℕ) (held : List ℕ) → among x (y ∷ held) ≡ true → (y == x) ≡ false → among x held ≡ true
among-other x y held h other = ground arith

pointer_of : Outcome → ℕ
pointer_of exited = 0
pointer_of out_of_fuel = 0
pointer_of (returned ptr m) = ptr

memory_of : Memory → Outcome → Memory
memory_of m exited = m
memory_of m out_of_fuel = m
memory_of m (returned ptr m') = m'

pub returned-pointer : (x y : ℕ) (m m' : Memory) → returned x m ≡ returned y m' → x ≡ y
unfolding pointer_of
returned-pointer x y m m' same = ap pointer_of same

pub returned-memory : (x y : ℕ) (m m' : Memory) → returned x m ≡ returned y m' → m ≡ m'
unfolding memory_of
returned-memory x y m m' same = ap (memory_of m) same

pub kmalloc-zero : (fuel head : ℕ) (m : Memory) → kmalloc fuel head m 0 ≡ returned 0 m
unfolding kmalloc
kmalloc-zero fuel head m = refl

pub kfree-null : (m : Memory) → kfree m 0 ≡ m
unfolding kfree
kfree-null m = refl

pub release-first_link :
    (a p : ℕ) (cs : List Chunk) → taken_at a p cs ≡ true → link p (release a p cs) ≡ p
release-first_link a p [] taken = cc
release-first_link a p (c ∷ cs) taken = link-release a p c cs
