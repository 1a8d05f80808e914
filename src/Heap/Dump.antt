-- ===== src/Heap/Dump.antt =====
-- `dump_entries` of test.c: the numbers that it prints last.
use sugarcat.Common.{
  ℕ, zero, suc, ◌+◌, ◌-◌, ◌*◌, ◌^◌, ◌≤◌, ◌<◌, ◌≡◌, refl, ap, sym, ◌∙◌, Option, none, some, List, [],
  ◌∷◌, length, arith, u32, ◌==◌, ==_ne, Bool-cases, inl, inr, if◌then◌else◌, ◌>>=◌,
}
use sugarcat.Memory.{Memory}
use sugarcat.Heap.{status, size, next, status_allocated, entry_size, page_size}
use sugarcat.Heap.Chunks.{Chunk, status_of, past, link, Tiles}
use sugarcat.Heap.Release.{IsHeap}
use sugarcat.Heap.Client.{Client, rounds, Reach}
use sugarcat.Heap.Safety.{Reach-Sound}
use sugarcat.Heap.Extents.{length-Tiles}

-- The loop; the results are the sum of the sizes, that of the sizes of free entries, and the count.
unfoldable pub dump_loop : ℕ → Memory → (node total total_free i : ℕ) → Option (ℕ × ℕ × ℕ)
dump_loop zero m node total total_free i = none
dump_loop (suc fuel) m node total total_free i =
    let total_free' =
      if status m node == status_allocated then total_free else u32 (total_free + size m node) in
    let rest = dump_loop fuel m (next m node) (u32 (total + size m node)) total_free' (i + 1) in
    if node == 0 then some (total, total_free, i) else rest

-- TOTAL, TOTAL_FREE, TOTAL NODES and capacity.
unfoldable pub dump_entries : ℕ → Memory → (head : ℕ) → Option (ℕ × ℕ × ℕ × ℕ)
unfolding dump_loop
dump_entries fuel m head = dump_loop fuel m head 0 0 0 >>= λ (total, total_free, i).
    some (u32 (total + i * entry_size), total_free, i, u32 (i * entry_size))

abbrev pub all_bytes : List Chunk → ℕ
all_bytes [] = 0
all_bytes (c ∷ cs) = c.bytes + all_bytes cs

abbrev pub free_bytes : List Chunk → ℕ
free_bytes [] = 0
free_bytes (c ∷ cs) = (if c.is_free then c.bytes else 0) + free_bytes cs

free_bytes-le : (cs : List Chunk) → free_bytes cs ≤ all_bytes cs
free_bytes-le [] = omega arith
free_bytes-le (c ∷ cs) = ground (arith, free_bytes-le cs)

all_bytes-Tiles :
    (m : Memory) (end prv p : ℕ) (cs : List Chunk)
    → Tiles m end prv p cs
    → p + (all_bytes cs + 16 * length cs) ≡ end
all_bytes-Tiles m end prv p [] t = omega arith
all_bytes-Tiles m end prv p (c ∷ cs) t = omega (arith, all_bytes-Tiles m end p (past p c) cs t.3)

abbrev sums_of : ℕ → ℕ → ℕ → Option (ℕ × ℕ × ℕ)
sums_of a b c = some (a, b, c)

same_sums : (a a' b b' c c' : ℕ) → a ≡ a' → b ≡ b' → c ≡ c' → sums_of a b c ≡ sums_of a' b' c'
same_sums a a' b b' c c' x y z = rw (x, y, z) refl

-- What an entry adds to the sum of the free ones.
free_step :
    (free : ℕ) (c : Chunk)
    → free + c.bytes < 2 ^ 32
    → (if status_of c.is_free == status_allocated then free else u32 (free + c.bytes))
      ≡ free + (if c.is_free then c.bytes else 0)
free_step free c small = elim (Bool-cases c.is_free) [
  | inl is ↦ rw is (omega arith)
  | inr taken ↦ rw taken (omega arith)
]

dump_loop-sums :
    (fuel total total_free i end prv p : ℕ) (m : Memory) (cs : List Chunk)
    → Tiles m end prv p cs
    → length cs < fuel
    → total + all_bytes cs < 2 ^ 32
    → total_free ≤ total
    → dump_loop fuel m (link p cs) total total_free i
      ≡ some (total + all_bytes cs, total_free + free_bytes cs, i + length cs)
unfolding dump_loop
dump_loop-sums zero total free i end prv p m cs t enough small less = absurd (omega arith)
dump_loop-sums (suc fuel) total free i end prv p m [] t enough small less =
    same_sums total (total + 0) free (free + 0) i (i + 0) (omega arith) (omega arith) (omega arith)
dump_loop-sums (suc fuel) total free i end prv p m (c ∷ cs) t enough small less =
    let more = if c.is_free then c.bytes else 0 in
    let sum : u32 (total + c.bytes) ≡ total + c.bytes = omega arith in
    let at_most : more ≤ c.bytes = ground arith in
    rw (==_ne p 0 (omega (arith, t.0)), t.2.0, t.2.1, t.2.2, free_step free c (omega arith), sum)
      (dump_loop-sums fuel (total + c.bytes) (free + more) (i + 1) end p (past p c) m cs t.3
          (omega arith) (omega arith) (omega arith)
        ∙ same_sums _ (total + (c.bytes + all_bytes cs)) _ (free + (more + free_bytes cs)) _
            (i + suc (length cs)) (omega arith) (omega arith) (omega arith))

IsHeap-sums :
    (fuel start end : ℕ) (m : Memory) (cs : List Chunk)
    → IsHeap m start end cs
    → length cs < fuel
    → dump_entries fuel m (link start cs)
      ≡ some (end - start, free_bytes cs, length cs, length cs * 16)
unfolding dump_entries
IsHeap-sums fuel start end m cs heap enough =
    let whole = all_bytes-Tiles m end 0 start cs heap.tiles in
    let sums =
      dump_loop-sums fuel 0 0 0 end 0 start m cs heap.tiles enough (omega (arith, heap.word))
        (omega arith) in
    let total : u32 (0 + all_bytes cs + (0 + length cs) * 16) ≡ end - start =
      omega (arith, heap.word) in
    let capacity : u32 ((0 + length cs) * 16) ≡ length cs * 16 = omega (arith, heap.word) in
    let none_more : 0 + free_bytes cs ≡ free_bytes cs = omega arith in
    let count : 0 + length cs ≡ length cs = omega arith in
    rw (sums, total, capacity, none_more, count) refl

-- In every state that a client of the allocator can come to, `dump_entries` ends, within as many
-- rounds as a page has room for headers and one more, and the TOTAL that it prints, of the sizes and
-- the headers, is the size of the page; TOTAL_FREE is the sum of the free chunks' sizes and the
-- number of nodes that of the chunks.
pub dump_entries-page_size :
    (start : ℕ)
    → 0 < start
    → start + page_size < 2 ^ 32
    → (c : Client) → Reach start c
    → (cs : List Chunk) × IsHeap c.memory start (start + page_size) cs
      × (dump_entries rounds c.memory start
          ≡ some (page_size, free_bytes cs, length cs, length cs * entry_size))
dump_entries-page_size start there word c run =
    let s = Reach-Sound start there word c run in
    let few = length-Tiles c.memory (start + page_size) 0 start s.chunks s.heap.tiles in
    let back : start + page_size - start ≡ page_size = omega arith in
    let sums =
      IsHeap-sums rounds start (start + page_size) c.memory s.chunks s.heap (omega arith) in
    (
      s.chunks,
      s.heap,
      ap (dump_entries rounds c.memory) (sym s.first)
          ∙ sums
          ∙ ap (λ n. some (n, free_bytes s.chunks, length s.chunks, length s.chunks * 16)) back,
    )
