-- ===== src/Examples/Allocator.antt =====
-- A page at 0x1000 and two blocks from it.
use sugarcat.Common.{
  length, ◌*◌, ℕ, ◌≡◌, ◌≢◌, ◌+◌, ◌-◌, ◌^◌, ◌≤◌, ◌⊎◌, inl, refl, arith, List, [], ◌∷◌, true, false,
  some,
}
use sugarcat.Memory.{Memory, load32, store32}
use sugarcat.Heap.{
  heap_init, kmalloc, kfree, Outcome, returned, exited, out_of_fuel, find_best_fit, find_loop,
  better, break_chunk, take_entry, after_search, round_size, is_power_of_two, highest_bit, relink,
  size, set_status, status_allocated,
}
use sugarcat.Heap.Chunks.{Chunk, Tiles}
use sugarcat.Heap.Free.{Tiles-status, release}
use sugarcat.Heap.Release.{IsHeap, kfree-release}
use sugarcat.Heap.Rounding.{round_size_lem}
use sugarcat.Heap.HighestBit.{highest_bit-eq-clr_lv_msb}
use sugarcat.Heap.Vast.{kmalloc-vast}
use sugarcat.Heap.Client.{Client, rounds, malloc, Reach, fresh, then_step, Sound}
use sugarcat.Heap.Runs.{Served}
use sugarcat.Heap.Fresh.{whole_page, heap_init-Tiles}
use sugarcat.Heap.Dump.{dump_entries, free_bytes, dump_entries-page_size}
use sugarcat.Heap.Safety.{Reach-Sound, Reach-apart, Reach-serve, Inside, end_of}
use sugarcat.Util.Bits.{clr_lv_msb}

abbrev page : Memory
page = heap_init (λ _. 0) 0x1000

page-Tiles : Tiles page 0x2000 0 0x1000 whole_page
page-Tiles = heap_init-Tiles (λ _. 0) 0x1000 (omega arith) (omega arith)

page-IsHeap : IsHeap page 0x1000 0x2000 whole_page
page-IsHeap = record { tiles = page-Tiles; word = omega arith }

abbrev mem_of : Outcome → Memory
mem_of (returned x m) = m
mem_of exited = λ _. 0
mem_of out_of_fuel = λ _. 0

-- Blocks of 32 and 128 bytes, from the page's end downwards.
abbrev one_block : Memory
one_block = mem_of (kmalloc rounds 0x1000 page 20)

abbrev two_blocks : Memory
two_blocks = mem_of (kmalloc rounds 0x1000 one_block 100)

first_request : kmalloc rounds 0x1000 page 20 ≡ returned 0x1FE0 one_block
unfolding kmalloc heap_init find_best_fit find_loop better break_chunk take_entry after_search
    round_size is_power_of_two highest_bit relink load32 store32
first_request = refl

second_request : kmalloc rounds 0x1000 one_block 100 ≡ returned 0x1F50 two_blocks
unfolding kmalloc heap_init find_best_fit find_loop better break_chunk take_entry after_search
    round_size is_power_of_two highest_bit relink load32 store32
second_request = refl

abbrev client : Client
client = record { memory = two_blocks; held = 0x1F50 ∷ 0x1FE0 ∷ [] }

run : Reach 0x1000 client
run =
    then_step (then_step (fresh (λ _. 0)) (malloc 20 0x1FE0 (omega arith) first_request))
      (malloc 100 0x1F50 (omega arith) second_request)

abbrev taken_page : List Chunk
taken_page = record { bytes = 4080; is_free = false } ∷ []

taken-IsHeap : IsHeap (set_status page 0x1000 status_allocated) 0x1000 0x2000 taken_page
taken-IsHeap = record {
  tiles =
      Tiles-status page 0x2000 0 0x1000 (record { bytes = 4080; is_free = true }) [] false
        page-Tiles;
  word = omega arith;
}

kfree-release_example :
    IsHeap
      (kfree (set_status page 0x1000 status_allocated) 0x1010)
      0x1000
      0x2000
      (release 0x1000 0x1000 taken_page)
kfree-release_example =
    kfree-release (set_status page 0x1000 status_allocated) 0x1000 0x2000 0x1000 taken_page
      taken-IsHeap refl

Reach-Sound_example : Sound 0x1000 client
Reach-Sound_example = Reach-Sound 0x1000 (omega arith) (omega arith) client run

Reach-apart_example :
    Inside 0x1000 two_blocks 0x1F50
    × Inside 0x1000 two_blocks 0x1FE0
    × ((end_of two_blocks 0x1F50 + 16 ≤ 0x1FE0) ⊎ (end_of two_blocks 0x1FE0 + 16 ≤ 0x1F50))
Reach-apart_example =
    Reach-apart 0x1000 (omega arith) (omega arith) client run 0x1F50 0x1FE0 refl refl (omega arith)

Reach-serve_example :
    (x : ℕ) × (m' : Memory) × (kmalloc rounds 0x1000 two_blocks 3000 ≡ returned x m')
    × Served m' (0x1F50 ∷ 0x1FE0 ∷ []) 3000 x
Reach-serve_example = Reach-serve 0x1000 (omega arith) (omega arith) client run 3000 (omega arith)

round_size_lem_example :
    (e : ℕ) × (round_size 100 ≡ 2 ^ e)
    × (4 ≤ e)
    × (e ≤ 31)
    × (100 ≤ 2 ^ e)
    × ((j : ℕ) → 4 ≤ j → 100 ≤ 2 ^ j → e ≤ j)
round_size_lem_example = round_size_lem 100 (omega arith)

highest_bit-eq-clr_lv_msb_example : highest_bit 100 ≡ clr_lv_msb 100
highest_bit-eq-clr_lv_msb_example = highest_bit-eq-clr_lv_msb 100 (omega arith)

kmalloc-vast_example :
    (x : ℕ) × (m' : Memory) × (kmalloc 257 0x1000 page 0x80000001 ≡ returned x m')
    × (x ≢ 0)
    × (size m' (x - 16) ≡ 0)
kmalloc-vast_example =
    kmalloc-vast 257 0x80000001 0x1000 0x2000 0x1000 4080 page whole_page page-IsHeap (omega arith)
      (omega arith) (inl (refl, refl, refl)) (omega arith) (omega arith)

dump_entries-page_size_example :
    (cs : List Chunk) × IsHeap two_blocks 0x1000 0x2000 cs
    × (dump_entries rounds two_blocks 0x1000
        ≡ some (4096, free_bytes cs, length cs, length cs * 16))
dump_entries-page_size_example =
    dump_entries-page_size 0x1000 (omega arith) (omega arith) client run
