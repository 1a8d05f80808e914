-- ===== src/Heap.antt =====
-- test.c: the allocator that hands out chunks of a heap of one page. A chunk is a header of four
-- words, `struct mm_entry`, and the bytes after it; the headers form a doubly linked list in the
-- order of their addresses. Pointers have 32 bits, as the program's casts take them.
pub mod Chunks
pub mod Merge
pub mod Free
pub mod Release
pub mod Apart
pub mod Search
pub mod Split
pub mod Malloc
pub mod Alloc
pub mod HighestBit
pub mod Rounding
pub mod Held
pub mod Extents
pub mod Client
pub mod Fresh
pub mod Runs
pub mod Safety
pub mod Vast
pub mod Dump
use sugarcat.Common.{
  ℕ, zero, suc, ◌+◌, ◌-◌, ◌^◌, ◌%◌, ◌*◌, Bool, true, false, ◌&&◌, not, Option, none, some, bit_and,
  bit_or, ltb, ◌==◌, if◌then◌else◌, u32, sub32, ◌<<<◌, ◌>>>◌,
}
use sugarcat.Memory.{Memory, load32, store32}

abbrev pub status_allocated : ℕ
status_allocated = 0xFFFFFFFF

abbrev pub status_free : ℕ
status_free = 0xAAAAAAAA

abbrev pub page_size : ℕ
page_size = 4096

abbrev pub min_alloc : ℕ
min_alloc = 16

-- `sizeof(struct mm_entry)`.
abbrev pub entry_size : ℕ
entry_size = 16

-- The fields of the entry at an address.
abbrev pub status : Memory → ℕ → ℕ
status m node = load32 m node

abbrev pub size : Memory → ℕ → ℕ
size m node = load32 m (node + 4)

abbrev pub next : Memory → ℕ → ℕ
next m node = load32 m (node + 8)

abbrev pub prev : Memory → ℕ → ℕ
prev m node = load32 m (node + 12)

abbrev pub set_status : Memory → ℕ → ℕ → Memory
set_status m node v = store32 m node v

abbrev pub set_size : Memory → ℕ → ℕ → Memory
set_size m node v = store32 m (node + 4) v

abbrev pub set_next : Memory → ℕ → ℕ → Memory
set_next m node v = store32 m (node + 8) v

abbrev pub set_prev : Memory → ℕ → ℕ → Memory
set_prev m node v = store32 m (node + 12) v

-- `if (p != NULL) p->prev = v`.
unfoldable pub relink : Memory → ℕ → ℕ → Memory
relink m p v = if p == 0 then m else set_prev m p v

unfoldable pub is_power_of_two : ℕ → Bool
is_power_of_two x = not (x == 0) && (bit_and x (sub32 x 1) == 0)

-- `x |= x >> k`.
abbrev pub smear : ℕ → ℕ → ℕ
smear k x = bit_or x (x >>> k)

unfoldable pub highest_bit : ℕ → ℕ
highest_bit x = let y = smear 16 (smear 8 (smear 4 (smear 2 (smear 1 x)))) in sub32 y (y >>> 1)

-- `heap_init`; the start is also the list's head.
unfoldable pub heap_init : Memory → ℕ → Memory
heap_init m heap_start =
    set_status
      (set_size (set_prev (set_next m heap_start 0) heap_start 0) heap_start
        (page_size - entry_size))
      heap_start status_free

-- What the loop of `find_best_fit` makes of a free entry that does not fit exactly.
unfoldable pub better : Memory → ℕ → ℕ → ℕ → ℕ
better m wanted sch_node next_best =
    if next_best == 0
    then (if ltb (u32 (wanted + entry_size)) (size m sch_node) then sch_node else next_best)
    else if ltb (size m sch_node) (size m next_best)
        && ltb (u32 (wanted + entry_size)) (size m sch_node)
    then sch_node
    else next_best

-- The loop; the results are the entry and whether it fits exactly, and `none` means that the fuel
-- ran out.
unfoldable pub find_loop : ℕ → Memory → ℕ → ℕ → ℕ → Option (ℕ × Bool)
find_loop zero m wanted sch_node next_best = none
find_loop (suc fuel) m wanted sch_node next_best =
    let skip = find_loop fuel m wanted (next m sch_node) next_best in
    let rest = find_loop fuel m wanted (next m sch_node) (better m wanted sch_node next_best) in
    if sch_node == 0
    then some (next_best, false)
    else (if status m sch_node == status_free
        then (if size m sch_node == wanted then some (sch_node, true) else rest)
        else skip)

unfoldable pub find_best_fit : ℕ → Memory → ℕ → ℕ → Option (ℕ × Bool)
find_best_fit fuel m head wanted = find_loop fuel m wanted head 0

-- The results are the new entry, or null, and memory.
unfoldable pub break_chunk : Memory → ℕ → ℕ → ℕ × Memory
break_chunk m node desired_size =
    let actual_size = u32 (desired_size + entry_size) in
    let m1 = set_size m node (size m node - actual_size) in
    let new_node = u32 (node + u32 (size m1 node + entry_size)) in
    let m2 = set_size m1 new_node desired_size in
    let m3 = set_next m2 new_node (next m2 node) in
    let m4 = set_prev m3 new_node node in
    let m5 = relink m4 (next m4 new_node) new_node in
    if status m node == status_free && ltb actual_size (size m node)
    then (new_node, set_next m5 node new_node)
    else (0, m)

-- What a call of `kmalloc` comes to: the program ends, the search has no fuel left, or a pointer
-- is returned.
pub data Outcome : Type 0 where
  exited out_of_fuel : Outcome
  returned : ℕ → Memory → Outcome

-- The size that is looked for.
unfoldable pub round_size : ℕ → ℕ
round_size wanted =
    if ltb wanted min_alloc
    then min_alloc
    else if is_power_of_two wanted
    then wanted
    else highest_bit wanted <<< 1

-- What `kmalloc` does with an entry that was found.
unfoldable pub take_entry : Memory → ℕ → ℕ → Bool → Outcome
take_entry m wanted node true =
    returned (u32 (node + entry_size)) (set_status m node status_allocated)
take_entry m wanted node false =
    let (nnode, m') = break_chunk m node wanted in
    if nnode == 0
    then exited
    else returned (u32 (nnode + entry_size)) (set_status m' nnode status_allocated)

-- What follows the search.
unfoldable pub after_search : Memory → ℕ → Option (ℕ × Bool) → Outcome
after_search m wanted none = out_of_fuel
after_search m wanted (some (node, best_fit)) =
    if node == 0 then returned 0 m else take_entry m wanted node best_fit

unfoldable pub kmalloc : ℕ → ℕ → Memory → ℕ → Outcome
kmalloc fuel head m wanted =
    if wanted == 0
    then returned 0 m
    else after_search m (round_size wanted) (find_best_fit fuel m head (round_size wanted))

-- An entry takes in the next one.
unfoldable pub merge_next : Memory → ℕ → ℕ → Memory
merge_next m node nxt =
    let m1 = set_next m node (next m nxt) in
    let m2 = relink m1 (next m1 node) node in
    set_size m2 node (u32 (size m2 node + u32 (size m2 nxt + entry_size)))

-- `kfree` looking right: the freed entry takes in the next one if that is free.
unfoldable pub eat_next : Memory → ℕ → ℕ → Memory
eat_next m node nxt =
    if not (nxt == 0) && (status m nxt == status_free) then merge_next m node nxt else m

-- `kfree` looking left: the previous entry takes in the freed one if it is free.
unfoldable pub eat_node : Memory → ℕ → ℕ → Memory
eat_node m node prv =
    if not (prv == 0) && (status m prv == status_free) then merge_next m prv node else m

-- `kfree` of an entry.
unfoldable pub release_entry : Memory → ℕ → Memory
release_entry m node =
    eat_node (eat_next (set_status m node status_free) node (next m node)) node (prev m node)

unfoldable pub kfree : Memory → ℕ → Memory
kfree m ptr =
    let node = sub32 ptr entry_size in
    if ptr == 0 then m else if status m node == status_allocated then release_entry m node else m
