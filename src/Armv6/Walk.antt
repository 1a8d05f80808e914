-- ===== src/Armv6/Walk.antt =====
-- The walk that an ARMv6 processor makes, with the directory's entry for an address given: the
-- physical address that a virtual one stands for.
use sugarcat.Common.{ℕ, ◌+◌, ◌*◌, ◌/◌, ◌%◌, ◌^◌, Option, none, some, ◌==◌, leb, if◌then◌else◌}
use sugarcat.Memory.{Memory, load32}

-- A second-level descriptor: 2 or 3 in the low bits is a small page.
unfoldable pub page_walk : ℕ → ℕ → Option ℕ
page_walk pte vaddr =
    if leb 2 (pte % 4) then some (pte / 2 ^ 12 * 2 ^ 12 + vaddr % 2 ^ 12) else none

-- A first-level descriptor at `slot`: 2 is a section, 1 a coarse page table.
unfoldable pub walk : Memory → ℕ → ℕ → Option ℕ
unfolding page_walk
walk m slot vaddr =
    let pde = load32 m slot in
    let table = pde / 2 ^ 10 * 2 ^ 10 in
    if pde % 4 == 2
    then some (pde / 2 ^ 20 * 2 ^ 20 + vaddr % 2 ^ 20)
    else if pde % 4 == 1
    then page_walk (load32 m (table + 4 * (vaddr / 2 ^ 12 % 256))) vaddr
    else none
