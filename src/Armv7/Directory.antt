-- ===== src/Armv7/Directory.antt =====
-- Page directories and domains: which directory serves an address, the translation table base
-- registers (source/arch/arm/armv7/mmu/armv7_mmu.c) and the domain register
-- (include/arch/arm/armv7/armv7_mmu.h).
pub mod Registers
use sugarcat.Common.{
  ℕ, ◌-◌, ◌*◌, Bool, true, false, bit_and, bit_or, ltb, leb, ◌==◌, if◌then◌else◌, not32, u32, ◌<<<◌,
}
use sugarcat.Errno.{Errno, esucc, einval, ealign}
use sugarcat.Util.Bits.{is_aligned_n}
use sugarcat.Armv7.{
  get_ttbr0, get_ttbr1, get_dacr, Machine, mmu_is_enabled, get_pg_div, set_ttbr0, set_ttbr1,
  set_dacr, invalidate_tlb, sync,
}

abbrev pub ttbr_align : ℕ
ttbr_align = 14

abbrev pub ttbr_mask : ℕ
ttbr_mask = 0xFFFFC000

-- `1 << (32 - n)`, the first address of the upper half.
unfoldable pub is_higher_half : ℕ → ℕ → Bool
is_higher_half virt_addr pg_div_n =
    if ltb 0 pg_div_n then leb (1 <<< (32 - pg_div_n)) virt_addr else false

unfoldable pub get_kern_pgd : Machine → ℕ
get_kern_pgd s = if mmu_is_enabled s then bit_and (get_ttbr1 s) ttbr_mask else 0

unfoldable pub get_user_pgd : Machine → ℕ
get_user_pgd s =
    let mask = not32 ((1 <<< (ttbr_align - get_pg_div s)) - 1) in
    if mmu_is_enabled s then bit_and (get_ttbr0 s) mask else 0

unfoldable pub mmu_update : Bool → Machine → Machine
mmu_update with_dsb s = invalidate_tlb (if with_dsb then sync s else s)

-- What both setters do after the register has been written.
unfoldable pub refresh : Machine → Machine
unfolding mmu_update
refresh s = if mmu_is_enabled s then mmu_update false s else s

unfoldable pub set_kern_pgd : ℕ → ℕ → Machine → Errno × Machine
set_kern_pgd pgd_addr flags s =
    if is_aligned_n pgd_addr (1 <<< ttbr_align)
    then (esucc, refresh (set_ttbr1 (bit_or pgd_addr flags) s))
    else (ealign, s)

unfoldable pub set_user_pgd : ℕ → ℕ → Machine → Errno × Machine
set_user_pgd pgd_addr flags s =
    if is_aligned_n pgd_addr (1 <<< (ttbr_align - get_pg_div s))
    then (esucc, refresh (set_ttbr0 (bit_or pgd_addr flags) s))
    else (ealign, s)

unfoldable pub set_domain : ℕ → ℕ → Machine → Errno × Machine
set_domain domain acc_perm s =
    let shift = domain * 2 in
    let cleared = bit_and (get_dacr s) (not32 (3 <<< shift)) in
    if leb domain 15
    then (esucc, set_dacr (bit_or cleared (bit_and acc_perm 3 <<< shift)) s)
    else (einval, s)
