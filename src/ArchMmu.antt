-- ===== src/ArchMmu.antt =====
-- The architecture's side of the MMU interface: include/mm/mmu.h,
-- include/arch/arch_mmu.h and source/arch/arm/armv7/mmu/armv7_arch_mmu.c.
pub mod Layout
use sugarcat.Common.{
  ℕ, ◌+◌, ◌-◌, ◌*◌, ◌^◌, ◌%◌, ◌/◌, Bool, true, false, some, bit_or, ltb, leb, if◌then◌else◌, sub32,
  u32, ◌<<<◌, ◌>>>◌,
}
use sugarcat.Errno.{Errno}
use sugarcat.Armv7.{Machine, mmu_is_enabled, get_pg_div, invalidate_tlb}
use sugarcat.Armv7.Entry.{
  PgdType, pgd_invalid, pgd_table, PgtbType, pgtb_invalid, pgtb_small_pg, AccPerm, krw_nou, krw_urw,
  kro_nou, kro_uro, PgdEntry, PgtbEntry,
}
use sugarcat.Armv7.Directory.{set_user_pgd}
use sugarcat.Armv7.Table
use sugarcat.Armv7.Table.{map_pgd, map_new_pgd, map_pgtb, map_new_pgtb}

pub data AccFlags : Type 0 where
  user kern_user kernel kernel_ro device : AccFlags

pub data EntryType : Type 0 where
  pg_dir pg_tab pg_dir_inval pg_tab_inval : EntryType

pub record MmuEntry : Type 0 where
  pub phy_addr : ℕ
  pub virt_addr : ℕ
  pub type : EntryType
  pub acc_flags : AccFlags

unfoldable pub acc_to_domain : AccFlags → ℕ
acc_to_domain user = 0
acc_to_domain kern_user = 0
acc_to_domain kernel_ro = 1
acc_to_domain kernel = 1
acc_to_domain device = 1

unfoldable pub acc_to_armv7 : AccFlags → AccPerm
acc_to_armv7 user = krw_urw
acc_to_armv7 kern_user = kro_uro
acc_to_armv7 kernel = krw_nou
acc_to_armv7 kernel_ro = kro_nou
acc_to_armv7 device = krw_nou

unfoldable pub pgtb_type_to_armv7 : EntryType → PgtbType
pgtb_type_to_armv7 pg_tab_inval = pgtb_invalid
pgtb_type_to_armv7 pg_tab = pgtb_small_pg
pgtb_type_to_armv7 pg_dir_inval = pgtb_invalid
pgtb_type_to_armv7 pg_dir = pgtb_invalid

unfoldable pub pgd_type_to_armv7 : EntryType → PgdType
pgd_type_to_armv7 pg_dir_inval = pgd_invalid
pgd_type_to_armv7 pg_dir = pgd_table
pgd_type_to_armv7 pg_tab_inval = pgd_invalid
pgd_type_to_armv7 pg_tab = pgd_invalid

-- `uninit` is what the stack holds in the `acc_perm` that the code leaves unset.
unfoldable pub to_pgd_entry : (uninit : AccPerm) → MmuEntry → PgdEntry
unfolding acc_to_domain pgd_type_to_armv7
to_pgd_entry uninit e = record {
  phy_addr = e.phy_addr;
  virt_addr = e.virt_addr;
  domain = acc_to_domain e.acc_flags;
  acc_perm = uninit;
  type = pgd_type_to_armv7 e.type;
  flags = 0;
}

unfoldable pub to_pgtb_entry : MmuEntry → PgtbEntry
unfolding acc_to_armv7 pgtb_type_to_armv7
to_pgtb_entry e = record {
  phy_addr = e.phy_addr;
  virt_addr = e.virt_addr;
  acc_perm = acc_to_armv7 e.acc_flags;
  type = pgtb_type_to_armv7 e.type;
  flags = 0;
}

abbrev pub is_dir : EntryType → Bool
is_dir pg_dir_inval = true
is_dir pg_dir = true
is_dir _ = false

unfoldable pub create_entry : (uninit : AccPerm) → MmuEntry → Machine → Errno × Machine
create_entry uninit e s =
    if is_dir e.type
    then map_pgd (some (to_pgd_entry uninit e)) s
    else map_pgtb (some (to_pgtb_entry e)) s

unfoldable pub get_kern_vaddr : Machine → ℕ
get_kern_vaddr s = if ltb 0 (get_pg_div s) then 1 <<< (32 - get_pg_div s) else 0

-- The page table of an address, in a contiguous region of page tables.
unfoldable pub new_table : ℕ → ℕ → Machine → ℕ
new_table pg_base virt_addr s =
    let kvaddr = get_kern_vaddr s in
    let index = if leb kvaddr virt_addr then sub32 virt_addr kvaddr >>> 20 else virt_addr >>> 20 in
    bit_or pg_base (index <<< 10)

unfoldable pub create_new_entry : (uninit : AccPerm) → ℕ → MmuEntry → Machine → Errno × Machine
create_new_entry uninit pg_base e s =
    if is_dir e.type
    then map_new_pgd pg_base (some (to_pgd_entry uninit e)) s
    else map_new_pgtb (new_table pg_base e.virt_addr s) (some (to_pgtb_entry e)) s

unfoldable pub get_kern_pgtb_reg_sz : Machine → ℕ
get_kern_pgtb_reg_sz s =
    if ltb 0 (get_pg_div s)
    then (4096 - (1 <<< (32 - (get_pg_div s + 20)))) * 0x400
    else 4096 * 0x400

unfoldable pub get_user_pgtb_reg_sz : Machine → ℕ
get_user_pgtb_reg_sz s =
    if ltb 0 (get_pg_div s) then (1 <<< (32 - (get_pg_div s + 20))) * 0x400 else 4096 * 0x400

unfoldable pub get_user_pgd_sz : Machine → ℕ
get_user_pgd_sz s =
    if ltb 0 (get_pg_div s) then (1 <<< (32 - (get_pg_div s + 20))) * 4 else 4096 * 4

unfoldable pub user_pgd_requires_alignment : Bool
user_pgd_requires_alignment = true

unfoldable pub get_user_pgd_alignment : Machine → ℕ
get_user_pgd_alignment s = 1 <<< (14 - get_pg_div s)

unfoldable pub get_pgtb_alignment : ℕ
get_pgtb_alignment = 4096

unfoldable pub arch_mmu_is_enabled : Machine → Bool
arch_mmu_is_enabled s = mmu_is_enabled s

unfoldable pub arch_virt_to_phy : ℕ → Machine → ℕ
arch_virt_to_phy virt_addr s = Table.virt_to_phy virt_addr s

unfoldable pub set_user_pg_dir : ℕ → Machine → Errno × Machine
set_user_pg_dir page_dir s = set_user_pgd page_dir 0 s

unfoldable pub arch_mmu_invalidate : Machine → Machine
arch_mmu_invalidate s = invalidate_tlb s
