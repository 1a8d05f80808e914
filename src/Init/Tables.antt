-- ===== src/Init/Tables.antt =====
-- The kernel's first page tables: `init_setup_kern_pgtb` and `init_map_kern_pgtb` of
-- source/mach/vexpress_a9/init/vexpress_init.c. A null pointer is `none`.
pub mod Linked
pub mod Counts
use sugarcat.Common.{
  ℕ, zero, suc, ◌+◌, ◌-◌, Option, none, some, bit_or, ltb, if◌then◌else◌, true, false, u32, sub32,
  ◌<<<◌, ◌>>>◌,
}
use sugarcat.Errno.{Errno, esucc, einval}
use sugarcat.Util.Bits.{is_power_of_two, clr_lv_msb}
use sugarcat.Region.{MmReg}
use sugarcat.MemLayout.{Symbols, phy_to_kvm}
use sugarcat.Armv7.{Machine, get_pg_div}
use sugarcat.Armv7.Entry.{AccPerm, krw_nou, PgdEntry, pgd_table, PgtbEntry, pgtb_small_pg}
use sugarcat.Armv7.Table.{map_pgd, map_new_pgtb}
use sugarcat.Mmu.{is_success}

pub record InitMmuEntry : Type 0 where
  pub perms : AccPerm
  pub domain : ℕ
  pub flags : ℕ

-- The directory entry for the page table at index `i`; the initializer leaves no permissions.
abbrev pub pgd_entry : ℕ → ℕ → InitMmuEntry → ℕ → PgdEntry
pgd_entry base virt_addr ent i = record {
  phy_addr = bit_or base (i <<< 10);
  virt_addr = bit_or virt_addr (i <<< 20);
  domain = ent.domain;
  acc_perm = krw_nou;
  type = pgd_table;
  flags = ent.flags;
}

-- The loop of `init_setup_kern_pgtb` at index `i` with `left` entries to go.
unfoldable pub setup_loop : ℕ → ℕ → ℕ → ℕ → InitMmuEntry → Machine → Errno × Machine
setup_loop zero i base virt_addr ent s = (esucc, s)
setup_loop (suc left) i base virt_addr ent s =
    let (ret, s') = map_pgd (some (pgd_entry base virt_addr ent i)) s in
    let rest = setup_loop left (i + 1) base virt_addr ent s' in
    if is_success ret then rest else (ret, s')

unfoldable pub pgtb_cnt : Machine → ℕ
pgtb_cnt s = if ltb 0 (get_pg_div s) then sub32 4096 (1 <<< (32 - (get_pg_div s + 20))) else 4096

unfoldable pub first_virt_addr : Machine → ℕ
first_virt_addr s = if ltb 0 (get_pg_div s) then 1 <<< (32 - get_pg_div s) else 0

unfoldable pub setup_kern_pgtb :
    Option MmReg → Option MmReg → InitMmuEntry → Machine → Errno × Machine
unfolding setup_loop pgtb_cnt first_virt_addr
setup_kern_pgtb (some kern_pgd) (some kern_pgtb) ent s =
    setup_loop (pgtb_cnt s) 0 kern_pgtb.base (first_virt_addr s) ent s
setup_kern_pgtb _ _ ent s = (einval, s)

-- The number of pages that `init_map_kern_pgtb` maps for a region of `size` bytes.
unfoldable pub map_pg_cnt : ℕ → ℕ
map_pg_cnt size = if is_power_of_two size then clr_lv_msb size >>> 12 else clr_lv_msb size >>> 11

abbrev pub pgtb_entry : ℕ → ℕ → InitMmuEntry → ℕ → PgtbEntry
pgtb_entry phy_addr virt_addr ent i = record {
  phy_addr = bit_or phy_addr (i <<< 12);
  virt_addr = bit_or virt_addr (i <<< 12);
  acc_perm = ent.perms;
  type = pgtb_small_pg;
  flags = ent.flags;
}

-- The page table of the page at index `i`.
unfoldable pub table_at : ℕ → ℕ → ℕ → ℕ → ℕ
table_at pg_tb virt_addr v_start i =
    bit_or pg_tb ((u32 (sub32 virt_addr v_start + (i <<< 12)) >>> 20) <<< 10)

-- The loop of `init_map_kern_pgtb`.
unfoldable pub map_loop : ℕ → ℕ → ℕ → ℕ → ℕ → ℕ → InitMmuEntry → Machine → Errno × Machine
map_loop zero i pg_tb phy_addr virt_addr v_start ent s = (esucc, s)
map_loop (suc left) i pg_tb phy_addr virt_addr v_start ent s =
    let (ret, s') =
      map_new_pgtb (table_at pg_tb virt_addr v_start i) (some (pgtb_entry phy_addr virt_addr ent i))
        s in
    let rest = map_loop left (i + 1) pg_tb phy_addr virt_addr v_start ent s' in
    if is_success ret then rest else (ret, s')

unfoldable pub map_kern_pgtb :
    Symbols → Option MmReg → Option MmReg → Option InitMmuEntry → Machine → Errno × Machine
unfolding map_loop map_pg_cnt first_virt_addr
map_kern_pgtb sym (some kern_pgtb) (some map_reg) (some ent) s =
    map_loop (map_pg_cnt map_reg.size) 0 kern_pgtb.base map_reg.base (phy_to_kvm sym map_reg.base)
      (first_virt_addr s) ent s
map_kern_pgtb sym _ _ _ s = (einval, s)
