-- ===== src/Armv7/Table.antt =====
-- Entries of page directories and page tables, and the walk that translates an address
-- (source/arch/arm/armv7/mmu/armv7_mmu.c). A pointer to an entry that may be null is an `Option`.
pub mod Words
pub mod ReadBack
pub mod Translation
pub mod Outcomes
pub mod Sections
use sugarcat.Common.{
  ℕ, ◌+◌, ◌*◌, Option, none, some, bit_and, bit_or, ◌==◌, if◌then◌else◌, not32, u8, ◌<<<◌, ◌>>>◌,
}
use sugarcat.Errno.{Errno, esucc, einval, enotfnd, enotsupp, enotenb}
use sugarcat.Memory.{load32, store32}
use sugarcat.Armv7.{Machine, mmu_is_enabled, get_pg_div}
use sugarcat.Armv7.Entry.{
  PgdType, pgd_invalid, pgd_table, pgd_section, pgd_super_section, PgtbType, pgtb_invalid,
  pgtb_large_pg, pgtb_small_pg, krw_nou, PgdEntry, PgtbEntry, pgd_code, pgtb_code, acc_code,
  pgd_type_of, acc_of, is_supported_pgd_type, is_supported_pgtb_type,
}
use sugarcat.Armv7.Directory.{is_higher_half, get_kern_pgd, get_user_pgd}

abbrev pub pgd_sect_mask : ℕ
pgd_sect_mask = 0xFFF00000

abbrev pub pgd_table_mask : ℕ
pgd_table_mask = 0xFFFFFC00

abbrev pub pgd_domain_mask : ℕ
pgd_domain_mask = 0x1E0

abbrev pub pgd_ap_mask : ℕ
pgd_ap_mask = 0xC00

abbrev pub pgtb_lg_pg_mask : ℕ
pgtb_lg_pg_mask = 0xFFFF0000

abbrev pub pgtb_sm_pg_mask : ℕ
pgtb_sm_pg_mask = 0xFFFFF000

-- `table[index]`, where `table` is an array of words.
abbrev pub slot : ℕ → ℕ → ℕ
slot table index = table + 4 * index

unfoldable pub pgtb_index : ℕ → ℕ
pgtb_index virt_addr = bit_and (virt_addr >>> 12) 0xFF

-- The address part of a page table entry.
unfoldable pub pgtb_base : PgtbType → ℕ → ℕ
pgtb_base pgtb_large_pg phy_addr = bit_and phy_addr pgtb_lg_pg_mask
pgtb_base pgtb_small_pg phy_addr = bit_and phy_addr pgtb_sm_pg_mask
pgtb_base pgtb_invalid phy_addr = phy_addr

unfoldable pub pgtb_word : PgtbEntry → ℕ
unfolding pgtb_base acc_code pgtb_code
pgtb_word e =
    bit_or (bit_or (bit_or (pgtb_base e.type e.phy_addr) (acc_code e.acc_perm <<< 4)) e.flags)
      (pgtb_code e.type)

unfoldable pub create_pgtb_entry : ℕ → Option PgtbEntry → Machine → Errno × Machine
create_pgtb_entry pgtb_addr none s = (einval, s)
create_pgtb_entry pgtb_addr (some e) s = (
  esucc,
  record s { mem = store32 s.mem (slot pgtb_addr (pgtb_index e.virt_addr)) (pgtb_word e) },
)

-- The address and permission part of a page directory entry.
unfoldable pub pgd_base : PgdType → PgdEntry → ℕ
unfolding acc_code
pgd_base pgd_section e = bit_or (bit_and e.phy_addr pgd_sect_mask) (acc_code e.acc_perm <<< 10)
pgd_base pgd_table e = bit_and e.phy_addr pgd_table_mask
pgd_base pgd_super_section e = 0
pgd_base pgd_invalid e = 0

unfoldable pub pgd_word : PgdEntry → ℕ
unfolding pgd_base pgd_code
pgd_word e = bit_or (bit_or (bit_or (pgd_base e.type e) (e.domain <<< 5)) e.flags) (pgd_code e.type)

unfoldable pub create_pgd_entry : ℕ → Option PgdEntry → Machine → Errno × Machine
create_pgd_entry pgd_addr none s = (einval, s)
create_pgd_entry pgd_addr (some e) s =
    (esucc, record s { mem = store32 s.mem (slot pgd_addr (e.virt_addr >>> 20)) (pgd_word e) })

-- The structure that a section entry is read into.
unfoldable pub read_section : ℕ → ℕ → PgdEntry
unfolding acc_of pgd_type_of
read_section w virt_addr = record {
  phy_addr = bit_and w pgd_sect_mask;
  virt_addr = virt_addr;
  domain = bit_and w pgd_domain_mask >>> 5;
  acc_perm = acc_of (bit_and w pgd_ap_mask >>> 10);
  type = pgd_type_of (bit_and w 3);
  flags = bit_and w (not32 (bit_or (bit_or (bit_or pgd_sect_mask pgd_domain_mask) pgd_ap_mask) 3));
}

unfoldable pub read_table : ℕ → ℕ → PgdEntry
unfolding pgd_type_of
read_table w virt_addr = record {
  phy_addr = bit_and w pgd_table_mask;
  virt_addr = virt_addr;
  domain = bit_and w pgd_domain_mask >>> 5;
  acc_perm = krw_nou;
  type = pgd_type_of (bit_and w 3);
  flags = bit_and w (not32 (bit_or (bit_or pgd_table_mask pgd_domain_mask) 3));
}

-- `out` is what the structure held before; the result has what it holds after.
unfoldable pub get_pgd_entry : ℕ → ℕ → Option PgdEntry → Machine → Errno × Option PgdEntry
get_pgd_entry pgd_addr virt_addr none s = (einval, none)
get_pgd_entry pgd_addr virt_addr (some out) s =
    let w = load32 s.mem (slot pgd_addr (virt_addr >>> 20)) in
    let type = u8 (bit_and w 3) in
    if type == 2
    then (esucc, some (read_section w virt_addr))
    else if type == 1
    then (esucc, some (read_table w virt_addr))
    else (enotfnd, some out)

-- The directory in use for an address.
unfoldable pub active_pgd : ℕ → Machine → ℕ
active_pgd virt_addr s =
    if is_higher_half virt_addr (get_pg_div s) then get_kern_pgd s else get_user_pgd s

unfoldable pub map_pgd : Option PgdEntry → Machine → Errno × Machine
map_pgd none s = (einval, s)
map_pgd (some e) s =
    if is_supported_pgd_type e.type
    then (if mmu_is_enabled s
        then create_pgd_entry (active_pgd e.virt_addr s) (some e) s
        else (enotenb, s))
    else (enotsupp, s)

unfoldable pub map_new_pgd : ℕ → Option PgdEntry → Machine → Errno × Machine
map_new_pgd pgd_addr none s = (einval, s)
map_new_pgd pgd_addr (some e) s =
    if is_supported_pgd_type e.type then create_pgd_entry pgd_addr (some e) s else (enotsupp, s)

-- What follows `get_pgd_entry` in `armv7_mmu_map_pgtb`, given what that call left behind.
unfoldable pub into_table : Errno × Option PgdEntry → PgtbEntry → Machine → Errno × Machine
into_table (esucc, some pgd_ent) e s =
    if pgd_code pgd_ent.type == 1
    then create_pgtb_entry pgd_ent.phy_addr (some e) s
    else (enotfnd, s)
into_table (err, _) e s = (err, s)

-- The structure on the stack before `get_pgd_entry` fills it in; it is not read until then.
abbrev pub unset : PgdEntry
unset = record {
  phy_addr = 0;
  virt_addr = 0;
  domain = 0;
  acc_perm = krw_nou;
  type = pgd_invalid;
  flags = 0;
}

unfoldable pub map_pgtb : Option PgtbEntry → Machine → Errno × Machine
map_pgtb none s = (einval, s)
map_pgtb (some e) s =
    if mmu_is_enabled s
    then (if is_supported_pgtb_type e.type
        then into_table (get_pgd_entry (active_pgd e.virt_addr s) e.virt_addr (some unset) s) e s
        else (enotsupp, s))
    else (enotenb, s)

unfoldable pub map_new_pgtb : ℕ → Option PgtbEntry → Machine → Errno × Machine
map_new_pgtb pgtb_addr none s = (einval, s)
map_new_pgtb pgtb_addr (some e) s =
    if is_supported_pgtb_type e.type then create_pgtb_entry pgtb_addr (some e) s else (enotsupp, s)

-- The address that a page table entry gives.
unfoldable pub decode_page : ℕ → ℕ → ℕ
decode_page w virt_addr =
    let type = u8 (bit_and w 3) in
    if type == 1
    then bit_or (bit_and w pgtb_lg_pg_mask) (bit_and virt_addr (not32 pgtb_lg_pg_mask))
    else if type == 2
    then bit_or (bit_and w pgtb_sm_pg_mask) (bit_and virt_addr (not32 pgtb_sm_pg_mask))
    else 0

-- The second level of the walk.
unfoldable pub page_to_phy : ℕ → ℕ → Machine → ℕ
page_to_phy pg_tb virt_addr s =
    decode_page (load32 s.mem (slot pg_tb (pgtb_index virt_addr))) virt_addr

unfoldable pub virt_to_phy : ℕ → Machine → ℕ
virt_to_phy virt_addr s =
    let w = load32 s.mem (slot (active_pgd virt_addr s) (virt_addr >>> 20)) in
    let type = u8 (bit_and w 3) in
    if mmu_is_enabled s
    then (if type == 2
        then bit_or (bit_and w pgd_sect_mask) (bit_and virt_addr (not32 pgd_sect_mask))
        else if type == 1
        then page_to_phy (bit_and w pgd_table_mask) virt_addr s
        else 0)
    else virt_addr
