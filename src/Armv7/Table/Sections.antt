-- ===== src/Armv7/Table/Sections.antt =====
-- Section mappings.
use sugarcat.Common.{ℕ, ◌+◌, ◌*◌, ◌/◌, ◌%◌, ◌^◌, ◌<◌, ◌≡◌, some, true, arith, ◌>>>◌}
use sugarcat.Common.Word.Fields.{section_base, low_two, low_section}
use sugarcat.Common.Word.Mask.{bit_or_disjoint}
use sugarcat.Errno.{esucc}
use sugarcat.Memory.{store32}
use sugarcat.Memory.Laws.{load32-store32}
use sugarcat.Armv7.{Machine, mmu_is_enabled}
use sugarcat.Armv7.Entry.{PgdEntry, pgd_section, is_supported_pgd_type}
use sugarcat.Armv7.Table.{slot, pgd_word, virt_to_phy, active_pgd, create_pgd_entry, map_pgd}
use sugarcat.Armv7.Table.Words.{section_word, acc_code-lt}
use sugarcat.Armv7.Table.Translation.{active_pgd_mem, active_pgd_same, enabled_mem, pg_div-lt}

-- Mapping a section of a domain below 16 with flags among bits 2 to 4 succeeds while the MMU is
-- on, and then every address of that megabyte translates to the same place in the section.
pub virt_to_phy-map_pgd :
    (e : PgdEntry) (s : Machine) (v : ℕ)
    → mmu_is_enabled s ≡ true
    → e.type ≡ pgd_section
    → e.phy_addr < 2 ^ 32
    → e.domain < 16
    → e.flags < 32
    → e.flags % 4 ≡ 0
    → e.virt_addr / 2 ^ 20 ≡ v / 2 ^ 20
    → let (err, s') = map_pgd (some e) s in
      (err ≡ esucc) × (virt_to_phy v s' ≡ e.phy_addr / 2 ^ 20 * 2 ^ 20 + v % 2 ^ 20)
unfolding map_pgd create_pgd_entry virt_to_phy is_supported_pgd_type
virt_to_phy-map_pgd e s v on section word dom fits clear mb =
    let m = store32 s.mem (slot (active_pgd e.virt_addr s) (e.virt_addr >>> 20)) (pgd_word e) in
    ground (
      arith,
      section_word e,
      acc_code-lt e.acc_perm,
      active_pgd_same e.virt_addr v s,
      pg_div-lt s,
      active_pgd_mem v s m,
      enabled_mem s m,
      load32-store32 s.mem (slot (active_pgd e.virt_addr s) (e.virt_addr >>> 20)) (pgd_word e),
      low_two (pgd_word e),
      section_base (pgd_word e),
      low_section v,
      bit_or_disjoint 20 (e.phy_addr / 2 ^ 20) (v % 2 ^ 20),
    )
