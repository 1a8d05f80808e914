-- ===== src/Boot.antt =====
-- source/mach/vexpress_a9/boot/vexpress_boot_init.c: the section mappings with which the MMU is
-- turned on. The hand-over to `kernel_init` at the end of `vexpress_boot_init` is not modelled.
pub mod Directory
pub mod Running
use sugarcat.Common.{ℕ, zero, suc, ◌+◌, bit_and, bit_or, sub32, u32, ◌<<<◌, ◌>>>◌}
use sugarcat.Memory.{Memory, store32}
use sugarcat.Mem.{memset}
use sugarcat.MemLayout.{Symbols, kvm_to_phy, phy_to_kvm}
use sugarcat.Armv7.{
  Machine, get_sctlr, set_ttbcr, set_ttbr0, set_ttbr1, set_sctlr, sync, invalidate_tlb, ttbcr_2g_2g,
  dacr_mngr, sctlr_afe, sctlr_mmu_enb,
}
use sugarcat.Armv7.Entry.{krw_urw, acc_code, pgd_section, pgd_code}
use sugarcat.Armv7.Directory.{set_domain}
use sugarcat.Armv7.Table.{slot, pgd_sect_mask}

abbrev pub kern_pgd_entry_cnt : ℕ
kern_pgd_entry_cnt = 2048

-- The word of a section that everyone may write.
unfoldable pub section_entry : ℕ → ℕ
unfolding acc_code pgd_code
section_entry phy_addr =
    bit_or (bit_or (bit_and phy_addr pgd_sect_mask) (acc_code krw_urw <<< 10))
      (pgd_code pgd_section)

unfoldable pub pg_dir_entry : ℕ → ℕ → ℕ → Memory → Memory
pg_dir_entry pg_dir phy_addr virt_addr m =
    store32 m (slot pg_dir (virt_addr >>> 20)) (section_entry phy_addr)

-- The loop of `init_user_pg_dir` with `left` rounds to go.
unfoldable pub user_loop : ℕ → ℕ → ℕ → Memory → Memory
user_loop zero i pg_dir m = m
user_loop (suc left) i pg_dir m =
    user_loop left (i + 1) pg_dir (pg_dir_entry pg_dir (i <<< 20) (i <<< 20) m)

unfoldable pub user_pg_dir : ℕ → Machine → Machine
user_pg_dir u_phy_pg_dir s =
    set_ttbr0 u_phy_pg_dir
      (sync (record s { mem = user_loop kern_pgd_entry_cnt 0 u_phy_pg_dir s.mem }))

unfoldable pub enable_mmu : Machine → Machine
enable_mmu s =
    let s' = (set_domain 0 dacr_mngr (set_ttbcr ttbcr_2g_2g s)).1 in
    invalidate_tlb (set_sctlr (bit_or (get_sctlr s') (bit_or sctlr_afe sctlr_mmu_enb)) s')

module _ (sym : Symbols) where
  -- The loop of `init_kern_pg_dir`.
  unfoldable pub kern_loop : ℕ → ℕ → ℕ → ℕ → Memory → Memory
  kern_loop zero i pg_dir k_phy_start m = m
  kern_loop (suc left) i pg_dir k_phy_start m =
      let p_addr = u32 (k_phy_start + (i <<< 20)) in
      kern_loop left (i + 1) pg_dir k_phy_start
        (pg_dir_entry pg_dir p_addr (phy_to_kvm sym p_addr) m)

  unfoldable pub kern_pg_dir : ℕ → ℕ → ℕ → Machine → Machine
  kern_pg_dir k_phy_pg_dir k_phy_start k_sz s =
      set_ttbr1 k_phy_pg_dir
        (sync (record s { mem = kern_loop ((k_sz >>> 20) + 1) 0 k_phy_pg_dir k_phy_start s.mem }))

  -- `vexpress_boot_init` up to its call of `kernel_init`.
  unfoldable pub boot_init : Machine → Machine
  boot_init s =
      let bss_sz = sub32 sym.lmi_bss_end sym.lmi_bss_start in
      let k_sz = sub32 (kvm_to_phy sym sym.k_end) sym.lmi_start in
      let cleared = record s { mem = memset s.mem sym.lmi_bss_start 0 bss_sz } in
      enable_mmu (kern_pg_dir sym.k_pgd sym.lmi_start k_sz (user_pg_dir sym.k_pgd cleared))
