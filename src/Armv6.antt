-- ===== src/Armv6.antt =====
-- source/arch/arm/armv6/armv6_mmu.c with include/arch/arm/armv6/armv6.h and armv6_mmu.h. The
-- header mm/mmu.h that this code was written for is no longer in the repository, so that what it
-- takes from there is a record of parameters. A directory or a table is an array of words in
-- memory. Return values are words, as they come out of that header.
pub mod Walk
pub mod Entries
pub mod Control
use sugarcat.Common.{
  ℕ, ◌+◌, ◌-◌, ◌*◌, ◌^◌, Bool, true, false, ◌||◌, not, bit_and, bit_or, ◌==◌, leb, if◌then◌else◌,
  ◌<<<◌, ◌>>>◌, not32,
}
use sugarcat.Memory.{Memory, load32, store32}

-- The constants and the function of the missing header.
pub record Interface : Type 0 where
  pub pg_dir_entry : ℕ
  pub pg_dir_table : ℕ
  pub pg_dir_trans_fault : ℕ
  pub pg_table_entry : ℕ
  pub pg_table_trans_fault : ℕ
  pub mmu_cached : ℕ
  pub kern_rw : ℕ
  pub user_rw : ℕ
  pub mmu_4g_no_split : ℕ
  pub mmu_2g_2g_split : ℕ
  pub mmu_1g_3g_split : ℕ
  pub mmu_err_no_page_table : ℕ
  pub mmu_err_unsupported_vm_map : ℕ
  pub mmu_get_high_vaddr : ℕ → ℕ

-- The fields that are used of its `struct mmu_entry`.
pub record MmuEntry : Type 0 where
  pub pg_dir : ℕ
  pub entry : ℕ
  pub vaddr : ℕ
  pub paddr : ℕ
  pub access : ℕ
  pub flags : ℕ

-- The coprocessor's registers, memory, `mmu_mvm`, and how often the TLBs were invalidated.
pub record System : Type 0 where
  pub cntl : ℕ
  pub domain : ℕ
  pub ttbcr : ℕ
  pub ttb0 : ℕ
  pub ttb1 : ℕ
  pub invalidations : ℕ
  pub mem : Memory
  pub mmu_mvm : ℕ

abbrev pub mmu_enable : ℕ
mmu_enable = 1

abbrev pub subpage_ap_disabled : ℕ
subpage_ap_disabled = 2 ^ 23

unfoldable pub set_domain : ℕ → System → System
set_domain x s = record s { domain = x }

unfoldable pub set_ttbcr : ℕ → System → System
set_ttbcr x s = record s { ttbcr = x }

unfoldable pub set_ttb0 : ℕ → System → System
set_ttb0 x s = record s { ttb0 = x }

unfoldable pub set_ttb1 : ℕ → System → System
set_ttb1 x s = record s { ttb1 = x }

unfoldable pub write_cntl_reg : ℕ → System → System
write_cntl_reg x s = record s { cntl = x }

unfoldable pub invalidate_tlbs : System → System
invalidate_tlbs s = record s { invalidations = s.invalidations + 1 }

unfoldable pub arch_is_mmu_enabled : System → Bool
arch_is_mmu_enabled s = not (bit_and s.cntl mmu_enable == 0)

unfoldable pub arch_mmu_set_user_pg_dir : ℕ → System → ℕ × System
unfolding set_ttb0
arch_mmu_set_user_pg_dir pgd_addr s = (0, set_ttb0 pgd_addr s)

unfoldable pub arch_mmu_set_kern_pg_dir : ℕ → System → ℕ × System
unfolding set_ttb1
arch_mmu_set_kern_pg_dir pgd_addr s = (0, set_ttb1 pgd_addr s)

unfoldable pub arch_mmu_enable : System → ℕ × System
unfolding set_domain write_cntl_reg
arch_mmu_enable s =
    let s1 = set_domain 0xFFFFFFFF s in
    (0, write_cntl_reg (bit_or s1.cntl (bit_or mmu_enable subpage_ap_disabled)) s1)

unfoldable pub arch_mmu_disable : System → ℕ × System
unfolding write_cntl_reg
arch_mmu_disable s = (0, write_cntl_reg (bit_and s.cntl (not32 mmu_enable)) s)

unfoldable pub arch_mmu_invalidate_pg_dirs : System → System
unfolding invalidate_tlbs
arch_mmu_invalidate_pg_dirs s = invalidate_tlbs s

module _ (h : Interface) where
  unfoldable pub pg_acc_to_arm : ℕ → ℕ
  pg_acc_to_arm acc = if acc == h.kern_rw then 1 else (if acc == h.user_rw then 3 else 0)

  unfoldable pub mmu_vm_map_to_arm : ℕ → ℕ
  mmu_vm_map_to_arm mvm =
      if mvm == h.mmu_2g_2g_split then 1 else (if mvm == h.mmu_1g_3g_split then 2 else 0)

  unfoldable pub is_supported_vm_map : ℕ → Bool
  is_supported_vm_map mvm =
      (mvm == h.mmu_4g_no_split) || (mvm == h.mmu_2g_2g_split) || (mvm == h.mmu_1g_3g_split)

  unfoldable pub arch_mmu_set_vm_map : ℕ → System → ℕ × System
  unfolding set_ttbcr mmu_vm_map_to_arm is_supported_vm_map
  arch_mmu_set_vm_map mvm s =
      if is_supported_vm_map mvm
      then (0, record (set_ttbcr (mmu_vm_map_to_arm mvm) s) { mmu_mvm = mvm })
      else (h.mmu_err_unsupported_vm_map, s)

  -- The index of an address in its directory.
  unfoldable pub pde_index : ℕ → ℕ → ℕ
  pde_index mvm vaddr =
      let higher = h.mmu_get_high_vaddr mvm in
      if leb higher vaddr then (vaddr - higher) >>> 20 else vaddr >>> 20

  unfoldable pub cached : ℕ → ℕ → ℕ
  cached flags word = if bit_and flags h.mmu_cached == 0 then word else bit_or word 8

  -- The word that `armv6_map_pde` writes.
  unfoldable pub pde_word : MmuEntry → ℕ
  unfolding pg_acc_to_arm cached
  pde_word mme = cached mme.flags (
      if mme.entry == h.pg_dir_entry
      then bit_or (bit_or (bit_and mme.paddr 0xFFF00000) 2) (pg_acc_to_arm mme.access <<< 10)
      else (if mme.entry == h.pg_dir_table then bit_or (bit_and mme.paddr 0xFFFFFC00) 1 else 0))

  unfoldable pub map_pde : MmuEntry → System → ℕ × System
  unfolding pde_index pde_word
  map_pde mme s =
      let slot = mme.pg_dir + 4 * pde_index s.mmu_mvm mme.vaddr in
      (0, record s { mem = store32 s.mem slot (pde_word mme) })

  -- The word that `armv6_map_pte` writes.
  unfoldable pub pte_word : MmuEntry → ℕ
  unfolding pg_acc_to_arm cached
  pte_word mme = cached mme.flags (
      if mme.entry == h.pg_table_entry
      then bit_or (bit_or (bit_and mme.paddr 0xFFFFF000) 2) (pg_acc_to_arm mme.access <<< 12)
      else 0)

  unfoldable pub map_pte : MmuEntry → System → ℕ × System
  unfolding pde_index pte_word
  map_pte mme s =
      let pde = load32 s.mem (mme.pg_dir + 4 * pde_index s.mmu_mvm mme.vaddr) in
      let pg_table = bit_and pde 0xFFFFFC00 in
      let slot = pg_table + 4 * bit_and (mme.vaddr >>> 12) 0xFF in
      if pg_table == 0
      then (h.mmu_err_no_page_table, s)
      else (0, record s { mem = store32 s.mem slot (pte_word mme) })

  unfoldable pub arch_mmu_map : MmuEntry → System → ℕ × System
  unfolding map_pde map_pte
  arch_mmu_map mme s =
      if bit_and mme.entry h.pg_dir_entry == 0 then map_pte mme s else map_pde mme s
