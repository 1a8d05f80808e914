-- ===== src/MemLayout.antt =====
-- include/memlayout.h: the symbols that the linker script defines, what the kernel reads of them,
-- and the two translations between physical memory and the kernel's half.
pub mod Convert
use sugarcat.Common.{ℕ, bit_and, bit_or, sub32, not32}

-- The addresses of the linker's symbols; the linker is not part of the sources.
pub record Symbols : Type 0 where
  pub kp_start : ℕ
  pub kv_start : ℕ
  pub k_stack : ℕ
  pub k_pgd : ℕ
  pub lmi_start : ℕ
  pub lmi_end : ℕ
  pub lmi_bss_start : ℕ
  pub lmi_bss_end : ℕ
  pub hmi_start : ℕ
  pub hmi_end : ℕ
  pub hmi_bss_start : ℕ
  pub hmi_bss_end : ℕ
  pub k_start : ℕ
  pub k_end : ℕ
  pub k_bss_start : ℕ
  pub k_bss_end : ℕ

module _ (sym : Symbols) where
  unfoldable pub get_kern_phy_start : ℕ
  get_kern_phy_start = sym.kp_start

  unfoldable pub get_kern_virt_start : ℕ
  get_kern_virt_start = sym.kv_start

  unfoldable pub get_kern_stack : ℕ
  get_kern_stack = sym.k_stack

  unfoldable pub get_kern_pgd_sym : ℕ
  get_kern_pgd_sym = sym.k_pgd

  unfoldable pub get_lmi_start : ℕ
  get_lmi_start = sym.lmi_start

  unfoldable pub get_lmi_region_sz : ℕ
  get_lmi_region_sz = sub32 sym.lmi_end sym.lmi_start

  unfoldable pub get_lmi_bss_start : ℕ
  get_lmi_bss_start = sym.lmi_bss_start

  unfoldable pub get_lmi_bss_region_sz : ℕ
  get_lmi_bss_region_sz = sub32 sym.lmi_bss_end sym.lmi_bss_start

  unfoldable pub get_hmi_start : ℕ
  get_hmi_start = sym.hmi_start

  unfoldable pub get_hmi_region_sz : ℕ
  get_hmi_region_sz = sub32 sym.hmi_end sym.hmi_start

  unfoldable pub get_hmi_bss_start : ℕ
  get_hmi_bss_start = sym.hmi_bss_start

  unfoldable pub get_hmi_bss_region_sz : ℕ
  get_hmi_bss_region_sz = sub32 sym.hmi_bss_end sym.hmi_bss_start

  unfoldable pub get_kern_start : ℕ
  get_kern_start = sym.k_start

  unfoldable pub get_kern_region_sz : ℕ
  get_kern_region_sz = sub32 sym.k_end sym.k_start

  unfoldable pub get_kern_bss_start : ℕ
  get_kern_bss_start = sym.k_bss_start

  unfoldable pub get_kern_bss_region_sz : ℕ
  get_kern_bss_region_sz = sub32 sym.k_bss_end sym.k_bss_start

  unfoldable pub kvm_to_phy : ℕ → ℕ
  unfolding get_kern_virt_start get_kern_phy_start
  kvm_to_phy address = bit_or (bit_and address (not32 get_kern_virt_start)) get_kern_phy_start

  unfoldable pub phy_to_kvm : ℕ → ℕ
  unfolding get_kern_virt_start get_kern_phy_start
  phy_to_kvm address = bit_or (bit_and address (not32 get_kern_phy_start)) get_kern_virt_start
