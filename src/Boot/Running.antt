-- ===== src/Boot/Running.antt =====
-- Translations once the boot code has turned the MMU on.
use sugarcat.Common.{
  ℕ, ◌+◌, ◌-◌, ◌*◌, ◌/◌, ◌%◌, ◌^◌, ◌≤◌, ◌<◌, ◌≡◌, ap, ◌∙◌, arith, bit_or, true, ltb, leb, ◌&&◌,
  if◌then◌else◌, ◌>>>◌, sub32,
}
use sugarcat.Common.Word.Step.{bit_or_step}
use sugarcat.Common.Word.Mask.{bit_or_disjoint, bit_and_low, bit_and_not_low}
use sugarcat.Common.Word.Fields.{section_base, low_two, low_section, ttbr_base}
use sugarcat.Memory.{load32}
use sugarcat.Armv7.{Machine, mmu_is_enabled, get_pg_div, sctlr_afe, sctlr_mmu_enb}
use sugarcat.Armv7.Directory.{get_kern_pgd, get_user_pgd, set_domain}
use sugarcat.Armv7.Table.{slot, active_pgd, virt_to_phy}
use sugarcat.Mem.{memset}
use sugarcat.MemLayout.{Symbols, kvm_to_phy, phy_to_kvm}
use sugarcat.MemLayout.Convert.{phy_to_kvm_board}
use sugarcat.Boot.{user_loop, user_pg_dir, kern_pg_dir, enable_mmu, boot_init}
use sugarcat.Boot.Directory.{user_loop_at, kern_loop_at}

-- The walk through a section.
section_walk :
    (v j : ℕ) (s : Machine)
    → v < 2 ^ 32
    → j < 2 ^ 12
    → mmu_is_enabled s ≡ true
    → load32 s.mem (slot (active_pgd v s) (v >>> 20)) ≡ j * 2 ^ 20 + 0x402
    → virt_to_phy v s ≡ j * 2 ^ 20 + v % 2 ^ 20
unfolding virt_to_phy
section_walk v j s word small on entry = ground (
  arith,
  low_two (j * 2 ^ 20 + 0x402),
  section_base (j * 2 ^ 20 + 0x402),
  low_section v,
  bit_or_disjoint 20 j (v % 2 ^ 20),
)

enable_mmu-on : (s : Machine) → mmu_is_enabled (enable_mmu s) ≡ true
unfolding enable_mmu mmu_is_enabled set_domain
enable_mmu-on s =
    let r = bit_or s.sctlr (bit_or sctlr_afe sctlr_mmu_enb) in
    ground (arith, bit_and_low 1 r, bit_or_step s.sctlr (bit_or sctlr_afe sctlr_mmu_enb))

-- The linker script's constants, and that the kernel lies below the end of the board's window.
pub record BoardLayout (sym : Symbols) : Type 0 where
  pub kp : sym.kp_start ≡ 0x60000000
  pub kv : sym.kv_start ≡ 0x80000000
  pub low : 0x60000000 ≤ sym.lmi_start
  pub ordered : sym.lmi_start ≤ kvm_to_phy sym sym.k_end
  pub high : kvm_to_phy sym sym.k_end + 2 ^ 20 ≤ 0x80000000
  pub pgd_aligned : sym.k_pgd % 2 ^ 14 ≡ 0
  pub pgd_word : sym.k_pgd < 2 ^ 32

module _ (sym : Symbols) (s : Machine) (layout : BoardLayout sym) where
  -- Both directories are in one place.
  boot_pgd : (v : ℕ) → active_pgd v (boot_init sym s) ≡ sym.k_pgd
  unfolding boot_init active_pgd get_kern_pgd get_user_pgd get_pg_div kern_pg_dir user_pg_dir
      enable_mmu set_domain mmu_is_enabled
  boot_pgd v =
      let r = bit_or s.sctlr (bit_or sctlr_afe sctlr_mmu_enb) in
      ground (
        arith,
        layout.pgd_aligned,
        layout.pgd_word,
        bit_and_low 1 r,
        bit_or_step s.sctlr (bit_or sctlr_afe sctlr_mmu_enb),
        bit_and_not_low 13 sym.k_pgd,
        ttbr_base sym.k_pgd,
      )

  boot_on : mmu_is_enabled (boot_init sym s) ≡ true
  unfolding boot_init
  boot_on = enable_mmu-on _

  -- What the two loops leave in memory.
  boot_word :
      (j : ℕ)
      → load32 (boot_init sym s).mem (slot sym.k_pgd j) ≡ (
          let first = sym.lmi_start / 2 ^ 20 + 0x200 in
          let k_sz = sub32 (kvm_to_phy sym sym.k_end) sym.lmi_start in
          let cleared =
            memset s.mem sym.lmi_bss_start 0 (sub32 sym.lmi_bss_end sym.lmi_bss_start) in
          if leb first j && ltb j (first + (k_sz / 2 ^ 20 + 1))
          then (j - 0x200) * 2 ^ 20 + 0x402
          else if ltb j 2048
          then j * 2 ^ 20 + 0x402
          else load32 cleared (slot sym.k_pgd j))
  unfolding boot_init kern_pg_dir user_pg_dir enable_mmu set_domain
  boot_word j =
      let cleared = memset s.mem sym.lmi_bss_start 0 (sub32 sym.lmi_bss_end sym.lmi_bss_start) in
      let k_sz = sub32 (kvm_to_phy sym sym.k_end) sym.lmi_start in
      ground (
        arith,
        layout.low,
        layout.ordered,
        layout.high,
        kern_loop_at sym (k_sz / 2 ^ 20 + 1) 0 sym.k_pgd sym.lmi_start j
            (user_loop 2048 0 sym.k_pgd cleared) layout.kp layout.kv,
        user_loop_at 2048 0 sym.k_pgd j cleared,
      )

  boot_walk :
      (v j : ℕ)
      → v < 2 ^ 32
      → j < 2 ^ 12
      → load32 (boot_init sym s).mem (slot sym.k_pgd (v / 2 ^ 20)) ≡ j * 2 ^ 20 + 0x402
      → virt_to_phy v (boot_init sym s) ≡ j * 2 ^ 20 + v % 2 ^ 20
  boot_walk v j word small entry =
      section_walk v j (boot_init sym s) word small boot_on
        (ap (λ (t : ℕ). load32 (boot_init sym s).mem (slot t (v >>> 20))) (boot_pgd v) ∙ entry)

  -- Once the boot code has run on a board with the linker script's physical and virtual start, an
  -- aligned directory and a kernel that ends a megabyte before 0x80000000, every address of the
  -- lower two gigabytes translates to itself.
  pub virt_to_phy-boot_init_low : (v : ℕ) → v < 2 ^ 31 → virt_to_phy v (boot_init sym s) ≡ v
  virt_to_phy-boot_init_low v low =
      ground (arith, layout.low, boot_word (v / 2 ^ 20), boot_walk v (v / 2 ^ 20))

  -- Once the boot code has run on a board with the linker script's physical and virtual start, an
  -- aligned directory and a kernel that ends a megabyte before 0x80000000, the kernel address of
  -- every physical address from the start of the initialisation code to the kernel's end that lies
  -- in one of the megabytes counted from the kernel's size translates to that address.
  pub virt_to_phy-boot_init_kern :
      (p : ℕ)
      → sym.lmi_start ≤ p
      → p ≤ kvm_to_phy sym sym.k_end
      → p / 2 ^ 20 ≤ sym.lmi_start / 2 ^ 20 + (kvm_to_phy sym sym.k_end - sym.lmi_start) / 2 ^ 20
      → virt_to_phy (phy_to_kvm sym p) (boot_init sym s) ≡ p
  virt_to_phy-boot_init_kern p above below counted = ground (
    arith,
    layout.low,
    layout.high,
    phy_to_kvm_board sym p layout.kp layout.kv,
    boot_word (p / 2 ^ 20 + 0x200),
    boot_walk (p + 0x20000000) (p / 2 ^ 20),
  )

  -- On such a board the count starts from the size and not from the megabytes that the kernel touches: if the
  -- offsets of its start and its size within a megabyte add up to a megabyte or more, the boot code
  -- leaves the directory's word for the kernel's end as memory had it once the bss was cleared.
  pub boot_init_tail :
      2 ^ 20 ≤ sym.lmi_start % 2 ^ 20 + (kvm_to_phy sym sym.k_end - sym.lmi_start) % 2 ^ 20
      → let slot_addr = slot sym.k_pgd (phy_to_kvm sym (kvm_to_phy sym sym.k_end) >>> 20) in
        let bss_sz = sub32 sym.lmi_bss_end sym.lmi_bss_start in
        load32 (boot_init sym s).mem slot_addr
        ≡ load32 (memset s.mem sym.lmi_bss_start 0 bss_sz) slot_addr
  boot_init_tail crosses =
      let p = kvm_to_phy sym sym.k_end in
      ground (
        arith,
        layout.low,
        layout.ordered,
        layout.high,
        phy_to_kvm_board sym p layout.kp layout.kv,
        boot_word (p / 2 ^ 20 + 0x200),
      )
