-- ===== src/Init/Kernel.antt =====
-- `kernel_init` of source/kernel/kernel_init.c. What it prints is left out as in `vexpress_init`;
-- its arguments but the address of the boot tables are tested and not used.
use sugarcat.Common.{
  leb, ltb, ◌-◌, if◌then◌else◌, ℕ, ◌+◌, ◌^◌, ◌<◌, ◌≡◌, Option, none, some, arith, sub32, ◌>>=◌,
}
use sugarcat.Errno.{Errno}
use sugarcat.Memory.{Memory, load8}
use sugarcat.Region.{MmReg}
use sugarcat.MemLayout.{Symbols, get_hmi_bss_region_sz}
use sugarcat.Mem.{memset}
use sugarcat.Mem.Blocks.{memset_at}
use sugarcat.Armv7.{Machine}
use sugarcat.Init.Start.{Messages, install_ivt, print_tree}
use sugarcat.Init.{MemNames, InitrdNames, Result, get_phy_mem_reg, get_initrd_reg}

-- `memset` with 0 of a block that may run past the last address, after which the pointer goes on
-- at 0.
unfoldable pub clear : Memory → ℕ → ℕ → Memory
clear m start size =
    if leb (start + size) (2 ^ 32)
    then memset m start 0 size
    else memset (memset m start 0 (2 ^ 32 - start)) 0 0 (start + size - 2 ^ 32)

-- With a size below 2^32, exactly the bytes are cleared whose distance from the start, modulo 2^32,
-- is less than the size.
pub clear_at :
    (m : Memory) (start size a : ℕ)
    → start < 2 ^ 32
    → size < 2 ^ 32
    → a < 2 ^ 32
    → load8 (clear m start size) a ≡ (if ltb (sub32 a start) size then 0 else load8 m a)
unfolding clear
clear_at m start size a from short word = ground (
  arith,
  memset_at m start 0 size a,
  memset_at m start 0 (2 ^ 32 - start) a,
  memset_at (memset m start 0 (2 ^ 32 - start)) 0 0 (start + size - 2 ^ 32) a,
)

module _ (sym : Symbols) where
  unfoldable pub hmi_bss_sz : ℕ
  hmi_bss_sz = sub32 sym.hmi_bss_start sym.hmi_bss_end

  unfoldable pub k_bss_sz : ℕ
  k_bss_sz = sub32 sym.k_bss_end sym.k_bss_start

  -- With a section that is not empty, `kernel_init` clears all of memory but as many bytes as the
  -- section has, where `mlay_get_hmi_bss_region_sz` gives the size of the section.
  pub hmi_bss_sz-get_hmi_bss_region_sz :
      sym.hmi_bss_start < sym.hmi_bss_end
      → sym.hmi_bss_end < 2 ^ 32
      → hmi_bss_sz + get_hmi_bss_region_sz sym ≡ 2 ^ 32
  unfolding hmi_bss_sz get_hmi_bss_region_sz
  hmi_bss_sz-get_hmi_bss_region_sz less word = omega arith

  -- Both clearings of memory, with 32-bit addresses.
  unfoldable pub clear_bss : Memory → Memory
  unfolding hmi_bss_sz k_bss_sz clear
  clear_bss m = clear (clear m sym.hmi_bss_start hmi_bss_sz) sym.k_bss_start k_bss_sz

  -- The structure after the first search.
  abbrev pub kept : Result → MmReg → MmReg
  kept (err, some reg) before = reg
  kept (err, none) before = before

  -- The results of both searches, and the machine; `mem_reg` is what the stack holds before.
  unfoldable pub kernel_init :
      ℕ
      → Messages
      → MemNames
      → InitrdNames
      → (atag_fdt_base : ℕ) (mem_reg : MmReg) → Machine
      → Option (Result × Errno × MmReg × Machine)
  unfolding clear_bss
  kernel_init fuel msg names initrd atag_fdt_base mem_reg s =
      let s0 = install_ivt msg.ivt (record s { mem = clear_bss s.mem }) in
      print_tree fuel sym msg atag_fdt_base s0 >>= λ s1.
      get_phy_mem_reg fuel sym names atag_fdt_base mem_reg s1.mem >>= λ (r, m).
      get_initrd_reg fuel m initrd atag_fdt_base (kept r mem_reg) >>= λ (err, reg).
      some (r, err, reg, record s1 { mem = m })
