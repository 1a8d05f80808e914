-- ===== src/Init/Start.antt =====
-- `vexpress_init` of source/mach/vexpress_a9/init/vexpress_init.c, up to the branch into
-- `kernel_init`. The words that it sends to the console are left out, but `dump_fdt` and the lines
-- before the branch are run, and what they and the messages that are formatted into `buf` leave in
-- memory is written there; a formatted warning is not printed, nor what CONFIG_INIT_DEBUG turns on.
-- `move_high_sp` sets only the stack pointer.
pub mod HandOver
pub mod Lookup
pub mod Maps
pub mod Enters
use sugarcat.Common.{
  ℕ, ◌+◌, Bool, Option, none, some, List, [], ◌∷◌, bit_and, leb, ◌==◌, if◌then◌else◌, u32, sub32,
  not32, ◌>>=◌,
}
use sugarcat.Errno.{Errno, esucc, einval, enotfnd, enotinit, enotsupp, ealign, enotenb, esize}
use sugarcat.Memory.{Memory}
use sugarcat.Console.{mach_early_kprintf}
use sugarcat.Fdt.{Literals, be32, get_node, get_property}
use sugarcat.Fdt.Dump.{Formats, dump_fdt}
use sugarcat.Region.{MmReg}
use sugarcat.MemLayout.{Symbols, kvm_to_phy}
use sugarcat.Mem.{memset}
use sugarcat.Str.Format.{sprintf}
use sugarcat.Atag.{tag_exists, atag_initrd2}
use sugarcat.Armv7.{set_ivt_base, Machine, sync, invalidate_tlb, dacr_client, dacr_mngr}
use sugarcat.Armv7.Entry.{krw_nou}
use sugarcat.Armv7.Directory.{set_domain}
use sugarcat.Mmu.{is_success}
use sugarcat.Init.{MemNames, Result, get_mem, get_initrd}
use sugarcat.Init.Tables.{InitMmuEntry, setup_kern_pgtb, map_kern_pgtb}

abbrev pub mask_mb : ℕ
mask_mb = 0xFFFFF

abbrev pub mb : ℕ
mb = 0x100000

abbrev pub mmu_pgtb_size : ℕ
mmu_pgtb_size = 0x200000

abbrev pub mmu_kpgd_size : ℕ
mmu_kpgd_size = 0x4000

abbrev pub pg_sz : ℕ
pg_sz = 4096

abbrev pub user_domain : ℕ
user_domain = 0

abbrev pub kern_domain : ℕ
kern_domain = 1

abbrev pub kdef_ent : InitMmuEntry
kdef_ent = record { perms = krw_nou; domain = 0; flags = 0 }

pub record MmVreg : Type 0 where
  pub phy_base : ℕ
  pub virt_base : ℕ
  pub size : ℕ

-- The error's number, as it is printed.
unfoldable pub errno_code : Errno → ℕ
errno_code esucc = 0
errno_code einval = 1
errno_code enotfnd = 2
errno_code enotinit = 3
errno_code enotsupp = 4
errno_code ealign = 5
errno_code enotenb = 6
errno_code esize = 7

module _ (sym : Symbols) where
  unfoldable pub mmu_pgtb_reg : MmReg
  mmu_pgtb_reg = record {
    base = u32 (bit_and (kvm_to_phy sym sym.k_end) (not32 mask_mb) + mb);
    size = mmu_pgtb_size;
  }

  unfoldable pub mmu_pgtb_vreg : MmVreg
  unfolding mmu_pgtb_reg
  mmu_pgtb_vreg = record {
    phy_base = mmu_pgtb_reg.base;
    virt_base = u32 (bit_and sym.k_end (not32 mask_mb) + mb);
    size = mmu_pgtb_reg.size;
  }

  abbrev pub mmu_pgd_reg : MmReg
  mmu_pgd_reg = record { base = sym.k_pgd; size = mmu_kpgd_size }

  unfoldable pub kstack_reg : MmReg
  kstack_reg = record { base = sub32 (kvm_to_phy sym sym.k_stack) pg_sz; size = pg_sz }

  unfoldable pub kinit_reg : MmReg
  kinit_reg = record { base = kvm_to_phy sym sym.hmi_start; size = sub32 sym.hmi_end sym.hmi_start }

  unfoldable pub kern_reg : MmReg
  kern_reg = record { base = kvm_to_phy sym sym.k_start; size = sub32 sym.k_end sym.k_start }

-- Of source/arch/arm/armv7/ivt/armv7_ivt.c.
unfoldable pub install_ivt : ℕ → Machine → Machine
install_ivt ivt s = set_ivt_base ivt s

-- Where the literals and the formats of the lookup before the branch are, in the order of the
-- code, and the console's buffer there, on the stack in the kernel's memory.
pub record ChosenNames : Type 0 where
  pub lit : Literals
  pub chosen : ℕ
  pub linux_end : ℕ
  pub linux_start : ℕ
  pub end_line : ℕ
  pub start_line : ℕ
  pub done_line : ℕ
  pub null_line : ℕ
  pub console : ℕ

-- Where the vector table of armv7_ivt.c is, what `dump_fdt` uses, and the formats of the messages,
-- in the order of the code, `buf`, the buffer that `sprintf` makes numbers in, and what the lookup
-- before the branch uses.
pub record Messages : Type 0 where
  pub ivt : ℕ
  pub console : ℕ
  pub tabs : ℕ
  pub tree : Formats
  pub buf : ℕ
  pub digits : ℕ
  pub no_mem : ℕ
  pub small_mem : ℕ
  pub initrd_fails : ℕ
  pub initrd_empty : ℕ
  pub kinit_fails : ℕ
  pub kern_fails : ℕ
  pub kstack_fails : ℕ
  pub pgtb_fails : ℕ
  pub pgd_fails : ℕ
  pub setup_fails : ℕ
  pub lookup : ChosenNames

-- `kinit_panic` does not return; `kernel_init` is called with the region of the page tables.
pub data Start : Type 0 where
  panicked : Machine → Start
  entered : Machine → MmVreg → Start

module _ (fuel : ℕ) (sym : Symbols) (msg : Messages) where
  -- A message is formatted into `buf`.
  unfoldable pub to_msg : ℕ → List ℕ → Machine → Option Machine
  to_msg format args s =
      sprintf fuel msg.digits msg.buf format args s.mem >>= λ (_, m). some (record s { mem = m })

  unfoldable pub panic : ℕ → List ℕ → Machine → Option Start
  panic format args s = to_msg format args s >>= λ s'. some (panicked s')

  -- A region is mapped; a failure is only reported.
  unfoldable pub map_reg : MmReg → ℕ → Machine → Option Machine
  map_reg reg format s =
      let (err, s') = map_kern_pgtb sym (some (mmu_pgtb_reg sym)) (some reg) (some kdef_ent) s in
      if is_success err then some s' else to_msg format (errno_code err ∷ []) s'

  unfoldable pub map_regions : Machine → Option Machine
  map_regions s = map_reg (kinit_reg sym) msg.kinit_fails s >>= λ s1.
      map_reg (kern_reg sym) msg.kern_fails s1 >>= λ s2.
      map_reg (kstack_reg sym) msg.kstack_fails s2 >>= λ s3.
      map_reg (mmu_pgtb_reg sym) msg.pgtb_fails s3 >>= λ s4.
      map_reg (mmu_pgd_reg sym) msg.pgd_fails s4

  -- A line on the console, of which only the number's buffer stays in memory.
  unfoldable pub print_line : ℕ → List ℕ → Machine → Option Machine
  print_line format args s =
      mach_early_kprintf fuel msg.lookup.console format args (record { mem = s.mem; sent = [] })
      >>= λ p. some (record s { mem = p.mem })

  -- The lines for the two properties, if both are there.
  unfoldable pub print_initrd : ℕ → ℕ → Machine → Option Machine
  print_initrd initrd_end initrd_start s =
      let lines = print_line msg.lookup.end_line (be32 s.mem (initrd_end + 12) ∷ []) s >>= λ s1.
      print_line msg.lookup.start_line (be32 s1.mem (initrd_start + 12) ∷ []) s1 >>= λ s2.
      print_line msg.lookup.done_line [] s2 in
      if initrd_end == 0 then some s else (if initrd_start == 0 then some s else lines)

  -- The lookup of the "chosen" node and of its two properties.
  unfoldable pub look_up : ℕ → Machine → Option Machine
  look_up atag_fdt_base s =
      get_node fuel s.mem msg.lookup.lit fuel msg.lookup.chosen atag_fdt_base >>= λ test.
      if test == 0
      then print_line msg.lookup.null_line [] s
      else (get_property fuel s.mem fuel atag_fdt_base test msg.lookup.linux_end >>= λ initrd_end.
          get_property fuel s.mem fuel atag_fdt_base test msg.lookup.linux_start >>= λ initrd_start.
          print_initrd initrd_end initrd_start s)

  -- From the barrier to the branch into `kernel_init`.
  unfoldable pub hand_over : ℕ → Machine → Option Start
  hand_over atag_fdt_base s =
      let (err, s') =
        setup_kern_pgtb (some (mmu_pgd_reg sym)) (some (mmu_pgtb_reg sym)) kdef_ent (sync s) in
      let (_, s1) = set_domain user_domain dacr_mngr (invalidate_tlb s') in
      let (_, s2) = set_domain kern_domain dacr_client s1 in
      if is_success err
      then (look_up atag_fdt_base s2 >>= λ s3. some (entered s3 (mmu_pgtb_vreg sym)))
      else panic msg.setup_fails (errno_code err ∷ []) s'

  unfoldable pub report_initrd : Result → Machine → Option Machine
  report_initrd (esucc, some reg) s =
      if reg.size == 0 then to_msg msg.initrd_empty (reg.size ∷ []) s else some s
  report_initrd (err, _) s = to_msg msg.initrd_fails (errno_code err ∷ []) s

  -- The check of the initial ramdisk, which only reports.
  unfoldable pub check_initrd : ℕ → Machine → Option Machine
  check_initrd atag_fdt_base s = tag_exists fuel s.mem atag_fdt_base atag_initrd2 >>= λ there.
      if there
      then (get_initrd fuel s.mem atag_fdt_base (some (record { base = 0; size = 0 })) >>= λ r.
          report_initrd r s)
      else some s

  -- The sizes that a region of memory must exceed, together.
  unfoldable pub needed : ℕ
  needed = u32 (u32 ((kern_reg sym).size + (kinit_reg sym).size) + (mmu_pgtb_reg sym).size)

  -- What follows when a region of memory was found.
  unfoldable pub with_memory : ℕ → MmReg → Machine → Option Start
  with_memory atag_fdt_base mem_reg s =
      if leb mem_reg.size needed
      then panic msg.small_mem (mem_reg.size ∷ needed ∷ []) s
      else (check_initrd atag_fdt_base s >>= λ s1.
          map_regions
            (record s1 { mem = memset s1.mem (mmu_pgtb_reg sym).base 0 (mmu_pgtb_reg sym).size })
          >>= λ s2. hand_over atag_fdt_base s2)

  unfoldable pub found : ℕ → Result → Machine → Option Start
  found atag_fdt_base (esucc, some reg) s = with_memory atag_fdt_base reg s
  found atag_fdt_base (err, _) s = panic msg.no_mem (errno_code err ∷ []) s

  -- `dump_fdt`, of whose work only its buffers stay in memory.
  unfoldable pub print_tree : ℕ → Machine → Option Machine
  print_tree fdt_base s =
      dump_fdt fuel msg.console msg.tabs fdt_base msg.tree (record { mem = s.mem; sent = [] })
      >>= λ p. some (record s { mem = p.mem })

  unfoldable pub vexpress_init : MemNames → ℕ → Machine → Option Start
  vexpress_init names atag_fdt_base s = print_tree atag_fdt_base (install_ivt msg.ivt s) >>= λ s0.
      get_mem fuel sym names atag_fdt_base (some (record { base = 0; size = 0 })) s0.mem
      >>= λ (r, m). found atag_fdt_base r (record s0 { mem = m })
