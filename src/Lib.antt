-- ===== src/Lib.antt =====
-- Sugarcat, a kernel for ARMv7 boards.
--
-- The board's boot code puts section mappings into a page directory and turns the MMU on. From then
-- on the kernel maps pages through three layers: the kernel's MMU interface
-- (source/kernel/mm/mmu.c), the architecture's side of it (source/arch/arm/armv7/mmu/armv7_arch_mmu.c)
-- and the entries, directories and registers of the ARMv7 MMU
-- (source/arch/arm/armv7/mmu/armv7_mmu.c). In between, the initialisation reads the memory regions
-- from the boot loader's tag list or device tree and links the kernel's page tables into the
-- directory. All of it stands on the bit, memory and string routines, and reports over the serial port.
-- Beside the kernel, test.c tries out an allocator of its own on one page, and an older port to the
-- ARMv6 has its own MMU code.
--
--   Common           the libraries' names, Boolean tests, 32-bit words, the laws of masks and fields
--   Memory           the flat memory that all pointers go into
--   Errno            include/errno.h
--   Util.Bits        include/util/bits.h
--   Mem              include/mm/mem.h
--   Str              source/util/str.c
--   Str.Pieces       the formats that sprintf and the console understand, and what they print
--   Console          source/mach/vexpress_a9/init/mach_early_kprintf.c and source/debug/debug.c
--   Region           include/mm/mm.h and include/mm/pmm.h
--   Armv6            source/arch/arm/armv6/armv6_mmu.c, over parameters for the header it lacks
--   Armv7            the registers of include/arch/arm/armv7/armv7_syscntl.h
--   Armv7.Entry      the entry types of include/arch/arm/armv7/armv7_mmu.h
--   Armv7.Directory  armv7_mmu_{get,set}_{kern,user}_pgd, armv7_mmu_update, armv7_set_domain
--   Armv7.Table      armv7_mmu_virt_to_phy, armv7_mmu_map_{pgd,pgtb}, armv7_mmu_map_new_{pgd,pgtb}
--                    and the functions that write and read entries
--   ArchMmu          armv7_arch_mmu.c and include/mm/mmu.h
--   Mmu              source/kernel/mm/mmu.c
--   MemLayout        include/memlayout.h, with the linker's symbols as a record
--   Boot             source/mach/vexpress_a9/boot/vexpress_boot_init.c
--   Atag             include/util/atag.h
--   Fdt              source/util/fdt.c and include/util/fdt.h
--   Fdt.Dump         dump_fdt of fdt.c, which prints the tree on the console
--   Init             the memory regions of source/mach/vexpress_a9/init/vexpress_init.c and
--                    source/kernel/memlayout.c
--   Init.Tables      init_setup_kern_pgtb and init_map_kern_pgtb of vexpress_init.c
--   Init.Start       vexpress_init of vexpress_init.c, with the messages of include/init/kinit.h
--   Init.Kernel      source/kernel/kernel_init.c
--   Heap             the allocator of test.c, on the chunks of a page
--   Examples         concrete runs
--
-- The functions keep the source's names without the prefixes `armv6_`, `armv7_`, `armv7_mmu_`, `arch_mmu_`,
-- `mmu_`, `mlay_`, `fdt_` and `init_`. An address is a number, a null pointer to a structure is
-- `none`, and what a function changes is the `Machine` or the `Memory` that it takes and returns.
-- A word is below 2 ^ 32, and its wrap-around is written out. What a variable on the stack holds
-- before it is set is a parameter, and so are the addresses of string literals and buffers.
--
-- A loop that counts down what is left recurs on that; one whose end depends on memory or on
-- errors takes fuel and returns `none` when it runs out. A string of n characters needs n + 1
-- rounds, and a list of n tags or tokens at most n + 2. A page has room for 256 chunk headers, so
-- that 257 rounds are enough for the allocator's search.
--
-- A number is printed with at most ten digits, so that twelve rounds are enough for `itoa` and `itox`.
--
-- Before it branches into `kernel_init`, `vexpress_init` looks up the node "chosen" and two of its
-- properties in the memory that the mappings leave, and prints what it finds; these loops are run in
-- the model as well.
--
-- Not modelled: the assembly and the words of the vector table, the output of the initialisation that
-- CONFIG_INIT_DEBUG turns on, the printing of its warnings (their formatting into `buf` is written
-- there), the lines of `kernel_init` and of memlayout.c, the move of the stack pointer, the effect of
-- barriers and of the TLB on an access (their order is kept as a trace), and faults, since every
-- address can be read and written. Of test.c, main and its endless test are left out: what the test
-- does with the allocator is a relation between states.
pub mod Armv6
pub mod Armv7
mod Common
pub mod ArchMmu
pub mod Atag
pub mod Boot
pub mod Console
pub mod Errno
mod Examples
pub mod Fdt
pub mod Heap
pub mod Init
pub mod Mem
pub mod MemLayout
pub mod Memory
pub mod Mmu
pub mod Region
pub mod Str
pub mod Util
