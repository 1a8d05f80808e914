-- ===== src/Examples/Older.antt =====
-- Runs of the ARMv6 code, with some values for the constants of the header that is missing.
use sugarcat.Common.{◌+◌, ◌*◌, ◌/◌, ◌%◌, ◌^◌, ◌≡◌, refl, inr, some, arith}
use sugarcat.Memory.{Memory, load8, store8, load32, store32}
use sugarcat.Armv6.{Interface, MmuEntry, System, arch_mmu_map, pg_acc_to_arm, pde_index}
use sugarcat.Armv6.Entries.{arch_mmu_map-section, arch_mmu_map-page}
use sugarcat.Armv6.Walk.{walk}

abbrev constants : Interface
constants = record {
  pg_dir_entry = 1;
  pg_dir_table = 3;
  pg_dir_trans_fault = 5;
  pg_table_entry = 2;
  pg_table_trans_fault = 4;
  mmu_cached = 1;
  kern_rw = 1;
  user_rw = 2;
  mmu_4g_no_split = 0;
  mmu_2g_2g_split = 1;
  mmu_1g_3g_split = 2;
  mmu_err_no_page_table = 1;
  mmu_err_unsupported_vm_map = 2;
  mmu_get_high_vaddr = λ mvm. 0x80000000;
}

-- A directory at 0x4000, whose entry for the kernel's second megabyte names a table at 0x8000.
abbrev tables : Memory
tables = store32 (λ _. 0) 0x4004 0x8001

abbrev system : System
system = record {
  cntl = 0x78;
  domain = 0;
  ttbcr = 1;
  ttb0 = 0;
  ttb1 = 0x4000;
  invalidations = 0;
  mem = tables;
  mmu_mvm = 1;
}

abbrev section : MmuEntry
section = record {
  pg_dir = 0x4000;
  entry = 1;
  vaddr = 0x80200000;
  paddr = 0x10000000;
  access = 1;
  flags = 1;
}

arch_mmu_map-section_example :
    let slot = 0x4000 + 4 * pde_index constants 1 0x80200000 in
    let m' = (arch_mmu_map constants section system).1.mem in
    ((arch_mmu_map constants section system).0 ≡ 0)
    × (walk m' slot 0x80212345 ≡ some 0x10012345)
    × (load32 m' slot / 2 ^ 10 % 4 ≡ pg_acc_to_arm constants 1)
arch_mmu_map-section_example =
    arch_mmu_map-section constants section system 0x80212345 refl (omega arith) (omega arith)

abbrev page : MmuEntry
page = record {
  pg_dir = 0x4000;
  entry = 2;
  vaddr = 0x80103456;
  paddr = 0x10002000;
  access = 1;
  flags = 0;
}

arch_mmu_map-page_example :
    let dir = 0x4000 + 4 * pde_index constants 1 0x80103456 in
    let s' = (arch_mmu_map constants page system).1 in
    ((arch_mmu_map constants page system).0 ≡ 0) × (walk s'.mem dir 0x80103456 ≡ some 0x10003456)
unfolding pde_index pg_acc_to_arm load32 store32 load8 store8
arch_mmu_map-page_example =
    arch_mmu_map-page constants page system refl refl (omega arith) refl (omega arith)
      (inr (omega arith))
