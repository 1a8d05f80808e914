-- ===== src/Examples/Board.antt =====
-- The board of the examples: the kernel's directory at 0x8000 has a page table at 0xC000 for the
-- first megabyte of the upper half, and the user's directory at 0x4000 is empty.
use sugarcat.Common.{[]}
use sugarcat.Memory.{Memory, store32}
use sugarcat.Armv7.{Machine}
use sugarcat.Armv7.Entry.{PgtbEntry, pgtb_small_pg, krw_nou, PgdEntry, pgd_section}

abbrev pub board_mem : Memory
board_mem = store32 (λ _. 0) 0xA000 0xC021

abbrev pub board : Machine
board = record {
  sctlr = 1;
  ttbcr = 1;
  ttbr0 = 0x4000;
  ttbr1 = 0x8000;
  dacr = 0;
  ivt_base = 0;
  aux_cntl = 0;
  scr = 0;
  config_base = 0x1E000000;
  mpidr = 0;
  mem = board_mem;
  events = [];
}

abbrev pub page : PgtbEntry
page = record {
  phy_addr = 0x60010000;
  virt_addr = 0x80003000;
  acc_perm = krw_nou;
  type = pgtb_small_pg;
  flags = 0;
}

abbrev pub section : PgdEntry
section = record {
  phy_addr = 0x60100000;
  virt_addr = 0x80100000;
  domain = 1;
  acc_perm = krw_nou;
  type = pgd_section;
  flags = 0;
}
