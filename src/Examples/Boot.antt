-- ===== src/Examples/Boot.antt =====
-- The boot code on the board.
use sugarcat.Common.{◌*◌, ◌≤◌, ◌<◌, ◌≡◌, ◌↔◌, refl, arith, true, ◌>>>◌, sub32}
use sugarcat.Memory.{load32}
use sugarcat.Mem.{memset}
use sugarcat.Region.{MmReg}
use sugarcat.MemLayout.{Symbols, kvm_to_phy, phy_to_kvm, get_kern_virt_start, get_kern_phy_start}
use sugarcat.Armv7.{mmu_is_enabled, get_pg_div}
use sugarcat.Armv7.Entry.{krw_nou}
use sugarcat.Armv7.Table.{slot, virt_to_phy}
use sugarcat.Boot.{boot_init}
use sugarcat.Boot.Running.{BoardLayout, virt_to_phy-boot_init_kern, boot_init_tail}
use sugarcat.Init.Tables.{InitMmuEntry, map_pg_cnt}
use sugarcat.Init.Tables.Counts.{map_pg_cnt_iff}
use sugarcat.Examples.Board.{board}

-- The linker script's constants for a kernel of 0xFF000 bytes.
abbrev symbols : Symbols
symbols = record {
  kp_start = 0x60000000;
  kv_start = 0x80000000;
  k_stack = 0x6000B000;
  k_pgd = 0x60004000;
  lmi_start = 0x60008000;
  lmi_end = 0x6000C000;
  lmi_bss_start = 0x60009000;
  lmi_bss_end = 0x60009000;
  hmi_start = 0x8000C000;
  hmi_end = 0x8000D000;
  hmi_bss_start = 0x8000D000;
  hmi_bss_end = 0x8000D000;
  k_start = 0x8000D000;
  k_end = 0x80107000;
  k_bss_start = 0x80107000;
  k_bss_end = 0x80107000;
}

symbols_end : kvm_to_phy symbols symbols.k_end ≡ 0x60107000
unfolding kvm_to_phy get_kern_virt_start get_kern_phy_start
symbols_end = refl

symbols-BoardLayout : BoardLayout symbols
symbols-BoardLayout = record {
  kp = refl;
  kv = refl;
  low = omega arith;
  ordered = omega (arith, symbols_end);
  high = omega (arith, symbols_end);
  pgd_aligned = refl;
  pgd_word = omega arith;
}

virt_to_phy-boot_init_kern_example :
    virt_to_phy (phy_to_kvm symbols 0x60010004) (boot_init symbols board) ≡ 0x60010004
virt_to_phy-boot_init_kern_example =
    virt_to_phy-boot_init_kern symbols board symbols-BoardLayout 0x60010004 (omega arith)
      (omega (arith, symbols_end)) (omega (arith, symbols_end))

boot_init_tail_example :
    let slot_addr =
      slot symbols.k_pgd (phy_to_kvm symbols (kvm_to_phy symbols symbols.k_end) >>> 20) in
    let bss_sz = sub32 symbols.lmi_bss_end symbols.lmi_bss_start in
    load32 (boot_init symbols board).mem slot_addr
    ≡ load32 (memset board.mem symbols.lmi_bss_start 0 bss_sz) slot_addr
boot_init_tail_example =
    boot_init_tail symbols board symbols-BoardLayout (omega (arith, symbols_end))

abbrev tables : MmReg
tables = record { base = 0x60200000; size = 0x200000 }

abbrev entry : InitMmuEntry
entry = record { perms = krw_nou; domain = 0; flags = 0 }

board_on : mmu_is_enabled board ≡ true
unfolding mmu_is_enabled
board_on = refl

board_halves : get_pg_div board ≡ 1
unfolding get_pg_div
board_halves = refl

map_pg_cnt_iff_example :
    ((0x3000 ≤ 4096 * map_pg_cnt 0x3000) ↔ (2048 < 0x3000))
    × (4096 * map_pg_cnt 0x3000 < 2 * 0x3000)
map_pg_cnt_iff_example = map_pg_cnt_iff 0x3000 (omega arith) (omega arith)
