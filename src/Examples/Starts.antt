-- ===== src/Examples/Starts.antt =====
-- `vexpress_init` with the tag list of the examples.
use sugarcat.Common.{
  ◌+◌, ◌*◌, ◌/◌, ◌^◌, ◌≡◌, ◌<◌, ◌>>>◌, refl, arith, true, false, some, leb, List, [], ◌∷◌, ℕ, ◌>>=◌,
  inr, if◌then◌else◌,
}
use sugarcat.Errno.{esucc}
use sugarcat.Console.{Port}
use sugarcat.Fdt.Dump.{dump_fdt}
use sugarcat.Memory.{Memory, load8, store8, load32, store32}
use sugarcat.Region.{MmReg}
use sugarcat.MemLayout.{Symbols, kvm_to_phy}
use sugarcat.Util.Bits.{be32_to_cpu, endswap32, little}
use sugarcat.Armv7.{Machine, mmu_is_enabled, get_pg_div, dsb, invalidate_unified_tlb}
use sugarcat.Armv7.Directory.{get_kern_pgd}
use sugarcat.Armv7.Table.{slot}
use sugarcat.ArchMmu.{new_table}
use sugarcat.Fdt.{is_using_fdt}
use sugarcat.Init.{MemNames, get_mem}
use sugarcat.Init.Start.{
  Messages, entered, vexpress_init, needed, mmu_pgtb_reg, mmu_pgtb_vreg, hand_over, look_up,
  kern_reg, kinit_reg,
}
use sugarcat.Init.Start.HandOver.{hand_over-new_table, vexpress_init-enough}
use sugarcat.Init.Start.Enters.{Spared, vexpress_init-enters}
use sugarcat.Init.Start.Lookup.{Line}
use sugarcat.Init.Regions.{mems}
use sugarcat.Atag.Chain.{Chain}
use sugarcat.Examples.Board.{board}
use sugarcat.Examples.Tags.{tags_mem, core_tag, mem_tag}

abbrev symbols : Symbols
symbols = record {
  kp_start = 0x60000000;
  kv_start = 0x80000000;
  k_stack = 0x80042000;
  k_pgd = 0x8000;
  lmi_start = 0x60010000;
  lmi_end = 0x60012000;
  lmi_bss_start = 0x60012000;
  lmi_bss_end = 0x60013000;
  hmi_start = 0x80014000;
  hmi_end = 0x80018000;
  hmi_bss_start = 0x80018000;
  hmi_bss_end = 0x80019000;
  k_start = 0x80020000;
  k_end = 0x80043000;
  k_bss_start = 0x80040000;
  k_bss_end = 0x80041000;
}

abbrev messages : Messages
messages = record {
  ivt = 0x60010400;
  console = 0x4800;
  tabs = 0x4900;
  tree = record { open_node = 0x4A00; open_root = 0x4A10; close_node = 0x4A20; prop_line = 0x4A30 };
  buf = 0x4000;
  digits = 0x4200;
  no_mem = 0x4300;
  small_mem = 0x4320;
  initrd_fails = 0x4340;
  initrd_empty = 0x4360;
  kinit_fails = 0x4380;
  kern_fails = 0x43A0;
  kstack_fails = 0x43C0;
  pgtb_fails = 0x43E0;
  pgd_fails = 0x4400;
  setup_fails = 0x4420;
  lookup = record {
    lit = record { slash = 0x4500; size_cells = 0x4504 };
    chosen = 0x4510;
    linux_end = 0x4560;
    linux_start = 0x4570;
    end_line = 0x4580;
    start_line = 0x4590;
    done_line = 0x45A0;
    null_line = 0x45B0;
    console = 0x80041F00;
  };
}

-- The line "null".
abbrev text : List ℕ
text = b'n' ∷ b'u' ∷ b'l' ∷ b'l' ∷ []

abbrev text_mem : Memory
text_mem =
    store8 (store8 (store8 (store8 tags_mem 0x45B0 b'n') 0x45B1 b'u') 0x45B2 b'l') 0x45B3 b'l'

abbrev machine : Machine
machine = record board { mem = text_mem }

abbrev whole : MmReg
whole = record { base = 0x60000000; size = 0x10000000 }

abbrev half : MmReg
half = record { base = 0x60000000; size = 0x8000000 }

abbrev other_half : MmReg
other_half = record { base = 0x68000000; size = 0x8000000 }

machine_on : mmu_is_enabled machine ≡ true
unfolding mmu_is_enabled
machine_on = refl

machine_div : get_pg_div machine ≡ 1
unfolding get_pg_div
machine_div = refl

abbrev names : MemNames
names = record {
  lit = record { slash = 0x4500; size_cells = 0x4504 };
  format = 0x4520;
  memory = 0x4540;
  reg = 0x4550;
  buf = 0x4600;
  digits = 0x4700;
}

tags_are : Chain text_mem 0x100 (core_tag ∷ mem_tag ∷ mem_tag ∷ [])
unfolding load32 load8 store32 store8
tags_are = (
  refl,
  refl,
  omega arith,
  omega arith,
  (refl, refl, omega arith, omega arith, (refl, refl, omega arith, omega arith, refl)),
)

halves : mems text_mem 0x114 (mem_tag ∷ mem_tag ∷ []) ≡ half ∷ other_half ∷ []
unfolding load32 load8 store32 store8
halves = refl

-- The board has a tag list and no tree.
no_tree : is_using_fdt text_mem 0x100 ≡ false
unfolding is_using_fdt load32 store32 load8 store8 be32_to_cpu little endswap32
no_tree = refl

null_text : Line text_mem 0x45B0 text
unfolding load8 store32 store8
null_text = (
  refl,
  omega arith,
  omega arith,
  (
    refl,
    omega arith,
    omega arith,
    (refl, omega arith, omega arith, (refl, omega arith, omega arith, refl)),
  ),
)

large : needed 5 symbols messages < 0x10000000
unfolding needed kern_reg kinit_reg mmu_pgtb_reg
large = omega arith

spared : Spared symbols machine 0x100 4 × Spared symbols machine 0x45B0 5
unfolding mmu_pgtb_reg get_kern_pgd kvm_to_phy mmu_is_enabled
spared = ((omega arith, inr (omega arith)), (omega arith, inr (omega arith)))

vexpress_init-enters_example :
    (s' : Machine) × (vexpress_init 5 symbols messages names 0x100 machine
      ≡ some (entered s' (mmu_pgtb_vreg symbols)))
    × (s'.events ≡ invalidate_unified_tlb ∷ dsb ∷ [])
    × (s'.dacr ≡ 7)
    × (s'.ivt_base ≡ 0x60010400)
vexpress_init-enters_example =
    vexpress_init-enters 5 symbols messages names 0x100 core_tag (mem_tag ∷ mem_tag ∷ []) half
      (other_half ∷ []) text machine (omega arith) no_tree tags_are refl refl (omega arith) halves
      large machine_on machine_div (omega arith) null_text (omega arith) (omega arith) spared.0
      spared.1

-- The same start, from which what it took is read off.
start :
    (s' : Machine) × (vexpress_init 5 symbols messages names 0x100 machine
      ≡ some (entered s' (mmu_pgtb_vreg symbols)))
start =
    let (s', there, _, _, _) =
      vexpress_init-enters 5 symbols messages names 0x100 core_tag (mem_tag ∷ mem_tag ∷ []) half
        (other_half ∷ []) text machine (omega arith) no_tree tags_are refl refl (omega arith) halves
        large machine_on machine_div (omega arith) null_text (omega arith) (omega arith) spared.0
        spared.1 in
    (s', there)

vexpress_init-enough_example :
    (p : Port) × (dump_fdt 5 messages.console messages.tabs 0x100 messages.tree
        (record { mem = text_mem; sent = [] })
      ≡ some p)
    × (reg : MmReg) × (m : Memory) × (get_mem 5 symbols names 0x100
          (some (record { base = 0; size = 0 }))
          p.mem
        ≡ some ((esucc, some reg), m))
    × (needed 5 symbols messages < reg.size)
vexpress_init-enough_example =
    vexpress_init-enough 5 symbols messages names 0x100 machine start.0 (mmu_pgtb_vreg symbols)
      start.1

hand_over-new_table_example :
    (s' : Machine) × (hand_over 5 symbols messages 0x100 machine
      ≡ (look_up 5 symbols messages 0x100 s' >>= λ t. some (entered t (mmu_pgtb_vreg symbols))))
    × (load32 s'.mem (slot (get_kern_pgd machine) (0x80100000 >>> 20)) ≡ (
        if leb (2 ^ 31) 0x80100000
        then new_table (mmu_pgtb_reg symbols).base 0x80100000 machine / 2 ^ 10 * 2 ^ 10 + 1
        else load32 text_mem (slot (get_kern_pgd machine) (0x80100000 >>> 20))))
    × (s'.events ≡ invalidate_unified_tlb ∷ dsb ∷ [])
    × (s'.dacr ≡ 7)
    × (s'.ivt_base ≡ 0)
hand_over-new_table_example =
    hand_over-new_table 5 symbols messages 0x100 machine 0x80100000 machine_on machine_div
      (omega arith) (omega arith)
