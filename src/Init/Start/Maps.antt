-- ===== src/Init/Start/Maps.antt =====
-- The mappings of `vexpress_init`: they succeed, and write only from the region of the page tables
-- on and in the kernel's directory.
use sugarcat.Common.{
  ℕ, zero, suc, ◌+◌, ◌*◌, ◌/◌, ◌^◌, ◌<◌, ◌≡◌, ◌∙◌, refl, true, false, some, ◌∷◌, arith, leb, inr,
  ◌>>=◌,
}
use sugarcat.Common.Word.Mask.{le-bit_or}
use sugarcat.Errno.{esucc}
use sugarcat.Memory.{Memory, load8}
use sugarcat.Memory.Laws.{load8-store32_apart}
use sugarcat.Region.{MmReg}
use sugarcat.MemLayout.{Symbols}
use sugarcat.Mem.{memset}
use sugarcat.Mem.Blocks.{memset_at}
use sugarcat.Atag.{tag_exists, atag_initrd2}
use sugarcat.Armv7.{Machine, dsb, invalidate_unified_tlb, mmu_is_enabled, get_pg_div}
use sugarcat.Armv7.Directory.{get_kern_pgd}
use sugarcat.Armv7.Table.{slot, pgtb_index, pgtb_word, map_new_pgtb, create_pgtb_entry}
use sugarcat.Armv7.Entry.{is_supported_pgtb_type}
use sugarcat.Init.Tables.{InitMmuEntry, map_kern_pgtb, map_loop, pgtb_entry, table_at}
use sugarcat.Init.Start.{
  Messages, entered, kinit_reg, kern_reg, kstack_reg, mmu_pgd_reg, mmu_pgtb_reg, mmu_pgtb_vreg,
  kdef_ent, map_reg, map_regions, needed, check_initrd, with_memory, look_up,
}
use sugarcat.Init.Start.HandOver.{Outside, hand_over-mapped}

-- Nothing below `base` has changed.
abbrev pub SameBelow : ℕ → Memory → Memory → Type 0
SameBelow base m m' = (a : ℕ) → a < base → load8 m' a ≡ load8 m a

-- A page of the kernel is always mapped, in a page table of the region.
map_new_pgtb-succeeds :
    (pg_tb phy virt v_start i : ℕ) (ent : InitMmuEntry) (s : Machine)
    → (m : Memory) × (map_new_pgtb
          (table_at pg_tb virt v_start i)
          (some (pgtb_entry phy virt ent i))
          s
        ≡ (esucc, record s { mem = m }))
      × SameBelow pg_tb s.mem m
unfolding map_new_pgtb create_pgtb_entry is_supported_pgtb_type table_at
map_new_pgtb-succeeds pg_tb phy virt v_start i ent s = (
  _,
  refl,
  λ a below.
      load8-store32_apart s.mem
        (slot (table_at pg_tb virt v_start i) (pgtb_index (pgtb_entry phy virt ent i).virt_addr)) a
        (pgtb_word (pgtb_entry phy virt ent i)) (inr (omega (arith, le-bit_or pg_tb))),
)

map_loop-succeeds :
    (left i pg_tb phy virt v_start : ℕ) (ent : InitMmuEntry) (s : Machine)
    → (m : Memory) × (map_loop left i pg_tb phy virt v_start ent s ≡ (esucc, record s { mem = m }))
      × SameBelow pg_tb s.mem m
unfolding map_loop
map_loop-succeeds zero i pg_tb phy virt v_start ent s = (s.mem, refl, λ a below. refl)
map_loop-succeeds (suc left) i pg_tb phy virt v_start ent s =
    let (m, step, same) = map_new_pgtb-succeeds pg_tb phy virt v_start i ent s in
    let (m', rest, same') =
      map_loop-succeeds left (i + 1) pg_tb phy virt v_start ent (record s { mem = m }) in
    (m', rw step rest, λ a below. same' a below ∙ same a below)

map_kern_pgtb-succeeds :
    (sym : Symbols) (pgtb reg : MmReg) (ent : InitMmuEntry) (s : Machine)
    → (m : Memory) × (map_kern_pgtb sym (some pgtb) (some reg) (some ent) s
        ≡ (esucc, record s { mem = m }))
      × SameBelow pgtb.base s.mem m
unfolding map_kern_pgtb
map_kern_pgtb-succeeds sym pgtb reg ent s = map_loop-succeeds _ 0 pgtb.base reg.base _ _ ent s

module _ (fuel : ℕ) (sym : Symbols) (msg : Messages) where
  map_reg-succeeds :
      (reg : MmReg) (format : ℕ) (s : Machine)
      → (m : Memory) × (map_reg fuel sym msg reg format s ≡ some (record s { mem = m }))
        × SameBelow (mmu_pgtb_reg sym).base s.mem m
  unfolding map_reg
  map_reg-succeeds reg format s =
      let (m, step, same) = map_kern_pgtb-succeeds sym (mmu_pgtb_reg sym) reg kdef_ent s in
      (m, rw step refl, same)

  map_regions-succeeds :
      (s : Machine)
      → (m : Memory) × (map_regions fuel sym msg s ≡ some (record s { mem = m }))
        × SameBelow (mmu_pgtb_reg sym).base s.mem m
  unfolding map_regions
  map_regions-succeeds s =
      let (m1, e1, k1) = map_reg-succeeds (kinit_reg sym) msg.kinit_fails s in
      let (m2, e2, k2) = map_reg-succeeds (kern_reg sym) msg.kern_fails (record s { mem = m1 }) in
      let (m3, e3, k3) =
        map_reg-succeeds (kstack_reg sym) msg.kstack_fails (record s { mem = m2 }) in
      let (m4, e4, k4) =
        map_reg-succeeds (mmu_pgtb_reg sym) msg.pgtb_fails (record s { mem = m3 }) in
      let (m5, e5, k5) = map_reg-succeeds (mmu_pgd_reg sym) msg.pgd_fails (record s { mem = m4 }) in
      (
        m5,
        rw (e1, e2, e3, e4, e5) refl,
        λ a below. k5 a below ∙ k4 a below ∙ k3 a below ∙ k2 a below ∙ k1 a below,
      )

  memset-SameBelow : (base size : ℕ) (m : Memory) → SameBelow base m (memset m base 0 size)
  memset-SameBelow base size m a below = ground (arith, memset_at m base 0 size a)

  -- With enough memory, no initial ramdisk in the tag list, the MMU on and memory split in two
  -- halves, what follows the search for memory comes to the lookup before the branch; memory below
  -- the page tables and outside the upper half of the directory is as it was.
  pub with_memory-maps :
      (atag_fdt_base : ℕ) (reg : MmReg) (s : Machine)
      → tag_exists fuel s.mem atag_fdt_base atag_initrd2 ≡ some false
      → needed fuel sym msg < reg.size
      → mmu_is_enabled s ≡ true
      → get_pg_div s ≡ 1
      → s.dacr < 2 ^ 32
      → (s' : Machine) × (with_memory fuel sym msg atag_fdt_base reg s
          ≡ (look_up fuel sym msg atag_fdt_base s' >>= λ t. some (entered t (mmu_pgtb_vreg sym))))
        × ((a : ℕ)
            → a < (mmu_pgtb_reg sym).base
            → Outside (get_kern_pgd s) a
            → load8 s'.mem a ≡ load8 s.mem a)
        × (s'.events ≡ invalidate_unified_tlb ∷ dsb ∷ s.events)
        × (s'.dacr ≡ s.dacr / 16 * 16 + 7)
        × (s'.ivt_base ≡ s.ivt_base)
  unfolding with_memory check_initrd mmu_is_enabled get_pg_div get_kern_pgd
  with_memory-maps base reg s no_initrd large on two word =
      let pgtb = mmu_pgtb_reg sym in
      let blank = memset s.mem pgtb.base 0 pgtb.size in
      let (m, mapped, same) = map_regions-succeeds (record s { mem = blank }) in
      let (s', over, _, apart, events, dacr, ivt) =
        hand_over-mapped fuel sym msg base (record s { mem = m }) on two word in
      let room : leb reg.size (needed fuel sym msg) ≡ false = ground arith in
      (
        s',
        rw (room, no_initrd, mapped) over,
        λ a below out.
            apart a out ∙ same a below ∙ memset-SameBelow pgtb.base pgtb.size s.mem a below,
        events,
        dacr,
        ivt,
      )
