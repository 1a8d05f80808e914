-- ===== src/Init/Start/Enters.antt =====
-- `vexpress_init` where the boot loader leaves a list of tags: it gets into `kernel_init`.
use sugarcat.Common.{
  ℕ, ◌+◌, ◌*◌, ◌/◌, ◌^◌, ◌≤◌, ◌<◌, ◌≡◌, ◌⊎◌, ◌∙◌, inl, inr, refl, true, false, some, List, [], ◌∷◌,
  length, arith, ◌==◌,
}
use sugarcat.Errno.{esucc}
use sugarcat.Fdt.{is_using_fdt}
use sugarcat.Fdt.Dump.Steps.{dump_fdt-null}
use sugarcat.Memory.{Memory, load8, load32}
use sugarcat.MemLayout.{Symbols}
use sugarcat.Atag.{atag_core, atag_initrd2, is_using_atag, tag_exists}
use sugarcat.Atag.Chain.{Tag, Chain, has, tag_exists-has}
use sugarcat.Armv7.{Machine, dsb, invalidate_unified_tlb, mmu_is_enabled, get_pg_div}
use sugarcat.Armv7.Directory.{get_kern_pgd}
use sugarcat.Armv7.Table.{slot}
use sugarcat.Region.{MmReg}
use sugarcat.Init.{MemNames, get_mem}
use sugarcat.Init.Regions.{mems, merge, get_mem_atag-merged}
use sugarcat.Init.Start.{
  print_tree, Messages, entered, mmu_pgtb_reg, mmu_pgtb_vreg, needed, found, vexpress_init,
  install_ivt,
}
use sugarcat.Init.Start.Lookup.{Line, Line-same, look_up-no_tree}
use sugarcat.Init.Start.Maps.{with_memory-maps}

-- The `len` bytes at `a` lie below the page tables, and outside the upper half of the directory.
abbrev pub Spared : Symbols → Machine → ℕ → ℕ → Type 0
Spared sym s a len =
    (a + len ≤ (mmu_pgtb_reg sym).base)
    × ((slot (get_kern_pgd s) 4096 ≤ a) ⊎ (a + len ≤ slot (get_kern_pgd s) 2048))

is_using_fdt-same :
    (m m' : Memory) (p : ℕ)
    → ((a : ℕ) → p ≤ a → a < p + 4 → load8 m' a ≡ load8 m a)
    → is_using_fdt m' p ≡ is_using_fdt m p
unfolding is_using_fdt load32
is_using_fdt-same m m' p same =
    rw
      (
        same p (omega arith) (omega arith),
        same (p + 1) (omega arith) (omega arith),
        same (p + 2) (omega arith) (omega arith),
        same (p + 3) (omega arith) (omega arith),
      )
      refl

module _ (fuel : ℕ) (sym : Symbols) (msg : Messages) where
  -- The search for memory in a list of tags.
  get_mem-tags :
      (names : MemNames) (p : ℕ) (m : Memory) (t : Tag) (ts : List Tag) (r : MmReg)
      (rs : List MmReg)
      → 0 < p
      → is_using_fdt m p ≡ false
      → Chain m p (t ∷ ts)
      → t.tag ≡ atag_core
      → length (t ∷ ts) < fuel
      → mems m (p + 4 * t.size) ts ≡ r ∷ rs
      → get_mem fuel sym names p (some (record { base = 0; size = 0 })) m
        ≡ some ((esucc, some (merge r rs)), m)
  unfolding get_mem is_using_atag
  get_mem-tags names p m t ts r rs here none c core enough regions =
      let is_core : (load32 m (p + 4) == atag_core) ≡ true = ground arith in
      rw
        (
          none,
          is_core,
          get_mem_atag-merged fuel p m t ts (record { base = 0; size = 0 }) here c (omega arith),
          core,
          regions,
        )
        refl

  no_initrd :
      (p : ℕ) (m : Memory) (t : Tag) (ts : List Tag)
      → Chain m p (t ∷ ts)
      → t.tag ≡ atag_core
      → has atag_initrd2 ts ≡ false
      → length (t ∷ ts) < fuel
      → tag_exists fuel m p atag_initrd2 ≡ some false
  no_initrd p m t ts c core absent enough =
      (tag_exists-has fuel p atag_initrd2 m t ts c enough).0 ∙ rw (core, absent) refl

  -- `vexpress_init` ends in `kernel_init`, with the region of the page tables, where the boot
  -- loader leaves a list of tags, and no device tree, that begins with the core tag and has no
  -- initial ramdisk, and whose memory tags' regions, joined, are larger than the kernel, its
  -- initialisation and the page tables together, if the MMU is on, memory is split in two halves,
  -- the domains are a 32-bit word, the list's address is not null, the line for a missing node is a
  -- text without `%` shorter than 2^32, and the list's first word and that text lie below the page
  -- tables and outside the upper half of the directory: with more rounds than the list has tags and
  -- the text characters, every loop before the branch ends, and no mapping fails.
  -- By then the barrier and the one invalidation of the TLB were issued in that order, the user's
  -- domain is not checked while the kernel's is, and the vectors are those of the kernel.
  pub vexpress_init-enters :
      (names : MemNames) (atag_fdt_base : ℕ) (t : Tag) (ts : List Tag) (r : MmReg) (rs : List MmReg)
      (text : List ℕ) (s : Machine)
      → 0 < atag_fdt_base
      → is_using_fdt s.mem atag_fdt_base ≡ false
      → Chain s.mem atag_fdt_base (t ∷ ts)
      → t.tag ≡ atag_core
      → has atag_initrd2 ts ≡ false
      → length (t ∷ ts) < fuel
      → mems s.mem (atag_fdt_base + 4 * t.size) ts ≡ r ∷ rs
      → needed fuel sym msg < (merge r rs).size
      → mmu_is_enabled s ≡ true
      → get_pg_div s ≡ 1
      → s.dacr < 2 ^ 32
      → Line s.mem msg.lookup.null_line text
      → length text < 2 ^ 32
      → length text < fuel
      → Spared sym s atag_fdt_base 4
      → Spared sym s msg.lookup.null_line (length text + 1)
      → (s' : Machine) × (vexpress_init fuel sym msg names atag_fdt_base s
          ≡ some (entered s' (mmu_pgtb_vreg sym)))
        × (s'.events ≡ invalidate_unified_tlb ∷ dsb ∷ s.events)
        × (s'.dacr ≡ s.dacr / 16 * 16 + 7)
        × (s'.ivt_base ≡ msg.ivt)
  unfolding vexpress_init print_tree install_ivt found mmu_is_enabled get_pg_div get_kern_pgd
  vexpress_init-enters names base t ts r rs text s here none c core absent enough regions large on
        two word line small short (below, out) (below_text, out_text) =
      let dumped =
        dump_fdt-null fuel msg.console msg.tabs base msg.tree (record { mem = s.mem; sent = [] })
          (omega arith) none in
      let lookup = get_mem-tags names base s.mem t ts r rs here none c core enough regions in
      let (s', maps, same, events, dacr, ivt) =
        with_memory-maps fuel sym msg base (merge r rs) (install_ivt msg.ivt s)
          (no_initrd base s.mem t ts c core absent enough) large on two word in
      let none' =
        is_using_fdt-same s.mem s'.mem base (λ a from to.
          same a (omega arith)
            (elim out [ inl above ↦ inl (omega arith) | inr under ↦ inr (omega arith) ]))
        ∙ none in
      let line' =
        Line-same s.mem s'.mem msg.lookup.null_line text
          (λ a from to.
            same a (omega arith)
              (elim out_text [ inl above ↦ inl (omega arith) | inr under ↦ inr (omega arith) ]))
          line in
      let looked = look_up-no_tree fuel sym msg base s' text none' line' small short in
      (s', rw (dumped, lookup, maps, looked) refl, events, dacr, ivt)
