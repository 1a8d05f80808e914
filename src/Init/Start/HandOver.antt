-- ===== src/Init/Start/HandOver.antt =====
-- The end of `vexpress_init`, and what it takes to get there.
use sugarcat.Common.{
  ℕ, ◌+◌, ◌-◌, ◌*◌, ◌/◌, ◌%◌, ◌^◌, ◌<◌, ◌≤◌, ◌⊎◌, ◌≡◌, ◌≢◌, refl, ap, sym as sym_path, ◌∙◌, Bool,
  true, false, Option, none, some, List, [], ◌∷◌, bit_and, bit_or, arith, leb, if◌then◌else◌, not32,
  ◌>>=◌, ◌>>>◌, Bool-cases, inl, inr,
}
use sugarcat.Common.Word.Mask.{
  bit_and_not_low, bit_and_split, bit_and_low, bit_or_disjoint, bit_or_below,
}
use sugarcat.Errno.{esucc}
use sugarcat.Console.{Port}
use sugarcat.Fdt.Dump.{dump_fdt}
use sugarcat.Memory.{Memory, load8, load32}
use sugarcat.Region.{MmReg}
use sugarcat.MemLayout.{Symbols}
use sugarcat.Armv7.{
  Machine, sync, invalidate_tlb, dsb, invalidate_unified_tlb, mmu_is_enabled, get_pg_div,
}
use sugarcat.Armv7.Directory.{set_domain, get_kern_pgd}
use sugarcat.Armv7.Table.{slot}
use sugarcat.ArchMmu.{new_table, get_kern_vaddr}
use sugarcat.Init.{MemNames, Result, get_mem}
use sugarcat.Init.Tables.Linked.{setup_kern_pgtb-new_table, setup_kern_pgtb-registers}
use sugarcat.Init.Start.{
  print_tree, Messages, MmVreg, panicked, entered, mmu_pgtb_reg, mmu_pgd_reg, mmu_pgtb_vreg,
  kdef_ent, errno_code, hand_over, look_up, needed, with_memory, found, panic, to_msg,
  vexpress_init, install_ivt,
}

-- The user's domain is the manager's and the kernel's is a client's, whatever they were.
domains : ℕ → ℕ
domains x = bit_or (bit_and (bit_or (bit_and x (not32 3)) 3) (not32 12)) 4

cleared : (x : ℕ) → x < 2 ^ 32 → bit_and (x / 4 * 4 + 3) (2 ^ 32 - 13) ≡ x / 16 * 16 + 3
cleared x word =
    let parts : x / 4 * 4 + 3 ≡ x / 16 * 2 ^ 4 + (x / 4 % 4 * 4 + 3) = omega arith in
    let split =
      bit_and_split 4 (x / 16) (x / 4 % 4 * 4 + 3) (2 ^ 28 - 1) 3 (omega arith) (omega arith) in
    ap (λ t. bit_and t (2 ^ 32 - 13)) parts
    ∙ split
    ∙ omega (arith, bit_and_low 28 (x / 16), bit_and_low 2 (x / 4 % 4 * 4 + 3))

domains_lem : (x : ℕ) → x < 2 ^ 32 → domains x ≡ x / 16 * 16 + 7
unfolding domains
domains_lem x word =
    let low : bit_and x (not32 3) ≡ x / 4 * 4 = bit_and_not_low 2 x (omega arith) word in
    let one : bit_or (x / 4 * 4) 3 ≡ x / 4 * 4 + 3 = bit_or_disjoint 2 (x / 4) 3 (omega arith) in
    rw (low, one, cleared x word) (bit_or_below 4 (x / 16) 3 4 (omega arith) (omega arith)).0

set_domains :
    (s : Machine) → (set_domain 1 1 (set_domain 0 3 s).1).1 ≡ record s { dacr = domains s.dacr }
unfolding set_domain domains
set_domains s = refl

pgtb_base-lt : (sym : Symbols) → (mmu_pgtb_reg sym).base < 2 ^ 32
unfolding mmu_pgtb_reg
pgtb_base-lt sym = omega arith

not_entered :
    (o : Option Machine) (s' : Machine) (v : MmVreg)
    → (o >>= λ s. some (panicked s)) ≢ some (entered s' v)
not_entered none s' v e = cc
not_entered (some s) s' v e = cc

-- A barrier changes no register.
sync-registers :
    (s : Machine)
    → (mmu_is_enabled (sync s) ≡ mmu_is_enabled s)
      × (get_pg_div (sync s) ≡ get_pg_div s)
      × (get_kern_pgd (sync s) ≡ get_kern_pgd s)
unfolding mmu_is_enabled get_pg_div get_kern_pgd
sync-registers s = (refl, refl, refl)

new_table-sync : (b v : ℕ) (s : Machine) → new_table b v (sync s) ≡ new_table b v s
unfolding new_table get_kern_vaddr get_pg_div
new_table-sync b v s = refl

no_fields : (b : Bool) (x y : ℕ) → (if b then x + 0 * 32 + 0 + 1 else y) ≡ (if b then x + 1 else y)
no_fields true x y = omega arith
no_fields false x y = refl

-- The address does not lie in the upper half of the directory.
abbrev pub Outside : ℕ → ℕ → Type 0
Outside pgd a = (slot pgd 4096 ≤ a) ⊎ (a < slot pgd 2048)

module _ (fuel : ℕ) (sym : Symbols) (msg : Messages) where
  -- The machine before the lookup: with the MMU on and memory split in two halves, only memory,
  -- the events and the domains have changed since the barrier.
  pub hand_over-mapped :
      (atag_fdt_base : ℕ) (s : Machine)
      → mmu_is_enabled s ≡ true
      → get_pg_div s ≡ 1
      → s.dacr < 2 ^ 32
      → (s' : Machine) × (hand_over fuel sym msg atag_fdt_base s
          ≡ (look_up fuel sym msg atag_fdt_base s' >>= λ t. some (entered t (mmu_pgtb_vreg sym))))
        × ((v : ℕ)
            → v < 2 ^ 32
            → load32 s'.mem (slot (get_kern_pgd s) (v >>> 20)) ≡ (
                if leb (2 ^ 31) v
                then new_table (mmu_pgtb_reg sym).base v s / 2 ^ 10 * 2 ^ 10 + 1
                else load32 s.mem (slot (get_kern_pgd s) (v >>> 20))))
        × ((a : ℕ) → Outside (get_kern_pgd s) a → load8 s'.mem a ≡ load8 s.mem a)
        × (s'.events ≡ invalidate_unified_tlb ∷ dsb ∷ s.events)
        × (s'.dacr ≡ s.dacr / 16 * 16 + 7)
        × (s'.ivt_base ≡ s.ivt_base)
  unfolding hand_over get_kern_pgd load32 mmu_is_enabled
  hand_over-mapped base s on two word =
      let (same_on, same_div, same_pgd) = sync-registers s in
      let pgd = mmu_pgd_reg sym in
      let pgtb = mmu_pgtb_reg sym in
      let (m, step, frame) =
        setup_kern_pgtb-registers pgd pgtb kdef_ent (sync s) (same_on ∙ on) (same_div ∙ two) in
      let s1 = record (sync s) { mem = m } in
      let s2 = record (invalidate_tlb s1) { dacr = domains s.dacr } in
      (
        s2,
        rw step (
            ap (λ x. look_up fuel sym msg base x >>= λ t. some (entered t (mmu_pgtb_vreg sym)))
              (set_domains (invalidate_tlb s1))),
        λ v high.
            let at = slot (get_kern_pgd s) (v >>> 20) in
            let (_, linked) =
              setup_kern_pgtb-new_table pgd pgtb kdef_ent (sync s) v (same_on ∙ on) (same_div ∙ two)
                (pgtb_base-lt sym) (omega arith) (omega arith) refl high in
            ap (λ r. load32 r.1.mem at) (sym_path step)
            ∙ linked
            ∙ ap
                (λ t.
                  if leb (2 ^ 31) v then t / 2 ^ 10 * 2 ^ 10 + 0 * 32 + 0 + 1 else load32 s.mem at)
                (new_table-sync pgtb.base v s)
            ∙ no_fields (leb (2 ^ 31) v) (new_table pgtb.base v s / 2 ^ 10 * 2 ^ 10)
                (load32 s.mem at),
        frame,
        refl,
        domains_lem s.dacr word,
        refl,
      )

  -- With the MMU on and memory split in two halves, `vexpress_init` gets from its barrier to the
  -- lookup of the "chosen" node, and goes into `kernel_init`, with the region of the page tables,
  -- exactly where that lookup ends, and as it leaves the machine. When the lookup begins, the
  -- kernel's directory has for every address of the upper half the page table that `new_table`
  -- names for it in that region, but for the table's ten low bits, and for the lower half what it
  -- had before; the barrier comes before the one invalidation of the TLB; and the user's domain is
  -- not checked, the kernel's is, the other domains are as they were, and the vectors stay where
  -- they are.
  pub hand_over-new_table :
      (atag_fdt_base : ℕ) (s : Machine) (v : ℕ)
      → mmu_is_enabled s ≡ true
      → get_pg_div s ≡ 1
      → s.dacr < 2 ^ 32
      → v < 2 ^ 32
      → (s' : Machine) × (hand_over fuel sym msg atag_fdt_base s
          ≡ (look_up fuel sym msg atag_fdt_base s' >>= λ t. some (entered t (mmu_pgtb_vreg sym))))
        × (load32 s'.mem (slot (get_kern_pgd s) (v >>> 20)) ≡ (
            if leb (2 ^ 31) v
            then new_table (mmu_pgtb_reg sym).base v s / 2 ^ 10 * 2 ^ 10 + 1
            else load32 s.mem (slot (get_kern_pgd s) (v >>> 20))))
        × (s'.events ≡ invalidate_unified_tlb ∷ dsb ∷ s.events)
        × (s'.dacr ≡ s.dacr / 16 * 16 + 7)
        × (s'.ivt_base ≡ s.ivt_base)
  hand_over-new_table base s v on two word high =
      let (s', over, tables, _, events, dacr, ivt) = hand_over-mapped base s on two word in
      (s', over, tables v high, events, dacr, ivt)

  panic-ne-entered :
      (format : ℕ) (args : List ℕ) (s s' : Machine) (v : MmVreg)
      → panic fuel sym msg format args s ≢ some (entered s' v)
  unfolding panic
  panic-ne-entered format args s s' v = not_entered (to_msg fuel sym msg format args s) s' v

  enough_memory :
      (atag_fdt_base : ℕ) (reg : MmReg) (s s' : Machine) (v : MmVreg)
      → with_memory fuel sym msg atag_fdt_base reg s ≡ some (entered s' v)
      → needed fuel sym msg < reg.size
  unfolding with_memory
  enough_memory base reg s s' v there = elim (Bool-cases (leb reg.size (needed fuel sym msg))) [
    | inl small ↦ absurd (
        panic-ne-entered msg.small_mem (reg.size ∷ needed fuel sym msg ∷ []) s s' v
          (rw (small, with_memory) at there))
    | inr large ↦ ground arith
  ]

  found-enough :
      (atag_fdt_base : ℕ) (r : Result) (s s' : Machine) (v : MmVreg)
      → found fuel sym msg atag_fdt_base r s ≡ some (entered s' v)
      → (reg : MmReg) × (r ≡ (esucc, some reg)) × (needed fuel sym msg < reg.size)
  unfolding found
  found-enough base (esucc, some reg) s s' v there =
      (reg, refl, enough_memory base reg s s' v there)
  found-enough base (esucc, none) s s' v there =
      absurd (panic-ne-entered msg.no_mem (errno_code esucc ∷ []) s s' v there)
  found-enough base (err, r) s s' v there =
      absurd (panic-ne-entered msg.no_mem (errno_code err ∷ []) s s' v there)

  after_search-enough :
      (atag_fdt_base : ℕ) (o : Option (Result × Memory)) (s s' : Machine) (v : MmVreg)
      → (o >>= λ (r, m). found fuel sym msg atag_fdt_base r (record s { mem = m }))
        ≡ some (entered s' v)
      → (reg : MmReg) × (m : Memory) × (o ≡ some ((esucc, some reg), m))
        × (needed fuel sym msg < reg.size)
  after_search-enough base none s s' v there = cc
  after_search-enough base (some (r, m)) s s' v there =
      let (reg, is, large) = found-enough base r (record s { mem = m }) s' v there in
      (reg, m, ap (λ x. some (x, m)) is, large)

  after_dump-enough :
      (names : MemNames) (atag_fdt_base : ℕ) (o : Option Port) (s s' : Machine) (v : MmVreg)
      → ((o >>= λ p. some (record s { mem = p.mem })) >>= λ s0.
          get_mem fuel sym names atag_fdt_base (some (record { base = 0; size = 0 })) s0.mem
          >>= λ (r, m). found fuel sym msg atag_fdt_base r (record s0 { mem = m }))
        ≡ some (entered s' v)
      → (p : Port) × (o ≡ some p)
        × (reg : MmReg) × (m : Memory) × (get_mem fuel sym names atag_fdt_base
              (some (record { base = 0; size = 0 }))
              p.mem
            ≡ some ((esucc, some reg), m))
        × (needed fuel sym msg < reg.size)
  after_dump-enough names base none s s' v there = cc
  after_dump-enough names base (some p) s s' v there =
      let (reg, m, is, large) =
        after_search-enough base
          (get_mem fuel sym names base (some (record { base = 0; size = 0 })) p.mem)
          (record s { mem = p.mem }) s' v there in
      (p, refl, reg, m, is, large)

  -- `vexpress_init` gets into `kernel_init` only where `dump_fdt` ended and the search for memory
  -- succeeded, with a region that is larger than the kernel, the kernel's initialisation and the
  -- page tables are together, by their sum in 32 bits.
  pub vexpress_init-enough :
      (names : MemNames) (atag_fdt_base : ℕ) (s s' : Machine) (v : MmVreg)
      → vexpress_init fuel sym msg names atag_fdt_base s ≡ some (entered s' v)
      → (p : Port) × (dump_fdt fuel msg.console msg.tabs atag_fdt_base msg.tree
            (record { mem = s.mem; sent = [] })
          ≡ some p)
        × (reg : MmReg) × (m : Memory) × (get_mem fuel sym names atag_fdt_base
              (some (record { base = 0; size = 0 }))
              p.mem
            ≡ some ((esucc, some reg), m))
        × (needed fuel sym msg < reg.size)
  unfolding vexpress_init print_tree install_ivt
  vexpress_init-enough names base s s' v there =
      after_dump-enough names base
        (dump_fdt fuel msg.console msg.tabs base msg.tree (record { mem = s.mem; sent = [] }))
        (install_ivt msg.ivt s) s' v there
