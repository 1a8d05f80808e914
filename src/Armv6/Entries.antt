-- ===== src/Armv6/Entries.antt =====
-- The words of source/arch/arm/armv6/armv6_mmu.c, and what a walk makes of them.
use sugarcat.Common.{
  ℕ, ◌+◌, ◌*◌, ◌/◌, ◌%◌, ◌^◌, ◌≤◌, ◌<◌, ◌≡◌, ◌≢◌, ◌⊎◌, inl, inr, refl, ap, sym, ◌∙◌, false, some,
  bit_and, bit_or, arith, ◌==◌, Bool-cases, ==_ne,
}
use sugarcat.Common.Word.Fields.{section_base, page_base, table_base, low_byte}
use sugarcat.Common.Word.Mask.{bit_or_below, bit_or_disjoint, bit_or_split}
use native.Mathlib.Nat.{add-zero}
use sugarcat.Memory.{load32, store32}
use sugarcat.Memory.Laws.{load32-lt, load32-store32, load32-store32_apart}
use sugarcat.Armv6.{
  Interface, MmuEntry, System, pg_acc_to_arm, cached, pde_index, pde_word, pte_word, map_pde,
  map_pte, arch_mmu_map,
}
use sugarcat.Armv6.Walk.{walk, page_walk}

-- A permission's two bits above the section's type.
section_fields :
    (p code : ℕ)
    → (code ≡ 0) ⊎ (code ≡ 1) ⊎ (code ≡ 3)
    → bit_or (bit_or (p * 2 ^ 20) 2) (code * 2 ^ 10) ≡ p * 2 ^ 20 + code * 2 ^ 10 + 2
section_fields p code (inl none) =
    rw (none, bit_or_disjoint 20 p 2 (omega arith))
      ((bit_or_below 20 p 2 0 (omega arith) (omega arith)).0 ∙ omega arith)
section_fields p code (inr (inl kern)) =
    rw (kern, bit_or_disjoint 20 p 2 (omega arith))
      ((bit_or_below 20 p 2 1024 (omega arith) (omega arith)).0 ∙ omega arith)
section_fields p code (inr (inr user)) =
    rw (user, bit_or_disjoint 20 p 2 (omega arith))
      ((bit_or_below 20 p 2 3072 (omega arith) (omega arith)).0 ∙ omega arith)

-- A page's type below its address, which takes in the permission.
page_fields :
    (p code : ℕ) → bit_or (bit_or (p * 2 ^ 12) 2) (code * 2 ^ 12) ≡ bit_or p code * 2 ^ 12 + 2
page_fields p code = rw (bit_or_disjoint 12 p 2 (omega arith)) (
    ap (bit_or (p * 2 ^ 12 + 2)) (sym (add-zero (code * 2 ^ 12)))
    ∙ bit_or_split 12 p 2 code 0 (omega arith) (omega arith))

module _ (h : Interface) where
  acc_cases :
      (acc : ℕ) → (pg_acc_to_arm h acc ≡ 0) ⊎ (pg_acc_to_arm h acc ≡ 1) ⊎ (pg_acc_to_arm h acc ≡ 3)
  unfolding pg_acc_to_arm
  acc_cases acc = elim (Bool-cases (acc == h.kern_rw)) [
    | inl kern ↦ inr (inl (rw kern refl))
    | inr other ↦ elim (Bool-cases (acc == h.user_rw)) [
      | inl user ↦ inr (inr (rw (other, user) refl))
      | inr neither ↦ inl (rw (other, neither) refl)
    ]
  ]

  -- The cache bit is the fourth.
  cached_cases : (flags w : ℕ) → w % 16 ≡ 2 → (cached h flags w ≡ w) ⊎ (cached h flags w ≡ w + 8)
  unfolding cached
  cached_cases flags w low = elim (Bool-cases (bit_and flags h.mmu_cached == 0)) [
    | inl plain ↦ inl (rw plain refl)
    | inr cache ↦
        let parts : w ≡ w / 16 * 2 ^ 4 + 2 = omega arith in
        let set =
          ap (λ v. bit_or v 8) parts
          ∙ (bit_or_below 4 (w / 16) 2 8 (omega arith) (omega arith)).0 in
        inr (rw cache (set ∙ omega arith))
  ]

  section_word :
      (mme : MmuEntry)
      → mme.entry ≡ h.pg_dir_entry
      → mme.paddr < 2 ^ 32
      → (pde_word h mme / 2 ^ 20 ≡ mme.paddr / 2 ^ 20)
        × (pde_word h mme % 4 ≡ 2)
        × (pde_word h mme / 2 ^ 10 % 4 ≡ pg_acc_to_arm h mme.access)
        × (pde_word h mme < 2 ^ 32)
  unfolding pde_word
  section_word mme is fits =
      let acc = acc_cases mme.access in
      let base = section_base mme.paddr fits in
      let fields = section_fields (mme.paddr / 2 ^ 20) (pg_acc_to_arm h mme.access) acc in
      ground (
        arith,
        cached_cases mme.flags
            (mme.paddr / 2 ^ 20 * 2 ^ 20 + pg_acc_to_arm h mme.access * 2 ^ 10 + 2),
      )

  page_word :
      (mme : MmuEntry)
      → mme.entry ≡ h.pg_table_entry
      → mme.paddr < 2 ^ 32
      → (pte_word h mme / 2 ^ 12 ≡ bit_or (mme.paddr / 2 ^ 12) (pg_acc_to_arm h mme.access))
        × (pte_word h mme % 4 ≡ 2)
        × (pte_word h mme < 2 ^ 32)
  unfolding pte_word
  page_word mme is fits =
      let acc = acc_cases mme.access in
      let p = mme.paddr / 2 ^ 12 in
      let code = pg_acc_to_arm h mme.access in
      let base = page_base mme.paddr fits in
      let fields = page_fields p code in
      let small = (bit_or_below 20 0 p code (omega arith) (omega arith)).1 in
      ground (arith, cached_cases mme.flags (bit_or p code * 2 ^ 12 + 2))

  -- A section that is mapped through a directory entry of its own: the walk at the entry's place
  -- leads from any address to the same offset in the section that was asked for, and the entry
  -- carries the code of the access asked for.
  pub arch_mmu_map-section :
      (mme : MmuEntry) (s : System) (v : ℕ)
      → mme.entry ≡ h.pg_dir_entry
      → bit_and mme.entry h.pg_dir_entry ≢ 0
      → mme.paddr < 2 ^ 32
      → let slot = mme.pg_dir + 4 * pde_index h s.mmu_mvm mme.vaddr in
        let m' = (arch_mmu_map h mme s).1.mem in
        ((arch_mmu_map h mme s).0 ≡ 0)
        × (walk m' slot v ≡ some (mme.paddr / 2 ^ 20 * 2 ^ 20 + v % 2 ^ 20))
        × (load32 m' slot / 2 ^ 10 % 4 ≡ pg_acc_to_arm h mme.access)
  unfolding arch_mmu_map map_pde walk
  arch_mmu_map-section mme s v is is_dir fits =
      let slot = mme.pg_dir + 4 * pde_index h s.mmu_mvm mme.vaddr in
      let (base, type, code, word) = section_word mme is fits in
      let read = load32-store32 s.mem slot (pde_word h mme) word in
      let dir : (bit_and mme.entry h.pg_dir_entry == 0) ≡ false =
        ==_ne (bit_and mme.entry h.pg_dir_entry) 0 is_dir in
      rw (dir, read, type, base) (refl, refl, code)

  -- `armv6_map_pte` writes the entry into the table that the directory names.
  arch_mmu_map-store :
      (mme : MmuEntry) (s : System)
      → let pde = load32 s.mem (mme.pg_dir + 4 * pde_index h s.mmu_mvm mme.vaddr) in
        let table = pde / 2 ^ 10 * 2 ^ 10 in
        let slot = table + 4 * (mme.vaddr / 2 ^ 12 % 256) in
        bit_and mme.entry h.pg_dir_entry ≡ 0
        → table ≢ 0
        → arch_mmu_map h mme s ≡ (0, record s { mem = store32 s.mem slot (pte_word h mme) })
  unfolding arch_mmu_map map_pte
  arch_mmu_map-store mme s no_dir there =
      let pde = load32 s.mem (mme.pg_dir + 4 * pde_index h s.mmu_mvm mme.vaddr) in
      let base : bit_and pde 0xFFFFFC00 ≡ pde / 2 ^ 10 * 2 ^ 10 =
        table_base pde (load32-lt s.mem (mme.pg_dir + 4 * pde_index h s.mmu_mvm mme.vaddr)) in
      rw (no_dir, base, low_byte (mme.vaddr / 2 ^ 12), ==_ne (pde / 2 ^ 10 * 2 ^ 10) 0 there) refl

  -- A page that is mapped through a page table: the walk leads to the page whose number is the one
  -- asked for, OR-ed with the code of the access, which the shift by 12 puts there. So a page with
  -- an even number that the kernel may write is mapped one page too high.
  pub arch_mmu_map-page :
      (mme : MmuEntry) (s : System)
      → let dir = mme.pg_dir + 4 * pde_index h s.mmu_mvm mme.vaddr in
        let table = load32 s.mem dir / 2 ^ 10 * 2 ^ 10 in
        let slot = table + 4 * (mme.vaddr / 2 ^ 12 % 256) in
        let s' = (arch_mmu_map h mme s).1 in
        mme.entry ≡ h.pg_table_entry
        → bit_and mme.entry h.pg_dir_entry ≡ 0
        → mme.paddr < 2 ^ 32
        → load32 s.mem dir % 4 ≡ 1
        → table ≢ 0
        → (slot + 4 ≤ dir) ⊎ (dir + 4 ≤ slot)
        → ((arch_mmu_map h mme s).0 ≡ 0)
          × (walk s'.mem dir mme.vaddr
              ≡ some (
                  bit_or (mme.paddr / 2 ^ 12) (pg_acc_to_arm h mme.access) * 2 ^ 12
                  + mme.vaddr % 2 ^ 12))
  unfolding walk page_walk
  arch_mmu_map-page mme s is no_dir fits coarse there apart =
      let dir = mme.pg_dir + 4 * pde_index h s.mmu_mvm mme.vaddr in
      let slot = load32 s.mem dir / 2 ^ 10 * 2 ^ 10 + 4 * (mme.vaddr / 2 ^ 12 % 256) in
      let (frame, type, word) = page_word mme is fits in
      let kept = load32-store32_apart s.mem slot dir (pte_word h mme) apart in
      let read = load32-store32 s.mem slot (pte_word h mme) word in
      rw (arch_mmu_map-store mme s no_dir there, kept, coarse, read, type, frame) (refl, refl)
