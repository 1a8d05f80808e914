-- ===== src/Mmu/Invalidate.antt =====
-- Invalidating pages and regions.
use sugarcat.Common.{
  ℕ, zero, suc, ◌+◌, ◌*◌, ◌/◌, ◌^◌, ◌<◌, ◌≡◌, ◌≢◌, refl, ap, ◌∙◌, true, false, ◌∷◌, Option, none,
  some, arith, ◌==◌, if◌then◌else◌, Bool-cases, inl, inr, u32,
}
use sugarcat.Common.Int.{ℤ, pos, ltℤ}
use sugarcat.Common.Word.Mask.{bit_or-zero, bit_or_disjoint}
use sugarcat.Common.Word.Fields.{low_two}
use sugarcat.Errno.{Errno, esucc}
use sugarcat.Memory.{store32}
use sugarcat.Armv7.{Machine, invalidate_unified_tlb, mmu_is_enabled, get_pg_div}
use sugarcat.Armv7.Directory.{get_kern_pgd, get_user_pgd}
use sugarcat.Armv7.Entry.{AccPerm, PgtbEntry, pgtb_invalid, is_supported_pgtb_type, acc_code}
use sugarcat.Armv7.Table.{
  slot, pgtb_index, pgtb_word, decode_page, page_to_phy, active_pgd, virt_to_phy,
}
use sugarcat.Armv7.Table.Words.{acc_code-lt}
use sugarcat.Armv7.Table.Translation.{
  TableReady, table_of, map_pgtb_lem, virt_to_phy-write, pg_div-lt,
}
use sugarcat.ArchMmu.{pg_tab_inval, create_entry, to_pgtb_entry, arch_mmu_invalidate}
use sugarcat.Mmu.{
  create_pgtb_entry, acc_of_addr, invalidate_page, invalidate_loop, finish, invalidate_region,
}

finish_fails :
    (o : Option (Errno × Machine)) (t : Machine)
    → ((r : Errno × Machine) → o ≡ some r → r.0 ≢ esucc)
    → finish o ≢ some (esucc, t)
unfolding finish
finish_fails none t h e = cc
finish_fails (some (ret, s)) t h e = h (ret, s) refl (ground arith)

module _ (uninit : AccPerm) where
  -- The loop goes on as long as it has succeeded, for any count above its counter.
  loop_fails :
      (fuel v : ℕ) (n i : ℤ) (ret : Errno) (s : Machine) (r : Errno × Machine)
      → ltℤ i n ≡ true
      → invalidate_loop uninit fuel n i ret v s ≡ some r
      → r.0 ≢ esucc
  unfolding invalidate_loop
  loop_fails zero v n i ret s r more e = cc
  loop_fails (suc fuel) v n i esucc s r more e =
      let step = create_pgtb_entry uninit v 0 (acc_of_addr uninit v s) pg_tab_inval false s in
      loop_fails fuel (u32 (v + 4096)) n i step.0 step.1 r more (rw (more, invalidate_loop) at e)
  loop_fails (suc fuel) v n i _ s r more e = ground arith

  -- `mmu_invalidate_region` never reports success, whatever the page count and the fuel.
  pub invalidate_region-ne-esucc :
      (fuel v : ℕ) (n : ℤ) (s t : Machine) → invalidate_region uninit fuel v n s ≢ some (esucc, t)
  unfolding invalidate_region
  invalidate_region-ne-esucc fuel v n s t = elim (Bool-cases (ltℤ (pos 0) n)) [
    | inl more ↦ λ e.
        finish_fails (invalidate_loop uninit fuel n (pos 0) esucc v s) t
          (λ r returned. loop_fails fuel v n (pos 0) esucc s r more returned)
          (rw (more, invalidate_region) at e)
    | inr less ↦ λ e. ground arith
  ]

-- The word of an invalidated page has no type, and its walk ends in 0.
invalid_word :
    (e : PgtbEntry)
    → e.type ≡ pgtb_invalid
    → e.phy_addr ≡ 0
    → e.flags ≡ 0
    → pgtb_word e ≡ acc_code e.acc_perm * 16
unfolding pgtb_word
invalid_word e kind phy flags = ground (
  arith,
  acc_code-lt e.acc_perm,
  bit_or_disjoint 4 0 (acc_code e.acc_perm * 16),
  bit_or_disjoint 6 0 (acc_code e.acc_perm * 16),
  bit_or-zero (acc_code e.acc_perm * 16),
)

decode_invalid : (a v : ℕ) → decode_page (a * 16) v ≡ 0
unfolding decode_page
decode_invalid a v = ground (arith, low_two (a * 16))

virt_to_phy-invalidate :
    (u : ℕ) (s : Machine) → virt_to_phy u (arch_mmu_invalidate s) ≡ virt_to_phy u s
unfolding virt_to_phy arch_mmu_invalidate active_pgd page_to_phy mmu_is_enabled get_pg_div
    get_kern_pgd get_user_pgd
virt_to_phy-invalidate u s = refl

module _ (uninit : AccPerm) where
  -- The entry that an invalidation asks for.
  abbrev pub blank : ℕ → Machine → PgtbEntry
  blank v s = to_pgtb_entry (record {
    phy_addr = 0;
    virt_addr = v;
    type = pg_tab_inval;
    acc_flags = acc_of_addr uninit v s;
  })

  blank_lem :
      (v : ℕ) (s : Machine)
      → ((blank v s).type ≡ pgtb_invalid)
        × ((blank v s).phy_addr ≡ 0)
        × ((blank v s).flags ≡ 0)
        × ((blank v s).virt_addr ≡ v)
        × (is_supported_pgtb_type (blank v s).type ≡ true)
  unfolding to_pgtb_entry is_supported_pgtb_type
  blank_lem v s = (refl, refl, refl, refl, refl)

  pub blank_word :
      (v : ℕ) (s : Machine) → pgtb_word (blank v s) ≡ acc_code (blank v s).acc_perm * 16
  blank_word v s =
      let (kind, phy, flags, _, _) = blank_lem v s in invalid_word (blank v s) kind phy flags

  blank_small : (v : ℕ) (s : Machine) → pgtb_word (blank v s) < 2 ^ 32
  blank_small v s = omega (arith, blank_word v s, acc_code-lt (blank v s).acc_perm)

  blank_decodes : (v u : ℕ) (s : Machine) → decode_page (pgtb_word (blank v s)) u ≡ 0
  blank_decodes v u s =
      ap (λ (t : ℕ). decode_page t u) (blank_word v s)
      ∙ decode_invalid (acc_code (blank v s).acc_perm) u

  pub invalidate_page_step :
      (v : ℕ) (s : Machine)
      → TableReady v s
      → invalidate_page uninit v s ≡ (
        esucc,
        arch_mmu_invalidate (record s {
          mem = store32 s.mem (slot (table_of v s) (pgtb_index v)) (pgtb_word (blank v s));
        }),
      )
  unfolding invalidate_page create_pgtb_entry create_entry to_pgtb_entry
  invalidate_page_step v s ready =
      rw (map_pgtb_lem (blank v s) s (blank_lem v s).4 ready.on ready.is_table)

  -- While the MMU is on, invalidating a page whose megabyte has a page table that the directory's
  -- own word does not lie in succeeds, and from then on every address of the page translates to 0,
  -- while the other addresses of the megabyte translate as before; the TLB is invalidated once.
  pub virt_to_phy-invalidate_page :
      (v u : ℕ) (s : Machine)
      → TableReady v s
      → v / 2 ^ 20 ≡ u / 2 ^ 20
      → let (err, s') = invalidate_page uninit v s in
        (err ≡ esucc)
        × (virt_to_phy u s' ≡ (if u / 2 ^ 12 == v / 2 ^ 12 then 0 else virt_to_phy u s))
        × (s'.events ≡ invalidate_unified_tlb ∷ s.events)
  virt_to_phy-invalidate_page v u s ready mb = rw (invalidate_page_step v s ready) (
    refl,
    virt_to_phy-invalidate u _
        ∙ virt_to_phy-write v u (pgtb_word (blank v s)) s ready.on (pg_div-lt s) ready.is_table
            ready.apart (blank_small v s) mb
        ∙ ap (λ (t : ℕ). if u / 2 ^ 12 == v / 2 ^ 12 then t else virt_to_phy u s)
            (blank_decodes v u s),
    unfold arch_mmu_invalidate in refl,
  )
