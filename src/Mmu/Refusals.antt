-- ===== src/Mmu/Refusals.antt =====
-- What ends the loop of `mmu_invalidate_region`.
use sugarcat.Common.{
  ℕ, zero, suc, ◌+◌, ◌*◌, ◌%◌, ◌^◌, ◌<◌, ◌≡◌, ◌≢◌, refl, ap, ◌∙◌, true, false, some, arith, leb,
  if◌then◌else◌, Bool-cases, inl, inr, ==_ne, ◌&&◌,
}
use sugarcat.Common.Int.{ℤ, pos, ltℤ}
use sugarcat.Errno.{Errno, esucc, enotfnd, enotenb}
use sugarcat.Armv7.{Machine, mmu_is_enabled}
use sugarcat.Armv7.Entry.{AccPerm, krw_nou, krw_urw, is_supported_pgtb_type, acc_code}
use sugarcat.Armv7.Table.{slot, pgtb_index, map_pgtb}
use sugarcat.Armv7.Table.Translation.{dir_word, table_of}
use sugarcat.Armv7.Table.Outcomes.{written, pgtb_outcome, map_pgtb-eq-outcome}
use sugarcat.ArchMmu.{pg_tab_inval, create_entry, get_kern_vaddr, to_pgtb_entry, acc_to_armv7}
use sugarcat.Mmu.{
  create_pgtb_entry, acc_of_addr, invalidate_loop, finish, invalidate_region, is_success,
}
use sugarcat.Mmu.Invalidate.{blank, blank_word}

-- The machine after the page of `v` is cleared: the entry's word in the page table keeps only the
-- permissions of the half that the address is in.
abbrev pub cleared_page : ℕ → Machine → Machine
cleared_page v s =
    written (slot (table_of v s) (pgtb_index v))
      (acc_code (if leb (get_kern_vaddr s) v then krw_nou else krw_urw) * 16) s

-- From the page of `v` on, `k` pages have page tables, and are cleared; the next one is refused
-- with the error, for want of the MMU or of a page table, and the machine is then the last one.
pub data Refused : ℕ → Machine → ℕ → Errno → Machine → Type 0 where
  switched_off : (v : ℕ) (s : Machine) → mmu_is_enabled s ≡ false → Refused v s 0 enotenb s
  no_table :
      (v : ℕ) (s : Machine)
      → mmu_is_enabled s ≡ true
      → dir_word v s % 4 ≢ 1
      → Refused v s 0 enotfnd s
  next_page :
      (v k : ℕ) (s t : Machine) (err : Errno)
      → mmu_is_enabled s ≡ true
      → dir_word v s % 4 ≡ 1
      → Refused ((v + 4096) % 2 ^ 32) (cleared_page v s) k err t
      → Refused v s (suc k) err t

module _ (uninit : AccPerm) where
  blank_perm :
      (v : ℕ) (s : Machine)
      → (blank uninit v s).acc_perm ≡ (if leb (get_kern_vaddr s) v then krw_nou else krw_urw)
  unfolding to_pgtb_entry acc_of_addr acc_to_armv7
  blank_perm v s = elim (Bool-cases (leb (get_kern_vaddr s) v)) [
    | inl high ↦ rw high refl
    | inr low ↦ rw low refl
  ]

  step : ℕ → Machine → Errno × Machine
  step v s = create_pgtb_entry uninit v 0 (acc_of_addr uninit v s) pg_tab_inval false s

  quiet :
      (r : Errno × Machine) (t : Machine) → (r.0, if is_success r.0 && false then t else r.1) ≡ r
  quiet (esucc, s) t = refl
  quiet (_, s) t = refl

  step_outcome : (v : ℕ) (s : Machine) → step v s ≡ pgtb_outcome (some (blank uninit v s)) s
  unfolding step create_pgtb_entry create_entry
  step_outcome v s =
      quiet (map_pgtb (some (blank uninit v s)) s) _
      ∙ map_pgtb-eq-outcome (some (blank uninit v s)) s

  blank_supported :
      (v : ℕ) (s : Machine)
      → (is_supported_pgtb_type (blank uninit v s).type ≡ true) × ((blank uninit v s).virt_addr ≡ v)
  unfolding to_pgtb_entry is_supported_pgtb_type
  blank_supported v s = (refl, refl)

  step_off : (v : ℕ) (s : Machine) → mmu_is_enabled s ≡ false → step v s ≡ (enotenb, s)
  unfolding pgtb_outcome
  step_off v s off = step_outcome v s ∙ rw (off, pgtb_outcome) refl

  step_no_table :
      (v : ℕ) (s : Machine)
      → mmu_is_enabled s ≡ true
      → dir_word v s % 4 ≢ 1
      → step v s ≡ (enotfnd, s)
  unfolding pgtb_outcome to_pgtb_entry
  step_no_table v s on other =
      step_outcome v s
      ∙ rw (on, blank_supported v s, ==_ne (dir_word v s % 4) 1 other, pgtb_outcome) refl

  step_page :
      (v : ℕ) (s : Machine)
      → mmu_is_enabled s ≡ true
      → dir_word v s % 4 ≡ 1
      → step v s ≡ (esucc, cleared_page v s)
  unfolding pgtb_outcome to_pgtb_entry
  step_page v s on table =
      step_outcome v s
      ∙ rw (on, table, pgtb_outcome)
          (ap (λ w. (esucc, written (slot (table_of v s) (pgtb_index v)) w s))
            (blank_word uninit v s ∙ ap (λ p. acc_code p * 16) (blank_perm v s)))

  loop_round :
      (fuel v : ℕ) (n : ℤ) (s : Machine) (r : Errno × Machine)
      → ltℤ (pos 0) n ≡ true
      → step v s ≡ r
      → invalidate_loop uninit (suc fuel) n (pos 0) esucc v s
        ≡ invalidate_loop uninit fuel n (pos 0) r.0 ((v + 4096) % 2 ^ 32) r.1
  unfolding invalidate_loop step
  loop_round fuel v n s r more e =
      rw (more, invalidate_loop)
        (ap (λ q. invalidate_loop uninit fuel n (pos 0) q.0 ((v + 4096) % 2 ^ 32) q.1) e)

  loop_end :
      (fuel v : ℕ) (n : ℤ) (s : Machine) (err : Errno)
      → is_success err ≡ false
      → invalidate_loop uninit (suc fuel) n (pos 0) err v s ≡ some (err, s)
  unfolding invalidate_loop
  loop_end fuel v n s err fails = rw (fails, invalidate_loop) refl

  -- The rounds that a refusal takes: the pages before it, its own, and the last test.
  loop-Refused :
      (fuel v k : ℕ) (n : ℤ) (s t : Machine) (err : Errno)
      → ltℤ (pos 0) n ≡ true
      → Refused v s k err t
      → k + 1 < fuel
      → (invalidate_loop uninit fuel n (pos 0) esucc v s ≡ some (err, t)) × (is_success err ≡ false)
  loop-Refused zero v k n s t err more r enough = absurd (omega arith)
  loop-Refused (suc zero) v k n s t err more r enough = absurd (omega arith)
  loop-Refused (suc (suc fuel)) v _ n s _ _ more (switched_off _ _ off) enough = (
    loop_round (suc fuel) v n s (enotenb, s) more (step_off v s off)
        ∙ loop_end fuel ((v + 4096) % 2 ^ 32) n s enotenb refl,
    refl,
  )
  loop-Refused (suc (suc fuel)) v _ n s _ _ more (no_table _ _ on other) enough = (
    loop_round (suc fuel) v n s (enotfnd, s) more (step_no_table v s on other)
        ∙ loop_end fuel ((v + 4096) % 2 ^ 32) n s enotfnd refl,
    refl,
  )
  loop-Refused (suc (suc fuel)) v _ n s t err more (next_page _ k _ _ _ on table rest) enough =
      let (ends, fails) =
        loop-Refused (suc fuel) ((v + 4096) % 2 ^ 32) k n (cleared_page v s) t err more rest
          (omega arith) in
      (
        loop_round (suc fuel) v n s (esucc, cleared_page v s) more (step_page v s on table) ∙ ends,
        fails,
      )

  -- For a positive page count, whatever it is, where some page from the first one on, modulo 2^32,
  -- is refused, ENOTENB if the MMU is off and ENOTFND if the directory has no page table for it,
  -- `mmu_invalidate_region` clears the pages before it, however many, and returns that error,
  -- never ESUCC, with no barrier and no invalidation of the TLB; it takes two rounds more than
  -- there are such pages.
  pub invalidate_region-Refused :
      (fuel v k : ℕ) (n : ℤ) (s t : Machine) (err : Errno)
      → ltℤ (pos 0) n ≡ true
      → Refused v s k err t
      → k + 1 < fuel
      → (invalidate_region uninit fuel v n s ≡ some (err, t)) × (err ≢ esucc)
  unfolding invalidate_region finish
  invalidate_region-Refused fuel v k n s t err more r enough =
      let (ends, fails) = loop-Refused fuel v k n s t err more r enough in
      (rw (more, ends, fails, invalidate_region) refl, λ same. ground (arith, fails))
