-- ===== src/Mmu/Pages.antt =====
-- The pages of a megabyte as a map from page numbers to frames, and the calls that change it:
-- `arch_mmu_create_entry` for a page, and `mmu_invalidate_page`.
use Prim.{Unit}
use sugarcat.Common.{
  ℕ, ◌+◌, ◌*◌, ◌/◌, ◌%◌, ◌^◌, ◌<◌, ◌≡◌, refl, ap, sym, ◌∙◌, subst, true, List, [], ◌∷◌, Option,
  none, some, arith, ◌==◌, if◌then◌else◌, Bool-cases, inl, inr, ◌>>>◌,
}
use sugarcat.Errno.{Errno, esucc}
use sugarcat.Memory.{load32, store32}
use sugarcat.Memory.Laws.{load32-store32_apart}
use sugarcat.Armv7.{Machine, mmu_is_enabled, get_pg_div}
use sugarcat.Armv7.Directory.{get_kern_pgd, get_user_pgd}
use sugarcat.Armv7.Entry.{AccPerm, PgtbEntry, pgtb_small_pg, is_supported_pgtb_type}
use sugarcat.Armv7.Table.{slot, pgtb_index, pgtb_word, active_pgd, virt_to_phy, map_pgtb}
use sugarcat.Armv7.Table.Translation.{
  TableReady, Apart, table_of, active_pgd_mem, active_pgd_same, enabled_mem, map_pgtb_lem,
  pg_div-lt, virt_to_phy-map_pgtb, index_value,
}
use sugarcat.ArchMmu.{AccFlags, MmuEntry, pg_tab, create_entry, to_pgtb_entry, arch_mmu_invalidate}
use sugarcat.Mmu.{is_success, invalidate_page}
use sugarcat.Mmu.Invalidate.{virt_to_phy-invalidate_page, invalidate_page_step, blank}

-- The directory's slot is the same for every address of a megabyte.
slot_same :
    (u v : ℕ) (s : Machine)
    → u / 2 ^ 20 ≡ v / 2 ^ 20
    → slot (active_pgd u s) (u >>> 20) ≡ slot (active_pgd v s) (v >>> 20)
slot_same u v s e = omega (arith, active_pgd_same u v s (pg_div-lt s) e)

pub TableReady-same :
    (u v : ℕ) (s : Machine) → u / 2 ^ 20 ≡ v / 2 ^ 20 → TableReady u s → TableReady v s
TableReady-same u v s e ready = record {
  on = ready.on;
  is_table = subst (λ x. load32 s.mem x % 4 ≡ 1) (slot_same u v s e) ready.is_table;
  apart = subst (λ x. Apart (load32 s.mem x / 2 ^ 10 * 2 ^ 10) x) (slot_same u v s e) ready.apart;
}

-- A write into the page table leaves the directory's word for it.
TableReady-write :
    (u w : ℕ) (s : Machine)
    → TableReady u s
    → TableReady u (record s { mem = store32 s.mem (slot (table_of u s) (pgtb_index u)) w })
TableReady-write u w s ready =
    let m = store32 s.mem (slot (table_of u s) (pgtb_index u)) w in
    let at = slot (active_pgd u s) (u >>> 20) in
    let kept : load32 m at ≡ load32 s.mem at =
      load32-store32_apart s.mem (slot (table_of u s) (pgtb_index u)) at w
        (omega (arith, index_value u, ready.apart)) in
    let back = sym (active_pgd_mem u s m) in
    record {
      on = enabled_mem s m ∙ ready.on;
      is_table =
          subst (λ a. load32 m (slot a (u >>> 20)) % 4 ≡ 1) back
            (ap (λ (x : ℕ). x % 4) kept ∙ ready.is_table);
      apart =
          subst (λ a. Apart (load32 m (slot a (u >>> 20)) / 2 ^ 10 * 2 ^ 10) (slot a (u >>> 20)))
            back (subst (λ x. Apart (x / 2 ^ 10 * 2 ^ 10) at) (sym kept) ready.apart);
    }

TableReady-invalidate :
    (u : ℕ) (s : Machine) → TableReady u s → TableReady u (arch_mmu_invalidate s)
unfolding arch_mmu_invalidate active_pgd mmu_is_enabled get_pg_div get_kern_pgd get_user_pgd
TableReady-invalidate u s ready = record {
  on = ready.on;
  is_table = ready.is_table;
  apart = ready.apart;
}

-- What a frame makes of an address; without one the walk ends in 0.
abbrev pub in_frame : Option ℕ → ℕ → ℕ
in_frame none v = 0
in_frame (some frame) v = frame * 2 ^ 12 + v % 2 ^ 12

abbrev pub Pages : Type 0
Pages = ℕ → Option ℕ

-- The machine has the megabyte of `base` mapped as `pages` says.
pub record Implements (base : ℕ) (pages : Pages) (s : Machine) : Type 0 where
  pub ready : TableReady base s
  pub same :
      (v : ℕ) → v / 2 ^ 20 ≡ base / 2 ^ 20 → virt_to_phy v s ≡ in_frame (pages (v / 2 ^ 12)) v

pub data Call : Type 0 where
  map_page : (virt_addr phy_addr : ℕ) → AccFlags → Call
  unmap_page : (virt_addr : ℕ) → Call

-- A call is about the megabyte of `base`, and a physical address is a word.
abbrev pub Legal : ℕ → Call → Type 0
Legal base (map_page v phy acc) = (v / 2 ^ 20 ≡ base / 2 ^ 20) × (phy < 2 ^ 32)
Legal base (unmap_page v) = v / 2 ^ 20 ≡ base / 2 ^ 20

abbrev pub set_page : ℕ → Option ℕ → Pages → Pages
set_page page frame pages = λ p. if p == page then frame else pages p

unfoldable pub change : Call → Pages → Pages
change (map_page v phy acc) pages = set_page (v / 2 ^ 12) (some (phy / 2 ^ 12)) pages
change (unmap_page v) pages = set_page (v / 2 ^ 12) none pages

unfoldable pub change_all : List Call → Pages → Pages
change_all [] pages = pages
change_all (c ∷ cs) pages = change_all cs (change c pages)

abbrev pub AllLegal : ℕ → List Call → Type 0
AllLegal base [] = Unit
AllLegal base (c ∷ cs) = Legal base c × AllLegal base cs

supports_small : (e : PgtbEntry) → e.type ≡ pgtb_small_pg → is_supported_pgtb_type e.type ≡ true
unfolding is_supported_pgtb_type
supports_small e h = rw h refl

set_page-in_frame :
    (v p o : ℕ) (frame : Option ℕ) (pages : Pages)
    → o ≡ in_frame (pages (v / 2 ^ 12)) v
    → (if v / 2 ^ 12 == p then in_frame frame v else o)
      ≡ in_frame (set_page p frame pages (v / 2 ^ 12)) v
set_page-in_frame v p o frame pages old = elim (Bool-cases (v / 2 ^ 12 == p)) [
  | inl here ↦ rw here refl
  | inr other ↦ rw other old
]

module _ (uninit : AccPerm) where
  abbrev pub entry : (virt_addr phy_addr : ℕ) → AccFlags → MmuEntry
  entry v phy acc = record { phy_addr = phy; virt_addr = v; type = pg_tab; acc_flags = acc }

  unfoldable pub exec : Call → Machine → Errno × Machine
  exec (map_page v phy acc) s = create_entry uninit (entry v phy acc) s
  exec (unmap_page v) s = invalidate_page uninit v s

  -- Calls in turn, up to the first that fails.
  unfoldable pub exec_all : List Call → Machine → Errno × Machine
  exec_all [] s = (esucc, s)
  exec_all (c ∷ cs) s =
      let (err, s') = exec c s in
      let rest = exec_all cs s' in if is_success err then rest else (err, s')

  create_entry-map_pgtb :
      (v phy : ℕ) (acc : AccFlags) (s : Machine)
      → create_entry uninit (entry v phy acc) s
        ≡ map_pgtb (some (to_pgtb_entry (entry v phy acc))) s
  unfolding create_entry
  create_entry-map_pgtb v phy acc s = refl

  map_page_step :
      (v phy base : ℕ) (acc : AccFlags) (pages : Pages) (s : Machine)
      → Implements base pages s
      → v / 2 ^ 20 ≡ base / 2 ^ 20
      → phy < 2 ^ 32
      → ((exec (map_page v phy acc) s).0 ≡ esucc)
        × Implements base (change (map_page v phy acc) pages) (exec (map_page v phy acc) s).1
  unfolding exec change to_pgtb_entry create_entry
  map_page_step v phy base acc pages s i mb word =
      let e = to_pgtb_entry (entry v phy acc) in
      let ready : TableReady v s = TableReady-same base v s (sym mb) i.ready in
      let step = map_pgtb_lem e s (supports_small e refl) ready.on ready.is_table in
      (
        ap (λ r. r.0) step,
        record {
          ready =
              subst (λ r. TableReady base r.1) (sym step)
                (TableReady-same v base _ mb (TableReady-write v (pgtb_word e) s ready));
          same = λ u at.
              (virt_to_phy-map_pgtb e s u ready refl word (omega arith) refl (mb ∙ sym at)).1
              ∙ set_page-in_frame u (v / 2 ^ 12) (virt_to_phy u s) (some (phy / 2 ^ 12)) pages
                  (i.same u at);
        },
      )

  unmap_page_step :
      (v base : ℕ) (pages : Pages) (s : Machine)
      → Implements base pages s
      → v / 2 ^ 20 ≡ base / 2 ^ 20
      → ((exec (unmap_page v) s).0 ≡ esucc)
        × Implements base (change (unmap_page v) pages) (exec (unmap_page v) s).1
  unfolding exec change
  unmap_page_step v base pages s i mb =
      let ready : TableReady v s = TableReady-same base v s (sym mb) i.ready in
      let step = invalidate_page_step uninit v s ready in
      (
        ap (λ r. r.0) step,
        record {
          ready =
              subst (λ r. TableReady base r.1) (sym step)
                (TableReady-invalidate base _ (
                  TableReady-same v base _ mb
                    (TableReady-write v (pgtb_word (blank uninit v s)) s ready)));
          same = λ u at.
              (virt_to_phy-invalidate_page uninit v u s ready (mb ∙ sym at)).1
              ∙ set_page-in_frame u (v / 2 ^ 12) (virt_to_phy u s) none pages (i.same u at);
        },
      )

  exec-Implements :
      (base : ℕ) (c : Call) (pages : Pages) (s : Machine)
      → Legal base c
      → Implements base pages s
      → ((exec c s).0 ≡ esucc) × Implements base (change c pages) (exec c s).1
  exec-Implements base (map_page v phy acc) pages s (mb, word) i =
      map_page_step v phy base acc pages s i mb word
  exec-Implements base (unmap_page v) pages s mb i = unmap_page_step v base pages s i mb

  -- While the MMU is on, in a megabyte that the directory has a page table for, which the
  -- directory's own word for it does not lie in: whatever pages of it the calls map and unmap, each
  -- call succeeds, the page table stays in place, and every address of the megabyte translates as
  -- the same calls on the map from pages to frames say.
  pub exec_all-Implements :
      (base : ℕ) (cs : List Call) (pages : Pages) (s : Machine)
      → AllLegal base cs
      → Implements base pages s
      → ((exec_all cs s).0 ≡ esucc) × Implements base (change_all cs pages) (exec_all cs s).1
  unfolding exec_all change_all
  exec_all-Implements base [] pages s legal i = (refl, i)
  exec_all-Implements base (c ∷ cs) pages s (now, later) i =
      let (ok, i') = exec-Implements base c pages s now i in
      rw ok (exec_all-Implements base cs (change c pages) (exec c s).1 later i')
