-- ===== src/Armv7/Table/Outcomes.antt =====
-- Every outcome of `map_pgtb`.
use sugarcat.Common.{
  ℕ, ◌%◌, ◌≡◌, refl, Option, none, some, true, false, ◌≢◌, Bool-cases, inl, inr, arith, ◌==◌, ◌>>>◌,
}
use sugarcat.Common.Word.Fields.{low_two}
use sugarcat.Errno.{Errno, esucc, einval, enotfnd, enotsupp, enotenb}
use sugarcat.Memory.{load32, store32}
use sugarcat.Memory.Laws.{load32-lt}
use sugarcat.Armv7.{Machine, mmu_is_enabled}
use sugarcat.Armv7.Entry.{PgtbEntry, is_supported_pgtb_type, pgd_code}
use sugarcat.Armv7.Table.{
  slot, pgtb_index, pgtb_word, active_pgd, create_pgtb_entry, map_pgtb, into_table, get_pgd_entry,
  read_section, unset,
}
use sugarcat.Armv7.Table.Translation.{dir_word, table_of, get_pgd_entry_table, into_table_lem}

-- The machine after one word has been written.
abbrev pub written : ℕ → ℕ → Machine → Machine
written addr w s = record s { mem = store32 s.mem addr w }

-- A request for a page is checked for a null entry, the MMU, a type, and a page table.
unfoldable pub pgtb_outcome : Option PgtbEntry → Machine → Errno × Machine
unfolding is_supported_pgtb_type
pgtb_outcome none s = (einval, s)
pgtb_outcome (some e) s = elim (mmu_is_enabled s) [
  | false ↦ (enotenb, s)
  | true ↦ elim (is_supported_pgtb_type e.type) [
    | false ↦ (enotsupp, s)
    | true ↦ elim (dir_word e.virt_addr s % 4 == 1) [
      | false ↦ (enotfnd, s)
      | true ↦
          (esucc, written (slot (table_of e.virt_addr s) (pgtb_index e.virt_addr)) (pgtb_word e) s)
    ]
  ]
]

no_table :
    (w pgd v : ℕ) (e : PgtbEntry) (s : Machine)
    → load32 s.mem (slot pgd (v >>> 20)) ≡ w
    → w % 4 ≢ 1
    → into_table (get_pgd_entry pgd v (some unset) s) e s ≡ (enotfnd, s)
unfolding into_table get_pgd_entry read_section pgd_code
no_table w pgd v e s here other = elim (Bool-cases (w % 4 == 2)) [
  | inl section ↦ let two : w % 4 ≡ 2 = ground arith in rw (here, low_two w, two)
  | inr neither ↦ elim (Bool-cases (w % 4 == 0)) [
    | inl invalid ↦ let none_yet : w % 4 ≡ 0 = ground arith in rw (here, low_two w, none_yet)
    | inr last ↦ let three : w % 4 ≡ 3 = ground arith in rw (here, low_two w, three)
  ]
]

-- What the walk to the page table comes to.
into_table_outcome :
    (e : PgtbEntry) (s : Machine)
    → into_table (get_pgd_entry (active_pgd e.virt_addr s) e.virt_addr (some unset) s) e s
      ≡ elim (dir_word e.virt_addr s % 4 == 1) [
        | false ↦ (enotfnd, s)
        | true ↦ (
          esucc,
          written (slot (table_of e.virt_addr s) (pgtb_index e.virt_addr)) (pgtb_word e) s,
        )
      ]
unfolding create_pgtb_entry
into_table_outcome e s = elim (Bool-cases (dir_word e.virt_addr s % 4 == 1)) [
  | inl table ↦ rw (
    table,
    get_pgd_entry_table (active_pgd e.virt_addr s) e.virt_addr unset s (ground arith),
    into_table_lem (dir_word e.virt_addr s) e.virt_addr e s (ground arith) (load32-lt s.mem _),
  )
  | inr other ↦ rw other (no_table _ _ _ e s refl (ground arith))
]

-- `map_pgtb` answers EINVAL, ENOTENB, ENOTSUPP, or ENOTFND where the directory has no page table
-- for the address, and leaves the machine as it was, or it answers ESUCC and writes the entry's
-- one word into that page table.
pub map_pgtb-eq-outcome : (o : Option PgtbEntry) (s : Machine) → map_pgtb o s ≡ pgtb_outcome o s
unfolding map_pgtb pgtb_outcome
map_pgtb-eq-outcome none s = refl
map_pgtb-eq-outcome (some e) s = ground (arith, into_table_outcome e s)
