-- ===== src/Init/Tables/Linked.antt =====
-- The tables that `init_setup_kern_pgtb` links into the kernel's directory.
use sugarcat.Common.{
  ◌⊎◌, inl, inr, ℕ, zero, suc, ◌+◌, ◌-◌, ◌*◌, ◌/◌, ◌^◌, ◌%◌, ◌<◌, ◌≤◌, ◌≡◌, refl, some, true,
  bit_or, ltb, leb, ◌&&◌, if◌then◌else◌, arith, ◌<<<◌, ◌>>>◌, ap, ◌∙◌,
}
use sugarcat.Common.Word.Mask.{bit_or_disjoint, bit_or_below}
use sugarcat.Errno.{esucc}
use sugarcat.Memory.{Memory, load8, load32, store32}
use sugarcat.Memory.Laws.{load32-store32, load32-store32_apart, load8-store32_apart}
use sugarcat.Region.{MmReg}
use sugarcat.Armv7.{Machine, mmu_is_enabled, get_pg_div}
use sugarcat.Armv7.Entry.{is_supported_pgd_type}
use sugarcat.Armv7.Directory.{is_higher_half, get_kern_pgd}
use sugarcat.Armv7.Table.{slot, active_pgd, pgd_word, map_pgd, create_pgd_entry}
use sugarcat.Armv7.Table.Words.{table_word}
use sugarcat.ArchMmu.{get_kern_vaddr, new_table}
use sugarcat.Init.Tables.{
  InitMmuEntry, pgd_entry, setup_loop, pgtb_cnt, first_virt_addr, setup_kern_pgtb,
}

-- The machine after an entry of the upper half has been written.
abbrev linked : ℕ → InitMmuEntry → ℕ → Machine → Machine
linked base ent i s = record s {
  mem = store32 s.mem (slot (get_kern_pgd s) (2048 + i)) (pgd_word (pgd_entry base (2 ^ 31) ent i));
}

map_pgd-step :
    (base i : ℕ) (ent : InitMmuEntry) (s : Machine)
    → mmu_is_enabled s ≡ true
    → get_pg_div s ≡ 1
    → i < 2048
    → map_pgd (some (pgd_entry base (2 ^ 31) ent i)) s ≡ (esucc, linked base ent i s)
unfolding map_pgd create_pgd_entry active_pgd is_higher_half is_supported_pgd_type
map_pgd-step base i ent s on two small = ground (arith, bit_or_disjoint 31 1 (i * 2 ^ 20))

linked-registers :
    (base i : ℕ) (ent : InitMmuEntry) (s : Machine)
    → (mmu_is_enabled (linked base ent i s) ≡ mmu_is_enabled s)
      × (get_pg_div (linked base ent i s) ≡ get_pg_div s)
      × (get_kern_pgd (linked base ent i s) ≡ get_kern_pgd s)
unfolding mmu_is_enabled get_pg_div get_kern_pgd
linked-registers base i ent s = (refl, refl, refl)

word-lt :
    (base i : ℕ) (ent : InitMmuEntry)
    → base < 2 ^ 32
    → ent.domain < 16
    → ent.flags < 32
    → ent.flags % 4 ≡ 0
    → pgd_word (pgd_entry base (2 ^ 31) ent i)
      ≡ bit_or base (i <<< 10) / 2 ^ 10 * 2 ^ 10 + ent.domain * 32 + ent.flags + 1
word-lt base i ent word dom fits clear =
    table_word (pgd_entry base (2 ^ 31) ent i) refl
      (bit_or_below 32 0 base (i <<< 10) word (omega arith)).1 dom fits clear

-- Memory after the entries from index `i` on.
unfoldable linked_mem : ℕ → ℕ → ℕ → ℕ → InitMmuEntry → Memory → Memory
linked_mem zero i pgd base ent m = m
linked_mem (suc left) i pgd base ent m =
    linked_mem left (i + 1) pgd base ent
      (store32 m (slot pgd (2048 + i)) (pgd_word (pgd_entry base (2 ^ 31) ent i)))

setup_loop-linked :
    (left i base pgd : ℕ) (ent : InitMmuEntry) (s : Machine)
    → mmu_is_enabled s ≡ true
    → get_pg_div s ≡ 1
    → get_kern_pgd s ≡ pgd
    → i + left ≤ 2048
    → setup_loop left i base (2 ^ 31) ent s
      ≡ (esucc, record s { mem = linked_mem left i pgd base ent s.mem })
unfolding setup_loop linked_mem
setup_loop-linked zero i base pgd ent s on two at fits = refl
setup_loop-linked (suc left) i base pgd ent s on two at fits =
    let (on', two', same) = linked-registers base i ent s in
    rw (map_pgd-step base i ent s on two (omega arith)) (
      setup_loop-linked left (i + 1) base pgd ent (linked base ent i s) (on' ∙ on) (two' ∙ two)
        (same ∙ at) (omega arith)
      ∙ ap
          (λ t. (
            esucc,
            record s {
              mem =
                  linked_mem left (i + 1) pgd base ent
                    (store32 s.mem (slot t (2048 + i)) (pgd_word (pgd_entry base (2 ^ 31) ent i)));
            },
          ))
          at)

linked_mem_at :
    (left i base pgd j : ℕ) (ent : InitMmuEntry) (m : Memory)
    → ((k : ℕ) → pgd_word (pgd_entry base (2 ^ 31) ent k) < 2 ^ 32)
    → load32 (linked_mem left i pgd base ent m) (slot pgd j) ≡ (
        if leb (2048 + i) j && ltb j (2048 + i + left)
        then pgd_word (pgd_entry base (2 ^ 31) ent (j - 2048))
        else load32 m (slot pgd j))
unfolding linked_mem
linked_mem_at zero i base pgd j ent m words = ground arith
linked_mem_at (suc left) i base pgd j ent m words =
    let w = pgd_word (pgd_entry base (2 ^ 31) ent i) in
    ground (
      arith,
      words i,
      linked_mem_at left (i + 1) base pgd j ent (store32 m (slot pgd (2048 + i)) w) words,
      load32-store32 m (slot pgd (2048 + i)) w,
      load32-store32_apart m (slot pgd (2048 + i)) (slot pgd j) w,
    )

-- With memory split in two halves and the MMU on, `init_setup_kern_pgtb` succeeds for a domain
-- below 16 and flags among bits 2 to 4, and then the kernel directory's word for every address of
-- the upper half is a page table entry of that domain and those flags for the very table that
-- `new_table` names for the address in that region, but for the table's ten low bits; the
-- directory's words for the lower half stay as they were.
pub setup_kern_pgtb-new_table :
    (kern_pgd kern_pgtb : MmReg) (ent : InitMmuEntry) (s : Machine) (v : ℕ)
    → mmu_is_enabled s ≡ true
    → get_pg_div s ≡ 1
    → kern_pgtb.base < 2 ^ 32
    → ent.domain < 16
    → ent.flags < 32
    → ent.flags % 4 ≡ 0
    → v < 2 ^ 32
    → let (err, s') = setup_kern_pgtb (some kern_pgd) (some kern_pgtb) ent s in
      (err ≡ esucc)
      × (load32 s'.mem (slot (get_kern_pgd s) (v >>> 20)) ≡ (
          if leb (2 ^ 31) v
          then new_table kern_pgtb.base v s / 2 ^ 10 * 2 ^ 10 + ent.domain * 32 + ent.flags + 1
          else load32 s.mem (slot (get_kern_pgd s) (v >>> 20))))
unfolding setup_kern_pgtb pgtb_cnt first_virt_addr new_table get_kern_vaddr
setup_kern_pgtb-new_table kern_pgd kern_pgtb ent s v on two word dom fits clear high =
    let base = kern_pgtb.base in
    let sum = word-lt base (v / 2 ^ 20 - 2048) ent word dom fits clear in
    rw (two, setup_loop-linked 2048 0 base (get_kern_pgd s) ent s on two refl (omega arith))
      (
        refl,
        ground
            (arith, sum, linked_mem_at 2048 0 base (get_kern_pgd s) (v / 2 ^ 20) ent s.mem words),
      )
  where
    words : (k : ℕ) → pgd_word (pgd_entry kern_pgtb.base (2 ^ 31) ent k) < 2 ^ 32
    words k = omega (
      arith,
      word-lt kern_pgtb.base k ent word dom fits clear,
      (bit_or_below 32 0 kern_pgtb.base (k <<< 10) word (omega arith)).1,
    )

linked_mem-outside :
    (left i pgd base a : ℕ) (ent : InitMmuEntry) (m : Memory)
    → (slot pgd (2048 + i + left) ≤ a) ⊎ (a < slot pgd (2048 + i))
    → load8 (linked_mem left i pgd base ent m) a ≡ load8 m a
unfolding linked_mem
linked_mem-outside zero i pgd base a ent m out = refl
linked_mem-outside (suc left) i pgd base a ent m out =
    let w = pgd_word (pgd_entry base (2 ^ 31) ent i) in
    linked_mem-outside left (i + 1) pgd base a ent (store32 m (slot pgd (2048 + i)) w)
      (elim out [ inl above ↦ inl (omega arith) | inr below ↦ inr (omega arith) ])
    ∙ load8-store32_apart m (slot pgd (2048 + i)) a w
        (elim out [ inl above ↦ inl (omega arith) | inr below ↦ inr (omega arith) ])

-- `init_setup_kern_pgtb` changes nothing but memory, and there only the upper half of the
-- directory.
pub setup_kern_pgtb-registers :
    (kern_pgd kern_pgtb : MmReg) (ent : InitMmuEntry) (s : Machine)
    → mmu_is_enabled s ≡ true
    → get_pg_div s ≡ 1
    → (m : Memory) × (setup_kern_pgtb (some kern_pgd) (some kern_pgtb) ent s
        ≡ (esucc, record s { mem = m }))
      × ((a : ℕ)
          → (slot (get_kern_pgd s) 4096 ≤ a) ⊎ (a < slot (get_kern_pgd s) 2048)
          → load8 m a ≡ load8 s.mem a)
unfolding setup_kern_pgtb pgtb_cnt first_virt_addr
setup_kern_pgtb-registers kern_pgd kern_pgtb ent s on two = (
  linked_mem 2048 0 (get_kern_pgd s) kern_pgtb.base ent s.mem,
  rw two (setup_loop-linked 2048 0 kern_pgtb.base (get_kern_pgd s) ent s on two refl (omega arith)),
  λ a out. linked_mem-outside 2048 0 (get_kern_pgd s) kern_pgtb.base a ent s.mem out,
)
