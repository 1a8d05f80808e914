-- ===== src/Armv7/Table/ReadBack.antt =====
-- `get_pgd_entry` after `create_pgd_entry`.
use sugarcat.Common.{ℕ, ◌+◌, ◌*◌, ◌/◌, ◌%◌, ◌^◌, ◌<◌, ◌≡◌, ◌⊎◌, refl, some, arith, bit_and}
use sugarcat.Common.Word.Fields.{section_base, table_base, low_two, domain_field, ap_field}
use sugarcat.Common.Word.Mask.{bit_and_low, bit_and_field, bit_and_split}
use sugarcat.Errno.{esucc}
use sugarcat.Memory.Laws.{load32-store32}
use sugarcat.Armv7.{Machine}
use sugarcat.Armv7.Entry.{PgdEntry, pgd_section, pgd_table, AccPerm, krw_nou, acc_code, acc_of}
use sugarcat.Armv7.Table.{pgd_word, read_table, read_section, create_pgd_entry, get_pgd_entry}
use sugarcat.Armv7.Table.Words.{table_word, section_word, acc_code-lt}

acc_of-acc_code : (p : AccPerm) → acc_of (acc_code p) ≡ p
unfolding acc_of acc_code
acc_of-acc_code krw_nou = refl
acc_of-acc_code _ = refl

-- The flags' mask of a table entry is bits 2 to 4 and bit 9.
table_flags :
    (t d f : ℕ) → d < 16 → f < 32 → f % 4 ≡ 0 → bit_and (t * 1024 + d * 32 + f + 1) 0x21C ≡ f
table_flags t d f hd hf clear = ground (
  arith,
  bit_and_split 5 (t * 32 + d) (f + 1) 16 28,
  bit_and_field 1 4 (t * 32 + d),
  bit_and_field 3 2 (f + 1),
)

-- That of a section entry has bits 12 to 19 too.
section_flags :
    (p a d f : ℕ)
    → a < 4
    → d < 16
    → f < 32
    → f % 4 ≡ 0
    → bit_and (p * 2 ^ 20 + a * 1024 + d * 32 + f + 2) 0xFF21C ≡ f
section_flags p a d f ha hd hf clear = ground (
  arith,
  bit_and_split 5 (p * 32768 + a * 32 + d) (f + 2) 0x7F90 28,
  bit_and_split 7 (p * 256) (a * 32 + d) 0xFF 16,
  bit_and_low 8 (p * 256),
  bit_and_field 1 4 (a * 32 + d),
  bit_and_field 3 2 (f + 2),
)

read_table_word :
    (e : PgdEntry)
    → e.type ≡ pgd_table
    → e.phy_addr < 2 ^ 32
    → e.domain < 16
    → e.flags < 32
    → e.flags % 4 ≡ 0
    → read_table (pgd_word e) e.virt_addr
      ≡ record e { phy_addr = e.phy_addr / 2 ^ 10 * 2 ^ 10; acc_perm = krw_nou }
unfolding read_table
read_table_word e table word dom fits clear = ground (
  arith,
  table_word e,
  table_base (pgd_word e),
  domain_field (pgd_word e),
  low_two (pgd_word e),
  table_flags (e.phy_addr / 2 ^ 10) e.domain e.flags,
)

read_section_word :
    (e : PgdEntry)
    → e.type ≡ pgd_section
    → e.phy_addr < 2 ^ 32
    → e.domain < 16
    → e.flags < 32
    → e.flags % 4 ≡ 0
    → read_section (pgd_word e) e.virt_addr ≡ record e { phy_addr = e.phy_addr / 2 ^ 20 * 2 ^ 20 }
unfolding read_section
read_section_word e section word dom fits clear = ground (
  arith,
  section_word e,
  acc_code-lt e.acc_perm,
  acc_of-acc_code e.acc_perm,
  section_base (pgd_word e),
  domain_field (pgd_word e),
  ap_field (pgd_word e),
  low_two (pgd_word e),
  section_flags (e.phy_addr / 2 ^ 20) (acc_code e.acc_perm) e.domain e.flags,
)

-- What a directory keeps of an entry: the aligned part of the address and, for a page table, no
-- permissions.
unfoldable pub kept : PgdEntry → PgdEntry
kept e = elim e.type [
  | pgd_section ↦ record e { phy_addr = e.phy_addr / 2 ^ 20 * 2 ^ 20 }
  | _ ↦ record e { phy_addr = e.phy_addr / 2 ^ 10 * 2 ^ 10; acc_perm = krw_nou }
]

-- A page table or section entry that `create_pgd_entry` writes for a domain below 16 and flags
-- among bits 2 to 4 is what `get_pgd_entry` then reads for that address, but for what the entry
-- has no room for: the low bits of the physical address and a page table's permissions.
pub get_pgd_entry-create_pgd_entry :
    (pgd_addr : ℕ) (e out : PgdEntry) (s : Machine)
    → (e.type ≡ pgd_table) ⊎ (e.type ≡ pgd_section)
    → e.phy_addr < 2 ^ 32
    → e.domain < 16
    → e.flags < 32
    → e.flags % 4 ≡ 0
    → get_pgd_entry pgd_addr e.virt_addr (some out) (create_pgd_entry pgd_addr (some e) s).1
      ≡ (esucc, some (kept e))
unfolding get_pgd_entry create_pgd_entry kept
get_pgd_entry-create_pgd_entry pgd_addr e out s kind word dom fits clear = ground (
  arith,
  load32-store32 s.mem (pgd_addr + 4 * (e.virt_addr / 2 ^ 20)) (pgd_word e),
  low_two (pgd_word e),
  table_word e,
  section_word e,
  acc_code-lt e.acc_perm,
  read_table_word e,
  read_section_word e,
)
