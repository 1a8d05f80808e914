-- ===== src/Armv7/Table/Words.antt =====
-- The fields of the words that are written into page directories and page tables.
use sugarcat.Common.{ℕ, ◌+◌, ◌*◌, ◌/◌, ◌%◌, ◌^◌, ◌≤◌, ◌<◌, ◌≡◌, bit_or, arith}
use sugarcat.Common.Word.Mask.{bit_or_above, bit_or_below, bit_or_disjoint}
use sugarcat.Common.Word.Fields.{section_base, page_base, table_base}
use sugarcat.Armv7.Entry.{
  PgdEntry, PgtbEntry, pgd_section, pgd_table, pgtb_small_pg, AccPerm, krw_nou, acc_code,
}
use sugarcat.Armv7.Table.{pgtb_word, pgd_word}

pub acc_code-lt : (p : AccPerm) → acc_code p < 4
unfolding acc_code
acc_code-lt krw_nou = omega arith
acc_code-lt _ = omega arith

-- Two multiples of four and a two-bit number, joined by `|` below bit `k`.
low_or :
    (k q a f t : ℕ)
    → a * 4 < 2 ^ k
    → f * 4 < 2 ^ k
    → t < 4
    → 4 ≤ 2 ^ k
    → (bit_or (bit_or (bit_or (q * 2 ^ k) (a * 4)) (f * 4)) t ≡ q * 2 ^ k + (bit_or a f * 4 + t))
      × (bit_or a f * 4 < 2 ^ k)
low_or k q a f t ha hf ht hk = ground (
  arith,
  bit_or_disjoint k q (a * 4),
  bit_or_below k q (a * 4) (f * 4),
  bit_or_above 2 a f,
  bit_or_below k q (bit_or a f * 4) t,
  bit_or_disjoint 2 (bit_or a f) t,
)

-- A small page's word keeps the page's address above bit 12 and says in its two low bits that it
-- is one, whatever the permissions and the flags.
pub small_page_word :
    (e : PgtbEntry)
    → e.type ≡ pgtb_small_pg
    → e.phy_addr < 2 ^ 32
    → e.flags < 2 ^ 12
    → e.flags % 4 ≡ 0
    → (pgtb_word e / 2 ^ 12 ≡ e.phy_addr / 2 ^ 12) × (pgtb_word e % 4 ≡ 2) × (pgtb_word e < 2 ^ 32)
unfolding pgtb_word
small_page_word e small word fits clear = ground (
  arith,
  page_base e.phy_addr,
  acc_code-lt e.acc_perm,
  low_or 12 (e.phy_addr / 2 ^ 12) (acc_code e.acc_perm * 4) (e.flags / 4) 2,
)

-- The words of directory entries as sums of their fields, for flags among bits 2 to 4.
pub table_word :
    (e : PgdEntry)
    → e.type ≡ pgd_table
    → e.phy_addr < 2 ^ 32
    → e.domain < 16
    → e.flags < 32
    → e.flags % 4 ≡ 0
    → pgd_word e ≡ e.phy_addr / 2 ^ 10 * 2 ^ 10 + e.domain * 32 + e.flags + 1
unfolding pgd_word
table_word e table word dom fits clear = ground (
  arith,
  table_base e.phy_addr,
  bit_or_disjoint 10 (e.phy_addr / 2 ^ 10) (e.domain * 32),
  bit_or_disjoint 5 (e.phy_addr / 2 ^ 10 * 32 + e.domain) e.flags,
  bit_or_disjoint 2 (e.phy_addr / 2 ^ 10 * 256 + e.domain * 8 + e.flags / 4) 1,
)

pub section_word :
    (e : PgdEntry)
    → e.type ≡ pgd_section
    → e.phy_addr < 2 ^ 32
    → e.domain < 16
    → e.flags < 32
    → e.flags % 4 ≡ 0
    → pgd_word e
      ≡ e.phy_addr / 2 ^ 20 * 2 ^ 20 + acc_code e.acc_perm * 1024 + e.domain * 32 + e.flags + 2
unfolding pgd_word
section_word e section word dom fits clear = ground (
  arith,
  acc_code-lt e.acc_perm,
  section_base e.phy_addr,
  bit_or_disjoint 20 (e.phy_addr / 2 ^ 20) (acc_code e.acc_perm * 1024),
  bit_or_disjoint 10 (e.phy_addr / 2 ^ 20 * 1024 + acc_code e.acc_perm) (e.domain * 32),
  bit_or_disjoint 5 (e.phy_addr / 2 ^ 20 * 32768 + acc_code e.acc_perm * 32 + e.domain) e.flags,
  bit_or_disjoint 2
      (e.phy_addr / 2 ^ 20 * 262144 + acc_code e.acc_perm * 256 + e.domain * 8 + e.flags / 4) 2,
)
