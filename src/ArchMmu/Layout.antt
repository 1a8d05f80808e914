-- ===== src/ArchMmu/Layout.antt =====
-- The sizes and the places of the page tables that the interface reports.
use sugarcat.Common.{
  ℕ, ◌+◌, ◌-◌, ◌*◌, ◌/◌, ◌%◌, ◌^◌, ◌≤◌, ◌<◌, ◌≡◌, refl, arith, leb, below_eight, ◌↔◌, ◌⊎◌, inl, inr,
  if◌then◌else◌,
}
use sugarcat.Common.Word.Mask.{bit_or_disjoint, bit_or_split, bit_or_below, bit_or-zero}
use sugarcat.Armv7.{Machine, get_pg_div}
use sugarcat.Armv7.Table.Translation.{pg_div-lt}
use sugarcat.ArchMmu.{
  new_table, get_kern_vaddr, get_kern_pgtb_reg_sz, get_user_pgtb_reg_sz, get_user_pgd_sz,
  get_user_pgd_alignment,
}

-- With a split, the kernel's and the user's page tables together cover the 4096 megabytes, and a
-- user directory has one word for each user table and is aligned to at least its size.
pub pgtb_regions :
    (s : Machine)
    → 0 < get_pg_div s
    → (get_kern_pgtb_reg_sz s + get_user_pgtb_reg_sz s ≡ 4096 * 0x400)
      × (get_user_pgd_sz s * 0x100 ≡ get_user_pgtb_reg_sz s)
      × (get_user_pgd_alignment s ≡ get_user_pgd_sz s)
unfolding get_kern_pgtb_reg_sz get_user_pgtb_reg_sz get_user_pgd_sz get_user_pgd_alignment
pgtb_regions s split =
    below_eight
      (λ n.
        get_pg_div s ≡ n
        → (get_kern_pgtb_reg_sz s + get_user_pgtb_reg_sz s ≡ 4096 * 0x400)
          × (get_user_pgd_sz s * 0x100 ≡ get_user_pgtb_reg_sz s)
          × (get_user_pgd_alignment s ≡ get_user_pgd_sz s))
      (λ e. absurd (omega arith)) (λ e. rw e (refl, refl, refl)) (λ e. rw e (refl, refl, refl))
      (λ e. rw e (refl, refl, refl)) (λ e. rw e (refl, refl, refl)) (λ e. rw e (refl, refl, refl))
      (λ e. rw e (refl, refl, refl)) (λ e. rw e (refl, refl, refl)) (get_pg_div s) (pg_div-lt s)
      refl

-- The megabyte of an address within its half.
abbrev pub table_index : ℕ → Machine → ℕ
table_index v s = if leb (get_kern_vaddr s) v then (v - get_kern_vaddr s) / 2 ^ 20 else v / 2 ^ 20

new_table_sum :
    (base v : ℕ) (s : Machine)
    → base % 2 ^ 22 ≡ 0
    → v < 2 ^ 32
    → new_table base v s ≡ base + table_index v s * 0x400
unfolding new_table
new_table_sum base v s aligned word =
    ground (arith, bit_or_disjoint 22 (base / 2 ^ 22) (table_index v s * 0x400))

-- The first megabyte of the kernel's half, and the sizes from it.
halves :
    (s : Machine)
    → (k : ℕ) × (k ≤ 2048)
      × (get_kern_vaddr s ≡ k * 2 ^ 20)
      × (get_kern_pgtb_reg_sz s ≡ (4096 - k) * 0x400)
      × ((k ≡ 0) ⊎ (get_user_pgtb_reg_sz s ≡ k * 0x400))
unfolding get_kern_vaddr get_kern_pgtb_reg_sz get_user_pgtb_reg_sz
halves s =
    below_eight
      (λ n.
        get_pg_div s ≡ n
        → (k : ℕ) × (k ≤ 2048)
          × (get_kern_vaddr s ≡ k * 2 ^ 20)
          × (get_kern_pgtb_reg_sz s ≡ (4096 - k) * 0x400)
          × ((k ≡ 0) ⊎ (get_user_pgtb_reg_sz s ≡ k * 0x400)))
      (λ e. rw e (0, omega arith, refl, refl, inl refl))
      (λ e. rw e (2048, omega arith, refl, refl, inr refl))
      (λ e. rw e (1024, omega arith, refl, refl, inr refl))
      (λ e. rw e (512, omega arith, refl, refl, inr refl))
      (λ e. rw e (256, omega arith, refl, refl, inr refl))
      (λ e. rw e (128, omega arith, refl, refl, inr refl))
      (λ e. rw e (64, omega arith, refl, refl, inr refl))
      (λ e. rw e (32, omega arith, refl, refl, inr refl)) (get_pg_div s) (pg_div-lt s) refl

-- In a region of page tables that is aligned to 4 MiB, the table of an address lies within the
-- part that the interface asks for: the kernel's size above the split and the user's below it.
-- Addresses of one half have the same table exactly if they lie in the same megabyte.
pub new_table_region :
    (base u v : ℕ) (s : Machine)
    → base % 2 ^ 22 ≡ 0
    → u < 2 ^ 32
    → v < 2 ^ 32
    → leb (get_kern_vaddr s) u ≡ leb (get_kern_vaddr s) v
    → let size =
        if leb (get_kern_vaddr s) v then get_kern_pgtb_reg_sz s else get_user_pgtb_reg_sz s in
      (base ≤ new_table base v s)
      × (new_table base v s + 0x400 ≤ base + size)
      × ((new_table base u s ≡ new_table base v s) ↔ (u / 2 ^ 20 ≡ v / 2 ^ 20))
new_table_region base u v s aligned hu hv half =
    let eu = new_table_sum base u s aligned hu in
    let ev = new_table_sum base v s aligned hv in
    let (k, small, kv, kern, user) = halves s in ground arith

-- A region at an odd megabyte is too little aligned for `|`: the tables of two addresses 1 GiB
-- apart in the user's half are then the same one.
pub new_table_alias :
    (base v : ℕ) (s : Machine)
    → base % 2 ^ 21 ≡ 2 ^ 20
    → v < 2 ^ 30
    → v + 2 ^ 30 < get_kern_vaddr s
    → new_table base v s ≡ new_table base (v + 2 ^ 30) s
unfolding new_table
new_table_alias base v s odd low below =
    let f = v / 2 ^ 20 * 0x400 in
    let b = base / 2 ^ 21 in
    ground (
      arith,
      bit_or_split 20 (b * 2 + 1) 0 0 f,
      bit_or_split 20 (b * 2 + 1) 0 1 f,
      bit_or_below 1 b 1 1,
      bit_or-zero (b * 2 + 1),
      bit_or_disjoint 20 0 f,
    )
