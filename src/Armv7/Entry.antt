-- ===== src/Armv7/Entry.antt =====
-- The entries of include/arch/arm/armv7/armv7_mmu.h, as data and as the numbers in a table.
use sugarcat.Common.{ℕ, Bool, true, false, ◌==◌, if◌then◌else◌}

pub data PgdType : Type 0 where
  pgd_invalid pgd_table pgd_section pgd_super_section : PgdType

pub data PgtbType : Type 0 where
  pgtb_invalid pgtb_large_pg pgtb_small_pg : PgtbType

pub data AccPerm : Type 0 where
  krw_nou krw_urw kro_nou kro_uro : AccPerm

pub record PgdEntry : Type 0 where
  pub phy_addr : ℕ
  pub virt_addr : ℕ
  pub domain : ℕ
  pub acc_perm : AccPerm
  pub type : PgdType
  pub flags : ℕ

pub record PgtbEntry : Type 0 where
  pub phy_addr : ℕ
  pub virt_addr : ℕ
  pub acc_perm : AccPerm
  pub type : PgtbType
  pub flags : ℕ

-- The enumerators' values.
unfoldable pub pgd_code : PgdType → ℕ
pgd_code pgd_invalid = 0
pgd_code pgd_table = 1
pgd_code pgd_section = 2
pgd_code pgd_super_section = 3

unfoldable pub pgtb_code : PgtbType → ℕ
pgtb_code pgtb_invalid = 0
pgtb_code pgtb_large_pg = 1
pgtb_code pgtb_small_pg = 2

unfoldable pub acc_code : AccPerm → ℕ
acc_code krw_nou = 0
acc_code krw_urw = 1
acc_code kro_nou = 2
acc_code kro_uro = 3

-- The enumerator that a two-bit field of an entry stands for.
unfoldable pub pgd_type_of : ℕ → PgdType
pgd_type_of n =
    if n == 0
    then pgd_invalid
    else if n == 1
    then pgd_table
    else if n == 2
    then pgd_section
    else pgd_super_section

unfoldable pub acc_of : ℕ → AccPerm
acc_of n =
    if n == 0 then krw_nou else if n == 1 then krw_urw else if n == 2 then kro_nou else kro_uro

unfoldable pub is_supported_pgd_type : PgdType → Bool
is_supported_pgd_type pgd_invalid = true
is_supported_pgd_type pgd_section = true
is_supported_pgd_type pgd_table = true
is_supported_pgd_type pgd_super_section = false

unfoldable pub is_supported_pgtb_type : PgtbType → Bool
is_supported_pgtb_type pgtb_invalid = true
is_supported_pgtb_type pgtb_small_pg = true
is_supported_pgtb_type pgtb_large_pg = false
