-- ===== src/Common/Word/Fields.antt =====
-- The masks that the page table code uses, as arithmetic.
use Prim.Native.Nat.{ℕ, ◌*◌, ◌/◌, ◌%◌, ◌^◌, ◌<◌, bit_and}
use mathlib.Core.Path.{◌≡◌}
use native.Mathlib.Omega.{arith}
use sugarcat.Common.Word.Mask.{bit_and_field, bit_and_low}

module _ (x : ℕ) where
  pub low_two : bit_and x 3 ≡ x % 4
  low_two = bit_and_low 2 x

  pub low_byte : bit_and x 0xFF ≡ x % 256
  low_byte = bit_and_low 8 x

  pub low_page : bit_and x 0xFFF ≡ x % 4096
  low_page = bit_and_low 12 x

  pub low_section : bit_and x 0xFFFFF ≡ x % 2 ^ 20
  low_section = bit_and_low 20 x

  pub domain_field : bit_and x 0x1E0 ≡ x / 32 % 16 * 32
  domain_field = bit_and_field 4 5 x

  pub ap_field : bit_and x 0xC00 ≡ x / 1024 % 4 * 1024
  ap_field = bit_and_field 2 10 x

module _ (x : ℕ) (word : x < 2 ^ 32) where
  pub section_base : bit_and x 0xFFF00000 ≡ x / 2 ^ 20 * 2 ^ 20
  section_base = omega (arith, bit_and_field 12 20 x)

  pub page_base : bit_and x 0xFFFFF000 ≡ x / 2 ^ 12 * 2 ^ 12
  page_base = omega (arith, bit_and_field 20 12 x)

  pub table_base : bit_and x 0xFFFFFC00 ≡ x / 2 ^ 10 * 2 ^ 10
  table_base = omega (arith, bit_and_field 22 10 x)

  pub ttbr_base : bit_and x 0xFFFFC000 ≡ x / 2 ^ 14 * 2 ^ 14
  ttbr_base = omega (arith, bit_and_field 18 14 x)
