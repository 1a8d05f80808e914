-- ===== src/Region.antt =====
-- Regions of memory, include/mm/mm.h, and the page counts of include/mm/pmm.h.
pub mod Tests
use sugarcat.Common.{
  ℕ, ◌+◌, ◌%◌, ◌/◌, ◌^◌, Bool, true, false, not, ◌&&◌, Option, none, some, bit_and, ltb, leb, ◌==◌,
  if◌then◌else◌, u32, ◌>>>◌,
}
use sugarcat.Util.Bits.{is_power_of_two}

pub record MmReg : Type 0 where
  pub base : ℕ
  pub size : ℕ

-- `base + size`, in 32 bits.
abbrev pub end : MmReg → ℕ
end r = u32 (r.base + r.size)

unfoldable pub is_within_region : Option MmReg → Option MmReg → Bool
is_within_region (some region) (some sub_region) =
    leb region.base sub_region.base && leb (end sub_region) (end region)
is_within_region _ _ = false

unfoldable pub is_overlapping : Option MmReg → Option MmReg → Bool
unfolding is_within_region
is_overlapping (some region) (some sub_region) =
    if is_within_region (some region) (some sub_region)
    then ltb region.base (end sub_region) && ltb sub_region.base (end region)
    else false
is_overlapping _ _ = false

abbrev pub pg_mask : ℕ
pg_mask = 0xFFFFF000

unfoldable pub mem_pg_cnt : ℕ → ℕ
mem_pg_cnt mem_sz =
    let ret = mem_sz >>> 12 in if not (bit_and mem_sz pg_mask == 0) then ret + 1 else ret

unfoldable pub bitmap_size : ℕ → ℕ
bitmap_size mem_sz = mem_sz >>> 12 >>> 3

unfoldable pub bitmap_oh_pg_cnt : ℕ → ℕ
unfolding bitmap_size
bitmap_oh_pg_cnt mem_sz =
    let ret = bitmap_size mem_sz in (if is_power_of_two ret then ret else 0) >>> 12
