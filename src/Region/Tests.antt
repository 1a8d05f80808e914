-- ===== src/Region/Tests.antt =====
-- What the region tests decide, and the page counts.
use sugarcat.Common.{
  ℕ, ◌+◌, ◌/◌, ◌%◌, ◌^◌, ◌≤◌, ◌<◌, ◌≡◌, ◌↔◌, true, false, ◌⊎◌, ◌≢◌, some, arith, ltb, if◌then◌else◌,
}
use sugarcat.Common.Word.Fields.{page_base}
use sugarcat.Region.{MmReg, is_within_region, is_overlapping, mem_pg_cnt}

-- For two regions that do not run past the end of memory, the sub-region is within the region
-- exactly if it begins at or after the region's base and ends at or before the region's end.
pub is_within_region_iff :
    (r q : MmReg)
    → r.base + r.size < 2 ^ 32
    → q.base + q.size < 2 ^ 32
    → (is_within_region (some r) (some q) ≡ true)
      ↔ ((r.base ≤ q.base) × (q.base + q.size ≤ r.base + r.size))
unfolding is_within_region
is_within_region_iff r q hr hq = ground arith

-- `is_overlapping` is true only of a sub-region that lies within the region, so for two regions
-- that share addresses and of which neither contains the other it says no.
pub is_overlapping_partial :
    (r q : MmReg)
    → r.base < q.base
    → q.base < r.base + r.size
    → r.base + r.size < q.base + q.size
    → q.base + q.size < 2 ^ 32
    → (is_overlapping (some r) (some q) ≡ false) × (is_overlapping (some q) (some r) ≡ false)
unfolding is_overlapping
is_overlapping_partial r q a b c d = ground arith

mem_pg_cnt_value : (n : ℕ) → n < 2 ^ 32 → mem_pg_cnt n ≡ n / 4096 + (if ltb n 4096 then 0 else 1)
unfolding mem_pg_cnt
mem_pg_cnt_value n word = ground (arith, page_base n)

-- `mem_pg_cnt` is the number of pages that hold `n` bytes exactly for no bytes and for more than
-- a page that is not a whole number of pages.
pub mem_pg_cnt_iff :
    (n : ℕ)
    → n < 2 ^ 32
    → (mem_pg_cnt n ≡ (n + 4095) / 4096) ↔ ((n ≡ 0) ⊎ ((4096 < n) × (n % 4096 ≢ 0)))
mem_pg_cnt_iff n word = ground (arith, mem_pg_cnt_value n word)
