-- ===== src/Examples/Blocks.antt =====
-- A run of the page count.
use sugarcat.Common.{ℕ, ◌+◌, ◌/◌, ◌%◌, ◌<◌, ◌≡◌, ◌≢◌, ◌↔◌, ◌⊎◌, arith}
use sugarcat.Region.{mem_pg_cnt}
use sugarcat.Region.Tests.{mem_pg_cnt_iff}

abbrev bytes : ℕ
bytes = 5000

mem_pg_cnt_iff_example :
    (mem_pg_cnt bytes ≡ (bytes + 4095) / 4096)
    ↔ ((bytes ≡ 0) ⊎ ((4096 < bytes) × (bytes % 4096 ≢ 0)))
mem_pg_cnt_iff_example = mem_pg_cnt_iff bytes (omega arith)
