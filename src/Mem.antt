-- ===== src/Mem.antt =====
-- include/mm/mem.h over the flat memory.
pub mod Blocks
use sugarcat.Common.{ℕ, zero, suc, ◌+◌, ◌*◌, ◌>>>◌, ◌/◌, ◌^◌}
use sugarcat.Memory.{Memory, load8, store8, load32, store32}
use sugarcat.Util.Bits.{be32_to_cpu, be64_to_cpu}

unfoldable pub memr : Memory → ℕ → ℕ
memr m address = load32 m address

unfoldable pub memw : Memory → ℕ → ℕ → Memory
memw m address v = store32 m address v

-- The loops with `left` rounds to go, at index `i`.
unfoldable pub memset_loop : ℕ → ℕ → ℕ → ℕ → Memory → Memory
memset_loop zero i dat c m = m
memset_loop (suc left) i dat c m = memset_loop left (i + 1) dat c (store8 m (dat + i) c)

unfoldable pub memset : Memory → ℕ → ℕ → ℕ → Memory
unfolding memset_loop
memset m dat c size = memset_loop size 0 dat c m

unfoldable pub memcpy_loop : ℕ → ℕ → ℕ → ℕ → Memory → Memory
memcpy_loop zero i dest src m = m
memcpy_loop (suc left) i dest src m =
    memcpy_loop left (i + 1) dest src (store8 m (dest + i) (load8 m (src + i)))

unfoldable pub memcpy : Memory → ℕ → ℕ → ℕ → Memory
unfolding memcpy_loop
memcpy m dest src size = memcpy_loop size 0 dest src m

unfoldable pub memconvle32_loop : ℕ → ℕ → ℕ → Memory → Memory
memconvle32_loop zero i ptr m = m
memconvle32_loop (suc left) i ptr m =
    memconvle32_loop left (i + 1) ptr
      (store32 m (ptr + 4 * i) (be32_to_cpu (load32 m (ptr + 4 * i))))

unfoldable pub memconvle32 : Memory → ℕ → ℕ → Memory
unfolding memconvle32_loop
memconvle32 m src size = memconvle32_loop (size >>> 2) 0 src m

-- Words of 64 bits, as two of 32.
unfoldable pub load64 : Memory → ℕ → ℕ
load64 m a = load32 m a + load32 m (a + 4) * 2 ^ 32

unfoldable pub store64 : Memory → ℕ → ℕ → Memory
store64 m a v = store32 (store32 m a v) (a + 4) (v >>> 32)

unfoldable pub memconvle64_loop : ℕ → ℕ → ℕ → Memory → Memory
memconvle64_loop zero i ptr m = m
memconvle64_loop (suc left) i ptr m =
    memconvle64_loop left (i + 1) ptr
      (store64 m (ptr + 8 * i) (be64_to_cpu (load64 m (ptr + 8 * i))))

unfoldable pub memconvle64 : Memory → ℕ → ℕ → Memory
unfolding memconvle64_loop
memconvle64 m src size = memconvle64_loop (size >>> 3) 0 src m
