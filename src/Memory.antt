-- ===== src/Memory.antt =====
-- The flat, byte-addressed memory that the kernel's pointers go into. Every access succeeds: the
-- code is run with all of memory mapped. A cell's low eight bits are its byte, so that a read
-- always gives a byte. Words are little-endian, as on the board.
pub mod Laws
use sugarcat.Common.{ℕ, ◌+◌, ◌*◌, ◌^◌, ◌%◌, ◌/◌, ◌==◌, if◌then◌else◌, u8, ◌>>>◌}

abbrev pub Memory : Type 0
Memory = ℕ → ℕ

unfoldable pub load8 : Memory → ℕ → ℕ
load8 m a = u8 (m a)

unfoldable pub store8 : Memory → ℕ → ℕ → Memory
store8 m a v b = if b == a then u8 v else m b

unfoldable pub load32 : Memory → ℕ → ℕ
unfolding load8
load32 m a =
    load8 m a + load8 m (a + 1) * 2 ^ 8 + load8 m (a + 2) * 2 ^ 16 + load8 m (a + 3) * 2 ^ 24

unfoldable pub store32 : Memory → ℕ → ℕ → Memory
unfolding store8
store32 m a v =
    store8 (store8 (store8 (store8 m a v) (a + 1) (v >>> 8)) (a + 2) (v >>> 16)) (a + 3) (v >>> 24)
