-- ===== src/Memory/Laws.antt =====
-- Reads after writes.
use sugarcat.Common.{ℕ, ◌+◌, ◌^◌, ◌≤◌, ◌<◌, ◌≡◌, ◌≢◌, ◌⊎◌, arith}
use sugarcat.Memory.{Memory, load8, store8, load32, store32}

pub load8-lt : (m : Memory) (a : ℕ) → load8 m a < 256
unfolding load8
load8-lt m a = omega arith

pub load32-lt : (m : Memory) (a : ℕ) → load32 m a < 2 ^ 32
unfolding load32
load32-lt m a = omega arith

pub load8-store8 : (m : Memory) (a v : ℕ) → v < 256 → load8 (store8 m a v) a ≡ v
unfolding load8 store8
load8-store8 m a v h = ground arith

pub load8-store8_ne : (m : Memory) (a b v : ℕ) → b ≢ a → load8 (store8 m a v) b ≡ load8 m b
unfolding load8 store8
load8-store8_ne m a b v h = ground arith

pub load32-store32 : (m : Memory) (a v : ℕ) → v < 2 ^ 32 → load32 (store32 m a v) a ≡ v
unfolding load32 store32
load32-store32 m a v h = ground arith

pub load32-store32_apart :
    (m : Memory) (a b v : ℕ) → (a + 4 ≤ b) ⊎ (b + 4 ≤ a) → load32 (store32 m a v) b ≡ load32 m b
unfolding load32 store32
load32-store32_apart m a b v h = ground arith

pub load8-store32_apart :
    (m : Memory) (a b v : ℕ) → (a + 4 ≤ b) ⊎ (b < a) → load8 (store32 m a v) b ≡ load8 m b
unfolding load8 store32
load8-store32_apart m a b v h = ground arith
