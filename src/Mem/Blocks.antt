-- ===== src/Mem/Blocks.antt =====
-- What `memset` and `memcpy` leave at every address.
use sugarcat.Common.{
  ℕ, zero, suc, ◌+◌, ◌-◌, ◌≤◌, ◌<◌, ◌≡◌, ◌⊎◌, arith, ltb, leb, ◌&&◌, if◌then◌else◌,
}
use sugarcat.Memory.{Memory, load8, store8}
use sugarcat.Memory.Laws.{load8-lt, load8-store8, load8-store8_ne}
use sugarcat.Mem.{memset, memset_loop, memcpy, memcpy_loop}

memset_loop_at :
    (left i dat c a : ℕ) (m : Memory)
    → c < 256
    → load8 (memset_loop left i dat c m) a
      ≡ (if leb (dat + i) a && ltb a (dat + i + left) then c else load8 m a)
unfolding memset_loop
memset_loop_at zero i dat c a m byte = ground arith
memset_loop_at (suc left) i dat c a m byte = ground (
  arith,
  memset_loop_at left (i + 1) dat c a (store8 m (dat + i) c),
  load8-store8 m (dat + i) c,
  load8-store8_ne m (dat + i) a c,
)

-- `memset` fills exactly the `size` bytes from `dat` on.
pub memset_at :
    (m : Memory) (dat c size a : ℕ)
    → c < 256
    → load8 (memset m dat c size) a ≡ (if leb dat a && ltb a (dat + size) then c else load8 m a)
unfolding memset
memset_at m dat c size a byte = ground (arith, memset_loop_at size 0 dat c a m)

memcpy_loop_at :
    (left i dest src a : ℕ) (m : Memory)
    → (dest ≤ src) ⊎ (src + i + left ≤ dest)
    → load8 (memcpy_loop left i dest src m) a ≡ (
        if leb (dest + i) a && ltb a (dest + i + left)
        then load8 m (src + (a - dest))
        else load8 m a)
unfolding memcpy_loop
memcpy_loop_at zero i dest src a m apart = ground arith
memcpy_loop_at (suc left) i dest src a m apart =
    let m' = store8 m (dest + i) (load8 m (src + i)) in
    ground (
      arith,
      memcpy_loop_at left (i + 1) dest src a m',
      load8-lt m (src + i),
      load8-store8 m (dest + i) (load8 m (src + i)),
      load8-store8_ne m (dest + i) a (load8 m (src + i)),
      load8-store8_ne m (dest + i) (src + (a - dest)) (load8 m (src + i)),
    )

-- `memcpy` leaves a copy of the source as it was, and nothing else, if the destination begins no
-- higher than the source or lies past its end.
pub memcpy_at :
    (m : Memory) (dest src size a : ℕ)
    → (dest ≤ src) ⊎ (src + size ≤ dest)
    → load8 (memcpy m dest src size) a
      ≡ (if leb dest a && ltb a (dest + size) then load8 m (src + (a - dest)) else load8 m a)
unfolding memcpy
memcpy_at m dest src size a apart = ground (arith, memcpy_loop_at size 0 dest src a m)
