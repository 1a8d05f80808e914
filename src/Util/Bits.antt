-- ===== src/Util/Bits.antt =====
-- include/util/bits.h. The compiler's `__builtin_ffs` and `__builtin_clz` are modelled as they are
-- documented, over 32-bit words: the position of the lowest set bit counted from one, or 0, and the
-- number of zero bits above the highest set one.

pub mod Scan
pub mod Swap
use sugarcat.Common.{
  ℕ, zero, suc, ◌+◌, ◌-◌, ◌*◌, ◌/◌, ◌%◌, ◌^◌, Bool, not, ◌&&◌, bit_and, bit_or, ltb, ◌==◌,
  if◌then◌else◌, sub32, ◌<<<◌, ◌>>>◌,
}
use sugarcat.Memory.{Memory, load8, store32}

-- The number of binary digits of `x`, of which there are at most as many as there is fuel.
unfoldable pub bit_length : ℕ → ℕ → ℕ
bit_length zero x = 0
bit_length (suc fuel) x = let rest = bit_length fuel (x / 2) in if x == 0 then 0 else rest + 1

unfoldable pub builtin_clz : ℕ → ℕ
builtin_clz x = 32 - bit_length 32 x

unfoldable pub first_set : ℕ → ℕ → ℕ
first_set zero x = 0
first_set (suc fuel) x = let rest = first_set fuel (x / 2) in if x % 2 == 1 then 1 else rest + 1

unfoldable pub builtin_ffs : ℕ → ℕ
builtin_ffs x = if x == 0 then 0 else first_set 32 x

unfoldable pub idx_lsb : ℕ → ℕ
idx_lsb x = builtin_ffs x

unfoldable pub idx_msb : ℕ → ℕ
idx_msb x = if ltb 0 x then 32 - builtin_clz x else 0

unfoldable pub clr_lv_msb : ℕ → ℕ
clr_lv_msb x = if ltb 0 x then 1 <<< (idx_msb x - 1) else 0

unfoldable pub clr_lv_lsb : ℕ → ℕ
clr_lv_lsb x = if ltb 0 x then 1 <<< (idx_lsb x - 1) else 0

unfoldable pub is_aligned_n : ℕ → ℕ → Bool
is_aligned_n x n = bit_and x (sub32 n 1) == 0

unfoldable pub is_power_of_two : ℕ → Bool
is_power_of_two x = not (x == 0) && bit_and x (sub32 x 1) == 0

-- The word 1 is stored at `test`, and its first byte is read back.
unfoldable pub is_little_endian : Memory → (test : ℕ) → Bool
is_little_endian m test = load8 (store32 m test 1) test == 1

unfoldable pub endswap16 : ℕ → ℕ
endswap16 x = bit_or (x >>> 8) (x * 2 ^ 8) % 2 ^ 16

unfoldable pub endswap32 : ℕ → ℕ
endswap32 x =
    bit_or
      (bit_or (bit_or (bit_and x 0xFF <<< 24) (bit_and x 0xFF00 <<< 8)) (bit_and x 0xFF0000 >>> 8))
      (bit_and x 0xFF000000 >>> 24)

-- `x << k` in 64 bits.
abbrev pub shl64 : ℕ → ℕ → ℕ
shl64 x k = x * 2 ^ k % 2 ^ 64

unfoldable pub endswap64 : ℕ → ℕ
endswap64 x =
    bit_or
      (bit_or
        (bit_or
          (bit_or
            (bit_or
              (bit_or (bit_or (shl64 (bit_and x 0xFF) 56) (shl64 (bit_and x 0xFF00) 40))
                (shl64 (bit_and x 0xFF0000) 24))
              (shl64 (bit_and x 0xFF000000) 8))
            (bit_and x 0xFF00000000 >>> 8))
          (bit_and x 0xFF0000000000 >>> 24))
        (bit_and x 0xFF000000000000 >>> 40))
      (bit_and (x >>> 56) 0xFF)

-- The test of the byte order, on some memory.
unfoldable pub little : Bool
unfolding is_little_endian load8 store32
little = is_little_endian (λ _. 0) 0

unfoldable pub cpu_to_be16 : ℕ → ℕ
cpu_to_be16 x = if little then endswap16 x else x

unfoldable pub be16_to_cpu : ℕ → ℕ
be16_to_cpu x = if little then endswap16 x else x

unfoldable pub be32_to_cpu : ℕ → ℕ
be32_to_cpu x = if little then endswap32 x else x

unfoldable pub be64_to_cpu : ℕ → ℕ
be64_to_cpu x = if little then endswap64 x else x
