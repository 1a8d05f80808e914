-- ===== src/Util/Bits/Swap.antt =====
-- Byte orders.
use sugarcat.Common.{ℕ, ◌+◌, ◌*◌, ◌/◌, ◌%◌, ◌^◌, ◌<◌, ◌≡◌, refl, arith, true}
use sugarcat.Common.Word.Mask.{bit_and_field, bit_and_low, bit_or_disjoint}
use sugarcat.Memory.{Memory, load8, load32, store32}
use sugarcat.Util.Bits.{is_little_endian, little, endswap32, be32_to_cpu}

-- Wherever the test word is put, the machine turns out little-endian.
pub little_everywhere : (m : Memory) (test : ℕ) → is_little_endian m test ≡ little
unfolding is_little_endian little load8 store32
little_everywhere m test = ground arith

little-true : little ≡ true
unfolding little
little-true = refl

swap32_sum :
    (x : ℕ)
    → x < 2 ^ 32
    → endswap32 x
      ≡ x % 256 * 2 ^ 24 + x / 2 ^ 8 % 256 * 2 ^ 16 + x / 2 ^ 16 % 256 * 2 ^ 8 + x / 2 ^ 24
unfolding endswap32
swap32_sum x word = ground (
  arith,
  bit_and_low 8 x,
  bit_and_field 8 8 x,
  bit_and_field 8 16 x,
  bit_and_field 8 24 x,
  bit_or_disjoint 24 (x % 256) (x / 2 ^ 8 % 256 * 2 ^ 16),
  bit_or_disjoint 16 (x % 256 * 256 + x / 2 ^ 8 % 256) (x / 2 ^ 16 % 256 * 2 ^ 8),
  bit_or_disjoint 8 (x % 256 * 65536 + x / 2 ^ 8 % 256 * 256 + x / 2 ^ 16 % 256) (x / 2 ^ 24),
)

-- `be32_to_cpu` of a loaded word is the number that its four bytes stand for with the highest
-- byte first.
pub be32_to_cpu-load32 :
    (m : Memory) (a : ℕ)
    → be32_to_cpu (load32 m a)
      ≡ load8 m a * 2 ^ 24 + load8 m (a + 1) * 2 ^ 16 + load8 m (a + 2) * 2 ^ 8 + load8 m (a + 3)
unfolding be32_to_cpu load32
be32_to_cpu-load32 m a = rw little-true (omega (arith, swap32_sum (load32 m a)))

-- Swapping twice gives the number back.
swap32_twice : (x : ℕ) → x < 2 ^ 32 → endswap32 (endswap32 x) ≡ x
swap32_twice x word = omega (arith, swap32_sum x word, swap32_sum (endswap32 x) small)
  where
    small : endswap32 x < 2 ^ 32
    small = omega (arith, swap32_sum x word)
