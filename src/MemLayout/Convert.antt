-- ===== src/MemLayout/Convert.antt =====
-- The two translations between physical memory and the kernel's half.
use sugarcat.Common.{ℕ, zero, suc, ◌+◌, ◌-◌, ◌/◌, ◌^◌, ◌≤◌, ◌<◌, ◌≡◌, refl, bit_and, bit_or, arith}
use native.Mathlib.Nat.{pow-suc}
use sugarcat.Common.Word.Step.{bit_or_step, bit_and_step}
use sugarcat.Common.Word.Mask.{bit_and_split, bit_and_low, bit_or_split, bit_or-zero}
use sugarcat.MemLayout.{Symbols, kvm_to_phy, phy_to_kvm, get_kern_phy_start, get_kern_virt_start}

exchange :
    (w a p v : ℕ)
    → a < 2 ^ w
    → p < 2 ^ w
    → v < 2 ^ w
    → bit_and a p ≡ p
    → bit_and a v ≡ 0
    → bit_or (bit_and (bit_or (bit_and a (2 ^ w - 1 - p)) v) (2 ^ w - 1 - v)) p ≡ a
exchange zero a p v ha hp hv here away =
    let ea : a ≡ 0 = omega arith in
    let ep : p ≡ 0 = omega arith in let ev : v ≡ 0 = omega arith in rw (ea, ep, ev) refl
exchange (suc w) a p v ha hp hv here away =
    let b = bit_and a (2 ^ suc w - 1 - p) in
    let c = bit_or b v in
    let d = bit_and c (2 ^ suc w - 1 - v) in
    ground (
      arith,
      pow-suc 2 w,
      bit_and_step a p,
      bit_and_step a v,
      bit_and_step a (2 ^ suc w - 1 - p),
      bit_or_step b v,
      bit_and_step c (2 ^ suc w - 1 - v),
      bit_or_step d p,
      exchange w (a / 2) (p / 2) (v / 2),
    )

-- On the board, physical memory from 0x60000000 to 0x80000000 is at 0x80000000 in the kernel's
-- half.
pub phy_to_kvm_board :
    (sym : Symbols) (a : ℕ)
    → sym.kp_start ≡ 0x60000000
    → sym.kv_start ≡ 0x80000000
    → 0x60000000 ≤ a
    → a < 0x80000000
    → phy_to_kvm sym a ≡ a + 0x20000000
unfolding phy_to_kvm get_kern_phy_start get_kern_virt_start
phy_to_kvm_board sym a kp kv low high = rw (kp, kv, masked) joined
  where
    masked : bit_and a 0x9FFFFFFF ≡ a - 0x60000000
    masked =
        ground (
          arith,
          bit_and_split 29 3 (a - 0x60000000) 4 (2 ^ 29 - 1),
          bit_and_low 29 (a - 0x60000000),
        )

    joined : bit_or (a - 0x60000000) 0x80000000 ≡ a + 0x20000000
    joined = ground (arith, bit_or_split 31 0 (a - 0x60000000) 1 0, bit_or-zero (a - 0x60000000))

-- Among 32-bit addresses, a physical address that has every bit of the physical start and none of the virtual start is
-- what its kernel address is translated back to.
pub kvm_to_phy-phy_to_kvm :
    (sym : Symbols) (a : ℕ)
    → a < 2 ^ 32
    → sym.kp_start < 2 ^ 32
    → sym.kv_start < 2 ^ 32
    → bit_and a sym.kp_start ≡ sym.kp_start
    → bit_and a sym.kv_start ≡ 0
    → kvm_to_phy sym (phy_to_kvm sym a) ≡ a
unfolding kvm_to_phy phy_to_kvm get_kern_phy_start get_kern_virt_start
kvm_to_phy-phy_to_kvm sym a word hp hv here away =
    exchange 32 a sym.kp_start sym.kv_start word hp hv here away
