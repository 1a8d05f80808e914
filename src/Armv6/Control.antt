-- ===== src/Armv6/Control.antt =====
-- The control register as armv6_mmu.c sets it.
use sugarcat.Common.{◌+◌, ◌-◌, ◌*◌, ◌/◌, ◌^◌, ◌<◌, ◌≡◌, true, false, bit_or, arith}
use sugarcat.Common.Word.Mask.{bit_and_low, bit_and_not_low}
use sugarcat.Common.Word.Step.{bit_or_step}
use sugarcat.Armv6.{System, arch_is_mmu_enabled, arch_mmu_enable, arch_mmu_disable}

-- After `arch_mmu_enable` the unit is on, no access is checked against a domain, and the other
-- bits of the control register are kept but for the one that disables sub-pages; after
-- `arch_mmu_disable` it is off, with all other bits kept.
pub arch_mmu_enable-arch_mmu_disable :
    (s : System)
    → s.cntl < 2 ^ 32
    → let on = (arch_mmu_enable s).1 in
      let off = (arch_mmu_disable s).1 in
      (arch_is_mmu_enabled on ≡ true)
      × (on.domain ≡ 2 ^ 32 - 1)
      × (on.cntl / 2 ≡ bit_or (s.cntl / 2) (2 ^ 22))
      × (arch_is_mmu_enabled off ≡ false)
      × (off.cntl / 2 ≡ s.cntl / 2)
unfolding arch_mmu_enable arch_mmu_disable arch_is_mmu_enabled
arch_mmu_enable-arch_mmu_disable s word =
    let set = bit_or_step s.cntl (2 ^ 23 + 1) in
    let low = bit_and_low 1 (bit_or s.cntl (2 ^ 23 + 1)) in
    let clear = bit_and_not_low 1 s.cntl (omega arith) word in
    let low' = bit_and_low 1 (s.cntl / 2 * 2) in rw clear (ground arith)
