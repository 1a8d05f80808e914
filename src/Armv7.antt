-- ===== src/Armv7.antt =====
-- The state that the ARMv7 code works on: the system control registers which
-- include/arch/arm/armv7/armv7_syscntl.h reads and writes, memory, and the barriers and TLB
-- maintenance in the order in which they were issued.
pub mod Entry
pub mod Directory
pub mod Table
use sugarcat.Common.{ℕ, Bool, not, List, ◌∷◌, bit_and, ◌==◌}
use sugarcat.Memory.{Memory}

pub data Event : Type 0 where
  dsb invalidate_unified_tlb : Event

pub record Machine : Type 0 where
  pub sctlr : ℕ
  pub ttbcr : ℕ
  pub ttbr0 : ℕ
  pub ttbr1 : ℕ
  pub dacr : ℕ
  pub ivt_base : ℕ
  pub aux_cntl : ℕ
  pub scr : ℕ
  -- Of the processor; nothing writes them.
  pub config_base : ℕ
  pub mpidr : ℕ
  pub mem : Memory
  -- The latest event comes first.
  pub events : List Event

abbrev pub sctlr_mmu_enb : ℕ
sctlr_mmu_enb = 0x1

abbrev pub sctlr_afe : ℕ
sctlr_afe = 0x20000000

abbrev pub ttbcr_2g_2g : ℕ
ttbcr_2g_2g = 0x1

abbrev pub dacr_client : ℕ
dacr_client = 0x1

abbrev pub dacr_mngr : ℕ
dacr_mngr = 0x3

abbrev pub get_config_base : Machine → ℕ
get_config_base s = s.config_base

abbrev pub get_ivt_base : Machine → ℕ
get_ivt_base s = s.ivt_base

abbrev pub set_ivt_base : ℕ → Machine → Machine
set_ivt_base address s = record s { ivt_base = address }

abbrev pub get_sctlr : Machine → ℕ
get_sctlr s = s.sctlr

abbrev pub get_aux_cntl : Machine → ℕ
get_aux_cntl s = s.aux_cntl

abbrev pub set_aux_cntl : ℕ → Machine → Machine
set_aux_cntl v s = record s { aux_cntl = v }

abbrev pub get_scr : Machine → ℕ
get_scr s = s.scr

abbrev pub set_scr : ℕ → Machine → Machine
set_scr v s = record s { scr = v }

abbrev pub get_ttbcr : Machine → ℕ
get_ttbcr s = s.ttbcr

abbrev pub get_ttbr0 : Machine → ℕ
get_ttbr0 s = s.ttbr0

abbrev pub get_ttbr1 : Machine → ℕ
get_ttbr1 s = s.ttbr1

abbrev pub get_dacr : Machine → ℕ
get_dacr s = s.dacr

abbrev pub get_mpidr : Machine → ℕ
get_mpidr s = s.mpidr

abbrev pub set_sctlr : ℕ → Machine → Machine
set_sctlr v s = record s { sctlr = v }

abbrev pub set_ttbcr : ℕ → Machine → Machine
set_ttbcr v s = record s { ttbcr = v }

abbrev pub set_ttbr0 : ℕ → Machine → Machine
set_ttbr0 v s = record s { ttbr0 = v }

abbrev pub set_ttbr1 : ℕ → Machine → Machine
set_ttbr1 v s = record s { ttbr1 = v }

abbrev pub set_dacr : ℕ → Machine → Machine
set_dacr v s = record s { dacr = v }

abbrev pub invalidate_tlb : Machine → Machine
invalidate_tlb s = record s { events = invalidate_unified_tlb ∷ s.events }

abbrev pub sync : Machine → Machine
sync s = record s { events = dsb ∷ s.events }

unfoldable pub mmu_is_enabled : Machine → Bool
mmu_is_enabled s = not (bit_and (get_sctlr s) sctlr_mmu_enb == 0)

unfoldable pub get_pg_div : Machine → ℕ
get_pg_div s = bit_and (get_ttbcr s) 0x7
