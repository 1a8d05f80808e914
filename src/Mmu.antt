-- ===== src/Mmu.antt =====
-- The kernel's MMU interface, source/kernel/mm/mmu.c. `uninit` is the stack's content in a field
-- that the layer below leaves unset.
pub mod Invalidate
pub mod Pages
pub mod Refusals
use sugarcat.Common.{
  ℕ, zero, suc, ◌+◌, ◌%◌, ◌^◌, Bool, true, false, ◌&&◌, Option, none, some, leb, if◌then◌else◌, u32,
}
use sugarcat.Common.Int.{ℤ, pos, ltℤ}
use sugarcat.Errno.{Errno, esucc, einval}
use sugarcat.Region.{MmReg}
use sugarcat.Armv7.{Machine, sync}
use sugarcat.Armv7.Entry.{AccPerm}
use sugarcat.ArchMmu.{
  AccFlags, kernel, user, EntryType, pg_tab_inval, MmuEntry, create_entry, get_kern_vaddr,
  set_user_pg_dir, arch_mmu_invalidate,
}

pub record MmResvReg : Type 0 where
  pub vbase : ℕ
  pub phy : MmReg

-- The module's `mmu_pg_tbs` goes in and comes out.
unfoldable pub interface_enable : Option MmResvReg → MmResvReg → Errno × MmResvReg
interface_enable none mmu_pg_tbs = (einval, mmu_pg_tbs)
interface_enable (some pg_tbs) mmu_pg_tbs = (esucc, pg_tbs)

unfoldable pub set_user_page_dir : ℕ → Machine → Errno × Machine
set_user_page_dir page_dir s = set_user_pg_dir page_dir s

abbrev pub is_success : Errno → Bool
is_success esucc = true
is_success _ = false

-- What `mmu_invalidate_region` does after its loop.
unfoldable pub finish : Option (Errno × Machine) → Option (Errno × Machine)
finish none = none
finish (some (ret, s)) = some (ret, if is_success ret then arch_mmu_invalidate (sync s) else s)

module _ (uninit : AccPerm) where
  unfoldable pub create_pgtb_entry : ℕ → ℕ → AccFlags → EntryType → Bool → Machine → Errno × Machine
  create_pgtb_entry virt_addr phy_addr acc_flags type invalidate s =
      let entry : MmuEntry = record {
        phy_addr = phy_addr;
        virt_addr = virt_addr;
        type = type;
        acc_flags = acc_flags;
      } in
      let (ret, s') = create_entry uninit entry s in
      (ret, if is_success ret && invalidate then arch_mmu_invalidate s' else s')

  -- The access flags that an address is invalidated with.
  unfoldable pub acc_of_addr : ℕ → Machine → AccFlags
  acc_of_addr virt_addr s = if leb (get_kern_vaddr s) virt_addr then kernel else user

  unfoldable pub invalidate_page : ℕ → Machine → Errno × Machine
  invalidate_page virt_addr s =
      create_pgtb_entry virt_addr 0 (acc_of_addr virt_addr s) pg_tab_inval true s

  -- The loop of `mmu_invalidate_region` from any of its states; `none` means that the fuel ran
  -- out. Its counter `i` is tested and never changed.
  unfoldable pub invalidate_loop : ℕ → ℤ → (i : ℤ) → Errno → ℕ → Machine → Option (Errno × Machine)
  invalidate_loop zero pg_cnt i ret virt_addr s = none
  invalidate_loop (suc fuel) pg_cnt i ret virt_addr s = elim (is_success ret && ltℤ i pg_cnt) [
    | true ↦
        let (ret', s') =
          create_pgtb_entry virt_addr 0 (acc_of_addr virt_addr s) pg_tab_inval false s in
        invalidate_loop fuel pg_cnt i ret' (u32 (virt_addr + 4096)) s'
    | false ↦ some (ret, s)
  ]

  unfoldable pub invalidate_region : ℕ → ℕ → ℤ → Machine → Option (Errno × Machine)
  invalidate_region fuel virt_addr pg_cnt s = elim (ltℤ (pos 0) pg_cnt) [
    | true ↦ finish (invalidate_loop fuel pg_cnt (pos 0) esucc virt_addr s)
    | false ↦ some (einval, s)
  ]
