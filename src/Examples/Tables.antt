-- ===== src/Examples/Tables.antt =====
-- Mappings, invalidations and directories on the board.
use Prim.{tt}
use sugarcat.ArchMmu.{kernel}
use sugarcat.Mmu.Pages.{
  Implements, Call, map_page, unmap_page, change_all, exec_all, exec_all-Implements,
}
use sugarcat.Common.{none, List, [], ℕ, ◌/◌, ◌^◌, ◌≡◌, ◌≢◌, refl, inr, true, some, ◌∷◌, arith}
use sugarcat.Common.Int.{pos}
use sugarcat.Errno.{esucc, enotfnd}
use sugarcat.Memory.{load8, store8, load32, store32}
use sugarcat.Armv7.{mmu_is_enabled, get_pg_div, invalidate_unified_tlb, mmu_is_enabled}
use sugarcat.Armv7.Entry.{krw_nou}
use sugarcat.Armv7.Directory.{is_higher_half, get_kern_pgd, get_user_pgd, set_kern_pgd}
use sugarcat.Armv7.Directory.Registers.{get_kern_pgd-set_kern_pgd}
use sugarcat.Armv7.Table.{
  pgtb_index, page_to_phy, decode_page, active_pgd, virt_to_phy, map_pgtb, map_pgd, get_pgd_entry,
  create_pgd_entry, unset,
}
use sugarcat.Armv7.Table.Translation.{virt_to_phy_table, TableReady, virt_to_phy-map_pgtb}
use sugarcat.Armv7.Table.Outcomes.{pgtb_outcome, map_pgtb-eq-outcome}
use sugarcat.Armv7.Table.ReadBack.{kept, get_pgd_entry-create_pgd_entry}
use sugarcat.Armv7.Table.Sections.{virt_to_phy-map_pgd}
use sugarcat.ArchMmu.{get_kern_vaddr, new_table}
use sugarcat.ArchMmu.Layout.{new_table_alias}
use sugarcat.Mmu.{invalidate_page, invalidate_region}
use sugarcat.Mmu.Refusals.{cleared_page, next_page, no_table, invalidate_region-Refused}
use sugarcat.Mmu.Invalidate.{virt_to_phy-invalidate_page}
use sugarcat.Examples.Board.{board, page, section}

board_on : mmu_is_enabled board ≡ true
unfolding mmu_is_enabled
board_on = refl

board_ready : (v : ℕ) → v / 2 ^ 20 ≡ 2048 → TableReady v board
unfolding active_pgd is_higher_half get_pg_div get_kern_pgd mmu_is_enabled load32 load8 store32
    store8
board_ready v mb = record { on = board_on; is_table = ground arith; apart = inr (ground arith) }

virt_to_phy-map_pgtb_example :
    let (err, s') = map_pgtb (some page) board in
    (err ≡ esucc) × (virt_to_phy 0x80003456 s' ≡ 0x60010456)
virt_to_phy-map_pgtb_example =
    virt_to_phy-map_pgtb page board 0x80003456 (board_ready 0x80003000 refl) refl (omega arith)
      (omega arith) refl refl

virt_to_phy-invalidate_page_example :
    let (err, s') = invalidate_page krw_nou 0x80003000 board in
    (err ≡ esucc)
    × (virt_to_phy 0x80003456 s' ≡ 0)
    × (s'.events ≡ invalidate_unified_tlb ∷ board.events)
virt_to_phy-invalidate_page_example =
    virt_to_phy-invalidate_page krw_nou 0x80003000 0x80003456 board (board_ready 0x80003000 refl)
      refl

map_pgtb-eq-outcome_example : map_pgtb (some page) board ≡ pgtb_outcome (some page) board
map_pgtb-eq-outcome_example = map_pgtb-eq-outcome (some page) board

get_pgd_entry-create_pgd_entry_example :
    get_pgd_entry 0x8000 0x80100000 (some unset) (create_pgd_entry 0x8000 (some section) board).1
    ≡ (esucc, some (kept section))
get_pgd_entry-create_pgd_entry_example =
    get_pgd_entry-create_pgd_entry 0x8000 section unset board (inr refl) (omega arith) (omega arith)
      (omega arith) refl

virt_to_phy-map_pgd_example :
    let (err, s') = map_pgd (some section) board in
    (err ≡ esucc) × (virt_to_phy 0x80123456 s' ≡ 0x60123456)
virt_to_phy-map_pgd_example =
    virt_to_phy-map_pgd section board 0x80123456 board_on refl (omega arith) (omega arith)
      (omega arith) refl refl

get_kern_pgd-set_kern_pgd_example :
    let (err, s') = set_kern_pgd 0x6000C000 0x2B board in
    (err ≡ esucc)
    × (get_kern_pgd s' ≡ 0x6000C000)
    × (s'.events ≡ invalidate_unified_tlb ∷ board.events)
    × (get_user_pgd s' ≡ get_user_pgd board)
    × (s'.mem ≡ board.mem)
get_kern_pgd-set_kern_pgd_example =
    get_kern_pgd-set_kern_pgd 0x6000C000 0x2B board (omega arith) (omega arith) board_on

new_table_alias_example :
    new_table 0x60100000 0x100000 board ≡ new_table 0x60100000 0x40100000 board
unfolding get_kern_vaddr get_pg_div
new_table_alias_example = new_table_alias 0x60100000 0x100000 board refl (omega arith) (omega arith)

-- The last two pages of the board's megabyte have a page table, and the next one has none.
invalidate_region-Refused_example :
    (invalidate_region krw_nou 4 0x800FE000 (pos 1) board
      ≡ some (enotfnd, cleared_page 0x800FF000 (cleared_page 0x800FE000 board)))
    × (enotfnd ≢ esucc)
unfolding active_pgd is_higher_half get_pg_div get_kern_pgd mmu_is_enabled load32 load8 store32
    store8 get_kern_vaddr pgtb_index
invalidate_region-Refused_example =
    invalidate_region-Refused krw_nou 4 0x800FE000 2 (pos 1) board
      (cleared_page 0x800FF000 (cleared_page 0x800FE000 board)) enotfnd refl
      (next_page 0x800FE000 1 board _ enotfnd refl refl (
        next_page 0x800FF000 0 (cleared_page 0x800FE000 board) _ enotfnd refl refl
          (no_table 0x80100000 _ refl (ground arith))))
      (omega arith)

board_empty : (v : ℕ) → v / 2 ^ 20 ≡ 2048 → virt_to_phy v board ≡ 0
unfolding page_to_phy decode_page load32 load8 store32 store8
board_empty v mb =
    let ready = board_ready v mb in
    ground (arith, virt_to_phy_table v board ready.on ready.is_table)

board_pages : Implements 0x80000000 (λ _. none) board
board_pages = record { ready = board_ready 0x80000000 refl; same = board_empty }

abbrev calls : List Call
calls = map_page 0x80003000 0x60010000 kernel ∷ unmap_page 0x80003000 ∷ []

exec_all-Implements_example :
    ((exec_all krw_nou calls board).0 ≡ esucc)
    × Implements 0x80000000 (change_all calls (λ _. none)) (exec_all krw_nou calls board).1
exec_all-Implements_example =
    exec_all-Implements krw_nou 0x80000000 calls (λ _. none) board ((refl, omega arith), (refl, tt))
      board_pages
