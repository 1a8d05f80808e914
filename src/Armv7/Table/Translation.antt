-- ===== src/Armv7/Table/Translation.antt =====
-- The walk after a mapping.
use sugarcat.Common.{
  ℕ, zero, suc, ◌+◌, ◌*◌, ◌/◌, ◌%◌, ◌^◌, ◌≤◌, ◌<◌, ◌≡◌, ◌⊎◌, refl, ap, ◌∙◌, some, true, arith, ◌==◌,
  if◌then◌else◌, ◌>>>◌,
}
use sugarcat.Common.Word.Fields.{table_base, page_base, low_two, low_byte, low_page}
use sugarcat.Common.Word.Mask.{bit_and_low, bit_or_disjoint}
use sugarcat.Errno.{esucc}
use sugarcat.Memory.{Memory, load32, store32}
use sugarcat.Memory.Laws.{load32-lt, load32-store32, load32-store32_apart}
use sugarcat.Armv7.{Machine, mmu_is_enabled, get_pg_div}
use sugarcat.Armv7.Entry.{pgd_code, PgdEntry, PgtbEntry, pgtb_small_pg, is_supported_pgtb_type}
use sugarcat.Armv7.Directory.{is_higher_half, get_kern_pgd, get_user_pgd}
use sugarcat.Armv7.Table.{
  slot, pgtb_index, pgtb_word, decode_page, page_to_phy, virt_to_phy, active_pgd, create_pgtb_entry,
  map_pgtb, into_table, get_pgd_entry, read_table, unset,
}
use sugarcat.Armv7.Table.Words.{small_page_word}

decode_small :
    (w v : ℕ) → w % 4 ≡ 2 → w < 2 ^ 32 → decode_page w v ≡ w / 2 ^ 12 * 2 ^ 12 + v % 2 ^ 12
unfolding decode_page
decode_small w v small word =
    ground (arith, low_two w, page_base w, low_page v, bit_or_disjoint 12 (w / 2 ^ 12) (v % 2 ^ 12))

pub index_value : (v : ℕ) → pgtb_index v ≡ v / 2 ^ 12 % 256
unfolding pgtb_index
index_value v = low_byte (v / 2 ^ 12)

-- The split points are at multiples of a megabyte.
same_half : (n u v : ℕ) → n < 8 → u / 2 ^ 20 ≡ v / 2 ^ 20 → is_higher_half u n ≡ is_higher_half v n
unfolding is_higher_half
same_half zero u v h e = refl
same_half (suc zero) u v h e = ground arith
same_half (suc (suc zero)) u v h e = ground arith
same_half (suc (suc (suc zero))) u v h e = ground arith
same_half (suc (suc (suc (suc zero)))) u v h e = ground arith
same_half (suc (suc (suc (suc (suc zero))))) u v h e = ground arith
same_half (suc (suc (suc (suc (suc (suc zero)))))) u v h e = ground arith
same_half (suc (suc (suc (suc (suc (suc (suc zero))))))) u v h e = ground arith
same_half (suc (suc (suc (suc (suc (suc (suc (suc n)))))))) u v h e = absurd (omega arith)

-- The directory slot of an address does not lie in the page table at `table`.
abbrev pub Apart : ℕ → ℕ → Type 0
Apart table dir_slot = (table + 1024 ≤ dir_slot) ⊎ (dir_slot + 4 ≤ table)

-- The directory's word for an address.
abbrev pub dir_word : ℕ → Machine → ℕ
dir_word v s = load32 s.mem (slot (active_pgd v s) (v >>> 20))

-- The page table that serves `virt`.
abbrev pub table_of : ℕ → Machine → ℕ
table_of virt s = dir_word virt s / 2 ^ 10 * 2 ^ 10

-- The MMU is on, the directory has a page table for `virt`, and the directory's own word for
-- `virt` does not lie in that table.
pub record TableReady (virt : ℕ) (s : Machine) : Type 0 where
  pub on : mmu_is_enabled s ≡ true
  pub is_table : dir_word virt s % 4 ≡ 1
  pub apart : Apart (table_of virt s) (slot (active_pgd virt s) (virt >>> 20))

-- Writes to memory leave the registers alone.
pub active_pgd_mem :
    (v : ℕ) (s : Machine) (m : Memory) → active_pgd v (record s { mem = m }) ≡ active_pgd v s
unfolding active_pgd get_pg_div get_kern_pgd get_user_pgd mmu_is_enabled
active_pgd_mem v s m = refl

pub enabled_mem :
    (s : Machine) (m : Memory) → mmu_is_enabled (record s { mem = m }) ≡ mmu_is_enabled s
unfolding mmu_is_enabled
enabled_mem s m = refl

pub active_pgd_same :
    (u v : ℕ) (s : Machine)
    → get_pg_div s < 8
    → u / 2 ^ 20 ≡ v / 2 ^ 20
    → active_pgd u s ≡ active_pgd v s
unfolding active_pgd
active_pgd_same u v s small e =
    ap (λ b. if b then get_kern_pgd s else get_user_pgd s) (same_half (get_pg_div s) u v small e)

-- The walk of an address that has a page table.
pub virt_to_phy_table :
    (v : ℕ) (s : Machine)
    → mmu_is_enabled s ≡ true
    → dir_word v s % 4 ≡ 1
    → virt_to_phy v s ≡ page_to_phy (table_of v s) v s
unfolding virt_to_phy
virt_to_phy_table v s on table = ground (
  arith,
  low_two (dir_word v s),
  table_base (dir_word v s),
  load32-lt s.mem (slot (active_pgd v s) (v >>> 20)),
)

pub get_pgd_entry_table :
    (pgd v : ℕ) (out : PgdEntry) (s : Machine)
    → load32 s.mem (slot pgd (v >>> 20)) % 4 ≡ 1
    → get_pgd_entry pgd v (some out) s
      ≡ (esucc, some (read_table (load32 s.mem (slot pgd (v >>> 20))) v))
unfolding get_pgd_entry
get_pgd_entry_table pgd v out s table = ground (arith, low_two (load32 s.mem (slot pgd (v >>> 20))))

pub into_table_lem :
    (w v : ℕ) (e : PgtbEntry) (s : Machine)
    → w % 4 ≡ 1
    → w < 2 ^ 32
    → into_table (esucc, some (read_table w v)) e s
      ≡ create_pgtb_entry (w / 2 ^ 10 * 2 ^ 10) (some e) s
unfolding into_table read_table pgd_code
into_table_lem w v e s table word = ground (arith, low_two w, table_base w)

-- With a page table in place, `map_pgtb` succeeds and writes the one word.
pub map_pgtb_lem :
    (e : PgtbEntry) (s : Machine)
    → is_supported_pgtb_type e.type ≡ true
    → mmu_is_enabled s ≡ true
    → dir_word e.virt_addr s % 4 ≡ 1
    → map_pgtb (some e) s ≡ (
      esucc,
      record s {
        mem = store32 s.mem (slot (table_of e.virt_addr s) (pgtb_index e.virt_addr)) (pgtb_word e);
      },
    )
unfolding map_pgtb create_pgtb_entry
map_pgtb_lem e s supported on table = rw (
  supported,
  on,
  get_pgd_entry_table (active_pgd e.virt_addr s) e.virt_addr unset s table,
  into_table_lem (dir_word e.virt_addr s) e.virt_addr e s table (load32-lt s.mem _),
)

-- After a write of `w` into the page table of `u`, an address of the same megabyte reads `w` if
-- it lies in the same page, and what it read before if not.
pub virt_to_phy-write :
    (u v w : ℕ) (s : Machine)
    → mmu_is_enabled s ≡ true
    → get_pg_div s < 8
    → dir_word u s % 4 ≡ 1
    → Apart (table_of u s) (slot (active_pgd u s) (u >>> 20))
    → w < 2 ^ 32
    → u / 2 ^ 20 ≡ v / 2 ^ 20
    → virt_to_phy v (record s { mem = store32 s.mem (slot (table_of u s) (pgtb_index u)) w })
      ≡ (if v / 2 ^ 12 == u / 2 ^ 12 then decode_page w v else virt_to_phy v s)
unfolding page_to_phy
virt_to_phy-write u v w s on small table apart word mb =
    let m = store32 s.mem (slot (table_of u s) (pgtb_index u)) w in
    ground (
      arith,
      active_pgd_same u v s,
      active_pgd_mem v s m,
      enabled_mem s m,
      index_value u,
      index_value v,
      virt_to_phy_table v s,
      virt_to_phy_table v (record s { mem = m }),
      load32-store32 s.mem (slot (table_of u s) (pgtb_index u)) w,
      load32-store32_apart s.mem (slot (table_of u s) (pgtb_index u))
          (slot (active_pgd u s) (u / 2 ^ 20)) w,
      load32-store32_apart s.mem (slot (table_of u s) (pgtb_index u))
          (slot (table_of u s) (pgtb_index v)) w,
    )

pub pg_div-lt : (s : Machine) → get_pg_div s < 8
unfolding get_pg_div
pg_div-lt s = omega (arith, bit_and_low 3 s.ttbcr)

-- While the MMU is on, mapping a small page with flags among bits 2 to 11 succeeds where the
-- directory has a page table for its address that the directory's own word does not lie in, and
-- from then on every address of that page translates to the same place in the physical page, while
-- the other addresses of the megabyte translate as before.
pub virt_to_phy-map_pgtb :
    (e : PgtbEntry) (s : Machine) (v : ℕ)
    → TableReady e.virt_addr s
    → e.type ≡ pgtb_small_pg
    → e.phy_addr < 2 ^ 32
    → e.flags < 2 ^ 12
    → e.flags % 4 ≡ 0
    → e.virt_addr / 2 ^ 20 ≡ v / 2 ^ 20
    → let (err, s') = map_pgtb (some e) s in
      (err ≡ esucc)
      × (virt_to_phy v s' ≡ (
          if v / 2 ^ 12 == e.virt_addr / 2 ^ 12
          then e.phy_addr / 2 ^ 12 * 2 ^ 12 + v % 2 ^ 12
          else virt_to_phy v s))
virt_to_phy-map_pgtb e s v ready small word fits clear mb =
    let (base, kind, w) = small_page_word e small word fits clear in
    rw (map_pgtb_lem e s (supports_small e small) ready.on ready.is_table) (
      refl,
      virt_to_phy-write e.virt_addr v (pgtb_word e) s ready.on (pg_div-lt s) ready.is_table
            ready.apart w mb
          ∙ ap (λ (t : ℕ). if v / 2 ^ 12 == e.virt_addr / 2 ^ 12 then t else virt_to_phy v s)
              (decode_small (pgtb_word e) v kind w ∙ ap (λ (t : ℕ). t * 2 ^ 12 + v % 2 ^ 12) base),
    )
  where
    supports_small : (e : PgtbEntry) → e.type ≡ pgtb_small_pg → is_supported_pgtb_type e.type ≡ true
    supports_small e h = rw h (unfold is_supported_pgtb_type in refl)
