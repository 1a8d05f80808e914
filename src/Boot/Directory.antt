-- ===== src/Boot/Directory.antt =====
-- The words of the boot directory.
use sugarcat.Common.{
  ℕ, zero, suc, ◌+◌, ◌-◌, ◌*◌, ◌/◌, ◌^◌, ◌≤◌, ◌<◌, ◌≡◌, arith, ltb, leb, ◌&&◌, if◌then◌else◌,
}
use sugarcat.Common.Word.Mask.{bit_or_disjoint}
use sugarcat.Common.Word.Fields.{section_base}
use sugarcat.Memory.{Memory, load32, store32}
use sugarcat.Memory.Laws.{load32-store32, load32-store32_apart}
use sugarcat.MemLayout.{Symbols}
use sugarcat.MemLayout.Convert.{phy_to_kvm_board}
use sugarcat.Armv7.Table.{slot}
use sugarcat.Boot.{section_entry, pg_dir_entry, user_loop, kern_loop}

pub section_entry_sum : (a : ℕ) → a < 2 ^ 32 → section_entry a ≡ a / 2 ^ 20 * 2 ^ 20 + 0x402
unfolding section_entry
section_entry_sum a word = ground (
  arith,
  section_base a,
  bit_or_disjoint 20 (a / 2 ^ 20) 0x400,
  bit_or_disjoint 10 (a / 2 ^ 20 * 2 ^ 10 + 1) 2,
)

pub user_loop_at :
    (left i pg j : ℕ) (m : Memory)
    → i + left ≤ 2048
    → load32 (user_loop left i pg m) (slot pg j)
      ≡ (if leb i j && ltb j (i + left) then j * 2 ^ 20 + 0x402 else load32 m (slot pg j))
unfolding user_loop pg_dir_entry
user_loop_at zero i pg j m fits = ground arith
user_loop_at (suc left) i pg j m fits = ground (
  arith,
  section_entry_sum (i * 2 ^ 20),
  user_loop_at left (i + 1) pg j (store32 m (slot pg i) (section_entry (i * 2 ^ 20))),
  load32-store32 m (slot pg i) (section_entry (i * 2 ^ 20)),
  load32-store32_apart m (slot pg i) (slot pg j) (section_entry (i * 2 ^ 20)),
)

pub kern_loop_at :
    (sym : Symbols) (left i pg start j : ℕ) (m : Memory)
    → sym.kp_start ≡ 0x60000000
    → sym.kv_start ≡ 0x80000000
    → 0x60000000 ≤ start
    → start + (i + left) * 2 ^ 20 ≤ 0x80000000
    → load32 (kern_loop sym left i pg start m) (slot pg j) ≡ (
        if leb (start / 2 ^ 20 + 0x200 + i) j && ltb j (start / 2 ^ 20 + 0x200 + i + left)
        then (j - 0x200) * 2 ^ 20 + 0x402
        else load32 m (slot pg j))
unfolding kern_loop pg_dir_entry
kern_loop_at sym zero i pg start j m kp kv low high = ground arith
kern_loop_at sym (suc left) i pg start j m kp kv low high =
    let p = start + i * 2 ^ 20 in
    let k = start / 2 ^ 20 + 0x200 + i in
    ground (
      arith,
      phy_to_kvm_board sym p kp kv,
      section_entry_sum p,
      kern_loop_at sym left (i + 1) pg start j (store32 m (slot pg k) (section_entry p)) kp kv,
      load32-store32 m (slot pg k) (section_entry p),
      load32-store32_apart m (slot pg k) (slot pg j) (section_entry p),
    )
