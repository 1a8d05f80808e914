-- ===== src/Init/Tables/Counts.antt =====
-- The pages that `init_map_kern_pgtb` maps for a region.
use native.Mathlib.Nat.{pow-le-pow_right}
use sugarcat.Common.{
  ℕ, ◌+◌, ◌-◌, ◌*◌, ◌^◌, ◌<◌, ◌≤◌, ◌≡◌, ◌↔◌, ◌⊎◌, ap, ◌∙◌, arith, Bool-cases, inl, inr, leb,
}
use sugarcat.Common.Word.Mask.{pow-add}
use sugarcat.Util.Bits.Scan.{clr_lv_msb_lem, is_power_of_two_iff}
use sugarcat.Init.Tables.{map_pg_cnt}

-- A power of two is a whole number of pages, or at most half a page.
whole_pages : (e : ℕ) → (2 ^ e ≡ 2 ^ 12 * 2 ^ (e - 12)) ⊎ ((2 ^ e ≡ 2 ^ 11) ⊎ (2 ^ e ≤ 2 ^ 10))
whole_pages e = elim (Bool-cases (leb 12 e)) [
  | inl large ↦
      let split : e ≡ 12 + (e - 12) = ground arith in
      inl (ap (λ (t : ℕ). 2 ^ t) split ∙ pow-add 12 (e - 12))
  | inr small ↦ elim (Bool-cases (leb 11 e)) [
    | inl half ↦ let eleven : e ≡ 11 = ground arith in inr (inl (ap (λ (t : ℕ). 2 ^ t) eleven))
    | inr less ↦
        let le : e ≤ 10 = ground arith in inr (inr (pow-le-pow_right {n = 2} (omega arith) le))
  ]
]

-- The page count covers a region exactly if the region is larger than half a page, and never comes
-- to twice the region's size or more.
pub map_pg_cnt_iff :
    (size : ℕ)
    → 0 < size
    → size < 2 ^ 32
    → ((size ≤ 4096 * map_pg_cnt size) ↔ (2048 < size)) × (4096 * map_pg_cnt size < 2 * size)
unfolding map_pg_cnt
map_pg_cnt_iff size p word =
    let (e, _, clr, low, high) = clr_lv_msb_lem size p word in
    ground (arith, clr, is_power_of_two_iff size p word, whole_pages e)
