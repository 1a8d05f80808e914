-- ===== src/Armv7/Directory/Registers.antt =====
-- What the setters of the base registers leave for the getters.
use sugarcat.Common.{
  ℕ, ◌+◌, ◌-◌, ◌*◌, ◌/◌, ◌%◌, ◌^◌, ◌≤◌, ◌<◌, ◌≡◌, sym, ap, ◌∙◌, true, ◌∷◌, bit_and, bit_or, arith,
  ◌==◌, if◌then◌else◌, ◌<<<◌, not32, sub32,
}
use sugarcat.Common.Word.Mask.{bit_and_low, bit_and_not_low, bit_or_disjoint, bit_or_below}
use native.Mathlib.Nat.{one-le-pow, pow-le-pow_right}
use sugarcat.Common.Word.Fields.{ttbr_base}
use sugarcat.Errno.{esucc, ealign}
use sugarcat.Util.Bits.{is_aligned_n}
use sugarcat.Armv7.{Machine, invalidate_unified_tlb, mmu_is_enabled, get_pg_div}
use sugarcat.Armv7.Directory.{get_kern_pgd, get_user_pgd, refresh, set_kern_pgd, set_user_pgd}

align_mask : (k : ℕ) → k < 32 → sub32 (1 <<< k) 1 ≡ 2 ^ k - 1
align_mask k small = omega (arith, one-le-pow k 2, pow-le-pow_right {n = 2} (omega arith) le31)
  where
    le31 : k ≤ 31
    le31 = omega arith

aligned_iff : (k x : ℕ) → k < 32 → is_aligned_n x (1 <<< k) ≡ (x % 2 ^ k == 0)
unfolding is_aligned_n
aligned_iff k x small =
    ap (λ (t : ℕ). t == 0) (ap (bit_and x) (align_mask k small) ∙ bit_and_low k x)

get_pg_div-lt : (s : Machine) → get_pg_div s < 8
unfolding get_pg_div
get_pg_div-lt s = omega (arith, bit_and_low 3 s.ttbcr)

-- An aligned base with flags below the alignment is read back without them.
base_of_or : (k a f : ℕ) → a % 2 ^ k ≡ 0 → f < 2 ^ k → bit_or a f / 2 ^ k * 2 ^ k ≡ a
base_of_or k a f e h =
    ap (λ (t : ℕ). t / 2 ^ k * 2 ^ k)
      (ap (λ (t : ℕ). bit_or t f) whole ∙ bit_or_disjoint k (a / 2 ^ k) f h)
    ∙ ap (λ (t : ℕ). t * 2 ^ k) parts
    ∙ sym whole
  where
    whole : a ≡ a / 2 ^ k * 2 ^ k
    whole = grind (arith, one-le-pow k 2)

    parts : (a / 2 ^ k * 2 ^ k + f) / 2 ^ k ≡ a / 2 ^ k
    parts = grind (arith, one-le-pow k 2)

or-lt : (a f : ℕ) → a < 2 ^ 32 → f < 2 ^ 32 → bit_or a f < 2 ^ 32
or-lt a f ha hf = (bit_or_below 32 0 a f ha hf).1

-- Setting the kernel directory of a machine whose MMU is on succeeds exactly for a base aligned to
-- 16 KiB; then, for flags of eight bits, the base is what is read back, and the TLB is invalidated
-- once. A misaligned base changes nothing. The user directory and memory stay as they were.
pub get_kern_pgd-set_kern_pgd :
    (addr flags : ℕ) (s : Machine)
    → addr < 2 ^ 32
    → flags < 2 ^ 8
    → mmu_is_enabled s ≡ true
    → let (err, s') = set_kern_pgd addr flags s in
      let aligned = addr % 2 ^ 14 == 0 in
      (err ≡ (if aligned then esucc else ealign))
      × (get_kern_pgd s' ≡ (if aligned then addr else get_kern_pgd s))
      × (s'.events ≡ (if aligned then invalidate_unified_tlb ∷ s.events else s.events))
      × (get_user_pgd s' ≡ get_user_pgd s)
      × (s'.mem ≡ s.mem)
unfolding set_kern_pgd refresh get_kern_pgd get_user_pgd mmu_is_enabled get_pg_div
get_kern_pgd-set_kern_pgd addr flags s ha hf on = ground (
  arith,
  aligned_iff 14 addr,
  base_of_or 14 addr flags,
  ttbr_base (bit_or addr flags),
  or-lt addr flags,
)

user_mask : (k w : ℕ) → k < 32 → w < 2 ^ 32 → bit_and w (not32 ((1 <<< k) - 1)) ≡ w / 2 ^ k * 2 ^ k
user_mask k w small word =
    ap (λ (t : ℕ). bit_and w (not32 t)) shifted ∙ bit_and_not_low k w (omega arith) word
  where
    le31 : k ≤ 31
    le31 = omega arith

    shifted : (1 <<< k) - 1 ≡ 2 ^ k - 1
    shifted = omega (arith, one-le-pow k 2, pow-le-pow_right {n = 2} (omega arith) le31)

two_pos : 0 < 2
two_pos = omega arith

user_small : (n : ℕ) → 14 - n < 32
user_small n = omega arith

user_le : (s : Machine) → 14 - get_pg_div s ≤ 14
user_le s = omega arith

-- Setting the user directory of a machine whose MMU is on succeeds exactly for a base aligned to
-- 2 ^ (14 - N), N being the split in TTBCR; then, for flags below that, the base is what is read
-- back, and the TLB is invalidated once. A misaligned base changes nothing. The kernel directory
-- and memory stay as they were.
pub get_user_pgd-set_user_pgd :
    (addr flags : ℕ) (s : Machine)
    → addr < 2 ^ 32
    → flags < 2 ^ (14 - get_pg_div s)
    → mmu_is_enabled s ≡ true
    → let (err, s') = set_user_pgd addr flags s in
      let aligned = addr % 2 ^ (14 - get_pg_div s) == 0 in
      (err ≡ (if aligned then esucc else ealign))
      × (get_user_pgd s' ≡ (if aligned then addr else get_user_pgd s))
      × (s'.events ≡ (if aligned then invalidate_unified_tlb ∷ s.events else s.events))
      × (get_kern_pgd s' ≡ get_kern_pgd s)
      × (s'.mem ≡ s.mem)
unfolding set_user_pgd refresh get_kern_pgd get_user_pgd mmu_is_enabled get_pg_div
get_user_pgd-set_user_pgd addr flags s ha hf on = ground (
  arith,
  get_pg_div-lt s,
  user_small (get_pg_div s),
  aligned_iff (14 - get_pg_div s) addr,
  base_of_or (14 - get_pg_div s) addr flags,
  user_mask (14 - get_pg_div s) (bit_or addr flags),
  or-lt addr flags,
  pow-le-pow_right {n = 2} two_pos (user_le s),
)
