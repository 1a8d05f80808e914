-- ===== src/Str/Length.antt =====
-- Strings in memory and `strlen`.
use sugarcat.Common.{ℕ, zero, suc, ◌+◌, ◌^◌, ◌<◌, ◌≡◌, ◌≢◌, some, List, [], ◌∷◌, arith, length, u32}
use sugarcat.Memory.{Memory, load8}
use sugarcat.Str.{strlen, strlen_loop}

-- At `p` stand the characters of `xs` and the null byte that ends them.
abbrev pub CStr : Memory → ℕ → List ℕ → Type 0
CStr m p [] = load8 m p ≡ 0
CStr m p (c ∷ cs) = (load8 m p ≡ c) × (0 < c) × CStr m (p + 1) cs

strlen_loop-length :
    (fuel p ret : ℕ) (m : Memory) (xs : List ℕ)
    → CStr m p xs
    → ret + length xs < 2 ^ 32
    → length xs < fuel
    → strlen_loop fuel m p ret ≡ some (ret + length xs)
unfolding strlen_loop
strlen_loop-length zero p ret m xs s small fits = absurd (omega arith)
strlen_loop-length (suc fuel) p ret m [] s small fits = ground arith
strlen_loop-length (suc fuel) p ret m (c ∷ cs) s small fits =
    ground (arith, strlen_loop-length fuel (p + 1) (u32 (ret + 1)) m cs)

-- `strlen` counts the characters before the null byte, and needs one round more than there are.
pub strlen-length :
    (fuel p : ℕ) (m : Memory) (xs : List ℕ)
    → p ≢ 0
    → CStr m p xs
    → length xs < 2 ^ 32
    → length xs < fuel
    → strlen fuel m p ≡ some (length xs)
unfolding strlen
strlen-length fuel p m xs there s small fits = ground (arith, strlen_loop-length fuel p 0 m xs)
