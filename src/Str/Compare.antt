-- ===== src/Str/Compare.antt =====
-- What `strcmp` compares.
use sugarcat.Common.{
  ℕ, zero, suc, ◌+◌, ◌^◌, ◌<◌, ◌≡◌, ◌≢◌, ◌↔◌, refl, some, List, [], ◌∷◌, ◌++◌, length, ◌==◌,
  if◌then◌else◌, arith, Bool-cases, inl, inr, ==_refl, ap, ◌∙◌,
}
use sugarcat.Common.Int.{ℤ, pos, sub_ℕ}
use sugarcat.Memory.{Memory}
use sugarcat.Str.{strlen, strcmp_loop, strcmp}
use sugarcat.Str.Length.{CStr, strlen-length}

-- The difference of two strings at the first character in which they differ, or 0 if the first
-- string ends before that.
abbrev pub diff : List ℕ → List ℕ → ℤ
diff [] ys = pos 0
diff (x ∷ xs) [] = pos x
diff (x ∷ xs) (y ∷ ys) = if x == y then diff xs ys else sub_ℕ x y

strcmp_loop-diff :
    (fuel len n str1 str2 i : ℕ) (m : Memory) (xs ys : List ℕ)
    → strlen len m str1 ≡ some n
    → i + length xs ≡ n
    → CStr m (str1 + i) xs
    → CStr m (str2 + i) ys
    → length xs < fuel
    → strcmp_loop fuel len m str1 str2 i ≡ some (diff xs ys)
unfolding strcmp_loop
strcmp_loop-diff zero len n str1 str2 i m xs ys l e a b enough = absurd (omega arith)
strcmp_loop-diff (suc fuel) len n str1 str2 i m [] ys l e a b enough = ground arith
strcmp_loop-diff (suc fuel) len n str1 str2 i m (x ∷ xs) [] l e a b enough = ground arith
strcmp_loop-diff (suc fuel) len n str1 str2 i m (x ∷ xs) (y ∷ ys) l e a b enough =
    ground (arith, strcmp_loop-diff fuel len n str1 str2 (i + 1) m xs ys l)

-- `strcmp` of two strings ends within one round more than the first has characters, and gives the
-- difference at the first character in which they differ, or 0 if the first string ends before.
pub strcmp-diff :
    (fuel str1 str2 : ℕ) (m : Memory) (xs ys : List ℕ)
    → str1 ≢ 0
    → str2 ≢ 0
    → CStr m str1 xs
    → CStr m str2 ys
    → length xs < 2 ^ 32
    → length xs < fuel
    → strcmp fuel m str1 str2 ≡ some (diff xs ys)
unfolding strcmp
strcmp-diff fuel str1 str2 m xs ys s1 s2 a b small enough = ground (
  arith,
  strcmp_loop-diff fuel fuel (length xs) str1 str2 0 m xs ys
      (strlen-length fuel str1 m xs s1 a small enough),
)

diff_prefix :
    (p : ℕ) (m : Memory) (xs ys : List ℕ)
    → CStr m p xs
    → diff xs ys ≡ pos 0
    → (zs : List ℕ) × (ys ≡ xs ++ zs)
diff_prefix p m [] ys a e = (ys, refl)
diff_prefix p m (x ∷ xs) [] a e = absurd (ground arith)
diff_prefix p m (x ∷ xs) (y ∷ ys) (_, _, a) e = elim (Bool-cases (x == y)) [
  | inl same ↦ let (zs, rest) = diff_prefix (p + 1) m xs ys a (ground arith) in (zs, ground arith)
  | inr other ↦ absurd (ground arith)
]

diff_of_prefix : (xs zs : List ℕ) → diff xs (xs ++ zs) ≡ pos 0
diff_of_prefix [] zs = refl
diff_of_prefix (x ∷ xs) zs = rw (==_refl x) (diff_of_prefix xs zs)

-- With one round more than the first string has characters, `strcmp` gives 0 exactly if the first
-- string is a prefix of the second, equal or not.
pub strcmp_zero_iff :
    (fuel str1 str2 : ℕ) (m : Memory) (xs ys : List ℕ)
    → str1 ≢ 0
    → str2 ≢ 0
    → CStr m str1 xs
    → CStr m str2 ys
    → length xs < 2 ^ 32
    → length xs < fuel
    → (strcmp fuel m str1 str2 ≡ some (pos 0)) ↔ ((zs : List ℕ) × (ys ≡ xs ++ zs))
strcmp_zero_iff fuel str1 str2 m xs ys s1 s2 a b small enough =
    let run = strcmp-diff fuel str1 str2 m xs ys s1 s2 a b small enough in
    (
      λ e. diff_prefix str1 m xs ys a (cc),
      λ (zs, whole). run ∙ ap some (ap (diff xs) whole ∙ diff_of_prefix xs zs),
    )
