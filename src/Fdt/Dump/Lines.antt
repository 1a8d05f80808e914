-- ===== src/Fdt/Dump/Lines.antt =====
-- The lines that `dump_fdt` prints for the tokens of a tree, and its indentation in memory.
use sugarcat.Common.{
  ℕ, zero, suc, ◌+◌, ◌≤◌, ◌<◌, ◌≡◌, ◌⊎◌, refl, ap, sym, ◌∙◌, subst, List, [], ◌∷◌, ◌++◌, length,
  arith,
}
use sugarcat.Fdt.{be32}
use sugarcat.Fdt.Dump.{push_tab}
use sugarcat.Fdt.Tokens.{Token, node_begin, property, node_end, nop, width, At}
use sugarcat.Memory.{Memory, load8, store8, load32}
use sugarcat.Memory.Laws.{load8-store8, load8-store8_ne}
use sugarcat.Str.Length.{CStr}
use sugarcat.Str.Pieces.{Apart, CStr-same}
use native.Mathlib.Nat.{add-zero}

-- `d` tabs.
unfoldable pub indent : ℕ → List ℕ
indent zero = []
indent (suc d) = 9 ∷ indent d

abbrev pub lower : ℕ → ℕ
lower zero = zero
lower (suc d) = d

pub length-indent : (d : ℕ) → length (indent d) ≡ d
unfolding indent
length-indent zero = refl
length-indent (suc d) = ap suc (length-indent d)

-- What is printed for a token at depth `d`, and the depth after it. The name of a property is
-- `str` at its offset.
unfoldable pub line : (ℕ → List ℕ) → ℕ → Token → List ℕ
unfolding indent
line str d (node_begin []) = b'/' ∷ b' ' ∷ b'{' ∷ 10 ∷ []
line str d (node_begin (c ∷ cs)) = indent d ++ ((c ∷ cs) ++ (b' ' ∷ b'{' ∷ 10 ∷ []))
line str d (property size off) = indent d ++ (str off ++ (10 ∷ []))
line str d node_end = indent (lower d) ++ (b'}' ∷ b';' ∷ 10 ∷ [])
line str d nop = []

unfoldable pub depth : ℕ → Token → ℕ
depth d (node_begin name) = suc d
depth d (property size off) = d
depth d node_end = lower d
depth d nop = d

unfoldable pub lines : (ℕ → List ℕ) → ℕ → List Token → List ℕ
unfolding line depth
lines str d [] = []
lines str d (t ∷ ts) = line str d t ++ lines str (depth d t) ts

pub push_tab-indent :
    (d p : ℕ) (m : Memory) → CStr m p (indent d) → CStr (push_tab p d m) p (indent (suc d))
unfolding indent
push_tab-indent zero p m c =
    let m1 = store8 m (p + 0) 9 in
    let here : load8 (store8 m1 (p + 0 + 1) 0) p ≡ 9 =
      load8-store8_ne m1 (p + 0 + 1) p 0 (omega arith)
      ∙ ap (load8 m1) (sym (add-zero p))
      ∙ load8-store8 m (p + 0) 9 (omega arith) in
    let end : load8 (store8 m1 (p + 0 + 1) 0) (p + 1) ≡ 0 =
      subst (λ q. load8 (store8 m1 (p + 0 + 1) 0) q ≡ 0) (omega arith)
        (load8-store8 m1 (p + 0 + 1) 0 (omega arith)) in
    (here, omega arith, end)
push_tab-indent (suc d) p m (here, some_c, c) =
    let at : p + suc d ≡ p + 1 + d = omega arith in
    let m1 = store8 m (p + suc d) 9 in
    let first : load8 (push_tab p (suc d) m) p ≡ 9 =
      load8-store8_ne m1 (p + suc d + 1) p 0 (omega arith)
      ∙ load8-store8_ne m (p + suc d) p 9 (omega arith)
      ∙ here in
    let rest = push_tab-indent d (p + 1) m c in
    (
      first,
      omega arith,
      subst (λ q. CStr (store8 (store8 m q 9) (q + 1) 0) (p + 1) (9 ∷ indent d)) (sym at) rest,
    )

pub pop_tab-indent :
    (d p : ℕ) (m : Memory) → CStr m p (indent (suc d)) → CStr (store8 m (p + d) 0) p (indent d)
unfolding indent
pop_tab-indent zero p m (here, some_c, c) =
    subst (λ q. load8 (store8 m q 0) p ≡ 0) (sym (add-zero p)) (load8-store8 m p 0 (omega arith))
pop_tab-indent (suc d) p m (here, some_c, c) =
    let at : p + suc d ≡ p + 1 + d = omega arith in
    let first : load8 (store8 m (p + suc d) 0) p ≡ 9 =
      load8-store8_ne m (p + suc d) p 0 (omega arith) ∙ here in
    let rest = pop_tab-indent d (p + 1) m c in
    (first, omega arith, subst (λ q. CStr (store8 m q 0) (p + 1) (indent d)) (sym at) rest)

-- Apart from the buffers at `buf` and `tabs`, for the `n + 1` bytes from `p` on.
abbrev pub Off : ℕ → ℕ → ℕ → ℕ → Type 0
Off buf tabs p n = Apart p n buf 12 × Apart p n tabs 256

-- Two memories that agree but for those buffers.
abbrev pub Same : ℕ → ℕ → Memory → Memory → Type 0
Same buf tabs m m' =
    (a : ℕ) → (a < buf) ⊎ (buf + 12 ≤ a) → (a < tabs) ⊎ (tabs + 256 ≤ a) → load8 m' a ≡ load8 m a

module _ (buf tabs : ℕ) (m m' : Memory) (same : Same buf tabs m m') where
  pub be32-Same : (p : ℕ) → Off buf tabs p 3 → be32 m' p ≡ be32 m p
  unfolding load32
  be32-Same p (off_buf, off_tabs) =
      rw
        (
          same p (omega arith) (omega arith),
          same (p + 1) (omega arith) (omega arith),
          same (p + 2) (omega arith) (omega arith),
          same (p + 3) (omega arith) (omega arith),
        )
        refl

  pub CStr-Same : (p : ℕ) (xs : List ℕ) → Off buf tabs p (length xs) → CStr m p xs → CStr m' p xs
  CStr-Same p xs (off_buf, off_tabs) c =
      CStr-same m m' p xs (λ a from upto. same a (omega arith) (omega arith)) c

  pub At-Same : (len p : ℕ) (t : Token) → Off buf tabs p (width t) → At len m p t → At len m' p t
  At-Same len p (node_begin name) (off_buf, off_tabs) (tag, c, short) = (
    be32-Same p (omega arith, omega arith) ∙ tag,
    CStr-Same (p + 4) name (omega arith, omega arith) c,
    short,
  )
  At-Same len p (property size off) (off_buf, off_tabs) (tag, sz, name) = (
    be32-Same p (omega arith, omega arith) ∙ tag,
    be32-Same (p + 4) (omega arith, omega arith) ∙ sz,
    be32-Same (p + 8) (omega arith, omega arith) ∙ name,
  )
  At-Same len p node_end (off_buf, off_tabs) tag = be32-Same p (omega arith, omega arith) ∙ tag
  At-Same len p nop (off_buf, off_tabs) tag = be32-Same p (omega arith, omega arith) ∙ tag
