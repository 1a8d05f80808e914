-- ===== src/Fdt/Search.antt =====
-- The searches for a node, a property and the cell size.
use sugarcat.Common.{
  ℕ, zero, suc, ◌+◌, ◌^◌, ◌<◌, ◌≡◌, ◌≢◌, Bool, true, false, some, List, [], ◌∷◌, length, ◌==◌,
  if◌then◌else◌, arith,
}
use sugarcat.Memory.{Memory}
use sugarcat.Str.Length.{CStr, strlen-length}
use sugarcat.Str.Compare.{diff, strcmp-diff}
use sugarcat.Fdt.{is_zero, Literals, is_using_fdt, get_root_node, is_named, node_loop, get_node}
use sugarcat.Fdt.Tokens.{
  Token, node_begin, property, node_end, nop, after, Block, first_node, get_next_node-first,
}

-- Whether the two tests of `fdt_get_node` take a node called `ys` when `xs` is asked for.
abbrev pub takes : List ℕ → List ℕ → Bool
takes xs ys =
    if is_zero (diff xs ys)
    then true
    else (if is_zero (diff xs (b'/' ∷ [])) then length ys == 0 else false)

-- The first node of a block at `p` that is taken, or null.
abbrev pub find_node : List ℕ → ℕ → List Token → ℕ
find_node xs p [] = 0
find_node xs p (node_begin ys ∷ ts) =
    if takes xs ys then p else find_node xs (after p (node_begin ys)) ts
find_node xs p (t ∷ ts) = find_node xs (after p t) ts

module _ (len : ℕ) (m : Memory) (xs : List ℕ) (short : length xs < len) (word : len < 2 ^ 32) where
  is_named-takes :
      (lit : Literals) (name p : ℕ) (ys : List ℕ)
      → name ≢ 0
      → lit.slash ≢ 0
      → CStr m name xs
      → CStr m lit.slash (b'/' ∷ [])
      → CStr m (p + 4) ys
      → length ys < len
      → is_named len m lit name p ≡ some (takes xs ys)
  unfolding is_named
  is_named-takes lit name p ys n0 s0 n s y small =
      rw
        (
          strcmp-diff len name (p + 4) m xs ys n0 (omega arith) n y (omega arith) short,
          strcmp-diff len name lit.slash m xs (b'/' ∷ []) n0 s0 n s (omega arith) short,
          strlen-length len (p + 4) m ys (omega arith) y (omega arith) small,
        )
        (ground arith)

  module _ (lit : Literals) (name : ℕ) (n0 : name ≢ 0) (s0 : lit.slash ≢ 0) (n : CStr m name xs)
      (s : CStr m lit.slash (b'/' ∷ [])) where
    node_loop-find :
        (fuel p : ℕ) (ts : List Token)
        → Block len m p ts
        → length ts < fuel
        → node_loop len m lit fuel name (first_node p ts) ≡ some (find_node xs p ts)
    unfolding node_loop
    node_loop-find zero p ts b enough = absurd (omega arith)
    node_loop-find (suc fuel) p [] b enough = ground arith
    node_loop-find (suc fuel) p (node_begin ys ∷ ts) (here, at, fits, b) enough =
        let t = node_begin ys in
        ground (
          arith,
          is_named-takes lit name p ys n0 s0 n s at.1 at.2,
          get_next_node-first fuel len p m t ts (here, at, fits, b),
          node_loop-find fuel (after p t) ts b,
        )
    node_loop-find (suc fuel) p (property size off ∷ ts) (here, at, fits, b) enough =
        node_loop-find (suc fuel) (after p (property size off)) ts b (omega arith)
    node_loop-find (suc fuel) p (node_end ∷ ts) (here, at, fits, b) enough =
        node_loop-find (suc fuel) (after p node_end) ts b (omega arith)
    node_loop-find (suc fuel) p (nop ∷ ts) (here, at, fits, b) enough =
        node_loop-find (suc fuel) (after p nop) ts b (omega arith)

    -- In a device tree whose root begins the structure block, `get_node` ends within one round
    -- more than there are tokens, and gives the first node whose name begins with the name asked
    -- for, the root's empty name standing for "/", or null if there is none.
    pub get_node-find :
        (fuel fdt_base : ℕ) (root : List ℕ) (ts : List Token)
        → is_using_fdt m fdt_base ≡ true
        → Block len m (get_root_node m fdt_base) (node_begin root ∷ ts)
        → length ts + 1 < fuel
        → get_node len m lit fuel name fdt_base
          ≡ some (find_node xs (get_root_node m fdt_base) (node_begin root ∷ ts))
    unfolding get_node
    get_node-find fuel fdt_base root ts using b enough =
        ground (arith, node_loop-find fuel (get_root_node m fdt_base) (node_begin root ∷ ts) b)
