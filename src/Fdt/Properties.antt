-- ===== src/Fdt/Properties.antt =====
-- The searches for a property and for the cell size.
use Prim.{Unit}
use sugarcat.Common.{
  ℕ, zero, suc, ◌+◌, ◌^◌, ◌<◌, ◌≡◌, ◌≢◌, some, List, [], ◌∷◌, length, ◌==◌, if◌then◌else◌, arith,
  refl, ==_ne,
}
use sugarcat.Memory.{Memory}
use sugarcat.Str.Length.{CStr}
use sugarcat.Str.Compare.{diff, strcmp-diff}
use sugarcat.Fdt.{
  be32, is_zero, Literals, get_root_node, get_string, next_tag, is_property, property_loop,
  get_property, get_cell_size,
}
use sugarcat.Fdt.Tokens.{
  Token, node_begin, property, node_end, nop, after, At, Block, next_tag-after,
}

-- The strings block has the names of a list's properties: `names` gives the one at each offset.
abbrev pub Named : Memory → ℕ → (ℕ → List ℕ) → List Token → Type 0
Named m fdt_base names [] = Unit
Named m fdt_base names (property size off ∷ ts) =
    (get_string m fdt_base off ≢ 0)
    × CStr m (get_string m fdt_base off) (names off)
    × Named m fdt_base names ts
Named m fdt_base names (t ∷ ts) = Named m fdt_base names ts

-- The first property that `xs` is a prefix of, before a node begins or ends, or null.
abbrev pub find_property : (ℕ → List ℕ) → List ℕ → ℕ → List Token → ℕ
find_property names xs p [] = 0
find_property names xs p (node_begin ys ∷ ts) = 0
find_property names xs p (node_end ∷ ts) = 0
find_property names xs p (property size off ∷ ts) =
    if is_zero (diff xs (names off))
    then p
    else find_property names xs (after p (property size off)) ts
find_property names xs p (nop ∷ ts) = find_property names xs (after p nop) ts

module _ (len : ℕ) (m : Memory) (fdt_base : ℕ) (names : ℕ → List ℕ) (xs : List ℕ)
    (short : length xs < len) (word : len < 2 ^ 32) where
  is_property-takes :
      (name p size off : ℕ)
      → name ≢ 0
      → CStr m name xs
      → get_string m fdt_base off ≢ 0
      → CStr m (get_string m fdt_base off) (names off)
      → At len m p (property size off)
      → is_property len m fdt_base p name ≡ some (is_zero (diff xs (names off)))
  unfolding is_property
  is_property-takes name p size off n0 n s0 s (tag, _, offset) =
      rw
        (
          tag,
          offset,
          ==_ne (get_string m fdt_base off) 0 s0,
          strcmp-diff len name (get_string m fdt_base off) m xs (names off) n0 s0 n s (omega arith)
              short,
        )
        refl

  module _ (name : ℕ) (n0 : name ≢ 0) (n : CStr m name xs) where
    property_loop-find :
        (fuel p : ℕ) (ts : List Token)
        → Block len m p ts
        → Named m fdt_base names ts
        → length ts + 1 < fuel
        → property_loop len m fuel fdt_base p name ≡ some (find_property names xs p ts)
    unfolding property_loop next_tag is_property
    property_loop-find zero p ts b named enough = absurd (omega arith)
    property_loop-find (suc zero) p ts b named enough = absurd (omega arith)
    property_loop-find (suc (suc fuel)) p [] b named enough = ground arith
    property_loop-find (suc (suc fuel)) p (node_begin ys ∷ ts) b named enough = ground arith
    property_loop-find (suc (suc fuel)) p (node_end ∷ ts) b named enough = ground arith
    property_loop-find (suc (suc fuel)) p (property size off ∷ ts) (here, at, fits, b)
          (s0, s, named) enough =
        let t = property size off in
        ground (
          arith,
          is_property-takes name p size off n0 n s0 s at,
          next_tag-after len p m t here at fits,
          property_loop-find (suc fuel) (after p t) ts b named,
        )
    property_loop-find (suc (suc fuel)) p (nop ∷ ts) (here, at, fits, b) named enough = ground (
      arith,
      next_tag-after len p m nop here at fits,
      property_loop-find (suc fuel) (after p nop) ts b named,
    )

    -- At a node, `get_property` ends within two rounds more than there are tokens after the
    -- node's, and gives the first property of the node whose name begins with the name asked for,
    -- or null if there is none before a node begins or ends.
    pub get_property-find :
        (fuel node : ℕ) (ys : List ℕ) (ts : List Token)
        → Block len m node (node_begin ys ∷ ts)
        → Named m fdt_base names ts
        → length ts + 1 < fuel
        → get_property len m fuel fdt_base node name
          ≡ some (find_property names xs (after node (node_begin ys)) ts)
    unfolding get_property
    get_property-find fuel node ys ts (here, at, fits, b) named enough = ground (
      arith,
      ==_ne name 0 n0,
      next_tag-after len node m (node_begin ys) here at fits,
      property_loop-find fuel (after node (node_begin ys)) ts b named enough,
    )

-- `get_cell_size` gives the root's size cells for a node that has none of its own, and 0 for a node
-- that has.
pub get_cell_size-root :
    (fuel len : ℕ) (m : Memory) (lit : Literals) (fdt_base node : ℕ) (names : ℕ → List ℕ)
    (xs ys root : List ℕ) (ts rs : List Token)
    → len < 2 ^ 32
    → length xs < len
    → lit.size_cells ≢ 0
    → CStr m lit.size_cells xs
    → Block len m node (node_begin ys ∷ ts)
    → Named m fdt_base names ts
    → length ts + 1 < fuel
    → Block len m (get_root_node m fdt_base) (node_begin root ∷ rs)
    → Named m fdt_base names rs
    → length rs + 1 < fuel
    → let own = find_property names xs (after node (node_begin ys)) ts in
      let dflt = find_property names xs (after (get_root_node m fdt_base) (node_begin root)) rs in
      get_cell_size len m lit fuel fdt_base node
      ≡ some (if own == 0 then (if dflt == 0 then 0 else be32 m (dflt + 12)) else 0)
unfolding get_cell_size
get_cell_size-root fuel len m lit fdt_base node names xs ys root ts rs word short l0 l b named
      enough broot rnamed renough =
    ground (
      arith,
      get_property-find len m fdt_base names xs short word lit.size_cells l0 l fuel node ys ts b
          named enough,
      get_property-find len m fdt_base names xs short word lit.size_cells l0 l fuel
          (get_root_node m fdt_base) root rs broot rnamed renough,
    )
