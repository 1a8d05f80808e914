-- ===== src/Examples/Trees.antt =====
-- A small device tree: a root with one property and the node "cpu".
use Prim.{tt}
use sugarcat.Common.{
  ℕ, ◌+◌, ◌≡◌, ◌↔◌, ◌++◌, refl, arith, true, some, List, [], ◌∷◌, if◌then◌else◌, ◌==◌,
}
use sugarcat.Common.Int.{pos}
use sugarcat.Memory.{Memory, load8, store8, load32, store32}
use sugarcat.Util.Bits.{be32_to_cpu, endswap32, little}
use sugarcat.Str.{strcmp}
use sugarcat.Str.Length.{CStr}
use sugarcat.Str.Compare.{strcmp_zero_iff}
use sugarcat.Fdt.{
  be32, Literals, is_using_fdt, get_root_node, get_string, get_node, get_property, get_cell_size,
}
use sugarcat.Fdt.Tokens.{Token, node_begin, property, node_end, Block, after}
use sugarcat.Fdt.Search.{find_node, get_node-find}
use sugarcat.Fdt.Properties.{Named, find_property, get_property-find, get_cell_size-root}

-- The literals "#" and "/", the name "cpu" and the strings block's "#".
abbrev names_mem : Memory
names_mem =
    store32 (store32 (store32 (store32 (λ _. 0) 0x180 0x23) 0x200 0x23) 0x210 0x757063) 0x220 0x2F

abbrev header_mem : Memory
header_mem =
    store32 (store32 (store32 names_mem 0x100 0xEDFE0DD0) 0x108 0x40000000) 0x10C 0x80000000

abbrev root_mem : Memory
root_mem =
    store32
      (store32 (store32 (store32 header_mem 0x140 0x01000000) 0x148 0x03000000) 0x14C 0x04000000)
      0x154 0x01000000

abbrev tree_mem : Memory
tree_mem =
    store32
      (store32
        (store32 (store32 (store32 root_mem 0x158 0x01000000) 0x15C 0x757063) 0x160 0x02000000)
        0x164 0x02000000)
      0x168 0x09000000

abbrev cpu : List ℕ
cpu = 0x63 ∷ 0x70 ∷ 0x75 ∷ []

abbrev inner : List Token
inner = node_end ∷ node_end ∷ []

abbrev tokens : List Token
tokens = property 4 0 ∷ node_begin cpu ∷ inner

abbrev literals : Literals
literals = record { slash = 0x220; size_cells = 0x200 }

abbrev hash : List ℕ
hash = 0x23 ∷ []

hash_string : (CStr tree_mem 0x200 hash) × (CStr tree_mem 0x180 hash)
unfolding load8 store32 store8
hash_string = ((refl, omega arith, refl), (refl, omega arith, refl))

cpu_string : (CStr tree_mem 0x210 cpu) × (CStr tree_mem 0x15C cpu)
unfolding load8 store32 store8
cpu_string = (
  (refl, omega arith, (refl, omega arith, (refl, omega arith, refl))),
  (refl, omega arith, (refl, omega arith, (refl, omega arith, refl))),
)

slash_string : CStr tree_mem 0x220 (b'/' ∷ [])
unfolding load8 store32 store8
slash_string = (refl, omega arith, refl)

tree_base :
    (is_using_fdt tree_mem 0x100 ≡ true)
    × (get_root_node tree_mem 0x100 ≡ 0x140)
    × (get_string tree_mem 0x100 0 ≡ 0x180)
unfolding is_using_fdt get_root_node get_string be32_to_cpu endswap32 little load32 load8 store32
    store8
tree_base = (refl, refl, refl)

inner-Block : Block 8 tree_mem 0x160 inner
unfolding be32_to_cpu endswap32 little load32 load8 store32 store8
inner-Block =
    (omega arith, refl, omega arith, (omega arith, refl, omega arith, (omega arith, refl)))

cpu-Block : Block 8 tree_mem 0x158 (node_begin cpu ∷ inner)
unfolding be32_to_cpu endswap32 little load32 load8 store32 store8
cpu-Block = (omega arith, (refl, cpu_string.1, omega arith), omega arith, inner-Block)

tree-Block : Block 8 tree_mem 0x140 (node_begin [] ∷ tokens)
unfolding be32_to_cpu endswap32 little load32 load8 store32 store8
tree-Block = (
  omega arith,
  (refl, refl, omega arith),
  omega arith,
  (omega arith, (refl, refl, refl), omega arith, cpu-Block),
)

root-Block : Block 8 tree_mem (get_root_node tree_mem 0x100) (node_begin [] ∷ tokens)
root-Block = rw tree_base.1 tree-Block

tokens-Named : Named tree_mem 0x100 (λ _. hash) tokens
tokens-Named = (rw tree_base.2 (omega arith), rw tree_base.2 hash_string.1, tt)

get_node-find_example :
    get_node 8 tree_mem literals 6 0x210 0x100
    ≡ some (find_node cpu (get_root_node tree_mem 0x100) (node_begin [] ∷ tokens))
get_node-find_example =
    get_node-find 8 tree_mem cpu (omega arith) (omega arith) literals 0x210 (omega arith)
      (omega arith) cpu_string.0 slash_string 6 0x100 [] tokens tree_base.0 root-Block (omega arith)

get_property-find_example : get_property 8 tree_mem 6 0x100 0x140 0x200 ≡ some 0x148
get_property-find_example =
    get_property-find 8 tree_mem 0x100 (λ _. hash) hash (omega arith) (omega arith) 0x200
      (omega arith) hash_string.0 6 0x140 [] tokens tree-Block tokens-Named (omega arith)

get_cell_size-root_example :
    let own = find_property (λ _. hash) hash (after 0x158 (node_begin cpu)) inner in
    let dflt =
      find_property
        (λ _. hash)
        hash
        (after (get_root_node tree_mem 0x100) (node_begin []))
        tokens in
    get_cell_size 8 tree_mem literals 6 0x100 0x158
    ≡ some (if own == 0 then (if dflt == 0 then 0 else be32 tree_mem (dflt + 12)) else 0)
get_cell_size-root_example =
    get_cell_size-root 6 8 tree_mem literals 0x100 0x158 (λ _. hash) hash cpu [] inner tokens
      (omega arith) (omega arith) (omega arith) hash_string.0 cpu-Block tt (omega arith) root-Block
      tokens-Named (omega arith)

strcmp_zero_iff_example :
    (strcmp 4 tree_mem 0x200 0x180 ≡ some (pos 0)) ↔ ((zs : List ℕ) × (hash ≡ hash ++ zs))
strcmp_zero_iff_example =
    strcmp_zero_iff 4 0x200 0x180 tree_mem hash hash (omega arith) (omega arith) hash_string.0
      hash_string.1 (omega arith) (omega arith)
