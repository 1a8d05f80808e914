-- ===== src/Fdt.antt =====
-- source/util/fdt.c and include/util/fdt.h: the flattened device tree. Its words are big-endian. A
-- null pointer is 0, and `none` means that a loop's fuel ran out.
pub mod Tokens
pub mod Search
pub mod Properties
pub mod Dump
use sugarcat.Common.{
  ℕ, zero, suc, ◌+◌, ◌-◌, ◌*◌, ◌^◌, ◌%◌, Bool, true, false, not, ◌||◌, Option, none, some, bit_and,
  ◌==◌, if◌then◌else◌, u32, not32, ◌>>=◌,
}
use sugarcat.Common.Int.{ℤ, pos, negsuc}
use sugarcat.Memory.{Memory, load32}
use sugarcat.Util.Bits.{be32_to_cpu}
use sugarcat.Str.{strlen, strcmp}

abbrev pub fdt_header_magic : ℕ
fdt_header_magic = 0xD00DFEED

abbrev pub fdt_begin_node : ℕ
fdt_begin_node = 1

abbrev pub fdt_end_node : ℕ
fdt_end_node = 2

abbrev pub fdt_prop : ℕ
fdt_prop = 3

abbrev pub fdt_end : ℕ
fdt_end = 9

-- Where the compiler puts the string literals.
pub record Literals : Type 0 where
  pub slash : ℕ
  pub size_cells : ℕ

abbrev pub is_zero : ℤ → Bool
is_zero (pos n) = n == 0
is_zero (negsuc n) = false

-- A word of the tree: its tag, or a field of its header.
abbrev pub be32 : Memory → ℕ → ℕ
be32 m a = be32_to_cpu (load32 m a)

abbrev pub align_up : ℕ → ℕ → ℕ
align_up addr align = bit_and (u32 (addr + (align - 1))) (not32 (align - 1))

unfoldable pub is_using_fdt : Memory → ℕ → Bool
is_using_fdt m fdt_base = be32 m fdt_base == fdt_header_magic

unfoldable pub get_root_node : Memory → ℕ → ℕ
unfolding is_using_fdt
get_root_node m fdt_base =
    if is_using_fdt m fdt_base then u32 (fdt_base + be32 m (fdt_base + 8)) else 0

unfoldable pub get_string : Memory → ℕ → ℕ → ℕ
get_string m fdt_base offset = u32 (fdt_base + offset + be32 m (fdt_base + 12))

-- Each `strlen` and `strcmp` has `len` rounds.
module _ (len : ℕ) (m : Memory) where
  unfoldable pub get_tag_size : ℕ → Option ℕ
  get_tag_size node =
      if node == 0
      then some 0
      else if be32 m node == fdt_begin_node
      then (strlen len m (node + 4) >>= λ n. some (u32 (4 + (n + 1))))
      else if be32 m node == fdt_prop
      then some (u32 (12 + be32 m (node + 4)))
      else some 4

  unfoldable pub next_tag : ℕ → Option ℕ
  next_tag node =
      if node == 0
      then some 0
      else if be32 m node == fdt_end
      then some 0
      else (get_tag_size node >>= λ size. some (align_up (node + size) 4))

  -- The loop of `fdt_get_next_node`.
  unfoldable pub next_node_loop : ℕ → ℕ → Option ℕ
  next_node_loop zero iter = none
  next_node_loop (suc fuel) iter =
      let rest = next_tag iter >>= λ iter'. next_node_loop fuel iter' in
      if iter == 0
      then some 0
      else (if be32 m iter == fdt_end
          then some 0
          else (if be32 m iter == fdt_begin_node then some iter else rest))

  unfoldable pub get_next_node : ℕ → ℕ → Option ℕ
  get_next_node fuel node =
      if node == 0 then some 0 else (next_tag node >>= λ iter. next_node_loop fuel iter)

  -- The loop of `fdt_get_next_property`.
  unfoldable pub next_property_loop : ℕ → ℕ → Option ℕ
  next_property_loop zero iter = none
  next_property_loop (suc fuel) iter =
      let rest = next_tag iter >>= λ iter'. next_property_loop fuel iter' in
      if iter == 0
      then some 0
      else (if be32 m iter == fdt_end_node || be32 m iter == fdt_begin_node
          then some 0
          else (if be32 m iter == fdt_prop then some iter else rest))

  unfoldable pub get_next_property : ℕ → ℕ → Option ℕ
  get_next_property fuel prop =
      if prop == 0 then some 0 else (next_tag prop >>= λ iter. next_property_loop fuel iter)

  -- Whether `fdt_get_node` takes a node, by the two tests in its loop.
  unfoldable pub is_named : Literals → ℕ → ℕ → Option Bool
  is_named lit name iter = strcmp len m name (iter + 4) >>= λ c.
      if is_zero c
      then some true
      else (strcmp len m name lit.slash >>= λ d.
          if is_zero d then (strlen len m (iter + 4) >>= λ n. some (n == 0)) else some false)

  -- The loop of `fdt_get_node`.
  unfoldable pub node_loop : Literals → ℕ → ℕ → ℕ → Option ℕ
  node_loop lit zero name iter = none
  node_loop lit (suc fuel) name iter =
      let rest = get_next_node fuel iter >>= λ iter'. node_loop lit fuel name iter' in
      if iter == 0
      then some 0
      else (is_named lit name iter >>= λ found. if found then some iter else rest)

  unfoldable pub get_node : Literals → ℕ → ℕ → ℕ → Option ℕ
  get_node lit fuel name fdt_base =
      if name == 0
      then some 0
      else (if is_using_fdt m fdt_base
          then node_loop lit fuel name (get_root_node m fdt_base)
          else some 0)

  -- Whether the loop of `fdt_get_property` takes a tag.
  unfoldable pub is_property : ℕ → ℕ → ℕ → Option Bool
  is_property fdt_base node property =
      let prop_str = get_string m fdt_base (be32 m (node + 8)) in
      if be32 m node == fdt_prop
      then (if prop_str == 0
          then some false
          else (strcmp len m property prop_str >>= λ c. some (is_zero c)))
      else some false

  -- The loop of `fdt_get_property`.
  unfoldable pub property_loop : ℕ → ℕ → ℕ → ℕ → Option ℕ
  property_loop zero fdt_base node property = none
  property_loop (suc fuel) fdt_base node property =
      let rest = next_tag node >>= λ node'. property_loop fuel fdt_base node' property in
      if node == 0
      then some 0
      else (if be32 m node == fdt_end_node || be32 m node == fdt_begin_node
          then some 0
          else (is_property fdt_base node property >>= λ found. if found then some node else rest))

  unfoldable pub get_property : ℕ → ℕ → ℕ → ℕ → Option ℕ
  get_property fuel fdt_base node property =
      if node == 0
      then some 0
      else (if property == 0
          then some 0
          else (if be32 m node == fdt_begin_node
              then (next_tag node >>= λ first. property_loop fuel fdt_base first property)
              else some 0))

  unfoldable pub get_cell_size : Literals → ℕ → ℕ → ℕ → Option ℕ
  get_cell_size lit fuel fdt_base node =
      if node == 0
      then some 0
      else (get_property fuel fdt_base node lit.size_cells >>= λ own.
          if own == 0
          then (get_property fuel fdt_base (get_root_node m fdt_base) lit.size_cells >>= λ prop.
              some (if prop == 0 then 0 else be32 m (prop + 12)))
          else some 0)
