-- ===== src/Fdt/Dump.antt =====
-- `dump_fdt` of source/util/fdt.c, which prints the tree on the console. `tabs` is the address of
-- the buffer of that name, `buf` that of the console's buffer, and `fuel` the rounds of each call.
pub mod Lines
pub mod Steps
pub mod Setting
pub mod Tags
pub mod Prints
use sugarcat.Common.{
  ℕ, zero, suc, ◌+◌, ◌-◌, ◌^◌, Option, none, some, List, [], ◌∷◌, ltb, ◌==◌, if◌then◌else◌, u32,
  ◌>>=◌,
}
use sugarcat.Console.{Port, mach_early_kprintf}
use sugarcat.Fdt.{be32, fdt_begin_node, fdt_end_node, fdt_prop, get_root_node, get_string, next_tag}
use sugarcat.Memory.{Memory, store8}
use sugarcat.Str.{strlen}

-- Where the compiler puts the formats "%s%s {\n", "/ {\n", "%s};\n" and "%s%s\n".
pub record Formats : Type 0 where
  pub open_node : ℕ
  pub open_root : ℕ
  pub close_node : ℕ
  pub prop_line : ℕ

-- `tabs[sz] = '\t'; tabs[sz + 1] = '\0';`
abbrev pub push_tab : ℕ → ℕ → Memory → Memory
push_tab tabs sz m = store8 (store8 m (tabs + sz) 9) (tabs + sz + 1) 0

module _ (fuel buf tabs fdt_base : ℕ) (fmt : Formats) where
  unfoldable pub dump_begin : ℕ → Port → Option Port
  dump_begin node s =
      let open_ = mach_early_kprintf fuel buf fmt.open_node (tabs ∷ (node + 4) ∷ []) s in
      let root = mach_early_kprintf fuel buf fmt.open_root [] s in
      strlen fuel s.mem tabs >>= λ sz. strlen fuel s.mem (node + 4) >>= λ n.
      (if ltb 0 n then open_ else root) >>= λ s'. some (record s' { mem = push_tab tabs sz s'.mem })

  unfoldable pub dump_end : Port → Option Port
  dump_end s = strlen fuel s.mem tabs >>= λ sz.
      mach_early_kprintf fuel buf fmt.close_node (tabs ∷ [])
        (record s { mem = store8 s.mem (tabs + u32 (sz + (2 ^ 32 - 1))) 0 })

  unfoldable pub dump_prop : ℕ → Port → Option Port
  dump_prop node s =
      mach_early_kprintf fuel buf fmt.prop_line
        (tabs ∷ get_string s.mem fdt_base (be32 s.mem (node + 8)) ∷ []) s

  -- What the loop does with one tag.
  unfoldable pub dump_tag : ℕ → Port → Option Port
  dump_tag node s =
      let tag = be32 s.mem node in
      if tag == fdt_begin_node
      then dump_begin node s
      else if tag == fdt_end_node
      then dump_end s
      else if tag == fdt_prop
      then dump_prop node s
      else some s

  unfoldable pub dump_fdt_loop : ℕ → ℕ → Port → Option Port
  dump_fdt_loop zero node s = none
  dump_fdt_loop (suc left) node s =
      let rest = dump_tag node s >>= λ s'.
      next_tag fuel s'.mem node >>= λ node'. dump_fdt_loop left node' s' in
      if node == 0 then some s else rest

  unfoldable pub dump_fdt : Port → Option Port
  unfolding dump_fdt_loop
  dump_fdt s = dump_fdt_loop fuel (get_root_node s.mem fdt_base) s
