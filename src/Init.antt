-- ===== src/Init.antt =====
-- The parts of the initialisation that read the boot loader's tables and fill in the kernel's page
-- tables: source/mach/vexpress_a9/init/vexpress_init.c and source/kernel/memlayout.c. The output
-- structure goes in and comes out, and `none` means that a loop's fuel ran out.
pub mod Regions
pub mod Tables
pub mod Start
pub mod Kernel
use sugarcat.Common.{
  ℕ, zero, suc, ◌+◌, Bool, Option, none, some, List, [], ◌∷◌, ltb, ◌==◌, if◌then◌else◌, u32, sub32,
  ◌>>=◌,
}
use sugarcat.Errno.{Errno, esucc, einval, enotfnd}
use sugarcat.Memory.{Memory, load8}
use sugarcat.Util.Bits.{be32_to_cpu}
use sugarcat.Region.{MmReg}
use sugarcat.MemLayout.{Symbols}
use sugarcat.Str.Format.{sprintf}
use sugarcat.Atag
use sugarcat.Atag.{
  atag_mem, atag_initrd2, mem_start, mem_sz, initrd_start, initrd_sz, is_using_atag,
}
use sugarcat.Fdt
use sugarcat.Fdt.{Literals, be32, is_using_fdt}

-- The structure's contents, or a null pointer, with the error.
abbrev pub Result : Type 0
Result = Errno × Option MmReg

-- What the loop of `init_get_mem_atag` does with a further region.
unfoldable pub coalesce : MmReg → MmReg → MmReg
coalesce fnd more =
    if u32 (fnd.base + fnd.size) == more.base
    then record fnd { size = u32 (fnd.size + more.size) }
    else if ltb fnd.size more.size
    then more
    else fnd

abbrev pub mem_of : Memory → ℕ → MmReg
mem_of m sch = record { base = mem_start m sch; size = mem_sz m sch }

module _ (fuel : ℕ) (m : Memory) where
  unfoldable pub mem_atag_loop : ℕ → ℕ → MmReg → Option MmReg
  mem_atag_loop zero sch fnd = none
  mem_atag_loop (suc left) sch fnd = Atag.get_next_tag fuel m sch atag_mem >>= λ sch'.
      let rest = mem_atag_loop left sch' (coalesce fnd (mem_of m sch')) in
      if sch' == 0 then some fnd else rest

  unfoldable pub get_mem_atag : ℕ → Option MmReg → Option Result
  get_mem_atag atag_base none = some (einval, none)
  get_mem_atag atag_base (some reg) = Atag.get_tag fuel m atag_base atag_mem >>= λ sch.
      if sch == 0
      then some (enotfnd, some reg)
      else (mem_atag_loop fuel sch (mem_of m sch) >>= λ fnd. some (esucc, some fnd))

  unfoldable pub get_initrd_atag : ℕ → Option MmReg → Option Result
  get_initrd_atag atag_base none = some (einval, none)
  get_initrd_atag atag_base (some reg) = Atag.get_tag fuel m atag_base atag_initrd2 >>= λ sch.
      some (
        if sch == 0
        then (enotfnd, some reg)
        else (esucc, some (record { base = initrd_start m sch; size = initrd_sz m sch })))

  unfoldable pub get_initrd : ℕ → Option MmReg → Option Result
  get_initrd atag_fdt_base mem_reg = get_initrd_atag atag_fdt_base mem_reg

  -- The `reg` property of a node, read into the structure.
  unfoldable pub read_reg : ℕ → ℕ → ℕ → MmReg → Option Result
  read_reg fdt_base reg_name node reg =
      if node == 0
      then some (enotfnd, some reg)
      else (Fdt.get_property fuel m fuel fdt_base node reg_name >>= λ prop. some (
          if prop == 0
          then (enotfnd, some reg)
          else (esucc, some (record { base = be32 m (prop + 12); size = be32 m (prop + 16) }))))

-- Where the literals, the format and the buffers of the memory searches are.
pub record MemNames : Type 0 where
  pub lit : Literals
  pub format : ℕ
  pub memory : ℕ
  pub reg : ℕ
  pub buf : ℕ
  pub digits : ℕ

-- The node named after `start`, or else the one named "memory", and its `reg`.
unfoldable pub find_mem : ℕ → MemNames → ℕ → ℕ → MmReg → Memory → Option (Result × Memory)
find_mem fuel names start fdt_base reg m =
    sprintf fuel names.digits names.buf names.format (start ∷ []) m >>= λ (_, m').
    Fdt.get_node fuel m' names.lit fuel names.buf fdt_base >>= λ node.
    (if node == 0 then Fdt.get_node fuel m' names.lit fuel names.memory fdt_base else some node)
    >>= λ found. read_reg fuel m' fdt_base names.reg found reg >>= λ r. some (r, m')

unfoldable pub get_mem_fdt : ℕ → Symbols → MemNames → ℕ → MmReg → Memory → Option (Result × Memory)
get_mem_fdt fuel sym names fdt_base reg m = find_mem fuel names sym.kv_start fdt_base reg m

unfoldable pub get_phy_mem_reg :
    ℕ → Symbols → MemNames → ℕ → MmReg → Memory → Option (Result × Memory)
get_phy_mem_reg fuel sym names fdt_base reg m = find_mem fuel names sym.kp_start fdt_base reg m

unfoldable pub get_mem :
    ℕ → Symbols → MemNames → ℕ → Option MmReg → Memory → Option (Result × Memory)
get_mem fuel sym names atag_fdt_base none m = some ((einval, none), m)
get_mem fuel sym names atag_fdt_base (some reg) m =
    if is_using_fdt m atag_fdt_base
    then get_mem_fdt fuel sym names atag_fdt_base reg m
    else (if is_using_atag m atag_fdt_base
        then (get_mem_atag fuel m atag_fdt_base (some reg) >>= λ r. some (r, m))
        else some ((enotfnd, some reg), m))

-- Where the literals of `mlay_get_initrd_reg` are.
pub record InitrdNames : Type 0 where
  pub lit : Literals
  pub chosen : ℕ
  pub linux_start : ℕ
  pub linux_end : ℕ
  pub plain_start : ℕ

-- `be32_to_cpu(*prop->data)`, where `data` is an array of characters.
abbrev pub be_byte : Memory → ℕ → ℕ
be_byte m prop = be32_to_cpu (load8 m (prop + 12))

module _ (fuel : ℕ) (m : Memory) (names : InitrdNames) (fdt_base : ℕ) where
  -- What follows when "linux,initrd-start" is the property `s_prop`.
  unfoldable pub read_initrd : ℕ → ℕ → MmReg → Option (Errno × MmReg)
  read_initrd node s_prop reg =
      Fdt.get_property fuel m fuel fdt_base node names.linux_end >>= λ e_prop. some (
        if e_prop == 0 then (enotfnd, reg) else (
          esucc,
          record { base = be_byte m s_prop; size = sub32 (be_byte m e_prop) (be_byte m s_prop) },
        ))

  -- What follows when there is no such property.
  unfoldable pub other_initrd : ℕ → MmReg → Option (Errno × MmReg)
  other_initrd node reg = Fdt.get_property fuel m fuel fdt_base node names.plain_start >>= λ s_prop.
      some (if s_prop == 0 then enotfnd else esucc, reg)

  unfoldable pub get_initrd_reg : MmReg → Option (Errno × MmReg)
  get_initrd_reg reg = Fdt.get_node fuel m names.lit fuel names.chosen fdt_base >>= λ node.
      if node == 0
      then some (enotfnd, reg)
      else (Fdt.get_property fuel m fuel fdt_base node names.linux_start >>= λ s_prop.
          if s_prop == 0 then other_initrd node reg else read_initrd node s_prop reg)
