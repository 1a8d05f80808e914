-- ===== src/Examples/Dumps.antt =====
-- A device tree with one property, printed.
use sugarcat.Common.{ℕ, ◌≡◌, refl, inl, arith, some, List, [], ◌∷◌, ◌++◌}
use sugarcat.Console.{Port}
use sugarcat.Fdt.{get_root_node, get_string, is_using_fdt}
use sugarcat.Fdt.Dump.{Formats, dump_fdt}
use sugarcat.Fdt.Dump.Lines.{Same, lines, depth}
use sugarcat.Fdt.Dump.Prints.{dump_fdt-lines}
use sugarcat.Fdt.Dump.Setting.{Setting, Fine}
use sugarcat.Fdt.Tokens.{Token, node_begin, property, node_end, Block}
use sugarcat.Memory.{Memory, load8, store8, load32, store32}
use sugarcat.Util.Bits.{be32_to_cpu, endswap32, little}

abbrev put : List (ℕ × ℕ) → Memory
put [] = λ _. 0
put ((a, w) ∷ ws) = store32 (put ws) a w

-- The header at 0x100, the tree at 0x140 and the name "#" at 0x180.
abbrev blob : List (ℕ × ℕ)
blob =
    (0x100, 0xEDFE0DD0)
    ∷ (0x108, 0x40000000)
    ∷ (0x10C, 0x80000000)
    ∷ (0x140, 0x01000000)
    ∷ (0x148, 0x03000000)
    ∷ (0x14C, 0x04000000)
    ∷ (0x158, 0x02000000)
    ∷ (0x15C, 0x09000000)
    ∷ (0x180, 0x23)
    ∷ []

-- The four formats.
abbrev texts : List (ℕ × ℕ)
texts =
    (0x200, 0x73257325)
    ∷ (0x204, 0x0A7B20)
    ∷ (0x210, 0x0A7B202F)
    ∷ (0x220, 0x3B7D7325)
    ∷ (0x224, 0x0A)
    ∷ (0x230, 0x73257325)
    ∷ (0x234, 0x0A)
    ∷ []

abbrev board_mem : Memory
board_mem = put (blob ++ texts)

abbrev formats : Formats
formats = record { open_node = 0x200; open_root = 0x210; close_node = 0x220; prop_line = 0x230 }

abbrev tree : List Token
tree = node_begin [] ∷ property 4 0 ∷ node_end ∷ []

abbrev names : ℕ → List ℕ
names off = b'#' ∷ []

setting : Setting 256 0x2000 0x1000 0x100 formats board_mem
unfolding load8 store32 store8
setting = record {
  rounds = omega arith;
  some_buf = omega arith;
  some_tabs = omega arith;
  clear = inl (omega arith);
  header = (omega arith, omega arith);
  open_node = record {
    there = omega arith;
    chars = (
      refl,
      omega arith,
      (
        refl,
        omega arith,
        (
          refl,
          omega arith,
          (refl, omega arith, (refl, omega arith, (refl, omega arith, (refl, omega arith, refl)))),
        ),
      ),
    );
    off = (omega arith, omega arith);
  };
  open_root = record {
    there = omega arith;
    chars =
        (refl, omega arith, (refl, omega arith, (refl, omega arith, (refl, omega arith, refl))));
    off = (omega arith, omega arith);
  };
  close_node = record {
    there = omega arith;
    chars = (
      refl,
      omega arith,
      (refl, omega arith, (refl, omega arith, (refl, omega arith, (refl, omega arith, refl)))),
    );
    off = (omega arith, omega arith);
  };
  prop_line = record {
    there = omega arith;
    chars = (
      refl,
      omega arith,
      (refl, omega arith, (refl, omega arith, (refl, omega arith, (refl, omega arith, refl)))),
    );
    off = (omega arith, omega arith);
  };
}

blob_places : (get_root_node board_mem 0x100 ≡ 0x140) × (get_string board_mem 0x100 0 ≡ 0x180)
unfolding is_using_fdt get_root_node get_string be32_to_cpu endswap32 little load32 load8 store32
    store8
blob_places = (refl, refl)

tree-Block : Block 256 board_mem 0x140 tree
unfolding be32_to_cpu endswap32 little load32 load8 store32 store8
tree-Block = (
  omega arith,
  (refl, refl, omega arith),
  omega arith,
  (
    omega arith,
    (refl, refl, refl),
    omega arith,
    (omega arith, refl, omega arith, (omega arith, refl)),
  ),
)

tree-Fine : Fine 256 0x2000 0x1000 0x100 names board_mem 0 0x140 tree
unfolding load8 store32 store8 depth
tree-Fine = (
  (omega arith, omega arith, (omega arith, omega arith)),
  (
    (
      rw blob_places.1 (
        omega arith,
        (refl, omega arith, refl),
        omega arith,
        omega arith,
        (omega arith, omega arith),
      ),
      (omega arith, omega arith),
    ),
    ((omega arith, (omega arith, omega arith)), (omega arith, omega arith)),
  ),
)

dump_fdt-lines_example :
    (s' : Port) × (dump_fdt 256 0x2000 0x1000 0x100 formats (record { mem = board_mem; sent = [] })
      ≡ some s')
    × Same 0x2000 0x1000 board_mem s'.mem
    × (s'.sent ≡ lines names 0 tree)
unfolding load8 store32 store8
dump_fdt-lines_example =
    dump_fdt-lines 256 0x2000 0x1000 0x100 formats names board_mem setting [] tree refl
      (rw blob_places.0 tree-Block) (rw blob_places.0 tree-Fine) (omega arith)
