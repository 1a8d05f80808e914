-- ===== src/Fdt/Dump/Setting.antt =====
-- What `dump_fdt` relies on, and its calls of the console.
use sugarcat.Common.{
  ℕ, ◌+◌, ◌^◌, ◌≤◌, ◌<◌, ◌≡◌, ◌≢◌, ◌⊎◌, ap, ◌∙◌, some, List, [], ◌∷◌, ◌++◌, length, arith,
}
use sugarcat.Console.{Port, mach_early_kprintf}
use sugarcat.Console.Prints.{mach_early_kprintf-printed_of}
use sugarcat.Fdt.{get_string}
use sugarcat.Fdt.Dump.{Formats}
use sugarcat.Fdt.Dump.Lines.{indent, length-indent, depth, Off, Same, CStr-Same}
use sugarcat.Fdt.Tokens.{Token, node_begin, property, node_end, nop, width, after}
use sugarcat.Memory.{Memory}
use sugarcat.Str.{strlen}
use sugarcat.Str.Length.{CStr, strlen-length}
use sugarcat.Str.Pieces.{Piece, conv, text, format_of, words_of, printed_of, Good, CStr-Kept}

-- A format where it stands, apart from the buffers.
pub record Literal (buf tabs : ℕ) (m : Memory) (l : ℕ) (cs : List ℕ) : Type 0 where
  pub there : l ≢ 0
  pub chars : CStr m l cs
  pub off : Off buf tabs l (length cs)

-- The formats stand in memory, and nothing that is read lies in the buffers, which are apart.
pub record Setting (fuel buf tabs fdt_base : ℕ) (fmt : Formats) (m : Memory) : Type 0 where
  pub rounds : 255 < fuel
  pub some_buf : buf ≢ 0
  pub some_tabs : tabs ≢ 0
  pub clear : (tabs + 256 ≤ buf) ⊎ (buf + 12 ≤ tabs)
  pub header : Off buf tabs (fdt_base + 12) 3
  pub open_node :
      Literal buf tabs m fmt.open_node (b'%' ∷ b's' ∷ b'%' ∷ b's' ∷ b' ' ∷ b'{' ∷ 10 ∷ [])
  pub open_root : Literal buf tabs m fmt.open_root (b'/' ∷ b' ' ∷ b'{' ∷ 10 ∷ [])
  pub close_node : Literal buf tabs m fmt.close_node (b'%' ∷ b's' ∷ b'}' ∷ b';' ∷ 10 ∷ [])
  pub prop_line : Literal buf tabs m fmt.prop_line (b'%' ∷ b's' ∷ b'%' ∷ b's' ∷ 10 ∷ [])

module _ (fuel buf tabs fdt_base : ℕ) (str : ℕ → List ℕ) (m : Memory) where
  -- A string to print.
  abbrev pub Name : ℕ → List ℕ → Type 0
  Name p xs =
      (p ≢ 0) × CStr m p xs × (length xs < 2 ^ 32) × (length xs < fuel) × Off buf tabs p (length xs)

  -- What a token needs at depth `d`: its bytes and its strings are apart from the buffers, a node
  -- has a depth of at most 254, and one that ends has begun.
  abbrev pub Printable : ℕ → ℕ → Token → Type 0
  Printable d p (node_begin name) =
      (length name < 2 ^ 32) × (d < 254) × Off buf tabs p (width (node_begin name))
  Printable d p (property size off) =
      Name (get_string m fdt_base off) (str off) × Off buf tabs p (width (property size off))
  Printable d p node_end = (0 < d) × Off buf tabs p 4
  Printable d p nop = Off buf tabs p 4

  abbrev pub Fine : ℕ → ℕ → List Token → Type 0
  Fine d p [] = Off buf tabs p 4
  Fine d p (t ∷ ts) = Printable d p t × Fine (depth d t) (after p t) ts

module _ (buf tabs : ℕ) (m : Memory) where
  -- The port while the loop runs, at depth `d`.
  pub record AtDepth (d : ℕ) (s : Port) : Type 0 where
    pub small : d < 255
    pub same : Same buf tabs m s.mem
    pub tab : CStr s.mem tabs (indent d)

module _ (fuel buf tabs fdt_base : ℕ) (fmt : Formats) (m : Memory)
    (set : Setting fuel buf tabs fdt_base fmt m) where
  -- One call of the console keeps it so.
  pub print :
      (d l : ℕ) (s : Port) (ps : List Piece)
      → AtDepth buf tabs m d s
      → Literal buf tabs m l (format_of ps)
      → length (format_of ps) < 255
      → Good fuel buf s.mem ps
      → (s' : Port) × (mach_early_kprintf fuel buf l (words_of ps) s ≡ some s')
        × AtDepth buf tabs m d s'
        × (s'.sent ≡ s.sent ++ printed_of ps)
  print d l s ps at lit short good =
      let rounds = set.rounds in
      let (off_buf, off_tabs) = lit.off in
      let chars = CStr-Same buf tabs m s.mem at.same l (format_of ps) lit.off lit.chars in
      let (s', run, run', kept, out) =
        mach_early_kprintf-printed_of fuel buf set.some_buf (omega arith) l s ps lit.there good
          chars off_buf (omega arith) (omega arith) in
      let clear = set.clear in
      let len = length-indent d in
      let small = at.small in
      let at' : AtDepth buf tabs m d s' = record {
        small = small;
        same = λ a ob ot. kept a ob ∙ at.same a ob ot;
        tab = CStr-Kept buf 12 s.mem s'.mem tabs (indent d) kept (omega arith) at.tab;
      } in
      (s', run, at', out)

  -- The indentation and a name, as arguments of `%s`.
  pub indent-Good :
      (d : ℕ) (s : Port) (ps : List Piece)
      → AtDepth buf tabs m d s
      → Good fuel buf s.mem ps
      → Good fuel buf s.mem (conv (text tabs (indent d)) ∷ ps)
  indent-Good d s ps at good =
      let rounds = set.rounds in
      let clear = set.clear in
      let len = length-indent d in
      let small = at.small in ((set.some_tabs, at.tab, omega arith, omega arith, omega arith), good)

  pub strlen-indent : (d : ℕ) (s : Port) → AtDepth buf tabs m d s → strlen fuel s.mem tabs ≡ some d
  strlen-indent d s at =
      let rounds = set.rounds in
      let len = length-indent d in
      let small = at.small in
      strlen-length fuel tabs s.mem (indent d) set.some_tabs at.tab (omega arith) (omega arith)
      ∙ ap some len
