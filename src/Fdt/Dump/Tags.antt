-- ===== src/Fdt/Dump/Tags.antt =====
-- What `dump_fdt` prints for one tag.
use Prim.{tt}
use mathlib.Core.List.{append-nil}
use sugarcat.Common.{
  ℕ, zero, suc, ◌+◌, ◌<◌, ◌≡◌, ◌≢◌, refl, sym, ◌∙◌, some, List, [], ◌∷◌, ◌++◌, length, arith,
}
use sugarcat.Console.{Port}
use sugarcat.Fdt.{be32, get_string}
use sugarcat.Fdt.Dump.{Formats, push_tab, dump_tag}
use sugarcat.Fdt.Dump.Lines.{
  indent, line, depth, push_tab-indent, pop_tab-indent, Off, be32-Same, CStr-Same,
}
use sugarcat.Fdt.Dump.Steps.{
  tag_begin, tag_end, tag_prop, tag_other, begin_root, begin_named, end_pop, prop_name,
}
use sugarcat.Fdt.Tokens.{Token, node_begin, property, node_end, nop, width, At}
use sugarcat.Memory.{Memory, store8}
use sugarcat.Memory.Laws.{load8-store8_ne}
use sugarcat.Str.Length.{strlen-length}
use sugarcat.Str.Pieces.{
  plain, conv, text, letter, word, shown, format_of, words_of, printed_of, Good,
}
use sugarcat.Fdt.Dump.Setting.{Setting, Printable, AtDepth, print, indent-Good, strlen-indent}

module _ (fuel buf tabs fdt_base : ℕ) (fmt : Formats) (str : ℕ → List ℕ) (m : Memory)
    (set : Setting fuel buf tabs fdt_base fmt m) where
  -- What a tag leaves: its line is sent, and the depth is the one after it.
  unfoldable pub Dumps : ℕ → ℕ → Token → Port → Type 0
  Dumps d p t s =
      (s' : Port) × (dump_tag fuel buf tabs fdt_base fmt p s ≡ some s')
      × AtDepth buf tabs m (depth d t) s'
      × (s'.sent ≡ s.sent ++ line str d t)

  push_tab-AtDepth :
      (d : ℕ) (s : Port)
      → AtDepth buf tabs m d s
      → d < 254
      → AtDepth buf tabs m (suc d) (record s { mem = push_tab tabs d s.mem })
  push_tab-AtDepth d s at deep =
      let m1 = store8 s.mem (tabs + d) 9 in
      record {
        small = omega arith;
        same = λ a ob ot.
            load8-store8_ne m1 (tabs + d + 1) a 0 (omega arith)
            ∙ load8-store8_ne s.mem (tabs + d) a 9 (omega arith)
            ∙ at.same a ob ot;
        tab = push_tab-indent d tabs s.mem at.tab;
      }

  dump_tag-begin :
      (d p : ℕ) (name : List ℕ) (s : Port)
      → AtDepth buf tabs m d s
      → At fuel m p (node_begin name)
      → Printable fuel buf tabs fdt_base str m d p (node_begin name)
      → Dumps d p (node_begin name) s
  unfolding Dumps depth line format_of letter words_of word printed_of shown
  dump_tag-begin d p [] s at (tag, c, short) (small, deep, (off_buf, off_tabs)) =
      let now = be32-Same buf tabs m s.mem at.same p (omega arith, omega arith) ∙ tag in
      let empty =
        strlen-length fuel (p + 4) s.mem [] (λ e. absurd (omega arith))
          (CStr-Same buf tabs m s.mem at.same (p + 4) [] (omega arith, omega arith) c) small
          short in
      let (s', run, at', out) =
        print fuel buf tabs fdt_base fmt m set d fmt.open_root s
          (plain b'/' ∷ plain b' ' ∷ plain b'{' ∷ plain 10 ∷ []) at set.open_root (omega arith)
          (omega arith, (omega arith, (omega arith, (omega arith, tt)))) in
      (
        record s' { mem = push_tab tabs d s'.mem },
        tag_begin fuel buf tabs fdt_base fmt p s now
            ∙ begin_root fuel buf tabs fdt_base fmt p d s s'
                (strlen-indent fuel buf tabs fdt_base fmt m set d s at) empty run,
        push_tab-AtDepth d s' at' deep,
        out,
      )
  dump_tag-begin d p (x ∷ xs) s at (tag, c, short) (small, deep, (off_buf, off_tabs)) =
      let now = be32-Same buf tabs m s.mem at.same p (omega arith, omega arith) ∙ tag in
      let there : p + 4 ≢ 0 = λ e. absurd (omega arith) in
      let c' = CStr-Same buf tabs m s.mem at.same (p + 4) (x ∷ xs) (omega arith, omega arith) c in
      let some_chars = strlen-length fuel (p + 4) s.mem (x ∷ xs) there c' small short in
      let rest : Good fuel buf s.mem (plain b' ' ∷ plain b'{' ∷ plain 10 ∷ []) =
        (omega arith, (omega arith, (omega arith, tt))) in
      let (s', run, at', out) =
        print fuel buf tabs fdt_base fmt m set d fmt.open_node s
          (conv (text tabs (indent d))
            ∷ conv (text (p + 4) (x ∷ xs))
            ∷ plain b' '
            ∷ plain b'{'
            ∷ plain 10
            ∷ [])
          at set.open_node (omega arith)
          (indent-Good fuel buf tabs fdt_base fmt m set d s
            (conv (text (p + 4) (x ∷ xs)) ∷ plain b' ' ∷ plain b'{' ∷ plain 10 ∷ []) at
            ((there, c', small, short, omega arith), rest)) in
      (
        record s' { mem = push_tab tabs d s'.mem },
        tag_begin fuel buf tabs fdt_base fmt p s now
            ∙ begin_named fuel buf tabs fdt_base fmt p d (length (x ∷ xs)) s s'
                (strlen-indent fuel buf tabs fdt_base fmt m set d s at) some_chars (omega arith)
                run,
        push_tab-AtDepth d s' at' deep,
        out,
      )

  dump_tag-end :
      (d p : ℕ) (s : Port)
      → AtDepth buf tabs m d s
      → At fuel m p node_end
      → Printable fuel buf tabs fdt_base str m d p node_end
      → Dumps d p node_end s
  unfolding Dumps depth line format_of letter words_of word printed_of shown
  dump_tag-end zero p s at tag (begun, off) = absurd (omega arith)
  dump_tag-end (suc d) p s at tag (begun, (off_buf, off_tabs)) =
      let now = be32-Same buf tabs m s.mem at.same p (omega arith, omega arith) ∙ tag in
      let small = at.small in
      let popped : AtDepth buf tabs m d (record s { mem = store8 s.mem (tabs + d) 0 }) = record {
        small = omega arith;
        same = λ a ob ot. load8-store8_ne s.mem (tabs + d) a 0 (omega arith) ∙ at.same a ob ot;
        tab = pop_tab-indent d tabs s.mem at.tab;
      } in
      let s1 = record s { mem = store8 s.mem (tabs + d) 0 } in
      let rest : Good fuel buf s1.mem (plain b'}' ∷ plain b';' ∷ plain 10 ∷ []) =
        (omega arith, (omega arith, (omega arith, tt))) in
      let (s', run, at', out) =
        print fuel buf tabs fdt_base fmt m set d fmt.close_node s1
          (conv (text tabs (indent d)) ∷ plain b'}' ∷ plain b';' ∷ plain 10 ∷ []) popped
          set.close_node (omega arith)
          (indent-Good fuel buf tabs fdt_base fmt m set d s1
            (plain b'}' ∷ plain b';' ∷ plain 10 ∷ []) popped rest) in
      (
        s',
        tag_end fuel buf tabs fdt_base fmt p s now
            ∙ end_pop fuel buf tabs fdt_base fmt d s s'
                (strlen-indent fuel buf tabs fdt_base fmt m set (suc d) s at) (omega arith) run,
        at',
        out,
      )

  get_string-same :
      (m' : Memory) (off : ℕ)
      → be32 m' (fdt_base + 12) ≡ be32 m (fdt_base + 12)
      → get_string m' fdt_base off ≡ get_string m fdt_base off
  unfolding get_string
  get_string-same m' off same = rw same refl

  dump_tag-property :
      (d p size off : ℕ) (s : Port)
      → AtDepth buf tabs m d s
      → At fuel m p (property size off)
      → Printable fuel buf tabs fdt_base str m d p (property size off)
      → Dumps d p (property size off) s
  unfolding Dumps depth line format_of letter words_of word printed_of shown
  dump_tag-property d p size off s at (tag, sz, name)
        ((some_name, c, small, short, off_name), (off_buf, off_tabs)) =
      let now = be32-Same buf tabs m s.mem at.same p (omega arith, omega arith) ∙ tag in
      let offset = be32-Same buf tabs m s.mem at.same (p + 8) (omega arith, omega arith) ∙ name in
      let q = get_string m fdt_base off in
      let (header_buf, header_tabs) = set.header in
      let string : get_string s.mem fdt_base off ≡ q =
        get_string-same s.mem off (be32-Same buf tabs m s.mem at.same (fdt_base + 12) set.header) in
      let c' = CStr-Same buf tabs m s.mem at.same q (str off) off_name c in
      let rest : Good fuel buf s.mem (plain 10 ∷ []) = (omega arith, tt) in
      let (s', run, at', out) =
        print fuel buf tabs fdt_base fmt m set d fmt.prop_line s
          (conv (text tabs (indent d)) ∷ conv (text q (str off)) ∷ plain 10 ∷ []) at set.prop_line
          (omega arith)
          (indent-Good fuel buf tabs fdt_base fmt m set d s
            (conv (text q (str off)) ∷ plain 10 ∷ []) at
            ((some_name, c', small, short, off_name.0), rest)) in
      (
        s',
        tag_prop fuel buf tabs fdt_base fmt p s now
            ∙ prop_name fuel buf tabs fdt_base fmt p off q s s' offset string run,
        at',
        out,
      )

  dump_tag-nop :
      (d p : ℕ) (s : Port)
      → AtDepth buf tabs m d s
      → At fuel m p nop
      → Printable fuel buf tabs fdt_base str m d p nop
      → Dumps d p nop s
  unfolding Dumps depth line
  dump_tag-nop d p s at tag (off_buf, off_tabs) =
      let now = be32-Same buf tabs m s.mem at.same p (omega arith, omega arith) ∙ tag in
      (s, tag_other fuel buf tabs fdt_base fmt p 4 s now (omega arith), at, sym (append-nil s.sent))

  pub step :
      (d p : ℕ) (t : Token) (s : Port)
      → AtDepth buf tabs m d s
      → At fuel m p t
      → Printable fuel buf tabs fdt_base str m d p t
      → Dumps d p t s × Off buf tabs p (width t)
  step d p (node_begin name) s at tag fine = (dump_tag-begin d p name s at tag fine, fine.2)
  step d p (property size off) s at tag fine =
      (dump_tag-property d p size off s at tag fine, fine.1)
  step d p node_end s at tag fine = (dump_tag-end d p s at tag fine, fine.1)
  step d p nop s at tag fine = (dump_tag-nop d p s at tag fine, fine)
