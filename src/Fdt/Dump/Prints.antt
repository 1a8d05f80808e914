-- ===== src/Fdt/Dump/Prints.antt =====
-- What `dump_fdt` prints for a tree.
use mathlib.Core.List.{append_assoc, append-nil}
use sugarcat.Common.{
  ℕ, zero, suc, ◌+◌, ◌<◌, ◌≡◌, ◌≢◌, refl, ap, sym, ◌∙◌, some, List, [], ◌∷◌, ◌++◌, length, arith,
  ==_ne,
}
use sugarcat.Console.{Port}
use sugarcat.Fdt.{be32, get_root_node, next_tag}
use sugarcat.Fdt.Dump.{Formats, dump_fdt_loop, dump_fdt}
use sugarcat.Fdt.Dump.Lines.{indent, line, depth, lines, Same, be32-Same, At-Same}
use sugarcat.Fdt.Dump.Steps.{tag_other, loop_step, loop_null}
use sugarcat.Fdt.Tokens.{Token, after, Block, next_tag-after}
use sugarcat.Memory.{Memory}
use sugarcat.Str.Length.{CStr}
use sugarcat.Fdt.Dump.Setting.{Setting, Fine, AtDepth}
use sugarcat.Fdt.Dump.Tags.{Dumps, step}

module _ (fuel buf tabs fdt_base : ℕ) (fmt : Formats) (str : ℕ → List ℕ) (m : Memory)
    (set : Setting fuel buf tabs fdt_base fmt m) where
  next_tag-end : (p : ℕ) (m' : Memory) → be32 m' p ≡ 9 → p ≢ 0 → next_tag fuel m' p ≡ some 0
  unfolding next_tag
  next_tag-end p m' now there = rw (==_ne p 0 there, now) refl

  dump_fdt_loop-lines :
      (left d p : ℕ) (s : Port) (ts : List Token)
      → AtDepth buf tabs m d s
      → Block fuel m p ts
      → Fine fuel buf tabs fdt_base str m d p ts
      → length ts + 1 < left
      → (s' : Port) × (dump_fdt_loop fuel buf tabs fdt_base fmt left p s ≡ some s')
        × Same buf tabs m s'.mem
        × (s'.sent ≡ s.sent ++ lines str d ts)
  unfolding lines Dumps
  dump_fdt_loop-lines zero d p s ts at block fine enough = absurd (omega arith)
  dump_fdt_loop-lines (suc zero) d p s [] at block fine enough = absurd (omega arith)
  dump_fdt_loop-lines (suc (suc left)) d p s [] at (here, end) (off_buf, off_tabs) enough =
      let there : p ≢ 0 = λ e. absurd (omega arith) in
      let now = be32-Same buf tabs m s.mem at.same p (omega arith, omega arith) ∙ end in
      (
        s,
        loop_step fuel buf tabs fdt_base fmt (suc left) p 0 s s there
              (tag_other fuel buf tabs fdt_base fmt p 9 s now (omega arith))
              (next_tag-end p s.mem now there)
            ∙ loop_null fuel buf tabs fdt_base fmt left s,
        at.same,
        sym (append-nil s.sent),
      )
  dump_fdt_loop-lines (suc left) d p s (t ∷ ts) at (here, tag, fits, block) (fine, rest) enough =
      let ((s1, run, at1, out), off) =
        step fuel buf tabs fdt_base fmt str m set d p t s at tag fine in
      let there : p ≢ 0 = λ e. absurd (omega arith) in
      let next =
        next_tag-after fuel p s1.mem t here (At-Same buf tabs m s1.mem at1.same fuel p t off tag)
          fits in
      let (s2, run2, same, out2) =
        dump_fdt_loop-lines left (depth d t) (after p t) s1 ts at1 block rest (omega arith) in
      (
        s2,
        loop_step fuel buf tabs fdt_base fmt left p (after p t) s s1 there run next ∙ run2,
        same,
        out2
            ∙ ap (λ o. o ++ lines str (depth d t) ts) out
            ∙ append_assoc s.sent (line str d t) (lines str (depth d t) ts),
      )

  -- Of a tree that stands in memory as a list of tokens, `dump_fdt` prints each token's line with
  -- the indentation of its depth, in order, and changes nothing but its buffer of tabs and the
  -- console's, if the buffer of tabs is empty at first, nodes are nested at most 254 deep, each end
  -- has its begin, and what is read lies apart from both buffers.
  pub dump_fdt-lines :
      (sent : List ℕ) (ts : List Token)
      → CStr m tabs []
      → Block fuel m (get_root_node m fdt_base) ts
      → Fine fuel buf tabs fdt_base str m 0 (get_root_node m fdt_base) ts
      → length ts + 1 < fuel
      → (s' : Port) × (dump_fdt fuel buf tabs fdt_base fmt (record { mem = m; sent = sent })
          ≡ some s')
        × Same buf tabs m s'.mem
        × (s'.sent ≡ sent ++ lines str 0 ts)
  unfolding dump_fdt indent
  dump_fdt-lines sent ts empty block fine enough =
      let at : AtDepth buf tabs m 0 (record { mem = m; sent = sent }) = record {
        small = omega arith;
        same = λ a ob ot. refl;
        tab = empty;
      } in
      dump_fdt_loop-lines fuel 0 (get_root_node m fdt_base) (record { mem = m; sent = sent }) ts at
        block fine enough
