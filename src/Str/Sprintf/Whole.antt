-- ===== src/Str/Sprintf/Whole.antt =====
-- What `sprintf` of source/util/str.c leaves in memory, for a whole format.
use Prim.{tt}
use native.Mathlib.Nat.{add-zero}
use sugarcat.Common.{
  ℕ, zero, suc, ◌+◌, ◌≤◌, ◌<◌, ◌≡◌, ◌≢◌, ◌⊎◌, refl, sym, ◌∙◌, subst, some, List, [], ◌∷◌, length,
  length-append, arith, ==_ne,
}
use sugarcat.Memory.{Memory, store8}
use sugarcat.Memory.Laws.{load8-lt, load8-store8, load8-store8_ne}
use sugarcat.Str.Format.{sprintf_loop, sprintf}
use sugarcat.Str.Length.{CStr}
use sugarcat.Str.Pieces.{
  Argument, Piece, plain, conv, shown, format_of, words_of, printed_of, Apart, Good, CStr-same,
}
use sugarcat.Str.Sprintf.{
  Wrote, Wrote-append, Away, Good-same, sprintf_loop-end, sprintf_loop-plain, sprintf_loop-conv,
  convert_arg-Wrote,
}

Away-tail :
    (q size : ℕ) (a : Argument) (ps : List Piece) → Away q size (conv a ∷ ps) → Away q size ps
Away-tail q size (Argument.hex w) ps away = away
Away-tail q size (Argument.int w) ps away = away
Away-tail q size (Argument.text p xs) ps (off, away) = away
Away-tail q size (Argument.char w) ps away = away

module _ (fuel buf out_str size format : ℕ) (there : buf ≢ 0) (some_out : out_str ≢ 0)
    (enough : 11 < fuel) (clear : (out_str + size ≤ buf) ⊎ (buf + 12 ≤ out_str)) where
  -- What the loop needs of memory to write the pieces `ps`, from `in_index` and `out_index` on.
  record Ready (in_index out_index : ℕ) (m : Memory) (ps : List Piece) : Type 0 where
    good : Good fuel buf m ps
    away : Away out_str size ps
    text : CStr m (format + in_index) (format_of ps)
    off_buf : Apart (format + in_index) (length (format_of ps)) buf 12
    off_out : Apart (format + in_index) (length (format_of ps)) out_str size
    fits : out_index + length (printed_of ps) ≤ size

  -- A write of `xs` keeps it so for the rest.
  Ready-step :
      (in_index out_index k : ℕ) (m m1 : Memory) (xs : List ℕ) (ps : List Piece)
      → Wrote buf (out_str + out_index) m m1 xs
      → Good fuel buf m ps
      → Away out_str size ps
      → CStr m (format + in_index + k) (format_of ps)
      → Apart (format + in_index) (length (format_of ps) + k) buf 12
      → Apart (format + in_index) (length (format_of ps) + k) out_str size
      → out_index + length xs + length (printed_of ps) ≤ size
      → Ready (in_index + k) (out_index + length xs) m1 ps
  Ready-step in_index out_index k m m1 xs ps w good away text off_buf off_out fits =
      let at : format + in_index + k ≡ format + (in_index + k) = omega arith in
      record {
        good =
            Good-same fuel buf out_str size m m1 ps (λ a off out. w.kept a off (omega arith)) away
              good;
        away = away;
        text =
            CStr-same m m1 (format + (in_index + k)) (format_of ps)
              (λ a from upto. w.kept a (omega arith) (omega arith))
              (subst (λ q. CStr m q (format_of ps)) at text);
        off_buf = omega arith;
        off_out = omega arith;
        fits = fits;
      }

  sprintf_loop-printed_of :
      (left in_index out_index : ℕ) (m : Memory) (ps : List Piece)
      → Ready in_index out_index m ps
      → length (format_of ps) < left
      → (m' : Memory) × (sprintf_loop fuel buf out_str left format in_index
            (words_of ps)
            out_index
            m
          ≡ some m')
        × Wrote buf (out_str + out_index) m m' (printed_of ps)
  unfolding format_of words_of printed_of
  sprintf_loop-printed_of zero in_index out_index m ps r short = absurd (omega arith)
  sprintf_loop-printed_of (suc left) in_index out_index m [] r short = (
    m,
    sprintf_loop-end fuel buf out_str left format in_index out_index [] m r.text,
    record { bytes = tt; kept = λ a off out. refl },
  )
  sprintf_loop-printed_of (suc left) in_index out_index m (plain x ∷ ps) r short =
      let (now, some_x, text) = r.text in
      let (other, good) = r.good in
      let dest = out_str + out_index in
      let m1 = store8 m dest x in
      let byte : x < 256 = subst (λ c. c < 256) now (load8-lt m (format + in_index)) in
      let w : Wrote buf dest m m1 (x ∷ []) = record {
        bytes = (load8-store8 m dest x byte, tt);
        kept = λ a off out. load8-store8_ne m dest a x (omega arith);
      } in
      let ready =
        Ready-step in_index out_index 1 m m1 (x ∷ []) ps w good r.away text
          (omega (arith, r.off_buf)) (omega (arith, r.off_out)) (omega (arith, r.fits)) in
      let (m2, run, w') =
        sprintf_loop-printed_of left (in_index + 1) (out_index + 1) m1 ps ready (omega arith) in
      let at : out_str + (out_index + 1) ≡ dest + 1 = omega arith in
      (
        m2,
        sprintf_loop-plain fuel buf out_str left format in_index out_index x (words_of ps) m now
              some_x other
            ∙ run,
        Wrote-append buf dest m m1 m2 (x ∷ []) (printed_of ps) (omega (arith, r.fits)) w
            (subst (λ q. Wrote buf q m1 m2 (printed_of ps)) at w'),
      )
  sprintf_loop-printed_of (suc left) in_index out_index m (conv a ∷ ps) r short =
      let (now, some_x, (there_a, some_a, text)) = r.text in
      let (can, good) = r.good in
      let dest = out_str + out_index in
      let n = length (shown a) in
      let fits : out_index + n + length (printed_of ps) ≤ size =
        omega (arith, r.fits, length-append (shown a) (printed_of ps)) in
      let (m1, step, w) =
        convert_arg-Wrote fuel buf out_str size there some_out enough clear m out_index a ps can
          r.away (omega arith) in
      let at : format + in_index + 1 + 1 ≡ format + in_index + 2 = omega arith in
      let ready =
        Ready-step in_index out_index 2 m m1 (shown a) ps w good
          (Away-tail out_str size a ps r.away) (subst (λ q. CStr m q (format_of ps)) at text)
          (omega (arith, r.off_buf)) (omega (arith, r.off_out)) fits in
      let (m2, run, w') =
        sprintf_loop-printed_of left (in_index + 2) (out_index + n) m1 ps ready (omega arith) in
      let past : out_str + (out_index + n) ≡ dest + n = omega arith in
      (
        m2,
        sprintf_loop-conv fuel buf out_str left format in_index out_index (out_index + n) a
              (words_of ps) m m1 now there_a step
            ∙ run,
        Wrote-append buf dest m m1 m2 (shown a) (printed_of ps) (omega arith) w
            (subst (λ q. Wrote buf q m1 m2 (printed_of ps)) past w'),
      )

  -- The format of the pieces `ps` is handed over with their arguments: `sprintf` returns `out_str`,
  -- where it leaves what the pieces stand for, in order; nothing else changes but the twelve bytes
  -- from `buf` on, so that no null byte is put after the output. The room for the output, the format, the strings
  -- and `buf` lie apart, and no `%i` is given the least `int`.
  pub sprintf-printed_of :
      (m : Memory) (ps : List Piece)
      → format ≢ 0
      → Good fuel buf m ps
      → Away out_str size ps
      → CStr m format (format_of ps)
      → Apart format (length (format_of ps)) buf 12
      → Apart format (length (format_of ps)) out_str size
      → length (printed_of ps) ≤ size
      → length (format_of ps) < fuel
      → (m' : Memory) × (sprintf fuel buf out_str format (words_of ps) m ≡ some (out_str, m'))
        × Wrote buf out_str m m' (printed_of ps)
  unfolding sprintf
  sprintf-printed_of m ps some_format good away text off_buf off_out fits short =
      let ready : Ready 0 0 m ps = record {
        good = good;
        away = away;
        text = subst (λ q. CStr m q (format_of ps)) (sym (add-zero format)) text;
        off_buf = omega arith;
        off_out = omega arith;
        fits = omega arith;
      } in
      let (m', run, w) = sprintf_loop-printed_of fuel 0 0 m ps ready short in
      (
        m',
        rw (==_ne out_str 0 some_out, ==_ne format 0 some_format, run) refl,
        subst (λ q. Wrote buf q m m' (printed_of ps)) (add-zero out_str) w,
      )
