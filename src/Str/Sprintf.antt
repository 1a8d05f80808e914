-- ===== src/Str/Sprintf.antt =====
-- What `sprintf` of source/util/str.c leaves in memory, piece by piece.
pub mod Whole
use Prim.{Unit, tt}
use native.Mathlib.Nat.{add-zero, zero-add}
use sugarcat.Common.{
  ℕ, zero, suc, ◌+◌, ◌-◌, ◌*◌, ◌^◌, ◌≤◌, ◌<◌, ◌≡◌, ◌≢◌, ◌⊎◌, inl, inr, refl, ap, sym, ◌∙◌, subst,
  Bool, true, false, Option, none, some, List, [], ◌∷◌, ◌++◌, length, length-append, arith, u8,
  ◌==◌, ltb, leb, ◌&&◌, if◌then◌else◌, ==_ne, ◌>>=◌,
}
use sugarcat.Mem.{memset}
use sugarcat.Mem.Blocks.{memset_at}
use sugarcat.Memory.{Memory, load8, store8}
use sugarcat.Memory.Laws.{load8-lt, load8-store8, load8-store8_ne}
use sugarcat.Str.{itoa, itox, magnitude, strlen, strncpy}
use sugarcat.Str.Bytes.{Bytes, Bytes-append, Bytes-same}
use sugarcat.Str.Format.{
  to_int, takes_arg, put_number, put_str, convert_arg, convert, sprintf_loop, sprintf,
}
use sugarcat.Str.Length.{CStr, strlen-length}
use sugarcat.Str.Moves.{strncpy_at}
use sugarcat.Str.Numbers.{decimal, hexadecimal, Printed, itoa-decimal, itox-hexadecimal}
use sugarcat.Str.Pieces.{
  Argument, hex, int, text, char, Piece, plain, conv, letter, word, shown, format_of, words_of,
  printed_of, Apart, Kept, Printable, Good, letter-takes_arg, memset-Kept, Printable-Kept,
  CStr-Kept, CStr-same, length-decimal, length-hexadecimal, to_int-magnitude,
}

-- The bytes `xs` stand at `p`, and otherwise memory has changed at most in the twelve bytes from
-- `buf` on.
pub record Wrote (buf p : ℕ) (m m' : Memory) (xs : List ℕ) : Type 0 where
  pub bytes : Bytes m' p xs
  pub kept :
      (a : ℕ) → (a < buf) ⊎ (buf + 12 ≤ a) → (a < p) ⊎ (p + length xs ≤ a) → load8 m' a ≡ load8 m a

pub Wrote-append :
    (buf p : ℕ) (m m1 m2 : Memory) (xs ys : List ℕ)
    → (p + length xs ≤ buf) ⊎ (buf + 12 ≤ p)
    → Wrote buf p m m1 xs
    → Wrote buf (p + length xs) m1 m2 ys
    → Wrote buf p m m2 (xs ++ ys)
Wrote-append buf p m m1 m2 xs ys clear w w' =
    let longer = length-append xs ys in
    let kept_xs =
      Bytes-same m1 m2 p xs (λ a from upto. w'.kept a (omega arith) (omega arith)) w.bytes in
    record {
      bytes = Bytes-append m2 p xs ys kept_xs w'.bytes;
      kept = λ a off out. w'.kept a off (omega arith) ∙ w.kept a off (omega arith);
    }

-- The strings to print lie apart from the `size` bytes from `q` on.
abbrev pub Away : ℕ → ℕ → List Piece → Type 0
Away q size [] = Unit
Away q size (plain c ∷ ps) = Away q size ps
Away q size (conv (hex w) ∷ ps) = Away q size ps
Away q size (conv (int w) ∷ ps) = Away q size ps
Away q size (conv (text p xs) ∷ ps) = Apart p (length xs) q size × Away q size ps
Away q size (conv (char w) ∷ ps) = Away q size ps

Bytes-copy :
    (m m' : Memory) (p q : ℕ) (xs : List ℕ)
    → CStr m p xs
    → ((j : ℕ) → j < length xs → load8 m' (q + j) ≡ load8 m (p + j))
    → Bytes m' q xs
Bytes-copy m m' p q [] s same = tt
Bytes-copy m m' p q (c ∷ cs) (here, some_c, s) same =
    let first : load8 m' q ≡ c =
      ap (load8 m') (sym (add-zero q)) ∙ same 0 (omega arith) ∙ ap (load8 m) (add-zero p) ∙ here in
    let rest = λ (j : ℕ) (low : j < length cs).
      let one : q + 1 + j ≡ q + (j + 1) = omega arith in
      let two : p + (j + 1) ≡ p + 1 + j = omega arith in
      ap (load8 m') one ∙ same (j + 1) (omega arith) ∙ ap (load8 m) two in
    (first, Bytes-copy m m' (p + 1) (q + 1) cs s rest)

-- `strncpy` of the whole string, without its null byte.
strncpy-Bytes :
    (m : Memory) (dest src : ℕ) (xs : List ℕ)
    → dest ≢ 0
    → src ≢ 0
    → CStr m src xs
    → (dest + length xs ≤ src) ⊎ (src + length xs < dest)
    → Bytes (strncpy dest src (length xs) m).1 dest xs
      × ((a : ℕ)
          → (a < dest) ⊎ (dest + length xs ≤ a)
          → load8 (strncpy dest src (length xs) m).1 a ≡ load8 m a)
strncpy-Bytes m dest src xs d0 s0 s apart =
    let n = length xs in
    let at = λ (a : ℕ). strncpy_at dest src n a m xs d0 s0 s apart in
    let copied = λ (j : ℕ) (low : j < n).
      let back : dest + j - dest ≡ j = omega arith in
      ground (arith, at (dest + j)) ∙ ap (λ k. load8 m (src + k)) back in
    (Bytes-copy m (strncpy dest src n m).1 src dest xs s copied, λ a out. ground (arith, at a))

-- After a piece was written, the rest can still be printed.
pub Good-same :
    (fuel buf q size : ℕ) (m m' : Memory) (ps : List Piece)
    → ((a : ℕ) → (a < buf) ⊎ (buf + 12 ≤ a) → (a < q) ⊎ (q + size ≤ a) → load8 m' a ≡ load8 m a)
    → Away q size ps
    → Good fuel buf m ps
    → Good fuel buf m' ps
Good-same fuel buf q size m m' [] same away good = tt
Good-same fuel buf q size m m' (plain c ∷ ps) same away (other, good) =
    (other, Good-same fuel buf q size m m' ps same away good)
Good-same fuel buf q size m m' (conv (hex w) ∷ ps) same away (ok, good) =
    (ok, Good-same fuel buf q size m m' ps same away good)
Good-same fuel buf q size m m' (conv (int w) ∷ ps) same away (ok, good) =
    (ok, Good-same fuel buf q size m m' ps same away good)
Good-same fuel buf q size m m' (conv (text p xs) ∷ ps) same (off, away)
      ((some_p, s, small, short, apart), good) =
    (
      (
        some_p,
        CStr-same m m' p xs (λ a from upto. same a (omega arith) (omega arith)) s,
        small,
        short,
        apart,
      ),
      Good-same fuel buf q size m m' ps same away good,
    )
Good-same fuel buf q size m m' (conv (char w) ∷ ps) same away (ok, good) =
    (ok, Good-same fuel buf q size m m' ps same away good)

module _ (fuel buf out_str size : ℕ) (there : buf ≢ 0) (some_out : out_str ≢ 0) (enough : 11 < fuel)
    (clear : (out_str + size ≤ buf) ⊎ (buf + 12 ≤ out_str)) where
  -- The string that a number leaves in `buf` is copied out.
  number-Wrote :
      (m m1 : Memory) (out_index : ℕ) (xs : List ℕ)
      → Printed (memset m buf 0 11) m1 buf xs
      → length xs ≤ 11
      → out_index + length xs ≤ size
      → (strlen fuel m1 buf ≡ some (length xs))
        × Wrote buf (out_str + out_index) m (strncpy (out_str + out_index) buf (length xs) m1).1 xs
  number-Wrote m m1 out_index xs p short fits =
      let (bytes, same) =
        strncpy-Bytes m1 (out_str + out_index) buf xs (λ e. absurd (omega arith)) there p.text
          (omega arith) in
      (
        strlen-length fuel buf m1 xs there p.text (omega arith) (omega arith),
        record {
          bytes = bytes;
          kept =
              λ a off out. same a out ∙ p.same a (omega arith) ∙ memset-Kept buf m a (omega arith);
        },
      )

  pub convert_arg-Wrote :
      (m : Memory) (out_index : ℕ) (a : Argument) (ps : List Piece)
      → Printable fuel buf m a
      → Away out_str size (conv a ∷ ps)
      → out_index + length (shown a) ≤ size
      → (m' : Memory) × (convert_arg fuel buf out_str (letter a) (word a) out_index m
          ≡ some (out_index + length (shown a), m'))
        × Wrote buf (out_str + out_index) m m' (shown a)
  unfolding convert_arg letter word shown put_number put_str
  convert_arg-Wrote m out_index (hex w) ps ok away fits =
      let (m1, run, p) = itox-hexadecimal fuel w buf (memset m buf 0 11) there ok enough in
      let (len, wrote) =
        number-Wrote m m1 out_index (hexadecimal w) p (omega (arith, length-hexadecimal w)) fits in
      ((strncpy (out_str + out_index) buf (length (hexadecimal w)) m1).1, rw (run, len) refl, wrote)
  convert_arg-Wrote m out_index (int w) ps (small, least) away fits =
      let val = to_int w in
      let (m1, run, p) =
        itoa-decimal fuel val buf (memset m buf 0 11) there (to_int-magnitude w small least)
          enough in
      let (len, wrote) = number-Wrote m m1 out_index (decimal val) p (length-decimal val) fits in
      ((strncpy (out_str + out_index) buf (length (decimal val)) m1).1, rw (run, len) refl, wrote)
  convert_arg-Wrote m out_index (text p xs) ps (some_p, s, small, short, apart) (off, away) fits =
      let (bytes, same) =
        strncpy-Bytes m (out_str + out_index) p xs (λ e. absurd (omega arith)) some_p s
          (omega arith) in
      (
        (strncpy (out_str + out_index) p (length xs) m).1,
        rw (strlen-length fuel p m xs some_p s small short) refl,
        record { bytes = bytes; kept = λ a off out. same a out },
      )
  convert_arg-Wrote m out_index (char w) ps ok away fits =
      let dest = out_str + out_index in
      (
        store8 m dest (u8 w),
        refl,
        record {
          bytes = (load8-store8 m dest (u8 w) (omega arith), tt);
          kept = λ a off out. load8-store8_ne m dest a (u8 w) (omega arith);
        },
      )

module _ (fuel buf out_str : ℕ) where
  pub sprintf_loop-end :
      (left format in_index out_index : ℕ) (args : List ℕ) (m : Memory)
      → load8 m (format + in_index) ≡ 0
      → sprintf_loop fuel buf out_str (suc left) format in_index args out_index m ≡ some m
  unfolding sprintf_loop
  sprintf_loop-end left format in_index out_index args m end = rw end refl

  pub sprintf_loop-plain :
      (left format in_index out_index x : ℕ) (args : List ℕ) (m : Memory)
      → load8 m (format + in_index) ≡ x
      → 0 < x
      → x ≢ b'%'
      → sprintf_loop fuel buf out_str (suc left) format in_index args out_index m
        ≡ sprintf_loop fuel buf out_str left format
            (in_index + 1)
            args
            (out_index + 1)
            (store8 m (out_str + out_index) x)
  unfolding sprintf_loop
  sprintf_loop-plain left format in_index out_index x args m now some_x other =
      rw (now, ==_ne x 0 (omega arith), ==_ne x b'%' other) refl

  pub sprintf_loop-conv :
      (left format in_index out_index out' : ℕ) (a : Argument) (args : List ℕ) (m m1 : Memory)
      → load8 m (format + in_index) ≡ b'%'
      → load8 m (format + in_index + 1) ≡ letter a
      → convert_arg fuel buf out_str (letter a) (word a) out_index m ≡ some (out', m1)
      → sprintf_loop fuel buf out_str (suc left) format in_index (word a ∷ args) out_index m
        ≡ sprintf_loop fuel buf out_str left format (in_index + 2) args out' m1
  unfolding sprintf_loop convert
  sprintf_loop-conv left format in_index out_index out' a args m m1 now l step =
      rw (now, l, letter-takes_arg a, step) refl
