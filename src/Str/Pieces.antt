-- ===== src/Str/Pieces.antt =====
-- Formats as the printing functions of the kernel understand them, and what they print.
use Prim.{Unit}
use sugarcat.Common.{
  ℕ, suc, ◌+◌, ◌^◌, ◌≤◌, ◌<◌, ◌≡◌, ◌≢◌, ◌⊎◌, refl, ◌∙◌, true, List, [], ◌∷◌, ◌++◌, length, arith,
  u8,
}
use sugarcat.Mem.{memset}
use sugarcat.Mem.Blocks.{memset_at}
use sugarcat.Memory.{Memory, load8}
use sugarcat.Str.{magnitude, is_negative}
use sugarcat.Str.Bytes.{length-reverse}
use sugarcat.Str.Digits.{low, length-low, dec_chr}
use sugarcat.Str.Format.{to_int, takes_arg}
use sugarcat.Str.Length.{CStr}
use sugarcat.Str.Numbers.{numeral, sign, decimal, hexadecimal, hex_chr}
use sugarcat.Common.Int.{ℤ, pos, negsuc}

-- An argument, with the conversion that prints it.
pub data Argument : Type 0 where
  hex : ℕ → Argument
  int : ℕ → Argument
  text : ℕ → List ℕ → Argument
  char : ℕ → Argument

-- A part of a format.
pub data Piece : Type 0 where
  plain : ℕ → Piece
  conv : Argument → Piece

-- The letter after the `%`.
unfoldable pub letter : Argument → ℕ
letter (hex w) = b'x'
letter (int w) = b'i'
letter (text p xs) = b's'
letter (char w) = b'c'

-- The word that is handed over.
unfoldable pub word : Argument → ℕ
word (hex w) = w
word (int w) = w
word (text p xs) = p
word (char w) = w

-- What is printed for it.
unfoldable pub shown : Argument → List ℕ
unfolding to_int
shown (hex w) = hexadecimal w
shown (int w) = decimal (to_int w)
shown (text p xs) = xs
shown (char w) = u8 w ∷ []

unfoldable pub format_of : List Piece → List ℕ
unfolding letter
format_of [] = []
format_of (plain c ∷ ps) = c ∷ format_of ps
format_of (conv a ∷ ps) = b'%' ∷ letter a ∷ format_of ps

unfoldable pub words_of : List Piece → List ℕ
unfolding word
words_of [] = []
words_of (plain c ∷ ps) = words_of ps
words_of (conv a ∷ ps) = word a ∷ words_of ps

unfoldable pub printed_of : List Piece → List ℕ
unfolding shown
printed_of [] = []
printed_of (plain c ∷ ps) = c ∷ printed_of ps
printed_of (conv a ∷ ps) = shown a ++ printed_of ps

-- A run of `n + 1` bytes from `p` on, apart from the `size` bytes from `q` on.
abbrev pub Apart : ℕ → ℕ → ℕ → ℕ → Type 0
Apart p n q size = (p + n < q) ⊎ (q + size ≤ p)

-- Two memories that agree but for the `size` bytes from `q` on.
abbrev pub Kept : ℕ → ℕ → Memory → Memory → Type 0
Kept q size m m' = (a : ℕ) → (a < q) ⊎ (q + size ≤ a) → load8 m' a ≡ load8 m a

-- An argument that can be printed: a word, other than the least `int` for `%i`; or the address of
-- a string that is shorter than `fuel` and lies apart from the bytes at `buf`.
abbrev pub Printable : ℕ → ℕ → Memory → Argument → Type 0
Printable fuel buf m (hex w) = w < 2 ^ 32
Printable fuel buf m (int w) = (w < 2 ^ 32) × (w ≢ 2 ^ 31)
Printable fuel buf m (text p xs) =
    (p ≢ 0) × CStr m p xs × (length xs < 2 ^ 32) × (length xs < fuel) × Apart p (length xs) buf 12
Printable fuel buf m (char w) = Unit

abbrev pub Good : ℕ → ℕ → Memory → List Piece → Type 0
Good fuel buf m [] = Unit
Good fuel buf m (plain c ∷ ps) = (c ≢ b'%') × Good fuel buf m ps
Good fuel buf m (conv a ∷ ps) = Printable fuel buf m a × Good fuel buf m ps

pub letter-takes_arg : (a : Argument) → takes_arg (letter a) ≡ true
unfolding letter
letter-takes_arg (hex w) = refl
letter-takes_arg (int w) = refl
letter-takes_arg (text p xs) = refl
letter-takes_arg (char w) = refl

pub memset-Kept : (buf : ℕ) (m : Memory) → Kept buf 11 m (memset m buf 0 11)
memset-Kept buf m a out = ground (arith, memset_at m buf 0 11 a)

pub CStr-same :
    (m m' : Memory) (p : ℕ) (xs : List ℕ)
    → ((a : ℕ) → p ≤ a → a ≤ p + length xs → load8 m' a ≡ load8 m a)
    → CStr m p xs
    → CStr m' p xs
CStr-same m m' p [] same s = same p (omega arith) (omega arith) ∙ s
CStr-same m m' p (c ∷ cs) same (here, some_c, s) = (
  same p (omega arith) (omega arith) ∙ here,
  some_c,
  CStr-same m m' (p + 1) cs (λ a from upto. same a (omega arith) (omega arith)) s,
)

pub CStr-Kept :
    (q size : ℕ) (m m' : Memory) (p : ℕ) (xs : List ℕ)
    → Kept q size m m'
    → Apart p (length xs) q size
    → CStr m p xs
    → CStr m' p xs
CStr-Kept q size m m' p xs kept apart s =
    CStr-same m m' p xs (λ a from upto. kept a (omega arith)) s

pub Printable-Kept :
    (fuel buf : ℕ) (m m' : Memory) (a : Argument)
    → Kept buf 12 m m'
    → Printable fuel buf m a
    → Printable fuel buf m' a
Printable-Kept fuel buf m m' (hex w) kept ok = ok
Printable-Kept fuel buf m m' (int w) kept ok = ok
Printable-Kept fuel buf m m' (text p xs) kept (some_p, c, small, short, apart) =
    (some_p, CStr-Kept buf 12 m m' p xs kept apart c, small, short, apart)
Printable-Kept fuel buf m m' (char w) kept ok = ok

pub length-numeral : (base : ℕ) (chr : ℕ → ℕ) (n : ℕ) → length (numeral base chr n) ≤ 10
unfolding numeral
length-numeral base chr n =
    ground (arith, length-reverse (low base chr 10 n), length-low base chr 10 n)

pub length-decimal : (val : ℤ) → length (decimal val) ≤ 11
unfolding decimal sign is_negative magnitude
length-decimal (pos n) = omega (arith, length-numeral 10 dec_chr n)
length-decimal (negsuc n) = omega (arith, length-numeral 10 dec_chr (suc n))

pub length-hexadecimal : (w : ℕ) → length (hexadecimal w) ≤ 10
unfolding hexadecimal
length-hexadecimal w = length-numeral 16 hex_chr w

pub to_int-magnitude : (w : ℕ) → w < 2 ^ 32 → w ≢ 2 ^ 31 → magnitude (to_int w) < 2 ^ 31
unfolding to_int magnitude
to_int-magnitude w fits least = ground arith
