-- ===== src/Examples/Texts.antt =====
-- Runs of the string and printing routines.
use Prim.{tt}
use sugarcat.Common.{ℕ, ◌≤◌, ◌<◌, ◌≡◌, ◌⊎◌, refl, some, List, [], ◌∷◌, arith, ◌>>=◌}
use sugarcat.Common.Int.{negsuc}
use sugarcat.Console.{Port, mach_early_kprintf, d_printf}
use sugarcat.Console.Prints.{mach_early_kprintf-printed_of}
use sugarcat.Memory.{Memory, load8, store8, store32}
use sugarcat.Str.{strrev, itoa, itox, atoi, magnitude, is_negative}
use sugarcat.Str.Digits.{low}
use sugarcat.Str.Format.{sprintf}
use sugarcat.Str.Length.{CStr}
use sugarcat.Str.Numbers.{decimal, hexadecimal, Printed, itoa-decimal, itox-hexadecimal}
use sugarcat.Str.Overrun.{itoa-past_eleven}
use sugarcat.Str.Pieces.{Piece, letter, plain, conv, int, printed_of, words_of, format_of, Kept}
use sugarcat.Str.Reverse.{strrev-reverse}
use sugarcat.Str.RoundTrip.{atoi-itoa}
use sugarcat.Str.Sprintf.{Wrote}
use sugarcat.Str.Sprintf.Whole.{sprintf-printed_of}

abbrev blank : Memory
blank = λ _. 0

-- The string "abc".
abbrev abc_mem : Memory
abc_mem = store32 blank 0x100 0x636261

strrev-reverse_example :
    (m' : Memory) × (strrev 4 0x100 abc_mem ≡ some (0x100, m'))
    × CStr m' 0x100 (b'c' ∷ b'b' ∷ b'a' ∷ [])
    × ((a : ℕ) → (a < 0x100) ⊎ (0x103 ≤ a) → load8 m' a ≡ load8 abc_mem a)
unfolding load8 store32 store8
strrev-reverse_example =
    strrev-reverse 4 0x100 abc_mem (b'a' ∷ b'b' ∷ b'c' ∷ []) (omega arith)
      (refl, omega arith, (refl, omega arith, (refl, omega arith, refl))) (omega arith)
      (omega arith) (omega arith)

itoa-decimal_example :
    (m' : Memory) × (itoa 12 (negsuc 41) 0x200 blank ≡ some (0x200, m'))
    × Printed blank m' 0x200 (decimal (negsuc 41))
unfolding magnitude
itoa-decimal_example =
    itoa-decimal 12 (negsuc 41) 0x200 blank (omega arith) (omega arith) (omega arith)

itox-hexadecimal_example :
    (m' : Memory) × (itox 12 0xCAFE 0x200 blank ≡ some (0x200, m'))
    × Printed blank m' 0x200 (hexadecimal 0xCAFE)
itox-hexadecimal_example =
    itox-hexadecimal 12 0xCAFE 0x200 blank (omega arith) (omega arith) (omega arith)

atoi-itoa_example : (itoa 12 (negsuc 41) 0x200 blank >>= λ (p, m'). atoi 12 m' p) ≡ some (negsuc 41)
unfolding magnitude
atoi-itoa_example = atoi-itoa 12 (negsuc 41) 0x200 blank (omega arith) (omega arith) (omega arith)

itoa-past_eleven_example :
    (m' : Memory) × (itoa 12 (negsuc 1999999999) 0x200 blank ≡ some (0x200, m'))
    × CStr m' 0x200 (decimal (negsuc 1999999999))
    × (load8 m' 0x20B ≡ 0)
itoa-past_eleven_example =
    itoa-past_eleven 12 1999999999 0x200 blank (omega arith) (omega arith) (omega arith)
      (omega arith)

-- The format "n=%i".
abbrev format_mem : Memory
format_mem = store32 blank 0x100 0x69253D6E

abbrev pieces : List Piece
pieces = plain b'n' ∷ plain b'=' ∷ conv (int 7) ∷ []

abbrev port : Port
port = record { mem = format_mem; sent = [] }

mach_early_kprintf-printed_of_example :
    (s' : Port) × (mach_early_kprintf 12 0x400 0x100 (words_of pieces) port ≡ some s')
    × (d_printf 12 0x400 0x100 (words_of pieces) port ≡ some s')
    × Kept 0x400 12 format_mem s'.mem
    × (s'.sent ≡ printed_of pieces)
unfolding load8 store32 store8 format_of letter
mach_early_kprintf-printed_of_example =
    mach_early_kprintf-printed_of 12 0x400 (omega arith) (omega arith) 0x100 port pieces
      (omega arith) (omega arith, (omega arith, ((omega arith, omega arith), tt)))
      (refl, omega arith, (refl, omega arith, (refl, omega arith, (refl, omega arith, refl))))
      (omega arith) (omega arith) (omega arith)

sprintf-printed_of_example :
    (m' : Memory) × (sprintf 12 0x400 0x300 0x100 (words_of pieces) format_mem ≡ some (0x300, m'))
    × Wrote 0x400 0x300 format_mem m' (printed_of pieces)
unfolding load8 store32 store8 format_of letter printed_of decimal is_negative magnitude low
sprintf-printed_of_example =
    sprintf-printed_of 12 0x400 0x300 3 0x100 (omega arith) (omega arith) (omega arith)
      (omega arith) format_mem pieces (omega arith)
      (omega arith, (omega arith, ((omega arith, omega arith), tt))) tt
      (refl, omega arith, (refl, omega arith, (refl, omega arith, (refl, omega arith, refl))))
      (omega arith) (omega arith) (omega arith) (omega arith)
