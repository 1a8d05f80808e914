-- ===== src/Str.antt =====
-- source/util/str.c over the flat memory. A null pointer is 0. Each `while` loop takes fuel, and
-- `none` means that it ran out; a `for` loop recurs on the rounds it has left. An `int` is taken
-- without overflow, which C leaves undefined. `char` is unsigned, as on the ARM.
pub mod Length
pub mod Compare
pub mod Moves
pub mod Format
pub mod Bytes
pub mod Reverse
pub mod Digits
pub mod Numbers
pub mod RoundTrip
pub mod Pieces
pub mod Sprintf
pub mod Overrun
use sugarcat.Common.{
  ℕ, zero, suc, ◌+◌, ◌-◌, ◌*◌, ◌/◌, ◌%◌, ◌^◌, Bool, true, false, ◌&&◌, Option, none, some, List, [],
  ◌∷◌, bit_and, ltb, leb, ◌==◌, if◌then◌else◌, u8, u32, ◌>>>◌, ◌>>=◌,
}
use sugarcat.Common.Int.{ℤ, pos, negsuc, sub_ℕ, neg}
use sugarcat.Memory.{Memory, load8, store8}
use sugarcat.Mem.{memset}

unfoldable pub strlen_loop : ℕ → Memory → ℕ → ℕ → Option ℕ
strlen_loop zero m str ret = none
strlen_loop (suc fuel) m str ret =
    let rest = strlen_loop fuel m (str + 1) (u32 (ret + 1)) in
    if load8 m str == 0 then some ret else rest

unfoldable pub strlen : ℕ → Memory → ℕ → Option ℕ
unfolding strlen_loop
strlen fuel m str = if str == 0 then some (2 ^ 32 - 1) else strlen_loop fuel m str 0

-- The loop of `strcmp` at index `i`; `len` is the fuel of each `strlen`.
unfoldable pub strcmp_loop : ℕ → ℕ → Memory → ℕ → ℕ → ℕ → Option ℤ
strcmp_loop zero len m str1 str2 i = none
strcmp_loop (suc fuel) len m str1 str2 i =
    let rest = strcmp_loop fuel len m str1 str2 (i + 1) in
    let a = load8 m (str1 + i) in
    let b = load8 m (str2 + i) in
    strlen len m str1 >>= λ n.
    if ltb i n then (if a == b then rest else some (sub_ℕ a b)) else some (pos 0)

unfoldable pub strcmp : ℕ → Memory → ℕ → ℕ → Option ℤ
strcmp fuel m str1 str2 =
    if str1 == 0
    then some (pos 0)
    else (if str2 == 0 then some (pos 0) else strcmp_loop fuel fuel m str1 str2 0)

-- The number of an unsigned run of digits; a character that is none makes it 0.
unfoldable pub atoi_loop : ℕ → Memory → ℕ → ℕ → Option ℕ
atoi_loop zero m str ret = none
atoi_loop (suc fuel) m str ret =
    let c = load8 m str in
    let rest = atoi_loop fuel m (str + 1) (ret * 10 + (c - b'0')) in
    if c == 0 then some ret else (if leb b'0' c && leb c b'9' then rest else some 0)

unfoldable pub atoi : ℕ → Memory → ℕ → Option ℤ
atoi fuel m str =
    if str == 0
    then some (pos 0)
    else (if load8 m str == b'-'
        then (atoi_loop fuel m (str + 1) 0 >>= λ ret. some (neg (pos ret)))
        else (atoi_loop fuel m str 0 >>= λ ret. some (pos ret)))

-- The exchange loop of `strrev` with `left` rounds to go, where `n` is the string's length.
unfoldable pub strrev_loop : ℕ → ℕ → ℕ → ℕ → Memory → Memory
strrev_loop zero i n str m = m
strrev_loop (suc left) i n str m =
    let tmp = load8 m (str + i) in
    let m' = store8 m (str + i) (load8 m (str + n - 1 - i)) in
    strrev_loop left (i + 1) n str (store8 m' (str + n - 1 - i) tmp)

-- `len / 2 + 1` for `len = n - 1`, where C's -1 / 2 is 0.
unfoldable pub strrev_rounds : ℕ → ℕ
strrev_rounds n = if n == 1 then 0 else (n - 1) / 2 + 1

unfoldable pub strrev : ℕ → ℕ → Memory → Option (ℕ × Memory)
unfolding strrev_rounds
strrev fuel str m =
    if str == 0
    then some (0, m)
    else (strlen fuel m str >>= λ n. some (str, strrev_loop (strrev_rounds n) 0 n str m))

-- The digits of `val`, lowest first; the results are the offset past them and memory.
unfoldable pub itoa_loop : ℕ → ℕ → ℕ → ℕ → Memory → Option (ℕ × Memory)
itoa_loop zero val str offset m = none
itoa_loop (suc fuel) val str offset m =
    let rest =
      itoa_loop fuel (val / 10) str (offset + 1) (store8 m (str + offset) (48 + val % 10)) in
    if ltb 0 val then rest else some (offset, m)

-- `*str = "0"`.
abbrev pub put_zero : ℕ → Memory → Memory
put_zero str m = store8 (store8 m str b'0') (str + 1) 0

unfoldable pub magnitude : ℤ → ℕ
magnitude (pos n) = n
magnitude (negsuc n) = suc n

unfoldable pub is_negative : ℤ → Bool
is_negative (pos n) = false
is_negative (negsuc n) = true

-- The sign and the end of the string, before it is reversed.
unfoldable pub put_end : Bool → ℕ → ℕ → Memory → Memory
put_end true str offset m = store8 (store8 m (str + offset) b'-') (str + offset + 1) 0
put_end false str offset m = store8 m (str + offset) 0

unfoldable pub itoa : ℕ → ℤ → ℕ → Memory → Option (ℕ × Memory)
unfolding magnitude is_negative
itoa fuel val str m =
    if str == 0
    then some (0, m)
    else (if magnitude val == 0
        then some (str, put_zero str m)
        else (itoa_loop fuel (magnitude val) str 0 m >>= λ (offset, m').
            strrev fuel str (put_end (is_negative val) str offset m')))

unfoldable pub hex_digit : ℕ → ℕ
hex_digit c = if leb c 9 then c + 48 else c + 55

unfoldable pub itox_loop : ℕ → ℕ → ℕ → ℕ → Memory → Option (ℕ × Memory)
unfolding hex_digit
itox_loop zero val str offset m = none
itox_loop (suc fuel) val str offset m =
    let rest =
      itox_loop fuel (val >>> 4) str (offset + 1)
        (store8 m (str + offset) (hex_digit (bit_and val 15))) in
    if ltb 0 val then rest else some (offset, m)

unfoldable pub itox : ℕ → ℕ → ℕ → Memory → Option (ℕ × Memory)
itox fuel val str m =
    if str == 0
    then some (0, m)
    else (if val == 0
        then some (str, put_zero str m)
        else (itox_loop fuel val str 0 m >>= λ (offset, m').
            strrev fuel str (store8 m' (str + offset) 0)))

-- The second loop of `strncpy`.
unfoldable pub fill_loop : ℕ → ℕ → ℕ → Memory → Memory
fill_loop zero i dest m = m
fill_loop (suc left) i dest m = fill_loop left (i + 1) dest (store8 m (dest + i) 0)

-- Its first loop, and the second from the index at which the first ends.
unfoldable pub copy_loop : ℕ → ℕ → ℕ → ℕ → Memory → Memory
copy_loop zero i dest src m = m
copy_loop (suc left) i dest src m =
    let rest = copy_loop left (i + 1) dest src (store8 m (dest + i) (load8 m (src + i))) in
    if load8 m (src + i) == 0 then fill_loop (suc left) i dest m else rest

unfoldable pub strncpy : ℕ → ℕ → ℕ → Memory → ℕ × Memory
strncpy dest src n m =
    if dest == 0 then (0, m) else (if src == 0 then (0, m) else (dest, copy_loop n 0 dest src m))
