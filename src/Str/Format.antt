-- ===== src/Str/Format.antt =====
-- `sprintf` of source/util/str.c. The variable arguments are the words of `args`; `none` means that
-- the fuel ran out or that an argument is missing, which C leaves undefined. `buf` is the address
-- of the eleven bytes on the stack.
use sugarcat.Common.{
  ℕ, zero, suc, ◌+◌, ◌-◌, ◌^◌, Bool, true, false, ◌||◌, Option, none, some, List, [], ◌∷◌, ltb,
  ◌==◌, if◌then◌else◌, u8, ◌>>=◌,
}
use sugarcat.Common.Int.{ℤ, pos, negsuc}
use sugarcat.Memory.{Memory, load8, store8}
use sugarcat.Mem.{memset}
use sugarcat.Str.{strlen, itoa, itox, strncpy}

-- A word taken as an `int`.
unfoldable pub to_int : ℕ → ℤ
to_int w = if ltb w (2 ^ 31) then pos w else negsuc (2 ^ 32 - 1 - w)

-- The arguments that are left, `out_index` and memory.
abbrev pub Output : Type 0
Output = List ℕ × ℕ × Memory

abbrev pub takes_arg : ℕ → Bool
takes_arg c = (c == b'x') || (c == b'i') || (c == b's') || (c == b'c')

module _ (fuel buf out_str : ℕ) where
  -- What `%x` and `%i` print.
  unfoldable pub put_number : Bool → ℕ → ℕ → Memory → Option (ℕ × Memory)
  unfolding to_int
  put_number hex arg out_index m =
      let m0 = memset m buf 0 11 in
      (if hex then itox fuel arg buf m0 else itoa fuel (to_int arg) buf m0) >>= λ (str, m1).
      strlen fuel m1 str >>= λ size.
      some (out_index + size, (strncpy (out_str + out_index) buf size m1).1)

  -- What `%s` prints.
  unfoldable pub put_str : ℕ → ℕ → Memory → Option (ℕ × Memory)
  put_str va_str out_index m = strlen fuel m va_str >>= λ size.
      some (out_index + size, (strncpy (out_str + out_index) va_str size m).1)

  -- One conversion, with the argument it takes.
  unfoldable pub convert_arg : ℕ → ℕ → ℕ → Memory → Option (ℕ × Memory)
  convert_arg c arg out_index m =
      if c == b'x'
      then put_number true arg out_index m
      else if c == b'i'
      then put_number false arg out_index m
      else if c == b's'
      then put_str arg out_index m
      else some (out_index + 1, store8 m (out_str + out_index) (u8 arg))

  -- What follows a `%`; an unknown letter prints nothing.
  unfoldable pub convert : ℕ → List ℕ → ℕ → Memory → Option Output
  convert c [] out_index m = if takes_arg c then none else some ([], out_index, m)
  convert c (arg ∷ args) out_index m =
      if takes_arg c
      then (convert_arg c arg out_index m >>= λ (out_index', m'). some (args, out_index', m'))
      else some (arg ∷ args, out_index, m)

  unfoldable pub sprintf_loop : ℕ → ℕ → ℕ → List ℕ → ℕ → Memory → Option Memory
  sprintf_loop zero format in_index args out_index m = none
  sprintf_loop (suc left) format in_index args out_index m =
      let c = load8 m (format + in_index) in
      let plain =
        sprintf_loop left format (in_index + 1) args (out_index + 1)
          (store8 m (out_str + out_index) c) in
      let converted =
        convert (load8 m (format + in_index + 1)) args out_index m >>= λ (args', out_index', m').
        sprintf_loop left format (in_index + 2) args' out_index' m' in
      if c == 0 then some m else (if c == b'%' then converted else plain)

-- The result is the returned pointer and memory.
unfoldable pub sprintf : ℕ → ℕ → ℕ → ℕ → List ℕ → Memory → Option (ℕ × Memory)
unfolding sprintf_loop
sprintf fuel buf out_str format args m =
    if out_str == 0
    then some (0, m)
    else (if format == 0
        then some (0, m)
        else (sprintf_loop fuel buf out_str fuel format 0 args 0 m >>= λ m'. some (out_str, m')))
