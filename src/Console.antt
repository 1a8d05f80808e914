-- ===== src/Console.antt =====
-- The printing to the serial port: source/mach/vexpress_a9/init/mach_early_kprintf.c, whose loop
-- source/debug/debug.c has as well. A word that is written at the port's address is sent and
-- leaves memory as it is. The variable arguments are the words of `args`; `none` means that the
-- fuel ran out or that an argument is missing, which C leaves undefined. `buf` is the address of
-- the eleven bytes of that name.
pub mod Prints
use sugarcat.Common.{
  ℕ, zero, suc, ◌+◌, Bool, true, false, Option, none, some, List, [], ◌∷◌, ◌++◌, ◌==◌,
  if◌then◌else◌, u8, u32, ◌>>=◌,
}
use sugarcat.Memory.{Memory, load8, store32}
use sugarcat.Mem.{memset}
use sugarcat.Str.{itoa, itox}
use sugarcat.Str.Format.{to_int, takes_arg}

abbrev pub uart0_base_address : ℕ
uart0_base_address = 0x10009000

-- Memory, and the words that were sent, first to last.
pub record Port : Type 0 where
  pub mem : Memory
  pub sent : List ℕ

-- `memw`.
unfoldable pub write_word : ℕ → ℕ → Port → Port
write_word addr dat s =
    if addr == uart0_base_address
    then record s { sent = s.sent ++ (dat ∷ []) }
    else record s { mem = store32 s.mem addr dat }

unfoldable pub uart_putc : ℕ → Port → Port
unfolding write_word
uart_putc byte s = write_word uart0_base_address (u8 byte) s

-- The loop of `uart_puts` at index `i`.
unfoldable pub puts_loop : ℕ → ℕ → ℕ → Port → Option Port
puts_loop zero buf i s = none
puts_loop (suc fuel) buf i s =
    let c = load8 s.mem (buf + i) in
    let rest = puts_loop fuel buf (i + 1) (uart_putc c s) in if c == 0 then some s else rest

unfoldable pub uart_puts : ℕ → ℕ → Port → Option Port
unfolding puts_loop
uart_puts fuel buf s = puts_loop fuel buf 0 s

module _ (fuel buf : ℕ) where
  -- What `%x` and `%i` print.
  unfoldable pub put_number : Bool → ℕ → Port → Option Port
  unfolding to_int
  put_number hex arg s =
      let m0 = memset s.mem buf 0 11 in
      (if hex then itox fuel arg buf m0 else itoa fuel (to_int arg) buf m0) >>= λ (str, m1).
      uart_puts fuel str (record s { mem = m1 })

  -- One conversion, with the argument it takes.
  unfoldable pub convert_arg : ℕ → ℕ → Port → Option Port
  convert_arg c arg s =
      if c == b'x'
      then put_number true arg s
      else if c == b'i'
      then put_number false arg s
      else if c == b's'
      then uart_puts fuel arg s
      else some (uart_putc arg s)

  -- What follows a `%`; an unknown letter prints nothing.
  unfoldable pub convert : ℕ → List ℕ → Port → Option (List ℕ × Port)
  convert c [] s = if takes_arg c then none else some ([], s)
  convert c (arg ∷ args) s =
      if takes_arg c then (convert_arg c arg s >>= λ s'. some (args, s')) else some (arg ∷ args, s)

  -- The loop over the format, from `index` on.
  unfoldable pub print_loop : ℕ → ℕ → ℕ → List ℕ → Port → Option Port
  print_loop zero format index args s = none
  print_loop (suc left) format index args s =
      let c = load8 s.mem (format + index) in
      let plain = print_loop left format (u32 (index + 1)) args (uart_putc c s) in
      let converted = convert (load8 s.mem (format + u32 (index + 1))) args s >>= λ (args', s').
      print_loop left format (u32 (u32 (index + 1) + 1)) args' s' in
      if c == 0 then some s else (if c == b'%' then converted else plain)

-- Of mach_early_kprintf.c.
unfoldable pub mach_early_kprintf : ℕ → ℕ → ℕ → List ℕ → Port → Option Port
mach_early_kprintf fuel buf format args s =
    if format == 0 then some s else print_loop fuel buf fuel format 0 args s

-- Of debug.c, whose `buf` is static.
unfoldable pub d_printf : ℕ → ℕ → ℕ → List ℕ → Port → Option Port
d_printf fuel buf format args s =
    if format == 0 then some s else print_loop fuel buf fuel format 0 args s
