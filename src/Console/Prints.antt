-- ===== src/Console/Prints.antt =====
-- What the printing functions send to the serial port.
use mathlib.Core.List.{append-nil, append_assoc}
use native.Mathlib.Nat.{add-zero}
use sugarcat.Common.{
  ℕ, zero, suc, ◌+◌, ◌^◌, ◌≤◌, ◌<◌, ◌≡◌, ◌≢◌, refl, ap, sym, ◌∙◌, subst, true, some, List, [], ◌∷◌,
  ◌++◌, length, arith, u8, u32, ==_ne,
}
use sugarcat.Console.{
  Port, uart_putc, uart_puts, puts_loop, put_number, convert_arg, convert, print_loop,
  mach_early_kprintf, d_printf,
}
use sugarcat.Mem.{memset}
use sugarcat.Memory.{Memory, load8}
use sugarcat.Memory.Laws.{load8-lt}
use sugarcat.Str.Format.{to_int, takes_arg}
use sugarcat.Str.Length.{CStr}
use sugarcat.Str.Numbers.{decimal, hexadecimal, Printed, itoa-decimal, itox-hexadecimal}
use sugarcat.Str.Pieces.{
  Argument, hex, int, text, char, Piece, plain, conv, letter, word, shown, format_of, words_of,
  printed_of, Apart, Kept, Printable, Good, letter-takes_arg, memset-Kept, Printable-Kept,
  length-decimal, length-hexadecimal, to_int-magnitude,
}

abbrev send : Port → List ℕ → Port
send s xs = record s { sent = s.sent ++ xs }

uart_putc-send : (c : ℕ) (s : Port) → uart_putc c s ≡ send s (u8 c ∷ [])
unfolding uart_putc
uart_putc-send c s = refl

puts_loop-send :
    (fuel buf i : ℕ) (s : Port) (xs : List ℕ)
    → CStr s.mem (buf + i) xs
    → length xs < fuel
    → puts_loop fuel buf i s ≡ some (send s xs)
unfolding puts_loop
puts_loop-send zero buf i s xs c enough = absurd (omega arith)
puts_loop-send (suc fuel) buf i s [] c enough = rw (c, append-nil s.sent) refl
puts_loop-send (suc fuel) buf i s (c ∷ cs) (here, some_c, rest) enough =
    let byte : u8 c ≡ c = omega (arith, load8-lt s.mem (buf + i)) in
    let at : buf + i + 1 ≡ buf + (i + 1) = omega arith in
    let tail =
      puts_loop-send fuel buf (i + 1) (send s (c ∷ [])) cs (subst (λ p. CStr s.mem p cs) at rest)
        (omega arith) in
    let sent : (s.sent ++ (c ∷ [])) ++ cs ≡ s.sent ++ (c ∷ cs) = append_assoc s.sent (c ∷ []) cs in
    rw (here, ==_ne c 0 (omega arith), uart_putc-send c s, byte, tail)
      (ap (λ o. some (record s { sent = o })) sent)

-- What a call leaves that prints `xs`: those bytes are sent, and memory has changed at most in the
-- twelve bytes from `buf` on.
record Sent (buf : ℕ) (s s' : Port) (xs : List ℕ) : Type 0 where
  kept : Kept buf 12 s.mem s'.mem
  out : s'.sent ≡ s.sent ++ xs

module _ (fuel buf : ℕ) (there : buf ≢ 0) (enough : 11 < fuel) where
  -- The string that a number leaves in `buf` is sent.
  number-Sent :
      (s : Port) (m1 : Memory) (xs : List ℕ)
      → Printed (memset s.mem buf 0 11) m1 buf xs
      → length xs ≤ 11
      → (puts_loop fuel buf 0 (record s { mem = m1 }) ≡ some (send (record s { mem = m1 }) xs))
        × Sent buf s (send (record s { mem = m1 }) xs) xs
  number-Sent s m1 xs p short =
      let text = subst (λ q. CStr m1 q xs) (sym (add-zero buf)) p.text in
      let sent : Sent buf s (send (record s { mem = m1 }) xs) xs = record {
        kept = λ a out. p.same a (omega arith) ∙ memset-Kept buf s.mem a (omega arith);
        out = refl;
      } in
      (puts_loop-send fuel buf 0 (record s { mem = m1 }) xs text (omega arith), sent)

  convert_arg-Sent :
      (s : Port) (a : Argument)
      → Printable fuel buf s.mem a
      → (s' : Port) × (convert_arg fuel buf (letter a) (word a) s ≡ some s')
        × Sent buf s s' (shown a)
  unfolding convert_arg letter word shown put_number uart_puts
  convert_arg-Sent s (hex w) ok =
      let (m1, run, p) = itox-hexadecimal fuel w buf (memset s.mem buf 0 11) there ok enough in
      let (puts, sent) = number-Sent s m1 (hexadecimal w) p (omega (arith, length-hexadecimal w)) in
      (send (record s { mem = m1 }) (hexadecimal w), rw run puts, sent)
  convert_arg-Sent s (int w) (fits, least) =
      let val = to_int w in
      let (m1, run, p) =
        itoa-decimal fuel val buf (memset s.mem buf 0 11) there (to_int-magnitude w fits least)
          enough in
      let (puts, sent) = number-Sent s m1 (decimal val) p (length-decimal val) in
      (send (record s { mem = m1 }) (decimal val), rw run puts, sent)
  convert_arg-Sent s (text p xs) (some_p, c, small, short, apart) = (
    send s xs,
    puts_loop-send fuel p 0 s xs (subst (λ q. CStr s.mem q xs) (sym (add-zero p)) c) short,
    record { kept = λ a out. refl; out = refl },
  )
  convert_arg-Sent s (char w) ok = (
    send s (u8 w ∷ []),
    ap some (uart_putc-send w s),
    record { kept = λ a out. refl; out = refl },
  )

  convert-Sent :
      (s : Port) (a : Argument) (args : List ℕ)
      → Printable fuel buf s.mem a
      → (s' : Port) × (convert fuel buf (letter a) (word a ∷ args) s ≡ some (args, s'))
        × Sent buf s s' (shown a)
  unfolding convert
  convert-Sent s a args ok =
      let (s', run, sent) = convert_arg-Sent s a ok in
      let takes : takes_arg (letter a) ≡ true = letter-takes_arg a in
      (s', rw (takes, run) refl, sent)

  print_loop-end :
      (left format index : ℕ) (args : List ℕ) (s : Port)
      → load8 s.mem (format + index) ≡ 0
      → print_loop fuel buf (suc left) format index args s ≡ some s
  unfolding print_loop
  print_loop-end left format index args s end = rw end refl

  print_loop-plain :
      (left format index x : ℕ) (args : List ℕ) (s : Port)
      → load8 s.mem (format + index) ≡ x
      → 0 < x
      → x ≢ b'%'
      → index + 1 < 2 ^ 32
      → print_loop fuel buf (suc left) format index args s
        ≡ print_loop fuel buf left format (index + 1) args (send s (x ∷ []))
  unfolding print_loop
  print_loop-plain left format index x args s now some_x other small =
      let byte : u8 x ≡ x = omega (arith, load8-lt s.mem (format + index)) in
      let next : u32 (index + 1) ≡ index + 1 = omega arith in
      rw (now, ==_ne x 0 (omega arith), ==_ne x b'%' other, uart_putc-send x s, byte, next) refl

  print_loop-conv :
      (left format index : ℕ) (a : Argument) (args : List ℕ) (s s1 : Port)
      → load8 s.mem (format + index) ≡ b'%'
      → load8 s.mem (format + (index + 1)) ≡ letter a
      → convert fuel buf (letter a) (word a ∷ args) s ≡ some (args, s1)
      → index + 2 < 2 ^ 32
      → print_loop fuel buf (suc left) format index (word a ∷ args) s
        ≡ print_loop fuel buf left format (index + 2) args s1
  unfolding print_loop
  print_loop-conv left format index a args s s1 now l step small =
      let next : u32 (index + 1) ≡ index + 1 = omega arith in
      let past : u32 (index + 1 + 1) ≡ index + 2 = omega arith in rw (now, next, past, l, step) refl

  print_loop-printed_of :
      (left format index : ℕ) (s : Port) (ps : List Piece) (m : Memory)
      → Kept buf 12 m s.mem
      → Good fuel buf m ps
      → CStr m (format + index) (format_of ps)
      → Apart (format + index) (length (format_of ps)) buf 12
      → index + length (format_of ps) + 1 < 2 ^ 32
      → length (format_of ps) < left
      → (s' : Port) × (print_loop fuel buf left format index (words_of ps) s ≡ some s')
        × Kept buf 12 m s'.mem
        × (s'.sent ≡ s.sent ++ printed_of ps)
  unfolding format_of words_of printed_of
  print_loop-printed_of zero format index s ps m kept good c apart small ok = absurd (omega arith)
  print_loop-printed_of (suc left) format index s [] m kept good c apart small ok = (
    s,
    print_loop-end left format index [] s (kept (format + index) (omega arith) ∙ c),
    kept,
    sym (append-nil s.sent),
  )
  print_loop-printed_of (suc left) format index s (plain x ∷ ps) m kept (other, good)
        (here, some_x, c) apart small ok =
      let now : load8 s.mem (format + index) ≡ x = kept (format + index) (omega arith) ∙ here in
      let at : format + index + 1 ≡ format + (index + 1) = omega arith in
      let (s', run, kept', out) =
        print_loop-printed_of left format (index + 1) (send s (x ∷ [])) ps m kept good
          (subst (λ q. CStr m q (format_of ps)) at c) (omega arith) (omega arith) (omega arith) in
      (
        s',
        print_loop-plain left format index x (words_of ps) s now some_x other (omega arith) ∙ run,
        kept',
        out ∙ append_assoc s.sent (x ∷ []) (printed_of ps),
      )
  print_loop-printed_of (suc left) format index s (conv a ∷ ps) m kept (can, good)
        (here, some_x, (there_a, some_a, c)) apart small ok =
      let now : load8 s.mem (format + index) ≡ b'%' = kept (format + index) (omega arith) ∙ here in
      let at : format + index + 1 ≡ format + (index + 1) = omega arith in
      let after : format + index + 1 + 1 ≡ format + (index + 2) = omega arith in
      let l : load8 s.mem (format + (index + 1)) ≡ letter a =
        kept (format + (index + 1)) (omega arith) ∙ ap (load8 m) (sym at) ∙ there_a in
      let (s1, step, sent) =
        convert-Sent s a (words_of ps) (Printable-Kept fuel buf m s.mem a kept can) in
      let (s', run, kept', out) =
        print_loop-printed_of left format (index + 2) s1 ps m (λ b o. sent.kept b o ∙ kept b o) good
          (subst (λ q. CStr m q (format_of ps)) after c) (omega arith) (omega arith)
          (omega arith) in
      (
        s',
        print_loop-conv left format index a (words_of ps) s s1 now l step (omega arith) ∙ run,
        kept',
        out ∙ ap (λ o. o ++ printed_of ps) sent.out ∙ append_assoc s.sent (shown a) (printed_of ps),
      )

  -- The format of the pieces `ps` is handed over with their arguments: `mach_early_kprintf`, and
  -- `d_printf` in the same way, sends what each piece stands for, in order, and changes at most the
  -- twelve bytes from `buf` on, if the format and the strings lie apart from them and no `%i` is
  -- given the least `int`.
  pub mach_early_kprintf-printed_of :
      (format : ℕ) (s : Port) (ps : List Piece)
      → format ≢ 0
      → Good fuel buf s.mem ps
      → CStr s.mem format (format_of ps)
      → Apart format (length (format_of ps)) buf 12
      → length (format_of ps) + 1 < 2 ^ 32
      → length (format_of ps) < fuel
      → (s' : Port) × (mach_early_kprintf fuel buf format (words_of ps) s ≡ some s')
        × (d_printf fuel buf format (words_of ps) s ≡ some s')
        × Kept buf 12 s.mem s'.mem
        × (s'.sent ≡ s.sent ++ printed_of ps)
  unfolding mach_early_kprintf d_printf
  mach_early_kprintf-printed_of format s ps some_format good c apart small short =
      let (s', run, kept, out) =
        print_loop-printed_of fuel format 0 s ps s.mem (λ a out. refl) good
          (subst (λ q. CStr s.mem q (format_of ps)) (sym (add-zero format)) c) (omega arith)
          (omega arith) short in
      (s', rw (==_ne format 0 some_format) run, rw (==_ne format 0 some_format) run, kept, out)
