-- ===== src/Init/Start/Lookup.antt =====
-- The lookup before the branch into `kernel_init`, where there is no device tree.
use sugarcat.Common.{
  ℕ, zero, suc, ◌+◌, ◌≤◌, ◌<◌, ◌^◌, ◌≡◌, ◌≢◌, ◌∙◌, ap, refl, subst, sym as sym_path, false, some,
  List, [], ◌∷◌, length, arith, u32, ==_ne, ◌==◌, Bool-cases, inl, inr,
}
use sugarcat.Console.{Port, print_loop, uart_putc, mach_early_kprintf}
use sugarcat.Fdt.{is_using_fdt, get_node}
use sugarcat.MemLayout.{Symbols}
use sugarcat.Memory.{Memory, load8}
use sugarcat.Armv7.{Machine}
use sugarcat.Init.Start.{Messages, print_line, look_up}

-- At `p` stands the text `xs`, which has no `%`, and the null byte that ends it.
abbrev pub Line : Memory → ℕ → List ℕ → Type 0
Line m p [] = load8 m p ≡ 0
Line m p (c ∷ cs) = (load8 m p ≡ c) × (0 < c) × (c ≢ b'%') × Line m (p + 1) cs

pub Line-same :
    (m m' : Memory) (p : ℕ) (xs : List ℕ)
    → ((a : ℕ) → p ≤ a → a < p + length xs + 1 → load8 m' a ≡ load8 m a)
    → Line m p xs
    → Line m' p xs
Line-same m m' p [] same end = same p (omega arith) (omega arith) ∙ end
Line-same m m' p (c ∷ cs) same (here, some_c, other, rest) = (
  same p (omega arith) (omega arith) ∙ here,
  some_c,
  other,
  Line-same m m' (p + 1) cs (λ a from to. same a (omega arith) (omega arith)) rest,
)

uart_putc-mem : (c : ℕ) (s : Port) → (uart_putc c s).mem ≡ s.mem
unfolding uart_putc
uart_putc-mem c s = refl

print_loop-end :
    (fuel buf left format index : ℕ) (s : Port)
    → load8 s.mem (format + index) ≡ 0
    → print_loop fuel buf (suc left) format index [] s ≡ some s
unfolding print_loop
print_loop-end fuel buf left format index s end = rw end refl

print_loop-char :
    (fuel buf left format index c : ℕ) (s : Port)
    → load8 s.mem (format + index) ≡ c
    → c ≢ 0
    → c ≢ b'%'
    → index + 1 < 2 ^ 32
    → print_loop fuel buf (suc left) format index [] s
      ≡ print_loop fuel buf left format (index + 1) [] (uart_putc c s)
unfolding print_loop
print_loop-char fuel buf left format index c s now some_c other small =
    let next : u32 (index + 1) ≡ index + 1 = omega arith in
    rw (now, ==_ne c 0 some_c, ==_ne c b'%' other, next) refl

-- A text without `%` is printed to its end, and memory stays as it is.
print_loop-Line :
    (fuel buf left format index : ℕ) (s : Port) (xs : List ℕ)
    → Line s.mem (format + index) xs
    → index + length xs < 2 ^ 32
    → length xs < left
    → (p : Port) × (print_loop fuel buf left format index [] s ≡ some p) × (p.mem ≡ s.mem)
print_loop-Line fuel buf zero format index s xs line small enough = absurd (omega arith)
print_loop-Line fuel buf (suc left) format index s [] end small enough =
    (s, print_loop-end fuel buf left format index s end, refl)
print_loop-Line fuel buf (suc left) format index s (c ∷ cs) (here, some_c, other, rest) small
      enough =
    let at : format + index + 1 ≡ format + (index + 1) = omega arith in
    let same = uart_putc-mem c s in
    let (p, run, kept) =
      print_loop-Line fuel buf left format (index + 1) (uart_putc c s) cs
        (subst (λ q. Line (uart_putc c s).mem q cs) at
          (subst (λ m. Line m (format + index + 1) cs) (sym_path same) rest))
        (omega arith) (omega arith) in
    (
      p,
      print_loop-char fuel buf left format index c s here (omega arith) other (omega arith) ∙ run,
      kept ∙ same,
    )

module _ (fuel : ℕ) (sym : Symbols) (msg : Messages) where
  print_line-Line :
      (format : ℕ) (s : Machine) (xs : List ℕ)
      → Line s.mem format xs
      → length xs < 2 ^ 32
      → length xs < fuel
      → print_line fuel sym msg format [] s ≡ some s
  unfolding print_line mach_early_kprintf
  print_line-Line format s xs line small enough = elim (Bool-cases (format == 0)) [
    | inl null ↦ rw null refl
    | inr there ↦
        let at : format ≡ format + 0 = omega arith in
        let (p, run, kept) =
          print_loop-Line fuel msg.lookup.console fuel format 0 (record { mem = s.mem; sent = [] })
            xs (subst (λ q. Line s.mem q xs) at line) (omega arith) enough in
        rw (there, run) (ap (λ m. some (record s { mem = m })) kept)
  ]

  -- Without a tree no node is found, and the machine stays as it is.
  pub look_up-no_tree :
      (atag_fdt_base : ℕ) (s : Machine) (xs : List ℕ)
      → is_using_fdt s.mem atag_fdt_base ≡ false
      → Line s.mem msg.lookup.null_line xs
      → length xs < 2 ^ 32
      → length xs < fuel
      → look_up fuel sym msg atag_fdt_base s ≡ some s
  unfolding look_up get_node
  look_up-no_tree base s xs none line small enough =
      let printed = print_line-Line msg.lookup.null_line s xs line small enough in
      elim (Bool-cases (msg.lookup.chosen == 0)) [
        | inl null ↦ rw null printed
        | inr there ↦ rw (there, none) printed
      ]
