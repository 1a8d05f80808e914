-- ===== src/Fdt/Dump/Steps.antt =====
-- What each branch of the loop of `dump_fdt` comes down to.
use sugarcat.Common.{
  ℕ, zero, suc, false, ◌+◌, ◌-◌, ◌^◌, ◌<◌, ◌≡◌, ◌≢◌, refl, true, some, [], ◌∷◌, arith, ltb, ==_ne,
  u32,
}
use sugarcat.Console.{Port, mach_early_kprintf}
use sugarcat.Fdt.{is_using_fdt, get_root_node, be32, get_string, next_tag}
use sugarcat.Fdt.Dump.{
  Formats, push_tab, dump_begin, dump_end, dump_prop, dump_tag, dump_fdt_loop, dump_fdt,
}
use sugarcat.Memory.{store8}
use sugarcat.Str.{strlen}

module _ (fuel buf tabs fdt_base : ℕ) (fmt : Formats) where
  pub tag_begin :
      (p : ℕ) (s : Port)
      → be32 s.mem p ≡ 1
      → dump_tag fuel buf tabs fdt_base fmt p s ≡ dump_begin fuel buf tabs fdt_base fmt p s
  unfolding dump_tag
  tag_begin p s now = rw now refl

  pub tag_end :
      (p : ℕ) (s : Port)
      → be32 s.mem p ≡ 2
      → dump_tag fuel buf tabs fdt_base fmt p s ≡ dump_end fuel buf tabs fdt_base fmt s
  unfolding dump_tag
  tag_end p s now = rw now refl

  pub tag_prop :
      (p : ℕ) (s : Port)
      → be32 s.mem p ≡ 3
      → dump_tag fuel buf tabs fdt_base fmt p s ≡ dump_prop fuel buf tabs fdt_base fmt p s
  unfolding dump_tag
  tag_prop p s now = rw now refl

  pub tag_other :
      (p n : ℕ) (s : Port)
      → be32 s.mem p ≡ n
      → 3 < n
      → dump_tag fuel buf tabs fdt_base fmt p s ≡ some s
  unfolding dump_tag
  tag_other p n s now other =
      rw (now, ==_ne n 1 (omega arith), ==_ne n 2 (omega arith), ==_ne n 3 (omega arith)) refl

  pub begin_root :
      (p d : ℕ) (s s' : Port)
      → strlen fuel s.mem tabs ≡ some d
      → strlen fuel s.mem (p + 4) ≡ some 0
      → mach_early_kprintf fuel buf fmt.open_root [] s ≡ some s'
      → dump_begin fuel buf tabs fdt_base fmt p s
        ≡ some (record s' { mem = push_tab tabs d s'.mem })
  unfolding dump_begin
  begin_root p d s s' sz none run = rw (sz, none, run) refl

  pub begin_named :
      (p d n : ℕ) (s s' : Port)
      → strlen fuel s.mem tabs ≡ some d
      → strlen fuel s.mem (p + 4) ≡ some n
      → 0 < n
      → mach_early_kprintf fuel buf fmt.open_node (tabs ∷ (p + 4) ∷ []) s ≡ some s'
      → dump_begin fuel buf tabs fdt_base fmt p s
        ≡ some (record s' { mem = push_tab tabs d s'.mem })
  unfolding dump_begin
  begin_named p d n s s' sz len more run =
      let yes : ltb 0 n ≡ true = ground arith in rw (sz, len, yes, run) refl

  pub end_pop :
      (d : ℕ) (s s' : Port)
      → strlen fuel s.mem tabs ≡ some (suc d)
      → d < 255
      → mach_early_kprintf fuel buf fmt.close_node
          (tabs ∷ [])
          (record s { mem = store8 s.mem (tabs + d) 0 })
        ≡ some s'
      → dump_end fuel buf tabs fdt_base fmt s ≡ some s'
  unfolding dump_end
  end_pop d s s' sz small run =
      let last : u32 (suc d + (2 ^ 32 - 1)) ≡ d = omega arith in rw (sz, last) run

  pub prop_name :
      (p off q : ℕ) (s s' : Port)
      → be32 s.mem (p + 8) ≡ off
      → get_string s.mem fdt_base off ≡ q
      → mach_early_kprintf fuel buf fmt.prop_line (tabs ∷ q ∷ []) s ≡ some s'
      → dump_prop fuel buf tabs fdt_base fmt p s ≡ some s'
  unfolding dump_prop
  prop_name p off q s s' offset name run = rw (offset, name) run

  null_ends :
      (left : ℕ) (s : Port) → 0 < left → dump_fdt_loop fuel buf tabs fdt_base fmt left 0 s ≡ some s
  unfolding dump_fdt_loop
  null_ends zero s enough = absurd (omega arith)
  null_ends (suc left) s enough = refl

  -- Where there is no tree, nothing is printed.
  pub dump_fdt-null :
      (s : Port)
      → 0 < fuel
      → is_using_fdt s.mem fdt_base ≡ false
      → dump_fdt fuel buf tabs fdt_base fmt s ≡ some s
  unfolding dump_fdt get_root_node
  dump_fdt-null s enough none = rw none (null_ends fuel s enough)

  pub loop_step :
      (left p p' : ℕ) (s s' : Port)
      → p ≢ 0
      → dump_tag fuel buf tabs fdt_base fmt p s ≡ some s'
      → next_tag fuel s'.mem p ≡ some p'
      → dump_fdt_loop fuel buf tabs fdt_base fmt (suc left) p s
        ≡ dump_fdt_loop fuel buf tabs fdt_base fmt left p' s'
  unfolding dump_fdt_loop
  loop_step left p p' s s' there run next = rw (==_ne p 0 there, run, next) refl

  pub loop_null :
      (left : ℕ) (s : Port) → dump_fdt_loop fuel buf tabs fdt_base fmt (suc left) 0 s ≡ some s
  unfolding dump_fdt_loop
  loop_null left s = refl
