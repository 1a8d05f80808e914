-- ===== src/Init/Regions.antt =====
-- Regions of memory from the tag list, and the initial ramdisk's from the device tree.
use sugarcat.Common.{
  ltb, leb, false, true, ◌^◌, ◌%◌, ℕ, zero, suc, ◌+◌, ◌*◌, ◌<◌, ◌≡◌, ◌⊎◌, inl, inr, refl, some,
  List, [], ◌∷◌, length, ◌==◌, if◌then◌else◌, arith, Bool-cases, ==_ne,
}
use sugarcat.Errno.{esucc, enotfnd}
use sugarcat.Memory.{Memory}
use sugarcat.Region.{MmReg}
use sugarcat.Atag.{atag_core, atag_mem}
use sugarcat.Atag.Chain.{Tag, Chain, address, get_tag-address}
use sugarcat.Init.{Result, coalesce, mem_of, mem_atag_loop, get_mem_atag}

-- The regions of a list's memory tags, in order.
abbrev pub mems : Memory → ℕ → List Tag → List MmReg
mems m p [] = []
mems m p (t ∷ ts) =
    if t.tag == atag_mem
    then mem_of m p ∷ mems m (p + 4 * t.size) ts
    else mems m (p + 4 * t.size) ts

-- What a region that was found becomes by a further one, in 32-bit arithmetic.
abbrev pub join : MmReg → MmReg → MmReg
join fnd more =
    if (fnd.base + fnd.size) % 2 ^ 32 == more.base
    then record { base = fnd.base; size = (fnd.size + more.size) % 2 ^ 32 }
    else if leb more.size fnd.size
    then fnd
    else more

abbrev pub merge : MmReg → List MmReg → MmReg
merge r [] = r
merge r (x ∷ xs) = merge (join r x) xs

coalesce-join : (fnd more : MmReg) → coalesce fnd more ≡ join fnd more
unfolding coalesce
coalesce-join fnd more = elim (Bool-cases (leb more.size fnd.size)) [
  | inl less ↦
      let not_more : ltb fnd.size more.size ≡ false = ground arith in rw (less, not_more) refl
  | inr larger ↦
      let more_size : ltb fnd.size more.size ≡ true = ground arith in rw (larger, more_size) refl
]

-- The outcome for the regions that a list has.
abbrev pub merged : MmReg → List MmReg → Result
merged reg [] = (enotfnd, some reg)
merged reg (r ∷ rs) = (esucc, some (merge r rs))

-- Where the first memory tag of a list is, and what comes after it.
locate :
    (p : ℕ) (m : Memory) (ts : List Tag)
    → 0 < p
    → Chain m p ts
    → ((address atag_mem p ts ≡ 0) × (mems m p ts ≡ []))
      ⊎ ((q : ℕ) × (t : Tag) × (us : List Tag) × (address atag_mem p ts ≡ q)
          × (0 < q)
          × Chain m q (t ∷ us)
          × (mems m p ts ≡ mem_of m q ∷ mems m (q + 4 * t.size) us)
          × (length us < length ts))
locate p m [] here c = inl (refl, refl)
locate p m (t ∷ ts) here c = elim (Bool-cases (t.tag == atag_mem)) [
  | inl found ↦ inr (p, t, ts, rw found refl, here, c, rw found refl, omega arith)
  | inr other ↦ elim (locate (p + 4 * t.size) m ts (omega arith) c.4) [
    | inl (absent, empty) ↦ inl (rw (other, absent) refl, rw (other, empty) refl)
    | inr (q, u, us, at, there, rest, whole, less) ↦
        inr (q, u, us, rw (other, at) refl, there, rest, rw (other, whole) refl, omega arith)
  ]
]

mem_atag_loop-merge :
    (left fuel p : ℕ) (m : Memory) (t : Tag) (ts : List Tag) (fnd : MmReg)
    → 0 < p
    → Chain m p (t ∷ ts)
    → length ts < fuel
    → length ts < left
    → mem_atag_loop fuel m left p fnd ≡ some (merge fnd (mems m (p + 4 * t.size) ts))
unfolding mem_atag_loop
mem_atag_loop-merge zero fuel p m t ts fnd here c enough rounds = absurd (omega arith)
mem_atag_loop-merge (suc left) fuel p m t ts fnd here c enough rounds =
    let next = (get_tag-address fuel p atag_mem m t ts (omega arith) c enough).1 in
    elim (locate (p + 4 * t.size) m ts (omega arith) c.4) [
      | inl (absent, empty) ↦ rw (next, absent, empty) refl
      | inr (q, u, us, at, there, rest, whole, less) ↦
          rw
            (
              next,
              at,
              whole,
              ==_ne q 0 (omega arith),
              coalesce-join fnd (mem_of m q),
              mem_atag_loop-merge left fuel q m u us (join fnd (mem_of m q)) there rest
                  (omega arith) (omega arith),
            )
            refl
    ]

-- `init_get_mem_atag` ends within one round more than there are tags, and gives the memory tags'
-- regions joined from the first on: a next one that begins at the end of what was found, modulo
-- 2^32, adds its size to it, one that does not replaces it where it is larger, and is forgotten
-- otherwise; it answers ENOTFND, and leaves the structure as it
-- was, if the list does not begin with the core tag or has no memory tag after it.
pub get_mem_atag-merged :
    (fuel p : ℕ) (m : Memory) (t : Tag) (ts : List Tag) (reg : MmReg)
    → 0 < p
    → Chain m p (t ∷ ts)
    → length ts < fuel
    → get_mem_atag fuel m p (some reg)
      ≡ some (
          if t.tag == atag_core
          then merged reg (mems m (p + 4 * t.size) ts)
          else (enotfnd, some reg))
unfolding get_mem_atag
get_mem_atag-merged fuel p m t ts reg here c enough =
    let first = (get_tag-address fuel p atag_mem m t ts (omega arith) c enough).0 in
    elim (Bool-cases (t.tag == atag_core)) [
      | inl core ↦ elim (locate (p + 4 * t.size) m ts (omega arith) c.4) [
        | inl (absent, empty) ↦ rw (first, core, absent, empty) refl
        | inr (q, u, us, at, there, rest, whole, less) ↦
            rw
              (
                first,
                core,
                at,
                whole,
                ==_ne q 0 (omega arith),
                mem_atag_loop-merge fuel fuel q m u us (mem_of m q) there rest (omega arith)
                    (omega arith),
              )
              refl
      ]
      | inr other ↦ rw (first, other) refl
    ]
