-- ===== src/Str/Moves.antt =====
-- What `strncpy` leaves at every address.
use sugarcat.Common.{
  ℕ, zero, suc, ◌+◌, ◌-◌, ◌≤◌, ◌<◌, ◌≡◌, ◌≢◌, ◌⊎◌, ◌∙◌, List, [], ◌∷◌, length, arith, ltb, leb,
  ◌&&◌, if◌then◌else◌,
}
use native.Mathlib.Nat.{add-zero}
use sugarcat.Memory.{Memory, load8, store8}
use sugarcat.Memory.Laws.{load8-lt, load8-store8, load8-store8_ne}
use sugarcat.Str.{fill_loop, copy_loop, strncpy}
use sugarcat.Str.Length.{CStr}

fill_loop_at :
    (left i dest a : ℕ) (m : Memory)
    → load8 (fill_loop left i dest m) a
      ≡ (if leb (dest + i) a && ltb a (dest + i + left) then 0 else load8 m a)
unfolding fill_loop
fill_loop_at zero i dest a m = ground arith
fill_loop_at (suc left) i dest a m = ground (
  arith,
  fill_loop_at left (i + 1) dest a (store8 m (dest + i) 0),
  load8-store8 m (dest + i) 0,
  load8-store8_ne m (dest + i) a 0,
)

-- A write outside a string leaves the string.
CStr-store8 :
    (p b c : ℕ) (m : Memory) (xs : List ℕ)
    → CStr m p xs
    → (b < p) ⊎ (p + length xs < b)
    → CStr (store8 m b c) p xs
CStr-store8 p b c m [] s apart = load8-store8_ne m b p c (omega arith) ∙ s
CStr-store8 p b c m (x ∷ xs) (here, there, s) apart = (
  load8-store8_ne m b p c (omega arith) ∙ here,
  there,
  CStr-store8 (p + 1) b c m xs s (ground arith),
)

copy_loop_at :
    (left i dest src a : ℕ) (m : Memory) (xs : List ℕ)
    → CStr m (src + i) xs
    → (dest + i + left ≤ src + i) ⊎ (src + i + length xs < dest)
    → load8 (copy_loop left i dest src m) a ≡ (
        if leb (dest + i) a && ltb a (dest + i + left)
        then (if ltb (a - dest) (i + length xs) then load8 m (src + (a - dest)) else 0)
        else load8 m a)
unfolding copy_loop
copy_loop_at zero i dest src a m xs s apart = ground arith
copy_loop_at (suc left) i dest src a m [] s apart =
    ground (arith, fill_loop_at (suc left) i dest a m)
copy_loop_at (suc left) i dest src a m (x ∷ xs) (here, there, s) apart =
    let m' = store8 m (dest + i) (load8 m (src + i)) in
    ground (
      arith,
      copy_loop_at left (i + 1) dest src a m' xs,
      CStr-store8 (src + i + 1) (dest + i) (load8 m (src + i)) m xs s,
      load8-lt m (src + i),
      load8-store8 m (dest + i) (load8 m (src + i)),
      load8-store8_ne m (dest + i) a (load8 m (src + i)),
      load8-store8_ne m (dest + i) (src + (a - dest)) (load8 m (src + i)),
    )

-- `strncpy` copies as much of the string as there is room for, fills the rest of the room with null
-- bytes, and writes nothing else, if the two do not overlap.
pub strncpy_at :
    (dest src n a : ℕ) (m : Memory) (xs : List ℕ)
    → dest ≢ 0
    → src ≢ 0
    → CStr m src xs
    → (dest + n ≤ src) ⊎ (src + length xs < dest)
    → load8 (strncpy dest src n m).1 a ≡ (
        if leb dest a && ltb a (dest + n)
        then (if ltb (a - dest) (length xs) then load8 m (src + (a - dest)) else 0)
        else load8 m a)
unfolding strncpy
strncpy_at dest src n a m xs d0 s0 s apart =
    ground (arith, copy_loop_at n 0 dest src a m xs (rw (add-zero src) s))
