-- ===== src/Heap/Split.antt =====
-- `break_chunk` on a free chunk, and the new entry taken.
use sugarcat.Common.{
  ℕ, ◌+◌, ◌-◌, ◌^◌, ◌≤◌, ◌<◌, ◌≡◌, ◌⊎◌, refl, ap, sym, ◌∙◌, true, false, List, ◌∷◌, arith, subst,
  u32, ltb,
}
use sugarcat.Memory.{Memory, load32}
use sugarcat.Memory.Laws.{load32-store32, load32-store32_apart}
use sugarcat.Heap.{
  next, set_status, set_size, set_next, set_prev, status_allocated, relink, break_chunk,
}
use sugarcat.Heap.Chunks.{
  Chunk, status_of, past, link, Tiles, Tiles-store32, Tiles-relink, load32-relink, link-lt,
}
use sugarcat.Heap.Free.{Changed}

-- What is left of a chunk, and the chunk that is split off for `w` bytes.
abbrev pub rest_of : ℕ → Chunk → Chunk
rest_of w c = record { bytes = c.bytes - (w + 16); is_free = true }

abbrev pub taken_of : ℕ → Chunk
taken_of w = record { bytes = w; is_free = false }

module _ (m : Memory) (end prv p w : ℕ) (c : Chunk) (cs : List Chunk)
    (t : Tiles m end prv p (c ∷ cs)) (word : end < 2 ^ 32) (free : c.is_free ≡ true)
    (large : w + 16 < c.bytes) where
  abbrev k : ℕ
  k = c.bytes - (w + 16)

  -- The new entry, and the chunk after it.
  abbrev pub r : ℕ
  r = past p (rest_of w c)

  abbrev q : ℕ
  q = past p c

  abbrev l : ℕ
  l = link q cs

  abbrev m1 : Memory
  m1 = set_size m p k

  abbrev m4 : Memory
  m4 = set_prev (set_next (set_size m1 r w) r l) r p

  abbrev m5 : Memory
  m5 = relink m4 l r

  abbrev m6 : Memory
  m6 = set_next m5 p r

  abbrev m7 : Memory
  m7 = set_status m6 r status_allocated

  back : l < 2 ^ 32
  back = link-lt m end p q cs t.3 word

  past-taken : past r (taken_of w) ≡ q
  past-taken = omega arith

  -- Up to the chunk's own header, and below the new entry's.
  kept4 : (a : ℕ) → (a + 4 ≤ p + 4) ⊎ (p + 8 ≤ a) → a + 4 ≤ r → load32 m4 a ≡ load32 m a
  kept4 a apart low =
      load32-store32_apart _ (r + 12) a p (omega arith)
      ∙ load32-store32_apart _ (r + 8) a l (omega arith)
      ∙ load32-store32_apart _ (r + 4) a w (omega arith)
      ∙ load32-store32_apart m (p + 4) a k (ground arith)

  -- What the last three writes leave.
  kept7 :
      (a : ℕ)
      → a + 4 ≤ q + 12
      → (a + 4 ≤ p + 8) ⊎ (p + 12 ≤ a)
      → (a + 4 ≤ r) ⊎ (r + 4 ≤ a)
      → load32 m7 a ≡ load32 m4 a
  kept7 a low one two =
      load32-store32_apart m6 r a status_allocated (ground arith)
      ∙ load32-store32_apart m5 (p + 8) a r (ground arith)
      ∙ load32-relink m4 q r a cs low

  pub break_chunk-eq : break_chunk m p w ≡ (r, m6)
  unfolding break_chunk
  break_chunk-eq =
      let actual : u32 (w + 16) ≡ w + 16 = omega arith in
      let new_node : u32 (p + u32 (k + 16)) ≡ r = omega arith in
      let room : ltb (w + 16) c.bytes ≡ true = ground arith in
      let next_node : next (set_size m1 r w) p ≡ l =
        load32-store32_apart m1 (r + 4) (p + 8) w (omega arith)
        ∙ load32-store32_apart m (p + 4) (p + 8) k (omega arith)
        ∙ t.2.2 in
      let next_new : next m4 r ≡ l =
        load32-store32_apart _ (r + 12) (r + 8) p (omega arith) ∙ load32-store32 _ (r + 8) l back in
      rw
        (
          t.2.0 ∙ ap status_of free,
          t.2.1,
          actual,
          load32-store32 m (p + 4) k (omega arith),
          new_node,
          next_node,
          next_new,
          room,
        )
        refl

  tail : Tiles m7 end r q cs
  tail =
      Tiles-store32 m6 end r q r status_allocated cs
        (Tiles-store32 m5 end r q (p + 8) r cs
          (Tiles-relink m4 end p q r cs
            (Tiles-store32 _ end p q (r + 12) p cs
              (Tiles-store32 _ end p q (r + 8) l cs
                (Tiles-store32 m1 end p q (r + 4) w cs
                  (Tiles-store32 m end p q (p + 4) k cs t.3 (omega arith)) (omega arith))
                (omega arith))
              (omega arith))
            (omega arith))
          (omega arith))
        (omega arith)

  pub split-Changed : Changed m end prv p (rest_of w c ∷ taken_of w ∷ cs) m7
  split-Changed = (
    (
      t.0,
      omega arith,
      (
        kept7 p (omega arith) (omega arith) (omega arith)
            ∙ kept4 p (omega arith) (omega arith)
            ∙ t.2.0
            ∙ ap status_of free,
        kept7 (p + 4) (omega arith) (omega arith) (omega arith)
            ∙ load32-store32_apart _ (r + 12) (p + 4) p (omega arith)
            ∙ load32-store32_apart _ (r + 8) (p + 4) l (omega arith)
            ∙ load32-store32_apart m1 (r + 4) (p + 4) w (omega arith)
            ∙ load32-store32 m (p + 4) k (omega arith),
        load32-store32_apart m6 r (p + 8) status_allocated (omega arith)
            ∙ load32-store32 m5 (p + 8) r (omega arith),
        kept7 (p + 12) (omega arith) (omega arith) (omega arith)
            ∙ kept4 (p + 12) (omega arith) (omega arith)
            ∙ t.2.3,
      ),
      (
        omega arith,
        omega arith,
        (
          load32-store32 m6 r status_allocated (omega arith),
          kept7 (r + 4) (omega arith) (omega arith) (omega arith)
              ∙ load32-store32_apart _ (r + 12) (r + 4) p (omega arith)
              ∙ load32-store32_apart _ (r + 8) (r + 4) l (omega arith)
              ∙ load32-store32 m1 (r + 4) w (omega arith),
          kept7 (r + 8) (omega arith) (omega arith) (omega arith)
              ∙ load32-store32_apart _ (r + 12) (r + 8) p (omega arith)
              ∙ load32-store32 _ (r + 8) l back
              ∙ ap (λ x. link x cs) (sym past-taken),
          kept7 (r + 12) (omega arith) (omega arith) (omega arith)
              ∙ load32-store32 _ (r + 12) p (omega arith),
        ),
        subst (λ x. Tiles m7 end r x cs) (sym past-taken) tail,
      ),
    ),
    λ a below.
        kept7 a (omega arith) (omega arith) (omega arith) ∙ kept4 a (omega arith) (omega arith),
  )
