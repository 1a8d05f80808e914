-- ===== src/Heap/Merge.antt =====
-- One entry taking in the next.
use sugarcat.Common.{ℕ, ◌+◌, ◌^◌, ◌≤◌, ◌<◌, ◌≡◌, ◌⊎◌, ap, sym, ◌∙◌, List, ◌∷◌, arith, subst}
use sugarcat.Memory.{Memory, load32}
use sugarcat.Memory.Laws.{load32-store32, load32-store32_apart}
use sugarcat.Heap.{size, set_next, set_size, relink, merge_next}
use sugarcat.Heap.Chunks.{
  Chunk, past, link, Tiles, Tiles-store32, Tiles-relink, load32-relink, link-lt,
}

-- Both chunks and the second's header as one chunk.
abbrev pub joined : Chunk → Chunk → Chunk
joined b c = record b { bytes = b.bytes + 16 + c.bytes }

module _ (m : Memory) (end prv p : ℕ) (b c : Chunk) (cs : List Chunk)
    (t : Tiles m end prv p (b ∷ c ∷ cs)) (word : end < 2 ^ 32) where
  abbrev q : ℕ
  q = past (past p b) c

  abbrev m1 : Memory
  m1 = set_next m p (link q cs)

  abbrev m2 : Memory
  m2 = relink m1 (link q cs) p

  back : link q cs < 2 ^ 32
  back = link-lt m end (past p b) q cs t.3.3 word

  abbrev whole : ℕ
  whole = b.bytes + 16 + c.bytes

  same : past p (joined b c) ≡ q
  same = omega arith

  -- Up to the second entry's header, linking changes only the first entry's `next`.
  kept : (a : ℕ) → a + 4 ≤ q + 12 → (a + 4 ≤ p + 8) ⊎ (p + 12 ≤ a) → load32 m2 a ≡ load32 m a
  kept a low apart =
      load32-relink m1 q p a cs low ∙ load32-store32_apart m (p + 8) a (link q cs) (ground arith)

  size-left : size m2 p ≡ b.bytes
  size-left = kept (p + 4) (omega arith) (omega arith) ∙ t.2.1

  size-right : size m2 (past p b) ≡ c.bytes
  size-right = kept (past p b + 4) (omega arith) (omega arith) ∙ t.3.2.1

  merge_next-eq : merge_next m p (past p b) ≡ set_size m2 p whole
  unfolding merge_next
  merge_next-eq =
      rw (t.3.2.2, load32-store32 m (p + 8) (link q cs) back, size-left, size-right)
        (ap (set_size m2 p) (omega arith))

  pub merge_next-Tiles : Tiles (merge_next m p (past p b)) end prv p (joined b c ∷ cs)
  merge_next-Tiles =
      let rest =
        Tiles-relink m1 end (past p b) q p cs
          (Tiles-store32 m end (past p b) q (p + 8) (link q cs) cs t.3.3 (omega arith))
          (omega arith) in
      subst (λ m'. Tiles m' end prv p (joined b c ∷ cs)) (sym merge_next-eq)
        (
          t.0,
          omega arith,
          (
            load32-store32_apart m2 (p + 4) p whole (omega arith)
                ∙ kept p (omega arith) (omega arith)
                ∙ t.2.0,
            load32-store32 m2 (p + 4) whole (omega arith),
            load32-store32_apart m2 (p + 4) (p + 8) whole (omega arith)
                ∙ load32-relink m1 q p (p + 8) cs (omega arith)
                ∙ load32-store32 m (p + 8) (link q cs) back
                ∙ ap (λ x. link x cs) (sym same),
            load32-store32_apart m2 (p + 4) (p + 12) whole (omega arith)
                ∙ kept (p + 12) (omega arith) (omega arith)
                ∙ t.2.3,
          ),
          subst (λ x. Tiles (set_size m2 p whole) end p x cs) (sym same)
              (Tiles-store32 m2 end p q (p + 4) whole cs rest (omega arith)),
        )

  pub load32-merge_next : (a : ℕ) → a + 4 ≤ p → load32 (merge_next m p (past p b)) a ≡ load32 m a
  load32-merge_next a below =
      ap (λ m'. load32 m' a) merge_next-eq
      ∙ load32-store32_apart m2 (p + 4) a whole (omega arith)
      ∙ kept a (omega arith) (omega arith)
