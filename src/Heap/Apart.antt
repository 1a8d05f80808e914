-- ===== src/Heap/Apart.antt =====
-- Free chunks never lie next to one another.
use Prim.{Unit}
use sugarcat.Common.{ℕ, ◌≡◌, Bool, true, false, ◌&&◌, List, [], ◌∷◌, arith, ◌==◌, if◌then◌else◌}
use sugarcat.Heap.Chunks.{Chunk, past}
use sugarcat.Heap.Free.{freed, absorb, join, release}

abbrev pub first_free : List Chunk → Bool
first_free [] = false
first_free (c ∷ cs) = c.is_free

abbrev pub IsCoalesced : List Chunk → Type 0
IsCoalesced [] = Unit
IsCoalesced (c ∷ cs) = ((c.is_free && first_free cs) ≡ false) × IsCoalesced cs

absorb-IsCoalesced :
    (c : Chunk) (cs : List Chunk)
    → IsCoalesced cs
    → c.is_free ≡ true
    → IsCoalesced (absorb c cs) × (first_free (absorb c cs) ≡ true)
absorb-IsCoalesced c [] h free = ground arith
absorb-IsCoalesced c (d ∷ cs) h free = ground arith

join-IsCoalesced :
    (c : Chunk) (ys : List Chunk)
    → IsCoalesced ys
    → first_free ys ≡ true
    → IsCoalesced (join c ys) × (first_free (join c ys) ≡ c.is_free)
join-IsCoalesced c [] h free = cc
join-IsCoalesced c (y ∷ ys) h free = ground arith

-- Freeing keeps free chunks apart; elsewhere than at the chunk itself it leaves the first chunk
-- free or taken, and at a taken chunk it leaves a free one.
release-first_free :
    (a p : ℕ) (c : Chunk) (cs : List Chunk)
    → IsCoalesced (c ∷ cs)
    → IsCoalesced (release a p (c ∷ cs))
      × (first_free (release a p (c ∷ cs)) ≡ (if p == a then true else c.is_free))
unfolding release
release-first_free a p c [] h = ground (arith, absorb-IsCoalesced (freed c) [])
release-first_free a p c (d ∷ cs) h = ground (
  arith,
  absorb-IsCoalesced (freed c) (d ∷ cs),
  release-first_free a (past p c) d cs,
  join-IsCoalesced c (release a (past p c) (d ∷ cs)),
)

-- In a heap whose free chunks do not lie next to one another, freeing a chunk leaves one.
pub release-IsCoalesced :
    (a p : ℕ) (cs : List Chunk) → IsCoalesced cs → IsCoalesced (release a p cs)
unfolding release
release-IsCoalesced a p [] h = h
release-IsCoalesced a p (c ∷ cs) h = (release-first_free a p c cs h).0
