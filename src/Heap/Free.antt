-- ===== src/Heap/Free.antt =====
-- `kfree` on the chunks of a heap.
use sugarcat.Common.{
  ℕ, ◌+◌, ◌^◌, ◌≤◌, ◌<◌, ◌≡◌, inl, inr, refl, sym, ◌∙◌, Bool, true, false, List, [], ◌∷◌, arith,
  subst, ◌==◌, ==_ne, Bool-cases, if◌then◌else◌,
}
use sugarcat.Memory.{Memory, load32}
use sugarcat.Memory.Laws.{load32-store32, load32-store32_apart}
use sugarcat.Heap.{next, set_status, status_free, merge_next, eat_next, eat_node, release_entry}
use sugarcat.Heap.Chunks.{Chunk, status_of, is_free-status, past, link, Tiles, Tiles-store32}
use sugarcat.Heap.Merge.{joined, merge_next-Tiles, load32-merge_next}

abbrev pub freed : Chunk → Chunk
freed c = record c { is_free = true }

-- A freed chunk takes in the next one if that is free.
abbrev pub absorb : Chunk → List Chunk → List Chunk
absorb c [] = c ∷ []
absorb c (d ∷ cs) = if d.is_free then joined c d ∷ cs else c ∷ d ∷ cs

-- A chunk takes in the freed one after it if it is free itself.
abbrev pub join : Chunk → List Chunk → List Chunk
join b [] = b ∷ []
join b (c ∷ cs) = if b.is_free then joined b c ∷ cs else b ∷ c ∷ cs

-- Freeing the chunk at `a` in a run of chunks at `p`.
unfoldable pub release : ℕ → ℕ → List Chunk → List Chunk
release a p [] = []
release a p (c ∷ cs) =
    if p == a
    then (if c.is_free then c ∷ cs else absorb (freed c) cs)
    else (if past p c == a then join c (release a (past p c) cs) else c ∷ release a (past p c) cs)

status_of-lt : (f : Bool) → status_of f < 2 ^ 32
status_of-lt true = omega arith
status_of-lt false = omega arith

pub Tiles-status :
    (m : Memory) (end prv p : ℕ) (c : Chunk) (cs : List Chunk) (f : Bool)
    → Tiles m end prv p (c ∷ cs)
    → Tiles (set_status m p (status_of f)) end prv p (record c { is_free = f } ∷ cs)
Tiles-status m end prv p c cs f (here, fits, (hs, hz, hn, hp), t) = (
  here,
  fits,
  (
    load32-store32 m p (status_of f) (status_of-lt f),
    load32-store32_apart m p (p + 4) (status_of f) (omega arith) ∙ hz,
    load32-store32_apart m p (p + 8) (status_of f) (omega arith) ∙ hn,
    load32-store32_apart m p (p + 12) (status_of f) (omega arith) ∙ hp,
  ),
  Tiles-store32 m end p (past p c) p (status_of f) cs t (omega arith),
)

-- What a change of memory leaves below `p`.
abbrev pub SameBelow : ℕ → Memory → Memory → Type 0
SameBelow p m m' = (a : ℕ) → a + 4 ≤ p → load32 m' a ≡ load32 m a

-- The state after a change at `p`: the chunks from there on, and the rest as it was.
abbrev pub Changed : Memory → (end prv p : ℕ) → List Chunk → Memory → Type 0
Changed m end prv p cs m' = Tiles m' end prv p cs × SameBelow p m m'

module _ (m : Memory) (end prv p : ℕ) (word : end < 2 ^ 32) (b c : Chunk) (cs : List Chunk)
    (t : Tiles m end prv p (b ∷ c ∷ cs)) where
  -- Both of `kfree`'s looks, with the test as a parameter.
  merged_if :
      (f : Bool)
      → Changed m end prv p
          (if f then joined b c ∷ cs else b ∷ c ∷ cs)
          (if f then merge_next m p (past p b) else m)
  merged_if true =
      (merge_next-Tiles m end prv p b c cs t word, load32-merge_next m end prv p b c cs t word)
  merged_if false = (t, λ a below. refl)

  eat_next-eq : eat_next m p (past p b) ≡ (if c.is_free then merge_next m p (past p b) else m)
  unfolding eat_next
  eat_next-eq = rw (==_ne (past p b) 0 (omega arith), t.3.2.0, is_free-status c.is_free) refl

  eat_node-eq : eat_node m (past p b) p ≡ (if b.is_free then merge_next m p (past p b) else m)
  unfolding eat_node
  eat_node-eq = rw (==_ne p 0 (omega arith), t.2.0, is_free-status b.is_free) refl

  eat_next-Changed : Changed m end prv p (absorb b (c ∷ cs)) (eat_next m p (past p b))
  eat_next-Changed =
      subst (Changed m end prv p (absorb b (c ∷ cs))) (sym eat_next-eq) (merged_if c.is_free)

  eat_node-Changed : Changed m end prv p (join b (c ∷ cs)) (eat_node m (past p b) p)
  eat_node-Changed =
      subst (Changed m end prv p (join b (c ∷ cs))) (sym eat_node-eq) (merged_if b.is_free)

-- Freeing an entry and looking right.
abbrev free_right : Memory → ℕ → Memory
free_right m node = eat_next (set_status m node status_free) node (next m node)

free_right-Changed :
    (m : Memory) (end prv p : ℕ) (c : Chunk) (cs : List Chunk)
    → end < 2 ^ 32
    → Tiles m end prv p (c ∷ cs)
    → Changed m end prv p (absorb (freed c) cs) (free_right m p)
unfolding eat_next
free_right-Changed m end prv p c [] word t = rw (t.2.2) (
  Tiles-status m end prv p c [] true t,
  λ a below. load32-store32_apart m p a status_free (omega arith),
)
free_right-Changed m end prv p c (d ∷ ds) word t =
    let (u, same) =
      eat_next-Changed (set_status m p status_free) end prv p word (freed c) d ds
        (Tiles-status m end prv p c (d ∷ ds) true t) in
    subst
      (λ x.
        Changed m end prv p (absorb (freed c) (d ∷ ds)) (eat_next (set_status m p status_free) p x))
      (sym t.2.2)
      (u, λ a below. same a below ∙ load32-store32_apart m p a status_free (omega arith))

pub absorb_cons :
    (c : Chunk) (cs : List Chunk) → (x : Chunk) × (xs : List Chunk) × (absorb c cs ≡ x ∷ xs)
absorb_cons c [] = (c, [], refl)
absorb_cons c (d ∷ ds) = elim (Bool-cases d.is_free) [
  | inl yes_free ↦ (joined c d, ds, rw yes_free refl)
  | inr taken ↦ (c, d ∷ ds, rw taken refl)
]

-- A change above a chunk leaves the chunk.
pub cons-Changed :
    (m m' : Memory) (end prv p : ℕ) (b c : Chunk) (cs ys : List Chunk)
    → Tiles m end prv p (b ∷ c ∷ cs)
    → link (past p b) ys ≡ past p b
    → Changed m end p (past p b) ys m'
    → Changed m end prv p (b ∷ ys) m'
cons-Changed m m' end prv p b c cs ys (here, fits, (hs, hz, hn, hp), t) there (u, same) = (
  (
    here,
    fits,
    (
      same p (omega arith) ∙ hs,
      same (p + 4) (omega arith) ∙ hz,
      same (p + 8) (omega arith) ∙ hn ∙ sym there,
      same (p + 12) (omega arith) ∙ hp,
    ),
    u,
  ),
  λ a below. same a (omega arith),
)

-- Freeing the first chunk of a heap.
pub release-first :
    (m : Memory) (end p : ℕ) (c : Chunk) (cs : List Chunk)
    → end < 2 ^ 32
    → Tiles m end 0 p (c ∷ cs)
    → Tiles (release_entry m p) end 0 p (absorb (freed c) cs)
unfolding release_entry eat_node
release-first m end p c cs word t = rw (t.2.3) (free_right-Changed m end 0 p c cs word t).0

-- Freeing the second chunk of a run.
pub release-second :
    (m : Memory) (end prv p : ℕ) (b c : Chunk) (cs : List Chunk)
    → end < 2 ^ 32
    → Tiles m end prv p (b ∷ c ∷ cs)
    → Changed m end prv p (join b (absorb (freed c) cs)) (release_entry m (past p b))
unfolding release_entry
release-second m end prv p b c cs word t =
    let q = past p b in
    let m' = free_right m q in
    let (x, xs, split) = absorb_cons (freed c) cs in
    let changed = free_right-Changed m end p q c cs word t.3 in
    let (u, same) =
      cons-Changed m m' end prv p b c cs (x ∷ xs) t refl
        (subst (λ ys. Changed m end p q ys m') split changed) in
    let (v, below) = eat_node-Changed m' end prv p word b x xs u in
    subst (λ w. Changed m end prv p (join b (absorb (freed c) cs)) (eat_node m' q w)) (sym t.3.2.3)
      (subst (λ ys. Changed m end prv p (join b ys) (eat_node m' q p)) (sym split)
        (v, λ a low. below a low ∙ same a low))
