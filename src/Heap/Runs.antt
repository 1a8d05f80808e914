-- ===== src/Heap/Runs.antt =====
-- What holds of every state that a client of the allocator can come to.
use native.Mathlib.Nat.{pow-le-pow_right}
use Prim.{tt}
use sugarcat.Common.{
  ℕ, ◌+◌, ◌-◌, ◌^◌, ◌≤◌, ◌<◌, ◌≡◌, ◌⊎◌, inl, inr, refl, ap, sym, ◌∙◌, true, false, List, [], ◌∷◌,
  length, arith, subst, ◌==◌, ==_ne, Bool-cases,
}
use sugarcat.Memory.{Memory}
use sugarcat.Heap.{
  size, heap_init, page_size, entry_size, Outcome, returned, round_size, kmalloc, kfree,
}
use sugarcat.Heap.Chunks.{Chunk}
use sugarcat.Heap.Free.{release}
use sugarcat.Heap.Release.{IsHeap, taken_at, kfree-release}
use sugarcat.Heap.Apart.{release-IsCoalesced}
use sugarcat.Heap.Malloc.{hand_out, place}
use sugarcat.Heap.Alloc.{Allocated, Refused, kmalloc-hand_out}
use sugarcat.Heap.Rounding.{round_size_lem}
use sugarcat.Heap.Held.{
  taken_at-hand_out, taken_at-place, taken_at-release, hand_out-IsCoalesced, link-hand_out,
}
use sugarcat.Heap.Extents.{length-Tiles, bytes_at-hand_out, size-bytes_at}
use sugarcat.Heap.Client.{
  Client, among, keep, drop_pointer, rounds, Step, malloc, free_null, free, Sound,
}
use sugarcat.Heap.Fresh.{
  whole_page, heap_init-Tiles, among-drop, same_number, among-other, returned-pointer,
  returned-memory, kmalloc-zero, kfree-null, release-first_link,
}

-- What a pointer that `kmalloc` returned for a size is, in the state before: null, or not held, and
-- its chunk has the size.
abbrev pub Served : Memory → List ℕ → (wanted ptr : ℕ) → Type 0
Served m' held wanted ptr =
    (ptr ≡ 0) ⊎ ((among ptr held ≡ false) × (wanted ≤ size m' (ptr - entry_size)))

pub room :
    (m : Memory) (start end w : ℕ) (cs : List Chunk) (o : Outcome)
    (al : Allocated m start end w cs o)
    → (al.room ≡ w) ⊎ (w + 16 < al.room)
room m start end w cs o al = elim al.fits [ inl exact ↦ inl exact | inr large ↦ inr large.0 ]

module _ (start : ℕ) (there : 0 < start) (word : start + page_size < 2 ^ 32) where
  pub fresh-Sound : (m : Memory) → Sound start (record { memory = heap_init m start; held = [] })
  fresh-Sound m = record {
    chunks = whole_page;
    heap = record { tiles = heap_init-Tiles m start there word; word = word };
    apart = (refl, tt);
    first = refl;
    taken = λ x h. cc;
  }

  enough : (c : Client) (s : Sound start c) → length s.chunks < rounds
  enough c s =
      omega (arith, length-Tiles c.memory (start + page_size) 0 start s.chunks s.heap.tiles)

  -- `kmalloc` in a state that is sound.
  request :
      (c : Client) (wanted : ℕ) (s : Sound start c)
      → 0 < wanted
      → round_size wanted ≤ 2 ^ 31
      → Refused c.memory (round_size wanted) s.chunks (kmalloc rounds start c.memory wanted)
        ⊎ Allocated c.memory start
            (start + page_size)
            (round_size wanted)
            s.chunks
            (kmalloc rounds start c.memory wanted)
  request c wanted s positive small =
      let w = round_size wanted in
      subst
        (λ h.
          Refused c.memory w s.chunks (kmalloc rounds h c.memory wanted)
          ⊎ Allocated c.memory start (start + page_size) w s.chunks
              (kmalloc rounds h c.memory wanted))
        s.first
        (kmalloc-hand_out rounds wanted start (start + page_size) c.memory s.chunks s.heap positive
          (omega arith) (enough c s))

  Allocated-Sound :
      (c : Client) (w : ℕ) (s : Sound start c) (o : Outcome)
      (al : Allocated c.memory start (start + page_size) w s.chunks o)
      → Sound start (record { memory = al.memory; held = (place w al.chunk al.room + 16) ∷ c.held })
  Allocated-Sound c w s o al = record {
    chunks = hand_out w al.chunk start s.chunks;
    heap = al.heap;
    apart = hand_out-IsCoalesced w al.chunk start al.room s.chunks al.at s.apart;
    first = link-hand_out w al.chunk start al.room s.chunks al.at;
    taken = λ x h. elim (Bool-cases (place w al.chunk al.room + 16 == x)) [
      | inl same ↦
          (place w al.chunk al.room, same_number (place w al.chunk al.room + 16) x same, al.taken)
      | inr other ↦
          let (a, is, taken) =
            s.taken x (among-other x (place w al.chunk al.room + 16) c.held h other) in
          (
            a,
            is,
            taken_at-hand_out w al.chunk start al.room a s.chunks al.at
                (room c.memory start (start + page_size) w s.chunks o al) taken,
          )
    ];
  }

  Allocated-fresh :
      (c : Client) (w : ℕ) (s : Sound start c) (o : Outcome)
      (al : Allocated c.memory start (start + page_size) w s.chunks o)
      → among (place w al.chunk al.room + 16) c.held ≡ false
  Allocated-fresh c w s o al = elim (Bool-cases (among (place w al.chunk al.room + 16) c.held)) [
    | inl held ↦
        let (a, is, taken) = s.taken (place w al.chunk al.room + 16) held in
        let same : a ≡ place w al.chunk al.room = omega (arith, is) in
        let not_taken =
          taken_at-place w al.chunk start al.room s.chunks al.at
            (room c.memory start (start + page_size) w s.chunks o al) in
        cc (taken, ap (λ x. taken_at x start s.chunks) same, not_taken)
    | inr new ↦ new
  ]

  Allocated-size :
      (c : Client) (w : ℕ) (s : Sound start c) (o : Outcome)
      (al : Allocated c.memory start (start + page_size) w s.chunks o)
      → size al.memory (place w al.chunk al.room) ≡ w
  Allocated-size c w s o al =
      size-bytes_at al.memory (start + page_size) 0 start (place w al.chunk al.room)
        (hand_out w al.chunk start s.chunks) al.heap.tiles al.taken
      ∙ bytes_at-hand_out w al.chunk start al.room s.chunks al.at
          (room c.memory start (start + page_size) w s.chunks o al)

  -- Every request returns, in a sound state, a pointer that is null or new and large enough.
  unfoldable pub Answer : Client → ℕ → Type 0
  Answer c wanted =
      (x : ℕ) × (m' : Memory) × (kmalloc rounds start c.memory wanted ≡ returned x m')
      × Sound start (record { memory = m'; held = keep x c.held })
      × Served m' c.held wanted x

  pub serve : (c : Client) (wanted : ℕ) → Sound start c → wanted ≤ 2 ^ 31 → Answer c wanted
  unfolding Answer
  serve c wanted s small =
      let (e, is, four, top, covers, least) = round_size_lem wanted small in
      let bound : round_size wanted ≤ 2 ^ 31 =
        subst (λ n. n ≤ 2 ^ 31) (sym is) (pow-le-pow_right {n = 2} (omega arith) {j = 31} top) in
      elim (Bool-cases (wanted == 0)) [
        | inl nothing ↦
            let zero_wanted : wanted ≡ 0 = ground arith in
            (
              0,
              c.memory,
              ap (kmalloc rounds start c.memory) zero_wanted ∙ kmalloc-zero rounds start c.memory,
              s,
              inl refl,
            )
        | inr some_bytes ↦ elim (request c wanted s (ground arith) bound) [
          | inl refused ↦ (0, c.memory, refused.0, s, inl refl)
          | inr al ↦
              let o = kmalloc rounds start c.memory wanted in
              let ptr = place (round_size wanted) al.chunk al.room + 16 in
              let back : ptr - entry_size ≡ place (round_size wanted) al.chunk al.room =
                omega arith in
              let bytes : size al.memory (ptr - entry_size) ≡ round_size wanted =
                ap (size al.memory) back ∙ Allocated-size c (round_size wanted) s o al in
              let there : (ptr == 0) ≡ false = ==_ne ptr 0 (omega arith) in
              (
                ptr,
                al.memory,
                al.result,
                rw there (Allocated-Sound c (round_size wanted) s o al),
                inr (
                  Allocated-fresh c (round_size wanted) s o al,
                  omega (arith, bytes, is, covers),
                ),
              )
        ]
      ]

  release-Sound :
      (c : Client) (ptr : ℕ)
      → Sound start c
      → among ptr c.held ≡ true
      → Sound start (record { memory = kfree c.memory ptr; held = drop_pointer ptr c.held })
  release-Sound c ptr s holds =
      let (a, is, taken) = s.taken ptr holds in
      let there = kfree-release c.memory start (start + page_size) a s.chunks s.heap taken in
      record {
        chunks = release a start s.chunks;
        heap =
            subst
              (λ x. IsHeap (kfree c.memory x) start (start + page_size) (release a start s.chunks))
              (sym is) there;
        apart = release-IsCoalesced a start s.chunks s.apart;
        first = release-first_link a start s.chunks taken;
        taken = λ x h.
            let (held, other) = among-drop x ptr c.held h in
            let (b, at, taken_b) = s.taken x held in
            (
              b,
              at,
              taken_at-release a start b s.chunks
                  (λ same. other (at ∙ ap (λ (n : ℕ). n + 16) (sym same) ∙ sym is)) taken_b,
            );
      }

  -- Whatever the request is known to return is what it returns.
  settle :
      (c : Client) (wanted ptr : ℕ) (m' : Memory)
      → Answer c wanted
      → kmalloc rounds start c.memory wanted ≡ returned ptr m'
      → Sound start (record { memory = m'; held = keep ptr c.held }) × Served m' c.held wanted ptr
  unfolding Answer
  settle c wanted ptr m' (x, m1, result, sound, served) runs =
      let same = sym result ∙ runs in
      subst
        (λ p.
          Sound start (record { memory = m'; held = keep p c.held }) × Served m' c.held wanted p)
        (returned-pointer x ptr m1 m' same)
        (subst
          (λ m.
            Sound start (record { memory = m; held = keep x c.held }) × Served m c.held wanted x)
          (returned-memory x ptr m1 m' same) (sound, served))

  pub Step-Sound : (c c' : Client) → Sound start c → Step start c c' → Sound start c'
  Step-Sound c c' s (malloc wanted ptr small runs) =
      (settle c wanted ptr c'.memory (serve c wanted s small) runs).0
  Step-Sound c c' s free_null =
      subst (λ m. Sound start (record { memory = m; held = c.held })) (sym (kfree-null c.memory)) s
  Step-Sound c c' s (free ptr holds) = release-Sound c ptr s holds
