-- ===== src/Heap/Safety.antt =====
-- What a client of the allocator can rely on, whatever it did before.
use sugarcat.Common.{ℕ, ◌+◌, ◌-◌, ◌^◌, ◌≤◌, ◌<◌, ◌≡◌, ◌≢◌, ◌⊎◌, inl, inr, ap, sym, ◌∙◌, true, arith}
use sugarcat.Memory.{Memory}
use sugarcat.Heap.{size, page_size, entry_size, returned, kmalloc}
use sugarcat.Heap.Client.{Client, among, rounds, Reach, fresh, then_step, Sound}
use sugarcat.Heap.Held.{taken_at-ge}
use sugarcat.Heap.Extents.{taken_at-apart, taken_at-fits}
use sugarcat.Heap.Runs.{Served, Answer, fresh-Sound, Step-Sound, serve}

-- From a page that does not start at 0 and ends below 2^32, whatever a client asks for and frees,
-- memory stays a heap of chunks that fill the page, no two free ones lie next to one another, and
-- every pointer that the client holds is just past the header of a taken chunk.
pub Reach-Sound :
    (start : ℕ)
    → 0 < start
    → start + page_size < 2 ^ 32
    → (c : Client) → Reach start c
    → Sound start c
Reach-Sound start there word c (fresh m) = fresh-Sound start there word m
Reach-Sound start there word c (then_step {c = b} before step) =
    Step-Sound start there word b c (Reach-Sound start there word b before) step

-- The block that a pointer is to, by the size in its header.
abbrev pub end_of : Memory → ℕ → ℕ
end_of m x = x + size m (x - entry_size)

abbrev pub Inside : ℕ → Memory → ℕ → Type 0
Inside start m x = (start + entry_size ≤ x) × (end_of m x ≤ start + page_size)

block_is : (m : Memory) (x a : ℕ) → x ≡ a + 16 → size m (x - entry_size) ≡ size m a
block_is m x a is = let back : x - entry_size ≡ a = omega arith in ap (size m) back

-- In every state that a client can come to, the blocks of two different pointers that it holds do
-- not overlap, nor does either overlap the other's header, and both lie in the page.
pub Reach-apart :
    (start : ℕ)
    → 0 < start
    → start + page_size < 2 ^ 32
    → (c : Client) → Reach start c
    → (x y : ℕ) → among x c.held ≡ true
    → among y c.held ≡ true
    → x ≢ y
    → Inside start c.memory x
      × Inside start c.memory y
      × ((end_of c.memory x + entry_size ≤ y) ⊎ (end_of c.memory y + entry_size ≤ x))
Reach-apart start there word c run x y hold_x hold_y other =
    let s = Reach-Sound start there word c run in
    let (a, is_a, taken_a) = s.taken x hold_x in
    let (b, is_b, taken_b) = s.taken y hold_y in
    let top = start + page_size in
    let size_x = block_is c.memory x a is_a in
    let size_y = block_is c.memory y b is_b in
    let fits_a = taken_at-fits c.memory top 0 start a s.chunks s.heap.tiles taken_a in
    let fits_b = taken_at-fits c.memory top 0 start b s.chunks s.heap.tiles taken_b in
    (
      (omega (arith, taken_at-ge a start s.chunks taken_a), omega arith),
      (omega (arith, taken_at-ge b start s.chunks taken_b), omega arith),
      elim (taken_at-apart c.memory top 0 start a b s.chunks s.heap.tiles taken_a taken_b
          (λ same. other (is_a ∙ ap (λ (n : ℕ). n + 16) same ∙ sym is_b))) [
            | inl below ↦ inl (omega arith)
            | inr above ↦ inr (omega arith)
          ],
    )

-- In every state that a client can come to, a request for up to 2^31 bytes returns, within as many
-- rounds as a page has room for headers and one more, either null or a pointer that is not held yet
-- and whose block has the bytes asked for.
pub Reach-serve :
    (start : ℕ)
    → 0 < start
    → start + page_size < 2 ^ 32
    → (c : Client) → Reach start c
    → (wanted : ℕ) → wanted ≤ 2 ^ 31
    → (x : ℕ) × (m' : Memory) × (kmalloc rounds start c.memory wanted ≡ returned x m')
      × Served m' c.held wanted x
unfolding Answer
Reach-serve start there word c run wanted small =
    let (x, m', runs, _, served) =
      serve start there word c wanted (Reach-Sound start there word c run) small in
    (x, m', runs, served)
