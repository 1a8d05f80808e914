-- ===== src/Atag/Chain.antt =====
-- Lists of tags, and what the searches find in them.
use sugarcat.Common.{
  ℕ, zero, suc, ◌+◌, ◌*◌, ◌^◌, ◌<◌, ◌≡◌, ◌≢◌, Bool, false, some, List, [], ◌∷◌, length, ◌==◌, ◌||◌,
  if◌then◌else◌, arith,
}
use sugarcat.Memory.{Memory}
use sugarcat.Atag.{
  atag_none, atag_core, hdr_size, hdr_tag, next_tag, exists_loop, tag_exists, count_loop,
  get_tag_count, find_loop, get_tag, get_next_tag,
}

-- A tag's size in words and its kind.
pub record Tag : Type 0 where
  pub size : ℕ
  pub tag : ℕ

-- From `p` on stand the tags of a list and the end tag, below the end of memory.
abbrev pub Chain : Memory → ℕ → List Tag → Type 0
Chain m p [] = hdr_tag m p ≡ atag_none
Chain m p (t ∷ ts) =
    (hdr_size m p ≡ t.size)
    × (hdr_tag m p ≡ t.tag)
    × (t.tag ≢ atag_none)
    × (p + 4 * t.size < 2 ^ 32)
    × Chain m (p + 4 * t.size) ts

abbrev pub has : ℕ → List Tag → Bool
has tag [] = false
has tag (t ∷ ts) = (t.tag == tag) || has tag ts

abbrev pub count : ℕ → List Tag → ℕ
count tag [] = 0
count tag (t ∷ ts) = (if t.tag == tag then 1 else 0) + count tag ts

-- The address of the first tag of a kind in a list that begins at `p`, or null.
abbrev pub address : ℕ → ℕ → List Tag → ℕ
address tag p [] = 0
address tag p (t ∷ ts) = if t.tag == tag then p else address tag (p + 4 * t.size) ts

exists_loop-has :
    (fuel p tag : ℕ) (m : Memory) (ts : List Tag)
    → Chain m p ts
    → length ts < fuel
    → exists_loop fuel m p tag ≡ some (has tag ts)
unfolding exists_loop next_tag
exists_loop-has zero p tag m ts c enough = absurd (omega arith)
exists_loop-has (suc fuel) p tag m [] c enough = ground arith
exists_loop-has (suc fuel) p tag m (t ∷ ts) c enough =
    ground (arith, exists_loop-has fuel (p + 4 * t.size) tag m ts)

count_loop-count :
    (fuel p tag ret : ℕ) (m : Memory) (ts : List Tag)
    → Chain m p ts
    → length ts < fuel
    → count_loop fuel m p tag ret ≡ some (ret + count tag ts)
unfolding count_loop next_tag
count_loop-count zero p tag ret m ts c enough = absurd (omega arith)
count_loop-count (suc fuel) p tag ret m [] c enough = ground arith
count_loop-count (suc fuel) p tag ret m (t ∷ ts) c enough = ground (
  arith,
  count_loop-count fuel (p + 4 * t.size) tag (ret + 1) m ts,
  count_loop-count fuel (p + 4 * t.size) tag ret m ts,
)

pub find_loop-address :
    (fuel p tag : ℕ) (m : Memory) (ts : List Tag)
    → Chain m p ts
    → length ts < fuel
    → find_loop fuel m p tag ≡ some (address tag p ts)
unfolding find_loop next_tag
find_loop-address zero p tag m ts c enough = absurd (omega arith)
find_loop-address (suc fuel) p tag m [] c enough = ground arith
find_loop-address (suc fuel) p tag m (t ∷ ts) c enough =
    ground (arith, find_loop-address fuel (p + 4 * t.size) tag m ts)

-- On a list of tags, `tag_exists` ends within one round more than there are tags, and says whether
-- the list begins with the core tag and has one of the kind; `get_tag_count` then counts them.
pub tag_exists-has :
    (fuel p tag : ℕ) (m : Memory) (t : Tag) (ts : List Tag)
    → Chain m p (t ∷ ts)
    → length (t ∷ ts) < fuel
    → (tag_exists fuel m p tag ≡ some (if t.tag == atag_core then has tag (t ∷ ts) else false))
      × (get_tag_count fuel m p tag ≡ some (if t.tag == atag_core then count tag (t ∷ ts) else 0))
unfolding tag_exists get_tag_count
tag_exists-has fuel p tag m t ts c enough = ground (
  arith,
  exists_loop-has fuel p tag m (t ∷ ts) c enough,
  count_loop-count fuel p tag 0 m (t ∷ ts) c enough,
)

-- `get_tag` gives the address of the first tag of the kind after the core tag, or null, and
-- `get_next_tag` the same after any tag of the list.
pub get_tag-address :
    (fuel p tag : ℕ) (m : Memory) (t : Tag) (ts : List Tag)
    → p ≢ 0
    → Chain m p (t ∷ ts)
    → length ts < fuel
    → let next = address tag (p + 4 * t.size) ts in
      (get_tag fuel m p tag ≡ some (if t.tag == atag_core then next else 0))
      × (get_next_tag fuel m p tag ≡ some next)
unfolding get_tag get_next_tag next_tag
get_tag-address fuel p tag m t ts there c enough =
    ground (arith, find_loop-address fuel (p + 4 * t.size) tag m ts)
