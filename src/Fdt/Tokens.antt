-- ===== src/Fdt/Tokens.antt =====
-- The structure block as a list of tokens, and the walks over it.
use sugarcat.Common.{
  ℕ, zero, suc, ◌+◌, ◌*◌, ◌/◌, ◌^◌, ◌<◌, ◌≡◌, ◌≢◌, some, List, [], ◌∷◌, length, arith,
}
use sugarcat.Common.Word.Mask.{bit_and_not_low}
use sugarcat.Memory.{Memory}
use sugarcat.Str.Length.{CStr, strlen-length}
use sugarcat.Fdt.{
  be32, fdt_end, get_tag_size, next_tag, next_node_loop, get_next_node, next_property_loop,
  get_next_property,
}

-- A node's begin with its name, a property with its value's length and its name's offset, the end
-- of a node, or nothing.
pub data Token : Type 0 where
  node_begin : List ℕ → Token
  property : ℕ → ℕ → Token
  node_end : Token
  nop : Token

-- The bytes of a token.
abbrev pub width : Token → ℕ
width (node_begin name) = 5 + length name
width (property size off) = 12 + size
width node_end = 4
width nop = 4

-- Where the token after one at `p` begins.
abbrev pub after : ℕ → Token → ℕ
after p t = (p + width t + 3) / 4 * 4

-- At `p` stands a token; a name is shorter than `len`.
abbrev pub At : ℕ → Memory → ℕ → Token → Type 0
At len m p (node_begin name) = (be32 m p ≡ 1) × CStr m (p + 4) name × (length name < len)
At len m p (property size off) = (be32 m p ≡ 3) × (be32 m (p + 4) ≡ size) × (be32 m (p + 8) ≡ off)
At len m p node_end = be32 m p ≡ 2
At len m p nop = be32 m p ≡ 4

-- From `p` on stand the tokens of a list and the end tag, below the end of memory.
abbrev pub Block : ℕ → Memory → ℕ → List Token → Type 0
Block len m p [] = (0 < p) × (be32 m p ≡ fdt_end)
Block len m p (t ∷ ts) =
    (0 < p) × At len m p t × (p + width t + 3 < 2 ^ 32) × Block len m (after p t) ts

-- The first node that begins in a block at `p`, or null.
abbrev pub first_node : ℕ → List Token → ℕ
first_node p [] = 0
first_node p (node_begin name ∷ ts) = p
first_node p (t ∷ ts) = first_node (after p t) ts

tag_size :
    (len p : ℕ) (m : Memory) (t : Token)
    → 0 < p
    → At len m p t
    → p + width t + 3 < 2 ^ 32
    → get_tag_size len m p ≡ some (width t)
unfolding get_tag_size
tag_size len p m (node_begin name) here at fits = ground (arith, strlen-length len (p + 4) m name)
tag_size len p m (property size off) here at fits = ground arith
tag_size len p m node_end here at fits = ground arith
tag_size len p m nop here at fits = ground arith

tag-ne-end : (len p : ℕ) (m : Memory) (t : Token) → At len m p t → be32 m p ≢ 9
tag-ne-end len p m (node_begin name) at = omega arith
tag-ne-end len p m (property size off) at = omega arith
tag-ne-end len p m node_end at = omega arith
tag-ne-end len p m nop at = omega arith

pub next_tag-after :
    (len p : ℕ) (m : Memory) (t : Token)
    → 0 < p
    → At len m p t
    → p + width t + 3 < 2 ^ 32
    → next_tag len m p ≡ some (after p t)
unfolding next_tag
next_tag-after len p m t here at fits = ground (
  arith,
  tag_size len p m t here at fits,
  tag-ne-end len p m t at,
  bit_and_not_low 2 (p + width t + 3),
)

next_node_loop-first :
    (fuel len p : ℕ) (m : Memory) (ts : List Token)
    → Block len m p ts
    → length ts < fuel
    → next_node_loop len m fuel p ≡ some (first_node p ts)
unfolding next_node_loop
next_node_loop-first zero len p m ts b enough = absurd (omega arith)
next_node_loop-first (suc fuel) len p m [] b enough = ground arith
next_node_loop-first (suc fuel) len p m (node_begin name ∷ ts) b enough = ground arith
next_node_loop-first (suc fuel) len p m (property size off ∷ ts) (here, at, fits, b) enough =
    ground (
      arith,
      next_tag-after len p m (property size off) here at fits,
      next_node_loop-first fuel len (after p (property size off)) m ts b,
    )
next_node_loop-first (suc fuel) len p m (node_end ∷ ts) (here, at, fits, b) enough = ground (
  arith,
  next_tag-after len p m node_end here at fits,
  next_node_loop-first fuel len (after p node_end) m ts b,
)
next_node_loop-first (suc fuel) len p m (nop ∷ ts) (here, at, fits, b) enough = ground (
  arith,
  next_tag-after len p m nop here at fits,
  next_node_loop-first fuel len (after p nop) m ts b,
)

-- In a structure block, `get_next_node` ends within one round more than there are tokens left, and
-- gives the next token that begins a node, or null if there is none before the end of the block.
pub get_next_node-first :
    (fuel len p : ℕ) (m : Memory) (t : Token) (ts : List Token)
    → Block len m p (t ∷ ts)
    → length ts < fuel
    → get_next_node len m fuel p ≡ some (first_node (after p t) ts)
unfolding get_next_node
get_next_node-first fuel len p m t ts (here, at, fits, b) enough = ground (
  arith,
  next_tag-after len p m t here at fits,
  next_node_loop-first fuel len (after p t) m ts b enough,
)

-- The first property before a node begins or ends, or null.
abbrev pub first_property : ℕ → List Token → ℕ
first_property p [] = 0
first_property p (node_begin name ∷ ts) = 0
first_property p (node_end ∷ ts) = 0
first_property p (property size off ∷ ts) = p
first_property p (nop ∷ ts) = first_property (after p nop) ts

next_property_loop-first :
    (fuel len p : ℕ) (m : Memory) (ts : List Token)
    → Block len m p ts
    → length ts + 1 < fuel
    → next_property_loop len m fuel p ≡ some (first_property p ts)
unfolding next_property_loop next_tag
next_property_loop-first zero len p m ts b enough = absurd (omega arith)
next_property_loop-first (suc zero) len p m ts b enough = absurd (omega arith)
next_property_loop-first (suc (suc fuel)) len p m [] b enough = ground arith
next_property_loop-first (suc (suc fuel)) len p m (node_begin name ∷ ts) b enough = ground arith
next_property_loop-first (suc (suc fuel)) len p m (node_end ∷ ts) b enough = ground arith
next_property_loop-first (suc (suc fuel)) len p m (property size off ∷ ts) b enough = ground arith
next_property_loop-first (suc (suc fuel)) len p m (nop ∷ ts) (here, at, fits, b) enough = ground (
  arith,
  next_tag-after len p m nop here at fits,
  next_property_loop-first (suc fuel) len (after p nop) m ts b,
)

-- `get_next_property` ends within two rounds more than there are tokens left, and gives the next
-- property of the same node, or null if a node begins or ends or the block ends before one.
pub get_next_property-first :
    (fuel len p : ℕ) (m : Memory) (t : Token) (ts : List Token)
    → Block len m p (t ∷ ts)
    → length ts + 1 < fuel
    → get_next_property len m fuel p ≡ some (first_property (after p t) ts)
unfolding get_next_property
get_next_property-first fuel len p m t ts (here, at, fits, b) enough = ground (
  arith,
  next_tag-after len p m t here at fits,
  next_property_loop-first fuel len (after p t) m ts b enough,
)
