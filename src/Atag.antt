-- ===== src/Atag.antt =====
-- include/util/atag.h: the list of tags that a boot loader leaves in memory. A tag is its header of
-- two words, its size in words and its kind, and what the kind says.
pub mod Chain
use sugarcat.Common.{
  ℕ, zero, suc, ◌+◌, ◌*◌, ◌^◌, ◌%◌, Bool, true, false, Option, none, some, ◌==◌, if◌then◌else◌, u32,
}
use sugarcat.Memory.{Memory, load32}

abbrev pub atag_none : ℕ
atag_none = 0

abbrev pub atag_core : ℕ
atag_core = 0x54410001

abbrev pub atag_mem : ℕ
atag_mem = 0x54410002

abbrev pub atag_initrd2 : ℕ
atag_initrd2 = 0x54420005

-- The words of `struct atag`: the header's, and the first two of what follows it.
abbrev pub hdr_size : Memory → ℕ → ℕ
hdr_size m sch = load32 m sch

abbrev pub hdr_tag : Memory → ℕ → ℕ
hdr_tag m sch = load32 m (sch + 4)

abbrev pub mem_sz : Memory → ℕ → ℕ
mem_sz m sch = load32 m (sch + 8)

abbrev pub mem_start : Memory → ℕ → ℕ
mem_start m sch = load32 m (sch + 12)

abbrev pub initrd_start : Memory → ℕ → ℕ
initrd_start m sch = load32 m (sch + 8)

abbrev pub initrd_sz : Memory → ℕ → ℕ
initrd_sz m sch = load32 m (sch + 12)

unfoldable pub next_tag : Memory → ℕ → ℕ
next_tag m curr_tag = u32 (curr_tag + 4 * hdr_size m curr_tag)

-- The search loops; `none` means that the fuel ran out.
unfoldable pub exists_loop : ℕ → Memory → ℕ → ℕ → Option Bool
exists_loop zero m sch tag = none
exists_loop (suc fuel) m sch tag =
    let rest = exists_loop fuel m (next_tag m sch) tag in
    if hdr_tag m sch == atag_none
    then some false
    else (if hdr_tag m sch == tag then some true else rest)

unfoldable pub tag_exists : ℕ → Memory → ℕ → ℕ → Option Bool
unfolding exists_loop
tag_exists fuel m atag_base tag =
    if hdr_tag m atag_base == atag_core then exists_loop fuel m atag_base tag else some false

unfoldable pub is_using_atag : Memory → ℕ → Bool
is_using_atag m atag_base = hdr_tag m atag_base == atag_core

unfoldable pub count_loop : ℕ → Memory → ℕ → ℕ → ℕ → Option ℕ
count_loop zero m sch tag ret = none
count_loop (suc fuel) m sch tag ret =
    let rest =
      count_loop fuel m (next_tag m sch) tag (if hdr_tag m sch == tag then ret + 1 else ret) in
    if hdr_tag m sch == atag_none then some ret else rest

unfoldable pub get_tag_count : ℕ → Memory → ℕ → ℕ → Option ℕ
unfolding count_loop
get_tag_count fuel m atag_base tag =
    if hdr_tag m atag_base == atag_core then count_loop fuel m atag_base tag 0 else some 0

-- The loop that `get_next_tag` and `get_tag` share; 0 is the null pointer.
unfoldable pub find_loop : ℕ → Memory → ℕ → ℕ → Option ℕ
find_loop zero m sch tag = none
find_loop (suc fuel) m sch tag =
    let rest = find_loop fuel m (next_tag m sch) tag in
    if hdr_tag m sch == atag_none then some 0 else (if hdr_tag m sch == tag then some sch else rest)

unfoldable pub get_next_tag : ℕ → Memory → ℕ → ℕ → Option ℕ
unfolding find_loop
get_next_tag fuel m sch tag =
    if sch == 0
    then some 0
    else (if hdr_tag m sch == atag_none then some 0 else find_loop fuel m (next_tag m sch) tag)

unfoldable pub get_tag : ℕ → Memory → ℕ → ℕ → Option ℕ
unfolding find_loop
get_tag fuel m atag_base tag =
    if hdr_tag m atag_base == atag_core then find_loop fuel m (next_tag m atag_base) tag else some 0
