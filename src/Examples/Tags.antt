-- ===== src/Examples/Tags.antt =====
-- A list of tags with two adjacent regions of memory.
use sugarcat.Common.{◌≡◌, refl, arith, some, [], ◌∷◌}
use sugarcat.Memory.{Memory, load8, store8, load32, store32}
use sugarcat.Errno.{esucc}
use sugarcat.Region.{MmReg}
use sugarcat.Atag.{atag_mem, get_tag, get_next_tag}
use sugarcat.Atag.Chain.{Tag, Chain, get_tag-address}
use sugarcat.Init.{get_mem_atag}
use sugarcat.Init.Regions.{get_mem_atag-merged}

abbrev core_mem : Memory
core_mem = store32 (store32 (λ _. 0) 0x100 5) 0x104 0x54410001

abbrev first_mem : Memory
first_mem =
    store32 (store32 (store32 (store32 core_mem 0x114 4) 0x118 0x54410002) 0x11C 0x8000000) 0x120
      0x60000000

abbrev pub tags_mem : Memory
tags_mem =
    store32 (store32 (store32 (store32 first_mem 0x124 4) 0x128 0x54410002) 0x12C 0x8000000) 0x130
      0x68000000

abbrev pub core_tag : Tag
core_tag = record { size = 5; tag = 0x54410001 }

abbrev pub mem_tag : Tag
mem_tag = record { size = 4; tag = 0x54410002 }

tags-Chain : Chain tags_mem 0x100 (core_tag ∷ mem_tag ∷ mem_tag ∷ [])
unfolding load32 load8 store32 store8
tags-Chain = (
  refl,
  refl,
  omega arith,
  omega arith,
  (refl, refl, omega arith, omega arith, (refl, refl, omega arith, omega arith, refl)),
)

get_tag-address_example :
    (get_tag 3 tags_mem 0x100 atag_mem ≡ some 0x114)
    × (get_next_tag 3 tags_mem 0x100 atag_mem ≡ some 0x114)
get_tag-address_example =
    get_tag-address 3 0x100 atag_mem tags_mem core_tag (mem_tag ∷ mem_tag ∷ []) (omega arith)
      tags-Chain (omega arith)

abbrev empty_reg : MmReg
empty_reg = record { base = 0; size = 0 }

get_mem_atag-merged_example :
    get_mem_atag 3 tags_mem 0x100 (some empty_reg)
    ≡ some (esucc, some (record { base = 0x60000000; size = 0x10000000 }))
unfolding load32 load8 store32 store8
get_mem_atag-merged_example =
    get_mem_atag-merged 3 0x100 tags_mem core_tag (mem_tag ∷ mem_tag ∷ []) empty_reg (omega arith)
      tags-Chain (omega arith)
