-- ===== src/Memory/Examples.antt =====
-- The buddy allocator of lib/memory.c on a page of 4096 bytes.
use ixmap.Memory.{ixmap_mem_init, Mnode, null, mnode, ixmap_mem_alloc, ixmap_mem_free}
use ixmap.Base.{ℕ, zero, suc, ◌+◌, ◌≡◌, refl, List, [], ◌∷◌, Bool, true, false, Option, some, arith}
use ixmap.Memory.Blocks.{blocks, Covers, OneMore, Apart}
use ixmap.Memory.Alloc.{Ample}
use ixmap.Memory.Free.{Allocates, ixmap_mem_alloc-Allocates, ixmap_mem_free-blocks}

abbrev trues : ℕ → List Bool
trues zero = []
trues (suc n) = true ∷ trues n

-- The first half is given out.
abbrev page : Mnode
page =
    mnode true 4096 0x10000 (mnode true 2048 0x10000 null null) (mnode false 2048 0x10800 null null)

page-Covers : Covers 4096 0x10000 page
page-Covers = ((refl, refl, refl), (refl, refl), (refl, refl), refl)

trues-Ample : (n : ℕ) → Ample n (trues n)
trues-Ample zero = tt
trues-Ample (suc n) = (refl, trues-Ample n)

ixmap_mem_alloc-Allocates_example :
    (ret : Option (ℕ × List Bool)) × (root' : Mnode) × (allocs' : List Bool) × (ixmap_mem_alloc 100
        page
        (trues 66)
      ≡ some (ret, root', allocs'))
    × Covers 4096 0x10000 root'
    × Apart 0x10000 (0x10000 + 4096) (blocks root')
    × Allocates 100 page (ret, root')
ixmap_mem_alloc-Allocates_example =
    ixmap_mem_alloc-Allocates 100 4096 0x10000 page (trues 66) (omega arith) (omega arith)
      (omega arith) (trues-Ample 66) page-Covers

ixmap_mem_free-blocks_example :
    Covers 4096 0x10000 (ixmap_mem_free page (false ∷ []))
    × OneMore (0x10000, 2048) (blocks (ixmap_mem_free page (false ∷ []))) (blocks page)
ixmap_mem_free-blocks_example =
    ixmap_mem_free-blocks 4096 0x10000 page (false ∷ []) (0x10000, 2048) page-Covers refl

mem_init_test : ixmap_mem_init 0x10000 4096 (true ∷ []) ≡ (mnode false 4096 0x10000 null null, [])
unfolding ixmap_mem_init
mem_init_test = refl
