-- ===== src/Dma/Examples.antt =====
-- An adapter with its registers at 0xf0000000 and one area for packets.
use ixmap.Dma.{
  ixmap_dma_map_iobase, ixmap_dma_unmap_all, ixmap_dma_area_free, registers, Area, area_struct,
  device_resources, MapCalls, whereto_from, ixmap_dma_area_whereto, add_at, enter_area, map_pinned,
  page_count, pages, pinned_pages, Mapped, ixmap_dma_map, ixmap_dma_unmap,
}
use ixmap.Base.{◌≡◌, inl, inr, refl, List, [], ◌∷◌, ◌++◌, true, false, some, arith, All}
use ixmap.Dma.Areas.{Proper, Sorted, Disjoint}
use ixmap.Dma.Mapping.{Balanced, ixmap_dma_map-Balanced, ixmap_dma_unmap-ixmap_dma_map}

abbrev packets : Area
packets = record { addr_dma = 0x1000_0000; size = 0x4000_0000; npages = 0x4_0000 }

abbrev io : Area
io = record { addr_dma = 0xf000_0000; size = 0x8_0000; npages = 0 }

abbrev rings : Area
rings = record { addr_dma = 0x8000_0000; size = 0x10_0000; npages = 256 }

abbrev areas : List Area
areas = packets ∷ io ∷ []

abbrev calls : MapCalls
calls = record {
  addr_virtual = 0x7000_0000;
  pages_allocated = true;
  pinned = some 256;
  sgt_allocated = true;
  table_allocated = true;
  mapped = true;
  contiguous = true;
  addr_dma = 0x8000_0000;
  area_allocated = true;
}

areas-Sorted : Sorted 0 areas
areas-Sorted =
    (omega arith, (omega arith, omega arith), (omega arith, (omega arith, omega arith), tt))

rings-Proper : Proper rings
rings-Proper = (omega arith, omega arith)

rings-Disjoint : All (Disjoint rings) areas
rings-Disjoint = (inr (omega arith), (inl (omega arith), tt))

placed : ixmap_dma_area_whereto areas rings ≡ some 1
unfolding ixmap_dma_area_whereto whereto_from
placed = refl

mapped : (ixmap_dma_map calls 0x10_0000 areas).addr ≡ some 0x8000_0000
unfolding ixmap_dma_map map_pinned enter_area ixmap_dma_area_whereto whereto_from
mapped = refl

ixmap_dma_map-Balanced_example :
    Balanced calls 0x10_0000 areas (ixmap_dma_map calls 0x10_0000 areas)
ixmap_dma_map-Balanced_example = ixmap_dma_map-Balanced calls 0x10_0000 areas

ixmap_dma_unmap-ixmap_dma_map_example :
    ixmap_dma_unmap 0xf000_0000 (ixmap_dma_map calls 0x10_0000 areas).areas 0x8000_0000
    ≡ some (areas, device_resources 256 ++ (area_struct ∷ []))
unfolding page_count
ixmap_dma_unmap-ixmap_dma_map_example =
    ixmap_dma_unmap-ixmap_dma_map 0xf000_0000 calls 0x10_0000 0x8000_0000 areas rings-Proper
      areas-Sorted rings-Disjoint (λ e. omega arith) mapped

map_iobase_test : (ixmap_dma_map_iobase true true io (packets ∷ [])).areas ≡ areas
unfolding ixmap_dma_map_iobase ixmap_dma_area_whereto whereto_from add_at
map_iobase_test = refl

unmap_all_test :
    ixmap_dma_unmap_all 0xf000_0000 areas
    ≡ ([], device_resources 0x4_0000 ++ (area_struct ∷ registers ∷ area_struct ∷ []))
unfolding ixmap_dma_unmap_all ixmap_dma_area_free
unmap_all_test = refl

-- get_user_pages pins 3 of the 256 pages, and there is no memory for the table.
abbrev partial : Mapped
partial = ixmap_dma_map (record calls { pinned = some 3; sgt_allocated = false }) 0x10_0000 areas

partial_run :
    (partial.taken ≡ pinned_pages 3 ∷ pages ∷ [])
    × (partial.given_back ≡ pinned_pages 256 ∷ pages ∷ [])
unfolding ixmap_dma_map map_pinned page_count
partial_run = (refl, refl)
