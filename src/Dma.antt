-- ===== src/Dma.antt =====
-- kmod/ixmap_dma.c and the struct of kmod/ixmap_dma.h: the list of DMA areas of an adapter, kept in
-- the order of addresses. `unsigned long` wraps at 2 ^ 64. What the kernel's calls answer is an
-- argument; what they take and give back is a list of resources, the last first. The reference
-- count of an area is 1 as long as it is in the list, so that a free is always the last one.
pub mod Areas
pub mod Mapping
mod Examples
use ixmap.Base.{
  ℕ, zero, suc, ◌+◌, ◌-◌, ◌*◌, ◌/◌, ◌%◌, ◌^◌, List, [], ◌∷◌, Bool, true, false, Option, none, some,
  ◌==◌, ltb, leb, if◌then◌else◌, ◌&&◌, ◌||◌, ◌++◌,
}

pub record Area : Type 0 where
  pub addr_dma : ℕ
  pub size : ℕ
  pub npages : ℕ

-- What a mapping holds: the array of pages, so many pinned pages (the first of the array), the
-- scatterlist and its table, the mapping for the device; the mapped registers; the area itself.
pub data Resource : Type 0 where
  pages sg_struct sg_entries device_mapping registers area_struct : Resource
  pinned_pages : ℕ → Resource

-- `end_new` and `end_area`.
abbrev pub end_of : Area → ℕ
end_of area = (area.addr_dma + area.size) % 2 ^ 64

-- The test for an overlap with one area.
abbrev pub overlaps : Area → Area → Bool
overlaps new area =
    (leb area.addr_dma new.addr_dma && ltb new.addr_dma (end_of area))
    || (ltb area.addr_dma (end_of new) && leb (end_of new) (end_of area))

-- How many areas stand before the place of the new one (`last`); `none` is NULL.
pub whereto_from : Area → List Area → ℕ → Option ℕ
whereto_from new [] last = some last
whereto_from new (area ∷ areas) last =
    let rest = whereto_from new areas (suc last) in
    if leb (end_of new) area.addr_dma then some last else if overlaps new area then none else rest

pub ixmap_dma_area_whereto : List Area → Area → Option ℕ
ixmap_dma_area_whereto areas new = whereto_from new areas 0

-- `list_add` behind so many areas.
pub add_at : List Area → ℕ → Area → List Area
add_at areas zero new = new ∷ areas
add_at [] (suc n) new = new ∷ []
add_at (area ∷ areas) (suc n) new = area ∷ add_at areas n new

pub ixmap_dma_area_lookup : List Area → ℕ → Option Area
ixmap_dma_area_lookup [] addr_dma = none
ixmap_dma_area_lookup (area ∷ areas) addr_dma =
    if area.addr_dma == addr_dma then some area else ixmap_dma_area_lookup areas addr_dma

-- `list_del` of the area that the lookup gives.
pub del_area : List Area → ℕ → List Area
del_area [] addr_dma = []
del_area (area ∷ areas) addr_dma =
    if area.addr_dma == addr_dma then areas else area ∷ del_area areas addr_dma

-- What a mapping for the device holds, as it is given back.
abbrev pub device_resources : ℕ → List Resource
device_resources n = device_mapping ∷ sg_entries ∷ sg_struct ∷ pinned_pages n ∷ pages ∷ []

-- What is given back, in order.
pub ixmap_dma_area_free : ℕ → Area → List Resource
ixmap_dma_area_free iobase area =
    if area.addr_dma == iobase
    then registers ∷ area_struct ∷ []
    else device_resources area.npages ++ (area_struct ∷ [])

-- The address that the process asks to map, and what the kernel answers to ixmap_dma_map: whether
-- each step succeeds, and the address. `pinned` is what get_user_pages returns, at most the number of
-- pages; `none` is an error.
pub record MapCalls : Type 0 where
  pub addr_virtual : ℕ
  pub pages_allocated : Bool
  pub pinned : Option ℕ
  pub sgt_allocated : Bool
  pub table_allocated : Bool
  pub mapped : Bool
  pub contiguous : Bool
  pub addr_dma : ℕ
  pub area_allocated : Bool

-- `npages`, an `unsigned int`, of pages of 4096 bytes.
pub page_count : ℕ → ℕ → ℕ
page_count addr_virtual size =
    let user_start = addr_virtual / 4096 * 4096 in
    let user_end = (addr_virtual + size + 4095) % 2 ^ 64 / 4096 * 4096 in
    (user_end + 2 ^ 64 - user_start) % 2 ^ 64 / 4096 % 2 ^ 32

-- The returned address (`none`: 0 or NULL), the areas, and what was taken and given back.
pub record Mapped : Type 0 where
  pub addr : Option ℕ
  pub areas : List Area
  pub taken : List Resource
  pub given_back : List Resource

abbrev failed : List Area → List Resource → List Resource → Mapped
failed areas taken given_back = record {
  addr = none;
  areas = areas;
  taken = taken;
  given_back = given_back;
}

-- The end of ixmap_dma_map, where the device's mapping stands and `ret` pages are pinned.
pub enter_area : MapCalls → ℕ → ℕ → List Area → Mapped
enter_area calls ret size areas =
    let npages = page_count calls.addr_virtual size in
    let new : Area = record { addr_dma = calls.addr_dma; size = size; npages = npages } in
    elim (ixmap_dma_area_whereto areas new) [
      | none ↦ failed areas (device_resources ret) (device_resources npages)
      | some place ↦
          if calls.area_allocated
          then record {
            addr = some calls.addr_dma;
            areas = add_at areas place new;
            taken = area_struct ∷ device_resources ret;
            given_back = [];
          }
          else failed areas (device_resources ret) (device_resources npages)
    ]

-- The part behind get_user_pages. Only its error is tested: with fewer pages than asked for the code
-- goes on, and what it gives back is `npages`.
pub map_pinned : MapCalls → ℕ → ℕ → List Area → Mapped
map_pinned calls ret size areas =
    let npages = page_count calls.addr_virtual size in
    if calls.sgt_allocated
    then if calls.table_allocated
      then if calls.mapped
        then if calls.contiguous
          then enter_area calls ret size areas
          else failed areas (device_resources ret) (device_resources npages)
        else failed areas (sg_entries ∷ sg_struct ∷ pinned_pages ret ∷ pages ∷ [])
            (sg_entries ∷ sg_struct ∷ pinned_pages npages ∷ pages ∷ [])
      else failed areas (sg_struct ∷ pinned_pages ret ∷ pages ∷ [])
          (sg_struct ∷ pinned_pages npages ∷ pages ∷ [])
    else failed areas (pinned_pages ret ∷ pages ∷ []) (pinned_pages npages ∷ pages ∷ [])

pub ixmap_dma_map : MapCalls → ℕ → List Area → Mapped
ixmap_dma_map calls size areas =
    if calls.pages_allocated
    then elim calls.pinned [
      | none ↦ failed areas (pages ∷ []) (pages ∷ [])
      | some ret ↦ map_pinned calls ret size areas
    ]
    else failed areas [] []

-- `remapped` and `area_allocated` are what ioremap and kzalloc answer.
pub ixmap_dma_map_iobase : Bool → Bool → Area → List Area → Mapped
ixmap_dma_map_iobase remapped area_allocated io areas =
    let entered : Mapped = elim (ixmap_dma_area_whereto areas io) [
      | none ↦ failed areas (registers ∷ []) (registers ∷ [])
      | some place ↦
          if area_allocated
          then record {
            addr = some io.addr_dma;
            areas = add_at areas place io;
            taken = area_struct ∷ registers ∷ [];
            given_back = [];
          }
          else failed areas (registers ∷ []) (registers ∷ [])
    ] in
    if remapped then entered else failed areas [] []

-- `none` is -ENOENT; else the areas and what is given back.
pub ixmap_dma_unmap : ℕ → List Area → ℕ → Option (List Area × List Resource)
ixmap_dma_unmap iobase areas addr_dma = elim (ixmap_dma_area_lookup areas addr_dma) [
  | none ↦ none
  | some area ↦ some (del_area areas addr_dma, ixmap_dma_area_free iobase area)
]

pub ixmap_dma_unmap_all : ℕ → List Area → List Area × List Resource
ixmap_dma_unmap_all iobase [] = ([], [])
ixmap_dma_unmap_all iobase (area ∷ areas) =
    let (left, given_back) = ixmap_dma_unmap_all iobase areas in
    (left, ixmap_dma_area_free iobase area ++ given_back)
