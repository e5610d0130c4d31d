-- ===== src/Dma/Mapping.antt =====
-- ixmap_dma_map and ixmap_dma_unmap of kmod/ixmap_dma.c: what they take and give back.
use ixmap.Base.{
  ℕ, zero, suc, ◌+◌, ◌≡◌, ◌≢◌, inl, inr, refl, ap, List, [], ◌∷◌, ◌++◌, Bool, true, false, none,
  some, arith, ◌==◌, ==_iff, if◌then◌else◌, All, Bool-cases, Option-cases, Option,
}
use ixmap.Dma.{
  failed, pages, Area, Resource, pinned_pages, area_struct, device_resources, MapCalls, page_count,
  map_pinned, Mapped, ixmap_dma_area_whereto, add_at, ixmap_dma_area_lookup, del_area,
  ixmap_dma_area_free, enter_area, ixmap_dma_map, ixmap_dma_unmap,
}
use ixmap.Dma.Areas.{Proper, Sorted, Disjoint}

-- The area that a mapping adds.
abbrev pub new_area : MapCalls → ℕ → Area
new_area calls size = record {
  addr_dma = calls.addr_dma;
  size = size;
  npages = page_count calls.addr_virtual size;
}

-- The resources with `n` pinned pages in the place of those that are pinned.
abbrev pub with_pages : ℕ → List Resource → List Resource
with_pages n [] = []
with_pages n (pinned_pages k ∷ rs) = pinned_pages n ∷ with_pages n rs
with_pages n (r ∷ rs) = r ∷ with_pages n rs

-- What ixmap_dma_map leaves: on failure the areas as they were, and what was taken is given back, the
-- last first, with `npages` pages for those that were pinned; on success the new area in its place,
-- and all that was taken is kept.
abbrev pub Balanced : MapCalls → ℕ → List Area → Mapped → Type 0
Balanced calls size areas m = elim m.addr [
  | none ↦
      (m.areas ≡ areas) × (m.given_back ≡ with_pages (page_count calls.addr_virtual size) m.taken)
  | some a ↦
      (a ≡ calls.addr_dma)
      × (m.given_back ≡ [])
      × ((ret : ℕ) × (calls.pinned ≡ some ret) × (m.taken ≡ area_struct ∷ device_resources ret))
      × ((n : ℕ) × (ixmap_dma_area_whereto areas (new_area calls size) ≡ some n)
          × (m.areas ≡ add_at areas n (new_area calls size)))
]

enter_area-Balanced :
    (calls : MapCalls) (ret size : ℕ) (areas : List Area)
    → calls.pinned ≡ some ret
    → Balanced calls size areas (enter_area calls ret size areas)
unfolding enter_area
enter_area-Balanced calls ret size areas p =
    elim (Option-cases (ixmap_dma_area_whereto areas (new_area calls size))) [
      | inl e ↦ rw (enter_area, e) (refl, refl)
      | inr (n, e) ↦ elim (Bool-cases calls.area_allocated) [
        | inl there ↦ rw (enter_area, e, there) (refl, refl, (ret, p, refl), (n, e, refl))
        | inr failed ↦ rw (enter_area, e, failed) (refl, refl)
      ]
    ]

Balanced-if :
    (calls : MapCalls) (size : ℕ) (areas : List Area) (b : Bool) (x y : Mapped)
    → Balanced calls size areas x
    → Balanced calls size areas y
    → Balanced calls size areas (if b then x else y)
Balanced-if calls size areas true x y p q = p
Balanced-if calls size areas false x y p q = q

map_pinned-Balanced :
    (calls : MapCalls) (ret size : ℕ) (areas : List Area)
    → calls.pinned ≡ some ret
    → Balanced calls size areas (map_pinned calls ret size areas)
unfolding map_pinned
map_pinned-Balanced calls ret size areas p =
    let entered = enter_area-Balanced calls ret size areas p in
    let step = Balanced-if calls size areas in
    step calls.sgt_allocated _ _
      (step calls.table_allocated _ _
        (step calls.mapped _ _ (step calls.contiguous _ _ entered (refl, refl)) (refl, refl))
        (refl, refl))
      (refl, refl)

pinned-Balanced :
    (calls : MapCalls) (size : ℕ) (areas : List Area) (answer : Option ℕ)
    → calls.pinned ≡ answer
    → Balanced calls size areas (elim answer [
      | none ↦ failed areas (pages ∷ []) (pages ∷ [])
      | some ret ↦ map_pinned calls ret size areas
    ])
pinned-Balanced calls size areas none p = (refl, refl)
pinned-Balanced calls size areas (some ret) p = map_pinned-Balanced calls ret size areas p

-- ixmap_dma_map that fails leaves the areas as they were and gives back, the last first, each kind of
-- resource that it had taken, but always as many pages as it asked get_user_pages for, however many
-- were pinned. If it succeeds the new area stands in its place and what was taken is kept.
pub ixmap_dma_map-Balanced :
    (calls : MapCalls) (size : ℕ) (areas : List Area)
    → Balanced calls size areas (ixmap_dma_map calls size areas)
unfolding ixmap_dma_map
ixmap_dma_map-Balanced calls size areas =
    Balanced-if calls size areas calls.pages_allocated _ _
      (pinned-Balanced calls size areas calls.pinned refl) (refl, refl)

-- No area of the list begins at the address.
abbrev Fresh : ℕ → List Area → Type 0
Fresh addr = All (λ (a : Area). (a.addr_dma == addr) ≡ false)

Fresh-Disjoint :
    (new : Area) (areas : List Area) (lo : ℕ)
    → Proper new
    → Sorted lo areas
    → All (Disjoint new) areas
    → Fresh new.addr_dma areas
Fresh-Disjoint new [] lo p s d = tt
Fresh-Disjoint new (a ∷ areas) lo p (l, p', s) (inl before, d) =
    (ground arith, Fresh-Disjoint new areas (a.addr_dma + a.size) p s d)
Fresh-Disjoint new (a ∷ areas) lo p (l, p', s) (inr behind, d) =
    (ground arith, Fresh-Disjoint new areas (a.addr_dma + a.size) p s d)

del_area-add_at :
    (new : Area) (areas : List Area) (n : ℕ)
    → Fresh new.addr_dma areas
    → (ixmap_dma_area_lookup (add_at areas n new) new.addr_dma ≡ some new)
      × (del_area (add_at areas n new) new.addr_dma ≡ areas)
unfolding ixmap_dma_area_lookup add_at del_area
del_area-add_at new areas zero f =
    let here : (new.addr_dma == new.addr_dma) ≡ true = (==_iff _ _).1 refl in
    (rw here refl, rw here refl)
del_area-add_at new [] (suc n) f =
    let here : (new.addr_dma == new.addr_dma) ≡ true = (==_iff _ _).1 refl in
    (rw here refl, rw here refl)
del_area-add_at new (a ∷ areas) (suc n) f =
    let (found, gone) = del_area-add_at new areas n f.1 in
    (rw f.0 found, rw f.0 (ap (λ l. a ∷ l) gone))

unmap_added :
    (iobase : ℕ) (new : Area) (areas : List Area) (n : ℕ)
    → Fresh new.addr_dma areas
    → new.addr_dma ≢ iobase
    → ixmap_dma_unmap iobase (add_at areas n new) new.addr_dma
      ≡ some (areas, device_resources new.npages ++ (area_struct ∷ []))
unfolding ixmap_dma_unmap ixmap_dma_area_free
unmap_added iobase new areas n f other =
    let (found, gone) = del_area-add_at new areas n f in
    let device : (new.addr_dma == iobase) ≡ false = ground arith in
    rw (ixmap_dma_unmap, found, gone, device) refl

-- ixmap_dma_unmap of an address that ixmap_dma_map returned, where the new area is proper and
-- disjoint from the others and not that of the registers, leaves the areas as they were before and
-- gives back all kinds of what the mapping took, with as many pages as it asked for.
pub ixmap_dma_unmap-ixmap_dma_map :
    (iobase : ℕ) (calls : MapCalls) (size addr : ℕ) (areas : List Area)
    → Proper (new_area calls size)
    → Sorted 0 areas
    → All (Disjoint (new_area calls size)) areas
    → calls.addr_dma ≢ iobase
    → (ixmap_dma_map calls size areas).addr ≡ some addr
    → ixmap_dma_unmap iobase (ixmap_dma_map calls size areas).areas addr
      ≡ some (areas, device_resources (page_count calls.addr_virtual size) ++ (area_struct ∷ []))
ixmap_dma_unmap-ixmap_dma_map iobase calls size addr areas p s d other ok =
    let new : Area = new_area calls size in
    let (same, kept, held, (n, placed, entered)) : (addr ≡ calls.addr_dma)
        × ((ixmap_dma_map calls size areas).given_back ≡ [])
        × ((ret : ℕ) × (calls.pinned ≡ some ret)
            × ((ixmap_dma_map calls size areas).taken ≡ area_struct ∷ device_resources ret))
        × ((n : ℕ) × (ixmap_dma_area_whereto areas new ≡ some n)
            × ((ixmap_dma_map calls size areas).areas ≡ add_at areas n new)) =
      rw ok at (ixmap_dma_map-Balanced calls size areas) in
    rw (entered, same) (unmap_added iobase new areas n (Fresh-Disjoint new areas 0 p s d) other)
