-- ===== src/Dma/Areas.antt =====
-- The order of the DMA areas of kmod/ixmap_dma.c and the place of a new one.
use ixmap.Base.{
  ℕ, suc, ◌+◌, ◌^◌, ◌≤◌, ◌<◌, ◌≡◌, ◌⊎◌, inl, inr, ap, ◌∙◌, List, [], ◌∷◌, Bool, true, false, Option,
  some, arith, ltb, leb, ◌&&◌, All, Bool-cases,
}
use ixmap.Dma.{Area, end_of, overlaps, whereto_from, ixmap_dma_area_whereto, add_at}

-- An area that is not empty and does not wrap around.
abbrev pub Proper : Area → Type 0
Proper area = (0 < area.size) × (area.addr_dma + area.size < 2 ^ 64)

-- The areas from `lo` on, in order, each ending before the next begins.
abbrev pub Sorted : ℕ → List Area → Type 0
Sorted lo [] = Unit
Sorted lo (area ∷ areas) =
    (lo ≤ area.addr_dma) × Proper area × Sorted (area.addr_dma + area.size) areas

-- The two areas have no address in common.
abbrev pub Disjoint : Area → Area → Type 0
Disjoint a b = (a.addr_dma + a.size ≤ b.addr_dma) ⊎ (b.addr_dma + b.size ≤ a.addr_dma)

-- A place is found, and there the new area keeps the order.
abbrev Fitting : ℕ → List Area → Area → ℕ → Option ℕ → Type 0
Fitting lo areas new last result =
    (n : ℕ) × (result ≡ some (last + n)) × Sorted lo (add_at areas n new)

whereto_from-Fitting :
    (new : Area) (areas : List Area) (lo last : ℕ)
    → Proper new
    → lo ≤ new.addr_dma
    → Sorted lo areas
    → All (Disjoint new) areas
    → Fitting lo areas new last (whereto_from new areas last)
unfolding whereto_from add_at
whereto_from-Fitting new [] lo last p l s d = (0, ap some (omega arith), (l, p, tt))
whereto_from-Fitting new (area ∷ areas) lo last p l (l', p', s) (inl before, d) =
    let first : leb (end_of new) area.addr_dma ≡ true = ground arith in
    (0, rw first (ap some (omega arith)), (l, p, (before, p', s)))
whereto_from-Fitting new (area ∷ areas) lo last p l (l', p', s) (inr behind, d) =
    let later : leb (end_of new) area.addr_dma ≡ false = ground arith in
    let apart : overlaps new area ≡ false = ground arith in
    let (n, found, sorted) =
      whereto_from-Fitting new areas (area.addr_dma + area.size) (suc last) p behind s d in
    (suc n, rw (later, apart) (found ∙ ap some (omega arith)), (l', p', sorted))

-- A proper area that is disjoint from all areas gets a place, and there it keeps their order.
pub ixmap_dma_area_whereto-Sorted :
    (new : Area) (areas : List Area)
    → Proper new
    → Sorted 0 areas
    → All (Disjoint new) areas
    → (n : ℕ) × (ixmap_dma_area_whereto areas new ≡ some n) × Sorted 0 (add_at areas n new)
unfolding ixmap_dma_area_whereto
ixmap_dma_area_whereto-Sorted new areas p s d =
    let (n, found, sorted) = whereto_from-Fitting new areas 0 0 p (omega arith) s d in
    (n, found ∙ ap some (omega arith), sorted)

-- The area begins and ends strictly between the ends of the new one.
abbrev pub inside : Area → Area → Bool
inside new area =
    ltb new.addr_dma area.addr_dma && ltb (area.addr_dma + area.size) (new.addr_dma + new.size)

Disjoint-behind :
    (new : Area) (areas : List Area) (lo : ℕ)
    → new.addr_dma + new.size ≤ lo
    → Sorted lo areas
    → All (Disjoint new) areas
Disjoint-behind new [] lo h s = tt
Disjoint-behind new (area ∷ areas) lo h (l, p, s) =
    (inl (omega arith), Disjoint-behind new areas (area.addr_dma + area.size) (omega arith) s)

whereto_from-Disjoint :
    (new : Area) (areas : List Area) (lo last n : ℕ)
    → Proper new
    → Sorted lo areas
    → All (λ area. inside new area ≡ false) areas
    → whereto_from new areas last ≡ some n
    → All (Disjoint new) areas
unfolding whereto_from
whereto_from-Disjoint new [] lo last n p s o e = tt
whereto_from-Disjoint new (area ∷ areas) lo last n p (l, p', s) (o, os) e =
    elim (Bool-cases (leb (end_of new) area.addr_dma)) [
      | inl first ↦
          let before : new.addr_dma + new.size ≤ area.addr_dma = ground arith in
          (inl before, Disjoint-behind new areas (area.addr_dma + area.size) (omega arith) s)
      | inr later ↦ elim (Bool-cases (overlaps new area)) [
        | inl over ↦ absurd (ground arith)
        | inr apart ↦ (
          inr (ground arith),
          whereto_from-Disjoint new areas (area.addr_dma + area.size) (suc last) n p s os
              (ground arith),
        )
      ]
    ]

-- A proper area gets a place only if it is disjoint from all areas, given that none of these lies
-- strictly inside of it.
ixmap_dma_area_whereto-Disjoint :
    (new : Area) (areas : List Area) (n : ℕ)
    → Proper new
    → Sorted 0 areas
    → All (λ area. inside new area ≡ false) areas
    → ixmap_dma_area_whereto areas new ≡ some n
    → All (Disjoint new) areas
unfolding ixmap_dma_area_whereto
ixmap_dma_area_whereto-Disjoint new areas n p s o e = whereto_from-Disjoint new areas 0 0 n p s o e
