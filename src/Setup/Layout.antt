-- ===== src/Setup/Layout.antt =====
-- Where ixmap_desc_alloc (lib/ixmap.c) puts the rings of the devices.
use ixmap.Base.{
  ℕ, ◌+◌, ◌-◌, ◌*◌, ◌%◌, ◌^◌, ◌≤◌, ◌<◌, ◌≡◌, ◌⊎◌, refl, List, [], ◌∷◌, ◌++◌, Option, none, some,
  arith, update_same, All,
}
use ixmap.Setup.{World, attempt, Handle, align_to, sizeof_desc}
use ixmap.Setup.Desc.{Desc, size_1gb, new_ring, set_rings, assign_rings, ixmap_desc_alloc}

-- What holds of the result, if there is one.
abbrev pub Whenever : {A : Type 0} → (A → Type 0) → Option A × World → Type 0
Whenever Q (none, w) = Unit
Whenever Q (some a, w) = Q a

attempt-Whenever :
    {A B : Type 0} (R : A → Type 0) (Q : B → Type 0) (r : Option A × World)
    (clean_up : World → World) (go_on : A → World → Option B × World)
    → Whenever R r
    → ((a : A) (w : World) → R a → Whenever Q (go_on a w))
    → Whenever Q (attempt r clean_up go_on)
unfolding attempt
attempt-Whenever R Q (none, w) clean_up go_on h next = tt
attempt-Whenever R Q (some a, w) clean_up go_on h next = next a w h

attempt-always :
    {A B : Type 0} (Q : B → Type 0) (r : Option A × World) (clean_up : World → World)
    (go_on : A → World → Option B × World)
    → ((a : A) (w : World) → Whenever Q (go_on a w))
    → Whenever Q (attempt r clean_up go_on)
unfolding attempt
attempt-always Q (none, w) clean_up go_on next = tt
attempt-always Q (some a, w) clean_up go_on next = next a w

-- The rings of a handle between `low` and `high`: the receive ring first, each as long as its
-- descriptors, and each as aligned as `low`.
abbrev pub RingLaid : ℕ → ℕ → Handle → ℕ → Type 0
RingLaid core_id low ih high =
    let rx = ih.rx_ring core_id in
    let tx = ih.tx_ring core_id in
    (rx.addr_virt ≡ low)
    × (rx.addr_virt + sizeof_desc * ih.num_rx_desc ≤ tx.addr_virt)
    × (tx.addr_virt + sizeof_desc * ih.num_tx_desc ≤ high)
    × (tx.addr_virt % 128 ≡ low % 128)
    × (high % 128 ≡ low % 128)

-- The rings of the handles one behind the other.
abbrev pub RingsLaid : ℕ → ℕ → List Handle → ℕ → Type 0
RingsLaid core_id low [] high = low ≡ high
RingsLaid core_id low (ih ∷ handles) high =
    (middle : ℕ) × RingLaid core_id low ih middle × RingsLaid core_id middle handles high

RingsLaid-append :
    (core_id low middle high : ℕ) (handles : List Handle) (ih : Handle)
    → RingsLaid core_id low handles middle
    → RingLaid core_id middle ih high
    → RingsLaid core_id low (handles ++ ih ∷ []) high
RingsLaid-append core_id low middle high [] ih e laid = rw e (high, laid, refl)
RingsLaid-append core_id low middle high (h ∷ handles) ih (m, first, rest) laid =
    (m, first, RingsLaid-append core_id m middle high handles ih rest laid)

align_to_lem : (x : ℕ) → (x ≤ align_to 128 x) × (align_to 128 x % 128 ≡ 0)
align_to_lem x = (omega arith, omega arith)

set_rings-RingLaid :
    (core_id low : ℕ) (ih : Handle) (rx_dma rx_index tx_dma tx_index : ℕ)
    → ih.num_tx_desc ≤ ih.num_rx_desc
    → let size = align_to 128 (sizeof_desc * ih.num_rx_desc) in
      RingLaid core_id low
        (set_rings ih core_id
          (new_ring (ih.rx_ring core_id) low rx_dma rx_index)
          (new_ring (ih.tx_ring core_id) (low + size) tx_dma tx_index))
        (low + size + size)
set_rings-RingLaid core_id low ih rx_dma rx_index tx_dma tx_index le =
    let size = align_to 128 (sizeof_desc * ih.num_rx_desc) in
    let (enough, aligned) = align_to_lem (sizeof_desc * ih.num_rx_desc) in
    rw
      (
        update_same ih.rx_ring core_id (new_ring (ih.rx_ring core_id) low rx_dma rx_index),
        update_same ih.tx_ring core_id (new_ring (ih.tx_ring core_id) (low + size) tx_dma tx_index),
      )
      (
        refl,
        omega (arith, enough),
        omega (arith, enough),
        omega (arith, aligned),
        omega (arith, aligned),
      )

assign_rings-RingsLaid :
    (core_id low : ℕ) (list assigned : List Handle) (addr_virt : ℕ) (w : World)
    → All (λ (ih : Handle). ih.num_tx_desc ≤ ih.num_rx_desc) list
    → RingsLaid core_id low assigned addr_virt
    → Whenever
        (λ (r : List Handle × ℕ). RingsLaid core_id low r.0 r.1)
        (assign_rings core_id list assigned addr_virt w)
unfolding assign_rings
assign_rings-RingsLaid core_id low [] assigned addr_virt w le laid = laid
assign_rings-RingsLaid core_id low (ih ∷ list) assigned addr_virt w le laid =
    let Q = λ (r : List Handle × ℕ). RingsLaid core_id low r.0 r.1 in
    attempt-always Q _ _ _ λ rx_dma w₁. attempt-always Q _ _ _ λ rx_index w₂.
      attempt-always Q _ _ _ λ tx_dma w₃. attempt-always Q _ _ _ λ tx_index w₄.
        assign_rings-RingsLaid core_id low list _ _ w₄ le.1 (
          RingsLaid-append core_id low addr_virt _ assigned _ laid
            (set_rings-RingLaid core_id addr_virt ih rx_dma rx_index tx_dma tx_index le.0))

-- What ixmap_desc_alloc lays out in its region of memory.
abbrev pub DescLaid : ℕ → Desc × List Handle → Type 0
DescLaid core_id d =
    (high : ℕ) × RingsLaid core_id d.0.addr_virt d.1 high
    × (high ≤ d.0.node_ptr)
    × ((d.0.node_ptr + d.0.node_size ≡ d.0.addr_virt + size_1gb)
        ⊎ (d.0.addr_virt + size_1gb < d.0.node_ptr))

node_within :
    (low high : ℕ)
    → low ≤ high
    → let node_ptr = align_to 64 high in
      (high ≤ node_ptr)
      × ((node_ptr + (size_1gb + 2 ^ 64 - (node_ptr - low)) % 2 ^ 32 ≡ low + size_1gb)
          ⊎ (low + size_1gb < node_ptr))
node_within low high le = (omega arith, ground arith)

RingsLaid-le :
    (core_id low high : ℕ) (handles : List Handle) → RingsLaid core_id low handles high → low ≤ high
RingsLaid-le core_id low high [] e = omega arith
RingsLaid-le core_id low high (ih ∷ handles) (m, laid, rest) =
    omega (arith, laid.0, laid.1, laid.2, RingsLaid-le core_id m high handles rest)

-- If no device has more transmit than receive descriptors, the rings that ixmap_desc_alloc gives
-- them lie one behind the other in its region, each as long as its descriptors and all as aligned
-- to 128 bytes as the region; the allocator's memory begins behind them and ends with the region,
-- unless the rings alone do not fit.
pub ixmap_desc_alloc-DescLaid :
    (ih_list : List Handle) (core_id : ℕ) (w : World)
    → All (λ (ih : Handle). ih.num_tx_desc ≤ ih.num_rx_desc) ih_list
    → Whenever (DescLaid core_id) (ixmap_desc_alloc ih_list core_id w)
unfolding ixmap_desc_alloc
ixmap_desc_alloc-DescLaid ih_list core_id w le =
    let Q = DescLaid core_id in
    attempt-always Q _ _ _ λ at w₁. attempt-always Q _ _ _ λ addr_virt w₂.
      attempt-Whenever (λ (r : List Handle × ℕ). RingsLaid core_id addr_virt r.0 r.1) Q _ _ _
        (assign_rings-RingsLaid core_id addr_virt ih_list [] addr_virt w₂ le refl)
        λ rings w₃ laid. attempt-always Q _ _ _ λ node w₄.
          let (behind, within) =
            node_within addr_virt rings.1 (RingsLaid-le core_id addr_virt rings.1 rings.0 laid) in
          (rings.1, laid, behind, within)
