-- ===== src/Setup/Rings.antt =====
-- The memory and the mappings of a core's descriptor rings (lib/ixmap.c): nothing that is taken is
-- lost.
use ixmap.Base.{ℕ, suc, ◌+◌, ◌*◌, ◌≡◌, refl, List, [], ◌∷◌, ◌++◌, arith, update_same}
use ixmap.Setup.{
  Resource, memory, region, mapping, unit, World, map_req, note, Handle, HandleRing, align_to,
  sizeof_int32, sizeof_desc, ixmap_dma_map,
}
use ixmap.Setup.Balance.{
  Gains, nothing, Balanced, Gains-self, Gains-same, release-Gains, give-Gains, Balanced-attempt,
  acquire-attempt, Returns, Balanced-Returns,
}
use ixmap.Setup.Answers.{Ready, Succeeds, attempt-Succeeds, acquire-attempt-Succeeds}
use ixmap.Setup.Desc.{
  Nodes, no_node, node_at, Desc, sizeof_struct_desc, sizeof_mnode, size_1gb, ixmap_mem_destroy,
  new_ring, set_rings, free_ring, free_rings, assign_rings, ixmap_desc_alloc, ixmap_desc_release,
}

abbrev pub nodes_cost : Nodes → Resource → ℕ
nodes_cost no_node r = 0
nodes_cost (node_at at c₀ c₁) r =
    unit (memory at sizeof_mnode) r + (nodes_cost c₀ r + nodes_cost c₁ r)

ixmap_mem_destroy-Gains :
    (node : Nodes) (kept : Resource → ℕ) (w w' : World)
    → Gains (λ r. nodes_cost node r + kept r) w w'
    → Gains kept w (ixmap_mem_destroy node w')
unfolding ixmap_mem_destroy
ixmap_mem_destroy-Gains no_node kept w w' g = Gains-same _ _ w w' (λ r. omega arith) g
ixmap_mem_destroy-Gains (node_at at c₀ c₁) kept w w' g =
    release-Gains (memory at sizeof_mnode) kept w _ (
      ixmap_mem_destroy-Gains c₁ _ w _
        (ixmap_mem_destroy-Gains c₀ _ w w' (Gains-same _ _ w w' (λ r. omega arith) g)))

-- What a handle's rings hold.
abbrev pub half_cost : Handle → ℕ → HandleRing → Resource → ℕ
half_cost ih num_desc ring r =
    unit (mapping ih.fd ring.addr_dma) r + unit (memory ring.slot_index (sizeof_int32 * num_desc)) r

abbrev pub ring_cost : ℕ → Handle → Resource → ℕ
ring_cost core_id ih r =
    half_cost ih ih.num_rx_desc (ih.rx_ring core_id) r
    + half_cost ih ih.num_tx_desc (ih.tx_ring core_id) r

abbrev pub rings_cost : ℕ → List Handle → Resource → ℕ
rings_cost core_id [] r = 0
rings_cost core_id (ih ∷ handles) r = ring_cost core_id ih r + rings_cost core_id handles r

rings_cost-append :
    (core_id : ℕ) (handles more : List Handle) (r : Resource)
    → rings_cost core_id (handles ++ more) r
      ≡ rings_cost core_id handles r + rings_cost core_id more r
rings_cost-append core_id [] more r = omega arith
rings_cost-append core_id (ih ∷ handles) more r =
    omega (arith, rings_cost-append core_id handles more r)

ring_cost-set_rings :
    (ih : Handle) (core_id : ℕ) (rx tx : HandleRing) (r : Resource)
    → ring_cost core_id (set_rings ih core_id rx tx) r
      ≡ half_cost ih ih.num_rx_desc rx r + half_cost ih ih.num_tx_desc tx r
ring_cost-set_rings ih core_id rx tx r =
    rw (update_same ih.rx_ring core_id rx, update_same ih.tx_ring core_id tx) refl

free_ring-Gains :
    (core_id : ℕ) (ih : Handle) (kept : Resource → ℕ) (w w' : World)
    → Gains (λ r. ring_cost core_id ih r + kept r) w w'
    → Gains kept w (free_ring core_id ih w')
unfolding free_ring
free_ring-Gains core_id ih kept w w' g =
    let rx = ih.rx_ring core_id in
    let tx = ih.tx_ring core_id in
    release-Gains (mapping ih.fd rx.addr_dma) kept w _ (
      release-Gains (memory rx.slot_index (sizeof_int32 * ih.num_rx_desc)) _ w _ (
        release-Gains (mapping ih.fd tx.addr_dma) _ w _ (
          give-Gains (memory tx.slot_index (sizeof_int32 * ih.num_tx_desc)) _ _ w w'
            (λ r. omega arith) g)))

free_rings-Gains :
    (core_id : ℕ) (handles : List Handle) (kept : Resource → ℕ) (w w' : World)
    → Gains (λ r. rings_cost core_id handles r + kept r) w w'
    → Gains kept w (free_rings core_id handles w')
unfolding free_rings
free_rings-Gains core_id [] kept w w' g = Gains-same _ _ w w' (λ r. omega arith) g
free_rings-Gains core_id (ih ∷ handles) kept w w' g =
    free_rings-Gains core_id handles kept w _
      (free_ring-Gains core_id ih _ w w' (Gains-same _ _ w w' (λ r. omega arith) g))

assign_rings-Balanced :
    (core_id : ℕ) (list assigned : List Handle) (addr_virt : ℕ) (w w' : World)
    → Gains (rings_cost core_id assigned) w w'
    → Balanced
        (λ (r : List Handle × ℕ). rings_cost core_id r.0)
        w
        (assign_rings core_id list assigned addr_virt w')
unfolding assign_rings ixmap_dma_map
assign_rings-Balanced core_id [] assigned addr_virt w w' g = g
assign_rings-Balanced core_id (ih ∷ list) assigned addr_virt w w' g =
    let size_rx_desc = align_to 128 (sizeof_desc * ih.num_rx_desc) in
    let size_tx_desc = align_to 128 (sizeof_desc * ih.num_tx_desc) in
    let rx_slots = λ (at : ℕ). memory at (sizeof_int32 * ih.num_rx_desc) in
    let tx_slots = λ (at : ℕ). memory at (sizeof_int32 * ih.num_tx_desc) in
    let map_dma = λ (addr_dma : ℕ). mapping ih.fd addr_dma in
    let result = λ (r : List Handle × ℕ). rings_cost core_id r.0 in
    let kept = rings_cost core_id assigned in
    let undo = λ (w₁ : World) (g : Gains kept w w₁).
      free_rings-Gains core_id assigned nothing w w₁ (Gains-same _ _ w w₁ (λ r. omega arith) g) in
    acquire-attempt result kept w (note (map_req ih.fd addr_virt size_rx_desc) w') _ map_dma _ g
      undo
      λ rx_dma w₁ g₁.
        let undo₁ = λ (w₂ : World) (g : Gains (λ r. unit (map_dma rx_dma) r + kept r) w w₂).
          undo _ (release-Gains (map_dma rx_dma) kept w w₂ g) in
        acquire-attempt result _ w w₁ _ rx_slots _ g₁ undo₁ λ rx_index w₂ g₂.
          let undo₂ = λ (w₃ : World) (g : Gains _ w w₃).
            undo₁ _ (release-Gains (rx_slots rx_index) _ w w₃ g) in
          acquire-attempt result _ w
            (note (map_req ih.fd (addr_virt + size_rx_desc) size_tx_desc) w₂) _ map_dma _ g₂ undo₂
            λ tx_dma w₃ g₃.
              acquire-attempt result _ w w₃ _ tx_slots _ g₃
                (λ w₄ g. undo₂ _ (release-Gains (map_dma tx_dma) _ w w₄ g))
                λ tx_index w₄ g₄.
                  let rx = new_ring (ih.rx_ring core_id) addr_virt rx_dma rx_index in
                  let tx =
                    new_ring (ih.tx_ring core_id) (addr_virt + size_rx_desc) tx_dma tx_index in
                  let set = set_rings ih core_id rx tx in
                  assign_rings-Balanced core_id list (assigned ++ set ∷ [])
                    (addr_virt + size_rx_desc + size_rx_desc) w w₄
                    (Gains-same _ _ w w₄
                      (λ r. omega (
                        arith,
                        rings_cost-append core_id assigned (set ∷ []) r,
                        ring_cost-set_rings ih core_id rx tx r,
                      ))
                      g₄)

abbrev desc_cost : ℕ → Desc × List Handle → Resource → ℕ
desc_cost core_id d r =
    unit (memory d.0.at sizeof_struct_desc) r
    + unit (region d.0.addr_virt size_1gb) r
    + rings_cost core_id d.1 r
    + unit (memory d.0.node sizeof_mnode) r

ixmap_desc_alloc-Balanced :
    (ih_list : List Handle) (core_id : ℕ) (w : World)
    → Balanced (desc_cost core_id) w (ixmap_desc_alloc ih_list core_id w)
unfolding ixmap_desc_alloc
ixmap_desc_alloc-Balanced ih_list core_id w =
    let result = desc_cost core_id in
    acquire-attempt result nothing w w _ (λ at. memory at sizeof_struct_desc) _ (Gains-self w)
      (λ w₁ g. g)
      λ at w₁ g₁.
        let undo = release-Gains (memory at sizeof_struct_desc) nothing w in
        acquire-attempt result _ w w₁ _ (λ addr. region addr size_1gb) _ g₁ undo
          λ addr_virt w₂ g₂.
            let undo₂ = λ (w' : World) (g : Gains _ w w').
              undo _ (release-Gains (region addr_virt size_1gb) _ w w' g) in
            Balanced-attempt result _ w w₂ _ (λ (r : List Handle × ℕ). rings_cost core_id r.0) _ _
              (assign_rings-Balanced core_id ih_list [] addr_virt w₂ w₂ (Gains-self w₂)) g₂ undo₂
              λ rings w₃ g₃.
                acquire-attempt result _ w w₃ _ (λ node. memory node sizeof_mnode) _ g₃
                  (λ w' g. undo₂ _ (free_rings-Gains core_id rings.0 _ w w' g))
                  λ node w₄ g₄. Gains-same _ _ w w₄ (λ r. omega arith) g₄

-- The descriptor memory once the allocator has nodes below its root.
abbrev pub grow : Nodes → Nodes → Desc → Desc
grow low high desc = record desc { node_low = low; node_high = high }

ixmap_desc_release-Gains :
    (core_id : ℕ) (low high : Nodes) (kept : Resource → ℕ) (d : Desc × List Handle) (w w' : World)
    → Gains (λ r. desc_cost core_id d r + (nodes_cost low r + nodes_cost high r + kept r)) w w'
    → Gains kept w (ixmap_desc_release d.1 core_id (grow low high d.0) w')
unfolding ixmap_desc_release
ixmap_desc_release-Gains core_id low high kept d w w' g =
    release-Gains (memory d.0.at sizeof_struct_desc) kept w _ (
      release-Gains (region d.0.addr_virt size_1gb) _ w _ (
        free_rings-Gains core_id d.1 _ w _ (
          ixmap_mem_destroy-Gains (node_at d.0.node low high) _ w w'
            (Gains-same _ _ w w' (λ r. omega arith) g))))

-- ixmap_desc_alloc that fails, at whatever step, holds what was held before and gives nothing back
-- that it did not take. If it succeeds and what runs since takes the nodes `low` and `high` below
-- the allocator's root and `kept`, ixmap_desc_release gives back all but `kept`.
pub ixmap_desc_alloc-Returns :
    (ih_list : List Handle) (core_id : ℕ) (low high : Nodes) (kept : Resource → ℕ)
    (later : World → World) (w : World)
    → ((w' : World) → Gains (λ r. nodes_cost low r + nodes_cost high r + kept r) w' (later w'))
    → Returns
        (λ d. ixmap_desc_release d.1 core_id (grow low high d.0))
        kept
        later
        w
        (ixmap_desc_alloc ih_list core_id w)
ixmap_desc_alloc-Returns ih_list core_id low high kept later w h =
    Balanced-Returns (desc_cost core_id) (λ d. ixmap_desc_release d.1 core_id (grow low high d.0))
      (λ r. nodes_cost low r + nodes_cost high r + kept r) kept later w _
      (ixmap_desc_release-Gains core_id low high kept) h
      (ixmap_desc_alloc-Balanced ih_list core_id w)

-- The answers that the rings of the handles ask for, before `n` others.
abbrev pub ring_answers : List Handle → ℕ → ℕ
ring_answers [] n = n
ring_answers (ih ∷ list) n = suc (suc (suc (suc (ring_answers list n))))

assign_rings-Succeeds :
    (core_id : ℕ) (list assigned : List Handle) (addr_virt n : ℕ) (w : World)
    → Ready (ring_answers list n) w
    → Succeeds n (assign_rings core_id list assigned addr_virt w)
unfolding assign_rings ixmap_dma_map
assign_rings-Succeeds core_id [] assigned addr_virt n w h = h
assign_rings-Succeeds core_id (ih ∷ list) assigned addr_virt n w h =
    let size_rx_desc = align_to 128 (sizeof_desc * ih.num_rx_desc) in
    let size_tx_desc = align_to 128 (sizeof_desc * ih.num_tx_desc) in
    let map_dma = λ (addr_dma : ℕ). mapping ih.fd addr_dma in
    let after = ring_answers list n in
    acquire-attempt-Succeeds map_dma (suc (suc (suc after))) n
      (note (map_req ih.fd addr_virt size_rx_desc) w) _ _ h
      λ rx_dma w₁ h₁.
        acquire-attempt-Succeeds (λ at. memory at (sizeof_int32 * ih.num_rx_desc)) (suc (suc after))
          n w₁ _ _ h₁
          λ rx_index w₂ h₂.
            acquire-attempt-Succeeds map_dma (suc after) n
              (note (map_req ih.fd (addr_virt + size_rx_desc) size_tx_desc) w₂) _ _ h₂
              λ tx_dma w₃ h₃.
                acquire-attempt-Succeeds (λ at. memory at (sizeof_int32 * ih.num_tx_desc)) after n
                  w₃ _ _ h₃ λ tx_index w₄. assign_rings-Succeeds core_id list _ _ n w₄

-- ixmap_desc_alloc succeeds if all its requests to the system, 3 and 4 for each device, are
-- answered; the answers behind them are left.
ixmap_desc_alloc-Succeeds :
    (ih_list : List Handle) (core_id n : ℕ) (w : World)
    → Ready (suc (suc (ring_answers ih_list (suc n)))) w
    → Succeeds n (ixmap_desc_alloc ih_list core_id w)
unfolding ixmap_desc_alloc
ixmap_desc_alloc-Succeeds ih_list core_id n w h =
    let after = ring_answers ih_list (suc n) in
    acquire-attempt-Succeeds (λ at. memory at sizeof_struct_desc) (suc after) n w _ _ h
      λ at w₁ h₁.
        acquire-attempt-Succeeds (λ addr. region addr size_1gb) after n w₁ _ _ h₁
          λ addr_virt w₂ h₂.
            attempt-Succeeds (suc n) n _ _ _
              (assign_rings-Succeeds core_id ih_list [] addr_virt (suc n) w₂ h₂)
              λ rings w₃ h₃.
                acquire-attempt-Succeeds (λ node. memory node sizeof_mnode) n n w₃ _ _ h₃
                  λ node w₄ h₄. h₄
