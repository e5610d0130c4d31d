-- ===== src/Setup/Desc.antt =====
-- ixmap_desc_alloc and ixmap_desc_release of lib/ixmap.c, with ixmap_mem_destroy of lib/memory.c.
-- `list` is ih_list from the loop's position on.
use ixmap.Base.{ℕ, ◌+◌, ◌-◌, ◌*◌, ◌%◌, ◌^◌, List, [], ◌∷◌, ◌++◌, Option, some, update}
use ixmap.Setup.{
  memory, region, World, acquire, release, attempt, align_to, sizeof_int32, sizeof_desc, Handle,
  HandleRing, ixmap_dma_map, ixmap_dma_unmap,
}

-- The memory that the nodes of the allocator take, by where they lie.
pub data Nodes : Type 0 where
  no_node : Nodes
  node_at : ℕ → Nodes → Nodes → Nodes

-- `node` is where the root of the allocator's nodes lies; `node_low` and `node_high` are its children,
-- `node_ptr` and `node_size` the memory that it stands for.
pub record Desc : Type 0 where
  pub at : ℕ
  pub addr_virt : ℕ
  pub node : ℕ
  pub node_low : Nodes
  pub node_high : Nodes
  pub node_ptr : ℕ
  pub node_size : ℕ
  pub core_id : ℕ

abbrev pub sizeof_struct_desc : ℕ
sizeof_struct_desc = 24

abbrev pub sizeof_mnode : ℕ
sizeof_mnode = 48

abbrev pub size_1gb : ℕ
size_1gb = 2 ^ 30

-- `_ixmap_mem_destroy`, on a node that is there, with ixmap_mnode_release.
unfoldable pub ixmap_mem_destroy : Nodes → World → World
ixmap_mem_destroy no_node w = w
ixmap_mem_destroy (node_at at c₀ c₁) w =
    release (memory at sizeof_mnode) (ixmap_mem_destroy c₁ (ixmap_mem_destroy c₀ w))

abbrev pub new_ring : HandleRing → ℕ → ℕ → ℕ → HandleRing
new_ring ring addr_virt addr_dma slot_index = record ring {
  addr_virt = addr_virt;
  addr_dma = addr_dma;
  next_to_use = 0;
  next_to_clean = 0;
  slot_index = slot_index;
}

abbrev pub set_rings : Handle → ℕ → HandleRing → HandleRing → Handle
set_rings ih core_id rx tx = record ih {
  rx_ring = update ih.rx_ring core_id rx;
  tx_ring = update ih.tx_ring core_id tx;
}

-- What ixmap_desc_release does to one handle.
unfoldable pub free_ring : ℕ → Handle → World → World
free_ring core_id ih w =
    let rx = ih.rx_ring core_id in
    let tx = ih.tx_ring core_id in
    ixmap_dma_unmap ih rx.addr_dma (
      release (memory rx.slot_index (sizeof_int32 * ih.num_rx_desc)) (
        ixmap_dma_unmap ih tx.addr_dma
          (release (memory tx.slot_index (sizeof_int32 * ih.num_tx_desc)) w)))

unfoldable pub free_rings : ℕ → List Handle → World → World
free_rings core_id [] w = w
free_rings core_id (ih ∷ handles) w = free_rings core_id handles (free_ring core_id ih w)

-- The loop over the handles; `assigned` are the handles so far, with their rings. The second of
-- the results is where the memory behind the rings begins.
unfoldable pub assign_rings :
    ℕ → List Handle → List Handle → ℕ → World → Option (List Handle × ℕ) × World
assign_rings core_id [] assigned addr_virt w = (some (assigned, addr_virt), w)
assign_rings core_id (ih ∷ list) assigned addr_virt w =
    let size_rx_desc = align_to 128 (sizeof_desc * ih.num_rx_desc) in
    let size_tx_desc = align_to 128 (sizeof_desc * ih.num_tx_desc) in
    let rx_slots = λ (at : ℕ). memory at (sizeof_int32 * ih.num_rx_desc) in
    let tx_slots = λ (at : ℕ). memory at (sizeof_int32 * ih.num_tx_desc) in
    attempt (ixmap_dma_map ih addr_virt size_rx_desc w) (free_rings core_id assigned) λ rx_dma w.
      attempt (acquire rx_slots w) (λ w. free_rings core_id assigned (ixmap_dma_unmap ih rx_dma w))
        λ rx_index w.
          attempt (ixmap_dma_map ih (addr_virt + size_rx_desc) size_tx_desc w)
            (λ w.
              free_rings core_id assigned
                (ixmap_dma_unmap ih rx_dma (release (rx_slots rx_index) w)))
            λ tx_dma w.
              attempt (acquire tx_slots w)
                (λ w. free_rings core_id assigned (
                  ixmap_dma_unmap ih rx_dma
                    (release (rx_slots rx_index) (ixmap_dma_unmap ih tx_dma w))))
                λ tx_index w.
                  let rx = new_ring (ih.rx_ring core_id) addr_virt rx_dma rx_index in
                  let tx =
                    new_ring (ih.tx_ring core_id) (addr_virt + size_rx_desc) tx_dma tx_index in
                  assign_rings core_id list (assigned ++ set_rings ih core_id rx tx ∷ [])
                    (addr_virt + size_rx_desc + size_rx_desc) w

-- The handles come back with their rings.
unfoldable pub ixmap_desc_alloc : List Handle → ℕ → World → Option (Desc × List Handle) × World
ixmap_desc_alloc ih_list core_id w =
    attempt (acquire (λ at. memory at sizeof_struct_desc) w) (λ w. w)
      λ at w.
        attempt (acquire (λ addr. region addr size_1gb) w) (release (memory at sizeof_struct_desc))
          λ addr_virt w.
            attempt (assign_rings core_id ih_list [] addr_virt w)
              (λ w. release (memory at sizeof_struct_desc) (release (region addr_virt size_1gb) w))
              λ rings w.
                attempt (acquire (λ node. memory node sizeof_mnode) w)
                  (λ w.
                    release (memory at sizeof_struct_desc)
                      (release (region addr_virt size_1gb) (free_rings core_id rings.0 w)))
                  λ node w.
                    let addr_mem = align_to 64 rings.1 in
                    let desc : Desc = record {
                      at = at;
                      addr_virt = addr_virt;
                      node = node;
                      node_low = no_node;
                      node_high = no_node;
                      node_ptr = addr_mem;
                      node_size = (size_1gb + 2 ^ 64 - (addr_mem - addr_virt)) % 2 ^ 32;
                      core_id = core_id;
                    } in
                    (some (desc, rings.0), w)

unfoldable pub ixmap_desc_release : List Handle → ℕ → Desc → World → World
ixmap_desc_release ih_list core_id desc w = release (memory desc.at sizeof_struct_desc) (
    release (region desc.addr_virt size_1gb) (
      free_rings core_id ih_list
        (ixmap_mem_destroy (node_at desc.node desc.node_low desc.node_high) w)))
