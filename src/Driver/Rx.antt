-- ===== src/Driver/Rx.antt =====
-- The receive side of lib/driver.c: ixmap_rx_assign and ixmap_rx_clean.
use ixmap.Base.{
  ℕ, zero, suc, ◌+◌, ◌/◌, ◌%◌, ◌^◌, List, [], ◌∷◌, none, some, ◌==◌, if◌then◌else◌, update, length,
}
use ixmap.Driver.{
  RxDesc, Ring, Buf, Port, Packet, stat_dd, ixmap_desc_unused, ixmap_test_staterr, ixmap_write_tail,
  ring_next, ixmap_slot_attach, ixmap_slot_detach, ixmap_slot_addr_dma, ixmap_slot_addr_virt,
  ixmap_slot_assign,
}

-- The loop of ixmap_rx_assign, with `n` = max_allocation - total_allocated rounds to go; beside
-- the port and the slots stands how many descriptors it filled.
unfoldable pub rx_assign_loop : ℕ → ℕ → Buf → Port → ℕ → ℕ × Buf × Port
rx_assign_loop port_index zero buf port total_allocated = (total_allocated, buf, port)
rx_assign_loop port_index (suc n) buf port total_allocated = elim (ixmap_slot_assign buf port) [
  | none ↦ (
    total_allocated,
    buf,
    record port { count_rx_alloc_failed = (port.count_rx_alloc_failed + suc n) % 2 ^ 64 },
  )
  | some (slot_index, buf', port') ↦
      let ring : Ring RxDesc = port'.rx_ring in
      let attached = ixmap_slot_attach ring ring.next_to_use slot_index in
      let desc : RxDesc = record {
        pkt_addr = ixmap_slot_addr_dma buf' slot_index port_index;
        upper = 0;
      } in
      let ring' : Ring RxDesc = record attached {
        desc = update ring.desc ring.next_to_use desc;
        next_to_use = ring_next ring.next_to_use port'.num_rx_desc;
      } in
      rx_assign_loop port_index n buf' (record port' { rx_ring = ring' }) (suc total_allocated)
]

unfoldable pub ixmap_rx_assign : ℕ → Buf → Port → Buf × Port
ixmap_rx_assign port_index buf port =
    let max_allocation = ixmap_desc_unused port.rx_ring port.num_rx_desc in
    let (total_allocated, buf', port') = rx_assign_loop port_index max_allocation buf port 0 in
    let ring : Ring RxDesc = port'.rx_ring in
    if max_allocation == 0
    then (buf, port)
    else if total_allocated == 0
    then (buf', port')
    else (buf', record port' { rx_ring = ixmap_write_tail ring ring.next_to_use })

-- The loop of ixmap_rx_clean, with `n` = rx_budget - total_rx_packets rounds to go: the packets
-- taken and the ring. The frame error bits are only printed.
unfoldable pub rx_clean_loop : Buf → ℕ → ℕ → Ring RxDesc → List Packet × Ring RxDesc
rx_clean_loop buf num_desc zero ring = ([], ring)
rx_clean_loop buf num_desc (suc n) ring =
    let rx_desc : RxDesc = ring.desc ring.next_to_clean in
    let slot_index = ixmap_slot_detach ring ring.next_to_clean in
    let packet : Packet = record {
      slot_buf = ixmap_slot_addr_virt buf slot_index;
      slot_size = rx_desc.upper / 2 ^ 32 % 2 ^ 16;
      slot_index = slot_index;
    } in
    let rest =
      rx_clean_loop buf num_desc n
        (record ring { next_to_clean = ring_next ring.next_to_clean num_desc }) in
    if ring.next_to_clean == ring.next_to_use
    then ([], ring)
    else if ixmap_test_staterr rx_desc stat_dd == 0
    then ([], ring)
    else (packet ∷ rest.0, rest.1)

unfoldable pub ixmap_rx_clean : Buf → Port → List Packet × Port
ixmap_rx_clean buf port =
    let (packets, ring) = rx_clean_loop buf port.num_rx_desc port.rx_budget port.rx_ring in
    (
      packets,
      record port {
        rx_ring = ring;
        count_rx_clean_total = (port.count_rx_clean_total + length packets) % 2 ^ 64;
      },
    )
