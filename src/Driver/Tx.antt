-- ===== src/Driver/Tx.antt =====
-- The transmit side of lib/driver.c: ixmap_tx_assign, ixmap_tx_xmit and ixmap_tx_clean.
use ixmap.Base.{ℕ, zero, suc, ◌+◌, ◌*◌, ◌%◌, ◌^◌, ◌==◌, ltb, if◌then◌else◌, update, bit_and, bit_or}
use ixmap.Driver.{
  TxDesc, Ring, Buf, Port, Packet, stat_dd, max_data_per_txd, tx_flags, ixmap_desc_unused,
  ixmap_write_tail, ring_next, ixmap_slot_attach, ixmap_slot_detach, ixmap_slot_addr_dma,
  ixmap_slot_release,
}

-- The packet is dropped: counted and its slot released.
abbrev pub tx_drop : Buf → Port → Packet → Buf × Port
tx_drop buf port packet = (
  ixmap_slot_release buf packet.slot_index,
  record port { count_tx_xmit_failed = (port.count_tx_xmit_failed + 1) % 2 ^ 64 },
)

-- The descriptor that ixmap_tx_assign fills in.
abbrev pub tx_desc : ℕ → Buf → Packet → TxDesc
tx_desc port_index buf packet = record {
  buffer_addr = ixmap_slot_addr_dma buf packet.slot_index port_index;
  cmd_type_len = bit_or packet.slot_size tx_flags;
  olinfo_status = (packet.slot_size * 2 ^ 14) % 2 ^ 32;
}

unfoldable pub ixmap_tx_assign : ℕ → Buf → Port → Packet → Buf × Port
ixmap_tx_assign port_index buf port packet =
    let ring : Ring TxDesc = port.tx_ring in
    let attached = ixmap_slot_attach ring ring.next_to_use packet.slot_index in
    let ring' : Ring TxDesc = record attached {
      desc = update ring.desc ring.next_to_use (tx_desc port_index buf packet);
      next_to_use = ring_next ring.next_to_use port.num_tx_desc;
    } in
    if ixmap_desc_unused ring port.num_tx_desc == 0
    then tx_drop buf port packet
    else if ltb max_data_per_txd packet.slot_size
    then tx_drop buf port packet
    else (buf, record port { tx_ring = ring'; tx_suspended = (port.tx_suspended + 1) % 2 ^ 32 })

unfoldable pub ixmap_tx_xmit : Port → Port
ixmap_tx_xmit port =
    let ring : Ring TxDesc = port.tx_ring in
    if port.tx_suspended == 0
    then port
    else record port { tx_ring = ixmap_write_tail ring ring.next_to_use; tx_suspended = 0 }

-- The loop of ixmap_tx_clean, with `n` = tx_budget - total_tx_packets rounds to go; beside the
-- slots and the ring stands how many packets it cleaned.
unfoldable pub tx_clean_loop : ℕ → ℕ → Buf → Ring TxDesc → ℕ → ℕ × Buf × Ring TxDesc
tx_clean_loop num_desc zero buf ring total_tx_packets = (total_tx_packets, buf, ring)
tx_clean_loop num_desc (suc n) buf ring total_tx_packets =
    let desc : TxDesc = ring.desc ring.next_to_clean in
    let slot_index = ixmap_slot_detach ring ring.next_to_clean in
    let rest =
      tx_clean_loop num_desc n (ixmap_slot_release buf slot_index)
        (record ring { next_to_clean = ring_next ring.next_to_clean num_desc })
        (suc total_tx_packets) in
    if ring.next_to_clean == ring.next_to_use
    then (total_tx_packets, buf, ring)
    else if bit_and desc.olinfo_status stat_dd == 0
    then (total_tx_packets, buf, ring)
    else rest

unfoldable pub ixmap_tx_clean : Buf → Port → Buf × Port
ixmap_tx_clean buf port =
    let (total_tx_packets, buf', ring) =
      tx_clean_loop port.num_tx_desc port.tx_budget buf port.tx_ring 0 in
    (
      buf',
      record port {
        tx_ring = ring;
        count_tx_clean_total = (port.count_tx_clean_total + total_tx_packets) % 2 ^ 64;
      },
    )
