-- ===== src/Driver/Examples.antt =====
-- A port of lib/driver.c with rings of four descriptors and eight slots of 2048 bytes.
use ixmap.Driver.Tx.{ixmap_tx_xmit, ixmap_tx_assign, ixmap_tx_clean}
use ixmap.Driver.{
  ixmap_irq_unmask_queues, ixmap_test_staterr, ixmap_slot_addr_dma, ixmap_slot_addr_virt, RxDesc,
  TxDesc, Ring, Buf, Port, Packet, ixmap_desc_unused, find_slot, ixmap_slot_assign,
  ixmap_slot_release,
}
use ixmap.Base.{
  ℕ, ◌+◌, ◌%◌, ◌^◌, ◌<◌, ◌≡◌, refl, [], ◌∷◌, ◌++◌, none, some, length, update, arith, ◌==◌,
  if◌then◌else◌, bit_or,
}
use ixmap.Driver.Rx.{ixmap_rx_assign, ixmap_rx_clean}
use ixmap.Driver.Rings.{queue}
use ixmap.Driver.Transmit.{tx_refused, TxCleaned, ixmap_tx_assign-queue, ixmap_tx_clean-TxCleaned}
use ixmap.Driver.Receive.{
  RxFilled, RxTold, RxCleaned, ixmap_rx_assign-RxFilled, ixmap_rx_clean-RxCleaned,
}

abbrev buf : Buf
buf = record {
  addr_virt = 0x10000;
  addr_dma = λ port. 0x80000;
  buf_size = 2048;
  count = 4;
  slots = λ i. 0;
}

-- All four slots of the port are held.
abbrev full_buf : Buf
full_buf = record buf { slots = λ i. 1 }

-- The ring holds the slots 4 and 5, and the hardware is done with the first.
abbrev rx_ring : Ring RxDesc
rx_ring = record {
  desc = λ i. record { pkt_addr = 0x82000; upper = if i == 0 then 0x40_0000_0001 else 0 };
  tail = [];
  next_to_use = 2;
  next_to_clean = 0;
  slot_index = λ i. i + 4;
}

abbrev tx_ring : Ring TxDesc
tx_ring = record {
  desc = λ i. record {
    buffer_addr = 0x83000;
    cmd_type_len = 0;
    olinfo_status = if i == 3 then 1 else 0;
  };
  tail = [];
  next_to_use = 0;
  next_to_clean = 3;
  slot_index = λ i. i;
}

abbrev port : Port
port = record {
  irqreg = [];
  rx_ring = rx_ring;
  tx_ring = tx_ring;
  rx_slot_next = 1;
  rx_slot_offset = 0;
  tx_suspended = 0;
  num_tx_desc = 4;
  num_rx_desc = 4;
  rx_budget = 64;
  tx_budget = 64;
  mac_addr = [];
  count_rx_alloc_failed = 0;
  count_rx_clean_total = 0;
  count_tx_xmit_failed = 0;
  count_tx_clean_total = 0;
}

abbrev packet : Packet
packet = record { slot_buf = 0x10800; slot_size = 64; slot_index = 1 }

abbrev taken : ℕ × Buf × Port
taken =
    (1, record buf { slots = update buf.slots 1 (bit_or 0 1) }, record port { rx_slot_next = 2 })

taken-eq : ixmap_slot_assign buf port ≡ some taken
unfolding ixmap_slot_assign find_slot
taken-eq = refl

none_free : ixmap_slot_assign full_buf port ≡ none
unfolding ixmap_slot_assign find_slot
none_free = refl

ixmap_tx_assign-queue_example :
    let (buf', port') = ixmap_tx_assign 0 buf port packet in
    ((port'.tx_ring.next_to_use < 4) × (port'.tx_ring.next_to_clean < 4) × (4 < 2 ^ 16))
    × (queue port'.tx_ring 4
        ≡ (if tx_refused port packet then queue tx_ring 4 else queue tx_ring 4 ++ (1 ∷ [])))
    × (buf' ≡ (if tx_refused port packet then ixmap_slot_release buf 1 else buf))
    × ((if tx_refused port packet then port'.tx_ring else tx_ring) ≡ tx_ring)
    × (port'.tx_ring.tail ≡ [])
ixmap_tx_assign-queue_example =
    ixmap_tx_assign-queue 0 buf port packet (omega arith, omega arith, omega arith)

ixmap_tx_clean-TxCleaned_example :
    let (buf', port') = ixmap_tx_clean full_buf port in
    (total : ℕ) × TxCleaned 4 64 full_buf tx_ring 0 (total, buf', port'.tx_ring)
    × (port'.count_tx_clean_total ≡ (0 + total) % 2 ^ 64)
ixmap_tx_clean-TxCleaned_example =
    ixmap_tx_clean-TxCleaned full_buf port (omega arith, omega arith, omega arith)

ixmap_rx_clean-RxCleaned_example :
    let (packets, port') = ixmap_rx_clean buf port in
    RxCleaned buf 4 64 rx_ring (packets, port'.rx_ring)
    × (port'.count_rx_clean_total ≡ (0 + length packets) % 2 ^ 64)
ixmap_rx_clean-RxCleaned_example =
    ixmap_rx_clean-RxCleaned buf port (omega arith, omega arith, omega arith)

ixmap_rx_assign-RxFilled_example :
    let (buf', port') = ixmap_rx_assign 0 buf port in
    RxFilled 0 (ixmap_desc_unused rx_ring 4) buf port buf' port' × RxTold rx_ring port'.rx_ring
ixmap_rx_assign-RxFilled_example =
    ixmap_rx_assign-RxFilled 0 buf port (omega arith, omega arith, omega arith) (omega arith)

unmask_test : (ixmap_irq_unmask_queues port (2 ^ 32 + 2)).irqreg ≡ (1, 1) ∷ (0, 2) ∷ []
unfolding ixmap_irq_unmask_queues
unmask_test = refl

staterr_test : ixmap_test_staterr (rx_ring.desc 0) 1 ≡ 1
unfolding ixmap_test_staterr
staterr_test = refl

slot_addr_test : (ixmap_slot_addr_dma buf 3 0 ≡ 0x81800) × (ixmap_slot_addr_virt buf 3 ≡ 0x11800)
unfolding ixmap_slot_addr_dma ixmap_slot_addr_virt
slot_addr_test = (refl, refl)

xmit_test : (ixmap_tx_xmit (record port { tx_suspended = 2 })).tx_ring.tail ≡ 0 ∷ []
unfolding ixmap_tx_xmit
xmit_test = refl
