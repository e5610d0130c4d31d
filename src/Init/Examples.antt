-- ===== src/Init/Examples.antt =====
-- A card with four queues programmed by lib/rxinit.c.
use ixmap.Base.{ℕ, ◌+◌, ◌≡◌, [], arith, bit}
use ixmap.Setup.{Handle, HandleRing}
use ixmap.Init.{Card}
use ixmap.Init.Rx.{
  reg_reta, reg_rdt, reg_rxctrl, ixmap_setup_mrqc, ixmap_set_rx_buffer_len, ixmap_configure_rx,
}
use ixmap.Init.Queues.{Programmed, ixmap_configure_rx-Programmed}
use ixmap.Init.Reta.{InTurn, ixmap_setup_mrqc-InTurn}
use ixmap.Init.Sizes.{Sized, ixmap_set_rx_buffer_len-Sized}

abbrev ring_at : ℕ → HandleRing
ring_at q = record {
  addr_virt = 0x7f00_0000;
  addr_dma = 0x1_2345_0000 + q;
  next_to_use = 0;
  next_to_clean = 0;
  slot_index = 0;
  tail = 0;
}

abbrev device : Handle
device = record {
  fd = 5;
  bar = 0x10_0000;
  bar_size = 0x8_0000;
  rx_array = 0x20_0000;
  tx_array = 0x30_0000;
  rx_ring = ring_at;
  tx_ring = ring_at;
  num_tx_desc = 512;
  num_rx_desc = 512;
  rx_budget = 64;
  tx_budget = 64;
  num_queues = 4;
  num_interrupt_rate = 8;
  promisc = 1;
  mtu_frame = 1522;
  buf_size = 0;
  mac_addr = [];
}

abbrev card : Card
card = record { regs = λ r. 0; polls = []; late = 0 }

ixmap_configure_rx-Programmed_example :
    Programmed device 2 (ixmap_configure_rx device card).1.regs
    × (((ixmap_configure_rx device card).0.rx_ring 2).tail ≡ 0x10_0000 + reg_rdt 2)
    × (bit ((ixmap_configure_rx device card).1.regs reg_rxctrl) 0 ≡ 1)
ixmap_configure_rx-Programmed_example =
    ixmap_configure_rx-Programmed device card 2 (omega arith) (omega arith)

ixmap_setup_mrqc-InTurn_example : InTurn 4 7 ((ixmap_setup_mrqc device card).regs (reg_reta 7))
ixmap_setup_mrqc-InTurn_example =
    ixmap_setup_mrqc-InTurn device card 7 (omega arith) (omega arith) (omega arith)

ixmap_set_rx_buffer_len-Sized_example : Sized 1522 (ixmap_set_rx_buffer_len device card)
ixmap_set_rx_buffer_len-Sized_example = ixmap_set_rx_buffer_len-Sized device card (omega arith)
