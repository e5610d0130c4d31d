-- ===== src/Forward/Examples.antt =====
-- src/forward.c on a UDP frame to 10.1.2.3, which a route leads to a neighbour on port 1.
use ixmap.Base.{
  ℕ, ◌+◌, ◌-◌, ◌%◌, ◌≡◌, ◌≢◌, refl, List, [], ◌∷◌, ◌++◌, true, false, some, arith, ◌==◌,
  if◌then◌else◌, update, get_or, All, bit_or,
}
use ixmap.Hash.{find_entry, hash_lookup}
use ixmap.Neigh.Keys.{DstAddr, key_ops_v4, neigh_key_generate_v4, neigh_key_compare_v4}
use ixmap.Neigh.{NeighTable, neigh_lookup}
use ixmap.Lpm.{leaf, lpm_index}
use ixmap.Lpm.Lookup.{lpm_lookup}
use ixmap.Fib.{link, FibEntry, Fib, fib_lookup}
use ixmap.Driver.{
  Ring, Buf, Port, Packet, ixmap_desc_unused, find_slot, ixmap_slot_assign, ixmap_slot_addr_virt,
}
use ixmap.Driver.Slots.{in_flight}
use ixmap.Driver.Rings.{queue}
use ixmap.Driver.Transmit.{tx_refused}
use ixmap.Forward.Bytes.{Mem, read_bytes, write_bytes}
use ixmap.Forward.Checksum.{IsBytes, header_ok, ip_rewrite-header_ok}
use ixmap.Forward.Decide.{Fate, in_check, forward_ip_process-Fate}
use ixmap.Forward.Process.{forward_process-frees, forward_process-queue, forward_process_tun-queue}
use ixmap.Forward.{
  Thread, ip_check_update, ip_rewrite, next_neigh, find_route, forward_ip_process, forward_packet,
  forward_process, forward_process_tun,
}

abbrev frame : List ℕ
frame =
    0x02 ∷ 0 ∷ 0 ∷ 0 ∷ 0 ∷ 1 ∷ 0x02 ∷ 0 ∷ 0 ∷ 0 ∷ 0 ∷ 2 ∷ 0x08 ∷ 0x00 ∷ 0x45 ∷ 0 ∷ 0 ∷ 0x28 ∷ 0 ∷ 0
    ∷ 0 ∷ 0 ∷ 0x40 ∷ 0x11 ∷ 0x64 ∷ 0xc0 ∷ 10 ∷ 0 ∷ 0 ∷ 2 ∷ 10 ∷ 1 ∷ 2 ∷ 3 ∷ []

-- The frame stands in the slot 1.
abbrev mem : Mem
mem a = get_or frame (a - 0x10800) 0 % 256

abbrev mac : List ℕ
mac = 0x02 ∷ 0 ∷ 0 ∷ 0 ∷ 0 ∷ 9 ∷ []

abbrev host : DstAddr
host = record { w0 = 0x0302_010a; w1 = 0; w2 = 0; w3 = 0 }

abbrev neigh : NeighTable
neigh = record {
  ops = key_ops_v4;
  table = record {
    head =
        update (λ i. []) (neigh_key_generate_v4 host 16)
          (record { key = host; value = record { block = 64; dst_mac = mac } } ∷ []);
  };
}

abbrev route : FibEntry
route = record {
  block = 128;
  prefix = λ i. if i == 0 then 0x0a01_0000 else 0;
  prefix_len = 16;
  nexthop = λ i. 0;
  port_index = some 1;
  type = link;
  id = 5;
}

abbrev fib : Fib
fib = record { node = λ i. if i == 0x0a01 then leaf (route ∷ []) else leaf [] }

abbrev ring : {D : Type 0} → D → Ring D
ring desc = record {
  desc = λ i. desc;
  tail = [];
  next_to_use = 0;
  next_to_clean = 0;
  slot_index = λ i. 0;
}

abbrev port : Port
port = record {
  irqreg = [];
  rx_ring = ring (record { pkt_addr = 0; upper = 0 });
  tx_ring = ring (record { buffer_addr = 0; cmd_type_len = 0; olinfo_status = 0 });
  rx_slot_next = 2;
  rx_slot_offset = 0;
  tx_suspended = 0;
  num_tx_desc = 4;
  num_rx_desc = 4;
  rx_budget = 64;
  tx_budget = 64;
  mac_addr = mac;
  count_rx_alloc_failed = 0;
  count_rx_clean_total = 0;
  count_tx_xmit_failed = 0;
  count_tx_clean_total = 0;
}

abbrev buf : Buf
buf = record {
  addr_virt = 0x10000;
  addr_dma = λ port. 0x80000;
  buf_size = 2048;
  count = 4;
  slots = λ i. if i == 1 then 1 else 0;
}

abbrev thread : Thread
thread = record {
  ports = λ i. port;
  buf = buf;
  fib_inet = fib;
  fib_inet6 = fib;
  neigh_inet = λ i. neigh;
  neigh_inet6 = λ i. neigh;
  tun = [];
  mem = mem;
}

abbrev packet : Packet
packet = record { slot_buf = 0x10800; slot_size = 34; slot_index = 1 }

mem-IsBytes : IsBytes mem
mem-IsBytes a = omega arith

alive : mem (0x10800 + 22) ≢ 0
alive = λ (e : 64 ≡ 0). omega arith

frame_ok : header_ok mem 0x10800 10 ≡ true
frame_ok = refl

abbrev next : Buf × Port
next = (record buf { slots = update buf.slots 2 (bit_or 0 1) }, record port { rx_slot_next = 3 })

next-eq : ixmap_slot_assign buf port ≡ some (2, next.0, next.1)
unfolding ixmap_slot_assign find_slot
next-eq = refl

tun_taken :
    tx_refused next.1
      (record { slot_buf = ixmap_slot_addr_virt next.0 2; slot_size = 3; slot_index = 2 })
    ≡ false
unfolding ixmap_desc_unused
tun_taken = refl

ip_rewrite-header_ok_example : header_ok (ip_rewrite mem 0x10800 mac mac) 0x10800 10 ≡ true
ip_rewrite-header_ok_example =
    ip_rewrite-header_ok mem 0x10800 mac mac 10 (omega arith) mem-IsBytes alive frame_ok

forward_ip_process-Fate_example :
    Fate in_check thread fib (λ i. neigh) 30 22 0 packet (forward_ip_process thread 0 packet)
forward_ip_process-Fate_example = forward_ip_process-Fate thread 0 packet

-- The bytes that the frame begins with once it is sent, and its time to live.
sent_bytes :
    (read_bytes (ip_rewrite mem 0x10800 mac (7 ∷ 7 ∷ 7 ∷ 7 ∷ 7 ∷ 7 ∷ [])) 0x10800 7
      ≡ 0x02 ∷ 0 ∷ 0 ∷ 0 ∷ 0 ∷ 9 ∷ 7 ∷ [])
    × (ip_rewrite mem 0x10800 mac mac 0x10816 ≡ 0x3f)
unfolding ip_rewrite write_bytes ip_check_update
sent_bytes = (refl, refl)

forward_process-frees_example :
    All
      (λ (p : Packet). in_flight (forward_process thread 0 (packet ∷ [])).buf p.slot_index ≡ false)
      (packet ∷ [])
forward_process-frees_example = forward_process-frees 0 (packet ∷ []) thread

-- The packet stands second in a batch of three.
abbrev other : Packet
other = record packet { slot_buf = 0x11800; slot_index = 3 }

second_routed : (forward_packet (forward_process thread 0 (other ∷ [])) 0 packet).0 ≡ some 1
unfolding forward_process forward_packet forward_ip_process find_route next_neigh fib_lookup
    lpm_lookup lpm_index neigh_lookup hash_lookup find_entry neigh_key_generate_v4
    neigh_key_compare_v4
second_routed = refl

second_taken : tx_refused ((forward_process thread 0 (other ∷ [])).ports 1) packet ≡ false
unfolding forward_process forward_packet ixmap_desc_unused
second_taken = refl

forward_process-queue_example :
    let reached = forward_process thread 0 (other ∷ []) in
    let thread' = forward_process thread 0 (other ∷ packet ∷ other ∷ []) in
    (earlier : List ℕ) × (later : List ℕ) × (queue (thread'.ports 1).tx_ring 4
      ≡ ((queue port.tx_ring 4 ++ earlier) ++ (1 ∷ [])) ++ later)
    × (queue (reached.ports 1).tx_ring 4 ≡ queue port.tx_ring 4 ++ earlier)
    × (in_flight thread'.buf 1 ≡ false)
forward_process-queue_example =
    forward_process-queue 0 1 thread (other ∷ []) (other ∷ []) packet
      (λ q. (omega arith, omega arith, omega arith)) second_routed second_taken

forward_process_tun-queue_example :
    let thread' = forward_process_tun thread 0 (7 ∷ 8 ∷ 9 ∷ []) in
    let after : Port = thread'.ports 0 in
    (queue after.tx_ring 4 ≡ queue port.tx_ring 4 ++ (2 ∷ []))
    × (read_bytes thread'.mem (ixmap_slot_addr_virt next.0 2) 3 ≡ 7 ∷ 8 ∷ 9 ∷ [])
    × (in_flight thread'.buf 2 ≡ true)
forward_process_tun-queue_example =
    forward_process_tun-queue thread 0 (7 ∷ 8 ∷ 9 ∷ []) 2 next.0 next.1 (omega arith) (omega arith)
      next-eq (omega arith, omega arith, omega arith) tun_taken
