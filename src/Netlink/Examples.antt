-- ===== src/Netlink/Examples.antt =====
-- A thread of src/netlink.c with one port and empty tables.
use ixmap.Base.{[], ◌∷◌, true}
use ixmap.Hash.{hash_init}
use ixmap.Lpm.{lpm_init}
use ixmap.Neigh.Keys.{key_ops_v4, key_ops_v6}
use ixmap.Driver.{Ring, Port}
use ixmap.Netlink.{Control}

abbrev no_packets : {D : Type 0} → D → Ring D
no_packets desc = record {
  desc = λ i. desc;
  tail = [];
  next_to_use = 0;
  next_to_clean = 0;
  slot_index = λ i. 0;
}

abbrev quiet_port : Port
quiet_port = record {
  irqreg = [];
  rx_ring = no_packets (record { pkt_addr = 0; upper = 0 });
  tx_ring = no_packets (record { buffer_addr = 0; cmd_type_len = 0; olinfo_status = 0 });
  rx_slot_next = 0;
  rx_slot_offset = 0;
  tx_suspended = 0;
  num_tx_desc = 4;
  num_rx_desc = 4;
  rx_budget = 64;
  tx_budget = 64;
  mac_addr = [];
  count_rx_alloc_failed = 0;
  count_rx_clean_total = 0;
  count_tx_xmit_failed = 0;
  count_tx_clean_total = 0;
}

abbrev pub quiet : Control
quiet = record {
  thread = record {
    ports = λ i. quiet_port;
    buf = record {
      addr_virt = 0x10000;
      addr_dma = λ port. 0x80000;
      buf_size = 2048;
      count = 4;
      slots = λ i. 0;
    };
    fib_inet = lpm_init;
    fib_inet6 = lpm_init;
    neigh_inet = λ i. record { ops = key_ops_v4; table = hash_init };
    neigh_inet6 = λ i. record { ops = key_ops_v6; table = hash_init };
    tun = [];
    mem = λ a. 0;
  };
  st = record {
    store = record { refcount = λ a. 0; freed = [] };
    allocs = true ∷ true ∷ true ∷ [];
  };
  route_blocks = 4096 ∷ [];
  neigh_blocks = [];
  neigh_freed = [];
  num_ports = 1;
  ifindex = λ i. 7;
  behind = λ a. 0;
}
