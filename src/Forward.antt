-- ===== src/Forward.antt =====
-- src/forward.c and the struct of src/thread.h: what becomes of a received frame. Packet memory is
-- bytes at addresses; the host is little endian (x86). A frame has the Ethernet header at offset 0
-- and the IP header at 14. What is written to the tun devices is listed, the last first: whether
-- `write` succeeds makes no difference to the code.
pub mod Bytes
pub mod Checksum
pub mod Decide
pub mod Process
mod Examples
use ixmap.Base.{
  ℕ, zero, suc, ◌+◌, ◌-◌, ◌*◌, ◌/◌, ◌%◌, ◌^◌, List, [], ◌∷◌, Bool, true, false, Option, none, some,
  ◌==◌, ltb, if◌then◌else◌, update, length,
}
use ixmap.Neigh.{NeighEntry, NeighTable, neigh_lookup}
use ixmap.Fib.{FibType, forward, link, local, FibEntry, Fib, fib_lookup}
use ixmap.Driver.{
  Buf, Port, Packet, ixmap_slot_assign, ixmap_slot_release, ixmap_slot_addr_virt, ixmap_slot_size,
  ixmap_macaddr,
}
use ixmap.Driver.Tx.{ixmap_tx_assign}
use ixmap.Forward.Bytes.{
  Mem, read_bytes, write_bytes, load16_be, load16_le, store16_le, net_words, host_addr, words_addr,
}

-- `ports` are those of `plane`.
pub record Thread : Type 0 where
  pub ports : ℕ → Port
  pub buf : Buf
  pub fib_inet : Fib
  pub fib_inet6 : Fib
  pub neigh_inet : ℕ → NeighTable
  pub neigh_inet6 : ℕ → NeighTable
  pub tun : List (ℕ × List ℕ)
  pub mem : Mem

abbrev pub eth_p_ip : ℕ
eth_p_ip = 0x0800

abbrev pub eth_p_arp : ℕ
eth_p_arp = 0x0806

abbrev pub eth_p_ipv6 : ℕ
eth_p_ipv6 = 0x86dd

-- `write` of the packet to the tun device of the port.
abbrev pub to_tun : Thread → ℕ → Packet → Thread
to_tun thread port_index packet = record thread {
  tun = (port_index, read_bytes thread.mem packet.slot_buf packet.slot_size) ∷ thread.tun;
}

-- `none` is the return value -1.
pub forward_arp_process : Thread → ℕ → Packet → Option ℕ × Thread
forward_arp_process thread port_index packet = (none, to_tun thread port_index packet)

-- The addresses in the frame, as fib_lookup and as neigh_lookup read them.
abbrev pub ip_daddr : ℕ
ip_daddr = 30

abbrev pub ip6_daddr : ℕ
ip6_daddr = 38

-- The neighbour that the route leads to; `none` also for `neigh_entry = NULL`.
pub next_neigh : (ℕ → NeighTable) → Mem → ℕ → FibEntry → ℕ → Option NeighEntry
next_neigh neigh mem addr entry port = elim entry.type [
  | forward ↦ neigh_lookup (neigh port) (words_addr entry.nexthop)
  | link ↦ neigh_lookup (neigh port) (host_addr mem addr)
  | local ↦ none
]

-- What the route and the neighbour table say: dropped, to the local stack, or to a port.
pub data Route : Type 0 where
  drop local_stack : Route
  to_port : ℕ → NeighEntry → Route

pub find_route : Fib → (ℕ → NeighTable) → Mem → ℕ → Route
unfolding next_neigh
find_route fib neigh mem addr = elim (fib_lookup fib (net_words mem addr)) [
  | none ↦ drop
  | some entry ↦ elim entry.port_index [
    | none ↦ local_stack
    | some port ↦ elim (next_neigh neigh mem addr entry port) [
      | none ↦ local_stack
      | some neigh_entry ↦ to_port port neigh_entry
    ]
  ]
]

-- `ip->ttl--` or `ip6->ip6_hlim--` on a `uint8_t`.
abbrev pub count_down : Mem → ℕ → Mem
count_down mem at = update mem at ((mem at + 255) % 256)

-- `check += htons(0x0100)`, which is 1 on the host, and the carry.
pub ip_check_update : ℕ → ℕ
ip_check_update old = let check = old + 1 in (check + (if ltb check 0xffff then 0 else 1)) % 2 ^ 16

-- `memcpy` of the two Ethernet addresses.
abbrev pub set_macs : Mem → ℕ → List ℕ → List ℕ → Mem
set_macs mem base dst_mac src_mac =
    write_bytes (write_bytes mem base 6 dst_mac) (base + 6) 6 src_mac

-- The frame with the time to live counted down, the checksum and the addresses set.
pub ip_rewrite : Mem → ℕ → List ℕ → List ℕ → Mem
ip_rewrite mem base dst_mac src_mac =
    let aged = count_down mem (base + 22) in
    let summed = store16_le aged (base + 24) (ip_check_update (load16_le aged (base + 24))) in
    set_macs summed base dst_mac src_mac

unfoldable pub ip6_rewrite : Mem → ℕ → List ℕ → List ℕ → Mem
ip6_rewrite mem base dst_mac src_mac = set_macs (count_down mem (base + 21)) base dst_mac src_mac

pub forward_ip_process : Thread → ℕ → Packet → Option ℕ × Thread
forward_ip_process thread port_index packet =
    let base = packet.slot_buf in
    elim (find_route thread.fib_inet thread.neigh_inet thread.mem (base + ip_daddr)) [
      | drop ↦ (none, thread)
      | local_stack ↦ (none, to_tun thread port_index packet)
      | to_port port neigh_entry ↦
          let src_mac = ixmap_macaddr (thread.ports port) in
          if thread.mem (base + 22) == 1 then (none, to_tun thread port_index packet) else (
            some port,
            record thread { mem = ip_rewrite thread.mem base neigh_entry.dst_mac src_mac },
          )
    ]

-- IN6_IS_ADDR_LINKLOCAL: the first ten bits are those of fe80.
abbrev pub is_linklocal : Mem → ℕ → Bool
is_linklocal mem addr = if mem addr == 0xfe then mem (addr + 1) / 64 == 2 else false

pub forward_ip6_process : Thread → ℕ → Packet → Option ℕ × Thread
forward_ip6_process thread port_index packet =
    let base = packet.slot_buf in
    let routed : Option ℕ × Thread =
      elim (find_route thread.fib_inet6 thread.neigh_inet6 thread.mem (base + ip6_daddr)) [
        | drop ↦ (none, thread)
        | local_stack ↦ (none, to_tun thread port_index packet)
        | to_port port neigh_entry ↦
            let src_mac = ixmap_macaddr (thread.ports port) in
            if thread.mem (base + 21) == 1 then (none, to_tun thread port_index packet) else (
              some port,
              record thread { mem = ip6_rewrite thread.mem base neigh_entry.dst_mac src_mac },
            )
      ] in
    if is_linklocal thread.mem (base + ip6_daddr)
    then (none, to_tun thread port_index packet)
    else routed

-- The `switch` of forward_process.
pub forward_packet : Thread → ℕ → Packet → Option ℕ × Thread
forward_packet thread port_index packet =
    let proto = load16_be thread.mem (packet.slot_buf + 12) in
    if proto == eth_p_arp
    then forward_arp_process thread port_index packet
    else if proto == eth_p_ip
    then forward_ip_process thread port_index packet
    else if proto == eth_p_ipv6
    then forward_ip6_process thread port_index packet
    else (none, thread)

-- ixmap_tx_assign on the port that the packet goes out of.
pub send : Thread → ℕ → Packet → Thread
send thread port packet =
    let (buf, port') = ixmap_tx_assign port thread.buf (thread.ports port) packet in
    record thread { buf = buf; ports = update thread.ports port port' }

-- The label packet_drop, which a packet that was handed to ixmap_tx_assign reaches too.
abbrev pub packet_drop : Thread → Packet → Thread
packet_drop thread packet = record thread { buf = ixmap_slot_release thread.buf packet.slot_index }

pub forward_process : Thread → ℕ → List Packet → Thread
forward_process thread port_index [] = thread
forward_process thread port_index (packet ∷ packets) =
    let (ret, thread') = forward_packet thread port_index packet in
    let sent : Thread = elim ret [ none ↦ thread' | some port ↦ send thread' port packet ] in
    forward_process (packet_drop sent packet) port_index packets

-- `read_buf` is given by its bytes, `read_size` of them.
pub forward_process_tun : Thread → ℕ → List ℕ → Thread
forward_process_tun thread port_index read_buf =
    let read_size = length read_buf in
    if ltb (ixmap_slot_size thread.buf) read_size
    then thread
    else elim (ixmap_slot_assign thread.buf (thread.ports port_index)) [
      | none ↦ thread
      | some (slot_index, buf, port) ↦
          let slot_buf = ixmap_slot_addr_virt buf slot_index in
          let packet : Packet = record {
            slot_buf = slot_buf;
            slot_size = read_size;
            slot_index = slot_index;
          } in
          let thread' : Thread = record thread {
            buf = buf;
            ports = update thread.ports port_index port;
            mem = write_bytes thread.mem slot_buf read_size read_buf;
          } in
          send thread' port_index packet
    ]
