-- ===== src/Forward/Decide.antt =====
-- What forward_process decides for a frame, and the bytes of a frame that is sent.
use ixmap.Base.{
  ℕ, ◌+◌, ◌-◌, ◌%◌, ◌<◌, ◌≡◌, ◌≢◌, ◌⊎◌, inl, inr, refl, List, ◌∷◌, Bool, true, false, Option, none,
  some, arith, ◌==◌, ltb, ◌||◌, if◌then◌else◌, get_or, Bool-cases, Option-cases,
}
use ixmap.Neigh.{NeighEntry, NeighTable, neigh_lookup}
use ixmap.Fib.{FibType, forward, link, local, FibEntry, Fib, fib_lookup}
use ixmap.Driver.{Packet, ixmap_macaddr}
use ixmap.Forward.Bytes.{Mem, net_words, host_addr, words_addr, read_bytes, write_bytes}
use ixmap.Forward.{
  Thread, Route, drop, local_stack, to_port, next_neigh, find_route, to_tun, ip_rewrite,
  ip6_rewrite, forward_ip_process, forward_ip6_process, is_linklocal,
}

-- What the neighbour table of a port says for a route of the table: it is asked for the next hop of
-- a forwarding route, for the frame's destination on a link, and not at all for a local route.
abbrev pub Hop : (ℕ → NeighTable) → Mem → ℕ → FibEntry → ℕ → Option NeighEntry → Type 0
Hop neigh mem addr entry port found =
    ((entry.type ≡ forward) × (neigh_lookup (neigh port) (words_addr entry.nexthop) ≡ found))
    ⊎ (((entry.type ≡ link) × (neigh_lookup (neigh port) (host_addr mem addr) ≡ found))
        ⊎ ((entry.type ≡ local) × (found ≡ none)))

next_neigh-Hop_of :
    (neigh : ℕ → NeighTable) (mem : Mem) (addr : ℕ) (entry : FibEntry) (port : ℕ) (type : FibType)
    → entry.type ≡ type
    → Hop neigh mem addr entry port (next_neigh neigh mem addr entry port)
unfolding next_neigh
next_neigh-Hop_of neigh mem addr entry port forward e = inl (e, rw (next_neigh, e) refl)
next_neigh-Hop_of neigh mem addr entry port link e = inr (inl (e, rw (next_neigh, e) refl))
next_neigh-Hop_of neigh mem addr entry port local e = inr (inr (e, rw (next_neigh, e) refl))

-- The frame's lookup in the table of routes and in the neighbour table.
abbrev RouteIs : Fib → (ℕ → NeighTable) → Mem → ℕ → Route → Type 0
RouteIs fib neigh mem addr drop = fib_lookup fib (net_words mem addr) ≡ none
RouteIs fib neigh mem addr local_stack =
    (entry : FibEntry) × (fib_lookup fib (net_words mem addr) ≡ some entry)
    × ((entry.port_index ≡ none)
        ⊎ ((port : ℕ) × (entry.port_index ≡ some port) × Hop neigh mem addr entry port none))
RouteIs fib neigh mem addr (to_port port n) =
    (entry : FibEntry) × (fib_lookup fib (net_words mem addr) ≡ some entry)
    × (entry.port_index ≡ some port)
    × Hop neigh mem addr entry port (some n)

find_route-RouteIs :
    (fib : Fib) (neigh : ℕ → NeighTable) (mem : Mem) (addr : ℕ)
    → RouteIs fib neigh mem addr (find_route fib neigh mem addr)
unfolding find_route
find_route-RouteIs fib neigh mem addr = elim (Option-cases (fib_lookup fib (net_words mem addr))) [
  | inl f ↦ rw (find_route, f) f
  | inr (entry, f) ↦ elim (Option-cases entry.port_index) [
    | inl g ↦ rw (find_route, f, g) (entry, f, inl g)
    | inr (port, g) ↦
        let hop = next_neigh-Hop_of neigh mem addr entry port entry.type refl in
        elim (Option-cases (next_neigh neigh mem addr entry port)) [
          | inl h ↦ rw (find_route, f, g, h) (entry, f, inr (port, g, rw h at hop))
          | inr (n, h) ↦ rw (find_route, f, g, h) (entry, f, g, rw h at hop)
        ]
  ]
]

-- The bytes of a frame at `base` that is sent: the Ethernet addresses of the neighbour and of the
-- port, the time to live at the offset `hops` one less, and the rest as before except where `free`
-- says so; before the frame nothing is changed.
abbrev pub SentBytes : (ℕ → Bool) → Mem → Mem → ℕ → List ℕ → List ℕ → ℕ → Type 0
SentBytes free mem mem' base dst_mac src_mac hops =
    ((a : ℕ) → a < base → mem' a ≡ mem a)
    × ((o : ℕ)
        → free o ≡ false
        → mem' (base + o) ≡ (
            if ltb o 6
            then get_or dst_mac o 0
            else if ltb o 12
            then get_or src_mac (o - 6) 0
            else if o == hops
            then (mem (base + o) + 255) % 256
            else mem (base + o)))

-- The two bytes of the IPv4 header checksum.
abbrev pub in_check : ℕ → Bool
in_check o = o == 24 || o == 25

abbrev pub nowhere : ℕ → Bool
nowhere o = false

ip_rewrite-SentBytes :
    (mem : Mem) (base : ℕ) (dst_mac src_mac : List ℕ)
    → SentBytes in_check mem (ip_rewrite mem base dst_mac src_mac) base dst_mac src_mac 22
unfolding ip_rewrite write_bytes
ip_rewrite-SentBytes mem base dst_mac src_mac = (
  λ a h. ground arith,
  λ o fixed.
      let at : base + o - base ≡ o = omega arith in
      let at₆ : base + o - (base + 6) ≡ o - 6 = omega arith in rw (at, at₆) (ground arith),
)

ip6_rewrite-SentBytes :
    (mem : Mem) (base : ℕ) (dst_mac src_mac : List ℕ)
    → SentBytes nowhere mem (ip6_rewrite mem base dst_mac src_mac) base dst_mac src_mac 21
unfolding ip6_rewrite write_bytes
ip6_rewrite-SentBytes mem base dst_mac src_mac = (
  λ a h. ground arith,
  λ o fixed.
      let at : base + o - base ≡ o = omega arith in
      let at₆ : base + o - (base + 6) ≡ o - 6 = omega arith in rw (at, at₆) (ground arith),
)

-- The frame goes out of the port, to the neighbour.
abbrev pub Sent : (ℕ → Bool) → Thread → ℕ → Packet → ℕ → NeighEntry → Option ℕ × Thread → Type 0
Sent free thread hops packet port n (ret, thread') =
    (ret ≡ some port)
    × (thread' ≡ record thread { mem = thread'.mem })
    × SentBytes free thread.mem thread'.mem packet.slot_buf n.dst_mac (thread.ports port).mac_addr
        hops

-- The frame, as it was received, goes to the tun device of its port.
abbrev pub Kept : Thread → ℕ → Packet → Option ℕ × Thread → Type 0
Kept thread port_index packet r = r ≡ (
  none,
  record thread {
    tun = (port_index, read_bytes thread.mem packet.slot_buf packet.slot_size) ∷ thread.tun;
  },
)

-- What becomes of a frame, by the route of its destination address at the offset `addr` and its time
-- to live at `hops`: dropped without a route; kept if the route has no port, or no neighbour there,
-- or the time to live is 1; else sent.
abbrev pub Fate :
    (ℕ → Bool) → Thread → Fib → (ℕ → NeighTable) → ℕ → ℕ → ℕ → Packet → Option ℕ × Thread → Type 0
Fate free thread fib neigh addr hops port_index packet r =
    let at = packet.slot_buf + addr in
    ((fib_lookup fib (net_words thread.mem at) ≡ none) × (r ≡ (none, thread)))
    ⊎ ((entry : FibEntry) × (fib_lookup fib (net_words thread.mem at) ≡ some entry)
        × (((entry.port_index ≡ none) × Kept thread port_index packet r)
            ⊎ ((port : ℕ) × (entry.port_index ≡ some port)
                × ((((thread.mem (packet.slot_buf + hops) ≡ 1)
                        ⊎ Hop neigh thread.mem at entry port none)
                      × Kept thread port_index packet r)
                    ⊎ ((n : NeighEntry) × Hop neigh thread.mem at entry port (some n)
                        × (thread.mem (packet.slot_buf + hops) ≢ 1)
                        × Sent free thread hops packet port n r)))))

module _ (free : ℕ → Bool) (hops : ℕ) (rewrite : Mem → ℕ → List ℕ → List ℕ → Mem)
    (sent_bytes : (mem : Mem) (base : ℕ) (dst_mac src_mac : List ℕ)
      → SentBytes free mem (rewrite mem base dst_mac src_mac) base dst_mac src_mac hops)
    (thread : Thread) (port_index : ℕ) (packet : Packet) (fib : Fib) (neigh : ℕ → NeighTable)
    (addr : ℕ) where
  RouteIs-Fate :
      (route : Route)
      → RouteIs fib neigh thread.mem (packet.slot_buf + addr) route
      → Fate free thread fib neigh addr hops port_index packet (elim route [
        | drop ↦ (none, thread)
        | local_stack ↦ (none, to_tun thread port_index packet)
        | to_port port neigh_entry ↦
            if thread.mem (packet.slot_buf + hops) == 1
            then (none, to_tun thread port_index packet)
            else (
              some port,
              record thread {
                mem =
                    rewrite thread.mem packet.slot_buf neigh_entry.dst_mac
                      (ixmap_macaddr (thread.ports port));
              },
            )
      ])
  unfolding ixmap_macaddr
  RouteIs-Fate drop e = inl (e, refl)
  RouteIs-Fate local_stack (entry, f, inl g) = inr (entry, f, inl (g, refl))
  RouteIs-Fate local_stack (entry, f, inr (port, g, h)) =
      inr (entry, f, inr (port, g, inl (inr h, refl)))
  RouteIs-Fate (to_port port n) (entry, f, g, h) =
      elim (Bool-cases (thread.mem (packet.slot_buf + hops) == 1)) [
        | inl last ↦ rw last (inr (entry, f, inr (port, g, inl (inl (ground arith), refl))))
        | inr more ↦ rw more (
            inr (
              entry,
              f,
              inr (
                port,
                g,
                inr (
                  n,
                  h,
                  (λ one. ground arith),
                  (
                    refl,
                    refl,
                    sent_bytes thread.mem packet.slot_buf n.dst_mac (thread.ports port).mac_addr,
                  ),
                ),
              ),
            ))
      ]

module _ (thread : Thread) (port_index : ℕ) (packet : Packet) where
  -- forward_ip_process drops a frame whose destination has no route. It gives the frame as it is to
  -- the tun device if the route has no port, the port no neighbour for it (the next hop of a
  -- forwarding route, the destination on a link, none for a local route), or the time to live is 1.
  -- Every other frame it sends to the route's port: with the neighbour's and the port's address in
  -- front, the time to live one less (255 after 0), and every other byte as it was, except the two
  -- of the checksum.
  pub forward_ip_process-Fate :
      Fate in_check thread thread.fib_inet thread.neigh_inet 30 22 port_index packet
        (forward_ip_process thread port_index packet)
  unfolding forward_ip_process
  forward_ip_process-Fate =
      RouteIs-Fate in_check 22 ip_rewrite ip_rewrite-SentBytes thread port_index packet
        thread.fib_inet thread.neigh_inet 30 _
        (find_route-RouteIs thread.fib_inet thread.neigh_inet thread.mem (packet.slot_buf + 30))

  -- forward_ip6_process does the same, and it never sends a frame to a link-local address.
  forward_ip6_process-Fate :
      ((is_linklocal thread.mem (packet.slot_buf + 38) ≡ true)
        × Kept thread port_index packet (forward_ip6_process thread port_index packet))
      ⊎ ((is_linklocal thread.mem (packet.slot_buf + 38) ≡ false)
          × Fate nowhere thread thread.fib_inet6 thread.neigh_inet6 38 21 port_index packet
              (forward_ip6_process thread port_index packet))
  unfolding forward_ip6_process
  forward_ip6_process-Fate = elim (Bool-cases (is_linklocal thread.mem (packet.slot_buf + 38))) [
    | inl here ↦ inl (here, rw here refl)
    | inr away ↦ inr (
      away,
      rw away (
          RouteIs-Fate nowhere 21 ip6_rewrite ip6_rewrite-SentBytes thread port_index packet
            thread.fib_inet6 thread.neigh_inet6 38 _
            (find_route-RouteIs thread.fib_inet6 thread.neigh_inet6 thread.mem
              (packet.slot_buf + 38))),
    )
  ]
