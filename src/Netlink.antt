-- ===== src/Netlink.antt =====
-- src/netlink.c: the kernel's routes and neighbours brought into a thread's tables. A message is
-- bytes at addresses; the macros NLMSG_* and RTA_* of the Linux headers are written out.
pub mod Ordered
pub mod Examples
use ixmap.Base.{
  ℕ, zero, suc, ◌+◌, ◌-◌, ◌*◌, ◌/◌, ◌%◌, ◌^◌, List, [], ◌∷◌, ◌++◌, Bool, true, false, Option, none,
  some, ◌==◌, ltb, leb, ◌&&◌, ◌||◌, if◌then◌else◌, update,
}
use ixmap.Neigh.{Family, inet, inet6, other, NeighTable, Fresh, Outcome, neigh_add, neigh_delete}
use ixmap.Fib.{
  FibType, forward, link, local, FibEntry, Fib, FibState, fib_route_update, fib_route_delete,
}
use ixmap.Forward.{Thread}
use ixmap.Forward.Bytes.{Mem, read_bytes, load16_le, load32_le, net_words, host_addr}

-- A thread with what its tables are built of: the state of the routes' memory, the blocks that the
-- next routes and neighbours get, the neighbour blocks freed, the interface of each port's tun
-- device, and what stands in memory behind the array `prefix` of netlink_route (from 16 on), which
-- the tables read for a prefix length above 128: the length is not compared with the array.
pub record Control : Type 0 where
  pub thread : Thread
  pub st : FibState
  pub route_blocks : List ℕ
  pub neigh_blocks : List (Option Fresh)
  pub neigh_freed : List ℕ
  pub num_ports : ℕ
  pub ifindex : ℕ → ℕ
  pub behind : Mem

-- What a loop over a message comes to: `fault` is a `memcpy` over the end of its target, and
-- `endless` stands for fuel that ran out.
pub data Parsed (A : Type 0) : Type 0 where
  endless : Parsed A
  fault : Parsed A
  parsed : A → Parsed A

abbrev pub align4 : ℕ → ℕ
align4 x = (x + 3) / 4 * 4

-- The loop over the attributes from `at` on, `len` bytes.
pub attrs_loop : {A : Type 0} → (A → ℕ → ℕ → ℕ → Option A) → Mem → ℕ → ℕ → ℕ → A → Parsed A
attrs_loop read buf zero at len attrs = endless
attrs_loop read buf (suc fuel) at len attrs =
    let rta_len = load16_le buf at in
    if leb 4 len && (leb 4 rta_len && leb rta_len len)
    then elim (read attrs (load16_le buf (at + 2)) (at + 4) (rta_len - 4)) [
      | none ↦ fault
      | some attrs' ↦ attrs_loop read buf fuel (at + align4 rta_len) (len - align4 rta_len) attrs'
    ]
    else parsed attrs

-- `memcpy` of `n` bytes into an array of `size`.
abbrev pub copy_into : ℕ → Mem → Mem → ℕ → ℕ → Option Mem
copy_into size target buf at n =
    if ltb size n then none else some (λ a. if ltb a n then buf (at + a) else target a)

-- `int` is given by its bits: -1 is 2 ^ 32 - 1.
pub record RouteAttrs : Type 0 where
  pub prefix : Mem
  pub nexthop : Mem
  pub ifindex : ℕ
  pub type : FibType

-- RTA_DST, RTA_GATEWAY and RTA_OIF.
pub route_attr : Mem → RouteAttrs → ℕ → ℕ → ℕ → Option RouteAttrs
route_attr buf attrs type at n =
    if type == 1
    then elim (copy_into 16 attrs.prefix buf at n) [
      | none ↦ none
      | some prefix ↦ some (record attrs { prefix = prefix })
    ]
    else if type == 5
    then elim (copy_into 16 attrs.nexthop buf at n) [
      | none ↦ none
      | some nexthop ↦ some (record attrs { nexthop = nexthop; type = forward })
    ]
    else if type == 4
    then some (record attrs { ifindex = load32_le buf at })
    else some attrs

pub record NeighAttrs : Type 0 where
  pub dst_addr : Mem
  pub dst_mac : Mem

-- NDA_DST and NDA_LLADDR.
pub neigh_attr : Mem → NeighAttrs → ℕ → ℕ → ℕ → Option NeighAttrs
neigh_attr buf attrs type at n =
    if type == 1
    then elim (copy_into 16 attrs.dst_addr buf at n) [
      | none ↦ none
      | some dst_addr ↦ some (record attrs { dst_addr = dst_addr })
    ]
    else if type == 2
    then elim (copy_into 6 attrs.dst_mac buf at n) [
      | none ↦ none
      | some dst_mac ↦ some (record attrs { dst_mac = dst_mac })
    ]
    else some attrs

-- The first port from `i` on, of `n`, whose tun device is the interface; `none` is -1.
pub find_port : (ℕ → ℕ) → ℕ → ℕ → ℕ → Option ℕ
find_port ifindex target zero i = none
find_port ifindex target (suc n) i =
    let rest = find_port ifindex target n (i + 1) in if ifindex i == target then some i else rest

-- AF_INET and AF_INET6.
abbrev pub family_of : ℕ → Family
family_of x = if x == 2 then inet else if x == 10 then inet6 else other x

-- RTM_NEWROUTE, RTM_DELROUTE, RTM_NEWNEIGH and RTM_DELNEIGH.
abbrev pub newroute : ℕ
newroute = 24

abbrev pub delroute : ℕ
delroute = 25

abbrev pub newneigh : ℕ
newneigh = 28

abbrev pub delneigh : ℕ
delneigh = 29

abbrev pub head_block : List ℕ → ℕ × List ℕ
head_block [] = (0, [])
head_block (block ∷ blocks) = (block, blocks)

abbrev pub set_fib : Family → Fib → Thread → Thread
set_fib inet fib thread = record thread { fib_inet = fib }
set_fib inet6 fib thread = record thread { fib_inet6 = fib }
set_fib (other f) fib thread = thread

-- fib_route_update on the family's table, which is `fib`.
pub update_route : Control → Family → Fib → ℕ → RouteAttrs → FibType → Parsed Control
update_route control family fib prefix_len attrs type =
    let (block, blocks) = head_block control.route_blocks in
    let entry : FibEntry = record {
      block = block;
      prefix = net_words attrs.prefix 0;
      prefix_len = prefix_len;
      nexthop = net_words attrs.nexthop 0;
      port_index = find_port control.ifindex attrs.ifindex control.num_ports 0;
      type = type;
      id = attrs.ifindex;
    } in
    elim (fib_route_update fib family entry control.st) [
      | none ↦ endless
      | some (done, fib', st) ↦ parsed (record control {
        thread = set_fib family fib' control.thread;
        st = st;
        route_blocks = blocks;
      })
    ]

pub delete_route : Control → Family → Fib → ℕ → RouteAttrs → Control
delete_route control family fib prefix_len attrs =
    let st : FibState = control.st in
    let (done, fib', refs) =
      fib_route_delete fib family (net_words attrs.prefix 0) prefix_len attrs.ifindex st.store in
    record control { thread = set_fib family fib' control.thread; st = record st { store = refs } }

-- What netlink_route does with the attributes of a message of type `nlmsg_type`.
pub apply_route : Control → ℕ → Family → ℕ → ℕ → RouteAttrs → Parsed Control
apply_route control nlmsg_type family prefix_len table attrs =
    let type = if table == 255 then local else attrs.type in
    let apply = λ (fib : Fib).
      if nlmsg_type == newroute
      then update_route control family fib prefix_len attrs type
      else if nlmsg_type == delroute
      then parsed (delete_route control family fib prefix_len attrs)
      else parsed control in
    let thread : Thread = control.thread in
    elim family [
      | inet ↦ apply thread.fib_inet
      | inet6 ↦ apply thread.fib_inet6
      | other f ↦ parsed control
    ]

-- The message at `at`; its attributes begin behind 16 bytes of header and 12 of `struct rtmsg`.
pub netlink_route : Control → Mem → ℕ → Parsed Control
netlink_route control buf at =
    let nlmsg_len = load32_le buf at in
    let none_yet : RouteAttrs = record {
      prefix = λ a. if ltb a 16 then 0 else control.behind a;
      nexthop = λ a. 0;
      ifindex = 2 ^ 32 - 1;
      type = link;
    } in
    elim (attrs_loop (route_attr buf) buf (suc nlmsg_len) (at + 28) (nlmsg_len - 28) none_yet) [
      | endless ↦ endless
      | fault ↦ fault
      | parsed attrs ↦
          apply_route control (load16_le buf (at + 4)) (family_of (buf (at + 16))) (buf (at + 17))
            (buf (at + 20)) attrs
    ]

abbrev pub next_fresh : List (Option Fresh) → Option Fresh × List (Option Fresh)
next_fresh [] = (none, [])
next_fresh (fresh ∷ rest) = (fresh, rest)

-- What netlink_neigh does with the attributes for the table of a port.
pub apply_neigh : Control → ℕ → Family → NeighTable → NeighAttrs → NeighTable × Control
apply_neigh control nlmsg_type family neigh attrs =
    let addr = host_addr attrs.dst_addr 0 in
    let (fresh, blocks) = next_fresh control.neigh_blocks in
    let added = neigh_add neigh family addr (read_bytes attrs.dst_mac 0 6) fresh in
    let deleted = neigh_delete neigh family addr in
    if nlmsg_type == newneigh
    then (
      added.neigh,
      record control { neigh_blocks = blocks; neigh_freed = added.freed ++ control.neigh_freed },
    )
    else if nlmsg_type == delneigh
    then (deleted.neigh, record control { neigh_freed = deleted.freed ++ control.neigh_freed })
    else (neigh, control)

-- The table of the family at the port is changed.
pub neigh_at : Control → ℕ → Family → ℕ → NeighAttrs → Control
neigh_at control nlmsg_type family port attrs =
    let thread : Thread = control.thread in
    elim family [
      | inet ↦
          let (table, control') =
            apply_neigh control nlmsg_type inet (thread.neigh_inet port) attrs in
          record control' {
            thread = record thread { neigh_inet = update thread.neigh_inet port table };
          }
      | inet6 ↦
          let (table, control') =
            apply_neigh control nlmsg_type inet6 (thread.neigh_inet6 port) attrs in
          record control' {
            thread = record thread { neigh_inet6 = update thread.neigh_inet6 port table };
          }
      | other f ↦ control
    ]

pub netlink_neigh : Control → Mem → ℕ → Parsed Control
netlink_neigh control buf at =
    let nlmsg_len = load32_le buf at in
    let none_yet : NeighAttrs = record { dst_addr = λ a. 0; dst_mac = λ a. 0 } in
    elim (find_port control.ifindex (load32_le buf (at + 20)) control.num_ports 0) [
      | none ↦ parsed control
      | some port ↦
          elim (attrs_loop (neigh_attr buf) buf (suc nlmsg_len) (at + 28) (nlmsg_len - 28)
            none_yet) [
              | endless ↦ endless
              | fault ↦ fault
              | parsed attrs ↦
                  parsed (
                    neigh_at control (load16_le buf (at + 4)) (family_of (buf (at + 16))) port
                      attrs)
            ]
    ]

-- The `switch` on the type of a message.
pub netlink_message : Control → Mem → ℕ → Parsed Control
netlink_message control buf at =
    let type = load16_le buf (at + 4) in
    if type == newroute || type == delroute
    then netlink_route control buf at
    else if type == newneigh || type == delneigh
    then netlink_neigh control buf at
    else parsed control

-- The loop over the messages from `at` on, `len` bytes.
pub netlink_loop : Mem → ℕ → ℕ → ℕ → Control → Parsed Control
netlink_loop buf zero at len control = endless
netlink_loop buf (suc fuel) at len control =
    let nlmsg_len = load32_le buf at in
    if leb 16 len && (leb 16 nlmsg_len && leb nlmsg_len len)
    then elim (netlink_message control buf at) [
      | endless ↦ endless
      | fault ↦ fault
      | parsed control' ↦
          netlink_loop buf fuel (at + align4 nlmsg_len) (len - align4 nlmsg_len) control'
    ]
    else parsed control

unfoldable pub netlink_process : Control → Mem → ℕ → Parsed Control
netlink_process control buf read_size = netlink_loop buf (suc read_size) 0 read_size control
