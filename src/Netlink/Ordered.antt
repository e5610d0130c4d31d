-- ===== src/Netlink/Ordered.antt =====
-- src/netlink.c: messages are read to their end, and the tables of routes stay ordered.
use ixmap.Base.{
  ℕ, zero, suc, ◌+◌, ◌-◌, ◌<◌, inl, inr, Bool, true, false, Option, arith, ◌==◌, leb, ◌&&◌, ◌||◌,
  if◌then◌else◌, Bool-cases, Option-cases,
}
use ixmap.Lpm.Order.{IsOrdered}
use ixmap.Neigh.{Family, inet, inet6, other}
use ixmap.Fib.{FibType, local, FibEntry, Fib, FibState}
use ixmap.Fib.Laws.{fib_laws, fib_route_update-IsOrdered, fib_route_delete-IsOrdered}
use ixmap.Forward.{Thread}
use ixmap.Forward.Bytes.{Mem, net_words, load16_le, load32_le}
use ixmap.Netlink.{
  Control, Parsed, endless, fault, parsed, align4, attrs_loop, RouteAttrs, NeighAttrs, route_attr,
  neigh_attr, find_port, family_of, newroute, delroute, newneigh, delneigh, head_block, set_fib,
  update_route, delete_route, apply_route, netlink_route, neigh_at, netlink_neigh, netlink_message,
  netlink_loop, netlink_process,
}

abbrev pub TablesOrdered : Thread → Type 0
TablesOrdered thread = IsOrdered fib_laws thread.fib_inet × IsOrdered fib_laws thread.fib_inet6

-- A message that was read to its end and left ordered tables, or a copy out of bounds.
abbrev pub StaysOrdered : Parsed Control → Type 0
StaysOrdered endless = ⊥
StaysOrdered fault = Unit
StaysOrdered (parsed control) = TablesOrdered control.thread

abbrev Ends : {A : Type 0} → Parsed A → Type 0
Ends endless = ⊥
Ends fault = Unit
Ends (parsed a) = Unit

Ends-then :
    {A : Type 0} (f : A → Parsed Control) (p : Parsed A)
    → Ends p
    → ((a : A) → StaysOrdered (f a))
    → StaysOrdered (elim p [ endless ↦ endless | fault ↦ fault | parsed a ↦ f a ])
Ends-then f endless e h = e
Ends-then f fault e h = tt
Ends-then f (parsed a) e h = h a

StaysOrdered-then :
    (f : Control → Parsed Control) (p : Parsed Control)
    → StaysOrdered p
    → ((c : Control) → TablesOrdered c.thread → StaysOrdered (f c))
    → StaysOrdered (elim p [ endless ↦ endless | fault ↦ fault | parsed c ↦ f c ])
StaysOrdered-then f endless e h = e
StaysOrdered-then f fault e h = tt
StaysOrdered-then f (parsed c) e h = h c e

StaysOrdered-if :
    (b : Bool) (p q : Parsed Control)
    → StaysOrdered p
    → StaysOrdered q
    → StaysOrdered (if b then p else q)
StaysOrdered-if true p q h h' = h
StaysOrdered-if false p q h h' = h'

attrs_loop-Ends :
    {A : Type 0} (read : A → ℕ → ℕ → ℕ → Option A) (buf : Mem) (fuel at len : ℕ) (attrs : A)
    → len < fuel
    → Ends (attrs_loop read buf fuel at len attrs)
unfolding attrs_loop
attrs_loop-Ends read buf zero at len attrs h = absurd (omega arith)
attrs_loop-Ends read buf (suc fuel) at len attrs h =
    let rta_len = load16_le buf at in
    elim (Bool-cases (leb 4 len && (leb 4 rta_len && leb rta_len len))) [
      | inr over ↦ rw over tt
      | inl more ↦
          elim (Option-cases (read attrs (load16_le buf (at + 2)) (at + 4) (rta_len - 4))) [
            | inl none_read ↦ rw (more, none_read) tt
            | inr (attrs', e) ↦
                rw (more, e)
                  (attrs_loop-Ends read buf fuel (at + align4 rta_len) (len - align4 rta_len) attrs'
                    (ground arith))
          ]
    ]

set_fib-TablesOrdered :
    (family : Family) (fib : Fib) (thread : Thread)
    → IsOrdered fib_laws fib
    → TablesOrdered thread
    → TablesOrdered (set_fib family fib thread)
set_fib-TablesOrdered inet fib thread o t = (o, t.1)
set_fib-TablesOrdered inet6 fib thread o t = (t.0, o)
set_fib-TablesOrdered (other f) fib thread o t = t

update_route-StaysOrdered :
    (control : Control) (family : Family) (fib : Fib) (prefix_len : ℕ) (attrs : RouteAttrs)
    (type : FibType)
    → IsOrdered fib_laws fib
    → TablesOrdered control.thread
    → StaysOrdered (update_route control family fib prefix_len attrs type)
unfolding update_route
update_route-StaysOrdered control family fib prefix_len attrs type o t =
    let entry : FibEntry = record {
      block = (head_block control.route_blocks).0;
      prefix = net_words attrs.prefix 0;
      prefix_len = prefix_len;
      nexthop = net_words attrs.nexthop 0;
      port_index = find_port control.ifindex attrs.ifindex control.num_ports 0;
      type = type;
      id = attrs.ifindex;
    } in
    let (r, run, ordered) = fib_route_update-IsOrdered fib family entry control.st o in
    rw (update_route, run) (set_fib-TablesOrdered family r.1 control.thread ordered t)

-- What apply_route does to the table of one family.
module _ (control : Control) (prefix_len : ℕ) (attrs : RouteAttrs) (type : FibType) where
  one_table-StaysOrdered :
      (nlmsg_type : ℕ) (family : Family) (fib : Fib)
      → IsOrdered fib_laws fib
      → TablesOrdered control.thread
      → StaysOrdered (
          if nlmsg_type == newroute
          then update_route control family fib prefix_len attrs type
          else if nlmsg_type == delroute
          then parsed (delete_route control family fib prefix_len attrs)
          else parsed control)
  unfolding delete_route
  one_table-StaysOrdered nlmsg_type family fib o t =
      let st : FibState = control.st in
      StaysOrdered-if (nlmsg_type == newroute) _ _
        (update_route-StaysOrdered control family fib prefix_len attrs type o t)
        (StaysOrdered-if (nlmsg_type == delroute)
          (parsed (delete_route control family fib prefix_len attrs)) (parsed control)
          (set_fib-TablesOrdered family _ control.thread
            (fib_route_delete-IsOrdered fib family (net_words attrs.prefix 0) prefix_len
              attrs.ifindex st.store o)
            t)
          t)

apply_route-StaysOrdered :
    (control : Control) (nlmsg_type : ℕ) (family : Family) (prefix_len table : ℕ)
    (attrs : RouteAttrs)
    → TablesOrdered control.thread
    → StaysOrdered (apply_route control nlmsg_type family prefix_len table attrs)
unfolding apply_route
apply_route-StaysOrdered control nlmsg_type inet prefix_len table attrs t =
    one_table-StaysOrdered control prefix_len attrs (if table == 255 then local else attrs.type)
      nlmsg_type inet control.thread.fib_inet t.0 t
apply_route-StaysOrdered control nlmsg_type inet6 prefix_len table attrs t =
    one_table-StaysOrdered control prefix_len attrs (if table == 255 then local else attrs.type)
      nlmsg_type inet6 control.thread.fib_inet6 t.1 t
apply_route-StaysOrdered control nlmsg_type (other f) prefix_len table attrs t = t

neigh_at-TablesOrdered :
    (control : Control) (nlmsg_type : ℕ) (family : Family) (port : ℕ) (attrs : NeighAttrs)
    → TablesOrdered control.thread
    → TablesOrdered (neigh_at control nlmsg_type family port attrs).thread
unfolding neigh_at
neigh_at-TablesOrdered control nlmsg_type inet port attrs t = t
neigh_at-TablesOrdered control nlmsg_type inet6 port attrs t = t
neigh_at-TablesOrdered control nlmsg_type (other f) port attrs t = t

netlink_message-StaysOrdered :
    (control : Control) (buf : Mem) (at : ℕ)
    → TablesOrdered control.thread
    → StaysOrdered (netlink_message control buf at)
unfolding netlink_message netlink_route netlink_neigh
netlink_message-StaysOrdered control buf at t =
    let type = load16_le buf (at + 4) in
    let family = family_of (buf (at + 16)) in
    StaysOrdered-if (type == newroute || type == delroute) _ _
      (Ends-then _ _ (attrs_loop-Ends (route_attr buf) buf _ (at + 28) _ _ (omega arith)) λ attrs.
        apply_route-StaysOrdered control type family (buf (at + 17)) (buf (at + 20)) attrs t)
      (StaysOrdered-if (type == newneigh || type == delneigh) _ (parsed control)
        (elim (Option-cases
          (find_port control.ifindex (load32_le buf (at + 20)) control.num_ports 0)) [
            | inl absent ↦ rw (netlink_neigh, absent) t
            | inr (port, e) ↦
                rw (netlink_neigh, e)
                  (Ends-then _ _
                    (attrs_loop-Ends (neigh_attr buf) buf _ (at + 28) _ _ (omega arith))
                    λ attrs. neigh_at-TablesOrdered control type family port attrs t)
          ])
        t)

netlink_loop-StaysOrdered :
    (buf : Mem) (fuel at len : ℕ) (control : Control)
    → len < fuel
    → TablesOrdered control.thread
    → StaysOrdered (netlink_loop buf fuel at len control)
unfolding netlink_loop
netlink_loop-StaysOrdered buf zero at len control h t = absurd (omega arith)
netlink_loop-StaysOrdered buf (suc fuel) at len control h t =
    let nlmsg_len = load32_le buf at in
    elim (Bool-cases (leb 16 len && (leb 16 nlmsg_len && leb nlmsg_len len))) [
      | inr over ↦ rw over t
      | inl more ↦ rw more (
          StaysOrdered-then _ (netlink_message control buf at)
            (netlink_message-StaysOrdered control buf at t)
            λ c o.
              netlink_loop-StaysOrdered buf fuel (at + align4 nlmsg_len) (len - align4 nlmsg_len) c
                (ground arith) o)
    ]

-- On ordered tables netlink_process reads any buffer to its end or to an attribute longer than its
-- array. The tables that it leaves are ordered as long as entries stand for themselves, with no block
-- used again that was freed while linked.
pub netlink_process-StaysOrdered :
    (control : Control) (buf : Mem) (read_size : ℕ)
    → TablesOrdered control.thread
    → StaysOrdered (netlink_process control buf read_size)
unfolding netlink_process
netlink_process-StaysOrdered control buf read_size =
    netlink_loop-StaysOrdered buf (suc read_size) 0 read_size control (omega arith)
