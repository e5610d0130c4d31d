-- ===== src/Loop.antt =====
-- src/thread.c: the event loop of a thread, thread_wait. What epoll_wait reports and what `read`
-- answers are lists.
pub mod Batches
mod Examples
use ixmap.Base.{
  ℕ, zero, suc, ◌+◌, List, [], ◌∷◌, Bool, true, false, Option, none, some, update, length, get_or,
  get_elem?,
}
use ixmap.Driver.{ixmap_irq_unmask_queues}
use ixmap.Driver.Rx.{ixmap_rx_assign, ixmap_rx_clean}
use ixmap.Driver.Tx.{ixmap_tx_xmit, ixmap_tx_clean}
use ixmap.Forward.{Thread, forward_process, forward_process_tun}
use ixmap.Netlink.{Control, Parsed, endless, fault, parsed, netlink_process}

-- What a ready descriptor stands for: the port, and for an interrupt the queues to unmask.
pub data Event : Type 0 where
  epoll_irq_rx : ℕ → ℕ → Event
  epoll_irq_tx : ℕ → ℕ → Event
  epoll_tun : ℕ → Event
  epoll_signal : Event
  epoll_netlink : Event

-- The answers of `read` to come: the bytes, or `none` for an error. None left: it blocks.
abbrev pub Reads : Type 0
Reads = List (Option (List ℕ))

-- How the events of one epoll_wait end: still at them when the fuel ran out, blocked in `read`, the
-- return value -1, a message that overran its target, the return value 0, or all are done.
pub data Batch : Type 0 where
  running : Batch
  blocked : Batch
  failed : Batch
  crashed : Batch
  returned : Control → Batch
  finished : Control → Reads → Batch

-- What one event comes to: the end of the batch, or the new state; `busy` if a loop over the ports
-- ran, which counts in the `i` of the loop over the events.
pub data Handled : Type 0 where
  stop : Batch → Handled
  went : Bool → Control → Reads → Handled

abbrev pub set_thread : Control → Thread → Control
set_thread control thread = record control { thread = thread }

-- ixmap_tx_xmit on the ports from `i` on, `n` of them.
pub xmit_all : ℕ → ℕ → Thread → Thread
xmit_all zero i thread = thread
xmit_all (suc n) i thread =
    xmit_all n (i + 1)
      (record thread { ports = update thread.ports i (ixmap_tx_xmit (thread.ports i)) })

-- ixmap_rx_assign on the ports from `i` on, `n` of them.
pub assign_all : ℕ → ℕ → Thread → Thread
assign_all zero i thread = thread
assign_all (suc n) i thread =
    let (buf, port) = ixmap_rx_assign i thread.buf (thread.ports i) in
    assign_all n (i + 1) (record thread { buf = buf; ports = update thread.ports i port })

pub receive : ℕ → ℕ → Thread → Thread
receive num_ports port_index thread =
    let (packets, port) = ixmap_rx_clean thread.buf (thread.ports port_index) in
    let cleaned : Thread = record thread { ports = update thread.ports port_index port } in
    xmit_all num_ports 0 (forward_process cleaned port_index packets)

pub transmitted : ℕ → ℕ → Thread → Thread
transmitted num_ports port_index thread =
    let (buf, port) = ixmap_tx_clean thread.buf (thread.ports port_index) in
    assign_all num_ports 0
      (record thread { buf = buf; ports = update thread.ports port_index port })

abbrev pub unmask : ℕ → ℕ → Thread → Thread
unmask port_index qmask thread = record thread {
  ports = update thread.ports port_index (ixmap_irq_unmask_queues (thread.ports port_index) qmask);
}

-- `read`, and `goto err_read` if it fails.
pub with_read : Reads → (List ℕ → Reads → Handled) → Handled
with_read [] go_on = stop blocked
with_read (none ∷ reads) go_on = stop failed
with_read (some bytes ∷ reads) go_on = go_on bytes reads

pub on_netlink : Parsed Control → Reads → Handled
on_netlink endless reads = stop running
on_netlink fault reads = stop crashed
on_netlink (parsed control) reads = went false control reads

-- The `switch` on the type of a descriptor. `num_ports` is the thread's, which nothing writes.
pub on_event : ℕ → Event → Control → Reads → Handled
on_event num_ports (epoll_irq_rx port_index qmask) control reads =
    let thread = receive num_ports port_index control.thread in
    with_read reads
      λ bytes rest. went true (set_thread control (unmask port_index qmask thread)) rest
on_event num_ports (epoll_irq_tx port_index qmask) control reads =
    let thread = transmitted num_ports port_index control.thread in
    with_read reads
      λ bytes rest. went true (set_thread control (unmask port_index qmask thread)) rest
on_event num_ports (epoll_tun port_index) control reads = with_read reads λ bytes rest.
    let thread = forward_process_tun control.thread port_index bytes in
    went true (set_thread control (xmit_all num_ports 0 thread)) rest
on_event num_ports epoll_netlink control reads =
    with_read reads
      λ bytes rest. on_netlink (netlink_process control (λ a. get_or bytes a 0) (length bytes)) rest
on_event num_ports epoll_signal control reads =
    with_read reads λ bytes rest. stop (returned control)

-- What follows an event at index `i`. The loops over the ports use the same `i`, and leave it at
-- the number of ports.
pub after_event : (ℕ → Control → Reads → Batch) → ℕ → ℕ → Handled → Batch
after_event go_on num_ports i (stop batch) = batch
after_event go_on num_ports i (went true control reads) = go_on (num_ports + 1) control reads
after_event go_on num_ports i (went false control reads) = go_on (i + 1) control reads

-- The loop over the events, at index `i`.
pub events_loop : ℕ → ℕ → List Event → ℕ → Control → Reads → Batch
events_loop num_ports zero events i control reads = running
events_loop num_ports (suc fuel) events i control reads = elim (get_elem? events i) [
  | none ↦ finished control reads
  | some event ↦
      after_event (events_loop num_ports fuel events) num_ports i
        (on_event num_ports event control reads)
]

-- The outer loop, on what the calls of epoll_wait to come report; `none` is an error.
pub thread_wait : ℕ → List (Option (List Event)) → Control → Reads → Batch
thread_wait fuel [] control reads = finished control reads
thread_wait fuel (none ∷ batches) control reads = failed
thread_wait fuel (some events ∷ batches) control reads =
    elim (events_loop control.num_ports fuel events 0 control reads) [
      | finished control' reads' ↦ thread_wait fuel batches control' reads'
      | batch ↦ batch
    ]
