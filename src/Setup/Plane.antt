-- ===== src/Setup/Plane.antt =====
-- ixmap_plane_alloc and ixmap_plane_release of lib/ixmap.c. `list` is ih_list from the loop's
-- position on.
use ixmap.Base.{ℕ, ◌+◌, ◌*◌, ◌%◌, ◌^◌, List, [], ◌∷◌, ◌++◌, length, Option, some}
use ixmap.Setup.{memory, World, acquire, release, attempt, Handle, irq_rx, irq_tx, HandleRing}
use ixmap.Setup.Irq.{IrqHandle, ixmap_irq_open, ixmap_irq_close}

-- The port of a plane as ixmap_plane_alloc fills it. `interface_name` is left out.
pub record PlanePort : Type 0 where
  pub irqreg_low : ℕ
  pub irqreg_high : ℕ
  pub rx_ring : HandleRing
  pub tx_ring : HandleRing
  pub rx_irq : IrqHandle
  pub tx_irq : IrqHandle
  pub rx_slot_next : ℕ
  pub rx_slot_offset : ℕ
  pub tx_suspended : ℕ
  pub mtu_frame : ℕ
  pub num_tx_desc : ℕ
  pub num_rx_desc : ℕ
  pub num_queues : ℕ
  pub rx_budget : ℕ
  pub tx_budget : ℕ
  pub mac_addr : List ℕ
  pub count_rx_alloc_failed : ℕ
  pub count_rx_clean_total : ℕ
  pub count_tx_xmit_failed : ℕ
  pub count_tx_clean_total : ℕ

pub record Plane : Type 0 where
  pub at : ℕ
  pub ports_at : ℕ
  pub ports : List PlanePort

abbrev pub sizeof_plane : ℕ
sizeof_plane = 8

abbrev pub sizeof_port : ℕ
sizeof_port = 136

-- IXGBE_EIMS_EX(i).
abbrev pub eims_ex : ℕ → ℕ
eims_ex i = 0x00aa0 + i * 4

abbrev pub plane_port : Handle → ℕ → ℕ → ℕ → IrqHandle → IrqHandle → PlanePort
plane_port ih core_id buf_count i rx_irq tx_irq = record {
  irqreg_low = ih.bar + eims_ex 0;
  irqreg_high = ih.bar + eims_ex 1;
  rx_ring = ih.rx_ring core_id;
  tx_ring = ih.tx_ring core_id;
  rx_irq = rx_irq;
  tx_irq = tx_irq;
  rx_slot_next = 0;
  rx_slot_offset = i * buf_count % 2 ^ 32;
  tx_suspended = 0;
  mtu_frame = ih.mtu_frame;
  num_tx_desc = ih.num_tx_desc;
  num_rx_desc = ih.num_rx_desc;
  num_queues = ih.num_queues;
  rx_budget = ih.rx_budget;
  tx_budget = ih.tx_budget;
  mac_addr = ih.mac_addr;
  count_rx_alloc_failed = 0;
  count_rx_clean_total = 0;
  count_tx_xmit_failed = 0;
  count_tx_clean_total = 0;
}

-- The loop that closes the interrupts of ports.
unfoldable pub close_ports : List PlanePort → World → World
close_ports [] w = w
close_ports (port ∷ ports) w =
    close_ports ports (ixmap_irq_close port.tx_irq (ixmap_irq_close port.rx_irq w))

-- The loop over the handles; `assigned` are the ports so far.
unfoldable pub assign_ports :
    ℕ → ℕ → List Handle → ℕ → List PlanePort → World → Option (List PlanePort) × World
assign_ports core_id buf_count [] i assigned w = (some assigned, w)
assign_ports core_id buf_count (ih ∷ list) i assigned w =
    attempt (ixmap_irq_open ih core_id irq_rx w) (close_ports assigned) λ rx_irq w.
      attempt (ixmap_irq_open ih core_id irq_tx w)
        (λ w. close_ports assigned (ixmap_irq_close rx_irq w))
        λ tx_irq w.
          assign_ports core_id buf_count list (i + 1)
            (assigned ++ plane_port ih core_id buf_count i rx_irq tx_irq ∷ []) w

unfoldable pub ixmap_plane_alloc : List Handle → ℕ → ℕ → World → Option Plane × World
ixmap_plane_alloc ih_list buf_count core_id w =
    let ports_size = sizeof_port * length ih_list in
    attempt (acquire (λ at. memory at sizeof_plane) w) (λ w. w)
      λ at w.
        attempt (acquire (λ at. memory at ports_size) w) (release (memory at sizeof_plane))
          λ ports_at w.
            attempt (assign_ports core_id buf_count ih_list 0 [] w)
              (λ w. release (memory at sizeof_plane) (release (memory ports_at ports_size) w))
              λ ports w. (some (record { at = at; ports_at = ports_at; ports = ports }), w)

unfoldable pub ixmap_plane_release : Plane → ℕ → World → World
ixmap_plane_release plane ih_num w =
    release (memory plane.at sizeof_plane)
      (release (memory plane.ports_at (sizeof_port * ih_num)) (close_ports plane.ports w))
