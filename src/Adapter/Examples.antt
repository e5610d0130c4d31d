-- ===== src/Adapter/Examples.antt =====
-- An adapter of kmod/ixmap_main.c with two queues of each direction.
use ixmap.Base.{◌+◌, ◌≡◌, ◌↔◌, refl, [], ◌∷◌, Bool, true, false, none, some, arith, ltb}
use ixmap.Adapter.{
  Irq, null, live, Adapter, MacOps, MsixCalls, enabled, rx, enable_msix, request_irqs, enter_irqs,
  configure_irqs, ixmap_configure_msix, ixmap_irq_assign,
}
use ixmap.Adapter.Irqs.{
  nothing_held, HasIrqs, Configured, Decreasing, ixmap_configure_msix-Configured,
}
use ixmap.Adapter.Assign.{PastEnd, ixmap_irq_assign-eq-none}

-- The operations leave the registers alone; the link is up.
abbrev pub quiet_ops : MacOps
quiet_ops = record {
  init_hw = λ regs. regs;
  enable_tx_laser = none;
  disable_tx_laser = none;
  setup_link = none;
  check_link = none;
}

abbrev pub granting : MsixCalls
granting = record {
  entries_allocated = true;
  enable = λ n. enabled;
  vector = λ i. 40 + i;
  rx_array_allocated = true;
  tx_array_allocated = true;
  irq_allocated = λ v. true;
  irq_requested = λ v. true;
}

-- The third interrupt is refused.
abbrev short : MsixCalls
short = record granting { irq_requested = λ v. ltb v 2 }

-- After ixmap_probe.
abbrev pub probed : Adapter
probed = record {
  up = false;
  refcount = 1;
  regs = λ reg. 0;
  registers = true;
  iobase = 0x1000;
  iolen = 0x1000;
  areas = record { addr_dma = 0x1000; size = 0x1000; npages = 1 } ∷ [];
  max_msix_vectors = 64;
  msix_entries = none;
  num_q_vectors = 0;
  rx_irq = null;
  tx_irq = null;
  link_speed = 0;
  link_duplex = 0;
  num_rx_queues = 0;
  num_tx_queues = 0;
  num_interrupt_rate = 0;
  held = nothing_held;
}

abbrev two_queues : Adapter
two_queues = record probed { num_rx_queues = 2; num_tx_queues = 2 }

enables_all : Decreasing (λ n. enabled)
enables_all n m e = absurd (ground arith)

ixmap_configure_msix-Configured_example :
    (done : Bool) × (a' : Adapter) × (ixmap_configure_msix short two_queues ≡ some (done, a'))
    × Configured two_queues (done, a')
ixmap_configure_msix-Configured_example =
    ixmap_configure_msix-Configured short two_queues enables_all refl

-- The two that were granted are given back.
short_run : (a : Adapter) × (ixmap_configure_msix short two_queues ≡ some (false, a))
unfolding ixmap_configure_msix enable_msix configure_irqs enter_irqs request_irqs
short_run = (_, refl)

abbrev first_irq : Irq
first_irq = record { entry = 0; efd_ctx = none }

abbrev one_queue : Adapter
one_queue = record probed {
  num_rx_queues = 1;
  num_q_vectors = 1;
  rx_irq = live (first_irq ∷ []);
  tx_irq = live [];
  msix_entries = some (λ i. 40 + i);
  held = record { entries = 1; msix = true; arrays = 2; irqs = 1; handlers = 1; contexts = 0 };
}

one_queue-HasIrqs : HasIrqs one_queue
one_queue-HasIrqs = record {
  rx_list = first_irq ∷ [];
  tx_list = [];
  vectors = λ i. 40 + i;
  rx_live = refl;
  tx_live = refl;
  rx_length = refl;
  tx_length = refl;
  entries = refl;
  counted = refl;
  holds = refl;
}

ixmap_irq_assign-eq-none_example :
    (ixmap_irq_assign rx 1 (some 7) one_queue ≡ none) ↔ PastEnd rx 1 one_queue
ixmap_irq_assign-eq-none_example =
    ixmap_irq_assign-eq-none rx 1 (some 7) one_queue one_queue-HasIrqs
