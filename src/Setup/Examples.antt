-- ===== src/Setup/Examples.antt =====
-- Two devices set up for core 1 (lib/ixmap.c), where the system answers every request, and a device
-- whose second array of rings cannot be had.
use ixmap.Base.{ℕ, zero, suc, ◌+◌, List, [], ◌∷◌, Option, some, arith, refl}
use ixmap.Setup.{World, Handle, HandleRing}
use ixmap.Setup.Balance.{nothing, Gains-self, Returns}
use ixmap.Setup.Plane.{Plane, ixmap_plane_alloc, ixmap_plane_release}
use ixmap.Setup.Planes.{ixmap_plane_alloc-Returns}
use ixmap.Setup.Desc.{Desc, no_node, ixmap_desc_alloc, ixmap_desc_release}
use ixmap.Setup.Rings.{grow, ixmap_desc_alloc-Returns}
use ixmap.Setup.Layout.{Whenever, DescLaid, ixmap_desc_alloc-DescLaid}
use ixmap.Setup.Open.{InfoReq, OpenArgs, ixmap_open}
use ixmap.Setup.Handles.{OpenReturns, ixmap_open-OpenReturns}

abbrev blank : HandleRing
blank = record {
  addr_virt = 0;
  addr_dma = 0;
  next_to_use = 0;
  next_to_clean = 0;
  slot_index = 0;
  tail = 0;
}

abbrev device : ℕ → Handle
device fd = record {
  fd = fd;
  bar = 0x10_0000 + fd;
  bar_size = 0x8_0000;
  rx_array = 0x20_0000 + fd;
  tx_array = 0x30_0000 + fd;
  rx_ring = λ q. blank;
  tx_ring = λ q. blank;
  num_tx_desc = 256;
  num_rx_desc = 512;
  rx_budget = 64;
  tx_budget = 64;
  num_queues = 4;
  num_interrupt_rate = 8;
  promisc = 1;
  mtu_frame = 1514;
  buf_size = 0;
  mac_addr = [];
}

abbrev devices : List Handle
devices = device 5 ∷ device 6 ∷ []

abbrev numbers : ℕ → ℕ → List (Option ℕ)
numbers from zero = []
numbers from (suc n) = some from ∷ numbers (from + 128) n

abbrev world : List (Option ℕ) → World
world answers = record { answers = answers; live = λ r. 0; strays = 0; calls = [] }

abbrev idle : World → World
idle w = w

ixmap_plane_alloc-Returns_example :
    Returns
      (λ (plane : Plane). ixmap_plane_release plane 2)
      nothing
      idle
      (world (numbers 1024 9))
      (ixmap_plane_alloc devices 2048 1 (world (numbers 1024 9)))
ixmap_plane_alloc-Returns_example =
    ixmap_plane_alloc-Returns devices 2048 1 nothing idle (world (numbers 1024 9))
      (λ w. Gains-self w)

ixmap_desc_alloc-Returns_example :
    Returns
      (λ (d : Desc × List Handle). ixmap_desc_release d.1 1 (grow no_node no_node d.0))
      nothing
      idle
      (world (numbers 4096 11))
      (ixmap_desc_alloc devices 1 (world (numbers 4096 11)))
ixmap_desc_alloc-Returns_example =
    ixmap_desc_alloc-Returns devices 1 no_node no_node nothing idle (world (numbers 4096 11))
      (λ w. Gains-self w)

ixmap_desc_alloc-DescLaid_example :
    Whenever (DescLaid 1) (ixmap_desc_alloc devices 1 (world (numbers 4096 11)))
ixmap_desc_alloc-DescLaid_example =
    ixmap_desc_alloc-DescLaid devices 1 (world (numbers 4096 11)) (omega arith, (omega arith, tt))

abbrev args : OpenArgs
args = record {
  num_queues_req = 4;
  intr_rate = 8;
  rx_budget = 64;
  tx_budget = 64;
  mtu_frame = 1514;
  promisc = 1;
  num_rx_desc = 512;
  num_tx_desc = 512;
}

abbrev info : InfoReq
info = record {
  mmio_size = 0x8_0000;
  max_interrupt_rate = 4096;
  max_rx_queues = 16;
  max_tx_queues = 16;
  mac_addr = [];
}

-- malloc, open, both requests and mmap succeed, and so does the first array.
abbrev short : World
short = world (numbers 4096 6)

ixmap_open-OpenReturns_example :
    OpenReturns 0x8_0000 nothing idle short (ixmap_open args info (λ q. blank) short)
ixmap_open-OpenReturns_example =
    ixmap_open-OpenReturns args info (λ q. blank) nothing idle short (omega arith) (λ bar. refl)
      (λ w. Gains-self w)
